-- ===== src/Insights/Filter.antt =====
-- pipeline/content-filter.service.ts. The engine of regular expressions and the lower case of a text
-- are the language's, and parameters here: `replace_all` gives the text in which each match of a
-- pattern is replaced, and how many there were.
use gen_xtaxi_ai.Common.{ℕ, ◌+◌, Bool, true, false, ◌||◌, List, [], ◌∷◌, any, ◌&&◌, ◌==◌}
use gen_xtaxi_ai.Common.Text.{Text, codes}

-- The patterns of `PII`, by what they are for.
pub data Pattern : Type 0 where
  card_pan phone email : Pattern

abbrev pub pii : List Pattern
pii = card_pan ∷ phone ∷ email ∷ []

-- Those in Arabic script are given by their code units.
unfoldable pub toxic_words : List Text
unfolding codes
toxic_words =
    codes "idiot"
    ∷ codes "stupid"
    ∷ codes "trash"
    ∷ codes "garbage"
    ∷ codes "connard"
    ∷ codes "salaud"
    ∷ codes "merde"
    ∷ (0x643 ∷ 0x644 ∷ 0x628 ∷ [])
    ∷ (0x62d ∷ 0x642 ∷ 0x64a ∷ 0x631 ∷ [])
    ∷ (0x63a ∷ 0x628 ∷ 0x64a ∷ [])
    ∷ []

pub record FilterResult : Type 0 where
  pub clean : Text
  pub toxic : Bool
  pub redactions : ℕ

abbrev starts_with : Text → Text → Bool
starts_with [] s = true
starts_with (c ∷ t) [] = false
starts_with (c ∷ t) (d ∷ s) = c == d && starts_with t s

-- `s.includes(t)`
unfoldable pub contains : Text → Text → Bool
contains [] t = starts_with t []
contains (c ∷ s) t = starts_with t (c ∷ s) || contains s t

module _ (replace_all : Pattern → Text → Text × ℕ) (lower : Text → Text) where
  abbrev pub mask : List Pattern → Text → ℕ → Text × ℕ
  mask [] clean n = (clean, n)
  mask (p ∷ ps) clean n =
      let (replaced, found) = replace_all p clean in mask ps replaced (n + found)

  unfoldable pub filter : Text → FilterResult
  unfolding contains toxic_words
  filter text =
      let (clean, redactions) = mask pii text 0 in
      record {
        clean = clean;
        toxic = any (contains (lower clean)) toxic_words;
        redactions = redactions;
      }
