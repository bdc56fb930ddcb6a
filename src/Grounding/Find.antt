-- ===== src/Grounding/Find.antt =====
-- The matches of `CURRENCY_NUMBER`: a currency and a number, or a number and a currency. A match by
-- the first alternative is preferred, and the next search begins behind a match. No two currencies
-- of the list begin alike, and neither a space nor a currency begins with a digit, a dot or a comma,
-- so the regular expression has nothing to backtrack over.
use gen_xtaxi_ai.Common.{
  ℕ, zero, suc, ◌+◌, ◌-◌, Bool, ◌||◌, Option, none, some, List, [], ◌∷◌, ◌==◌, if◌then◌else◌,
  length, take,
}
use gen_xtaxi_ai.Common.Text.{Text, upper, is_digit, is_space, span}

pub record Match : Type 0 where
  -- `match[1] ?? match[2]`
  pub number : Text
  -- `match[0].length`
  pub size : ℕ

abbrev pub currencies : List Text
currencies =
    (68 ∷ 90 ∷ 68 ∷ [])
    ∷ (69 ∷ 85 ∷ 82 ∷ [])
    ∷ (85 ∷ 83 ∷ 68 ∷ [])
    ∷ (88 ∷ 79 ∷ 70 ∷ [])
    ∷ (77 ∷ 65 ∷ 68 ∷ [])
    ∷ (84 ∷ 78 ∷ 68 ∷ [])
    ∷ (78 ∷ 71 ∷ 78 ∷ [])
    ∷ (68 ∷ 65 ∷ [])
    ∷ (67 ∷ 70 ∷ 65 ∷ [])
    ∷ (68 ∷ 72 ∷ [])
    ∷ (68 ∷ 84 ∷ [])
    ∷ (8364 ∷ [])
    ∷ (36 ∷ [])
    ∷ (8358 ∷ [])
    ∷ []

-- What follows a prefix, which is compared without regard to case.
unfoldable pub strip : Text → Text → Option Text
unfolding upper
strip [] s = some s
strip (d ∷ ds) [] = none
strip (d ∷ ds) (c ∷ s) = if upper c == d then strip ds s else none

-- How long the currency at the head of a text is, and what follows it.
unfoldable pub strip_any : List Text → Text → Option (ℕ × Text)
strip_any [] s = none
strip_any (c ∷ cs) s = elim (strip c s) [ some r ↦ some (length c, r) | none ↦ strip_any cs s ]

-- `[\d.,]`
abbrev pub is_number_unit : ℕ → Bool
is_number_unit c = is_digit c || (c == b'.' || c == b',')

abbrev pub number_of : Text → ℕ → Option Match
number_of [] n = none
number_of (d ∷ ds) n = some (record { number = d ∷ ds; size = n })

-- A currency, spaces and a number at the head of a text.
unfoldable pub match_prefix : Text → Option Match
match_prefix s = elim (strip_any currencies s) [
  | none ↦ none
  | some (n, r) ↦
      let (spaces, after) = span is_space r in
      let (number, _) = span is_number_unit after in
      number_of number (n + (length spaces + length number))
]

-- A number, spaces and a currency at the head of a text.
abbrev pub suffix_of : Text → Text → Option Match
suffix_of [] r = none
suffix_of (d ∷ ds) r =
    let (spaces, after) = span is_space r in
    elim (strip_any currencies after) [
      | none ↦ none
      | some (n, _) ↦ number_of (d ∷ ds) (length (d ∷ ds) + (length spaces + n))
    ]

unfoldable pub match_suffix : Text → Option Match
match_suffix s = let (number, r) = span is_number_unit s in suffix_of number r

unfoldable pub match_at : Text → Option Match
match_at s = elim (match_prefix s) [ some m ↦ some m | none ↦ match_suffix s ]

-- `matchAll`, with each match's text; `skip` units belong to the last match. No match is empty.
unfoldable pub matches_from : ℕ → Text → List (Match × Text)
matches_from skip [] = []
matches_from (suc skip) (c ∷ s) = matches_from skip s
matches_from zero (c ∷ s) = elim (match_at (c ∷ s)) [
  | none ↦ matches_from 0 s
  | some m ↦ (m, take m.size (c ∷ s)) ∷ matches_from (m.size - 1) s
]

unfoldable pub matches : Text → List (Match × Text)
unfolding matches_from
matches = matches_from 0
