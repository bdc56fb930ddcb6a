-- ===== src/Cards.antt =====
-- The card numbers that `/\b(?:\d[ -]?){13,19}\b/g` finds, as chat-orchestrator's payment history
-- (src/tools/tool-executor.service.ts) and ai-gateway's redaction (src/redaction/redaction.service.ts)
-- replace them: 13 to 19 digits, each with at most one space or hyphen behind it, between word
-- boundaries. The greedy match is tried first, as the regular expression does.
pub mod Laws
use gen_xtaxi_ai.Common.{
  ℕ, zero, suc, ◌+◌, ◌-◌, Bool, true, false, not, ◌&&◌, ◌||◌, Option, none, some, List, [], ◌∷◌,
  ◌++◌, leb, ◌==◌, if◌then◌else◌,
}
use gen_xtaxi_ai.Common.Text.{Text, codes, is_digit}

-- `\w`
abbrev pub is_word : ℕ → Bool
is_word c = is_digit c || (leb b'a' c && leb c b'z') || ((leb b'A' c && leb c b'Z') || c == b'_')

abbrev pub is_separator : ℕ → Bool
is_separator c = c == b' ' || c == b'-'

abbrev pub word_ahead : Text → Bool
word_ahead [] = false
word_ahead (c ∷ s) = is_word c

abbrev or_else : Option ℕ → Option ℕ → Option ℕ
or_else none o = o
or_else (some n) o = some n

-- The match ends behind digit `n`, with its separator if a word follows that, or without it.
abbrev ends_behind : ℕ → ℕ → Text → Option ℕ
ends_behind n size [] = if leb 13 n then some size else none
ends_behind n size (c ∷ s) =
    if leb 13 n && (is_separator c && word_ahead s)
    then some (suc size)
    else if leb 13 n && not (is_word c)
    then some size
    else none

-- The length of the card number at the head of a text, of `n` digits and `size` units before it and
-- at most `k` digits more.
unfoldable pub card_from : ℕ → ℕ → ℕ → Text → Option ℕ
card_from zero n size s = none
card_from (suc k) n size [] = none
card_from (suc k) n size (d ∷ []) = if is_digit d then ends_behind (suc n) (suc size) [] else none
card_from (suc k) n size (d ∷ c ∷ s) =
    let skip = card_from k (suc n) (suc (suc size)) s in
    let next = card_from k (suc n) (suc size) (c ∷ s) in
    if is_digit d
    then or_else (if is_separator c then skip else next) (ends_behind (suc n) (suc size) (c ∷ s))
    else none

-- `replace(…, '[REDACTED_CARD]')`; `skip` units belong to the last match, and `word` says whether the
-- unit before is of a word.
unfoldable pub replace_from : ℕ → Bool → Text → Text
replace_from skip word [] = []
replace_from (suc skip) word (c ∷ s) = replace_from skip (is_word c) s
replace_from zero word (c ∷ s) = elim (if word then none else card_from 19 0 0 (c ∷ s)) [
  | none ↦ c ∷ replace_from 0 (is_word c) s
  | some n ↦ codes "[REDACTED_CARD]" ++ replace_from (n - 1) (is_word c) s
]

unfoldable pub replace_cards : Text → Text
unfolding replace_from card_from
replace_cards = replace_from 0 false
