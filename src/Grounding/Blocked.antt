-- ===== src/Grounding/Blocked.antt =====
-- Where the search of grounding.service.ts finds a number that a currency follows.
use gen_xtaxi_ai.Common.{
  ℕ, ◌+◌, ◌-◌, ◌≡◌, ◌≢◌, inl, inr, refl, Bool, true, false, none, some, List, [], ◌∷◌, ◌++◌, arith,
  length, take, Bool-cases, All, Any,
}
use gen_xtaxi_ai.Common.Number.{Fraction, Number}
use gen_xtaxi_ai.Common.Text.{Text, upper, span, is_space}
use gen_xtaxi_ai.MoneyScan.{ScannedMoney}
use gen_xtaxi_ai.Grounding.{stated, check}
use gen_xtaxi_ai.Grounding.Laws.{IsAmount, IsGrounded, check_iff}
use gen_xtaxi_ai.Grounding.Find.{
  Match, currencies, strip, strip_any, is_number_unit, match_prefix, match_suffix, suffix_of,
  match_at, matches_from, matches,
}

abbrev BeginsNot : ℕ → Text → Type 0
BeginsNot c [] = ⊥
BeginsNot c (d ∷ ds) = upper c ≢ d

-- The unit begins no currency.
abbrev NoCurrency : ℕ → Type 0
NoCurrency c = All (BeginsNot c) currencies

-- No match begins in the first text, with the second behind it.
abbrev pub BeginsNone : Text → Text → Type 0
BeginsNone [] s = Unit
BeginsNone (c ∷ pre) s = (match_at (c ∷ (pre ++ s)) ≡ none) × BeginsNone pre s

strip-none : (d : ℕ) (ds : Text) (c : ℕ) (s : Text) → upper c ≢ d → strip (d ∷ ds) (c ∷ s) ≡ none
unfolding strip
strip-none d ds c s h = ground arith

strip_any-none :
    (cs : List Text) (c : ℕ) (s : Text) → All (BeginsNot c) cs → strip_any cs (c ∷ s) ≡ none
unfolding strip_any
strip_any-none [] c s h = refl
strip_any-none ([] ∷ cs) c s h = absurd h.0
strip_any-none ((d ∷ ds) ∷ cs) c s h =
    rw (strip-none d ds c s h.0, strip_any) (strip_any-none cs c s h.1)

number_unit-NoCurrency : (c : ℕ) → is_number_unit c ≡ true → NoCurrency c
unfolding upper
number_unit-NoCurrency c h = ground arith

space-NoCurrency : (c : ℕ) → is_space c ≡ true → NoCurrency c
unfolding upper
space-NoCurrency c h = ground arith

space-not_number : (c : ℕ) → is_space c ≡ true → is_number_unit c ≡ false
space-not_number c h = ground arith

-- A text cannot begin with a number or a space and a currency at once.
strip_any_head :
    (c : ℕ) (s : Text) {r : ℕ × Text} → strip_any currencies (c ∷ s) ≡ some r → NoCurrency c → ⊥
strip_any_head c s e h = cc (strip_any-none currencies c s h, e)

not_number_head :
    (c : ℕ) (s : Text) {r : ℕ × Text}
    → strip_any currencies (c ∷ s) ≡ some r
    → is_number_unit c ≡ false
not_number_head c s e = elim (Bool-cases (is_number_unit c)) [
  | inl h ↦ absurd (strip_any_head c s e (number_unit-NoCurrency c h))
  | inr h ↦ h
]

not_space_head :
    (c : ℕ) (s : Text) {r : ℕ × Text} → strip_any currencies (c ∷ s) ≡ some r → is_space c ≡ false
not_space_head c s e = elim (Bool-cases (is_space c)) [
  | inl h ↦ absurd (strip_any_head c s e (space-NoCurrency c h))
  | inr h ↦ h
]

span-append :
    (p : ℕ → Bool) (xs : Text) (c : ℕ) (s : Text)
    → All (λ x. p x ≡ true) xs
    → p c ≡ false
    → span p (xs ++ c ∷ s) ≡ (xs, c ∷ s)
unfolding span
span-append p [] c s h e = ground arith
span-append p (x ∷ xs) c s h e = rw (span-append p xs c s h.1 e) (ground arith)

number_span :
    (ds spaces : Text) (c : ℕ) (t : Text) {r : ℕ × Text}
    → All (λ d. is_number_unit d ≡ true) ds
    → All (λ x. is_space x ≡ true) spaces
    → strip_any currencies (c ∷ t) ≡ some r
    → span is_number_unit (ds ++ (spaces ++ c ∷ t)) ≡ (ds, spaces ++ c ∷ t)
number_span ds [] c t h k e = span-append is_number_unit ds c t h (not_number_head c t e)
number_span ds (x ∷ xs) c t h k e =
    span-append is_number_unit ds x (xs ++ c ∷ t) h (space-not_number x k.0)

space_span :
    (spaces : Text) (c : ℕ) (t : Text) {r : ℕ × Text}
    → All (λ x. is_space x ≡ true) spaces
    → strip_any currencies (c ∷ t) ≡ some r
    → span is_space (spaces ++ c ∷ t) ≡ (spaces, c ∷ t)
space_span spaces c t k e = span-append is_space spaces c t k (not_space_head c t e)

-- The match of a number, spaces and a currency.
abbrev amount_match : Text → Text → ℕ → Match
amount_match ds spaces n = record { number = ds; size = length ds + (length spaces + n) }

match_prefix-none : (c : ℕ) (s : Text) → NoCurrency c → match_prefix (c ∷ s) ≡ none
unfolding match_prefix
match_prefix-none c s h = rw (strip_any-none currencies c s h, match_prefix)

match_suffix_amount :
    (d : ℕ) (ds spaces : Text) (c : ℕ) (t : Text) (n : ℕ) (post : Text)
    → All (λ x. is_number_unit x ≡ true) (d ∷ ds)
    → All (λ x. is_space x ≡ true) spaces
    → strip_any currencies (c ∷ t) ≡ some (n, post)
    → match_suffix (d ∷ (ds ++ (spaces ++ c ∷ t))) ≡ some (amount_match (d ∷ ds) spaces n)
unfolding match_suffix
match_suffix_amount d ds spaces c t n post h k e =
    let space = space_span spaces c t k e in
    rw (number_span (d ∷ ds) spaces c t h k e, suffix_of, space, e, space)

match_at_amount :
    (d : ℕ) (ds spaces : Text) (c : ℕ) (t : Text) (n : ℕ) (post : Text)
    → All (λ x. is_number_unit x ≡ true) (d ∷ ds)
    → All (λ x. is_space x ≡ true) spaces
    → strip_any currencies (c ∷ t) ≡ some (n, post)
    → match_at (d ∷ (ds ++ (spaces ++ c ∷ t))) ≡ some (amount_match (d ∷ ds) spaces n)
match_at_amount d ds spaces c t n post h k e =
    unfold match_at in
    rw (
      match_prefix-none d (ds ++ (spaces ++ c ∷ t)) (number_unit-NoCurrency d h.0),
      match_at,
      match_suffix_amount d ds spaces c t n post h k e,
    )

matches_behind : (pre s : Text) → BeginsNone pre s → matches (pre ++ s) ≡ matches s
unfolding matches
matches_behind [] s h = refl
matches_behind (c ∷ pre) s h = rw (h.0, matches_from) (matches_behind pre s h.1)

module _ (fl : Fraction → Number) where
  first_match :
      (c : ℕ) (s : Text) (m : Match) (allowed : List ScannedMoney)
      → match_at (c ∷ s) ≡ some m
      → All (λ x. IsGrounded fl allowed x.0) (matches (c ∷ s))
      → IsGrounded fl allowed m
  first_match c s m allowed e h =
      let opened : All (λ x. IsGrounded fl allowed x.0) (matches_from 0 (c ∷ s)) =
        unfold matches in h in
      let at_match : All (λ x. IsGrounded fl allowed x.0)
          ((m, take m.size (c ∷ s)) ∷ matches_from (m.size - 1) s) =
        unfold matches_from in rw (e, matches_from) at opened in
      at_match.0

  -- Wherever a reply states a number and then a currency, behind a text in which no match begins, the
  -- double of the number has to be near an amount that a tool returned for the reply to pass the check.
  pub check-IsAmount :
      (pre : Text) (d : ℕ) (ds spaces : Text) (c : ℕ) (t : Text) (n : ℕ) (post : Text) (v : Number)
      (allowed : List ScannedMoney)
      → BeginsNone pre (d ∷ (ds ++ (spaces ++ c ∷ t)))
      → All (λ x. is_number_unit x ≡ true) (d ∷ ds)
      → All (λ x. is_space x ≡ true) spaces
      → strip_any currencies (c ∷ t) ≡ some (n, post)
      → stated fl (record { number = d ∷ ds; size = length (d ∷ ds) + (length spaces + n) })
        ≡ some v
      → (check fl (pre ++ (d ∷ (ds ++ (spaces ++ c ∷ t)))) allowed).grounded ≡ true
      → Any (IsAmount fl v) allowed
  check-IsAmount pre d ds spaces c t n post v allowed plain number space currency value grounded =
      let all = (check_iff fl (pre ++ (d ∷ (ds ++ (spaces ++ c ∷ t)))) allowed).0 grounded in
      let found = rw (matches_behind pre (d ∷ (ds ++ (spaces ++ c ∷ t))) plain) at all in
      first_match d (ds ++ (spaces ++ c ∷ t)) (amount_match (d ∷ ds) spaces n) allowed
        (match_at_amount d ds spaces c t n post number space currency) found v value
