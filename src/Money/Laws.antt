-- ===== src/Money/Laws.antt =====
-- `MoneyOps.of` and `MoneyOps.add` of packages/ai-shared/src/money/money.ts.
use gen_xtaxi_ai.Common.{
  ℕ, suc, subst, ◌*◌, ◌^◌, ◌%◌, ◌≤◌, ◌≡◌, ◌≢◌, true, false, Option, some, [], ◌∷◌, arith,
}
use gen_xtaxi_ai.Common.Int.{ℤ, pos, negsuc, pos_part, neg_part, ◌+ℤ◌}
use gen_xtaxi_ai.Common.Number.{
  Fraction, Number, finite, infinite, nan, whole, den, magnitude, trunc, as_integer, IsDouble,
  pos_part-negate_ℕ, neg_part-negate_ℕ,
}
use gen_xtaxi_ai.Common.Text.{Text, upper, to_upper, text_eq, text_eq_iff}
use gen_xtaxi_ai.Money.{Money, ok, err, cannot_add, is_capital, is_iso_4217, or_empty, of, add}

-- The currency is a code of three capital letters.
abbrev pub IsValid : Money → Type 0
IsValid m = is_iso_4217 m.currency ≡ true

upper_of_capital : (c : ℕ) → is_capital c ≡ true → upper c ≡ c
unfolding upper
upper_of_capital c h = ground arith

pub to_upper_of_iso : (t : Text) → is_iso_4217 t ≡ true → to_upper t ≡ t
unfolding is_iso_4217 to_upper
to_upper_of_iso (a ∷ b ∷ c ∷ []) h =
    ground (arith, upper_of_capital a, upper_of_capital b, upper_of_capital c)
to_upper_of_iso [] h = cc
to_upper_of_iso (a ∷ []) h = cc
to_upper_of_iso (a ∷ b ∷ []) h = cc
to_upper_of_iso (a ∷ b ∷ c ∷ d ∷ t) h = cc

pub as_integer-whole : (n : ℤ) → as_integer (finite (whole n)) ≡ some n
unfolding as_integer trunc
as_integer-whole (pos n) = ground arith
as_integer-whole (negsuc n) = ground arith

-- The number that `of` took for an integer is that integer.
abbrev pub IsInteger : Number → ℤ → Type 0
IsInteger (finite f) n =
    (pos_part f.num ≡ pos_part n * den f) × (neg_part f.num ≡ neg_part n * den f)
IsInteger (infinite s) n = ⊥
IsInteger nan n = ⊥

as_integer-trunc :
    (f : Fraction) (n : ℤ)
    → as_integer (finite f) ≡ some n
    → (magnitude f.num % den f ≡ 0) × (trunc f ≡ n)
unfolding as_integer
as_integer-trunc f n e = ground arith

trunc_divides :
    (z : ℤ) (b : ℕ)
    → magnitude z % suc b ≡ 0
    → let n = trunc (record { num = z; below = b }) in
      (pos_part z ≡ pos_part n * suc b) × (neg_part z ≡ neg_part n * suc b)
unfolding trunc
trunc_divides (pos k) b e = grind arith
trunc_divides (negsuc k) b e = simp (pos_part-negate_ℕ, neg_part-negate_ℕ) (grind arith)

pub as_integer-IsInteger : (a : Number) (n : ℤ) → as_integer a ≡ some n → IsInteger a n
as_integer-IsInteger (finite f) n e =
    let (divides, same) = as_integer-trunc f n e in
    subst (IsInteger (finite f)) same (trunc_divides f.num f.below divides)
as_integer-IsInteger (infinite s) n e = unfold as_integer in cc e
as_integer-IsInteger nan n e = unfold as_integer in cc e

pub of_ok :
    (n : ℤ) (t : Text)
    → is_iso_4217 t ≡ true
    → of (finite (whole n)) (some t) ≡ ok (record { amount = n; currency = t })
unfolding of
of_ok n t h = rw (as_integer-whole n, of, to_upper_of_iso t h, h)

pub of_inv :
    (a : Number) (c : Option Text) (m : Money)
    → of a c ≡ ok m
    → (as_integer a ≡ some m.amount)
      × (m.currency ≡ to_upper (or_empty c))
      × (is_iso_4217 (to_upper (or_empty c)) ≡ true)
unfolding of
of_inv a c m e = ground arith

pub of-IsValid : (a : Number) (c : Option Text) (m : Money) → of a c ≡ ok m → IsValid m
of-IsValid a c m e = let (_, same, iso) = of_inv a c m e in rw same iso

-- Every money that `of` makes has the integer that it was given, as its amount, and a valid currency
-- code, the one given in capitals; and `of` gives that same money for its own two fields.
pub of_sound :
    (a : Number) (c : Option Text) (m : Money)
    → of a c ≡ ok m
    → IsValid m
      × IsInteger a m.amount
      × (m.currency ≡ to_upper (or_empty c))
      × (of (finite (whole m.amount)) (some m.currency) ≡ ok m)
of_sound a c m e =
    let (integer, same, iso) = of_inv a c m e in
    let valid = of-IsValid a c m e in
    (valid, as_integer-IsInteger a m.amount integer, same, of_ok m.amount m.currency valid)

abbrev pub IsSafe : ℤ → Type 0
IsSafe n = magnitude n ≤ 2 ^ 53

module _ (fl : Fraction → Number) (double : IsDouble fl) where
  pub fl-whole : (n : ℤ) → IsSafe n → fl (whole n) ≡ finite (whole n)
  fl-whole n h = double.exact (whole n) n h (omega arith) (omega arith)

  -- Valid amounts of two currencies are refused, with both named; those of one currency add up
  -- exactly, in that currency, if the sum is a safe integer.
  pub add_exact :
      (a b : Money)
      → IsValid a
      → IsValid b
      → (a.currency ≢ b.currency → add fl a b ≡ err (cannot_add a.currency b.currency))
        × (a.currency ≡ b.currency
            → IsSafe (a.amount +ℤ b.amount)
            → add fl a b ≡ ok (record { amount = a.amount +ℤ b.amount; currency = a.currency }))
  unfolding add
  add_exact a b va vb = (
    λ other.
        let differs : text_eq a.currency b.currency ≡ false =
          ground (arith, text_eq_iff a.currency b.currency) in
        simp (to_upper_of_iso a.currency va, to_upper_of_iso b.currency vb, differs),
    λ same h.
        let equal = (text_eq_iff a.currency b.currency).1 same in
        simp (
          to_upper_of_iso a.currency va,
          to_upper_of_iso b.currency vb,
          equal,
          fl-whole (a.amount +ℤ b.amount) h,
          of_ok (a.amount +ℤ b.amount) a.currency va,
        ),
  )
