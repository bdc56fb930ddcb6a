-- ===== src/Money/Tests.antt =====
-- The rules of rounding and the operations on concrete amounts, with an ideal arithmetic that rounds
-- nothing and gives integers in their whole form.
use native.Mathlib.Nat.{mul-mod_left, mul-div_cancel}
use gen_xtaxi_ai.Common.{
  ℕ, suc, ◌*◌, ◌/◌, ◌%◌, ◌≡◌, ◌≢◌, refl, true, false, Option, none, some, [], ◌∷◌, arith, ap, sym,
}
use gen_xtaxi_ai.Common.Int.{ℤ, pos, negsuc, pos_part, neg_part, ◌*ℤ◌, ◌+ℤ◌}
use gen_xtaxi_ai.Common.Number.{
  Fraction, Number, finite, whole, trunc, floor, rest, round_away, as_integer, IsDouble,
  is_negative, is_finite, times,
}
use gen_xtaxi_ai.Common.Text.{codes, to_upper, text_eq}
use gen_xtaxi_ai.Money.{
  Money, half_even, half_up, CurrencyConfig, FxRateSnapshot, ok, err, cannot_add, invalid_code,
  not_integer, is_iso_4217, of, add, round_fraction, round_minor, multiply, convert, or_empty,
}
use gen_xtaxi_ai.Money.Rounding.{Rounds, round_fraction-Rounds}
use gen_xtaxi_ai.Money.Laws.{IsSafe, IsValid, IsInteger, as_integer-IsInteger, of_sound, add_exact}
use gen_xtaxi_ai.Money.Conversion.{NotNegative, multiply_keeps, convert_exact}

abbrev keep_or : Fraction → Option ℤ → Number
keep_or f none = finite f
keep_or f (some n) = finite (whole n)

ideal : Fraction → Number
ideal f = keep_or f (as_integer (finite f))

as_integer_of_parts :
    (z : ℤ) (b : ℕ) (n : ℤ)
    → pos_part z ≡ pos_part n * suc b
    → neg_part z ≡ neg_part n * suc b
    → as_integer (finite (record { num = z; below = b })) ≡ some n
unfolding as_integer trunc
as_integer_of_parts (pos k) b (pos n) p q =
    let zero_rest = mul-mod_left n (suc b) in
    let back = mul-div_cancel n {n = suc b} (omega arith) in
    let r : k % suc b ≡ 0 = rw p zero_rest in let d : k / suc b ≡ n = rw p back in ground arith
as_integer_of_parts (pos k) b (negsuc n) p q = absurd (grind arith)
as_integer_of_parts (negsuc k) b (pos n) p q = absurd (grind arith)
as_integer_of_parts (negsuc k) b (negsuc n) p q =
    let zero_rest = mul-mod_left (suc n) (suc b) in
    let back = mul-div_cancel (suc n) {n = suc b} (omega arith) in
    let r : suc k % suc b ≡ 0 = rw q zero_rest in
    let d : suc k / suc b ≡ suc n = rw q back in rw d (ground arith)

IsInteger-sign :
    (n : ℤ) (f : Fraction) → IsInteger (finite f) n → neg_part f.num ≡ 0 → is_negative n ≡ false
IsInteger-sign (pos n) f h z = refl
IsInteger-sign (negsuc n) f (_, h) z = absurd (grind arith)

keep_or_sign :
    (f : Fraction) (o : Option ℤ)
    → neg_part f.num ≡ 0
    → o ≡ as_integer (finite f)
    → NotNegative (keep_or f o)
keep_or_sign f none h e = ground arith
keep_or_sign f (some n) h e = IsInteger-sign n f (as_integer-IsInteger (finite f) n (sym e)) h

ideal-IsDouble : IsDouble ideal
unfolding ideal
ideal-IsDouble = record {
  exact = λ f n _ p q. ap (keep_or f) (as_integer_of_parts f.num f.below n p q);
  keeps_sign = λ f h. keep_or_sign f (as_integer (finite f)) h refl;
}

abbrev dzd : CurrencyConfig
dzd = record {
  code = 68 ∷ 90 ∷ 68 ∷ [];
  minor_unit_exponent = 2;
  rounding_rule = half_even;
  symbol = "DA";
  enabled = true;
}

abbrev xof : CurrencyConfig
xof = record {
  code = 88 ∷ 79 ∷ 70 ∷ [];
  minor_unit_exponent = 0;
  rounding_rule = half_up;
  symbol = "CFA";
  enabled = true;
}

abbrev fare : Money
fare = record { amount = pos 25000; currency = 68 ∷ 90 ∷ 68 ∷ [] }

-- 250.5 is no number of minor units.
of_fraction :
    of (finite (record { num = pos 501; below = 1 })) (some dzd.code)
    ≡ err (not_integer (finite (record { num = pos 501; below = 1 })))
unfolding of as_integer
of_fraction = refl

of_lower_case : of (finite (whole (pos 25000))) (some (100 ∷ 122 ∷ 100 ∷ [])) ≡ ok fare
unfolding of as_integer trunc is_iso_4217 to_upper
of_lower_case = refl

of_four_letters :
    of (finite (whole (pos 100))) (some (codes "dzdd")) ≡ err (invalid_code (some (codes "dzdd")))
unfolding of as_integer trunc is_iso_4217 to_upper codes
of_four_letters = refl

-- A surge of 1.4 on 250.00 DZD.
surge :
    multiply ideal fare (finite (record { num = pos 7; below = 4 })) dzd
    ≡ ok (record fare { amount = pos 35000 })
unfolding multiply ideal times as_integer trunc round_minor floor rest of is_iso_4217 to_upper ◌*ℤ◌
surge = refl

-- 4.5 CFA for a dinar.
abbrev rate : FxRateSnapshot
rate = record {
  base = dzd.code;
  quote = xof.code;
  rate = finite (record { num = pos 9; below = 1 });
  rate_timestamp = 1783382400000;
  provider = "exchangerate.host";
}

display :
    convert ideal fare rate dzd xof
    ≡ ok (record { amount = pos 1125; currency = xof.code }, 1783382400000)
unfolding convert ideal times as_integer trunc round_minor round_away of is_iso_4217 to_upper ◌*ℤ◌
    text_eq
display = refl

bankers :
    (round_fraction (record { num = pos 5; below = 1 }) half_even ≡ pos 2)
    × (round_fraction (record { num = pos 7; below = 1 }) half_even ≡ pos 4)
    × (round_fraction (record { num = negsuc 4; below = 1 }) half_even ≡ negsuc 1)
    × (round_fraction (record { num = negsuc 4; below = 1 }) half_up ≡ negsuc 2)
unfolding round_fraction floor rest round_away ◌+ℤ◌
bankers = (refl, refl, refl, refl)

fare-IsValid : IsValid fare
unfolding is_iso_4217
fare-IsValid = refl

round_fraction-Rounds_example :
    Rounds half_even
      (record { num = pos 5; below = 1 })
      (round_fraction (record { num = pos 5; below = 1 }) half_even)
round_fraction-Rounds_example = round_fraction-Rounds (record { num = pos 5; below = 1 }) half_even

of_sound_example :
    IsValid fare
    × IsInteger (finite (whole (pos 25000))) (pos 25000)
    × (fare.currency ≡ to_upper (or_empty (some (100 ∷ 122 ∷ 100 ∷ []))))
    × (of (finite (whole (pos 25000))) (some (68 ∷ 90 ∷ 68 ∷ [])) ≡ ok fare)
of_sound_example =
    of_sound (finite (whole (pos 25000))) (some (100 ∷ 122 ∷ 100 ∷ [])) fare of_lower_case

abbrev euro : Money
euro = record { amount = pos 100; currency = 69 ∷ 85 ∷ 82 ∷ [] }

add_exact_example :
    (fare.currency ≢ 69 ∷ 85 ∷ 82 ∷ []
      → add ideal fare euro ≡ err (cannot_add fare.currency (69 ∷ 85 ∷ 82 ∷ [])))
    × (fare.currency ≡ 69 ∷ 85 ∷ 82 ∷ []
        → IsSafe (fare.amount +ℤ pos 100)
        → add ideal fare euro
          ≡ ok (record { amount = fare.amount +ℤ pos 100; currency = fare.currency }))
unfolding is_iso_4217
add_exact_example = add_exact ideal ideal-IsDouble fare euro fare-IsValid refl

multiply_keeps_example :
    (fare.currency ≡ fare.currency)
    × (neg_part fare.amount ≡ 0 → neg_part (pos 35000) ≡ 0)
    × (is_finite (finite (record { num = pos 7; below = 4 })) ≡ true)
    × NotNegative (finite (record { num = pos 7; below = 4 }))
multiply_keeps_example =
    multiply_keeps ideal ideal-IsDouble fare (record fare { amount = pos 35000 })
      (finite (record { num = pos 7; below = 4 })) dzd fare-IsValid surge

convert_exact_example :
    convert ideal fare (record rate { rate = finite (whole (pos 4)) }) dzd xof
    ≡ ok (record { amount = pos 1000; currency = xof.code }, 1783382400000)
unfolding ◌*ℤ◌ is_iso_4217 to_upper
convert_exact_example =
    convert_exact ideal ideal-IsDouble (pos 250) 4 fare
      (record rate { rate = finite (whole (pos 4)) }) dzd xof refl refl refl refl (omega arith)
      (omega arith) (omega arith)
