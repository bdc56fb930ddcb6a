-- ===== src/Money/Conversion.antt =====
-- `MoneyOps.multiply` and `MoneyOps.convert` of packages/ai-shared/src/money/money.ts.
use native.Mathlib.Nat.{one-le-pow}
use gen_xtaxi_ai.Common.{sym, ℕ, suc, ◌-◌, ◌*◌, ◌^◌, ◌<◌, ◌≡◌, true, false, some, arith, ap, ◌∙◌}
use gen_xtaxi_ai.Common.Int.{ℤ, pos, negsuc, pos_part, neg_part, ◌*ℤ◌, ◌+ℤ◌}
use gen_xtaxi_ai.Common.Number.{
  Fraction, Number, finite, infinite, nan, whole, trunc, floor, rest, round_away, IsDouble, times,
  below_zero, is_negative, is_finite, product, quotient_ℕ,
}
use gen_xtaxi_ai.Common.Text.{to_upper, text_eq_iff}
use gen_xtaxi_ai.Money.{
  Money, RoundingRule, half_even, half_up, down, CurrencyConfig, FxRateSnapshot, ok, is_iso_4217,
  of, round_fraction, round_minor, multiply, convert, converted_minor,
}
use gen_xtaxi_ai.Money.Laws.{IsValid, IsInteger, IsSafe, of_sound, of_ok, to_upper_of_iso, fl-whole}

round_fraction_nonneg :
    (f : Fraction) (rule : RoundingRule) → neg_part f.num ≡ 0 → neg_part (round_fraction f rule) ≡ 0
unfolding round_fraction floor rest trunc round_away ◌+ℤ◌
round_fraction_nonneg f half_even h = ground arith
round_fraction_nonneg f half_up h = ground arith
round_fraction_nonneg f down h = ground arith

round_fraction-whole : (n : ℤ) (rule : RoundingRule) → round_fraction (whole n) rule ≡ n
unfolding round_fraction floor rest trunc round_away
round_fraction-whole (pos n) half_even = ground arith
round_fraction-whole (pos n) half_up = ground arith
round_fraction-whole (pos n) down = ground arith
round_fraction-whole (negsuc n) half_even = ground arith
round_fraction-whole (negsuc n) half_up = ground arith
round_fraction-whole (negsuc n) down = ground arith

*ℤ-pos_parts :
    (q : ℤ) (d : ℕ)
    → (pos_part (q *ℤ pos d) ≡ pos_part q * d) × (neg_part (q *ℤ pos d) ≡ neg_part q * d)
unfolding ◌*ℤ◌
*ℤ-pos_parts (pos q) d = grind arith
*ℤ-pos_parts (negsuc q) d = grind arith

abbrev pub NotNegative : Number → Type 0
NotNegative a = below_zero a ≡ false

round_minor_nonneg :
    (a : Number) (rule : RoundingRule) → NotNegative a → NotNegative (round_minor a rule)
unfolding round_minor
round_minor_nonneg (finite f) rule h = ground (arith, round_fraction_nonneg f rule)
round_minor_nonneg (infinite s) rule h = h
round_minor_nonneg nan rule h = h

IsInteger-nonneg : (a : Number) (n : ℤ) → NotNegative a → IsInteger a n → neg_part n ≡ 0
IsInteger-nonneg (finite f) n h (_, e) = grind arith
IsInteger-nonneg (infinite s) n h e = absurd e
IsInteger-nonneg nan n h e = absurd e

product_nonneg :
    (f g : Fraction) → neg_part f.num ≡ 0 → neg_part g.num ≡ 0 → neg_part (product f g).num ≡ 0
unfolding ◌*ℤ◌
product_nonneg f g hf hg = grind arith

is_negative_parts : (n : ℤ) → is_negative n ≡ false → neg_part n ≡ 0
is_negative_parts n h = ground arith

times_exact :
    (fl : Fraction → Number) (double : IsDouble fl) (a : ℤ) (b : ℕ)
    → IsSafe (a *ℤ pos b)
    → times fl (finite (whole a)) (finite (whole (pos b))) ≡ finite (whole (a *ℤ pos b))
unfolding times
times_exact fl double a b h = fl-whole fl double (a *ℤ pos b) h

module _ (fl : Fraction → Number) (double : IsDouble fl) where
  times_nonneg :
      (a : ℤ) (factor : Number)
      → neg_part a ≡ 0
      → is_finite factor ≡ true
      → NotNegative factor
      → NotNegative (times fl (finite (whole a)) factor)
  unfolding times
  times_nonneg a (finite g) ha _ h =
      double.keeps_sign (product (whole a) g)
        (product_nonneg (whole a) g ha (is_negative_parts g.num h))
  times_nonneg a (infinite s) ha f h = cc
  times_nonneg a nan ha f h = cc

  multiply_inv :
      (m r : Money) (factor : Number) (cfg : CurrencyConfig)
      → multiply fl m factor cfg ≡ ok r
      → (is_finite factor ≡ true)
        × NotNegative factor
        × (of
              (round_minor (times fl (finite (whole m.amount)) factor) cfg.rounding_rule)
              (some m.currency)
            ≡ ok r)
  unfolding multiply
  multiply_inv m r factor cfg e = ground arith

  -- A multiplier, such as the surge's, never changes the currency of a valid amount and leaves one that
  -- is not negative so; it is finite and not negative itself.
  pub multiply_keeps :
      (m r : Money) (factor : Number) (cfg : CurrencyConfig)
      → IsValid m
      → multiply fl m factor cfg ≡ ok r
      → (r.currency ≡ m.currency)
        × (neg_part m.amount ≡ 0 → neg_part r.amount ≡ 0)
        × (is_finite factor ≡ true)
        × NotNegative factor
  multiply_keeps m r factor cfg valid e =
      let (fin, sign, made) = multiply_inv m r factor cfg e in
      let raw = times fl (finite (whole m.amount)) factor in
      let (_, integer, same, _) =
        of_sound (round_minor raw cfg.rounding_rule) (some m.currency) r made in
      (
        same ∙ to_upper_of_iso m.currency valid,
        λ h.
            IsInteger-nonneg _ r.amount
              (round_minor_nonneg raw cfg.rounding_rule (times_nonneg m.amount factor h fin sign))
              integer,
        fin,
        sign,
      )

  -- A valid amount times a whole number is exact under every rounding rule while it is a safe integer.
  pub multiply_exact :
      (m : Money) (k : ℕ) (cfg : CurrencyConfig)
      → IsValid m
      → IsSafe (m.amount *ℤ pos k)
      → multiply fl m (finite (whole (pos k))) cfg ≡ ok (record m { amount = m.amount *ℤ pos k })
  unfolding multiply round_minor
  multiply_exact m k cfg valid h = rw (times_exact fl double m.amount k h) (
      rw (round_fraction-whole (m.amount *ℤ pos k) cfg.rounding_rule)
        (of_ok (m.amount *ℤ pos k) m.currency valid))

  quotient_exact :
      (q : ℤ) (d : ℕ) → 0 < d → IsSafe q → fl (quotient_ℕ (whole (q *ℤ pos d)) d) ≡ finite (whole q)
  quotient_exact q d h safe =
      let (p, n) = *ℤ-pos_parts q d in
      let same : d ≡ suc (1 * d - 1) = omega arith in
      double.exact (quotient_ℕ (whole (q *ℤ pos d)) d) q safe
        (p ∙ ap (λ (t : ℕ). pos_part q * t) same) (n ∙ ap (λ (t : ℕ). neg_part q * t) same)

  converted_exact :
      (q : ℤ) (k : ℕ) (money : Money) (fx : FxRateSnapshot) (from_cfg to_cfg : CurrencyConfig)
      → money.amount ≡ q *ℤ pos (10 ^ from_cfg.minor_unit_exponent)
      → fx.rate ≡ finite (whole (pos k))
      → IsSafe q
      → IsSafe (q *ℤ pos k)
      → IsSafe (q *ℤ pos k *ℤ pos (10 ^ to_cfg.minor_unit_exponent))
      → converted_minor fl money fx from_cfg to_cfg
        ≡ finite (whole (q *ℤ pos k *ℤ pos (10 ^ to_cfg.minor_unit_exponent)))
  converted_exact q k money fx from_cfg to_cfg units rate s₁ s₂ s₃ =
      rw
        (
          units,
          quotient_exact q (10 ^ from_cfg.minor_unit_exponent)
              (one-le-pow from_cfg.minor_unit_exponent 10 (omega arith)) s₁,
          rate,
          times_exact fl double q k s₂,
        )
        (times_exact fl double (q *ℤ pos k) (10 ^ to_cfg.minor_unit_exponent) s₃)

  -- Whole major units at a whole rate convert exactly, under every rounding rule and between any two
  -- numbers of decimals, while the values on the way are safe integers; the result is in the target
  -- currency and carries the time of the rate.
  pub convert_exact :
      (q : ℤ) (k : ℕ) (money : Money) (fx : FxRateSnapshot) (from_cfg to_cfg : CurrencyConfig)
      → money.amount ≡ q *ℤ pos (10 ^ from_cfg.minor_unit_exponent)
      → fx.rate ≡ finite (whole (pos k))
      → to_upper fx.base ≡ to_upper money.currency
      → is_iso_4217 to_cfg.code ≡ true
      → IsSafe q
      → IsSafe (q *ℤ pos k)
      → IsSafe (q *ℤ pos k *ℤ pos (10 ^ to_cfg.minor_unit_exponent))
      → convert fl money fx from_cfg to_cfg
        ≡ ok (
          record {
            amount = q *ℤ pos k *ℤ pos (10 ^ to_cfg.minor_unit_exponent);
            currency = to_cfg.code;
          },
          fx.rate_timestamp,
        )
  unfolding convert
  convert_exact q k money fx from_cfg to_cfg units rate base iso s₁ s₂ s₃ =
      let n = q *ℤ pos k *ℤ pos (10 ^ to_cfg.minor_unit_exponent) in
      rw
        (
          (text_eq_iff (to_upper money.currency) (to_upper fx.base)).1 (sym base),
          converted_exact q k money fx from_cfg to_cfg units rate s₁ s₂ s₃,
        )
        (unfold round_minor in
          rw (round_fraction-whole n to_cfg.rounding_rule, of_ok n to_cfg.code iso))
