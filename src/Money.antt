-- ===== src/Money.antt =====
-- packages/ai-shared/src/money: the money value object and its operations. An amount is an integer
-- of minor units; what a caller passes may be any number. A thrown `MoneyError` is an `Error` that
-- carries what the message is built from.
pub mod Rounding
pub mod Laws
pub mod Conversion
mod Tests
use gen_xtaxi_ai.Common.{
  ℕ, ◌*◌, ◌^◌, ◌%◌, ◌+◌, suc, ltb, leb, String, Bool, true, false, not, ◌&&◌, ◌||◌, Option, none,
  some, List, [], ◌∷◌, ◌==◌, if◌then◌else◌, ◌≡◌, arith, refl,
}
use gen_xtaxi_ai.Common.Int.{ℤ, pos, negsuc, ◌+ℤ◌}
use gen_xtaxi_ai.Common.Number.{
  Fraction, Number, finite, infinite, nan, whole, den, magnitude, floor, rest, trunc, round_away,
  as_integer, is_finite, below_zero, times, quotient_ℕ,
}
use gen_xtaxi_ai.Common.Text.{Text, to_upper, text_eq}

pub record Money : Type 0 where
  pub amount : ℤ
  pub currency : Text

pub data RoundingRule : Type 0 where
  half_even half_up down : RoundingRule

pub record CurrencyConfig : Type 0 where
  pub code : Text
  pub minor_unit_exponent : ℕ
  pub rounding_rule : RoundingRule
  pub symbol : String
  pub enabled : Bool

pub record FxRateSnapshot : Type 0 where
  pub base : Text
  pub quote : Text
  pub rate : Number
  pub rate_timestamp : ℕ
  pub provider : String

pub data Error : Type 0 where
  not_integer : Number → Error
  invalid_code : Option Text → Error
  cannot_add : Text → Text → Error
  invalid_multiplier : Number → Error
  base_mismatch : Text → Text → Error

pub data Result {ℓ} (A : Type ℓ) : Type ℓ where
  ok : A → Result A
  err : Error → Result A

infixl 5 ◌>>=◌
abbrev pub ◌>>=◌ {ℓ κ} : {A : Type ℓ} {B : Type κ} → Result A → (A → Result B) → Result B
ok a >>= f = f a
err e >>= f = err e

abbrev is_capital : ℕ → Bool
is_capital c = leb b'A' c && leb c b'Z'

-- `ISO_4217_REGEX.test`
unfoldable pub is_iso_4217 : Text → Bool
is_iso_4217 (a ∷ b ∷ c ∷ []) = is_capital a && (is_capital b && is_capital c)
is_iso_4217 _ = false

-- `currency ?? ''`
abbrev or_empty : Option Text → Text
or_empty none = []
or_empty (some t) = t

unfoldable pub of : Number → Option Text → Result Money
of amount currency = elim (as_integer amount) [
  | none ↦ err (not_integer amount)
  | some n ↦
      let code = to_upper (or_empty currency) in
      if not (is_iso_4217 code)
      then err (invalid_code currency)
      else ok (record { amount = n; currency = code })
]

unfoldable pub same_currency : Money → Money → Bool
same_currency a b = text_eq (to_upper a.currency) (to_upper b.currency)

abbrev is_even : ℤ → Bool
is_even n = magnitude n % 2 == 0

-- The `HALF_EVEN` case, from `floor`, from `diff` in units of `1 / d`, and from `d`.
abbrev half_even_of : ℤ → ℕ → ℕ → ℤ
half_even_of q r d =
    if ltb (2 * r) d
    then q
    else if ltb d (2 * r)
    then q +ℤ pos 1
    else if is_even q
    then q
    else q +ℤ pos 1

-- The integer that `roundMinor` rounds a finite value to.
unfoldable pub round_fraction : Fraction → RoundingRule → ℤ
round_fraction f down = trunc f
round_fraction f half_up = round_away f
round_fraction f half_even = half_even_of (floor f) (rest f) (den f)

-- Infinities and NaN go through every branch unchanged.
unfoldable pub round_minor : Number → RoundingRule → Number
unfolding round_fraction
round_minor (finite f) rule = finite (whole (round_fraction f rule))
round_minor (infinite s) rule = infinite s
round_minor nan rule = nan

-- `fl` rounds the exact result of an arithmetic operation to a double.
module _ (fl : Fraction → Number) where
  unfoldable pub add : Money → Money → Result Money
  unfolding same_currency
  add a b =
      if not (same_currency a b)
      then err (cannot_add a.currency b.currency)
      else of (fl (whole (a.amount +ℤ b.amount))) (some a.currency)

  unfoldable pub multiply : Money → Number → CurrencyConfig → Result Money
  multiply m factor cfg =
      if not (is_finite factor) || below_zero factor
      then err (invalid_multiplier factor)
      else let raw = times fl (finite (whole m.amount)) factor in
        of (round_minor raw cfg.rounding_rule) (some m.currency)

  abbrev pub converted_minor : Money → FxRateSnapshot → CurrencyConfig → CurrencyConfig → Number
  converted_minor money fx from_cfg to_cfg =
      let major = fl (quotient_ℕ (whole money.amount) (10 ^ from_cfg.minor_unit_exponent)) in
      let converted_major = times fl major fx.rate in
      times fl converted_major (finite (whole (pos (10 ^ to_cfg.minor_unit_exponent))))

  unfoldable pub convert :
      Money → FxRateSnapshot → CurrencyConfig → CurrencyConfig → Result (Money × ℕ)
  convert money fx from_cfg to_cfg =
      if not (text_eq (to_upper money.currency) (to_upper fx.base))
      then err (base_mismatch fx.base money.currency)
      else do
        converted ←
            of (round_minor (converted_minor money fx from_cfg to_cfg) to_cfg.rounding_rule)
              (some to_cfg.code)
        ok (converted, fx.rate_timestamp)
