-- ===== src/Common/Double.antt =====
-- More of the arithmetic of JavaScript numbers: sums, rounding and comparison.
pub mod Order
use Prim.Native.Nat.{ℕ, ◌+◌, ◌-◌, ◌*◌, ◌≤◌}
use mathlib.Core.Path.{◌≡◌}
use mathlib.Core.Bool.{Bool, true, false, ◌&&◌, ◌||◌, not, xor}
use native.Mathlib.Omega.{arith}
use gen_xtaxi_ai.Common.Tests.{ltb, ◌==◌, if◌then◌else◌}
use gen_xtaxi_ai.Common.Int.{ℤ, pos, negsuc, pos_part, neg_part, ◌+ℤ◌, ◌*ℤ◌}
use gen_xtaxi_ai.Common.Number.{
  Fraction, den, whole, Number, finite, infinite, nan, floor, magnitude, negate_ℕ, is_negative,
}

abbrev fraction_sum : Fraction → Fraction → Fraction
fraction_sum f g = record {
  num = f.num *ℤ pos (den g) +ℤ g.num *ℤ pos (den f);
  below = den f * den g - 1;
}

-- `a + b`
unfoldable pub plus : (Fraction → Number) → Number → Number → Number
plus fl nan b = nan
plus fl (finite f) nan = nan
plus fl (infinite s) nan = nan
plus fl (finite f) (finite g) = fl (fraction_sum f g)
plus fl (finite f) (infinite s) = infinite s
plus fl (infinite s) (finite f) = infinite s
plus fl (infinite s) (infinite t) = if xor s t then nan else infinite s

-- `Math.round`, which takes a half upwards.
unfoldable pub round_half_up : Number → Number
unfolding floor
round_half_up (finite f) =
    finite (whole (floor (record { num = f.num *ℤ pos 2 +ℤ pos (den f); below = den f * 2 - 1 })))
round_half_up (infinite s) = infinite s
round_half_up nan = nan

abbrev pub ltb_fraction : Fraction → Fraction → Bool
ltb_fraction f g =
    ltb (pos_part f.num * den g + neg_part g.num * den f)
      (pos_part g.num * den f + neg_part f.num * den g)

-- `a < b`
unfoldable pub ltb_number : Number → Number → Bool
ltb_number nan b = false
ltb_number (finite f) nan = false
ltb_number (infinite s) nan = false
ltb_number (finite f) (finite g) = ltb_fraction f g
ltb_number (finite f) (infinite s) = not s
ltb_number (infinite s) (finite g) = s
ltb_number (infinite s) (infinite t) = s && not t

-- `a <= b`
unfoldable pub leb_number : Number → Number → Bool
unfolding ltb_number
leb_number nan b = false
leb_number (finite f) nan = false
leb_number (infinite s) nan = false
leb_number (finite f) (finite g) = not (ltb_number (finite g) (finite f))
leb_number (finite f) (infinite s) = not s
leb_number (infinite s) (finite g) = s
leb_number (infinite s) (infinite t) = s || not t

-- Whether a number counts as true.
unfoldable pub is_truthy : Number → Bool
is_truthy (finite f) = not (pos_part f.num + neg_part f.num == 0)
is_truthy (infinite s) = true
is_truthy nan = false

module _ (fl : Fraction → Number) where
  abbrev fraction_quotient : Fraction → Fraction → Fraction
  fraction_quotient f g =
      let size = magnitude f.num * den g in
      record {
        num = if xor (is_negative f.num) (is_negative g.num) then negate_ℕ size else pos size;
        below = den f * magnitude g.num - 1;
      }

  -- `a / b`, where a zero is not negative.
  unfoldable pub divide : Number → Number → Number
  divide (finite f) (finite g) =
      if magnitude g.num == 0
      then (if magnitude f.num == 0 then nan else infinite (is_negative f.num))
      else fl (fraction_quotient f g)
  divide (finite f) (infinite s) = finite (whole (pos 0))
  divide (infinite s) (finite g) = infinite (xor s (is_negative g.num))
  divide _ _ = nan
