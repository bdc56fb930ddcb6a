-- ===== src/Common/Number.antt =====
-- JavaScript numbers. A finite double is a fraction, and what rounds the exact result of an
-- operation to a double is a parameter, `fl` below: it is the machine's, not the program's. Negative
-- zero is zero here.
use gen_xtaxi_ai.Common.Tests.{◌==◌, if◌then◌else◌}
use gen_xtaxi_ai.Common.Int.{ℤ, pos, negsuc, pos_part, neg_part, ◌*ℤ◌}
use Prim.Native.Nat.{ℕ, zero, suc, ◌+◌, ◌-◌, ◌*◌, ◌/◌, ◌%◌, ◌≤◌, ◌^◌}
use mathlib.Core.Path.{◌≡◌, refl}
use mathlib.Core.Bool.{Bool, true, false, xor}
use mathlib.Core.Option.{Option, none, some}

-- `num / (below + 1)`
pub record Fraction : Type 0 where
  pub num : ℤ
  pub below : ℕ

abbrev pub den : Fraction → ℕ
den f = suc f.below

abbrev pub whole : ℤ → Fraction
whole n = record { num = n; below = 0 }

-- `infinite true` is negative.
pub data Number : Type 0 where
  finite : Fraction → Number
  infinite : Bool → Number
  nan : Number

abbrev pub magnitude : ℤ → ℕ
magnitude n = pos_part n + neg_part n

abbrev pub negate_ℕ : ℕ → ℤ
negate_ℕ zero = pos 0
negate_ℕ (suc n) = negsuc n

abbrev pub is_negative : ℤ → Bool
is_negative (pos _) = false
is_negative (negsuc _) = true

-- The largest integer below the fraction `n / (b + 1)`.
abbrev floor_of : ℤ → ℕ → ℤ
floor_of (pos n) b = pos (n / suc b)
floor_of (negsuc n) b = negsuc (n / suc b)

-- What is left over that integer, in units of `1 / (b + 1)`.
abbrev rest_of : ℤ → ℕ → ℕ
rest_of (pos n) b = n % suc b
rest_of (negsuc n) b = b - n % suc b

unfoldable pub floor : Fraction → ℤ
floor f = floor_of f.num f.below

unfoldable pub rest : Fraction → ℕ
rest f = rest_of f.num f.below

abbrev trunc_of : ℤ → ℕ → ℤ
trunc_of (pos n) b = pos (n / suc b)
trunc_of (negsuc n) b = negate_ℕ (suc n / suc b)

-- `Math.trunc`
unfoldable pub trunc : Fraction → ℤ
trunc f = trunc_of f.num f.below

abbrev away_of : ℤ → ℕ → ℤ
away_of (pos n) b = pos ((2 * n + suc b) / (2 * suc b))
away_of (negsuc n) b = negate_ℕ ((2 * suc n + suc b) / (2 * suc b))

-- `Math.sign(x) * Math.round(Math.abs(x))`
unfoldable pub round_away : Fraction → ℤ
round_away f = away_of f.num f.below

-- The integer that a number is: `Number.isInteger(x)` is that there is one.
unfoldable pub as_integer : Number → Option ℤ
unfolding trunc
as_integer (finite f) = if magnitude f.num % den f == 0 then some (trunc f) else none
as_integer (infinite _) = none
as_integer nan = none

abbrev pub is_finite : Number → Bool
is_finite (finite _) = true
is_finite _ = false

abbrev pub below_zero : Number → Bool
below_zero (finite f) = is_negative f.num
below_zero (infinite s) = s
below_zero nan = false

abbrev pub product : Fraction → Fraction → Fraction
product f g = record { num = f.num *ℤ g.num; below = den f * den g - 1 }

abbrev pub quotient_ℕ : Fraction → ℕ → Fraction
quotient_ℕ f k = record { num = f.num; below = den f * k - 1 }

abbrev signed_infinity : Fraction → Bool → Number
signed_infinity f s = if magnitude f.num == 0 then nan else infinite (xor (is_negative f.num) s)

-- `a * b`
unfoldable pub times : (Fraction → Number) → Number → Number → Number
times fl nan b = nan
times fl (finite f) nan = nan
times fl (infinite s) nan = nan
times fl (finite f) (finite g) = fl (product f g)
times fl (finite f) (infinite s) = signed_infinity f s
times fl (infinite s) (finite f) = signed_infinity f s
times fl (infinite s) (infinite t) = infinite (xor s t)

-- What is relied on of the rounding to a double: integers up to 2 ^ 53 are exact, whatever fraction
-- they come as, and the sign is kept.
pub record IsDouble (fl : Fraction → Number) : Type 0 where
  pub exact :
      (f : Fraction) (n : ℤ)
      → magnitude n ≤ 2 ^ 53
      → pos_part f.num ≡ pos_part n * den f
      → neg_part f.num ≡ neg_part n * den f
      → fl f ≡ finite (whole n)
  pub keeps_sign : (f : Fraction) → neg_part f.num ≡ 0 → below_zero (fl f) ≡ false

pub pos_part-negate_ℕ : (k : ℕ) → pos_part (negate_ℕ k) ≡ 0
pos_part-negate_ℕ zero = refl
pos_part-negate_ℕ (suc k) = refl

pub neg_part-negate_ℕ : (k : ℕ) → neg_part (negate_ℕ k) ≡ k
neg_part-negate_ℕ zero = refl
neg_part-negate_ℕ (suc k) = refl
