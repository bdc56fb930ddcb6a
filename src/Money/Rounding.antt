-- ===== src/Money/Rounding.antt =====
-- `MoneyOps.roundMinor` of packages/ai-shared/src/money/money.ts beside a description of each rule.
use gen_xtaxi_ai.Common.{ℕ, ◌+◌, ◌*◌, ◌%◌, ◌≤◌, ◌<◌, ◌≡◌, ◌≢◌, ◌⊎◌, inl, inr, ap, arith}
use gen_xtaxi_ai.Common.Int.{ℤ, pos, negsuc, pos_part, neg_part, ◌+ℤ◌, +ℤ_parts}
use gen_xtaxi_ai.Common.Number.{
  Fraction, den, magnitude, floor, rest, trunc, round_away, pos_part-negate_ℕ, neg_part-negate_ℕ,
}
use gen_xtaxi_ai.Money.{RoundingRule, half_even, half_up, down, half_even_of, round_fraction}

-- `z` is no further than half a unit from `f`.
abbrev pub IsNearest : ℤ → Fraction → Type 0
IsNearest z f =
    (2 * (pos_part z * den f + neg_part f.num) ≤ 2 * (neg_part z * den f + pos_part f.num) + den f)
    × (2 * (neg_part z * den f + pos_part f.num)
        ≤ 2 * (pos_part z * den f + neg_part f.num) + den f)

-- `f` lies half way between two integers.
abbrev pub IsTie : Fraction → Type 0
IsTie f = 2 * (magnitude f.num % den f) ≡ den f

-- `z` has the sign of `f`, or is zero.
abbrev pub SameSide : ℤ → Fraction → Type 0
SameSide z f = (pos_part f.num ≡ 0 → pos_part z ≡ 0) × (neg_part f.num ≡ 0 → neg_part z ≡ 0)

abbrev pub Rounds : RoundingRule → Fraction → ℤ → Type 0
Rounds down f z =
    SameSide z f
    × (magnitude z * den f ≤ magnitude f.num)
    × (magnitude f.num < magnitude z * den f + den f)
Rounds half_up f z =
    SameSide z f × IsNearest z f × (IsTie f → magnitude f.num ≤ magnitude z * den f)
Rounds half_even f z = IsNearest z f × (IsTie f → magnitude z % 2 ≡ 0)

abbrev at : ℤ → ℕ → Fraction
at z b = record { num = z; below = b }

floor-rest-at :
    (z : ℤ) (b : ℕ)
    → (pos_part z + neg_part (floor (at z b)) * den (at z b)
        ≡ neg_part z + pos_part (floor (at z b)) * den (at z b) + rest (at z b))
      × (rest (at z b) < den (at z b))
unfolding floor rest
floor-rest-at (pos n) b = ground arith
floor-rest-at (negsuc n) b = ground arith

-- A value half way between two integers leaves a half over its floor.
rest_of_tie_at : (z : ℤ) (b : ℕ) → IsTie (at z b) → 2 * rest (at z b) ≡ den (at z b)
unfolding rest
rest_of_tie_at (pos n) b h = ground arith
rest_of_tie_at (negsuc n) b h = grind arith

next_parts :
    (q : ℤ) (d : ℕ)
    → pos_part (q +ℤ pos 1) * d + neg_part q * d ≡ neg_part (q +ℤ pos 1) * d + pos_part q * d + d
next_parts q d = omega (arith, ap (λ (t : ℕ). t * d) (+ℤ_parts q (pos 1)))

even_next : (q : ℤ) → magnitude q % 2 ≢ 0 → magnitude (q +ℤ pos 1) % 2 ≡ 0
unfolding ◌+ℤ◌
even_next q h = ground arith

half_even_of-cases :
    (q : ℤ) (r d : ℕ)
    → ((half_even_of q r d ≡ q) × (2 * r ≤ d) × (2 * r ≡ d → magnitude q % 2 ≡ 0))
      ⊎ ((half_even_of q r d ≡ q +ℤ pos 1)
          × (d ≤ 2 * r)
          × (2 * r ≡ d → magnitude (q +ℤ pos 1) % 2 ≡ 0))
half_even_of-cases q r d = ground (arith, even_next q)

half_even-Rounds :
    (z : ℤ) (b : ℕ) → let f = at z b in Rounds half_even f (half_even_of (floor f) (rest f) (den f))
half_even-Rounds z b =
    let f = at z b in
    let split = floor-rest-at z b in
    elim (half_even_of-cases (floor f) (rest f) (den f)) [
      | inl (e, low, even) ↦ rw e (omega arith, λ t. even (rest_of_tie_at z b t))
      | inr (e, high, even) ↦
          rw e (omega (arith, next_parts (floor f) (den f)), λ t. even (rest_of_tie_at z b t))
    ]

half_up-Rounds : (z : ℤ) (b : ℕ) → Rounds half_up (at z b) (round_away (at z b))
unfolding round_away
half_up-Rounds (pos n) b = grind arith
half_up-Rounds (negsuc n) b = simp (pos_part-negate_ℕ, neg_part-negate_ℕ) (grind arith)

down-Rounds : (z : ℤ) (b : ℕ) → Rounds down (at z b) (trunc (at z b))
unfolding trunc
down-Rounds (pos n) b = ground arith
down-Rounds (negsuc n) b = ground arith

-- Each rounding rule does what it is named for: DOWN drops the fraction; HALF_UP is the nearest
-- integer on the same side of zero, and goes away from zero at a tie; HALF_EVEN is the nearest
-- integer, and the even one at a tie.
pub round_fraction-Rounds :
    (f : Fraction) (rule : RoundingRule) → Rounds rule f (round_fraction f rule)
unfolding round_fraction
round_fraction-Rounds f half_even = half_even-Rounds f.num f.below
round_fraction-Rounds f half_up = half_up-Rounds f.num f.below
round_fraction-Rounds f down = down-Rounds f.num f.below
