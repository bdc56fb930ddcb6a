-- ===== src/Grounding.antt =====
-- chat-orchestrator/src/orchestrator/grounding.service.ts: a reply may state an amount of money only
-- if a tool returned it. The rounding of doubles is a parameter.
pub mod Find
pub mod Laws
pub mod Blocked
mod Tests
use gen_xtaxi_ai.Common.{
  ℕ, suc, ◌+◌, ◌-◌, ◌*◌, ◌^◌, Bool, true, false, not, ◌&&◌, ◌||◌, Option, none, some, List, [], ◌∷◌,
  ◌++◌, ltb, ◌==◌, if◌then◌else◌, any, keep, length,
}
use gen_xtaxi_ai.Common.Int.{ℤ, pos, ◌+ℤ◌, ◌-ℤ◌, ◌*ℤ◌}
use gen_xtaxi_ai.Common.Number.{
  Fraction, den, whole, magnitude, floor, Number, finite, infinite, nan,
}
use gen_xtaxi_ai.Common.Double.{plus, divide, round_half_up, ltb_number}
use gen_xtaxi_ai.Common.Text.{Text, is_digit, span, trim}
use gen_xtaxi_ai.MoneyScan.{ScannedMoney}
use mathlib.Core.List.{flat_map}
use Find.{Match, matches, match_at, match_prefix, match_suffix, strip_any, strip}

pub record GroundingResult : Type 0 where
  pub grounded : Bool
  pub offending_amounts : List Text

-- 0.01, as the double that it is.
abbrev pub hundredth : Fraction
hundredth = record { num = pos 5764607523034235; below = 576460752303423487 }

abbrev negated : Number → Number
negated (finite f) = finite (record { num = pos 0 -ℤ f.num; below = f.below })
negated (infinite s) = infinite (not s)
negated nan = nan

-- `Math.abs`
abbrev pub absolute : Number → Number
absolute (finite f) = finite (record { num = pos (magnitude f.num); below = f.below })
absolute (infinite s) = infinite false
absolute nan = nan

abbrev is_empty : List Text → Bool
is_empty [] = true
is_empty (t ∷ ts) = false

-- The number that decimal digits spell.
unfoldable pub digits_value : ℕ → Text → ℕ
digits_value n [] = n
digits_value n (c ∷ s) = digits_value (n * 10 + (c - b'0')) s

abbrev decimal : Text → Text → Option Fraction
decimal [] [] = none
decimal ints fracs =
    some (record { num = pos (digits_value 0 (ints ++ fracs)); below = 10 ^ length fracs - 1 })

abbrev all_read : Text → Option Fraction → Option Fraction
all_read [] o = o
all_read (c ∷ s) o = none

abbrev after_digits : Text → Text → Option Fraction
after_digits ints [] = decimal ints []
after_digits ints (_ ∷ s) =
    let (fracs, left) = span is_digit s in all_read left (decimal ints fracs)

-- `Number(raw)` of a text of digits and dots, where `none` is NaN.
unfoldable pub parse_number : Text → Option Fraction
unfolding span digits_value
parse_number raw = let (ints, left) = span is_digit raw in after_digits ints left

module _ (fl : Fraction → Number) where
  abbrev over : ScannedMoney → ℕ → Number
  over m k = divide fl (finite m.amount) (finite (whole (pos k)))

  -- What `allowedNums` holds for one amount: minor units, and major units at two or three decimals, and
  -- whole.
  unfoldable pub allowed_nums : ScannedMoney → List Number
  unfolding divide round_half_up
  allowed_nums m = finite m.amount ∷ over m 100 ∷ over m 1000 ∷ round_half_up (over m 100) ∷ []

  -- `a - value`
  unfoldable pub minus : Number → Number → Number
  unfolding plus
  minus a value = plus fl a (negated value)

  -- `Math.abs(a - value) < 0.01`
  unfoldable pub is_close : Number → Number → Bool
  unfolding minus ltb_number
  is_close value a = ltb_number (absolute (minus a value)) (finite hundredth)

  abbrev rounded : Option Fraction → Option Number
  rounded none = none
  rounded (some f) = some (fl f)

  -- The number of a match without its commas, where `none` is a match that the check passes over.
  unfoldable pub stated : Match → Option Number
  unfolding parse_number
  stated m = rounded (parse_number (keep (λ c. not (c == b',')) m.number))

  abbrev pub is_ok : List Number → Option Number → Bool
  is_ok nums none = true
  is_ok nums (some value) = any (is_close value) nums

  -- The texts of the matches whose number is not allowed.
  unfoldable pub offending : List Number → List (Match × Text) → List Text
  offending nums [] = []
  offending nums ((m, text) ∷ ms) =
      if is_ok nums (stated m) then offending nums ms else trim text ∷ offending nums ms

  unfoldable pub check : Text → List ScannedMoney → GroundingResult
  unfolding matches offending flat_map match_at match_prefix match_suffix strip_any strip span
  check reply allowed =
      let found = offending (flat_map allowed_nums allowed) (matches reply) in
      record { grounded = is_empty found; offending_amounts = found }
