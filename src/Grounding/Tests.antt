-- ===== src/Grounding/Tests.antt =====
-- The cases of grounding.service.spec.ts.
use gen_xtaxi_ai.Common.{◌≡◌, refl, true, false, List, [], ◌∷◌, ◌↔◌, All, Any}
use gen_xtaxi_ai.Common.Int.{pos, ◌+ℤ◌, ◌-ℤ◌, ◌*ℤ◌}
use gen_xtaxi_ai.Common.Number.{Fraction, Number, finite, whole, floor}
use gen_xtaxi_ai.Common.Double.{divide, plus, round_half_up, ltb_number}
use gen_xtaxi_ai.Common.Text.{codes, trim, span}
use mathlib.Core.Bool.{xor}
use gen_xtaxi_ai.MoneyScan.{ScannedMoney}
use gen_xtaxi_ai.Grounding.{check, allowed_nums, minus, is_close, stated}
use gen_xtaxi_ai.Grounding.Find.{matches, match_at, match_prefix, match_suffix, strip_any, strip}
use gen_xtaxi_ai.Grounding.Laws.{IsAmount, IsGrounded, check_iff}
use gen_xtaxi_ai.Grounding.Blocked.{check-IsAmount}

-- An arithmetic that rounds nothing.
abbrev exact : Fraction → Number
exact f = finite f

abbrev allowed : List ScannedMoney
allowed = record { amount = whole (pos 25000); currency = 68 ∷ 90 ∷ 68 ∷ [] } ∷ []

no_amounts : (check exact (codes "Your driver is 5 minutes away.") allowed).grounded ≡ true
unfolding check codes allowed_nums
no_amounts = refl

major_units : (check exact (codes "The fare is 250 DZD.") allowed).grounded ≡ true
unfolding check codes allowed_nums is_close stated divide plus minus round_half_up ltb_number ◌*ℤ◌
    ◌-ℤ◌ ◌+ℤ◌ floor xor
major_units = refl

minor_units : (check exact (codes "That is 25,000 DZD in centimes.") allowed).grounded ≡ true
unfolding check codes allowed_nums is_close stated divide plus minus round_half_up ltb_number ◌*ℤ◌
    ◌-ℤ◌ ◌+ℤ◌ floor xor
minor_units = refl

invented :
    (check exact (codes "The fare is 999 DZD.") allowed).offending_amounts ≡ codes "999 DZD" ∷ []
unfolding check codes allowed_nums is_close stated divide plus minus round_half_up ltb_number ◌*ℤ◌
    ◌-ℤ◌ ◌+ℤ◌ floor xor trim
invented = refl

symbol : (check exact (codes "It costs €42 total.") allowed).offending_amounts ≡ codes "€42" ∷ []
unfolding check codes allowed_nums is_close stated divide plus minus round_half_up ltb_number ◌*ℤ◌
    ◌-ℤ◌ ◌+ℤ◌ floor xor trim
symbol = refl

-- "da" is the symbol of the dinar, also in "days".
days : (check exact (codes "Refunds take 5 days.") allowed).grounded ≡ false
unfolding check codes allowed_nums is_close stated divide plus minus round_half_up ltb_number ◌*ℤ◌
    ◌-ℤ◌ ◌+ℤ◌ floor xor trim
days = refl

check_iff_example :
    ((check exact (codes "The fare is 250 DZD.") allowed).grounded ≡ true)
    ↔ All (λ m. IsGrounded exact allowed m.0) (matches (codes "The fare is 250 DZD."))
check_iff_example = check_iff exact (codes "The fare is 250 DZD.") allowed

check-IsAmount_example : Any (IsAmount exact (finite (whole (pos 250)))) allowed
unfolding check match_at match_prefix match_suffix strip_any strip span allowed_nums is_close stated
    divide plus round_half_up ltb_number ◌*ℤ◌ ◌-ℤ◌ ◌+ℤ◌ floor xor codes
check-IsAmount_example =
    check-IsAmount exact (codes "The fare is ") b'2' (b'5' ∷ b'0' ∷ []) (32 ∷ []) 68 (90 ∷ 68 ∷ [])
      3 [] (finite (whole (pos 250))) allowed
      (
        refl,
        (refl, (refl, (refl, (refl, (refl, (refl, (refl, (refl, (refl, (refl, (refl, tt))))))))))),
      )
      (refl, (refl, (refl, tt))) (refl, tt) refl refl refl
