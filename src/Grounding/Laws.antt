-- ===== src/Grounding/Laws.antt =====
-- The check of grounding.service.ts against a description of the amounts that it allows.
use gen_xtaxi_ai.Common.{
  ℕ, ◌*◌, ◌<◌, ◌≡◌, ◌↔◌, ◌⊎◌, inl, inr, refl, sym, subst, ◌∙◌, true, Option, none, some, List, [],
  ◌∷◌, arith, any, Bool-cases, All, Any, Any-map, any_iff, Any-flat_map_iff,
}
use mathlib.Core.List.{flat_map}
use gen_xtaxi_ai.Common.Int.{pos}
use gen_xtaxi_ai.Common.Double.{divide, round_half_up, ltb_number}
use gen_xtaxi_ai.Common.Number.{Fraction, den, magnitude, whole, Number, finite, infinite, nan}
use gen_xtaxi_ai.Common.Text.{Text}
use gen_xtaxi_ai.MoneyScan.{ScannedMoney}
use gen_xtaxi_ai.Grounding.{
  hundredth, absolute, minus, allowed_nums, is_close, stated, is_ok, offending, check,
}
use gen_xtaxi_ai.Grounding.Find.{Match, matches}

module _ (fl : Fraction → Number) where
  -- The double of their difference is less than the double 0.01 from 0.
  abbrev pub IsNear : Number → Number → Type 0
  IsNear v a =
      (d : Fraction) × (minus fl a v ≡ finite d)
      × (magnitude d.num * 576460752303423488 < 5764607523034235 * den d)

  small_iff :
      (n : Number)
      → (ltb_number (absolute n) (finite hundredth) ≡ true) ↔ (
          (d : Fraction) × (n ≡ finite d)
          × (magnitude d.num * 576460752303423488 < 5764607523034235 * den d))
  unfolding ltb_number
  small_iff (finite f) = (
    λ h. (f, refl, ground (arith, h)),
    λ h.
        let (d, same, less) = h in
        let e : f ≡ d = cc same in
        let less' =
          subst (λ (g : Fraction). magnitude g.num * 576460752303423488 < 5764607523034235 * den g)
            (sym e) less in
        ground (arith, less'),
  )
  small_iff (infinite s) = (λ h. cc h, λ h. let (d, same, _) = h in cc same)
  small_iff nan = (λ h. cc h, λ h. let (d, same, _) = h in cc same)

  is_close_iff : (v a : Number) → (is_close fl v a ≡ true) ↔ IsNear v a
  unfolding is_close
  is_close_iff v a = small_iff (minus fl a v)

  abbrev major : ScannedMoney → ℕ → Number
  major m k = divide fl (finite m.amount) (finite (whole (pos k)))

  -- The number is an amount, in minor units, or in major units of two or three decimals, or in whole
  -- major units.
  abbrev pub IsAmount : Number → ScannedMoney → Type 0
  IsAmount v m =
      IsNear v (finite m.amount)
      ⊎ IsNear v (major m 100)
      ⊎ IsNear v (major m 1000)
      ⊎ IsNear v (round_half_up (major m 100))

  -- A match names an amount that a tool returned, if it names a number at all.
  abbrev pub IsGrounded : List ScannedMoney → Match → Type 0
  IsGrounded allowed m = (v : Number) → stated fl m ≡ some v → Any (IsAmount v) allowed

  allowed_nums_iff :
      (v : Number) (m : ScannedMoney)
      → Any (λ a. is_close fl v a ≡ true) (allowed_nums fl m) ↔ IsAmount v m
  unfolding allowed_nums
  allowed_nums_iff v m = ground (
    arith,
    is_close_iff v (finite m.amount),
    is_close_iff v (major m 100),
    is_close_iff v (major m 1000),
    is_close_iff v (round_half_up (major m 100)),
  )

  value_iff :
      (v : Number) (allowed : List ScannedMoney)
      → (any (is_close fl v) (flat_map (allowed_nums fl) allowed) ≡ true) ↔ Any (IsAmount v) allowed
  value_iff v allowed =
      let (test, untest) = any_iff (is_close fl v) (flat_map (allowed_nums fl) allowed) in
      let (split, join) =
        Any-flat_map_iff (λ a. is_close fl v a ≡ true) (allowed_nums fl) allowed in
      (
        λ h. Any-map (λ m. (allowed_nums_iff v m).0) allowed (split (test h)),
        λ h. untest (join (Any-map (λ m. (allowed_nums_iff v m).1) allowed h)),
      )

  is_ok_iff :
      (allowed : List ScannedMoney) (o : Option Number)
      → (is_ok fl (flat_map (allowed_nums fl) allowed) o ≡ true)
        ↔ ((v : Number) → o ≡ some v → Any (IsAmount v) allowed)
  is_ok_iff allowed none = (λ _ v e. cc e, λ _. refl)
  is_ok_iff allowed (some w) =
      let (there, back) = value_iff w allowed in
      (
        λ h v e. let same : w ≡ v = cc e in subst (λ x. Any (IsAmount x) allowed) same (there h),
        λ h. back (h w refl),
      )

  offending_iff :
      (allowed : List ScannedMoney) (ms : List (Match × Text))
      → (offending fl (flat_map (allowed_nums fl) allowed) ms ≡ [])
        ↔ All (λ m. IsGrounded allowed m.0) ms
  unfolding offending
  offending_iff allowed [] = (λ _. tt, λ _. refl)
  offending_iff allowed ((m, t) ∷ ms) =
      let (there, back) = is_ok_iff allowed (stated fl m) in
      let (rest, join) = offending_iff allowed ms in
      elim (Bool-cases (is_ok fl (flat_map (allowed_nums fl) allowed) (stated fl m))) [
        | inl good ↦ rw good (λ h. (there good, rest h), λ h. join h.1)
        | inr bad ↦ rw bad (λ h. cc h, λ h. cc (sym bad ∙ back h.0))
      ]

  -- A reply passes the check exactly when each of its matches that spells a number spells one whose
  -- double is nearer than 0.01, as doubles are subtracted, to an amount that a tool returned, to its
  -- hundredth or thousandth part, or to the hundredth rounded to a whole.
  pub check_iff :
      (reply : Text) (allowed : List ScannedMoney)
      → ((check fl reply allowed).grounded ≡ true)
        ↔ All (λ m. IsGrounded allowed m.0) (matches reply)
  unfolding check
  check_iff reply allowed =
      let (there, back) = offending_iff allowed (matches reply) in
      (λ h. there (ground arith), λ h. rw (back h))
