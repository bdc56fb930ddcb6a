-- ===== src/Common/Double/Order.antt =====
-- The order of the numbers that are numbers.
use Prim.Native.Nat.{ℕ, ◌+◌, ◌*◌, ◌≤◌, ◌<◌}
use mathlib.Core.Path.{◌≡◌, refl}
use mathlib.Core.Bool.{true, false}
use mathlib.Core.Logic.{◌≢◌}
use native.Mathlib.Omega.{arith}
use native.Mathlib.Nat.{mul-le-mul_right, le_of_mul-le-mul_left}
use gen_xtaxi_ai.Common.Int.{pos_part, neg_part}
use gen_xtaxi_ai.Common.Number.{den, Number, finite, infinite, nan}
use gen_xtaxi_ai.Common.Double.{ltb_number}

pub ltb_number_asym : (x y : Number) → ltb_number x y ≡ true → ltb_number y x ≡ false
unfolding ltb_number
ltb_number_asym nan y h = cc h
ltb_number_asym (finite f) nan h = refl
ltb_number_asym (infinite s) nan h = refl
ltb_number_asym (finite f) (finite g) h = ground (arith, h)
ltb_number_asym (finite f) (infinite s) h = ground (arith, h)
ltb_number_asym (infinite s) (finite g) h = ground (arith, h)
ltb_number_asym (infinite s) (infinite t) h = ground (arith, h)

fractions :
    (px nx dx py ny D pz nz dz : ℕ)
    → 0 < D
    → py * dx + nx * D ≤ px * D + ny * dx
    → pz * D + ny * dz ≤ py * dz + nz * D
    → pz * dx + nx * dz ≤ px * dz + nz * dx
fractions px nx dx py ny D pz nz dz p h k =
    le_of_mul-le-mul_left {m = pz * dx + nx * dz} {n = px * dz + nz * dx} {k = D}
      (omega (arith, mul-le-mul_right dz h, mul-le-mul_right dx k)) p

-- What is not less than a number that is not less than another is not less than that.
pub ltb_number_trans :
    (x y z : Number)
    → y ≢ nan
    → ltb_number x y ≡ false
    → ltb_number y z ≡ false
    → ltb_number x z ≡ false
unfolding ltb_number
ltb_number_trans x nan z n h k = absurd (n refl)
ltb_number_trans nan (finite g) z n h k = refl
ltb_number_trans nan (infinite g) z n h k = refl
ltb_number_trans (finite f) (finite g) nan n h k = refl
ltb_number_trans (finite f) (infinite g) nan n h k = refl
ltb_number_trans (infinite f) (finite g) nan n h k = refl
ltb_number_trans (infinite f) (infinite g) nan n h k = refl
ltb_number_trans (finite f) (finite g) (finite i) n h k =
    let h' : pos_part g.num * den f + neg_part f.num * den g
        ≤ pos_part f.num * den g + neg_part g.num * den f =
      ground (arith, h) in
    let k' : pos_part i.num * den g + neg_part g.num * den i
        ≤ pos_part g.num * den i + neg_part i.num * den g =
      ground (arith, k) in
    ground (
      arith,
      fractions (pos_part f.num) (neg_part f.num) (den f) (pos_part g.num) (neg_part g.num) (den g)
          (pos_part i.num) (neg_part i.num) (den i) (omega arith) h' k',
    )
ltb_number_trans (finite f) (finite g) (infinite u) n h k = ground (arith, h, k)
ltb_number_trans (finite f) (infinite t) (finite i) n h k = ground (arith, h, k)
ltb_number_trans (finite f) (infinite t) (infinite u) n h k = ground (arith, h, k)
ltb_number_trans (infinite s) (finite g) (finite i) n h k = ground (arith, h, k)
ltb_number_trans (infinite s) (finite g) (infinite u) n h k = ground (arith, h, k)
ltb_number_trans (infinite s) (infinite t) (finite i) n h k = ground (arith, h, k)
ltb_number_trans (infinite s) (infinite t) (infinite u) n h k = ground (arith, h, k)
