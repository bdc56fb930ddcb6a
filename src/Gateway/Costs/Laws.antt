-- ===== src/Gateway/Costs/Laws.antt =====
-- The percentiles of cost.service.ts as nearest ranks.
use gen_xtaxi_ai.Common.{
  ℕ, zero, suc, ◌+◌, ◌-◌, ◌*◌, ◌/◌, ◌≤◌, ◌<◌, ◌≡◌, refl, false, List, [], ◌∷◌, length, keep, All,
  ltb, leb, arith,
}
use native.Mathlib.Nat.{one-le-mul, mul-le-mul_right}
use gen_xtaxi_ai.Common.Sort.{sort, IsSorted, sort-IsSorted, length-sort, length-keep-sort}
use gen_xtaxi_ai.Gateway.Costs.{Percentile, p50, p95, percent, nth, smaller, rank, percentile}

abbrev pub at_most : ℕ → List ℕ → ℕ
at_most v xs = length (keep (λ x. leb x v) xs)

abbrev pub below : ℕ → List ℕ → ℕ
below v xs = length (keep (λ x. ltb x v) xs)

nth-All : (x i : ℕ) (xs : List ℕ) → All (λ y. ltb y x ≡ false) xs → i < length xs → x ≤ nth i xs
nth-All x i [] h k = absurd (omega (arith, k))
nth-All x zero (y ∷ ys) (h, hs) k = ground (arith, h)
nth-All x (suc i) (y ∷ ys) (h, hs) k = nth-All x i ys hs (omega (arith, k))

none_below : (x : ℕ) (xs : List ℕ) → All (λ y. ltb y x ≡ false) xs → below x xs ≡ 0
none_below x [] h = refl
none_below x (y ∷ ys) (h, hs) = rw h (none_below x ys hs)

ranked :
    (i : ℕ) (xs : List ℕ)
    → IsSorted ltb xs
    → i < length xs
    → (suc i ≤ at_most (nth i xs) xs) × (below (nth i xs) xs ≤ i)
ranked i [] h k = absurd (omega (arith, k))
ranked zero (x ∷ xs) (h, hs) k = (ground arith, ground (arith, none_below x xs h))
ranked (suc i) (x ∷ xs) (h, hs) k =
    let (most, few) = ranked i xs hs (omega (arith, k)) in
    let lower : x ≤ nth i xs = nth-All x i xs h (omega (arith, k)) in
    (ground (arith, most, lower), ground (arith, few))

rank_bounds :
    (q n : ℕ)
    → 1 ≤ q
    → q ≤ 100 * n
    → let i = smaller (n - 1) ((q + 99) / 100 - 1) in (i < n) × (q ≤ 100 * suc i) × (100 * i < q)
rank_bounds q n h k = ground (arith, h, k)

percent_bounds : (p : Percentile) → (1 ≤ percent p) × (percent p ≤ 100)
percent_bounds p50 = (omega arith, omega arith)
percent_bounds p95 = (omega arith, omega arith)

each_unit : (xs : List ℕ) → All {0, 0} (λ x. Unit) xs
each_unit [] = tt
each_unit (x ∷ xs) = (tt, each_unit xs)

-- At least p in a hundred of the values are at most this one, and fewer are below it.
abbrev pub IsPercentile : ℕ → List ℕ → ℕ → Type 0
IsPercentile p values found =
    (p * length values ≤ 100 * at_most found values)
    × (100 * below found values < p * length values)

percentile-IsPercentile :
    (v : ℕ) (vs : List ℕ) (p : Percentile)
    → IsPercentile (percent p) (v ∷ vs) (percentile (v ∷ vs) p)
unfolding percentile
percentile-IsPercentile v vs p =
    let values = v ∷ vs in
    let n = length values in
    let i = smaller (n - 1) (rank p n) in
    let (inside, low, high) =
      rank_bounds (percent p * n) n (one-le-mul (percent_bounds p).0 (omega arith))
        (mul-le-mul_right n (percent_bounds p).1) in
    let sorted =
      sort-IsSorted ltb (λ x. Unit) (λ x y e. ground (arith, e))
        (λ x y z _ e f. ground (arith, e, f)) values (each_unit values) in
    let (most, few) =
      ranked i (sort ltb values) sorted (omega (arith, inside, length-sort ltb values)) in
    (
      omega (arith, low, most, length-keep-sort ltb (λ x. leb x (nth i (sort ltb values))) values),
      omega (arith, high, few, length-keep-sort ltb (λ x. ltb x (nth i (sort ltb values))) values),
    )

-- Of any values, at least 50 or 95 in a hundred are at most their percentile of that name, and fewer are
-- below it.
pub percentile_lem :
    (v : ℕ) (vs : List ℕ)
    → IsPercentile 50 (v ∷ vs) (percentile (v ∷ vs) p50)
      × IsPercentile 95 (v ∷ vs) (percentile (v ∷ vs) p95)
percentile_lem v vs = (percentile-IsPercentile v vs p50, percentile-IsPercentile v vs p95)
