-- ===== src/Insights/Clusters/Laws.antt =====
-- Where the items go that `greedyCluster` is given.
use gen_xtaxi_ai.Common.{
  ℕ, zero, suc, ◌+◌, ◌<◌, ◌≡◌, refl, sym, subst, inl, inr, false, Option, none, some, List, [], ◌∷◌,
  ◌++◌, length, All, All-append, Bool-cases, arith,
}
use gen_xtaxi_ai.Common.Double.{leb_number}
use gen_xtaxi_ai.Common.Number.{Fraction, Number}
use gen_xtaxi_ai.Common.Sort.{IsSorted, sort-IsSorted, All-sort, flat_map-sort}
use gen_xtaxi_ai.Insights.Clusters.{
  Clusterable, Cluster, larger, cosine, best_from, join_at, placed, cluster_from, greedy_cluster,
}
use mathlib.Core.List.{Perm, flat_map, append_assoc, append-nil, perm_middle}
use mathlib.Core.List.Perm

abbrev members_of : List Cluster → List Clusterable
members_of = flat_map (λ c. c.members)

-- The place, if there is one, is one of the list.
abbrev IsWithin : ℕ → Option ℕ → Type 0
IsWithin n none = Unit
IsWithin n (some i) = i < n

module _ (fl : Fraction → Number) (sqrt : Number → Number) where
  best_from-IsWithin :
      (item : Clusterable) (i n : ℕ) (cs : List Cluster) (best : Option ℕ) (sim : Number)
      → i + length cs ≡ n
      → IsWithin n best
      → IsWithin n (best_from fl sqrt item i cs best sim)
  best_from-IsWithin item i n [] best sim e h = h
  best_from-IsWithin item i n (c ∷ cs) best sim e h =
      elim (Bool-cases (leb_number sim (cosine fl sqrt item.vector c.centroid))) [
        | inl t ↦
            rw t (
              best_from-IsWithin item (suc i) n cs (some i) _ (omega (arith, e)) (omega (arith, e)))
        | inr t ↦ rw t (best_from-IsWithin item (suc i) n cs best sim (omega (arith, e)) h)
      ]

  join_at-Perm :
      (i : ℕ) (item : Clusterable) (cs : List Cluster)
      → i < length cs
      → Perm (members_of (join_at fl sqrt i item cs)) (item ∷ members_of cs)
  unfolding flat_map
  join_at-Perm i item [] h = absurd (omega (arith, h))
  join_at-Perm zero item (c ∷ cs) h =
      subst (λ l. Perm l (item ∷ c.members ++ members_of cs))
        (sym (append_assoc c.members (item ∷ []) (members_of cs)))
        (perm_middle c.members (members_of cs))
  join_at-Perm (suc i) item (c ∷ cs) h =
      Perm.trans (Perm.append_left c.members (join_at-Perm i item cs (omega (arith, h))))
        (perm_middle c.members (members_of cs))

  new-Perm :
      (d : Cluster) (item : Clusterable) (cs : List Cluster)
      → d.members ≡ item ∷ []
      → Perm (members_of (cs ++ d ∷ [])) (item ∷ members_of cs)
  unfolding flat_map
  new-Perm d item [] e = rw e (Perm.refl (item ∷ []))
  new-Perm d item (c ∷ cs) e =
      Perm.trans (Perm.append_left c.members (new-Perm d item cs e))
        (perm_middle c.members (members_of cs))

  placed-Perm :
      (item : Clusterable) (cs : List Cluster) (o : Option ℕ)
      → IsWithin (length cs) o
      → Perm (members_of (placed fl sqrt item cs o)) (item ∷ members_of cs)
  placed-Perm item cs none h = new-Perm _ item cs refl
  placed-Perm item cs (some i) h = join_at-Perm i item cs h

  cluster_from-Perm :
      (threshold : Number) (items : List Clusterable) (cs : List Cluster)
      → Perm (members_of (cluster_from fl sqrt threshold items cs)) (items ++ members_of cs)
  cluster_from-Perm threshold [] cs = Perm.refl (members_of cs)
  cluster_from-Perm threshold (item ∷ items) cs =
      let o = best_from fl sqrt item 0 cs none threshold in
      let here : Perm (members_of (placed fl sqrt item cs o)) (item ∷ members_of cs) =
        placed-Perm item cs o
          (best_from-IsWithin item 0 (length cs) cs none threshold (omega arith) tt) in
      Perm.trans (cluster_from-Perm threshold items (placed fl sqrt item cs o))
        (Perm.trans (Perm.append_left items here) (perm_middle items (members_of cs)))

  abbrev IsFilled : Cluster → Type 0
  IsFilled c = 0 < length c.members

  abbrev run : Number → List Clusterable → List Cluster
  run = greedy_cluster fl sqrt

  length-snoc : (item : Clusterable) (xs : List Clusterable) → 0 < length (xs ++ item ∷ [])
  length-snoc item [] = omega arith
  length-snoc item (x ∷ xs) = omega arith

  join_at-All :
      (i : ℕ) (item : Clusterable) (cs : List Cluster)
      → All IsFilled cs
      → All IsFilled (join_at fl sqrt i item cs)
  join_at-All i item [] h = tt
  join_at-All zero item (c ∷ cs) (h, hs) = (length-snoc item c.members, hs)
  join_at-All (suc i) item (c ∷ cs) (h, hs) = (h, join_at-All i item cs hs)

  placed-All :
      (item : Clusterable) (cs : List Cluster) (o : Option ℕ)
      → All IsFilled cs
      → All IsFilled (placed fl sqrt item cs o)
  placed-All item cs none h = All-append IsFilled cs _ h (omega arith, tt)
  placed-All item cs (some i) h = join_at-All i item cs h

  cluster_from-All :
      (threshold : Number) (items : List Clusterable) (cs : List Cluster)
      → All IsFilled cs
      → All IsFilled (cluster_from fl sqrt threshold items cs)
  cluster_from-All threshold [] cs h = h
  cluster_from-All threshold (item ∷ items) cs h =
      cluster_from-All threshold items _
        (placed-All item cs (best_from fl sqrt item 0 cs none threshold) h)

  each_unit : (cs : List Cluster) → All {0, 0} (λ c. Unit) cs
  each_unit [] = tt
  each_unit (c ∷ cs) = (tt, each_unit cs)

  larger_trans : (x y z : Cluster) → larger y x ≡ false → larger z y ≡ false → larger z x ≡ false
  larger_trans x y z h k = ground (arith, h, k)

  -- Each item is in one cluster and in one place of it, no cluster is empty, and the clusters stand in
  -- the order of their sizes, the largest first.
  pub greedy_cluster-Perm :
      (threshold : Number) (items : List Clusterable)
      → Perm (flat_map (λ c. c.members) (run threshold items)) items
        × All (λ c. 0 < length c.members) (run threshold items)
        × IsSorted larger (run threshold items)
  unfolding greedy_cluster flat_map
  greedy_cluster-Perm threshold items =
      let clusters = cluster_from fl sqrt threshold items [] in
      (
        Perm.trans (flat_map-sort larger (λ c. c.members) clusters) (
            subst (Perm (members_of clusters)) (append-nil items)
              (cluster_from-Perm threshold items [])),
        All-sort larger IsFilled clusters (cluster_from-All threshold items [] tt),
        sort-IsSorted larger (λ c. Unit) (λ x y h. ground (arith, h))
            (λ x y z _. larger_trans x y z) clusters (each_unit clusters),
      )
