-- ===== src/Insights/Clusters.antt =====
-- pipeline/clustering.ts. The rounding of doubles and `Math.sqrt` are parameters.
pub mod Laws
use gen_xtaxi_ai.Common.{
  ℕ, zero, suc, Bool, true, false, ◌&&◌, Option, none, some, List, [], ◌∷◌, ◌++◌, map, length, ltb,
  if◌then◌else◌,
}
use gen_xtaxi_ai.Common.Double.{plus, leb_number, is_truthy}
use gen_xtaxi_ai.Common.Int.{pos}
use gen_xtaxi_ai.Common.Number.{Fraction, Number, nan, finite, whole, times}
use gen_xtaxi_ai.Common.Sort.{sort}
use gen_xtaxi_ai.Common.Text.{Text}
use gen_xtaxi_ai.Common.Double.{divide}

abbrev pub Vector : Type 0
Vector = List Number

pub record Clusterable : Type 0 where
  pub text : Text
  pub vector : Vector

pub record Cluster : Type 0 where
  pub members : List Clusterable
  pub centroid : Vector

abbrev pub larger : Cluster → Cluster → Bool
larger a b = ltb (length b.members) (length a.members)

abbrev pub zero_number : Number
zero_number = finite (whole (pos 0))

module _ (fl : Fraction → Number) (sqrt : Number → Number) where
  abbrev sums : Vector → Vector → Number → Number → Number → Number × Number × Number
  sums [] b dot na nb = (dot, na, nb)
  sums (x ∷ a) [] dot na nb = (dot, na, nb)
  sums (x ∷ a) (y ∷ b) dot na nb =
      sums a b (plus fl dot (times fl x y)) (plus fl na (times fl x x)) (plus fl nb (times fl y y))

  unfoldable pub cosine : Vector → Vector → Number
  unfolding plus times divide is_truthy
  cosine a b =
      let (dot, na, nb) = sums a b zero_number zero_number zero_number in
      if is_truthy na && is_truthy nb
      then divide fl dot (times fl (sqrt na) (sqrt nb))
      else zero_number

  abbrev zeros : Vector → Vector
  zeros [] = []
  zeros (x ∷ v) = zero_number ∷ zeros v

  -- A component that is missing is no number.
  abbrev add_to : Vector → Vector → Vector
  add_to [] v = []
  add_to (o ∷ out) [] = nan ∷ add_to out []
  add_to (o ∷ out) (x ∷ v) = plus fl o x ∷ add_to out v

  abbrev sum_of : List Vector → Vector → Vector
  sum_of [] out = out
  sum_of (v ∷ vs) out = sum_of vs (add_to out v)

  unfoldable pub mean : List Vector → Vector
  unfolding plus divide
  mean [] = []
  mean (v ∷ vs) =
      map (λ x. divide fl x (finite (whole (pos (length (v ∷ vs)))))) (sum_of (v ∷ vs) (zeros v))

  -- The place of the best cluster, the last of those that are best.
  abbrev pub best_from : Clusterable → ℕ → List Cluster → Option ℕ → Number → Option ℕ
  best_from item i [] best best_sim = best
  best_from item i (c ∷ cs) best best_sim =
      let sim = cosine item.vector c.centroid in
      let better = best_from item (suc i) cs (some i) sim in
      let same = best_from item (suc i) cs best best_sim in
      if leb_number best_sim sim then better else same

  abbrev pub joined : Clusterable → Cluster → Cluster
  joined item c =
      let members = c.members ++ item ∷ [] in
      record { members = members; centroid = mean (map (λ m. m.vector) members) }

  abbrev pub join_at : ℕ → Clusterable → List Cluster → List Cluster
  join_at i item [] = []
  join_at zero item (c ∷ cs) = joined item c ∷ cs
  join_at (suc i) item (c ∷ cs) = c ∷ join_at i item cs

  abbrev pub placed : Clusterable → List Cluster → Option ℕ → List Cluster
  placed item cs none = cs ++ record { members = item ∷ []; centroid = item.vector } ∷ []
  placed item cs (some i) = join_at i item cs

  abbrev pub cluster_from : Number → List Clusterable → List Cluster → List Cluster
  cluster_from threshold [] cs = cs
  cluster_from threshold (item ∷ items) cs =
      cluster_from threshold items (placed item cs (best_from item 0 cs none threshold))

  unfoldable pub greedy_cluster : Number → List Clusterable → List Cluster
  unfolding cosine mean sort leb_number
  greedy_cluster threshold items = sort larger (cluster_from threshold items [])
