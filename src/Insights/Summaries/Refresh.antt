-- ===== src/Insights/Summaries/Refresh.antt =====
-- Which drivers `driversNeedingRefresh` names, and what a recompute changes of that.
use gen_xtaxi_ai.Common.{
  ℕ, zero, suc, ◌+◌, ◌*◌, ◌≤◌, ◌<◌, String, str_eq, eq_iff, ◌≡◌, refl, ap, ◌∙◌, inl, inr, Bool,
  true, false, ◌&&◌, not, Option, none, some, List, [], ◌∷◌, map, keep, length, any, ltb, leb,
  if◌then◌else◌, Bool-cases, arith,
}
use gen_xtaxi_ai.Common.Number.{Fraction, Number}
use gen_xtaxi_ai.Insights.{Review, driver, same_type, limit}
use gen_xtaxi_ai.Common.Sort.{sort, length-sort}
use gen_xtaxi_ai.Insights.Groups.{selected-grouped, passes, extend}
use gen_xtaxi_ai.Insights.Summaries.{
  SummaryRequest, Prose, Payload, DriverSummary, World, recompute, reviews_of, aggregate, written,
  doc_of, upsert, is_about, last_of, by_driver, is_due, drivers_needing_refresh,
}
use gen_xtaxi_ai.Ports.{Redis}

abbrev of_driver : String → DriverSummary → Bool
of_driver driver_id s = str_eq s.driver_id driver_id

-- The driver's summaries are of one language, and there is at most one.
abbrev pub IsOnly : String → List DriverSummary → Type 0
IsOnly lang [] = Unit
IsOnly lang (s ∷ []) = str_eq s.lang lang ≡ true
IsOnly lang (s ∷ t ∷ rest) = ⊥

keep-upsert :
    (d : DriverSummary) (docs : List DriverSummary)
    → IsOnly d.lang (keep (of_driver d.driver_id) docs)
    → keep (of_driver d.driver_id) (upsert d docs) ≡ d ∷ []
unfolding upsert
keep-upsert d [] h = rw ((eq_iff d.driver_id d.driver_id).1 refl) refl
keep-upsert d (e ∷ es) h = elim (Bool-cases (str_eq e.driver_id d.driver_id)) [
  | inl t ↦ found t (rw t at h)
  | inr t ↦ rw (upsert, t, upsert, t) (keep-upsert d es (rw t at h))
]
  where
    found :
        str_eq e.driver_id d.driver_id ≡ true
        → IsOnly d.lang (e ∷ keep (of_driver d.driver_id) es)
        → keep (of_driver d.driver_id) (upsert d (e ∷ es)) ≡ d ∷ []
    found t h =
        let (same, rest) = none_left (keep (of_driver d.driver_id) es) h in
        rw (upsert, t, same, (eq_iff d.driver_id d.driver_id).1 refl) (ap (λ xs. d ∷ xs) rest)
      where
        none_left :
            (rest : List DriverSummary)
            → IsOnly d.lang (e ∷ rest)
            → (str_eq e.lang d.lang ≡ true) × (rest ≡ [])
        none_left [] h = (h, refl)
        none_left (x ∷ xs) h = absurd h

keep-keep :
    (d : String) (vs : List Review)
    → keep
        (λ v. str_eq v.subject_id d)
        (keep (λ v. same_type v.subject_type driver && not v.excluded) vs)
      ≡ keep (is_about d) vs
keep-keep d [] = refl
keep-keep d (v ∷ vs) = elim (Bool-cases (same_type v.subject_type driver && not v.excluded)) [
  | inl t ↦ elim (Bool-cases (str_eq v.subject_id d)) [
    | inl u ↦ rw (t, u) (ap (λ xs. v ∷ xs) (keep-keep d vs))
    | inr u ↦ rw (t, u) (keep-keep d vs)
  ]
  | inr t ↦ elim (Bool-cases (str_eq v.subject_id d)) [
    | inl u ↦ rw (t, u) (keep-keep d vs)
    | inr u ↦ rw (t, u) (keep-keep d vs)
  ]
]

map-id : (vs : List Review) → map (λ v. v) vs ≡ vs
map-id [] = refl
map-id (v ∷ vs) = ap (λ xs. v ∷ xs) (map-id vs)

abbrev newer : Review → Review → Bool
newer a b = ltb b.created_at a.created_at

length-limit :
    (n : ℕ) (vs : List Review)
    → length (limit (suc n) vs) ≡ (if leb (length vs) (suc n) then length vs else suc n)
length-limit n [] = ground arith
length-limit zero (v ∷ []) = ground arith
length-limit zero (v ∷ u ∷ vs) = ground arith
length-limit (suc n) (v ∷ vs) = ground (arith, length-limit n vs)

length-reviews_of :
    (d : String) (vs : List Review)
    → length (reviews_of d vs)
      ≡ (if leb (length (keep (is_about d) vs)) 500 then length (keep (is_about d) vs) else 500)
unfolding reviews_of
length-reviews_of d vs =
    length-limit 499 (sort newer (keep (is_about d) vs))
    ∙ ap (λ n. if leb n 500 then n else 500) (length-sort newer (keep (is_about d) vs))

module _ {S : Type 0} (fl : Fraction → Number) (redis : Redis Payload)
    (write : SummaryRequest → S → Option Prose × S)
    (prompt_version cold_start_min cache_ttl : ℕ) where
  abbrev due : ℕ → ℕ → ℕ → ℕ → Option DriverSummary → Bool
  due = is_due fl redis write prompt_version cold_start_min cache_ttl

  abbrev named : String → List String → Bool
  named d = any (λ t. str_eq t d)

  passes-extend :
      (p : ℕ → Bool) (vs : List Review)
      → passes (λ group. p (length group)) (extend none vs) ≡ (ltb 0 (length vs) && p (length vs))
  passes-extend p [] = refl
  passes-extend p (v ∷ vs) = ground arith

  named_lem :
      (now min_new max_age_hours : ℕ) (d : String)
      (w : World fl redis write prompt_version cold_start_min cache_ttl)
      → let count = length (keep (is_about d) w.reviews) in
        named d (
          drivers_needing_refresh fl redis write prompt_version cold_start_min cache_ttl now min_new
            max_age_hours w)
        ≡ (ltb 0 count && due now min_new max_age_hours count (by_driver d w.summaries))
  unfolding drivers_needing_refresh
  named_lem now min_new max_age_hours d w =
      selected-grouped (λ v. v.subject_id) (λ v. v)
        (λ driver_id group.
          due now min_new max_age_hours (length group) (by_driver driver_id w.summaries))
        d (keep (λ v. same_type v.subject_type driver && not v.excluded) w.reviews)
      ∙ passes-extend (λ n. due now min_new max_age_hours n (by_driver d w.summaries)) _
      ∙ ap
          (λ vs.
            ltb 0 (length vs)
            && due now min_new max_age_hours (length vs) (by_driver d w.summaries))
          (map-id _ ∙ keep-keep d w.reviews)

  recomputed :
      (now cached_at : ℕ) (d lang : String)
      (w : World fl redis write prompt_version cold_start_min cache_ttl)
      → cold_start_min ≤ length (reviews_of d w.reviews)
      → IsOnly lang (keep (of_driver d) w.summaries)
      → let out =
          (recompute fl redis write prompt_version cold_start_min cache_ttl now cached_at d lang
            w).1 in
        (out.reviews ≡ w.reviews)
        × (s : DriverSummary) × (by_driver d out.summaries ≡ some s)
        × (s.review_count ≡ length (reviews_of d w.reviews))
        × (s.computed_at ≡ now)
  unfolding recompute
  recomputed now cached_at d lang w h k =
      let e = ltb_false (length (reviews_of d w.reviews)) cold_start_min h in
      let asked = aggregate fl (reviews_of d w.reviews) lang in
      let doc =
        doc_of fl redis write prompt_version cold_start_min cache_ttl now d lang
          (length (reviews_of d w.reviews)) (written asked (write asked w.outside).0) in
      (
        rw (e, recompute) refl,
        doc,
        rw (e, recompute) (ap (λ docs. last_of docs none) (keep-upsert doc w.summaries k)),
        refl,
        refl,
      )
    where
      ltb_false : (a b : ℕ) → b ≤ a → ltb a b ≡ false
      ltb_false a b h = ground (arith, h)

  due_again :
      (later now min_new max_age_hours count : ℕ) (s : DriverSummary)
      → s.computed_at ≡ now
      → later ≤ now + max_age_hours * 3600000
      → 0 < min_new
      → s.review_count ≡ (if leb count 500 then count else 500)
      → (ltb 0 count && due later min_new max_age_hours count (some s)) ≡ leb (min_new + 500) count
  due_again later now min_new max_age_hours count s h i j k = ground (arith, h, i, j, k)

  -- Just after the only summary of a driver was computed, and until it is of the age that makes it
  -- stale, the driver is named again exactly when their reviews are at least as many more than 500 as
  -- the new ones that a refresh waits for: the summary counts no more than 500.
  pub drivers_needing_refresh-recompute :
      (now cached_at later min_new max_age_hours : ℕ) (d lang : String)
      (w : World fl redis write prompt_version cold_start_min cache_ttl)
      → 0 < min_new
      → cold_start_min ≤ length (reviews_of d w.reviews)
      → IsOnly lang (keep (of_driver d) w.summaries)
      → later ≤ now + max_age_hours * 3600000
      → named d (
          drivers_needing_refresh fl redis write prompt_version cold_start_min cache_ttl later
            min_new max_age_hours
            (recompute fl redis write prompt_version cold_start_min cache_ttl now cached_at d lang
              w).1)
        ≡ leb (min_new + 500) (length (keep (is_about d) w.reviews))
  drivers_needing_refresh-recompute now cached_at later min_new max_age_hours d lang w h i j k =
      let out =
        (recompute fl redis write prompt_version cold_start_min cache_ttl now cached_at d lang
          w).1 in
      let (same, s, found, counted, timed) = recomputed now cached_at d lang w i j in
      let count = length (keep (is_about d) w.reviews) in
      let at_most : s.review_count ≡ (if leb count 500 then count else 500) =
        counted ∙ length-reviews_of d w.reviews in
      named_lem later min_new max_age_hours d out
      ∙ ap
          (λ vs.
            ltb 0 (length (keep (is_about d) vs))
            && due later min_new max_age_hours (length (keep (is_about d) vs))
                (by_driver d out.summaries))
          same
      ∙ ap (λ o. ltb 0 count && due later min_new max_age_hours count o) found
      ∙ due_again later now min_new max_age_hours count s timed k h at_most
