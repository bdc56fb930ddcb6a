-- ===== src/Insights/Scheduler/Services.antt =====
-- The services that a cycle calls, on what insights-service keeps in MongoDB and Redis.
use gen_xtaxi_ai.Common.{
  ℕ, String, ◌≡◌, refl, Bool, false, Option, List, [], ◌∷◌, ◌++◌, map, any, inl, inr, Bool-cases,
  All, All-append, if◌then◌else◌, length, ltb, sym, subst,
}
use gen_xtaxi_ai.Common.Number.{Fraction, Number}
use gen_xtaxi_ai.Common.Text.{Text}
use gen_xtaxi_ai.Insights.{RawReview, Review}
use gen_xtaxi_ai.Insights.Aspects.{Answer, process_pending}
use gen_xtaxi_ai.Insights.Aspects.Laws.{
  IsDescribed, undescribed, process_pending-Advances, AreKept-undescribed,
}
use gen_xtaxi_ai.Insights.Filter.{Pattern}
use gen_xtaxi_ai.Insights.Ingest.{
  Store, or_epoch, ingest_pulled, ingest_batch, has_key, inserted, upsert_all,
  detect_review_bombing,
}
use gen_xtaxi_ai.Insights.Ingest.Laws.{IsUnique, same_key, upsert_all-IsUnique}
use gen_xtaxi_ai.Insights.Scheduler.{
  Outcome, returned, threw, Jobs, Phase, ingesting, extracting, selecting, refreshing, advance,
  State, Step, ticked, advanced, tick, Steps, here, there,
}
use gen_xtaxi_ai.Insights.Source.{RideReadModel, Pulled, pull_since}
use gen_xtaxi_ai.Insights.Summaries.{
  SummaryRequest, Prose, Payload, World, recompute, drivers_needing_refresh, reviews_of,
}
use gen_xtaxi_ai.Ports.{Redis}

module _ {S : Type 0} (fl : Fraction → Number) (redis : Redis Payload)
    (write : SummaryRequest → S → Option Prose × S) (prompt_version cold_start_min cache_ttl : ℕ)
    (ask : Text → Number → String → S → Answer × S) (replace_all : Pattern → Text → Text × ℕ)
    (lower : Text → Text) (default_lang : String) (min_new max_age_hours : ℕ) where
  abbrev pub Summaries : Type 0
  Summaries = World fl redis write prompt_version cold_start_min cache_ttl

  -- The rides, the watermark of their ratings, the time, and the rest.
  pub record Insights : Type 0 where
    pub rides : List RideReadModel
    pub watermark : Option ℕ
    pub now : ℕ
    pub rest : Summaries

  abbrev ingested : Insights → ℕ × Store → Outcome ℕ × Insights
  ingested w (n, store) = (
    returned n,
    record w { watermark = store.watermark; rest = record w.rest { reviews = store.reviews } },
  )

  abbrev outcome_of : Bool → ℕ → Outcome ℕ
  outcome_of failed n = if failed then threw else returned n

  unfoldable pub services : Jobs Insights
  unfolding ingest_batch process_pending drivers_needing_refresh recompute
  services = record {
    ingest_batch = λ w. ingested w (
        ingest_batch replace_all lower default_lang w.rides 500
          (record { reviews = w.rest.reviews; watermark = w.watermark }));
    process_pending = λ w.
        let p = process_pending ask 50 w.rest.reviews w.rest.outside in
        (
          outcome_of p.threw p.done,
          record w { rest = record w.rest { reviews = p.reviews; outside = p.state } },
        );
    drivers_needing_refresh = λ w. (
      returned (
          drivers_needing_refresh fl redis write prompt_version cold_start_min cache_ttl w.now
            min_new max_age_hours w.rest),
      w,
    );
    recompute = λ driver_id w. (
      returned tt,
      record w {
        rest =
            (recompute fl redis write prompt_version cold_start_min cache_ttl w.now w.now driver_id
              default_lang w.rest).1;
      },
    );
  }

  -- The reviews have unique keys, and their aspects are of the taxonomy with sentiments from -1 to 1.
  abbrev pub IsKept : Insights → Type 0
  IsKept w = IsUnique w.rest.reviews × All IsDescribed w.rest.reviews

  upsert_all-IsDescribed :
      (bombed : List String) (rs : List RawReview) (reviews : List Review)
      → All IsDescribed reviews
      → All IsDescribed (upsert_all replace_all lower default_lang bombed rs reviews).0
  unfolding upsert_all
  upsert_all-IsDescribed bombed [] reviews h = h
  upsert_all-IsDescribed bombed (r ∷ rs) reviews h = elim (Bool-cases (any (has_key r) reviews)) [
    | inl e ↦ rw (e, upsert_all) (upsert_all-IsDescribed bombed rs reviews h)
    | inr e ↦
        rw (e, upsert_all)
          (upsert_all-IsDescribed bombed rs
            (reviews ++ inserted replace_all lower default_lang bombed r ∷ [])
            (All-append IsDescribed reviews _ h (tt, tt)))
  ]

  pulled-IsKept :
      (p : Pulled) (w : Insights)
      → IsKept w
      → let store =
          (ingest_pulled replace_all lower default_lang p
            (record { reviews = w.rest.reviews; watermark = w.watermark })).1 in
        IsUnique store.reviews × All IsDescribed store.reviews
  pulled-IsKept p w (h, k) = split p.reviews refl
    where
      split :
          (rs : List RawReview)
          → p.reviews ≡ rs
          → let s =
              (ingest_pulled replace_all lower default_lang p
                (record { reviews = w.rest.reviews; watermark = w.watermark })).1 in
            IsUnique s.reviews × All IsDescribed s.reviews
      split [] e = rw e (h, k)
      split (r ∷ rs) e =
          let bombed = detect_review_bombing replace_all lower default_lang (r ∷ rs) in
          rw e (
            upsert_all-IsUnique replace_all lower default_lang bombed (r ∷ rs) w.rest.reviews h,
            upsert_all-IsDescribed bombed (r ∷ rs) w.rest.reviews k,
          )

  -- Keys do not depend on what extraction writes.
  undescribed-All :
      (v : Review) (us : List Review)
      → All (λ u. same_key v u ≡ false) (map undescribed us)
      → All (λ u. same_key v u ≡ false) us
  undescribed-All v [] h = tt
  undescribed-All v (u ∷ us) (h, hs) = (h, undescribed-All v us hs)

  All-undescribed :
      (v : Review) (us : List Review)
      → All (λ u. same_key v u ≡ false) us
      → All (λ u. same_key v u ≡ false) (map undescribed us)
  All-undescribed v [] h = tt
  All-undescribed v (u ∷ us) (h, hs) = (h, All-undescribed v us hs)

  unmap-IsUnique : (vs : List Review) → IsUnique (map undescribed vs) → IsUnique vs
  unmap-IsUnique [] h = tt
  unmap-IsUnique (v ∷ vs) (h, hs) = (undescribed-All v vs h, unmap-IsUnique vs hs)

  map-IsUnique : (vs : List Review) → IsUnique vs → IsUnique (map undescribed vs)
  map-IsUnique [] h = tt
  map-IsUnique (v ∷ vs) (h, hs) = (All-undescribed v vs h, map-IsUnique vs hs)

  recompute-reviews :
      (now cached_at : ℕ) (d lang : String) (w : Summaries)
      → (recompute fl redis write prompt_version cold_start_min cache_ttl now cached_at d lang
          w).1.reviews
        ≡ w.reviews
  unfolding recompute
  recompute-reviews now cached_at d lang w =
      elim (Bool-cases (ltb (length (reviews_of d w.reviews)) cold_start_min)) [
        | inl e ↦ rw (e, recompute) refl
        | inr e ↦ rw (e, recompute) refl
      ]

  advance-IsKept : (p : Phase) (w : Insights) → IsKept w → IsKept (advance services p w).1
  unfolding services advance ingest_batch
  advance-IsKept ingesting w h = pulled-IsKept (pull_since w.rides (or_epoch w.watermark) 500) w h
  advance-IsKept extracting w (h, k) =
      let (described, each, _, _) = process_pending-Advances ask 50 w.rest.reviews w.rest.outside in
      let after = process_pending ask 50 w.rest.reviews w.rest.outside in
      let same = AreKept-undescribed ask w.rest.reviews after.reviews each in
      (unmap-IsUnique _ (subst IsUnique (sym same) (map-IsUnique w.rest.reviews h)), described k)
  advance-IsKept selecting w h = h
  advance-IsKept (refreshing []) w h = h
  advance-IsKept (refreshing (d ∷ ds)) w h =
      subst (λ reviews. IsUnique reviews × All IsDescribed reviews)
        (sym (recompute-reviews w.now w.now d default_lang w.rest)) h

  tick-kept : (s : State services) → (tick services s).kept ≡ s.kept
  unfolding tick
  tick-kept s = elim (Bool-cases s.running) [ inl e ↦ rw e refl | inr e ↦ rw e refl ]

  Step-IsKept : (s t : State services) → Step services s t → IsKept s.kept → IsKept t.kept
  Step-IsKept _ _ (ticked s) h = subst IsKept (sym (tick-kept s)) h
  Step-IsKept _ _ (advanced running front p back kept) h = advance-IsKept p kept h

  -- Whatever the ticks, the calls of the cycles and the answers of the gateway: the reviews keep their
  -- unique keys, and what they are described by stays in the taxonomy, with sentiments from -1 to 1.
  pub Steps-IsKept : (s t : State services) → Steps services s t → IsKept s.kept → IsKept t.kept
  Steps-IsKept _ _ (here s) h = h
  Steps-IsKept s _ (there {t = t} {u = u} steps step) h =
      Step-IsKept t u step (Steps-IsKept s t steps h)
