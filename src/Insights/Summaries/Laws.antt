-- ===== src/Insights/Summaries/Laws.antt =====
-- What `serve` gives after a `recompute`.
use gen_xtaxi_ai.Common.{
  ℕ, ◌+◌, ◌/◌, ◌≤◌, ◌<◌, String, ◌≡◌, refl, true, false, Option, none, some, length, ltb, arith,
}
use gen_xtaxi_ai.Common.Number.{Fraction, Number}
use gen_xtaxi_ai.Insights.Summaries.{
  SummaryRequest, Prose, Payload, DriverSummaryJson, World, cache_key, recompute, serve, reviews_of,
  aggregate, written,
}
use gen_xtaxi_ai.Ports.{Redis}

module _ {S : Type 0} (fl : Fraction → Number) (redis : Redis Payload)
    (write : SummaryRequest → S → Option Prose × S)
    (prompt_version cold_start_min cache_ttl : ℕ) where
  abbrev recompute_in :
      ℕ
      → ℕ
      → String
      → String
      → World fl redis write prompt_version cold_start_min cache_ttl
      → Option DriverSummaryJson × World fl redis write prompt_version cold_start_min cache_ttl
  recompute_in = recompute fl redis write prompt_version cold_start_min cache_ttl

  -- A driver with fewer reviews than the cold start asks for gets no summary, the gateway is not asked
  -- and nothing changes; any other gets one of the aggregates of their reviews, which is served from
  -- then on until the cache lets go of it.
  pub serve-recompute :
      (now cached_at later : ℕ) (driver_id lang : String)
      (w : World fl redis write prompt_version cold_start_min cache_ttl)
      → cached_at ≤ later
      → later / 1000 < cached_at / 1000 + cache_ttl
      → let reviews = reviews_of driver_id w.reviews in
        let out = recompute_in now cached_at driver_id lang w in
        let answer = (write (aggregate fl reviews lang) w.outside).0 in
        let made = written (aggregate fl reviews lang) answer in
        (length reviews < cold_start_min → out ≡ (none, w))
        × (cold_start_min ≤ length reviews
            → (out.0 ≡ some made)
              × ((serve fl redis write prompt_version cold_start_min cache_ttl later driver_id lang
                    out.1).0
                  ≡ some (record { summary = made; computed_at = cached_at })))
  unfolding recompute serve
  serve-recompute now cached_at later driver_id lang w h k =
      let reviews = reviews_of driver_id w.reviews in
      (
        λ few. rw (ltb_true (length reviews) cold_start_min few, recompute) refl,
        λ many.
            let e = ltb_false (length reviews) cold_start_min many in
            let made =
              written (aggregate fl reviews lang) (write (aggregate fl reviews lang) w.outside).0 in
            (
              rw (e, recompute) refl,
              rw
                  (
                    e,
                    recompute,
                    serve,
                    redis.get-set_self (cached_at / 1000) (later / 1000) (cache_key driver_id lang)
                        (record { summary = made; computed_at = cached_at }) cache_ttl w.cache
                        (omega (arith, h)) k,
                  )
                  refl,
            ),
      )
    where
      ltb_true : (a b : ℕ) → a < b → ltb a b ≡ true
      ltb_true a b h = ground (arith, h)

      ltb_false : (a b : ℕ) → b ≤ a → ltb a b ≡ false
      ltb_false a b h = ground (arith, h)
