-- ===== src/Insights/Summaries.antt =====
-- pipeline/summarizer.service.ts, with the documents of schemas/driver-summary.schema.ts. The rounding
-- of doubles, Redis and the gateway's prose are parameters. What the gateway is sent is the record of
-- the values that its messages are made of. Times are in milliseconds, as `Date` has them; Redis is
-- given seconds.
pub mod Laws
pub mod Refresh
use gen_xtaxi_ai.Common.{
  ℕ, zero, suc, ◌+◌, ◌*◌, ◌/◌, String, str_eq, Bool, true, false, ◌&&◌, not, Option, none, some,
  List, [], ◌∷◌, map, length, keep, ltb, leb, if◌then◌else◌,
}
use gen_xtaxi_ai.Common.Double.{plus, round_half_up}
use gen_xtaxi_ai.Common.Int.{pos, negsuc}
use gen_xtaxi_ai.Common.Number.{Fraction, Number, times}
use gen_xtaxi_ai.Common.Sort.{sort}
use gen_xtaxi_ai.Common.Text.{Text}
use gen_xtaxi_ai.Common.Double.{divide}
use gen_xtaxi_ai.Insights.{SubjectType, driver, AspectResult, Review, same_type, aspects, limit}
use gen_xtaxi_ai.Insights.Aspects.{number}
use gen_xtaxi_ai.Insights.Groups.{grouped, selected}
use gen_xtaxi_ai.Ports.{Redis}
use Prim.Native.String.{◌++◌ as str_append}
use mathlib.Core.List.{flat_map}

-- An element of `aspects` in the summary.
pub record AspectSummary : Type 0 where
  pub name : String
  pub sentiment : Number
  pub mention_count : ℕ

pub record DriverSummaryJson : Type 0 where
  pub summary : Text
  pub overall_sentiment : Number
  pub aspects : List AspectSummary
  pub strengths : List Text
  pub improvements : List Text
  pub review_count : ℕ
  pub lang : String

pub record DriverSummary : Type 0 where
  pub driver_id : String
  pub lang : String
  pub summary : DriverSummaryJson
  pub review_count : ℕ
  pub prompt_version : ℕ
  pub computed_at : ℕ

-- What is cached and served.
pub record Payload : Type 0 where
  pub summary : DriverSummaryJson
  pub computed_at : ℕ

-- What the prompt says, and what comes back for it.
pub record SummaryRequest : Type 0 where
  pub lang : String
  pub review_count : ℕ
  pub aspects : List AspectSummary
  pub overall_sentiment : Number

pub record Prose : Type 0 where
  pub summary : Option Text
  pub strengths : Option (List Text)
  pub improvements : Option (List Text)

abbrev pub or_none {ℓ} : {A : Type ℓ} → Option (List A) → List A
or_none none = []
or_none (some xs) = xs

abbrev pub written : SummaryRequest → Option Prose → DriverSummaryJson
written q answer = record {
  summary = elim answer [ none ↦ [] | some p ↦ or_none p.summary ];
  overall_sentiment = q.overall_sentiment;
  aspects = q.aspects;
  strengths = elim answer [ none ↦ [] | some p ↦ or_none p.strengths ];
  improvements = elim answer [ none ↦ [] | some p ↦ or_none p.improvements ];
  review_count = q.review_count;
  lang = q.lang;
}

unfoldable pub cache_key : String → String → String
cache_key driver_id lang = str_append "driver_summary:" (str_append driver_id (str_append ":" lang))

module _ (fl : Fraction → Number) where
  unfoldable pub round2 : Number → Number
  unfolding times round_half_up divide
  round2 n = divide fl (round_half_up (times fl n (number (pos 100)))) (number (pos 100))

  abbrev pub total : List Number → Number → Number
  total [] sum = sum
  total (n ∷ ns) sum = total ns (plus fl sum n)

  unfoldable pub avg : List Number → Number
  unfolding plus divide
  avg [] = number (pos 0)
  avg (n ∷ ns) = divide fl (total (n ∷ ns) (number (pos 0))) (number (pos (length (n ∷ ns))))

  -- The entry of the aggregates under a name.
  abbrev pub tally : String → List AspectResult → Number × ℕ → Number × ℕ
  tally name [] acc = acc
  tally name (a ∷ mentions) (sum, count) =
      tally name mentions
        (if str_eq a.aspect name then (plus fl sum a.sentiment, suc count) else (sum, count))

  abbrev averaged : String → Number × ℕ → List AspectSummary → List AspectSummary
  averaged name (sum, zero) rest = rest
  averaged name (sum, suc n) rest =
      record {
        name = name;
        sentiment = round2 (divide fl sum (number (pos (suc n))));
        mention_count = suc n;
      }
      ∷ rest

  abbrev aspects_of : List String → List AspectResult → List AspectSummary
  aspects_of [] mentions = []
  aspects_of (name ∷ names) mentions =
      averaged name (tally name mentions (number (pos 0), 0)) (aspects_of names mentions)

  abbrev overall_of : List AspectSummary → List Review → Number
  overall_of [] reviews =
      round2 (
        divide fl (plus fl (avg (map (λ r. r.rating) reviews)) (number (negsuc 2)))
          (number (pos 2)))
  overall_of (a ∷ rest) reviews = round2 (
      divide fl (total (map (λ x. x.sentiment) (a ∷ rest)) (number (pos 0)))
        (number (pos (length (a ∷ rest)))))

  -- What the reviews of a driver are summed up to.
  unfoldable pub aggregate : List Review → String → SummaryRequest
  unfolding plus divide round2 avg flat_map
  aggregate reviews lang =
      let found = aspects_of aspects (flat_map (λ r. r.aspects) reviews) in
      record {
        lang = lang;
        review_count = length reviews;
        aspects = found;
        overall_sentiment = overall_of found reviews;
      }

abbrev pub is_about : String → Review → Bool
is_about driver_id v =
    str_eq v.subject_id driver_id && (same_type v.subject_type driver && not v.excluded)

unfoldable pub reviews_of : String → List Review → List Review
unfolding sort
reviews_of driver_id reviews =
    limit 500 (sort (λ a b. ltb b.created_at a.created_at) (keep (is_about driver_id) reviews))

-- `updateOne({ driverId, lang }, { $set }, { upsert: true })`
unfoldable pub upsert : DriverSummary → List DriverSummary → List DriverSummary
upsert d [] = d ∷ []
upsert d (e ∷ es) =
    let rest = upsert d es in
    if str_eq e.driver_id d.driver_id && str_eq e.lang d.lang then d ∷ es else e ∷ rest

abbrev pub find_summary : String → String → List DriverSummary → Option DriverSummary
find_summary driver_id lang [] = none
find_summary driver_id lang (e ∷ es) =
    let rest = find_summary driver_id lang es in
    if str_eq e.driver_id driver_id && str_eq e.lang lang then some e else rest

abbrev pub last_of {ℓ} : {A : Type ℓ} → List A → Option A → Option A
last_of [] o = o
last_of (x ∷ xs) o = last_of xs (some x)

-- The entry of `byDriver`, in which a later document of a driver takes the place of an earlier one.
abbrev pub by_driver : String → List DriverSummary → Option DriverSummary
by_driver driver_id docs = last_of (keep (λ s. str_eq s.driver_id driver_id) docs) none

module _ {S : Type 0} (fl : Fraction → Number) (redis : Redis Payload)
    (write : SummaryRequest → S → Option Prose × S)
    (prompt_version cold_start_min cache_ttl : ℕ) where
  pub record World : Type 0 where
    pub reviews : List Review
    pub summaries : List DriverSummary
    pub cache : redis.State
    pub outside : S

  abbrev pub doc_of : ℕ → String → String → ℕ → DriverSummaryJson → DriverSummary
  doc_of now driver_id lang review_count made = record {
    driver_id = driver_id;
    lang = lang;
    summary = made;
    review_count = review_count;
    prompt_version = prompt_version;
    computed_at = now;
  }

  -- `now` is the time that the document gets and `cached_at` the one that the cache gets.
  unfoldable pub recompute : ℕ → ℕ → String → String → World → Option DriverSummaryJson × World
  unfolding reviews_of aggregate upsert cache_key
  recompute now cached_at driver_id lang w =
      let reviews = reviews_of driver_id w.reviews in
      if ltb (length reviews) cold_start_min
      then (none, w)
      else let answer = write (aggregate fl reviews lang) w.outside in
        let made = written (aggregate fl reviews lang) answer.0 in
        let payload : Payload = record { summary = made; computed_at = cached_at } in
        (
          some made,
          record w {
            summaries = upsert (doc_of now driver_id lang (length reviews) made) w.summaries;
            cache =
                redis.set (cached_at / 1000) (cache_key driver_id lang) payload cache_ttl w.cache;
            outside = answer.1;
          },
        )

  abbrev pub from_summaries :
      ℕ → String → String → Option DriverSummary → World → Option Payload × World
  from_summaries now driver_id lang none w = (none, w)
  from_summaries now driver_id lang (some d) w =
      let payload : Payload = record { summary = d.summary; computed_at = d.computed_at } in
      (
        some payload,
        record w {
          cache = redis.set (now / 1000) (cache_key driver_id lang) payload cache_ttl w.cache;
        },
      )

  unfoldable pub serve : ℕ → String → String → World → Option Payload × World
  unfolding cache_key
  serve now driver_id lang w = elim (redis.get (now / 1000) (cache_key driver_id lang) w.cache) [
    | some payload ↦ (some payload, w)
    | none ↦ from_summaries now driver_id lang (find_summary driver_id lang w.summaries) w
  ]

  abbrev pub is_due : ℕ → ℕ → ℕ → ℕ → Option DriverSummary → Bool
  is_due now min_new max_age_hours count none = leb cold_start_min count
  is_due now min_new max_age_hours count (some s) =
      if leb (min_new + s.review_count) count
      then true
      else ltb (s.computed_at + max_age_hours * 3600000) now

  -- The groups come in the order in which their drivers first do.
  unfoldable pub drivers_needing_refresh : ℕ → ℕ → ℕ → World → List String
  unfolding grouped
  drivers_needing_refresh now min_new max_age_hours w =
      selected
        (λ driver_id group.
          is_due now min_new max_age_hours (length group) (by_driver driver_id w.summaries))
        (grouped (λ v. v.subject_id) (λ v. v)
          (keep (λ v. same_type v.subject_type driver && not v.excluded) w.reviews) [])
