-- ===== src/Insights/Tests.antt =====
-- The insights on concrete rides, reviews and services.
use gen_xtaxi_ai.Common.{
  ◌↔◌, true, ℕ, ◌+◌, ◌≤◌, ◌<◌, String, str_eq, ◌≡◌, false, Option, none, some, List, [], ◌∷◌, map,
  keep, any, length, leb, All, arith,
}
use gen_xtaxi_ai.Common.Int.{pos}
use gen_xtaxi_ai.Common.Number.{Fraction, Number, finite}
use gen_xtaxi_ai.Common.Sort.{IsSorted}
use gen_xtaxi_ai.Common.Text.{trim, Text, codes}
use gen_xtaxi_ai.Insights.{driver, RawReview, Review}
use gen_xtaxi_ai.Insights.Aspects.{Answer, answered, number, process_pending}
use gen_xtaxi_ai.Insights.Aspects.Laws.{Advances, allowed, process_pending-Advances}
use gen_xtaxi_ai.Insights.Clusters.{Clusterable, larger, greedy_cluster}
use gen_xtaxi_ai.Insights.Clusters.Laws.{greedy_cluster-Perm}
use gen_xtaxi_ai.Insights.Filter.{Pattern}
use gen_xtaxi_ai.Insights.Ingest.{upsert_all, detect_review_bombing}
use gen_xtaxi_ai.Insights.Ingest.Bombing.{IsBombed, detect_review_bombing_iff}
use gen_xtaxi_ai.Insights.Ingest.Laws.{IsUnique, upsert_all_idempotent}
use gen_xtaxi_ai.Insights.Serving.{chips_of}
use gen_xtaxi_ai.Insights.Serving.Laws.{Shows, chips_of_lem}
use gen_xtaxi_ai.Insights.Source.{EmbeddedRating, RideReadModel, pull_since}
use gen_xtaxi_ai.Insights.Source.Laws.{Reaches, pull_since-Reaches}
use gen_xtaxi_ai.Insights.Summaries.{
  AspectSummary, SummaryRequest, Prose, Payload, World, aggregate, written, reviews_of, recompute,
  serve, is_about, drivers_needing_refresh,
}
use gen_xtaxi_ai.Insights.Summaries.Laws.{serve-recompute}
use gen_xtaxi_ai.Insights.Summaries.Refresh.{drivers_needing_refresh-recompute}
use gen_xtaxi_ai.Ports.{Redis}
use gen_xtaxi_ai.Ports.Memory.{memory_redis}
use mathlib.Core.List.{Perm, flat_map}

abbrev fl : Fraction → Number
fl f = finite f

abbrev sqrt : Number → Number
sqrt n = n

abbrev replace_all : Pattern → Text → Text × ℕ
replace_all p text = (text, 0)

abbrev lower : Text → Text
lower text = text

abbrev rating : ℕ → String → Option EmbeddedRating
rating at text =
    some (record { rating = some (number (pos 5)); review = some (codes text); rated_at = some at })

abbrev ride : String → ℕ → ℕ → ℕ → RideReadModel
ride id updated_at driver_at passenger_at = record {
  id = id;
  passenger = some "p";
  driver = some "d";
  zone_id = none;
  passenger_rating = rating passenger_at "fine";
  driver_rating = rating driver_at "good";
  updated_at = updated_at;
}

-- The ride that was updated first has the later ratings.
abbrev two_rides : List RideReadModel
two_rides = ride "a" 1 50 40 ∷ ride "b" 2 20 30 ∷ []

pull_since-Reaches_example : Reaches 10 (pull_since two_rides 10 500)
pull_since-Reaches_example = pull_since-Reaches two_rides 10 500

abbrev raw : String → RawReview
raw ride_id = record {
  ride_id = ride_id;
  author_id = "p";
  subject_id = "d";
  subject_type = driver;
  rating = number (pos 1);
  text = codes "bad";
  zone_id = none;
  created_at = 20;
}

abbrev six : List RawReview
six = raw "a" ∷ raw "b" ∷ raw "c" ∷ raw "d" ∷ raw "e" ∷ raw "a" ∷ []

upsert_all_idempotent_example :
    (upsert_all replace_all lower "fr" [] six
        (upsert_all replace_all lower "fr" ("d" ∷ []) six []).0
      ≡ ((upsert_all replace_all lower "fr" ("d" ∷ []) six []).0, 0))
    × (IsUnique [] → IsUnique (upsert_all replace_all lower "fr" ("d" ∷ []) six []).0)
upsert_all_idempotent_example = upsert_all_idempotent replace_all lower "fr" ("d" ∷ []) [] six []

detect_review_bombing_iff_example :
    (any (λ s. str_eq s "d") (detect_review_bombing replace_all lower "fr" six) ≡ true)
    ↔ IsBombed (map (λ r. lower (trim r.text)) (keep (λ r. str_eq r.subject_id "d") six))
detect_review_bombing_iff_example = detect_review_bombing_iff replace_all lower "fr" "d" six

abbrev review : String → ℕ → Review
review ride_id created_at = record {
  ride_id = ride_id;
  author_id = "p";
  subject_id = "d";
  subject_type = driver;
  rating = number (pos 4);
  text = codes "clean car";
  lang = "fr";
  created_at = created_at;
  aspects = [];
  aspects_processed = false;
  excluded = false;
  excluded_reason = none;
  zone_id = none;
}

abbrev two_reviews : List Review
two_reviews = review "a" 1 ∷ review "b" 2 ∷ []

-- The gateway counts what it is asked.
abbrev ask : Text → Number → String → ℕ → Answer × ℕ
ask text stars lang n = (
  answered (
      record { aspect = "cleanliness"; sentiment = number (pos 3); evidence_span = none }
      ∷ record { aspect = "weather"; sentiment = number (pos 0); evidence_span = none }
      ∷ []),
  n + 1,
)

process_pending-Advances_example :
    Advances ask (allowed ask 1 two_reviews) two_reviews (process_pending ask 1 two_reviews 0)
process_pending-Advances_example = process_pending-Advances ask 1 two_reviews 0

abbrev redis : Redis Payload
redis = memory_redis Payload

abbrev write : SummaryRequest → ℕ → Option Prose × ℕ
write q n =
    (some (record { summary = some (codes "ok"); strengths = none; improvements = none }), n + 1)

abbrev Summaries : Type 0
Summaries = World fl redis write 1 2 60

abbrev start : Summaries
start = record { reviews = two_reviews; summaries = []; cache = λ k. none; outside = 0 }

serve-recompute_example :
    let reviews = reviews_of "d" two_reviews in
    let out = recompute fl redis write 1 2 60 5000 5000 "d" "fr" start in
    let answer = (write (aggregate fl reviews "fr") 0).0 in
    let made = written (aggregate fl reviews "fr") answer in
    (length reviews < 2 → out ≡ (none, start))
    × (2 ≤ length reviews
        → (out.0 ≡ some made)
          × ((serve fl redis write 1 2 60 9000 "d" "fr" out.1).0
              ≡ some (record { summary = made; computed_at = 5000 })))
serve-recompute_example =
    serve-recompute fl redis write 1 2 60 5000 5000 9000 "d" "fr" start (omega arith) (omega arith)

two : 2 ≤ length (reviews_of "d" two_reviews)
unfolding reviews_of
two = omega arith

drivers_needing_refresh-recompute_example :
    any
      (λ t. str_eq t "d")
      (drivers_needing_refresh fl redis write 1 2 60 9000 5 24
        (recompute fl redis write 1 2 60 5000 5000 "d" "fr" start).1)
    ≡ leb (5 + 500) (length (keep (is_about "d") two_reviews))
drivers_needing_refresh-recompute_example =
    drivers_needing_refresh-recompute fl redis write 1 2 60 5000 5000 9000 5 24 "d" "fr" start
      (omega arith) two tt (omega arith)

abbrev found : String → ℕ → AspectSummary
found name sentiment = record { name = name; sentiment = number (pos sentiment); mention_count = 1 }

abbrev three_found : List AspectSummary
three_found = found "punctuality" 0 ∷ found "cleanliness" 1 ∷ found "communication" 2 ∷ []

chips_of_lem_example : Shows three_found (chips_of three_found)
chips_of_lem_example = chips_of_lem three_found

abbrev point : ℕ → Clusterable
point n = record { text = codes "late"; vector = number (pos n) ∷ [] }

abbrev three_points : List Clusterable
three_points = point 1 ∷ point 0 ∷ point 1 ∷ []

greedy_cluster-Perm_example :
    let clusters = greedy_cluster fl sqrt (number (pos 1)) three_points in
    Perm (flat_map (λ c. c.members) clusters) three_points
    × All (λ c. 0 < length c.members) clusters
    × IsSorted larger clusters
greedy_cluster-Perm_example = greedy_cluster-Perm fl sqrt (number (pos 1)) three_points
