-- ===== src/Gateway/Costs.antt =====
-- ai-gateway's dashboard of costs: cost/cost.service.ts over the documents of
-- schemas/ai-call-log.schema.ts. A rate is kept as its two counts, a day is what the calendar, a
-- parameter, makes of a time, and groups come in the order in which they first occur, which the sorts
-- after them keep where they leave a choice.
pub mod Laws
mod Tests
use gen_xtaxi_ai.Common.{
  ℕ, zero, suc, ◌+◌, ◌-◌, ◌*◌, ◌/◌, String, str_eq, Bool, true, false, ◌&&◌, ◌||◌, Option, none,
  some, List, [], ◌∷◌, ◌++◌, map, length, keep, ltb, leb, if◌then◌else◌,
}
use gen_xtaxi_ai.Common.Sort.{sort}
use gen_xtaxi_ai.Gateway.Calls.{AiCallRecord, Price}
use gen_xtaxi_ai.Insights.Groups.{grouped}
use mathlib.Core.List.{flat_map}

-- A record of the log, with the time that the database gave it.
pub record AiCallLog : Type 0 where
  pub call : AiCallRecord
  pub created_at : ℕ

pub record CostQuery : Type 0 where
  pub from : Option ℕ
  pub to : Option ℕ
  pub feature : Option String

abbrev is_from : Option ℕ → ℕ → Bool
is_from none t = true
is_from (some first) t = leb first t

abbrev is_to : Option ℕ → ℕ → Bool
is_to none t = true
is_to (some last) t = leb t last

-- An empty name does not restrict the features.
abbrev is_of : Option String → String → Bool
is_of none f = true
is_of (some name) f = str_eq name "" || str_eq f name

unfoldable pub matches : CostQuery → AiCallLog → Bool
matches q l =
    is_of q.feature l.call.feature && (is_from q.from l.created_at && is_to q.to l.created_at)

abbrev pub total : List ℕ → ℕ
total [] = 0
total (n ∷ ns) = n + total ns

abbrev cents_of : Option Price → ℕ
cents_of none = 0
cents_of (some p) = p.amount

abbrev is_error : AiCallRecord → Bool
is_error r = str_eq r.outcome "error" || str_eq r.outcome "blocked"

abbrev pub nth : ℕ → List ℕ → ℕ
nth i [] = 0
nth zero (x ∷ xs) = x
nth (suc i) (x ∷ xs) = nth i xs

-- The percentiles that the summary asks for, the only ones.
pub data Percentile : Type 0 where
  p50 p95 : Percentile

abbrev pub percent : Percentile → ℕ
percent p50 = 50
percent p95 = 95

-- `Math.ceil((p / 100) * n) - 1`, where the doubles of these two percentiles come to the same for
-- every length of an array.
abbrev pub rank : Percentile → ℕ → ℕ
rank p n = (percent p * n + 99) / 100 - 1

abbrev pub smaller : ℕ → ℕ → ℕ
smaller a b = if ltb a b then a else b

unfoldable pub percentile : List ℕ → Percentile → ℕ
unfolding sort
percentile [] p = 0
percentile (v ∷ vs) p =
    let n = length (v ∷ vs) in nth (smaller (n - 1) (rank p n)) (sort ltb (v ∷ vs))

pub record FeatureCosts : Type 0 where
  pub feature : String
  pub requests : ℕ
  pub input_tokens : ℕ
  pub output_tokens : ℕ
  pub cost_cents : ℕ
  pub errors : ℕ
  pub p50_latency_ms : ℕ
  pub p95_latency_ms : ℕ

abbrev pub costs_of : String × List AiCallRecord → FeatureCosts
costs_of (feature, calls) = record {
  feature = feature;
  requests = length calls;
  input_tokens = total (map (λ r. r.input_tokens) calls);
  output_tokens = total (map (λ r. r.output_tokens) calls);
  cost_cents = total (map (λ r. cents_of r.cost) calls);
  errors = length (keep is_error calls);
  p50_latency_ms = percentile (map (λ r. r.latency_ms) calls) p50;
  p95_latency_ms = percentile (map (λ r. r.latency_ms) calls) p95;
}

unfoldable pub summary : CostQuery → List AiCallLog → List FeatureCosts
unfolding matches grouped percentile sort
summary q logs =
    sort (λ a b. ltb b.requests a.requests)
      (map costs_of (grouped (λ l. l.call.feature) (λ l. l.call) (keep (matches q) logs) []))

pub record DailyCosts : Type 0 where
  pub day : ℕ
  pub feature : String
  pub cost_cents : ℕ
  pub requests : ℕ

abbrev day_costs : ℕ → String × List AiCallRecord → DailyCosts
day_costs day (feature, calls) = record {
  day = day;
  feature = feature;
  cost_cents = total (map (λ r. cents_of r.cost) calls);
  requests = length calls;
}

-- The days of the logs, each once.
abbrev days_from : List ℕ → List ℕ → List ℕ
days_from seen [] = []
days_from seen (d ∷ ds) =
    let old = days_from seen ds in
    let new = days_from (d ∷ seen) ds in
    if leb 1 (length (keep (λ e. leb e d && leb d e) seen)) then old else d ∷ new

unfoldable pub daily : (ℕ → ℕ) → CostQuery → List AiCallLog → List DailyCosts
unfolding matches grouped sort flat_map
daily day_of q logs =
    let found = keep (matches q) logs in
    sort (λ a b. ltb a.day b.day)
      (flat_map
        (λ day. map (day_costs day) (
          grouped (λ l. l.call.feature) (λ l. l.call)
            (keep (λ l. leb (day_of l.created_at) day && leb day (day_of l.created_at)) found) []))
        (days_from [] (map (λ l. day_of l.created_at) found)))
