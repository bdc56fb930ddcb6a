-- ===== src/Insights/Serving.antt =====
-- serving/serving.service.ts: what a rider and a driver see of a driver's summary. `serve` of the
-- summarizer gives it.
pub mod Laws
use gen_xtaxi_ai.Common.{
  ℕ, String, Bool, true, false, Option, none, some, List, [], ◌∷◌, map, take, keep,
}
use gen_xtaxi_ai.Common.Double.{ltb_number}
use gen_xtaxi_ai.Common.Int.{pos}
use gen_xtaxi_ai.Common.Number.{Fraction, Number, finite}
use gen_xtaxi_ai.Common.Sort.{sort}
use gen_xtaxi_ai.Common.Text.{Text}
use gen_xtaxi_ai.Insights.Summaries.{
  AspectSummary, DriverSummaryJson, SummaryRequest, Prose, Payload, World, serve,
}
use gen_xtaxi_ai.Ports.{Redis}

pub record Chip : Type 0 where
  pub aspect : String
  pub sentiment : Number

pub record RiderReputation : Type 0 where
  pub available : Bool
  pub summary : Option Text
  pub chips : List Chip
  pub review_count : ℕ
  pub computed_at : Option ℕ

-- The double nearest to 0.2.
abbrev pub chip_threshold : Number
chip_threshold = finite (record { num = pos 3602879701896397; below = 18014398509481983 })

abbrev pub is_positive : AspectSummary → Bool
is_positive a = ltb_number chip_threshold a.sentiment

abbrev pub better : AspectSummary → AspectSummary → Bool
better x y = ltb_number y.sentiment x.sentiment

abbrev pub chip : AspectSummary → Chip
chip a = record { aspect = a.name; sentiment = a.sentiment }

unfoldable pub chips_of : List AspectSummary → List Chip
unfolding sort ltb_number
chips_of aspects = map chip (take 4 (sort better (keep is_positive aspects)))

abbrev reputation : Option Payload → RiderReputation
reputation none = record {
  available = false;
  summary = none;
  chips = [];
  review_count = 0;
  computed_at = none;
}
reputation (some p) = record {
  available = true;
  summary = some p.summary.summary;
  chips = chips_of p.summary.aspects;
  review_count = p.summary.review_count;
  computed_at = some p.computed_at;
}

pub record SelfView : Type 0 where
  pub available : Bool
  pub summary : Option DriverSummaryJson
  pub computed_at : Option ℕ

abbrev self_view : Option Payload → SelfView
self_view none = record { available = false; summary = none; computed_at = none }
self_view (some p) = record {
  available = true;
  summary = some p.summary;
  computed_at = some p.computed_at;
}

module _ {S : Type 0} (fl : Fraction → Number) (redis : Redis Payload)
    (write : SummaryRequest → S → Option Prose × S)
    (prompt_version cold_start_min cache_ttl : ℕ) where
  abbrev Summaries : Type 0
  Summaries = World fl redis write prompt_version cold_start_min cache_ttl

  unfoldable pub rider_view : ℕ → String → String → Summaries → RiderReputation × Summaries
  unfolding serve chips_of
  rider_view now driver_id lang w =
      let (served, after) =
        serve fl redis write prompt_version cold_start_min cache_ttl now driver_id lang w in
      (reputation served, after)

  unfoldable pub driver_self_view : ℕ → String → String → Summaries → SelfView × Summaries
  unfolding serve
  driver_self_view now driver_id lang w =
      let (served, after) =
        serve fl redis write prompt_version cold_start_min cache_ttl now driver_id lang w in
      (self_view served, after)
