-- ===== src/Insights/Scheduler/Tests.antt =====
-- Cycles of concrete services.
use gen_xtaxi_ai.Common.{
  ℕ, suc, ◌+◌, String, ◌≡◌, true, false, Option, none, some, List, [], ◌∷◌, ◌++◌, length,
}
use gen_xtaxi_ai.Common.Int.{pos}
use gen_xtaxi_ai.Common.Number.{Fraction, Number, finite}
use gen_xtaxi_ai.Common.Text.{Text}
use gen_xtaxi_ai.Insights.Aspects.{Answer, no_list}
use gen_xtaxi_ai.Insights.Filter.{Pattern}
use gen_xtaxi_ai.Insights.Scheduler.{
  Outcome, returned, threw, Jobs, ingesting, State, remaining, flag_after, tick, ticked, advanced,
  here, there, run, refreshed, advance,
}
use gen_xtaxi_ai.Insights.Scheduler.Laws.{IsGuarded, Steps-IsGuarded, Ends, run-Ends}
use gen_xtaxi_ai.Insights.Scheduler.Services.{Insights, services, IsKept, Steps-IsKept}
use gen_xtaxi_ai.Insights.Source.{RideReadModel}
use gen_xtaxi_ai.Insights.Summaries.{SummaryRequest, Prose, Payload}
use gen_xtaxi_ai.Ports.{Redis}
use gen_xtaxi_ai.Ports.Memory.{memory_redis}

-- Two drivers are due, and the summary of the first cannot be made; the state counts the calls.
abbrev jobs : Jobs ℕ
jobs = record {
  ingest_batch = λ n. (returned 1, n + 1);
  process_pending = λ n. (returned 1, n + 1);
  drivers_needing_refresh = λ n. (returned ("d" ∷ "e" ∷ []), n + 1);
  recompute = λ d n. (threw, n + 1);
}

abbrev idle : State jobs
idle = record { running = false; cycles = []; kept = 0 }

abbrev under_way : State jobs
under_way = record { running = true; cycles = ingesting ∷ []; kept = 0 }

-- A second tick while a cycle is under way.
Steps-IsGuarded_example : IsGuarded jobs (tick jobs under_way)
unfolding tick
Steps-IsGuarded_example = Steps-IsGuarded jobs 0 (tick jobs under_way) (
    there {s = idle} {t = under_way} {u = tick jobs under_way}
      (there {s = idle} {t = idle} {u = under_way} (here idle) (ticked idle)) (ticked under_way))

run-Ends_example :
    Ends jobs (some ingesting) 0
    × ((n m : ℕ) (ds : List String)
        → ◌≡◌ {A = Outcome ℕ} (returned 1) (returned n)
        → ◌≡◌ {A = Outcome ℕ} (returned 1) (returned m)
        → ◌≡◌ {A = Outcome (List String)} (returned ("d" ∷ "e" ∷ [])) (returned ds)
        → run jobs (suc (suc (suc (suc (length ds))))) (some ingesting) 0
          ≡ (none, refreshed jobs ds 3))
run-Ends_example = run-Ends jobs 0

abbrev fl : Fraction → Number
fl f = finite f

abbrev redis : Redis Payload
redis = memory_redis Payload

abbrev write : SummaryRequest → ℕ → Option Prose × ℕ
write q n = (none, n + 1)

-- An answer on which the extraction throws.
abbrev ask : Text → Number → String → ℕ → Answer × ℕ
ask text stars lang n = (no_list, n + 1)

abbrev replace_all : Pattern → Text → Text × ℕ
replace_all p text = (text, 0)

abbrev lower : Text → Text
lower text = text

abbrev Kept : Type 0
Kept = Insights fl redis write 1 2 60 ask replace_all lower "fr" 5 24

abbrev calls : Jobs Kept
calls = services fl redis write 1 2 60 ask replace_all lower "fr" 5 24

abbrev ride : RideReadModel
ride = record {
  id = "a";
  passenger = some "p";
  driver = some "d";
  zone_id = none;
  passenger_rating = none;
  driver_rating = some (record {
    rating = some (finite (record { num = pos 5; below = 0 }));
    review = some (98 ∷ []);
    rated_at = some 20;
  });
  updated_at = 1;
}

abbrev empty : Kept
empty = record {
  rides = ride ∷ [];
  watermark = none;
  now = 5000;
  rest = record { reviews = []; summaries = []; cache = λ k. none; outside = 0 };
}

abbrev started : State calls
started = record { running = true; cycles = ingesting ∷ []; kept = empty }

abbrev one_call : State calls
one_call = record {
  running = flag_after calls (advance calls ingesting empty).0 true;
  cycles = [] ++ (remaining calls (advance calls ingesting empty).0 ++ []);
  kept = (advance calls ingesting empty).1;
}

Steps-IsKept_example :
    IsKept fl redis write 1 2 60 ask replace_all lower "fr" 5 24 (advance calls ingesting empty).1
Steps-IsKept_example =
    Steps-IsKept fl redis write 1 2 60 ask replace_all lower "fr" 5 24 started one_call
      (there {s = started} {t = started} {u = one_call} (here started)
        (advanced true [] ingesting [] empty))
      (tt, tt)
