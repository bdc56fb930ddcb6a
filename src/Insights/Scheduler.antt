-- ===== src/Insights/Scheduler.antt =====
-- scheduler/scheduler.service.ts. The steps of a cycle are those of the other services, an interface
-- here: each may throw, and changes what the services keep. Cycles run next to one another and to the
-- ticks of the cron job, so that a tick may come between any two steps.
pub mod Laws
pub mod Services
mod Tests
use gen_xtaxi_ai.Common.{
  ℕ, zero, suc, String, Bool, true, false, Option, none, some, List, [], ◌∷◌, ◌++◌,
}

pub data Outcome (A : Type 0) : Type 0 where
  returned : A → Outcome A
  threw : Outcome A

pub record Jobs (S : Type 0) : Type 0 where
  pub ingest_batch : S → Outcome ℕ × S
  pub process_pending : S → Outcome ℕ × S
  pub drivers_needing_refresh : S → Outcome (List String) × S
  pub recompute : String → S → Outcome Unit × S

-- Where a cycle stands: before the call of a service, or with the drivers that are left.
pub data Phase : Type 0 where
  ingesting : Phase
  extracting : Phase
  selecting : Phase
  refreshing : List String → Phase

module _ {S : Type 0} (jobs : Jobs S) where
  abbrev goes_on : {A : Type 0} → (A → Phase) → Outcome A → Option Phase
  goes_on f (returned a) = some (f a)
  goes_on f threw = none

  -- One call of a cycle, and where it stands behind it, or that it is at its end; a recompute that
  -- throws is caught, and the next driver is taken.
  unfoldable pub advance : Phase → S → Option Phase × S
  advance ingesting s = let (o, t) = jobs.ingest_batch s in (goes_on (λ _. extracting) o, t)
  advance extracting s = let (o, t) = jobs.process_pending s in (goes_on (λ _. selecting) o, t)
  advance selecting s = let (o, t) = jobs.drivers_needing_refresh s in (goes_on refreshing o, t)
  advance (refreshing []) s = (none, s)
  advance (refreshing (d ∷ ds)) s = let (o, t) = jobs.recompute d s in (some (refreshing ds), t)

  -- The service's flag, the cycles that are under way, and what the services keep.
  pub record State : Type 0 where
    pub running : Bool
    pub cycles : List Phase
    pub kept : S

  abbrev pub remaining : Option Phase → List Phase
  remaining none = []
  remaining (some p) = p ∷ []

  -- `finally` takes the flag back.
  abbrev pub flag_after : Option Phase → Bool → Bool
  flag_after none running = false
  flag_after (some p) running = running

  -- A tick of the cron job.
  unfoldable pub tick : State → State
  tick s = elim s.running [
    | true ↦ s
    | false ↦ record s { running = true; cycles = s.cycles ++ ingesting ∷ [] }
  ]

  -- One step of the service: a tick, or a call of one of the cycles.
  pub data Step : State → State → Type 0 where
    ticked : (s : State) → Step s (tick s)
    advanced :
        (running : Bool) (front : List Phase) (p : Phase) (back : List Phase) (kept : S)
        → Step
            (record { running = running; cycles = front ++ p ∷ back; kept = kept })
            (record {
              running = flag_after (advance p kept).0 running;
              cycles = front ++ (remaining (advance p kept).0 ++ back);
              kept = (advance p kept).1;
            })

  pub data Steps : State → State → Type 0 where
    here : (s : State) → Steps s s
    there : {s t u : State} → Steps s t → Step t u → Steps s u

  -- A cycle by itself, for at most so many calls.
  unfoldable pub run : ℕ → Option Phase → S → Option Phase × S
  run n none s = (none, s)
  run zero (some p) s = (some p, s)
  run (suc n) (some p) s = run n (advance p s).0 (advance p s).1

  -- `runIngestCycle` when no other step comes between, of services that return.
  abbrev pub refreshed : List String → S → S
  refreshed [] s = s
  refreshed (d ∷ ds) s = refreshed ds (jobs.recompute d s).1
