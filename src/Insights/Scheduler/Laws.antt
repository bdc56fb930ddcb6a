-- ===== src/Insights/Scheduler/Laws.antt =====
-- Cycles that do not stack, and how one comes to its end.
use gen_xtaxi_ai.Common.{
  ℕ, zero, suc, ◌<◌, String, ◌≡◌, refl, ap, ◌⊎◌, inl, inr, Bool, true, false, Option, none, some,
  List, [], ◌∷◌, ◌++◌, length, arith,
}
use gen_xtaxi_ai.Insights.Scheduler.{
  Outcome, returned, threw, Jobs, Phase, ingesting, extracting, selecting, refreshing, goes_on,
  advance, State, remaining, flag_after, tick, Step, ticked, advanced, Steps, here, there, run,
  refreshed,
}

module _ {S : Type 0} (jobs : Jobs S) where
  -- No cycle is under way, or one is and the flag says so.
  abbrev pub IsGuarded : State jobs → Type 0
  IsGuarded s =
      ((s.running ≡ false) × (s.cycles ≡ [])) ⊎ ((s.running ≡ true) × (length s.cycles ≡ 1))

  abbrev pub idle : S → State jobs
  idle kept = record { running = false; cycles = []; kept = kept }

  tick-IsGuarded : (s : State jobs) → IsGuarded s → IsGuarded (tick jobs s)
  unfolding tick
  tick-IsGuarded s (inl (h, k)) = rw (h, k) (inr (refl, refl))
  tick-IsGuarded s (inr (h, k)) = rw (h, tick) (inr (h, k))

  after-IsGuarded :
      (o : Option Phase) (kept : S)
      → IsGuarded (record {
        running = flag_after jobs o true;
        cycles = remaining jobs o ++ [];
        kept = kept;
      })
  after-IsGuarded none kept = inl (refl, refl)
  after-IsGuarded (some p) kept = inr (refl, refl)

  advanced-IsGuarded :
      (running : Bool) (front : List Phase) (p : Phase) (back : List Phase) (o : Option Phase)
      (kept then_kept : S)
      → IsGuarded (record { running = running; cycles = front ++ p ∷ back; kept = kept })
      → IsGuarded (record {
        running = flag_after jobs o running;
        cycles = front ++ (remaining jobs o ++ back);
        kept = then_kept;
      })
  advanced-IsGuarded running [] p [] o kept then_kept (inl (h, k)) = absurd (cc k)
  advanced-IsGuarded running [] p [] o kept then_kept (inr (h, k)) =
      rw h (after-IsGuarded o then_kept)
  advanced-IsGuarded running [] p (q ∷ back) o kept then_kept (inl (h, k)) = absurd (cc k)
  advanced-IsGuarded running [] p (q ∷ back) o kept then_kept (inr (h, k)) =
      absurd (omega (arith, k))
  advanced-IsGuarded running (q ∷ front) p back o kept then_kept (inl (h, k)) = absurd (cc k)
  advanced-IsGuarded running (q ∷ front) p back o kept then_kept (inr (h, k)) =
      absurd (omega (arith, k, longer front))
    where
      longer : (front : List Phase) → 0 < length (front ++ p ∷ back)
      longer [] = omega arith
      longer (r ∷ more) = omega arith

  Step-IsGuarded : (s t : State jobs) → Step jobs s t → IsGuarded s → IsGuarded t
  Step-IsGuarded _ _ (ticked s) h = tick-IsGuarded s h
  Step-IsGuarded _ _ (advanced running front p back kept) h =
      advanced-IsGuarded running front p back (advance jobs p kept).0 kept (advance jobs p kept).1 h

  -- Whatever the ticks and the calls between them, and whichever of the calls throw: at most one cycle
  -- is under way, and the flag is set exactly while one is.
  pub Steps-IsGuarded : (kept : S) (t : State jobs) → Steps jobs (idle kept) t → IsGuarded t
  Steps-IsGuarded kept t steps = along (idle kept) t steps (inl (refl, refl))
    where
      along : (s t : State jobs) → Steps jobs s t → IsGuarded s → IsGuarded t
      along _ _ (here s) h = h
      along _ _ (there {s = s} {t = t} {u = u} steps step) h =
          Step-IsGuarded t u step (along s t steps h)

  run-refreshing :
      (ds : List String) (s : S)
      → run jobs (suc (length ds)) (some (refreshing ds)) s ≡ (none, refreshed jobs ds s)
  unfolding run advance
  run-refreshing [] s = refl
  run-refreshing (d ∷ ds) s = run-refreshing ds (jobs.recompute d s).1

  run-none : (n : ℕ) (s : S) → run jobs n none s ≡ (none, s)
  unfolding run
  run-none zero s = refl
  run-none (suc n) s = refl

  -- So many calls and the cycle is at its end.
  abbrev pub Ends : Option Phase → S → Type 0
  Ends o s = (n : ℕ) × ((run jobs n o s).0 ≡ none)

  goes_on-Ends :
      {A : Type 0} (f : A → Phase) (o : Outcome A) (s : S)
      → ((a : A) → Ends (some (f a)) s)
      → Ends (goes_on jobs f o) s
  unfolding run
  goes_on-Ends f (returned a) s ih = ih a
  goes_on-Ends f threw s ih = (0, refl)

  one_more : (p : Phase) (s : S) → Ends (advance jobs p s).0 (advance jobs p s).1 → Ends (some p) s
  unfolding run
  one_more p s (n, h) = (suc n, h)

  refreshing-Ends : (ds : List String) (s : S) → Ends (some (refreshing ds)) s
  refreshing-Ends ds s = (suc (length ds), ap (λ r. r.0) (run-refreshing ds s))

  selecting-Ends : (s : S) → Ends (some selecting) s
  unfolding advance
  selecting-Ends s = one_more selecting s (
      goes_on-Ends refreshing (jobs.drivers_needing_refresh s).0 (jobs.drivers_needing_refresh s).1
        (λ ds. refreshing-Ends ds (jobs.drivers_needing_refresh s).1))

  extracting-Ends : (s : S) → Ends (some extracting) s
  unfolding advance
  extracting-Ends s = one_more extracting s (
      goes_on-Ends (λ _. selecting) (jobs.process_pending s).0 (jobs.process_pending s).1
        (λ _. selecting-Ends (jobs.process_pending s).1))

  ingesting-Ends : (s : S) → Ends (some ingesting) s
  unfolding advance
  ingesting-Ends s = one_more ingesting s (
      goes_on-Ends (λ _. extracting) (jobs.ingest_batch s).0 (jobs.ingest_batch s).1
        (λ _. extracting-Ends (jobs.ingest_batch s).1))

  -- Every cycle comes to its end, whichever calls throw; and if those before the summaries return, it
  -- tries each driver that is due, one behind the other, whichever of these fail.
  pub run-Ends :
      (s : S)
      → let ingested = jobs.ingest_batch s in
        let extracted = jobs.process_pending ingested.1 in
        let selected = jobs.drivers_needing_refresh extracted.1 in
        Ends (some ingesting) s
        × ((n m : ℕ) (ds : List String)
            → ingested.0 ≡ returned n
            → extracted.0 ≡ returned m
            → selected.0 ≡ returned ds
            → run jobs (suc (suc (suc (suc (length ds))))) (some ingesting) s
              ≡ (none, refreshed jobs ds selected.1))
  unfolding run advance
  run-Ends s = (
    ingesting-Ends s,
    λ n m ds h k l.
        rw (h, run, k, run, l, run)
          (run-refreshing ds
            (jobs.drivers_needing_refresh (jobs.process_pending (jobs.ingest_batch s).1).1).1),
  )
