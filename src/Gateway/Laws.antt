-- ===== src/Gateway/Laws.antt =====
-- The budget of budget.service.ts as a balance, and the chain of llm-router.service.ts as a search.
use gen_xtaxi_ai.Common.{
  ℕ, ◌+◌, ◌-◌, ◌<◌, String, str_eq, eq_iff, ◌≡◌, ◌≢◌, refl, ap, ◌∙◌, ◌↔◌, ◌⊎◌, inl, inr, true,
  false, Option, none, some, List, [], ◌∷◌, leb, ◌==◌, if◌then◌else◌, Bool-cases, arith,
}
use gen_xtaxi_ai.Ports.{Counters}
use gen_xtaxi_ai.Gateway.{
  budget_key, Admission, within_budget, budget_exceeded, assert_within_budget, consume, remaining,
  Hop, Env, AiTask, task_model_map, is_registered, Tried, answered, failed, completed, try_chain,
  complete,
}
use Prim.Native.String.{◌++◌ as str_append}
use text.Mathlib.TextLemmas.{append_cancel_left, append_cancel_right}

pub budget_key-inj : (u v day : String) → budget_key u day ≡ budget_key v day → u ≡ v
budget_key-inj u v day h = append_cancel_right u v (str_append ":" day) (
    append_cancel_left "budget:" (str_append u (str_append ":" day))
      (str_append v (str_append ":" day)) h)

module _ (c : Counters) (limit : ℕ) (today : String) where
  pub consume_value :
      (u : String) (tokens : ℕ) (s : c.State) (j : String)
      → c.value j (consume c limit today u tokens s).1
        ≡ c.value j (c.incrby (budget_key u today) tokens s)
  unfolding consume
  consume_value u tokens s j =
      elim (Bool-cases
        (c.value (budget_key u today) (c.incrby (budget_key u today) tokens s) == tokens)) [
          | inl e ↦
              rw (e, consume)
                (c.value-expire j (budget_key u today) 86400
                  (c.incrby (budget_key u today) tokens s))
          | inr e ↦ rw (e, consume) refl
        ]

  incr_own : (k : String) (n : ℕ) (s : c.State) → c.value k (c.incrby k n s) ≡ c.value k s + n
  incr_own k n s = c.value-incrby k k n s ∙ rw ((eq_iff k k).1 refl) refl

  incr_other :
      (j k : String) (n : ℕ) (s : c.State) → j ≢ k → c.value j (c.incrby k n s) ≡ c.value j s
  incr_other j k n s h = c.value-incrby j k n s ∙ unless j k (c.value j s + n) (c.value j s) h
    where
      unless : (j k : String) (x y : ℕ) → j ≢ k → (if str_eq j k then x else y) ≡ y
      unless j k x y h = ground (arith, eq_iff j k)

  -- What is counted as used of each user's budget after one has consumed.
  consume_used :
      (u : String) (n : ℕ) (s : c.State) (v : String)
      → c.value (budget_key v today) (consume c limit today u n s).1
        ≡ c.value (budget_key v today) s + (if str_eq u v then n else 0)
  consume_used u n s v = elim (Bool-cases (str_eq u v)) [
    | inl e ↦
        let same : u ≡ v = (eq_iff u v).0 e in
        consume_value u n s (budget_key v today)
        ∙ ap (λ x. c.value (budget_key v today) (c.incrby (budget_key x today) n s)) same
        ∙ incr_own (budget_key v today) n s
        ∙ rw e refl
    | inr e ↦
        consume_value u n s (budget_key v today)
        ∙ incr_other (budget_key v today) (budget_key u today) n s
            (λ h. differ e (budget_key-inj v u today h))
        ∙ rw e (omega arith)
  ]
    where
      differ : str_eq u v ≡ false → v ≡ u → ⊥
      differ e h = ground (arith, eq_iff u v, h)

  admitted_iff :
      (refusal : Admission) (used : ℕ)
      → refusal ≢ within_budget
      → ((if leb limit used then refusal else within_budget) ≡ within_budget) ↔ (0 < limit - used)
  admitted_iff refusal used h = elim (Bool-cases (leb limit used)) [
    | inl e ↦ rw e (λ k. absurd (h k), λ k. absurd (spent used e k))
    | inr e ↦ rw e (λ k. left used e, λ k. refl)
  ]
    where
      spent : (used : ℕ) → leb limit used ≡ true → 0 < limit - used → ⊥
      spent used e k = ground arith

      left : (used : ℕ) → leb limit used ≡ false → 0 < limit - used
      left used e = ground arith

  -- What a user consumes is taken off what remains to them that day, down to nothing, and off no other
  -- user's.
  pub consume-remaining :
      (u : String) (tokens : ℕ) (s : c.State)
      → (remaining c limit today u (consume c limit today u tokens s).1
          ≡ remaining c limit today u s - tokens)
        × ((v : String)
            → v ≢ u
            → remaining c limit today v (consume c limit today u tokens s).1
              ≡ remaining c limit today v s)
  unfolding remaining
  consume-remaining u tokens s =
      let own : c.value (budget_key u today) (consume c limit today u tokens s).1
          ≡ c.value (budget_key u today) s + tokens =
        consume_value u tokens s (budget_key u today) ∙ incr_own (budget_key u today) tokens s in
      (
        omega (arith, own),
        λ v other.
            ap (λ n. limit - n)
              (consume_value u tokens s (budget_key v today)
                ∙ incr_other (budget_key v today) (budget_key u today) tokens s
                    (λ h. other (budget_key-inj v u today h))),
      )

  -- A user is admitted exactly while something remains to them.
  pub assert_within_budget_iff :
      (u : String) (s : c.State)
      → (assert_within_budget c limit today u s ≡ within_budget) ↔ (0 < remaining c limit today u s)
  unfolding assert_within_budget remaining
  assert_within_budget_iff u s =
      admitted_iff (budget_exceeded u limit) (c.value (budget_key u today) s) (λ h. cc h)

module _ {R E S : Type 0} (fire : Hop → S → Tried R E × S) where
  -- The chain serves `r`: the hops are taken in order, those of no registered provider are passed over,
  -- those that fail hand their state on, and the first that answers gives `r`.
  pub data Served : List Hop → S → R → Type 0 where
    here :
        (hop : Hop) (hops : List Hop) (s : S) (r : R)
        → is_registered hop ≡ true
        → (fire hop s).0 ≡ answered r
        → Served (hop ∷ hops) s r
    after_failure :
        (hop : Hop) (hops : List Hop) (s : S) (r : R) (e : E)
        → is_registered hop ≡ true
        → (fire hop s).0 ≡ failed e
        → Served hops (fire hop s).1 r
        → Served (hop ∷ hops) s r
    passed_over :
        (hop : Hop) (hops : List Hop) (s : S) (r : R)
        → is_registered hop ≡ false
        → Served hops s r
        → Served (hop ∷ hops) s r

  Tried-cases : (t : Tried R E) → ((r : R) × (t ≡ answered r)) ⊎ ((e : E) × (t ≡ failed e))
  Tried-cases (answered r) = inl (r, refl)
  Tried-cases (failed e) = inr (e, refl)

  try_chain-Served :
      (p : String) (hops : List Hop) (last : Option E) (s : S) (r : R)
      → (try_chain fire p hops last s).0 ≡ completed r
      → Served hops s r
  unfolding try_chain
  try_chain-Served p [] last s r h = cc h
  try_chain-Served p (hop ∷ hops) last s r h = elim (Bool-cases (is_registered hop)) [
    | inr no_provider ↦
        passed_over hop hops s r no_provider
          (try_chain-Served p hops last s r (rw (no_provider, try_chain) at h))
    | inl registered ↦ elim (Tried-cases (fire hop s).0) [
      | inl (q, e) ↦
          let h' : completed q ≡ completed r = rw (registered, e, try_chain) at h in
          here hop hops s r registered (e ∙ ap answered (cc h'))
      | inr (x, e) ↦
          after_failure hop hops s r x registered e
            (try_chain-Served p hops (some x) (fire hop s).1 r (rw (registered, e, try_chain) at h))
    ]
  ]

  Served-try_chain :
      (p : String) (hops : List Hop) (last : Option E) (s : S) (r : R)
      → Served hops s r
      → (try_chain fire p hops last s).0 ≡ completed r
  unfolding try_chain
  Served-try_chain p hops last s r (here hop rest _ _ registered e) =
      rw (registered, e, try_chain) refl
  Served-try_chain p hops last s r (after_failure hop rest _ _ x registered e later) =
      rw (registered, e, try_chain) (Served-try_chain p rest (some x) (fire hop s).1 r later)
  Served-try_chain p hops last s r (passed_over hop rest _ _ no_provider later) =
      rw (no_provider, try_chain) (Served-try_chain p rest last s r later)

  -- A completion is the answer of the first hop that answers, of the task's own and then its fallbacks in
  -- their order, passing over providers that are not registered.
  pub complete-Served_iff :
      (env : Env) (task : AiTask) (s : S) (r : R)
      → ((complete fire env task s).0 ≡ completed r)
        ↔ Served ((task_model_map env task).primary ∷ (task_model_map env task).fallbacks) s r
  unfolding complete
  complete-Served_iff env task s r =
      let route = task_model_map env task in
      (
        try_chain-Served route.primary.provider (route.primary ∷ route.fallbacks) none s r,
        Served-try_chain route.primary.provider (route.primary ∷ route.fallbacks) none s r,
      )
