-- ===== src/Gateway/Pipeline/Laws.antt =====
-- The log and the budget after calls of the pipeline.
use gen_xtaxi_ai.Common.{
  ℕ, ◌+◌, ◌-◌, String, str_eq, All-append, ◌≡◌, refl, sym, ap, subst, Bool, true, false, ◌∙◌, List,
  [], ◌∷◌, ◌++◌, if◌then◌else◌, arith,
}
use gen_xtaxi_ai.Common.Text.{Text}
use gen_xtaxi_ai.Gateway.{
  budget_key, Admission, within_budget, budget_exceeded, assert_within_budget, Hop, Env, Tried,
  Routed, completed, provider_unavailable,
}
use gen_xtaxi_ai.Gateway.Laws.{consume_value}
use gen_xtaxi_ai.Gateway.Calls.{
  Pii, AiCallRecord, ChatMessage, LlmCompletionResult, AuthenticatedUser, CompleteRequest,
  Completion, EmbeddingResult, Answer, over_budget, metrics_of,
}
use gen_xtaxi_ai.Gateway.Pipeline.{
  recorded, spent, embedding_log, World, settled, routed, complete_request, embedded, embed,
}
use gen_xtaxi_ai.Ports.{Counters}
use mathlib.Core.List.{append_assoc, append-nil, flat_map}
use gen_xtaxi_ai.Gateway.Pipeline.Entries.{
  Entry, records, logged, AreOwn, logged-append, records-append, keys_differ, flat_map-append,
}

module _ {Rest Vectors E S : Type 0} (c : Counters) (limit : ℕ) (day_of : ℕ → String) (env : Env)
    (replace_all : Pii → Text → ℕ × Text)
    (call : List ChatMessage → Rest → Hop → S → Tried LlmCompletionResult E × S)
    (embed_texts : List Text → S → Tried (EmbeddingResult Vectors) E × S) (clock : S → ℕ) where
  abbrev pub Gate : Type 0
  Gate = World c limit day_of env replace_all call embed_texts clock

  -- What is counted as used by a user on a day.
  abbrev pub used : String → String → Gate → ℕ
  used user_id day w = c.value (budget_key user_id day) w.counters

  -- The records `added` are what came to the log, and what came to the metrics and to the counters of
  -- the budgets is what they say.
  abbrev pub Books : Gate → Gate → List Entry → Type 0
  Books w after added =
      (after.logs ≡ w.logs ++ records added)
      × (after.metrics ≡ w.metrics ++ flat_map metrics_of (records added))
      × ((key : String) → c.value key after.counters ≡ c.value key w.counters + logged key added)

  Books-refl : (w : Gate) → Books w w []
  unfolding flat_map
  Books-refl w = (sym (append-nil w.logs), sym (append-nil w.metrics), λ key. omega arith)

  Books-trans :
      (w x y : Gate) (first second : List Entry)
      → Books w x first
      → Books x y second
      → Books w y (first ++ second)
  Books-trans w x y first second (h, m, k) (i, n, l) = rw (records-append first second) (
    i
        ∙ ap (λ logs. logs ++ records second) h
        ∙ append_assoc w.logs (records first) (records second),
    n
        ∙ ap (λ metrics. metrics ++ flat_map metrics_of (records second)) m
        ∙ append_assoc w.metrics (flat_map metrics_of (records first))
            (flat_map metrics_of (records second))
        ∙ ap (λ more. w.metrics ++ more) (sym (flat_map-append (records first) (records second))),
    λ key. omega (arith, k key, l key, logged-append key first second),
  )

  abbrev pub complete_in :
      CompleteRequest Rest → AuthenticatedUser → String → Gate → Answer Completion E × Gate
  complete_in = complete_request c limit day_of env replace_all call embed_texts clock

  abbrev pub embed_in :
      List Text → AuthenticatedUser → String → String → Gate → Answer Vectors E × Gate
  embed_in = embed c limit day_of env replace_all call embed_texts clock

  -- The key of a user's counter at the time of a state.
  abbrev pub key_at : String → Gate → String
  key_at user_id w = budget_key user_id (day_of (clock w.outside))

  -- One record and its tokens spent.
  spent-Books :
      (u : String) (r : AiCallRecord) (n : ℕ) (w : Gate)
      → r.input_tokens + r.output_tokens ≡ n
      → Books w
          (spent c limit day_of env replace_all call embed_texts clock u n
            (recorded c limit day_of env replace_all call embed_texts clock r w))
          ((key_at u w, r) ∷ [])
  unfolding flat_map
  spent-Books u r n w k = (
    refl,
    refl,
    λ key.
        consume_value c limit (day_of (clock w.outside)) u n w.counters key
        ∙ c.value-incrby key (key_at u w) n w.counters
        ∙ rw (sym k) (
            choice (str_eq key (key_at u w)) (c.value key w.counters)
              (r.input_tokens + r.output_tokens)),
  )
    where
      choice : (b : Bool) (x y : ℕ) → (if b then x + y else x) ≡ x + ((if b then y else 0) + 0)
      choice true x y = omega arith
      choice false x y = omega arith

  settled-Books :
      (req : CompleteRequest Rest) (u : AuthenticatedUser) (trace_id : String) (start : ℕ)
      (o : Routed LlmCompletionResult E) (w : Gate)
      → let after =
          (settled c limit day_of env replace_all call embed_texts clock req u trace_id start o
            w).1 in
        (r : AiCallRecord) × (r.user_id ≡ u.user_id)
        × Books w after ((key_at u.user_id after, r) ∷ [])
  unfolding flat_map
  settled-Books req u trace_id start (completed r) w =
      (_, refl, spent-Books u.user_id _ (r.usage.input_tokens + r.usage.output_tokens) w refl)
  settled-Books req u trace_id start (provider_unavailable p e) w = (
    _,
    refl,
    (refl, refl, λ key. nothing (str_eq key (key_at u.user_id w)) (c.value key w.counters)),
  )
    where
      nothing : (b : Bool) (n : ℕ) → n ≡ n + ((if b then 0 else 0) + 0)
      nothing true n = omega arith
      nothing false n = omega arith

  -- Each user's budget of the day, by one record.
  abbrev pub Spends : String → String → AiCallRecord → Gate → Gate → Type 0
  Spends u day r w after =
      (v : String)
      → used v day after
        ≡ used v day w + (if str_eq u v then r.input_tokens + r.output_tokens else 0)

  Books-Spends :
      (u day : String) (r : AiCallRecord) (w after : Gate)
      → Books w after ((budget_key u day, r) ∷ [])
      → Spends u day r w after
  Books-Spends u day r w after (_, _, counted) v =
      counted (budget_key v day) ∙ rw (keys_differ u v day) (omega arith)

  -- Beyond the budget of the day a completion is refused, and nothing is called, logged or counted; within
  -- it exactly one record is logged, of the user, whether a provider answers or none does; the metrics
  -- go up by what it says, and the counter of the user and of the day on which the call ends goes up by
  -- its tokens, and no other counter does.
  pub complete_request-Books :
      (req : CompleteRequest Rest) (u : AuthenticatedUser) (trace_id : String) (w : Gate)
      → let admission =
          assert_within_budget c limit (day_of (clock w.outside)) u.user_id w.counters in
        let after = (complete_in req u trace_id w).1 in
        ((admission ≡ budget_exceeded u.user_id limit)
          → complete_in req u trace_id w ≡ (over_budget u.user_id limit, w))
        × ((admission ≡ within_budget)
            → (r : AiCallRecord) × (r.user_id ≡ u.user_id)
              × Books w after ((key_at u.user_id after, r) ∷ [])
              × Spends u.user_id (day_of (clock after.outside)) r w after)
  unfolding complete_request
  complete_request-Books req u trace_id w = (
    λ h. rw (h, complete_request) refl,
    λ h.
        let out = routed c limit day_of env replace_all call embed_texts clock req w in
        let after =
          (settled c limit day_of env replace_all call embed_texts clock req u trace_id
            (clock w.outside) out.0 (record w { outside = out.1 })).1 in
        let now : (complete_in req u trace_id w).1 ≡ after = rw (h, complete_request) refl in
        let (r, whose, books) =
          settled-Books req u trace_id (clock w.outside) out.0 (record w { outside = out.1 }) in
        (
          r,
          whose,
          subst (λ v. Books w v ((key_at u.user_id v, r) ∷ [])) (sym now) books,
          subst (λ v. Spends u.user_id (day_of (clock v.outside)) r w v) (sym now)
              (Books-Spends u.user_id (day_of (clock after.outside)) r w after books),
        ),
  )

  -- A call's records, under the keys of their users.
  abbrev pub Added : Gate → Gate → Type 0
  Added w after = (added : List Entry) × AreOwn added × Books w after added

  embedded-Added :
      (u : AuthenticatedUser) (trace_id feature : String) (start : ℕ)
      (o : Tried (EmbeddingResult Vectors) E) (w : Gate)
      → Added w
          (embedded c limit day_of env replace_all call embed_texts clock u trace_id feature start o
            w).1
  embedded-Added u trace_id feature start (Tried.answered r) w =
      let log =
        embedding_log c limit day_of env replace_all call embed_texts clock u trace_id feature
          (clock w.outside - start) r in
      (
        (key_at u.user_id w, log) ∷ [],
        ((day_of (clock w.outside), refl), tt),
        spent-Books u.user_id log r.input_tokens w (omega arith),
      )
  embedded-Added u trace_id feature start (Tried.failed e) w = ([], tt, Books-refl w)

  Added-trans : (w x y : Gate) → Added w x → Added x y → Added w y
  Added-trans w x y (first, own, books) (more, owned, rest) =
      (first ++ more, All-append _ first more own owned, Books-trans w x y first more books rest)

  -- A call of either kind, by a user.
  pub data Call : Type 0 where
    completion : CompleteRequest Rest → AuthenticatedUser → String → Call
    embedding : List Text → AuthenticatedUser → String → String → Call

  abbrev pub run_calls : List Call → Gate → Gate
  run_calls [] w = w
  run_calls (completion req u trace_id ∷ calls) w = run_calls calls (complete_in req u trace_id w).1
  run_calls (embedding texts u trace_id feature ∷ calls) w =
      run_calls calls (embed_in texts u trace_id feature w).1

  completion-Added :
      (req : CompleteRequest Rest) (u : AuthenticatedUser) (trace_id : String) (w : Gate)
      → Added w (complete_in req u trace_id w).1
  unfolding complete_request
  completion-Added req u trace_id w =
      split (assert_within_budget c limit (day_of (clock w.outside)) u.user_id w.counters) refl
    where
      split :
          (a : Admission)
          → assert_within_budget c limit (day_of (clock w.outside)) u.user_id w.counters ≡ a
          → Added w (complete_in req u trace_id w).1
      split (budget_exceeded who most) e =
          let now : (complete_in req u trace_id w).1 ≡ w = rw (e, complete_request) refl in
          subst (Added w) (sym now) ([], tt, Books-refl w)
      split within_budget e =
          let (r, whose, books, _) = (complete_request-Books req u trace_id w).1 e in
          let own =
            ap (λ v. budget_key v (day_of (clock (complete_in req u trace_id w).1.outside)))
              (sym whose) in
          ((_, r) ∷ [], ((_, own), tt), books)

  embed-Added :
      (texts : List Text) (u : AuthenticatedUser) (trace_id feature : String) (w : Gate)
      → Added w (embed_in texts u trace_id feature w).1
  unfolding embed
  embed-Added texts u trace_id feature w =
      split (assert_within_budget c limit (day_of (clock w.outside)) u.user_id w.counters) refl
    where
      split :
          (a : Admission)
          → assert_within_budget c limit (day_of (clock w.outside)) u.user_id w.counters ≡ a
          → Added w (embed_in texts u trace_id feature w).1
      split (budget_exceeded who most) e =
          let now : (embed_in texts u trace_id feature w).1 ≡ w = rw (e, embed) refl in
          subst (Added w) (sym now) ([], tt, Books-refl w)
      split within_budget e =
          let now : (embed_in texts u trace_id feature w).1
              ≡ (embedded c limit day_of env replace_all call embed_texts clock u trace_id feature
                  (clock w.outside) (embed_texts texts w.outside).0
                  (record w { outside = (embed_texts texts w.outside).1 })).1 =
            rw (e, embed) refl in
          subst (Added w) (sym now) (
            embedded-Added u trace_id feature (clock w.outside) (embed_texts texts w.outside).0
              (record w { outside = (embed_texts texts w.outside).1 }))

  -- After any calls by any users on any days, admitted or not, answered or not, each counter of a budget
  -- has gone up by exactly the tokens of those records that came to the log under its key, which is the
  -- key of the record's user and a day; and the log and the metrics are only added to.
  pub run_calls-Books : (calls : List Call) (w : Gate) → Added w (run_calls calls w)
  run_calls-Books [] w = ([], tt, Books-refl w)
  run_calls-Books (completion req u trace_id ∷ calls) w =
      let after = (complete_in req u trace_id w).1 in
      Added-trans w after (run_calls calls after) (completion-Added req u trace_id w)
        (run_calls-Books calls after)
  run_calls-Books (embedding texts u trace_id feature ∷ calls) w =
      let after = (embed_in texts u trace_id feature w).1 in
      Added-trans w after (run_calls calls after) (embed-Added texts u trace_id feature w)
        (run_calls-Books calls after)
