-- ===== src/Chat/Turn/Run.antt =====
-- The ways in which the loop of `processMessage` goes on and ends, as a relation.
use gen_xtaxi_ai.Common.{
  ℕ, zero, suc, String, ◌≡◌, refl, Bool, true, false, not, ◌&&◌, ◌⊎◌, inl, inr, List, [], ◌∷◌, ◌++◌,
  if◌then◌else◌, Bool-cases, ◌==◌,
}
use gen_xtaxi_ai.Common.Text.{Text}
use gen_xtaxi_ai.MoneyScan.{ScannedMoney}
use gen_xtaxi_ai.Grounding.{check}
use gen_xtaxi_ai.Chat.Types.{ToolContext, Error, Result-cases, StreamEvent, done}
use gen_xtaxi_ai.Chat.World.{Backends, World, LlmMessage, ToolCall, Completion, gateway_complete}
use gen_xtaxi_ai.Chat.Replies.{cannot_quote, retry_note}
use gen_xtaxi_ai.Chat.Turn.{
  run_calls, force, degrade, reply, hops, received, process_message, prompt,
}

pub List-cases {ℓ} :
    {A : Type ℓ} (xs : List A) → (xs ≡ []) ⊎ ((y : A) × (ys : List A) × (xs ≡ y ∷ ys))
List-cases [] = inl refl
List-cases (x ∷ xs) = inr (x, xs, refl)

-- From the amounts allowed so far and a state, the events of the rest of the turn and the last state.
pub data Run (b : Backends) (ctx : ToolContext)
    : List ScannedMoney → World b → List StreamEvent → World b → Type 0 where
  ran_out :
      (messages : List LlmMessage) (money : List ScannedMoney) (w : World b)
      → Run b ctx money w (force b ctx messages money w).0 (force b ctx messages money w).1
  failed :
      (messages : List LlmMessage) (tools : Bool) (money : List ScannedMoney) (w : World b)
      (e : Error)
      → Run b ctx money w
          (degrade b ctx e (gateway_complete b ctx.user.token messages tools w).1).0
          (degrade b ctx e (gateway_complete b ctx.user.token messages tools w).1).1
  asked_again :
      (messages : List LlmMessage) (tools : Bool) (money : List ScannedMoney) (w : World b)
      (es : List StreamEvent) (v : World b)
      → Run b ctx money (gateway_complete b ctx.user.token messages tools w).1 es v
      → Run b ctx money w es v
  replied :
      (messages : List LlmMessage) (tools : Bool) (money : List ScannedMoney) (w : World b)
      (c : Completion) (is_grounded : Bool)
      → (check b.round c.content money).grounded ≡ is_grounded
      → Run b ctx money w
          (reply b ctx
            (if is_grounded then c.content else cannot_quote)
            c.output_tokens
            is_grounded
            (gateway_complete b ctx.user.token messages tools w).1).0
          (reply b ctx
            (if is_grounded then c.content else cannot_quote)
            c.output_tokens
            is_grounded
            (gateway_complete b ctx.user.token messages tools w).1).1
  awaited :
      (messages : List LlmMessage) (tools : Bool) (money : List ScannedMoney) (w : World b)
      (cs : List ToolCall)
      → Run b ctx money w
          ((run_calls b ctx cs (gateway_complete b ctx.user.token messages tools w).1).events
            ++ done true false true ∷ [])
          (run_calls b ctx cs (gateway_complete b ctx.user.token messages tools w).1).world
  called :
      (messages : List LlmMessage) (tools : Bool) (money : List ScannedMoney) (w : World b)
      (cs : List ToolCall) (es : List StreamEvent) (v : World b)
      → Run b ctx
          (money
            ++ (run_calls b ctx cs (gateway_complete b ctx.user.token messages tools w).1).money)
          (run_calls b ctx cs (gateway_complete b ctx.user.token messages tools w).1).world
          es
          v
      → Run b ctx money w
          ((run_calls b ctx cs (gateway_complete b ctx.user.token messages tools w).1).events ++ es)
          v

module _ (b : Backends) where
  pub hops-Run :
      (left : ℕ) (ctx : ToolContext) (messages : List LlmMessage) (money : List ScannedMoney)
      (retried : Bool) (w : World b)
      → Run b ctx money w
          (hops b left ctx messages money retried w).0
          (hops b left ctx messages money retried w).1
  unfolding hops
  hops-Run zero ctx messages money retried w = ran_out messages money w
  hops-Run (suc left) ctx messages money retried w =
      let tools = not (left == 0) in
      let v = (gateway_complete b ctx.user.token messages tools w).1 in
      elim (Result-cases ((gateway_complete b ctx.user.token messages tools w).0)) [
        | inr (e, h) ↦ rw (h, hops) (failed messages tools money w e)
        | inl (c, h) ↦ elim (List-cases c.tool_calls) [
          | inl none_called ↦
              elim (Bool-cases (not (check b.round c.content money).grounded && not retried)) [
                | inl again ↦
                    rw (h, hops, none_called, again)
                      (asked_again messages tools money w _ _
                        (hops-Run left ctx (messages ++ retry_note ∷ []) money true v))
                | inr final ↦
                    rw (h, hops, none_called, final)
                      (replied messages tools money w c ((check b.round c.content money).grounded)
                        refl)
              ]
          | inr (d, ds, some_called) ↦
              let calls = run_calls b ctx (d ∷ ds) v in
              elim (Bool-cases calls.awaiting) [
                | inl waits ↦
                    rw (h, hops, some_called, waits) (awaited messages tools money w (d ∷ ds))
                | inr goes_on ↦
                    rw (h, hops, some_called, goes_on)
                      (called messages tools money w (d ∷ ds) _ _ (
                        hops-Run left ctx (messages ++ calls.messages) (money ++ calls.money)
                          retried calls.world))
              ]
        ]
      ]

  pub process_message-cases :
      (ctx : ToolContext) (lang : String) (text : Text) (w : World b)
      → ((e : Error) × (process_message b ctx lang text w
            ≡ degrade b ctx e (received b ctx lang text w).1))
        ⊎ Run b ctx []
            (received b ctx lang text w).1
            (process_message b ctx lang text w).0
            (process_message b ctx lang text w).1
  unfolding process_message
  process_message-cases ctx lang text w = elim (Result-cases ((received b ctx lang text w).0)) [
    | inr (e, h) ↦ inl (e, rw (h, process_message) refl)
    | inl (chunks, h) ↦ inr (
        rw (h, process_message)
          (hops-Run b.max_hops ctx
            (prompt b ctx.session_id lang text chunks (received b ctx lang text w).1) [] false
            (received b ctx lang text w).1))
  ]
