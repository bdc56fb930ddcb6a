-- ===== src/Chat/Turn/Grounded.antt =====
-- The texts that a turn of `processMessage` streams, and the amounts that they rest on.
use gen_xtaxi_ai.Common.{
  ℕ, zero, suc, String, ◌≡◌, refl, ap, subst, ◌∙◌, Bool, true, false, not, ◌&&◌, ◌⊎◌, inl, inr,
  List, [], ◌∷◌, ◌++◌, map, if◌then◌else◌, ◌==◌, Option-cases, Bool-cases,
}
use gen_xtaxi_ai.Common.Text.{Text, trim}
use gen_xtaxi_ai.MoneyScan.{ScannedMoney}
use gen_xtaxi_ai.Grounding.{check}
use gen_xtaxi_ai.Chat.Types.{
  ToolContext, Error, Result, Result-cases, ok, err, StreamEvent, token, tool_call_proposed,
  tool_result, card, done, error, ToolOutcome, result, action_card, unknown_tool, role_forbidden,
  missing_arg, unhandled_tool, already_submitted, action_failed, no_pending_action,
  gateway_unavailable, other,
}
use gen_xtaxi_ai.Chat.Registry.{spec_by_name}
use gen_xtaxi_ai.Chat.Tools.{execute}
use gen_xtaxi_ai.Chat.World.{Backends, World, LlmMessage, ToolCall, Completion, gateway_complete}
use gen_xtaxi_ai.Chat.Replies.{
  forced_text, or_teammate, tokens_of, tokenize, cannot_quote, get_teammate, unavailable,
  retry_note, answer_note,
}
use gen_xtaxi_ai.Chat.Turn.{
  run_call, run_calls, settle, reply, force, degrade, hops, prompt, process_message, received,
}
use gen_xtaxi_ai.Chat.Turn.Run.{List-cases}
use mathlib.Core.List.{append-nil}

-- How far a turn has come: the messages to the model, the amounts that the tools returned, and the state.
-- It begins with the prompt and no amount; an answer without calls may be followed by a note to try again,
-- and the calls of an answer are executed, in their order, for the user of the turn.
pub data Talk (b : Backends) (ctx : ToolContext) (first : List LlmMessage) (start : World b)
    : List LlmMessage → List ScannedMoney → World b → Type 0 where
  begun : Talk b ctx first start first [] start
  retried :
      (messages : List LlmMessage) (money : List ScannedMoney) (w : World b) (tools : Bool)
      (c : Completion)
      → Talk b ctx first start messages money w
      → (gateway_complete b ctx.user.token messages tools w).0 ≡ ok c
      → c.tool_calls ≡ []
      → Talk b ctx first start
          (messages ++ retry_note ∷ [])
          money
          (gateway_complete b ctx.user.token messages tools w).1
  used :
      (messages : List LlmMessage) (money : List ScannedMoney) (w : World b) (tools : Bool)
      (c : Completion)
      → Talk b ctx first start messages money w
      → (gateway_complete b ctx.user.token messages tools w).0 ≡ ok c
      → Talk b ctx first start
          (messages
            ++ (run_calls b ctx c.tool_calls
                (gateway_complete b ctx.user.token messages tools w).1).messages)
          (money
            ++ (run_calls b ctx c.tool_calls
                (gateway_complete b ctx.user.token messages tools w).1).money)
          (run_calls b ctx c.tool_calls
            (gateway_complete b ctx.user.token messages tools w).1).world

-- A text that may be said: a fixed sentence, or what the model answers to the messages so far, in the
-- state so far, if it is grounded against the amounts so far; with the note to answer, it is trimmed.
pub data MaySay (b : Backends) (ctx : ToolContext) (first : List LlmMessage) (start : World b)
    : Text → Type 0 where
  declines : MaySay b ctx first start cannot_quote
  hands_over : MaySay b ctx first start get_teammate
  is_down : MaySay b ctx first start unavailable
  answers :
      (messages : List LlmMessage) (money : List ScannedMoney) (w : World b) (tools : Bool)
      (c : Completion)
      → Talk b ctx first start messages money w
      → (gateway_complete b ctx.user.token messages tools w).0 ≡ ok c
      → (check b.round c.content money).grounded ≡ true
      → MaySay b ctx first start c.content
  answers_last :
      (messages : List LlmMessage) (money : List ScannedMoney) (w : World b) (c : Completion)
      → Talk b ctx first start messages money w
      → (gateway_complete b ctx.user.token (messages ++ answer_note ∷ []) false w).0 ≡ ok c
      → (check b.round c.content money).grounded ≡ true
      → MaySay b ctx first start (trim c.content)

-- The texts of the token events.
abbrev pub tokens_in : List StreamEvent → List Text
tokens_in [] = []
tokens_in (token t ∷ es) = t ∷ tokens_in es
tokens_in (_ ∷ es) = tokens_in es

tokens_in-append : (es fs : List StreamEvent) → tokens_in (es ++ fs) ≡ tokens_in es ++ tokens_in fs
tokens_in-append [] fs = refl
tokens_in-append (token t ∷ es) fs = ap (λ ts. t ∷ ts) (tokens_in-append es fs)
tokens_in-append (tool_call_proposed i n a ∷ es) fs = tokens_in-append es fs
tokens_in-append (tool_result n a ∷ es) fs = tokens_in-append es fs
tokens_in-append (card a ∷ es) fs = tokens_in-append es fs
tokens_in-append (done g e a ∷ es) fs = tokens_in-append es fs
tokens_in-append (error e ∷ es) fs = tokens_in-append es fs

tokens_in-map : (ts : List Text) → tokens_in (map token ts) ≡ ts
tokens_in-map [] = refl
tokens_in-map (t ∷ ts) = ap (λ us. t ∷ us) (tokens_in-map ts)

module _ (b : Backends) where
  -- The tokens of a stream are those of one text that may be said, or there are none.
  abbrev pub SaysOnly : ToolContext → List LlmMessage → World b → List StreamEvent → Type 0
  SaysOnly ctx first start es =
      (tokens_in es ≡ [])
      ⊎ ((text : Text) × (MaySay b ctx first start text × (tokens_in es ≡ tokenize text)))

  says :
      (ctx : ToolContext) (first : List LlmMessage) (start : World b) (text : Text) (g e a : Bool)
      → MaySay b ctx first start text
      → SaysOnly ctx first start (tokens_of text ++ done g e a ∷ [])
  says ctx first start text g e a h = inr (
    text,
    (
      h,
      tokens_in-append (tokens_of text) (done g e a ∷ [])
          ∙ append-nil (tokens_in (tokens_of text))
          ∙ tokens_in-map (tokenize text),
    ),
  )

  quiet :
      (ctx : ToolContext) (first : List LlmMessage) (start : World b) (es fs : List StreamEvent)
      → tokens_in es ≡ []
      → SaysOnly ctx first start fs
      → SaysOnly ctx first start (es ++ fs)
  quiet ctx first start es fs h k = rw (tokens_in-append es fs, h) k

  settle-quiet :
      (ctx : ToolContext) (c : ToolCall) (r : Result ToolOutcome) (w : World b)
      → tokens_in (settle b ctx c r w).events ≡ []
  settle-quiet ctx c (err e) w = refl
  settle-quiet ctx c (ok (result v m)) w = refl
  settle-quiet ctx c (ok (action_card a p m)) w = refl

  run_call-quiet :
      (ctx : ToolContext) (c : ToolCall) (w : World b) → tokens_in (run_call b ctx c w).events ≡ []
  unfolding run_call
  run_call-quiet ctx c w = elim (Option-cases (spec_by_name c.name)) [
    | inl e ↦ rw (e, run_call) refl
    | inr (s, e) ↦
        rw (e, run_call)
          (settle-quiet ctx c (execute b c.name c.arguments ctx w).0
            (execute b c.name c.arguments ctx w).1)
  ]

  run_calls-quiet :
      (ctx : ToolContext) (cs : List ToolCall) (w : World b)
      → tokens_in (run_calls b ctx cs w).events ≡ []
  unfolding run_calls
  run_calls-quiet ctx [] w = refl
  run_calls-quiet ctx (c ∷ cs) w =
      let first = run_call b ctx c w in
      rw
        (
          tokens_in-append first.events (run_calls b ctx cs first.world).events,
          run_call-quiet ctx c w,
        )
        (run_calls-quiet ctx cs first.world)

  degrade-says :
      (ctx : ToolContext) (first : List LlmMessage) (start : World b) (e : Error) (w : World b)
      → SaysOnly ctx first start (degrade b ctx e w).0
  unfolding degrade
  degrade-says ctx first start (gateway_unavailable status body) w =
      says ctx first start unavailable _ _ _ is_down
  degrade-says ctx first start (unknown_tool n) w = inl refl
  degrade-says ctx first start (role_forbidden r n) w = inl refl
  degrade-says ctx first start (missing_arg r n) w = inl refl
  degrade-says ctx first start (unhandled_tool n) w = inl refl
  degrade-says ctx first start already_submitted w = inl refl
  degrade-says ctx first start (action_failed n) w = inl refl
  degrade-says ctx first start no_pending_action w = inl refl
  degrade-says ctx first start (other n) w = inl refl

  or_teammate-MaySay :
      (ctx : ToolContext) (first : List LlmMessage) (start : World b) (text : Text)
      → MaySay b ctx first start text
      → MaySay b ctx first start (or_teammate text)
  or_teammate-MaySay ctx first start [] h = hands_over
  or_teammate-MaySay ctx first start (c ∷ s) h = h

  forced-MaySay :
      (ctx : ToolContext) (first : List LlmMessage) (start : World b) (messages : List LlmMessage)
      (money : List ScannedMoney) (w : World b) (r : Result Completion)
      → Talk b ctx first start messages money w
      → (gateway_complete b ctx.user.token (messages ++ answer_note ∷ []) false w).0 ≡ r
      → MaySay b ctx first start (forced_text b.round money r)
  forced-MaySay ctx first start messages money w (err e) talk h = hands_over
  forced-MaySay ctx first start messages money w (ok c) talk h =
      elim (Bool-cases ((check b.round c.content money).grounded)) [
        | inl e ↦ rw e (
            or_teammate-MaySay ctx first start (trim c.content)
              (answers_last messages money w c talk h e))
        | inr e ↦ rw e hands_over
      ]

  reply-says :
      (ctx : ToolContext) (first : List LlmMessage) (start : World b) (messages : List LlmMessage)
      (money : List ScannedMoney) (w : World b) (tools : Bool) (c : Completion) (v : World b)
      → Talk b ctx first start messages money w
      → (gateway_complete b ctx.user.token messages tools w).0 ≡ ok c
      → let is_grounded = (check b.round c.content money).grounded in
        SaysOnly ctx first start
          (reply b ctx
            (if is_grounded then c.content else cannot_quote)
            c.output_tokens
            is_grounded
            v).0
  reply-says ctx first start messages money w tools c v talk h =
      elim (Bool-cases ((check b.round c.content money).grounded)) [
        | inl e ↦
            rw e (says ctx first start c.content _ _ _ (answers messages money w tools c talk h e))
        | inr e ↦ rw e (says ctx first start cannot_quote _ _ _ declines)
      ]

  hops-says :
      (left : ℕ) (ctx : ToolContext) (first : List LlmMessage) (start : World b)
      (messages : List LlmMessage) (money : List ScannedMoney) (retried_once : Bool) (w : World b)
      → Talk b ctx first start messages money w
      → SaysOnly ctx first start (hops b left ctx messages money retried_once w).0
  unfolding hops force
  hops-says zero ctx first start messages money retried_once w talk =
      says ctx first start _ _ _ _ (forced-MaySay ctx first start messages money w _ talk refl)
  hops-says (suc left) ctx first start messages money retried_once w talk =
      let tools = not (left == 0) in
      let v = (gateway_complete b ctx.user.token messages tools w).1 in
      elim (Result-cases ((gateway_complete b ctx.user.token messages tools w).0)) [
        | inr (e, h) ↦ rw (h, hops) (degrade-says ctx first start e v)
        | inl (c, h) ↦ elim (List-cases c.tool_calls) [
          | inl none_called ↦
              elim (Bool-cases (not (check b.round c.content money).grounded && not retried_once)) [
                | inl again ↦
                    rw (h, hops, none_called, again)
                      (hops-says left ctx first start (messages ++ retry_note ∷ []) money true v
                        (retried messages money w tools c talk h none_called))
                | inr final ↦
                    rw (h, hops, none_called, final)
                      (reply-says ctx first start messages money w tools c v talk h)
              ]
          | inr (d, ds, some_called) ↦
              let calls = run_calls b ctx (d ∷ ds) v in
              let silent = run_calls-quiet ctx (d ∷ ds) v in
              let talk' : Talk b ctx first start (messages ++ calls.messages) (money ++ calls.money)
                  calls.world =
                subst
                  (λ cs.
                    Talk b ctx first start (messages ++ (run_calls b ctx cs v).messages)
                      (money ++ (run_calls b ctx cs v).money) (run_calls b ctx cs v).world)
                  some_called (used messages money w tools c talk h) in
              elim (Bool-cases calls.awaiting) [
                | inl waits ↦
                    rw (h, hops, some_called, waits)
                      (quiet ctx first start calls.events (done true false true ∷ []) silent
                        (inl refl))
                | inr goes_on ↦
                    rw (h, hops, some_called, goes_on)
                      (quiet ctx first start calls.events _ silent (
                        hops-says left ctx first start (messages ++ calls.messages)
                          (money ++ calls.money) retried_once calls.world talk'))
              ]
        ]
      ]

  -- What the knowledge base found, and nothing where it threw.
  abbrev pub found : Result (List Text) → List Text
  found (ok chunks) = chunks
  found (err e) = []

  -- The tokens that a turn streams, if any, are those of one text: a fixed sentence, or an answer of the
  -- model, as it came or trimmed, to the messages that this turn has sent it, whose check finds it
  -- grounded against the amounts that the calls of the model's answers in this turn, executed one
  -- after the other from the turn's state, returned.
  pub process_message-says :
      (ctx : ToolContext) (lang : String) (text : Text) (w : World b)
      → let (r, v) = received b ctx lang text w in
        SaysOnly ctx
          (prompt b ctx.session_id lang text (found r) v)
          v
          (process_message b ctx lang text w).0
  unfolding process_message
  process_message-says ctx lang text w =
      let v = (received b ctx lang text w).1 in
      elim (Result-cases ((received b ctx lang text w).0)) [
        | inr (e, h) ↦
            rw (h, process_message)
              (degrade-says ctx (prompt b ctx.session_id lang text [] v) v e v)
        | inl (chunks, h) ↦
            let first = prompt b ctx.session_id lang text chunks v in
            rw (h, process_message) (hops-says b.max_hops ctx first v first [] false v begun)
      ]
