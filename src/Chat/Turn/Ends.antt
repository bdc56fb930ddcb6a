-- ===== src/Chat/Turn/Ends.antt =====
-- How the event stream of `processMessage` ends.
use gen_xtaxi_ai.Common.{
  String, ◌≡◌, refl, sym, Bool, true, false, inl, inr, List, [], ◌∷◌, ◌++◌, map, All, All-append,
  Option-cases,
}
use gen_xtaxi_ai.Common.Text.{Text}
use gen_xtaxi_ai.MoneyScan.{ScannedMoney}
use gen_xtaxi_ai.Chat.Types.{
  ToolContext, Error, Result, ok, err, StreamEvent, token, done, error, ToolOutcome, result,
  action_card, unknown_tool, role_forbidden, missing_arg, unhandled_tool, already_submitted,
  action_failed, no_pending_action, gateway_unavailable, other,
}
use gen_xtaxi_ai.Chat.Registry.{spec_by_name}
use gen_xtaxi_ai.Chat.Tools.{execute}
use gen_xtaxi_ai.Chat.World.{Backends, World, ToolCall}
use gen_xtaxi_ai.Chat.Replies.{tokenize, unavailable}
use gen_xtaxi_ai.Chat.Turn.{run_call, run_calls, settle, force, degrade, process_message, received}
use gen_xtaxi_ai.Chat.Turn.Run.{
  Run, ran_out, failed, asked_again, replied, awaited, called, process_message-cases,
}
use mathlib.Core.List.{append_assoc}

abbrev pub is_end : StreamEvent → Bool
is_end (done _ _ _) = true
is_end (error _) = true
is_end _ = false

abbrev pub IsInner : List StreamEvent → Type 0
IsInner es = All (λ e. is_end e ≡ false) es

-- All events but the last leave the turn open, and the last ends it.
abbrev pub EndsOnce : List StreamEvent → Type 0
EndsOnce es =
    (inner : List StreamEvent) × (last : StreamEvent) × ((es ≡ inner ++ last ∷ [])
      × IsInner inner
      × (is_end last ≡ true))

EndsOnce-append :
    (inner es : List StreamEvent) → IsInner inner → EndsOnce es → EndsOnce (inner ++ es)
EndsOnce-append inner es h (front, last, (e, k, t)) = (
  inner ++ front,
  last,
  (rw e (sym (append_assoc inner front (last ∷ []))), All-append _ inner front h k, t),
)

tokens-IsInner : (ts : List Text) → IsInner (map token ts)
tokens-IsInner [] = tt
tokens-IsInner (t ∷ ts) = (refl, tokens-IsInner ts)

-- Tokens, then a terminal event.
spoken :
    (ts : List Text) (last : StreamEvent)
    → is_end last ≡ true
    → EndsOnce (map token ts ++ last ∷ [])
spoken ts last h = (map token ts, last, (refl, tokens-IsInner ts, h))

module _ (b : Backends) where
  settle-IsInner :
      (ctx : ToolContext) (c : ToolCall) (r : Result ToolOutcome) (w : World b)
      → IsInner (settle b ctx c r w).events
  settle-IsInner ctx c (err e) w = (refl, (refl, tt))
  settle-IsInner ctx c (ok (result v m)) w = (refl, (refl, tt))
  settle-IsInner ctx c (ok (action_card a p m)) w = (refl, (refl, tt))

  run_call-IsInner :
      (ctx : ToolContext) (c : ToolCall) (w : World b) → IsInner (run_call b ctx c w).events
  unfolding run_call
  run_call-IsInner ctx c w = elim (Option-cases (spec_by_name c.name)) [
    | inl e ↦ rw (e, run_call) (refl, tt)
    | inr (s, e) ↦
        rw (e, run_call)
          (settle-IsInner ctx c (execute b c.name c.arguments ctx w).0
            (execute b c.name c.arguments ctx w).1)
  ]

  run_calls-IsInner :
      (ctx : ToolContext) (cs : List ToolCall) (w : World b) → IsInner (run_calls b ctx cs w).events
  unfolding run_calls
  run_calls-IsInner ctx [] w = tt
  run_calls-IsInner ctx (c ∷ cs) w =
      All-append _ (run_call b ctx c w).events
        (run_calls b ctx cs (run_call b ctx c w).world).events (run_call-IsInner ctx c w)
        (run_calls-IsInner ctx cs (run_call b ctx c w).world)

  degrade-EndsOnce : (ctx : ToolContext) (e : Error) (w : World b) → EndsOnce (degrade b ctx e w).0
  unfolding degrade
  degrade-EndsOnce ctx (gateway_unavailable status body) w = spoken (tokenize unavailable) _ refl
  degrade-EndsOnce ctx (unknown_tool n) w = ([], _, (refl, tt, refl))
  degrade-EndsOnce ctx (role_forbidden r n) w = ([], _, (refl, tt, refl))
  degrade-EndsOnce ctx (missing_arg r n) w = ([], _, (refl, tt, refl))
  degrade-EndsOnce ctx (unhandled_tool n) w = ([], _, (refl, tt, refl))
  degrade-EndsOnce ctx already_submitted w = ([], _, (refl, tt, refl))
  degrade-EndsOnce ctx (action_failed n) w = ([], _, (refl, tt, refl))
  degrade-EndsOnce ctx no_pending_action w = ([], _, (refl, tt, refl))
  degrade-EndsOnce ctx (other n) w = ([], _, (refl, tt, refl))

  Run-EndsOnce :
      (ctx : ToolContext) (money : List ScannedMoney) (w v : World b) (es : List StreamEvent)
      → Run b ctx money w es v
      → EndsOnce es
  unfolding force
  Run-EndsOnce ctx money w v es (ran_out messages _ _) = spoken _ _ refl
  Run-EndsOnce ctx money w v es (failed messages tools _ _ e) = degrade-EndsOnce ctx e _
  Run-EndsOnce ctx money w v es (asked_again messages tools _ _ _ _ r) =
      Run-EndsOnce ctx money _ v es r
  Run-EndsOnce ctx money w v es (replied messages tools _ _ c g h) = spoken _ _ refl
  Run-EndsOnce ctx money w v es (awaited messages tools _ _ cs) =
      (_, _, (refl, run_calls-IsInner ctx cs _, refl))
  Run-EndsOnce ctx money w v es (called messages tools _ _ cs fs _ r) =
      EndsOnce-append _ fs (run_calls-IsInner ctx cs _) (Run-EndsOnce ctx _ _ v fs r)

  -- Whatever the model, the backend and the knowledge base answer, a turn streams exactly one terminal
  -- event, `done` or `error`, and streams it last.
  pub process_message-EndsOnce :
      (ctx : ToolContext) (lang : String) (text : Text) (w : World b)
      → EndsOnce (process_message b ctx lang text w).0
  process_message-EndsOnce ctx lang text w = elim (process_message-cases b ctx lang text w) [
    | inl (e, h) ↦ rw h (degrade-EndsOnce ctx e (received b ctx lang text w).1)
    | inr r ↦ Run-EndsOnce ctx [] _ _ _ r
  ]
