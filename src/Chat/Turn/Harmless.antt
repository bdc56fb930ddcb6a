-- ===== src/Chat/Turn/Harmless.antt =====
-- What a turn of `processMessage` does to the backend and the refunds.
use gen_xtaxi_ai.Common.{
  String, ◌≡◌, refl, sym, ◌∙◌, Bool, inl, inr, List, [], ◌∷◌, ◌++◌, All, All-append, Option-cases,
  Bool-cases,
}
use gen_xtaxi_ai.Common.Text.{Text}
use gen_xtaxi_ai.Json.{Fields}
use gen_xtaxi_ai.MoneyScan.{ScannedMoney}
use gen_xtaxi_ai.Chat.Types.{
  ToolContext, Error, Result, ok, err, StreamEvent, ToolOutcome, result, action_card, unknown_tool,
  role_forbidden, missing_arg, unhandled_tool, already_submitted, action_failed, no_pending_action,
  gateway_unavailable, other,
}
use gen_xtaxi_ai.Chat.Registry.{spec_by_name}
use gen_xtaxi_ai.Chat.Tools.{execute}
use gen_xtaxi_ai.Chat.Tools.Allowed.{IsQuestion, execute-OnlyAsks}
use gen_xtaxi_ai.Chat.Sessions.{add_message, touch, set_status}
use gen_xtaxi_ai.Chat.Actions.{save}
use gen_xtaxi_ai.Chat.World.{
  Backends, World, LlmMessage, ToolCall, CoreCall, kb_search, gateway_complete,
}
use gen_xtaxi_ai.Chat.Replies.{outage_args, is_escalation}
use gen_xtaxi_ai.Chat.Turn.{run_call, run_calls, settle, force, degrade, process_message, received}
use gen_xtaxi_ai.Chat.Turn.Run.{
  Run, ran_out, failed, asked_again, replied, awaited, called, process_message-cases,
}
use mathlib.Core.List.{append_assoc, append-nil}

-- From one state to another no refund is queued, no count is raised, and the backend is only asked.
pub record IsHarmless (b : Backends) (v w : World b) : Type 0 where
  pub questions : List CoreCall
  pub sent : w.sent ≡ v.sent ++ questions
  pub all_ask : All IsQuestion questions
  pub same_refunds : w.refunds ≡ v.refunds
  pub same_counters : w.counters ≡ v.counters

module _ (b : Backends) where
  still :
      (v w : World b)
      → w.sent ≡ v.sent
      → w.refunds ≡ v.refunds
      → w.counters ≡ v.counters
      → IsHarmless b v w
  still v w s r c = record {
    questions = [];
    sent = s ∙ sym (append-nil v.sent);
    all_ask = tt;
    same_refunds = r;
    same_counters = c;
  }

  IsHarmless-trans : (u v w : World b) → IsHarmless b u v → IsHarmless b v w → IsHarmless b u w
  IsHarmless-trans u v w h k = record {
    questions = h.questions ++ k.questions;
    sent = k.sent ∙ rw h.sent (append_assoc u.sent h.questions k.questions);
    all_ask = All-append IsQuestion h.questions k.questions h.all_ask k.all_ask;
    same_refunds = k.same_refunds ∙ h.same_refunds;
    same_counters = k.same_counters ∙ h.same_counters;
  }

  executed :
      (name : String) (args : Fields) (ctx : ToolContext) (w : World b)
      → IsHarmless b w (execute b name args ctx w).1
  executed name args ctx w =
      let h = execute-OnlyAsks b name args ctx w in
      record {
        questions = h.questions;
        sent = h.sent;
        all_ask = h.all_ask;
        same_refunds = h.same_refunds;
        same_counters = h.same_counters;
      }

  settled :
      (ctx : ToolContext) (c : ToolCall) (r : Result ToolOutcome) (w : World b)
      → IsHarmless b w (settle b ctx c r w).world
  unfolding add_message set_status save
  settled ctx c (err e) w = still w _ refl refl refl
  settled ctx c (ok (action_card a p m)) w = still w _ refl refl refl
  settled ctx c (ok (result v m)) w = elim (Bool-cases (is_escalation c.name)) [
    | inl e ↦ rw e (still w _ refl refl refl)
    | inr e ↦ rw e (still w _ refl refl refl)
  ]

  run_call-IsHarmless :
      (ctx : ToolContext) (c : ToolCall) (w : World b) → IsHarmless b w (run_call b ctx c w).world
  unfolding run_call
  run_call-IsHarmless ctx c w = elim (Option-cases (spec_by_name c.name)) [
    | inl e ↦ rw (e, run_call) (still w w refl refl refl)
    | inr (s, e) ↦
        rw (e, run_call)
          (IsHarmless-trans w (execute b c.name c.arguments ctx w).1 _
            (executed c.name c.arguments ctx w)
            (settled ctx c (execute b c.name c.arguments ctx w).0
              (execute b c.name c.arguments ctx w).1))
  ]

  run_calls-IsHarmless :
      (ctx : ToolContext) (cs : List ToolCall) (w : World b)
      → IsHarmless b w (run_calls b ctx cs w).world
  unfolding run_calls
  run_calls-IsHarmless ctx [] w = still w w refl refl refl
  run_calls-IsHarmless ctx (c ∷ cs) w =
      IsHarmless-trans w (run_call b ctx c w).world _ (run_call-IsHarmless ctx c w)
        (run_calls-IsHarmless ctx cs (run_call b ctx c w).world)

  degrade-IsHarmless :
      (ctx : ToolContext) (e : Error) (w : World b) → IsHarmless b w (degrade b ctx e w).1
  unfolding degrade
  degrade-IsHarmless ctx (gateway_unavailable status body) w =
      executed "escalate_to_human" outage_args ctx w
  degrade-IsHarmless ctx (unknown_tool n) w = still w w refl refl refl
  degrade-IsHarmless ctx (role_forbidden r n) w = still w w refl refl refl
  degrade-IsHarmless ctx (missing_arg r n) w = still w w refl refl refl
  degrade-IsHarmless ctx (unhandled_tool n) w = still w w refl refl refl
  degrade-IsHarmless ctx already_submitted w = still w w refl refl refl
  degrade-IsHarmless ctx (action_failed n) w = still w w refl refl refl
  degrade-IsHarmless ctx no_pending_action w = still w w refl refl refl
  degrade-IsHarmless ctx (other n) w = still w w refl refl refl

  completed :
      (token : String) (messages : List LlmMessage) (tools : Bool) (w : World b)
      → IsHarmless b w (gateway_complete b token messages tools w).1
  unfolding gateway_complete
  completed token messages tools w = still w _ refl refl refl

  Run-IsHarmless :
      (ctx : ToolContext) (money : List ScannedMoney) (w v : World b) (es : List StreamEvent)
      → Run b ctx money w es v
      → IsHarmless b w v
  unfolding force add_message
  Run-IsHarmless ctx money w v es (ran_out messages _ _) =
      IsHarmless-trans w _ v (completed _ _ _ w) (still _ v refl refl refl)
  Run-IsHarmless ctx money w v es (failed messages tools _ _ e) =
      IsHarmless-trans w _ v (completed _ messages tools w) (degrade-IsHarmless ctx e _)
  Run-IsHarmless ctx money w v es (asked_again messages tools _ _ _ _ r) =
      IsHarmless-trans w _ v (completed _ messages tools w) (Run-IsHarmless ctx money _ v es r)
  Run-IsHarmless ctx money w v es (replied messages tools _ _ c g h) =
      IsHarmless-trans w _ v (completed _ messages tools w) (still _ v refl refl refl)
  Run-IsHarmless ctx money w v es (awaited messages tools _ _ cs) =
      IsHarmless-trans w _ v (completed _ messages tools w) (run_calls-IsHarmless ctx cs _)
  Run-IsHarmless ctx money w v es (called messages tools _ _ cs fs _ r) =
      IsHarmless-trans w _ v (completed _ messages tools w)
        (IsHarmless-trans _ _ v (run_calls-IsHarmless ctx cs _) (Run-IsHarmless ctx _ _ v fs r))

  received-IsHarmless :
      (ctx : ToolContext) (lang : String) (text : Text) (w : World b)
      → IsHarmless b w (received b ctx lang text w).1
  unfolding kb_search touch add_message
  received-IsHarmless ctx lang text w = still w _ refl refl refl

  -- Whatever the model proposes, a turn queues no refund, raises no count, and sends the backend only
  -- GET requests and estimates of fares.
  pub process_message-IsHarmless :
      (ctx : ToolContext) (lang : String) (text : Text) (w : World b)
      → IsHarmless b w (process_message b ctx lang text w).1
  process_message-IsHarmless ctx lang text w =
      let before = received-IsHarmless ctx lang text w in
      elim (process_message-cases b ctx lang text w) [
        | inl (e, h) ↦ rw h (IsHarmless-trans w _ _ before (degrade-IsHarmless ctx e _))
        | inr r ↦ IsHarmless-trans w _ _ before (Run-IsHarmless ctx [] _ _ _ r)
      ]
