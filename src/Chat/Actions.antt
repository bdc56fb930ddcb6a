-- ===== src/Chat/Actions.antt =====
-- The actions that wait for a confirmation: `ConfirmationStore` of src/orchestrator/confirmation.store.ts,
-- `commit` and `commitRefund` of src/tools/tool-executor.service.ts, and `confirm` of
-- src/orchestrator/orchestrator.service.ts. A stored action has been through JSON.
pub mod Store
pub mod Once
pub mod Queue
use gen_xtaxi_ai.Common.{
  ℕ, ◌+◌, String, str_eq, Bool, true, false, Option, none, some, List, [], ◌∷◌, ◌++◌, ltb, ◌==◌,
  if◌then◌else◌,
}
use gen_xtaxi_ai.Common.Number.{Number, finite}
use gen_xtaxi_ai.Common.Text.{Text, codes}
use gen_xtaxi_ai.Json.{Json, Fields, bool, str, obj, end, field, null}
use gen_xtaxi_ai.Ports.{set_nx}
use gen_xtaxi_ai.Chat.Types.{
  ToolContext, ChatUser, Amount, core, refund_queue, PendingAction, Method, Error,
  already_submitted, action_failed, no_pending_action, Result, ok, err, queued, Refund,
  from_assistant, from_tool, Message,
}
use gen_xtaxi_ai.Chat.Tools.{ticket_of}
use gen_xtaxi_ai.Chat.Sessions.{add_message, text_message, tool_message}
use gen_xtaxi_ai.Chat.World.{
  Backends, World, M, Stored, pending, submitted, CoreCall, CoreResult, or_default, core_request,
  ◌>>=◌, pure, throw, lift,
}
use Prim.Native.String.{◌++◌ as str_append}

abbrev pub guard_key : String → String
guard_key key = str_append "idem:" key

abbrev pub confirm_key : String → String → String
confirm_key session_id tool_call_id =
    str_append "confirm:" (str_append session_id (str_append ":" tool_call_id))

abbrev pub day_key : String → String → String
day_key user_id day = str_append "refund:" (str_append user_id (str_append ":" day))

-- `{ ...fields, [key]: v }`
abbrev pub with_field : String → Json → Fields → Fields
with_field key v end = field key v end
with_field key v (field k u fs) =
    if str_eq k key then field k v fs else field k u (with_field key v fs)

abbrev pending_of : Option Stored → Option PendingAction
pending_of (some (pending a)) = some a
pending_of _ = none

abbrev finite_or_null : Option Number → Option Number
finite_or_null (some (finite f)) = some (finite f)
finite_or_null _ = none

-- What `JSON.parse` makes of the action's `JSON.stringify`: the amount of a refund that is not finite is
-- null, and all else is as it was.
abbrev pub as_stored : PendingAction → PendingAction
as_stored action = elim action.commit [
  | refund_queue ride_id amount reason ↦
      let kept = record amount { amount = finite_or_null amount.amount } in
      record action { commit = refund_queue ride_id kept reason }
  | core method path body ↦ action
]

pub data Decision : Type 0 where
  accept decline : Decision

module _ (b : Backends) where
  unfoldable pub save : String → String → PendingAction → World b → World b
  save session_id tool_call_id action w =
      let now = b.now w.outside in
      let key = confirm_key session_id tool_call_id in
      record w { redis = b.redis.set now key (pending (as_stored action)) b.confirm_ttl w.redis }

  unfoldable pub take : String → String → World b → Option PendingAction × World b
  take session_id tool_call_id w =
      let key = confirm_key session_id tool_call_id in
      elim (pending_of (b.redis.get (b.now w.outside) key w.redis)) [
        | none ↦ (none, w)
        | some a ↦ (some a, record w { redis = b.redis.del key w.redis })
      ]

  abbrev pub commit_call : ToolContext → String → Method → Text → Fields → CoreCall
  commit_call ctx key method path body = record {
    method = method;
    path = path;
    token = ctx.user.token;
    body = some (obj (with_field "idempotencyKey" (str (codes key)) body));
  }

  abbrev committed : CoreResult → M b Json
  committed res =
      if res.is_ok
      then pure (elim (or_default res.content none) [
        | none ↦ obj (field "ok" (bool true) end)
        | some v ↦ v
      ])
      else throw (action_failed res.error)

  unfoldable pub commit_refund : Text → Amount → Text → ToolContext → World b → Json × World b
  commit_refund ride_id amount reason ctx w =
      let day = day_key ctx.user.user_id (b.today w.outside) in
      let counted = b.counters.incrby day 1 w.counters in
      let count = b.counters.value day counted in
      let summary = codes "Refund request for ride " ++ ride_id ++ codes ": " ++ reason in
      let ticket = ticket_of b ctx (codes "high") summary "refund" in
      let ticket_id = b.tickets.next_id w.tickets in
      let refund : Refund = record {
        ticket_id = ticket_id;
        user_id = ctx.user.user_id;
        ride_id = ride_id;
        amount = amount;
        reason = reason;
        status = queued;
      } in
      (
        obj (
            field "queued" (bool true) (
              field "ticketId" (str (codes ticket_id)) (
                field "refundRequestId" (str (codes (b.refunds.next_id w.refunds)))
                  (field "anomaly" (bool (ltb 3 count)) end)))),
        record w {
          counters = if count == 1 then b.counters.expire day 86400 counted else counted;
          tickets = b.tickets.create ticket w.tickets;
          refunds = b.refunds.create refund w.refunds;
        },
      )

  unfoldable pub perform : PendingAction → ToolContext → M b Json
  perform action ctx = elim action.commit [
    | refund_queue ride_id amount reason ↦ lift (commit_refund ride_id amount reason ctx)
    | core method path body ↦
        lift (core_request b (commit_call ctx action.idempotency_key method path body))
        >>= committed
  ]

  -- `SET idem:… 1 EX 600 NX`
  unfoldable pub claim : String → World b → Bool × World b
  claim key w =
      let (first, r) = set_nx b.redis (b.now w.outside) (guard_key key) submitted 600 w.redis in
      (first, record w { redis = r })

  unfoldable pub commit : PendingAction → ToolContext → M b Json
  commit action ctx = do
    first ← lift (claim action.idempotency_key)
    (if first then perform action ctx else throw already_submitted)

  abbrev pub note : PendingAction → ToolContext → Json → M b (Option Json)
  note action ctx answer w =
      let text = codes "[" ++ codes action.tool ++ codes " committed]" in
      let m = tool_message ctx.session_id from_tool text action.tool none (some answer) in
      (ok (some answer), add_message b m w)

  abbrev pub accepted : PendingAction → ToolContext → M b (Option Json)
  accepted action ctx = commit action ctx >>= note action ctx

  abbrev declined : PendingAction → ToolContext → M b (Option Json)
  declined action ctx w =
      let text = codes "Okay, I won't proceed with " ++ codes action.tool ++ codes "." in
      (ok none, add_message b (text_message ctx.session_id from_assistant text 0) w)

  -- The result of the commit, which a declined action has none of.
  unfoldable pub confirm : ToolContext → String → Decision → M b (Option Json)
  confirm ctx tool_call_id decision w =
      let (found, w') = take ctx.session_id tool_call_id w in
      elim found [
        | none ↦ (err no_pending_action, w')
        | some action ↦ elim decision [
          | decline ↦ declined action ctx w'
          | accept ↦ accepted action ctx w'
        ]
      ]
