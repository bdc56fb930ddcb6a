-- ===== src/Chat/Types.antt =====
-- The data of chat-orchestrator: src/tools/tool.types.ts, src/orchestrator/stream-events.ts, the
-- documents of src/schemas, and the roles of packages/ai-shared.
use gen_xtaxi_ai.Common.{ℕ, String, ◌≡◌, refl, ◌⊎◌, inl, inr, Bool, Option, List}
use gen_xtaxi_ai.Common.Number.{Number}
use gen_xtaxi_ai.Common.Text.{Text}
use gen_xtaxi_ai.Json.{Json, Fields}
use gen_xtaxi_ai.MoneyScan.{ScannedMoney}
use gen_xtaxi_ai.AppError.{
  ErrorCode, validation, forbidden, not_found, conflict, internal, provider_unavailable,
}

pub data Role : Type 0 where
  passenger driver admin : Role

pub record ChatUser : Type 0 where
  pub user_id : String
  pub role : Role
  pub token : String

pub record ToolContext : Type 0 where
  pub user : ChatUser
  pub session_id : String

pub record ToolSpec : Type 0 where
  pub name : String
  pub allowed_roles : List Role
  pub requires_confirmation : Bool
  -- `parameters.required`
  pub required : List String

-- An amount as a card or a refund request carries it, which the model may have made up; none is the
-- `null` that JSON has for a number that is not finite.
pub record Amount : Type 0 where
  pub amount : Option Number
  pub currency : Text

pub record ActionCard : Type 0 where
  pub action : String
  pub title : String
  pub lines : List Text
  pub money : Option Amount
  pub tool_call_id : String
  pub confirm_label : String
  pub decline_label : String

pub data Method : Type 0 where
  get_method post_method patch_method : Method

pub data Commit : Type 0 where
  core : Method → Text → Fields → Commit
  refund_queue : Text → Amount → Text → Commit

pub Commit-cases :
    (c : Commit)
    → ((m : Method) × (p : Text) × (f : Fields) × (c ≡ core m p f))
      ⊎ ((r : Text) × (a : Amount) × (t : Text) × (c ≡ refund_queue r a t))
Commit-cases (core m p f) = inl (m, p, f, refl)
Commit-cases (refund_queue r a t) = inr (r, a, t, refl)

pub record PendingAction : Type 0 where
  pub tool : String
  pub commit : Commit
  pub idempotency_key : String

pub data ToolOutcome : Type 0 where
  result : Option Json → List ScannedMoney → ToolOutcome
  action_card : ActionCard → PendingAction → List ScannedMoney → ToolOutcome

-- What is thrown: an `AppError`, by what its message is built from, or another error.
pub data Error : Type 0 where
  unknown_tool : String → Error
  role_forbidden : Role → String → Error
  missing_arg : String → String → Error
  unhandled_tool : String → Error
  already_submitted : Error
  action_failed : Option Text → Error
  no_pending_action : Error
  gateway_unavailable : ℕ → Text → Error
  other : Text → Error

-- The code of an `AppError`; the others are not of that class, and the filter answers 500.
abbrev pub error_code : Error → ErrorCode
error_code (unknown_tool _) = validation
error_code (role_forbidden _ _) = forbidden
error_code (missing_arg _ _) = validation
error_code (unhandled_tool _) = validation
error_code already_submitted = conflict
error_code (action_failed _) = internal
error_code no_pending_action = not_found
error_code (gateway_unavailable _ _) = provider_unavailable
error_code (other _) = internal

pub data Result (A : Type 0) : Type 0 where
  ok : A → Result A
  err : Error → Result A

pub Result-cases :
    {A : Type 0} (r : Result A) → ((a : A) × (r ≡ ok a)) ⊎ ((e : Error) × (r ≡ err e))
Result-cases (ok a) = inl (a, refl)
Result-cases (err e) = inr (e, refl)

pub data Sender : Type 0 where
  from_user from_assistant from_tool : Sender

-- src/schemas/chat-message.schema.ts
pub record Message : Type 0 where
  pub session_id : String
  pub sender : Sender
  pub content : Text
  pub tool_name : Option String
  pub tool_args : Option Fields
  pub tool_result : Option Json
  pub tokens : ℕ

pub data SessionStatus : Type 0 where
  active escalated closed : SessionStatus

-- src/schemas/chat-session.schema.ts
pub record Session : Type 0 where
  pub user_id : String
  pub role : Role
  pub lang : String
  pub status : SessionStatus
  pub topic : Option String
  pub last_activity_at : ℕ

pub data TicketStatus : Type 0 where
  open_ticket in_review resolved : TicketStatus

-- src/schemas/support-ticket.schema.ts
pub record Ticket : Type 0 where
  pub session_id : String
  pub user_id : String
  pub priority : Text
  pub status : TicketStatus
  pub assignee_id : Option String
  pub summary : Text
  pub category : String
  pub csat_score : Option ℕ
  pub resolved_at : Option ℕ

pub data RefundStatus : Type 0 where
  queued approved rejected : RefundStatus

-- src/schemas/refund-request.schema.ts
pub record Refund : Type 0 where
  pub ticket_id : String
  pub user_id : String
  pub ride_id : Text
  pub amount : Amount
  pub reason : Text
  pub status : RefundStatus

-- src/orchestrator/stream-events.ts; `done` has `grounded`, `escalated` and `awaitingConfirmation`.
pub data StreamEvent : Type 0 where
  token : Text → StreamEvent
  tool_call_proposed : String → String → Fields → StreamEvent
  tool_result : String → Option Json → StreamEvent
  card : ActionCard → StreamEvent
  done : Bool → Bool → Bool → StreamEvent
  error : Error → StreamEvent
