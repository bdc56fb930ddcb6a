-- ===== src/Chat/Sessions.antt =====
-- `SessionsService` of src/orchestrator/sessions.service.ts, and `EscalationService` of
-- src/escalation/escalation.service.ts.
pub mod Laws
use gen_xtaxi_ai.Common.{
  ℕ, zero, suc, String, str_eq, Bool, true, false, ◌&&◌, Option, none, some, List, [], ◌∷◌, map,
  if◌then◌else◌, find, keep, take,
}
use gen_xtaxi_ai.Common.Text.{Text, codes, text_eq}
use gen_xtaxi_ai.Json.{Json, Fields}
use gen_xtaxi_ai.Chat.Types.{
  Role, Sender, from_user, from_assistant, from_tool, Message, Session, SessionStatus, active,
  escalated, Ticket, TicketStatus, open_ticket, in_review, resolved,
}
use gen_xtaxi_ai.Chat.World.{Backends, World, ChatRole, user, assistant, system, LlmMessage}
use mathlib.Core.List.{reverse}

-- The message that `addMessage` stores where only a sender and a text are given.
abbrev pub text_message : String → Sender → Text → ℕ → Message
text_message session_id sender content tokens = record {
  session_id = session_id;
  sender = sender;
  content = content;
  tool_name = none;
  tool_args = none;
  tool_result = none;
  tokens = tokens;
}

abbrev pub tool_message : String → Sender → Text → String → Option Fields → Option Json → Message
tool_message session_id sender content name args answer = record {
  session_id = session_id;
  sender = sender;
  content = content;
  tool_name = some name;
  tool_args = args;
  tool_result = answer;
  tokens = 0;
}

-- A session of the user's, or the `NotFoundException`, or the CastError of a malformed identifier.
pub data Lookup : Type 0 where
  owned : Session → Lookup
  not_owned : Lookup
  malformed_id : Lookup

abbrev pub owned_by : String → Option (String × Session) → Lookup
owned_by user_id none = not_owned
owned_by user_id (some (_, s)) = if str_eq s.user_id user_id then owned s else not_owned

-- The senders of `recentContext`; the others are left out of the prompt.
abbrev pub chat_role : Sender → Option ChatRole
chat_role from_user = some user
chat_role from_assistant = some assistant
chat_role from_tool = none

abbrev is_spoken : Sender → Bool
is_spoken from_tool = false
is_spoken _ = true

abbrev pub is_turn_of : String → String × Message → Bool
is_turn_of session_id (_, m) = str_eq m.session_id session_id && is_spoken m.sender

abbrev pub llm_message : String × Message → LlmMessage
llm_message (_, m) = record {
  role = elim (chat_role m.sender) [ none ↦ system | some r ↦ r ];
  content = m.content;
}

-- `.limit(k)`, which a limit of 0 does not bound.
unfoldable pub limit {ℓ} : {A : Type ℓ} → ℕ → List A → List A
limit zero xs = xs
limit (suc k) xs = take (suc k) xs

-- `filter.status` and `filter.category` are tests only where they are given.
abbrev fits : Option TicketStatus → Option String → String × Ticket → Bool
fits status category (_, t) =
    (elim status [ none ↦ true | some s ↦ status_eq t.status s ])
    && (elim category [ none ↦ true | some c ↦ str_eq t.category c ])
  where
    status_eq : TicketStatus → TicketStatus → Bool
    status_eq open_ticket open_ticket = true
    status_eq in_review in_review = true
    status_eq resolved resolved = true
    status_eq _ _ = false

module _ (b : Backends) where
  unfoldable pub create : Session → World b → String × World b
  create s w =
      (b.sessions.next_id w.sessions, record w { sessions = b.sessions.create s w.sessions })

  unfoldable pub get : String → String → World b → Lookup
  get session_id user_id w =
      if b.is_object_id session_id
      then owned_by user_id (find (λ e. str_eq e.0 session_id) (b.sessions.docs w.sessions))
      else malformed_id

  unfoldable pub touch : String → World b → World b
  touch session_id w =
      let now = b.now w.outside in
      record w {
        sessions =
            b.sessions.update session_id (λ s. record s { last_activity_at = now }) w.sessions;
      }

  unfoldable pub set_status : String → SessionStatus → World b → World b
  set_status session_id status w = record w {
    sessions = b.sessions.update session_id (λ s. record s { status = status }) w.sessions;
  }

  unfoldable pub add_message : Message → World b → World b
  add_message m w = record w { messages = b.messages.create m w.messages }

  unfoldable pub transcript : String → World b → List (String × Message)
  transcript session_id w =
      keep (λ e. str_eq e.1.session_id session_id) (b.messages.docs w.messages)

  unfoldable pub recent_context : String → World b → List LlmMessage
  recent_context session_id w =
      let newest_first = reverse (keep (is_turn_of session_id) (b.messages.docs w.messages)) in
      map llm_message (reverse (limit b.context_turns newest_first))

  -- `EscalationService.createTicket`
  unfoldable pub create_ticket : Ticket → World b → String × World b
  create_ticket t w = (
    b.tickets.next_id w.tickets,
    set_status t.session_id escalated (record w { tickets = b.tickets.create t w.tickets }),
  )

  unfoldable pub assign : String → String → World b → World b
  assign ticket_id assignee_id w =
      let f : Ticket → Ticket =
        λ t. record t { assignee_id = some assignee_id; status = in_review } in
      record w { tickets = b.tickets.update ticket_id f w.tickets }

  -- Without a score, `$set` leaves the stored one.
  unfoldable pub resolve : String → Option ℕ → World b → World b
  resolve ticket_id csat_score w =
      let now = b.now w.outside in
      let f : Ticket → Ticket = λ t. record t {
        status = resolved;
        resolved_at = some now;
        csat_score = elim csat_score [ none ↦ t.csat_score | some n ↦ some n ];
      } in
      record w { tickets = b.tickets.update ticket_id f w.tickets }
