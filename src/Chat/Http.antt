-- ===== src/Chat/Http.antt =====
-- The HTTP surface: chat.controller.ts and admin.controller.ts of chat-orchestrator, the guard and the
-- token of common/auth.ts and common/jwt.strategy.ts, and the error envelope of
-- common/all-exceptions.filter.ts. Nest runs the guards before the handlers.
pub mod Laws
use gen_xtaxi_ai.Common.{
  ◌≡◌, refl, ℕ, String, str_eq, Bool, true, false, ◌||◌, Option, none, some, List, [], ◌∷◌, ◌++◌,
  map, keep, if◌then◌else◌,
}
use gen_xtaxi_ai.Common.Text.{Text, codes}
use gen_xtaxi_ai.Json.{Json}
use gen_xtaxi_ai.AppError.{ErrorCode, internal, code_status}
use gen_xtaxi_ai.Chat.Types.{
  Role, passenger, driver, admin, ChatUser, ToolContext, Session, active, Message, Sender,
  from_user, from_assistant, from_tool, Ticket, open_ticket, StreamEvent, Error, error_code, Result,
  ok, err,
}
use gen_xtaxi_ai.Chat.Registry.{includes}
use gen_xtaxi_ai.Chat.World.{
  Backends, World, M, user, system, LlmMessage, Completion, gateway_complete,
}
use gen_xtaxi_ai.Chat.Sessions.{
  Lookup, owned, not_owned, malformed_id, create, get, transcript, create_ticket, assign, resolve,
}
use gen_xtaxi_ai.Chat.Actions.{Decision, confirm}
use gen_xtaxi_ai.Chat.Replies.{message_of}
use gen_xtaxi_ai.Chat.Turn.{process_message}

-- `RolesGuard.canActivate`, where `false` is the `ForbiddenException`.
unfoldable pub can_activate : List Role → Option ChatUser → Bool
can_activate [] u = true
can_activate (r ∷ rs) none = false
can_activate (r ∷ rs) (some u) = includes (r ∷ rs) u.role

abbrev role_of : Option String → Option Role
role_of none = none
role_of (some s) =
    if str_eq s "passenger"
    then some passenger
    else if str_eq s "driver"
    then some driver
    else if str_eq s "admin"
    then some admin
    else none

-- What the handlers answer; `not_found` is the `NotFoundException` of a session, and `cast_error` what
-- the filter answers 500 to.
pub data Reply (A : Type 0) : Type 0 where
  found : A → Reply A
  not_found : Reply A
  cast_error : Reply A

abbrev context : ChatUser → String → ToolContext
context u id = record { user = u; session_id = id }

module _ (b : Backends) where
  -- `dto.lang ?? user.preferredLang ?? 'fr'`
  abbrev language : Option String → Option String → String
  language (some lang) preferred = lang
  language none (some lang) = lang
  language none none = "fr"

  unfoldable pub create_session :
      Option String → Option String → Option String → ChatUser → World b → String × World b
  create_session lang preferred topic u w =
      create b
        (record {
          user_id = u.user_id;
          role = u.role;
          lang = language lang preferred;
          status = active;
          topic = topic;
          last_activity_at = b.now w.outside;
        })
        w

  abbrev pub if_owned :
      {A : Type 0} → Lookup → (Session → World b → A × World b) → World b → Reply A × World b
  if_owned not_owned act w = (not_found, w)
  if_owned malformed_id act w = (cast_error, w)
  if_owned (owned s) act w = let (a, v) = act s w in (found a, v)

  unfoldable pub message : String → Text → ChatUser → World b → Reply (List StreamEvent) × World b
  message id content u w =
      if_owned (get b id u.user_id w) (λ s. process_message b (context u id) s.lang content) w

  unfoldable pub get_transcript :
      String → ChatUser → World b → Reply (List (String × Message)) × World b
  get_transcript id u w = if_owned (get b id u.user_id w) (λ s v. (transcript b id v, v)) w

  unfoldable pub confirm_action :
      String → String → Decision → ChatUser → World b → Reply (Result (Option Json)) × World b
  confirm_action id tool_call_id decision u w =
      if_owned (get b id u.user_id w) (λ s. confirm b (context u id) tool_call_id decision) w

  unfoldable pub escalate_session :
      String → Text → Option Text → ChatUser → World b → Reply String × World b
  escalate_session id summary priority u w =
      if_owned (get b id u.user_id w)
        (λ s. create_ticket b (record {
          session_id = id;
          user_id = u.user_id;
          priority = elim priority [ none ↦ codes "normal" | some p ↦ p ];
          status = open_ticket;
          assignee_id = none;
          summary = summary;
          category = "question";
          csat_score = none;
          resolved_at = none;
        }))
        w

  abbrev sender_text : Sender → Text
  sender_text from_user = codes "user"
  sender_text from_assistant = codes "assistant"
  sender_text from_tool = codes "tool"

  abbrev is_turn : String × Message → Bool
  is_turn (_, m) = elim m.sender [ from_tool ↦ false | _ ↦ true ]

  -- `.map(…).join('\n')`
  abbrev joined : List (String × Message) → Text
  joined [] = []
  joined ((_, m) ∷ []) = sender_text m.sender ++ codes ": " ++ m.content
  joined ((_, m) ∷ e ∷ es) = sender_text m.sender ++ codes ": " ++ m.content ++ 10 ∷ joined (e ∷ es)

  abbrev draft_prompt : Text → List LlmMessage
  draft_prompt convo =
      record {
        role = system;
        content =
            codes
              "You draft a concise, empathetic reply for a HUMAN support agent to review before sending. "
            ++ codes "Do not invent prices or policy.";
      }
      ∷ record {
        role = user;
        content =
            codes "Conversation so far:"
            ++ 10 ∷ convo
            ++ 10 ∷ 10 ∷ codes "Draft the agent's next reply:";
      }
      ∷ []

  unfoldable pub suggested_reply : String → ChatUser → M b Completion
  suggested_reply id u w =
      gateway_complete b u.token (draft_prompt (joined (keep is_turn (transcript b id w)))) false w

  -- A malformed identifier of a ticket throws, and changes no more than an unknown one does.
  unfoldable pub assign_ticket : String → ChatUser → World b → World b
  assign_ticket id u w = assign b id u.user_id w

  unfoldable pub resolve_ticket : String → Option ℕ → World b → World b
  resolve_ticket id csat_score w = resolve b id csat_score w

-- The payload of a token, once its signature was checked.
pub record JwtPayload : Type 0 where
  pub id : Option String
  pub sub : Option String
  pub role : Option String

abbrev pub or_sub : Option String → Option String → Option String
or_sub none o = o
or_sub (some id) o = some id

abbrev not_blank : Option String → Option String
not_blank none = none
not_blank (some s) = if str_eq s "" then none else some s

abbrev user_of : Option String → Option Role → String → Option ChatUser
user_of (some id) (some role) token = some (record { user_id = id; role = role; token = token })
user_of _ _ token = none

-- `JwtStrategy.validate`, where `none` is the `UnauthorizedException`; `bearer` is the header without
-- its `Bearer `.
unfoldable pub validate : String → JwtPayload → Option ChatUser
validate bearer payload =
    user_of (not_blank (or_sub payload.id payload.sub)) (role_of payload.role) bearer

-- The status and the message of an answer to what was thrown.
unfoldable pub error_answer : Error → ℕ × Text
error_answer e = (code_status (error_code e), message_of e)
