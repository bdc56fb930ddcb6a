-- ===== src/Chat/Replies.antt =====
-- The texts of `OrchestratorService` of src/orchestrator/orchestrator.service.ts: the fixed sentences, the
-- notes to the model, the messages of errors, and `tokenize`.
use gen_xtaxi_ai.Common.{
  String, str_eq, Bool, Option, none, some, List, [], ◌∷◌, ◌++◌, map, if◌then◌else◌,
}
use gen_xtaxi_ai.Common.Text.{Text, codes, is_space, trim}
use gen_xtaxi_ai.Json.{Json, Fields, str, obj, end, field}
use gen_xtaxi_ai.MoneyScan.{ScannedMoney}
use gen_xtaxi_ai.Grounding.{check}
use gen_xtaxi_ai.Common.Number.{Fraction, Number}
use gen_xtaxi_ai.Chat.Types.{
  Role, passenger, driver, admin, Error, unknown_tool, role_forbidden, missing_arg, unhandled_tool,
  already_submitted, action_failed, no_pending_action, gateway_unavailable, other, Result, ok, err,
  StreamEvent, token,
}
use gen_xtaxi_ai.Chat.World.{LlmMessage, system, Completion}

-- `text.match(/\S+\s*/g) ?? [text]`
unfoldable pub pieces_from : Text → Text → Text → List Text
pieces_from [] [] [] = []
pieces_from [] gap [] = []
pieces_from (c ∷ word) gap [] = ((c ∷ word) ++ gap) ∷ []
pieces_from [] gap (c ∷ s) =
    let skip = pieces_from [] [] s in
    let take = pieces_from (c ∷ []) [] s in if is_space c then skip else take
pieces_from (d ∷ word) gap (c ∷ s) =
    let grow_gap = pieces_from (d ∷ word) (gap ++ c ∷ []) s in
    let grow_word = pieces_from (d ∷ word ++ c ∷ []) [] s in
    let next = ((d ∷ word) ++ gap) ∷ pieces_from (c ∷ []) [] s in
    if is_space c then grow_gap else (elim gap [ [] ↦ grow_word | _ ∷ _ ↦ next ])

abbrev pub or_whole : Text → List Text → List Text
or_whole text [] = text ∷ []
or_whole text (p ∷ ps) = p ∷ ps

unfoldable pub tokenize : Text → List Text
tokenize text = or_whole text (pieces_from [] [] text)

abbrev pub role_text : Role → Text
role_text passenger = codes "passenger"
role_text driver = codes "driver"
role_text admin = codes "admin"

abbrev pub or_text : Text → Option Text → Text
or_text d none = d
or_text d (some t) = t

-- `err.message`
unfoldable pub message_of : Error → Text
message_of (unknown_tool name) = codes "Unknown tool: " ++ codes name
message_of (role_forbidden role name) =
    codes "Role " ++ role_text role ++ codes " may not call " ++ codes name
message_of (missing_arg name arg) =
    codes "Tool " ++ codes name ++ codes " missing required arg: " ++ codes arg
message_of (unhandled_tool name) = codes "Unhandled tool: " ++ codes name
message_of already_submitted = codes "This action was already submitted"
message_of (action_failed cause) = or_text (codes "Action failed") cause
message_of no_pending_action = codes "No pending action to confirm (expired or already handled)"
message_of (gateway_unavailable status body) = codes "AI provider \"ai-gateway\" is unavailable"
message_of (other text) = text

abbrev pub system_message : Text → LlmMessage
system_message text = record { role = system; content = text }

abbrev pub error_note : String → Error → LlmMessage
error_note name e = system_message (
    codes "TOOL_ERROR["
    ++ codes name
    ++ codes "]: "
    ++ message_of e
    ++ codes ". Do not retry this tool; answer using policy context or ask a clarifying question.")

abbrev pub retry_note : LlmMessage
retry_note = system_message (
    codes "Your previous draft stated a monetary amount not present in a tool result. "
    ++ codes "Do NOT state any price or fee unless it came from a tool result. Regenerate.")

abbrev pub answer_note : LlmMessage
answer_note = system_message (
    codes "Answer the user now in plain text using the policy/context above and general knowledge. "
    ++ codes "Do NOT call any tool. "
    ++ codes "Do NOT state a specific price or fee unless it appeared in a tool result.")

abbrev pub cannot_quote : Text
cannot_quote =
    codes "I'm sorry — I can't quote that amount without checking. "
    ++ codes "Let me connect you to a teammate or you can ask me to fetch the exact figure."

abbrev pub get_teammate : Text
get_teammate = codes "Let me get a teammate to help you with this."

abbrev pub unavailable : Text
unavailable =
    codes "Our assistant is briefly unavailable. "
    ++ codes "You can still reach a human agent, or try again shortly."

abbrev pub outage_args : Fields
outage_args =
    field "summary" (str (codes "Auto-escalation during provider outage"))
      (field "priority" (str (codes "normal")) end)

abbrev pub error_data : Error → Json
error_data e = obj (field "error" (str (message_of e)) end)

abbrev pub is_escalation : String → Bool
is_escalation name = str_eq name "escalate_to_human"

abbrev pub tokens_of : Text → List StreamEvent
tokens_of text = map token (tokenize text)

-- `forced || …`
abbrev pub or_teammate : Text → Text
or_teammate [] = get_teammate
or_teammate (x ∷ s) = x ∷ s

-- A completion that failed or is not grounded leaves `forced` empty.
abbrev pub forced_text : (Fraction → Number) → List ScannedMoney → Result Completion → Text
forced_text round money (err e) = get_teammate
forced_text round money (ok c) =
    if (check round c.content money).grounded then or_teammate (trim c.content) else get_teammate
