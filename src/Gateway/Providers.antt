-- ===== src/Gateway/Providers.antt =====
-- ai-gateway's providers of completions: providers/groq.provider.ts and providers/anthropic.provider.ts,
-- without the streams. The calls of the vendors' SDKs are parameters, which may throw, and so is
-- JSON.parse.
pub mod Laws
use gen_xtaxi_ai.Common.{
  ℕ, zero, suc, ◌+◌, ◌-◌, ◌%◌, String, str_eq, Bool, true, false, ◌||◌, Option, none, some, List,
  [], ◌∷◌, ◌++◌, map, keep, length, ◌==◌, if◌then◌else◌,
}
use gen_xtaxi_ai.Common.Int.{ℤ, pos, negsuc, ◌+ℤ◌, ◌*ℤ◌}
use gen_xtaxi_ai.Common.Number.{Fraction, Number, finite, whole}
use gen_xtaxi_ai.Common.Text.{Text}
use gen_xtaxi_ai.Common.Double.{divide}
use gen_xtaxi_ai.Gateway.{Tried, answered, failed}
use gen_xtaxi_ai.Gateway.Calls.{
  ChatRole, system, user, assistant, tool, ChatMessage, ProposedToolCall, TokenUsage,
  LlmCompletionResult,
}
use gen_xtaxi_ai.Json.{Json, obj, end}

pub record ToolDefinition : Type 0 where
  pub name : String
  pub description : String
  pub parameters : Json

pub record LlmCompletionParams : Type 0 where
  pub messages : List ChatMessage
  pub model : String
  pub temperature : Option Number
  pub max_tokens : Option ℕ
  pub tools : Option (List ToolDefinition)
  pub json : Bool

-- The double nearest to 0.2.
abbrev default_temperature : Number
default_temperature = finite (record { num = pos 3602879701896397; below = 18014398509481983 })

abbrev or_default {ℓ} : {A : Type ℓ} → A → Option A → A
or_default a none = a
or_default a (some b) = b

pub record GroqMessage : Type 0 where
  pub role : ChatRole
  pub content : Text
  pub tool_call_id : Option String

pub record GroqRequest : Type 0 where
  pub model : String
  pub temperature : Number
  pub max_tokens : Option ℕ
  pub messages : List GroqMessage
  pub tools : Option (List ToolDefinition)
  pub json_object : Bool

pub record GroqToolCall : Type 0 where
  pub id : String
  pub name : String
  pub arguments : Text

pub record GroqChoice : Type 0 where
  pub content : Option Text
  pub tool_calls : Option (List GroqToolCall)
  pub finish_reason : Option String

-- With no choice the provider throws.
pub record GroqResponse : Type 0 where
  pub choice : Option GroqChoice
  pub usage : Option TokenUsage
  pub model : String

abbrev no_usage : TokenUsage
no_usage = record { input_tokens = 0; output_tokens = 0 }

module _ {E S : Type 0} (parse : Text → Option Json) (no_choice : E)
    (create : GroqRequest → S → Tried GroqResponse E × S) where
  -- `safeParse`
  unfoldable pub safe_parse : Text → Json
  safe_parse raw = or_default (obj end) (parse raw)

  -- `...(m.toolCallId ? { tool_call_id: m.toolCallId } : {})`
  abbrev set_id : Option String → Option String
  set_id none = none
  set_id (some id) = if str_eq id "" then none else some id

  abbrev groq_message : ChatMessage → GroqMessage
  groq_message m = record {
    role = m.role;
    content = m.content;
    tool_call_id = set_id m.tool_call_id;
  }

  abbrev pub groq_request : LlmCompletionParams → GroqRequest
  groq_request p = record {
    model = p.model;
    temperature = or_default default_temperature p.temperature;
    max_tokens = p.max_tokens;
    messages = map groq_message p.messages;
    tools = p.tools;
    json_object = p.json;
  }

  abbrev proposed : GroqToolCall → ProposedToolCall
  proposed c = record { id = c.id; name = c.name; arguments = safe_parse c.arguments }

  abbrev groq_result : GroqResponse → Option GroqChoice → Tried LlmCompletionResult E
  groq_result r none = failed no_choice
  groq_result r (some c) = answered (record {
    content = or_default [] c.content;
    tool_calls = map proposed (or_default [] c.tool_calls);
    usage = or_default no_usage r.usage;
    model = r.model;
    finish_reason = or_default "stop" c.finish_reason;
  })

  abbrev groq_tried : Tried GroqResponse E → Tried LlmCompletionResult E
  groq_tried (answered r) = groq_result r r.choice
  groq_tried (failed e) = failed e

  unfoldable pub groq_complete : LlmCompletionParams → S → Tried LlmCompletionResult E × S
  unfolding safe_parse
  groq_complete p s = (groq_tried (create (groq_request p) s).0, (create (groq_request p) s).1)

pub record AnthropicRequest : Type 0 where
  pub model : String
  pub max_tokens : ℕ
  pub temperature : Number
  pub system : Option Text
  pub messages : List (ChatRole × Text)

-- A block of the content: its text, or another kind of block.
pub data Block : Type 0 where
  text_block : Text → Block
  other_block : Block

pub record AnthropicResponse : Type 0 where
  pub content : List Block
  pub usage : TokenUsage
  pub model : String
  pub stop_reason : Option String

abbrev pub is_system : ChatMessage → Bool
is_system m = elim m.role [ system ↦ true | _ ↦ false ]

abbrev pub is_turn : ChatMessage → Bool
is_turn m = elim m.role [ user ↦ true | assistant ↦ true | _ ↦ false ]

-- `join('\n')`
abbrev pub join_lines : List Text → Text
join_lines [] = []
join_lines (t ∷ []) = t
join_lines (t ∷ u ∷ ts) = t ++ 10 ∷ join_lines (u ∷ ts)

-- `text || undefined`
abbrev filled : Text → Option Text
filled [] = none
filled (c ∷ s) = some (c ∷ s)

abbrev text_of : List Block → Text
text_of [] = []
text_of (text_block t ∷ bs) = t ++ text_of bs
text_of (other_block ∷ bs) = text_of bs

unfoldable pub anthropic_request : LlmCompletionParams → AnthropicRequest
anthropic_request p = record {
  model = p.model;
  max_tokens = or_default 1024 p.max_tokens;
  temperature = or_default default_temperature p.temperature;
  system = filled (join_lines (map (λ m. m.content) (keep is_system p.messages)));
  messages = map (λ m. (m.role, m.content)) (keep is_turn p.messages);
}

module _ {E S : Type 0} (create : AnthropicRequest → S → Tried AnthropicResponse E × S) where
  abbrev anthropic_tried : Tried AnthropicResponse E → Tried LlmCompletionResult E
  anthropic_tried (answered r) = answered (record {
    content = text_of r.content;
    tool_calls = [];
    usage = r.usage;
    model = r.model;
    finish_reason = or_default "end_turn" r.stop_reason;
  })
  anthropic_tried (failed e) = failed e

  unfoldable pub anthropic_complete : LlmCompletionParams → S → Tried LlmCompletionResult E × S
  unfolding anthropic_request
  anthropic_complete p s =
      (anthropic_tried (create (anthropic_request p) s).0, (create (anthropic_request p) s).1)
