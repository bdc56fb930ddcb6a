-- ===== src/Gateway/Calls.antt =====
-- What ai-gateway's pipeline works on: redaction/redaction.service.ts, cost/pricing.service.ts, the
-- records of observability/observability.service.ts and metrics.service.ts, and the data of
-- ai/ai.service.ts. The engine of regular expressions is a parameter. The counts of tokens and prices
-- are integers.
use gen_xtaxi_ai.Common.{
  ℕ, zero, suc, ◌+◌, ◌*◌, ◌/◌, String, Option, none, some, List, [], ◌∷◌, ◌++◌,
}
use gen_xtaxi_ai.Common.Text.{Text}
use gen_xtaxi_ai.Gateway.{AiTask, ModelRoute}
use gen_xtaxi_ai.Json.{Json}

-- `RedactionService`

-- The patterns, by their types, in their order.
pub data Pii : Type 0 where
  card_pan phone gps email : Pii

abbrev pub patterns : List Pii
patterns = card_pan ∷ phone ∷ gps ∷ email ∷ []

pub record RedactionResult : Type 0 where
  pub text : Text
  pub redactions : List (Pii × ℕ)

-- `replace_all` gives how often a pattern matches, and the text with its replacement there.
module _ (replace_all : Pii → Text → ℕ × Text) where
  abbrev redacted : Pii → ℕ × Text → RedactionResult → RedactionResult
  redacted type (zero, replaced) r = r
  redacted type (suc n, replaced) r = record {
    text = replaced;
    redactions = r.redactions ++ (type, suc n) ∷ [];
  }

  abbrev scrub_from : List Pii → RedactionResult → RedactionResult
  scrub_from [] r = r
  scrub_from (p ∷ ps) r = scrub_from ps (redacted p (replace_all p r.text) r)

  unfoldable pub scrub : Text → RedactionResult
  scrub text = scrub_from patterns (record { text = text; redactions = [] })

-- `PricingService`

pub record TokenUsage : Type 0 where
  pub input_tokens : ℕ
  pub output_tokens : ℕ

pub record Price : Type 0 where
  pub amount : ℕ
  pub currency : String
  pub usd_micros : ℕ

abbrev or_free : Option ℕ → ℕ
or_free none = 0
or_free (some cents) = cents

-- `Math.round` of a quotient of whole numbers takes a half upwards.
unfoldable pub price : ModelRoute → TokenUsage → Price
price r usage =
    let raw =
      usage.input_tokens * or_free r.input_price_per_million_usd
      + usage.output_tokens * or_free r.output_price_per_million_usd in
    let usd_micros = (raw + 50) / 100 in
    record { amount = (usd_micros + 5000) / 10000; currency = "USD"; usd_micros = usd_micros }

-- `ObservabilityService` and `MetricsService`

pub record AiCallRecord : Type 0 where
  pub trace_id : String
  pub user_id : String
  pub role : String
  pub feature : String
  pub model : String
  pub prompt_version : Option String
  pub input_tokens : ℕ
  pub output_tokens : ℕ
  pub cost : Option Price
  pub latency_ms : ℕ
  pub tool_calls : List String
  pub outcome : String

-- A change of a counter, by its labels, or an observation of a histogram.
pub data Metric : Type 0 where
  requests : String → String → String → Metric
  tokens : String → String → String → ℕ → Metric
  cost : String → String → ℕ → Metric
  latency : String → String → ℕ → Metric

abbrev pub micros_of : Option Price → ℕ
micros_of none = 0
micros_of (some p) = p.usd_micros

abbrev pub metrics_of : AiCallRecord → List Metric
metrics_of r =
    requests r.feature r.model r.outcome
    ∷ tokens r.feature r.model "input" r.input_tokens
    ∷ tokens r.feature r.model "output" r.output_tokens
    ∷ cost r.feature r.model (micros_of r.cost)
    ∷ latency r.feature r.model r.latency_ms
    ∷ []

-- `AiService`: what its calls are given and give.

pub data ChatRole : Type 0 where
  system user assistant tool : ChatRole

pub record ChatMessage : Type 0 where
  pub role : ChatRole
  pub content : Text
  pub tool_name : Option String
  pub tool_call_id : Option String

pub record ProposedToolCall : Type 0 where
  pub id : String
  pub name : String
  pub arguments : Json

pub record LlmCompletionResult : Type 0 where
  pub content : Text
  pub tool_calls : List ProposedToolCall
  pub usage : TokenUsage
  pub model : String
  pub finish_reason : String

pub record AuthenticatedUser : Type 0 where
  pub user_id : String
  pub role : String

-- `Rest` holds the tools, the temperature, the limit of tokens and the format, which are handed on.
pub record CompleteRequest (Rest : Type 0) : Type 0 where
  pub task : AiTask
  pub messages : List ChatMessage
  pub rest : Rest
  pub prompt_version : Option String
  pub feature : String

pub record Completion : Type 0 where
  pub result : LlmCompletionResult
  pub cost : Price
  pub latency_ms : ℕ
  pub trace_id : String

pub record EmbeddingResult (Vectors : Type 0) : Type 0 where
  pub vectors : Vectors
  pub model : String
  pub input_tokens : ℕ

pub data Answer (A E : Type 0) : Type 0 where
  answer : A → Answer A E
  over_budget : String → ℕ → Answer A E
  unavailable : String → Option E → Answer A E
