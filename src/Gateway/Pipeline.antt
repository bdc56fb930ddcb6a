-- ===== src/Gateway/Pipeline.antt =====
-- ai-gateway's pipeline of a call, ai/ai.service.ts, which writes through `record` of
-- observability/observability.service.ts. The engine of regular expressions, the providers, the clock and
-- the UTC day of a time are parameters; the collection of logs and the metrics are lists, of what was written last at the end.
pub mod Entries
pub mod Laws
mod Tests
use gen_xtaxi_ai.Common.{
  ℕ, zero, suc, ◌+◌, ◌-◌, ◌*◌, ◌/◌, String, str_eq, Bool, true, false, Option, none, some, List, [],
  ◌∷◌, ◌++◌, map, if◌then◌else◌,
}
use gen_xtaxi_ai.Common.Text.{Text}
use gen_xtaxi_ai.Gateway.{
  Admission, within_budget, budget_exceeded, assert_within_budget, consume, AiTask, Hop, ModelRoute,
  Env, task_model_map, Tried, Routed, completed, provider_unavailable, complete,
}
use gen_xtaxi_ai.Gateway.Calls.{
  Pii, patterns, RedactionResult, scrub, TokenUsage, Price, price, AiCallRecord, Metric, micros_of,
  metrics_of, ChatRole, ChatMessage, ProposedToolCall, LlmCompletionResult, AuthenticatedUser,
  CompleteRequest, Completion, EmbeddingResult, Answer, system, user, assistant, tool, answer,
  over_budget, unavailable,
}
use gen_xtaxi_ai.Ports.{Counters}

module _ {Rest Vectors E S : Type 0} (c : Counters) (limit : ℕ) (day_of : ℕ → String) (env : Env)
    (replace_all : Pii → Text → ℕ × Text)
    (call : List ChatMessage → Rest → Hop → S → Tried LlmCompletionResult E × S)
    (embed_texts : List Text → S → Tried (EmbeddingResult Vectors) E × S) (clock : S → ℕ) where
  pub record World : Type 0 where
    pub counters : c.State
    pub logs : List AiCallRecord
    pub metrics : List Metric
    pub outside : S

  -- `record`
  abbrev pub recorded : AiCallRecord → World → World
  recorded r w = record w { logs = w.logs ++ r ∷ []; metrics = w.metrics ++ metrics_of r }

  abbrev pub redact : ChatMessage → ChatMessage
  redact m = elim m.role [
    | system ↦ m
    | _ ↦ record m { content = (scrub replace_all m.content).text }
  ]

  abbrev log_of :
      CompleteRequest Rest → AuthenticatedUser → String → ℕ → LlmCompletionResult → AiCallRecord
  log_of req u trace_id latency_ms r = record {
    trace_id = trace_id;
    user_id = u.user_id;
    role = u.role;
    feature = req.feature;
    model = r.model;
    prompt_version = req.prompt_version;
    input_tokens = r.usage.input_tokens;
    output_tokens = r.usage.output_tokens;
    cost = some (price (task_model_map env req.task) r.usage);
    latency_ms = latency_ms;
    tool_calls = map (λ t. t.name) r.tool_calls;
    outcome =
        if str_eq r.model (task_model_map env req.task).primary.model
        then "success"
        else "fallback";
  }

  abbrev error_log : CompleteRequest Rest → AuthenticatedUser → String → ℕ → AiCallRecord
  error_log req u trace_id latency_ms = record {
    trace_id = trace_id;
    user_id = u.user_id;
    role = u.role;
    feature = req.feature;
    model = (task_model_map env req.task).primary.model;
    prompt_version = none;
    input_tokens = 0;
    output_tokens = 0;
    cost = none;
    latency_ms = latency_ms;
    tool_calls = [];
    outcome = "error";
  }

  abbrev pub spent : String → ℕ → World → World
  spent user_id n w = record w {
    counters = (consume c limit (day_of (clock w.outside)) user_id n w.counters).1;
  }

  -- What follows the router's answer.
  abbrev pub settled :
      CompleteRequest Rest
      → AuthenticatedUser
      → String
      → ℕ
      → Routed LlmCompletionResult E
      → World
      → Answer Completion E × World
  settled req u trace_id start (completed r) w =
      let latency_ms = clock w.outside - start in
      (
        answer (record {
          result = r;
          cost = price (task_model_map env req.task) r.usage;
          latency_ms = latency_ms;
          trace_id = trace_id;
        }),
        spent u.user_id (r.usage.input_tokens + r.usage.output_tokens)
            (recorded (log_of req u trace_id latency_ms r) w),
      )
  settled req u trace_id start (provider_unavailable provider e) w =
      (unavailable provider e, recorded (error_log req u trace_id (clock w.outside - start)) w)

  abbrev pub routed : CompleteRequest Rest → World → Routed LlmCompletionResult E × S
  routed req w = complete (call (map redact req.messages) req.rest) env req.task w.outside

  unfoldable pub complete_request :
      CompleteRequest Rest → AuthenticatedUser → String → World → Answer Completion E × World
  unfolding assert_within_budget scrub price consume complete task_model_map
  complete_request req u trace_id w =
      elim (assert_within_budget c limit (day_of (clock w.outside)) u.user_id w.counters) [
        | budget_exceeded who most ↦ (over_budget who most, w)
        | within_budget ↦
            settled req u trace_id (clock w.outside) (routed req w).0
              (record w { outside = (routed req w).1 })
      ]

  abbrev pub embedding_log :
      AuthenticatedUser → String → String → ℕ → EmbeddingResult Vectors → AiCallRecord
  embedding_log u trace_id feature latency_ms r = record {
    trace_id = trace_id;
    user_id = u.user_id;
    role = u.role;
    feature = feature;
    model = r.model;
    prompt_version = none;
    input_tokens = r.input_tokens;
    output_tokens = 0;
    cost = none;
    latency_ms = latency_ms;
    tool_calls = [];
    outcome = "success";
  }

  abbrev pub embedded :
      AuthenticatedUser
      → String
      → String
      → ℕ
      → Tried (EmbeddingResult Vectors) E
      → World
      → Answer Vectors E × World
  embedded u trace_id feature start (Tried.answered r) w = (
    answer r.vectors,
    spent u.user_id r.input_tokens
        (recorded (embedding_log u trace_id feature (clock w.outside - start) r) w),
  )
  embedded u trace_id feature start (Tried.failed e) w = (unavailable "embedding" (some e), w)

  unfoldable pub embed :
      List Text → AuthenticatedUser → String → String → World → Answer Vectors E × World
  unfolding assert_within_budget consume
  embed texts u trace_id feature w =
      elim (assert_within_budget c limit (day_of (clock w.outside)) u.user_id w.counters) [
        | budget_exceeded who most ↦ (over_budget who most, w)
        | within_budget ↦
            embedded u trace_id feature (clock w.outside) (embed_texts texts w.outside).0
              (record w { outside = (embed_texts texts w.outside).1 })
      ]
