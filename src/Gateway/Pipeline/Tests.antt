-- ===== src/Gateway/Pipeline/Tests.antt =====
-- Calls of the pipeline on services in memory.
use gen_xtaxi_ai.Common.{ltb, if◌then◌else◌, ℕ, ◌+◌, String, ◌≡◌, none, List, [], ◌∷◌}
use gen_xtaxi_ai.Common.Text.{Text, codes}
use gen_xtaxi_ai.Gateway.{
  budget_key, within_budget, budget_exceeded, assert_within_budget, chat, Hop, Env, Tried, answered,
  failed,
}
use gen_xtaxi_ai.Gateway.Calls.{
  Pii, AiCallRecord, ChatMessage, user, LlmCompletionResult, AuthenticatedUser, CompleteRequest,
  EmbeddingResult, over_budget,
}
use gen_xtaxi_ai.Gateway.Pipeline.{World}
use gen_xtaxi_ai.Gateway.Pipeline.Laws.{
  Spends, Added, Books, complete_in, complete_request-Books, Call, completion, embedding, run_calls,
  run_calls-Books,
}
use gen_xtaxi_ai.Ports.Memory.{memory_counters}

abbrev env : Env
env = record {
  llm_chat_model = "large";
  llm_cheap_model = "small";
  anthropic_fallback_model = "other";
  embedding_provider = "local";
  embedding_model = "hash";
}

abbrev replace_all : Pii → Text → ℕ × Text
replace_all p text = (0, text)

-- Every provider answers with five tokens; the state counts the calls.
abbrev call : List ChatMessage → ℕ → Hop → ℕ → Tried LlmCompletionResult String × ℕ
call messages rest hop n = (
  answered (record {
    content = codes "hello";
    tool_calls = [];
    usage = record { input_tokens = 3; output_tokens = 2 };
    model = hop.model;
    finish_reason = "stop";
  }),
  n + 1,
)

abbrev embed_texts : List Text → ℕ → Tried (EmbeddingResult (List ℕ)) String × ℕ
embed_texts texts n = (failed "down", n + 1)

abbrev clock : ℕ → ℕ
clock n = n

-- Midnight comes after the second call.
abbrev day_of : ℕ → String
day_of n = if ltb n 2 then "2026-01-01" else "2026-01-02"

abbrev Gate : Type 0
Gate = World {Rest = ℕ} memory_counters 100 day_of env replace_all call embed_texts clock

abbrev fresh : Gate
fresh = record {
  counters = record { values = λ k. 0; ttls = λ k. none };
  logs = [];
  metrics = [];
  outside = 0;
}

abbrev req : CompleteRequest ℕ
req = record {
  task = chat;
  messages =
      record { role = user; content = codes "hi"; tool_name = none; tool_call_id = none } ∷ [];
  rest = 0;
  prompt_version = none;
  feature = "chatbot";
}

abbrev u : AuthenticatedUser
u = record { user_id = "u"; role = "passenger" }

complete_request-Books_example :
    let admission = assert_within_budget memory_counters 100 (day_of 0) "u" fresh.counters in
    let out =
      complete_in memory_counters 100 day_of env replace_all call embed_texts clock req u "t"
        fresh in
    ((admission ≡ budget_exceeded "u" 100) → out ≡ (over_budget "u" 100, fresh))
    × ((admission ≡ within_budget)
        → (r : AiCallRecord) × (r.user_id ≡ "u")
          × Books memory_counters 100 day_of env replace_all call embed_texts clock fresh out.1
              ((budget_key "u" (day_of (clock out.1.outside)), r) ∷ [])
          × Spends memory_counters 100 day_of env replace_all call embed_texts clock "u"
              (day_of (clock out.1.outside))
              r
              fresh
              out.1)
complete_request-Books_example =
    complete_request-Books memory_counters 100 day_of env replace_all call embed_texts clock req u
      "t" fresh

abbrev three_calls :
    List (Call {Rest = ℕ} memory_counters 100 day_of env replace_all call embed_texts clock)
three_calls =
    completion req u "t" ∷ embedding (codes "text" ∷ []) u "t" "rag" ∷ completion req u "t" ∷ []

run_calls-Books_example :
    Added memory_counters 100 day_of env replace_all call embed_texts clock fresh (
      run_calls memory_counters 100 day_of env replace_all call embed_texts clock three_calls fresh)
run_calls-Books_example =
    run_calls-Books memory_counters 100 day_of env replace_all call embed_texts clock three_calls
      fresh
