-- ===== src/Gateway/Tests.antt =====
-- The budget and the chain on concrete services.
use gen_xtaxi_ai.Common.{ℕ, ◌+◌, String, ◌≡◌, ◌↔◌, refl, none, ◌∷◌, if◌then◌else◌, str_eq}
use gen_xtaxi_ai.Ports.Memory.{Totals}
use gen_xtaxi_ai.Gateway.{
  Hop, Env, chat, task_model_map, Tried, answered, failed, completed, complete, try_chain,
}
use gen_xtaxi_ai.Gateway.Laws.{Served, complete-Served_iff}

abbrev fresh : Totals
fresh = record { values = λ k. 0; ttls = λ k. none }

abbrev env : Env
env = record {
  llm_chat_model = "large";
  llm_cheap_model = "small";
  anthropic_fallback_model = "other";
  embedding_provider = "local";
  embedding_model = "hash";
}

-- Only the small model is up; the state counts the calls.
abbrev only_small : Hop → ℕ → Tried String String × ℕ
only_small hop n = (if str_eq hop.model "small" then answered "hello" else failed "down", n + 1)

falls_back : complete only_small env chat 0 ≡ (completed "hello", 2)
unfolding complete try_chain task_model_map
falls_back = refl

complete-Served_iff_example :
    ((complete only_small env chat 0).0 ≡ completed "hello")
    ↔ Served only_small
        ((task_model_map env chat).primary ∷ (task_model_map env chat).fallbacks)
        0
        "hello"
complete-Served_iff_example = complete-Served_iff only_small env chat 0 "hello"
