-- ===== src/Gateway.antt =====
-- ai-gateway: the daily token budget of budget.service.ts, the map from tasks to models of
-- task-model.config.ts, and the fallback chain of llm-router.service.ts. A call of a provider through
-- its circuit breaker is a parameter, and so is Redis.
pub mod Laws
pub mod Calls
pub mod Pipeline
pub mod Prompts
pub mod Chunker
pub mod Costs
pub mod Providers
pub mod Embeddings
pub mod Knowledge
mod Tests
use gen_xtaxi_ai.Common.{
  ℕ, ◌-◌, String, str_eq, Bool, true, false, ◌||◌, Option, none, some, List, [], ◌∷◌, leb, ◌==◌,
  if◌then◌else◌,
}
use gen_xtaxi_ai.Ports.{Counters}
use Prim.Native.String.{◌++◌ as str_append}

abbrev pub budget_key : String → String → String
budget_key user_id day = str_append "budget:" (str_append user_id (str_append ":" day))

pub data Admission : Type 0 where
  within_budget : Admission
  budget_exceeded : String → ℕ → Admission

module _ (c : Counters) (limit : ℕ) (today : String) where
  unfoldable pub assert_within_budget : String → c.State → Admission
  assert_within_budget user_id s =
      if leb limit (c.value (budget_key user_id today) s)
      then budget_exceeded user_id limit
      else within_budget

  -- The new total, with a whole number of tokens, as the providers count them.
  unfoldable pub consume : String → ℕ → c.State → ℕ × c.State
  consume user_id tokens s =
      let key = budget_key user_id today in
      let counted = c.incrby key tokens s in
      let total = c.value key counted in
      (total, if total == tokens then c.expire key 86400 counted else counted)

  -- `Math.max(0, limit - used)`
  unfoldable pub remaining : String → c.State → ℕ
  remaining user_id s = limit - c.value (budget_key user_id today) s

pub data AiTask : Type 0 where
  chat classify route lang_detect aspect_extraction summarize embedding : AiTask

-- A provider and a model.
pub record Hop : Type 0 where
  pub provider : String
  pub model : String

pub record ModelRoute : Type 0 where
  pub primary : Hop
  pub fallbacks : List Hop
  pub input_price_per_million_usd : Option ℕ
  pub output_price_per_million_usd : Option ℕ

pub record Env : Type 0 where
  pub llm_chat_model : String
  pub llm_cheap_model : String
  pub anthropic_fallback_model : String
  pub embedding_provider : String
  pub embedding_model : String

abbrev pub groq_chat : Env → Hop
groq_chat env = record { provider = "groq"; model = env.llm_chat_model }

abbrev pub groq_cheap : Env → Hop
groq_cheap env = record { provider = "groq"; model = env.llm_cheap_model }

abbrev pub anthropic_fallback : Env → Hop
anthropic_fallback env = record { provider = "anthropic"; model = env.anthropic_fallback_model }

abbrev unpriced : Hop → List Hop → ModelRoute
unpriced hop fallbacks = record {
  primary = hop;
  fallbacks = fallbacks;
  input_price_per_million_usd = none;
  output_price_per_million_usd = none;
}

unfoldable pub task_model_map : Env → AiTask → ModelRoute
task_model_map env chat = record {
  primary = groq_chat env;
  fallbacks = groq_cheap env ∷ anthropic_fallback env ∷ [];
  input_price_per_million_usd = some 59;
  output_price_per_million_usd = some 79;
}
task_model_map env classify = unpriced (groq_cheap env) (anthropic_fallback env ∷ [])
task_model_map env route = unpriced (groq_cheap env) []
task_model_map env lang_detect = unpriced (groq_cheap env) []
task_model_map env aspect_extraction = unpriced (groq_cheap env) (groq_chat env ∷ [])
task_model_map env summarize = unpriced (groq_chat env) (groq_cheap env ∷ [])
task_model_map env embedding =
    unpriced (record { provider = env.embedding_provider; model = env.embedding_model }) []

-- What `onModuleInit` registers.
abbrev pub is_registered : Hop → Bool
is_registered hop = str_eq hop.provider "groq" || str_eq hop.provider "anthropic"

pub data Tried (R E : Type 0) : Type 0 where
  answered : R → Tried R E
  failed : E → Tried R E

-- The message of the last error, or that every fallback is exhausted.
pub data Routed (R E : Type 0) : Type 0 where
  completed : R → Routed R E
  provider_unavailable : String → Option E → Routed R E

module _ {R E S : Type 0} (fire : Hop → S → Tried R E × S) where
  abbrev pub next : Tried R E → S → (Option E → S → Routed R E × S) → Routed R E × S
  next (answered r) s rest = (completed r, s)
  next (failed e) s rest = rest (some e) s

  unfoldable pub try_chain : String → List Hop → Option E → S → Routed R E × S
  try_chain provider [] last_error s = (provider_unavailable provider last_error, s)
  try_chain provider (hop ∷ hops) last_error s =
      let rest = try_chain provider hops in
      elim (is_registered hop) [
        | false ↦ rest last_error s
        | true ↦ next (fire hop s).0 (fire hop s).1 rest
      ]

  unfoldable pub complete : Env → AiTask → S → Routed R E × S
  complete env task s =
      let r = task_model_map env task in
      try_chain r.primary.provider (r.primary ∷ r.fallbacks) none s
