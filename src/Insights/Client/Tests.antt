-- ===== src/Insights/Client/Tests.antt =====
-- The client where the gateway is down.
use gen_xtaxi_ai.Common.{ℕ, suc, ◌≡◌, refl, Option, none, List, [], ◌∷◌}
use gen_xtaxi_ai.Common.Text.{Text}
use gen_xtaxi_ai.Gateway.{summarize}
use gen_xtaxi_ai.Insights.Client.{Reply, unreachable, refused, CompleteBody, complete_json, embed}

abbrev down : CompleteBody → ℕ → Reply Text × ℕ
down body n = (refused 503, suc n)

no_prose : complete_json (λ t. none) down summarize [] "summarizer_summary" 0 ≡ (none, 1)
unfolding complete_json
no_prose = refl

abbrev away : List Text → ℕ → Reply (Option (List ℕ)) × ℕ
away texts n = (unreachable, suc n)

no_vectors : embed away ([] ∷ []) 0 ≡ ([], 1)
unfolding embed
no_vectors = refl

-- Without texts the gateway is not asked.
no_texts : embed away [] 0 ≡ ([], 0)
unfolding embed
no_texts = refl
