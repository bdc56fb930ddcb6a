-- ===== src/Gateway/Prompts/Tests.antt =====
-- Prompts on concrete documents.
use gen_xtaxi_ai.Common.{ℕ, ◌≡◌, refl, true, false, none, some, List, [], ◌∷◌, find}
use gen_xtaxi_ai.Common.Text.{codes, span, text_eq}
use gen_xtaxi_ai.Gateway.{chat}
use gen_xtaxi_ai.Gateway.Prompts.{
  PromptTemplate, PromptStatus, draft, published, is_at, is_published, publish, resolve_published,
  render, pieces_from, variable_at,
}
use gen_xtaxi_ai.Gateway.Prompts.Laws.{resolve_published-publish}

abbrev prompt : ℕ → PromptStatus → PromptTemplate
prompt version status = record {
  key = "chatbot.system";
  version = version;
  task = chat;
  content = codes "Hello {name}";
  variables = codes "name" ∷ [];
  status = status;
  created_by = none;
  published_at = none;
}

abbrev two_prompts : List PromptTemplate
two_prompts = prompt 1 published ∷ prompt 2 draft ∷ []

resolve_published-publish_example :
    let out = publish 7 "chatbot.system" 2 two_prompts in
    ((find (is_at "chatbot.system" 2) two_prompts ≡ none) → out ≡ (none, two_prompts))
    × ((target : PromptTemplate)
        → find (is_at "chatbot.system" 2) two_prompts ≡ some target
        → (is_published target.status ≡ false
            → resolve_published "chatbot.system" out.1
              ≡ some (record target { status = published; published_at = some 7 }))
          × (is_published target.status ≡ true → resolve_published "chatbot.system" out.1 ≡ none))
resolve_published-publish_example = resolve_published-publish 7 "chatbot.system" 2 two_prompts

-- The published version is published again.
again : resolve_published "chatbot.system" (publish 7 "chatbot.system" 1 two_prompts).1 ≡ none
unfolding publish resolve_published
again = refl

greeting :
    render (λ n. none) (codes "Hello {name}!") ((codes "name", codes "Ali") ∷ [])
    ≡ codes "Hello Ali!"
unfolding render pieces_from variable_at codes span text_eq
greeting = refl

-- A name that every object inherits is no variable, and is replaced all the same.
inherits : render (λ n. some (codes "function")) (codes "{constructor}") [] ≡ codes "function"
unfolding render pieces_from variable_at codes span
inherits = refl
