-- ===== src/Gateway/Providers/Laws.antt =====
-- What reaches Anthropic of a conversation.
use gen_xtaxi_ai.Common.{◌≡◌, refl, Bool, true, false, not, Option, List, keep}
use gen_xtaxi_ai.Common.Lemmas.{keep-keep}
use gen_xtaxi_ai.Gateway.Calls.{ChatRole, system, user, assistant, tool, ChatMessage}
use gen_xtaxi_ai.Gateway.Providers.{
  ToolDefinition, LlmCompletionParams, is_system, is_turn, anthropic_request,
}

abbrev pub is_tool : ChatMessage → Bool
is_tool m = elim m.role [ tool ↦ true | _ ↦ false ]

system_no_tool :
    (r : ChatRole)
    → (elim r [ system ↦ true | _ ↦ false ]) ≡ true
    → (elim r [ tool ↦ true | _ ↦ false ]) ≡ false
system_no_tool system h = refl
system_no_tool user h = refl
system_no_tool assistant h = refl
system_no_tool tool h = cc h

turn_no_tool :
    (r : ChatRole)
    → (elim r [ user ↦ true | assistant ↦ true | _ ↦ false ]) ≡ true
    → (elim r [ tool ↦ true | _ ↦ false ]) ≡ false
turn_no_tool system h = refl
turn_no_tool user h = refl
turn_no_tool assistant h = refl
turn_no_tool tool h = cc h

-- The request to Anthropic is the same without the results of tools, and whatever tools are offered.
pub anthropic_request_lem :
    (p : LlmCompletionParams) (tools : Option (List ToolDefinition))
    → anthropic_request p
      ≡ anthropic_request
          (record p { messages = keep (λ m. not (is_tool m)) p.messages; tools = tools })
unfolding anthropic_request
anthropic_request_lem p tools =
    rw
      (
        keep-keep is_system (λ m. not (is_tool m)) p.messages
            (λ m h. rw (system_no_tool m.role h) refl),
        keep-keep is_turn (λ m. not (is_tool m)) p.messages
            (λ m h. rw (turn_no_tool m.role h) refl),
      )
      refl
