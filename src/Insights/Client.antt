-- ===== src/Insights/Client.antt =====
-- insights-service's client of the gateway: gateway-client/ai-gateway.client.ts. `fetch` of each of the two
-- paths is a parameter, which gives what comes of a body, and so is JSON.parse.
mod Tests
use gen_xtaxi_ai.Common.{ℕ, String, Bool, true, false, Option, none, some, List, [], ◌∷◌}
use gen_xtaxi_ai.Common.Text.{Text}
use gen_xtaxi_ai.Gateway.{AiTask}
use gen_xtaxi_ai.Gateway.Calls.{ChatMessage}
use gen_xtaxi_ai.Json.{Json}

-- No answer, as after an error of the network; an answer that is not ok; one whose body is not JSON; and
-- a body.
pub data Reply (B : Type 0) : Type 0 where
  unreachable : Reply B
  refused : ℕ → Reply B
  unreadable : Reply B
  replied : B → Reply B

-- The body of a completion, which always asks for JSON.
pub record CompleteBody : Type 0 where
  pub task : AiTask
  pub messages : List ChatMessage
  pub feature : String

module _ {S : Type 0} (parse : Text → Option Json)
    (fetch_complete : CompleteBody → S → Reply Text × S) where
  abbrev parsed : Reply Text → Option Json
  parsed (replied content) = parse content
  parsed _ = none

  unfoldable pub complete_json : AiTask → List ChatMessage → String → S → Option Json × S
  complete_json task messages feature s =
      let (reply, after) =
        fetch_complete (record { task = task; messages = messages; feature = feature }) s in
      (parsed reply, after)

module _ {S Vector : Type 0} (fetch_embed : List Text → S → Reply (Option (List Vector)) × S) where
  -- `body.vectors ?? []`
  abbrev vectors_of : Reply (Option (List Vector)) → List Vector
  vectors_of (replied (some vs)) = vs
  vectors_of _ = []

  unfoldable pub embed : List Text → S → List Vector × S
  embed [] s = ([], s)
  embed (t ∷ ts) s = let (reply, after) = fetch_embed (t ∷ ts) s in (vectors_of reply, after)
