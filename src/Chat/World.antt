-- ===== src/Chat/World.antt =====
-- The state that a request of chat-orchestrator works on, the services behind it, and the clients of
-- src/gateway-client. What the model, the backend, Redis, MongoDB, the clock and JavaScript's own
-- conversions do is a parameter, `Backends`; a call of a database does not fail.
use gen_xtaxi_ai.Common.{
  ℕ, String, ◌≡◌, refl, ◌⊎◌, inl, inr, Bool, true, false, Option, none, some, List, [], ◌∷◌, ◌++◌,
}
use gen_xtaxi_ai.Common.Int.{pos}
use gen_xtaxi_ai.Common.Number.{Fraction, Number, whole}
use gen_xtaxi_ai.Common.Text.{Text, codes}
use gen_xtaxi_ai.Json.{Json, Fields, null, num, str, obj, get}
use gen_xtaxi_ai.Ports.{Collection, Redis, Counters}
use gen_xtaxi_ai.Chat.Types.{
  Method, PendingAction, Error, gateway_unavailable, other, Result, ok, err, Message, Session,
  Ticket, Refund,
}

-- What `fetch` comes to: it throws, or there is a response, with a status that is an error or not.
pub data Fetched (E A : Type 0) : Type 0 where
  failed : Text → Fetched E A
  refused : ℕ → E → Fetched E A
  answered : A → Fetched E A

pub data ChatRole : Type 0 where
  system user assistant : ChatRole

pub record LlmMessage : Type 0 where
  pub role : ChatRole
  pub content : Text

pub record ToolCall : Type 0 where
  pub id : String
  pub name : String
  pub arguments : Fields

-- `GatewayCompletion`; the finish reason and the model are not read.
pub record Completion : Type 0 where
  pub content : Text
  pub tool_calls : List ToolCall
  pub output_tokens : ℕ

-- The values in Redis: a pending action, or the mark of a submitted one.
pub data Stored : Type 0 where
  pending : PendingAction → Stored
  submitted : Stored

pub record CoreCall : Type 0 where
  pub method : Method
  pub path : Text
  pub token : String
  pub body : Option Json

pub record Backends : Type 1 where
  pub sessions : Collection Session
  pub messages : Collection Message
  pub tickets : Collection Ticket
  pub refunds : Collection Refund
  pub redis : Redis Stored
  pub counters : Counters
  -- Everything else outside of the service.
  pub Outside : Type 0
  pub core_fetch : CoreCall → Outside → Fetched (Option Json) (Option Json) × Outside
  -- The messages, and whether the tools are offered.
  pub complete_fetch : String → List LlmMessage → Bool → Outside → Fetched Text Completion × Outside
  pub kb_fetch : String → Text → String → Outside → Fetched Text (List Text) × Outside
  -- Whether an identifier of a request is one that mongoose can cast to an ObjectId.
  pub is_object_id : String → Bool
  pub uuid : Outside → String × Outside
  pub now : Outside → ℕ
  pub today : Outside → String
  -- The double nearest to a fraction.
  pub round : Fraction → Number
  -- `String(v)` and `Number(v)` where `v` is no string, and no number; `JSON.stringify`, and
  -- `JSON.parse` with `none` for what it throws.
  pub show : Json → Text
  pub to_number : Json → Number
  pub stringify : Json → Text
  pub parse : Text → Option Json
  -- The configuration: CONFIRM_TTL_SECONDS, MAX_TOOL_HOPS, SESSION_CONTEXT_TURNS, and the system
  -- prompt for a market and a language.
  pub confirm_ttl : ℕ
  pub max_hops : ℕ
  pub context_turns : ℕ
  pub system_prompt : String → Text

-- `CoreResult`
pub record CoreResult : Type 0 where
  pub is_ok : Bool
  pub content : Option Json
  pub error : Option Text

abbrev from_obj : Option Json → Option Fields
from_obj (some (obj fs)) = some fs
from_obj _ = none

-- `json?.[key]`
abbrev pub field_of : String → Option Json → Option Json
field_of key j = elim (from_obj j) [ none ↦ none | some fs ↦ get key fs ]

-- `v ?? d`
abbrev pub or_default : Option Json → Option Json → Option Json
or_default none d = d
or_default (some null) d = d
or_default (some v) d = some v

module _ (b : Backends) where
  pub record World : Type 0 where
    pub sessions : b.sessions.State
    pub messages : b.messages.State
    pub tickets : b.tickets.State
    pub refunds : b.refunds.State
    pub redis : b.redis.State
    pub counters : b.counters.State
    pub outside : b.Outside
    -- The calls of the backend so far, for statements to speak of.
    pub sent : List CoreCall

  -- A step that may throw; what was written before stays written.
  abbrev pub M : Type 0 → Type 0
  M A = World → Result A × World

  -- `String(v)` and `${v}`
  abbrev pub to_text : Option Json → Text
  to_text none = codes "undefined"
  to_text (some (str t)) = t
  to_text (some v) = b.show v

  abbrev message_or : ℕ → Option Json → Text
  message_or status none = codes "HTTP " ++ b.show (num (whole (pos status)))
  message_or status (some v) = to_text (some v)

  -- The outcome of `CoreBackendClient.request`, which does not throw.
  unfoldable pub core_result : Fetched (Option Json) (Option Json) → CoreResult
  core_result (failed e) = record {
    is_ok = false;
    content = none;
    error = some (codes "core backend unavailable");
  }
  core_result (refused status json) =
      let message = or_default (field_of "message" json) none in
      record { is_ok = false; content = none; error = some (message_or status message) }
  core_result (answered json) = record {
    is_ok = true;
    content = or_default (field_of "data" json) json;
    error = none;
  }

  unfoldable pub core_request : CoreCall → World → CoreResult × World
  core_request call w =
      let (f, o) = b.core_fetch call w.outside in
      (core_result f, record w { outside = o; sent = w.sent ++ call ∷ [] })

  -- `AiGatewayClient.complete`
  unfoldable pub gateway_complete : String → List LlmMessage → Bool → M Completion
  gateway_complete token messages tools w =
      let (f, o) = b.complete_fetch token messages tools w.outside in
      let r : Result Completion = (elim f [
        | failed e ↦ err (other e)
        | refused status body ↦ err (gateway_unavailable status body)
        | answered c ↦ ok c
      ]) in
      (r, record w { outside = o })

  -- `AiGatewayClient.kbSearch`
  unfoldable pub kb_search : String → Text → String → M (List Text)
  kb_search token query lang w =
      let (f, o) = b.kb_fetch token query lang w.outside in
      let r : Result (List Text) = (elim f [
        | failed e ↦ err (other e)
        | refused status body ↦ ok []
        | answered c ↦ ok c
      ]) in
      (r, record w { outside = o })

-- Binding for steps that may throw.
infixl 5 ◌>>=◌
abbrev pub ◌>>=◌ : {b : Backends} {A B : Type 0} → M b A → (A → M b B) → M b B
◌>>=◌ m f w = let (r, w') = m w in elim r [ ok a ↦ f a w' | err e ↦ (err e, w') ]

-- What a bound step comes to: the error of the first, or the second.
pub >>=-cases :
    {b : Backends} {A B : Type 0} (m : M b A) (f : A → M b B) (w : World b)
    → ((e : Error) × (((m w).0 ≡ err e) × (◌>>=◌ {b = b} m f w ≡ (err e, (m w).1))))
      ⊎ ((a : A) × (((m w).0 ≡ ok a) × (◌>>=◌ {b = b} m f w ≡ f a (m w).1)))
>>=-cases m f w = go f (m w).0 (m w).1
  where
    go :
        {b : Backends} {A B : Type 0} (f : A → M b B) (r : Result A) (v : World b)
        → ((e : Error) × ((r ≡ err e) × (◌>>=◌ {b = b} (λ _. (r, v)) f v ≡ (err e, v))))
          ⊎ ((a : A) × ((r ≡ ok a) × (◌>>=◌ {b = b} (λ _. (r, v)) f v ≡ f a v)))
    go f (ok a) v = inr (a, (refl, refl))
    go f (err e) v = inl (e, (refl, refl))

abbrev pub pure : {b : Backends} {A : Type 0} → A → M b A
pure a w = (ok a, w)

abbrev pub throw : {b : Backends} {A : Type 0} → Error → M b A
throw e w = (err e, w)

-- A step that cannot throw.
abbrev pub lift : {b : Backends} {A : Type 0} → (World b → A × World b) → M b A
lift f w = let (a, w') = f w in (ok a, w')
