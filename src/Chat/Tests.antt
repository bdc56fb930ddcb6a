-- ===== src/Chat/Tests.antt =====
-- Runs on concrete services, and the theorems of this part at them.
use gen_xtaxi_ai.Common.{
  str_eq, eq_iff, true, false, not, ◌≤◌, ◌≡◌, refl, none, some, List, [], ◌∷◌, ◌++◌, arith, length,
}
use gen_xtaxi_ai.Common.Int.{pos}
use gen_xtaxi_ai.Common.Number.{finite, nan, whole}
use gen_xtaxi_ai.Common.Text.{Text, codes}
use gen_xtaxi_ai.Json.{Json, num, str, obj, end, field, get}
use gen_xtaxi_ai.MoneyScan.{scan_money}
use gen_xtaxi_ai.Ports.Memory.{memory_collection, memory_redis, memory_counters}
use gen_xtaxi_ai.Chat.Types.{
  passenger, ToolContext, Amount, PendingAction, result, post_method, core, ToolOutcome, Message,
  Session, active, Ticket, Refund, ok, err, already_submitted, no_pending_action,
}
use gen_xtaxi_ai.Chat.World.{
  core_request, core_result, Backends, World, LlmMessage, ToolCall, Completion, Stored, Fetched,
  failed, answered,
}
use gen_xtaxi_ai.Chat.Guard.{assert_allowed, first_missing}
use gen_xtaxi_ai.Chat.Tools.{execute, dispatch, get_ride_status}
use gen_xtaxi_ai.Chat.Tools.Allowed.{
  IsAllowed, Agrees, OnlyAsks, execute-IsAllowed, execute-OnlyAsks,
}
use gen_xtaxi_ai.Chat.Registry.{spec_by_name}
use gen_xtaxi_ai.Chat.Sessions.{recent_context}
use gen_xtaxi_ai.Chat.Sessions.Laws.{turns, recent_context_lem}
use gen_xtaxi_ai.Chat.Actions.{save, take, claim, commit, confirm, accept}
use gen_xtaxi_ai.Chat.Actions.Once.{commit_once, confirm-accept_sends, confirm_once}
use gen_xtaxi_ai.Chat.Http.{not_found, message, get_transcript, confirm_action, escalate_session}
use gen_xtaxi_ai.Chat.Http.Laws.{handlers_refuse}
use gen_xtaxi_ai.Chat.Turn.{received, prompt, process_message}
use gen_xtaxi_ai.Chat.Turn.Ends.{EndsOnce, process_message-EndsOnce}
use gen_xtaxi_ai.Chat.Turn.Harmless.{IsHarmless, process_message-IsHarmless}
use gen_xtaxi_ai.Chat.Turn.Grounded.{SaysOnly, found, process_message-says}

abbrev next_completion : List Completion → Fetched Text Completion × List Completion
next_completion [] = (failed (codes "fetch failed"), [])
next_completion (c ∷ cs) = (answered c, cs)

-- A backend that charges 500, and a model that answers by a script.
abbrev demo : Backends
demo = record {
  sessions = memory_collection Session;
  messages = memory_collection Message;
  tickets = memory_collection Ticket;
  refunds = memory_collection Refund;
  redis = memory_redis Stored;
  counters = memory_counters;
  Outside = List Completion;
  core_fetch = λ c o. (
    answered (
        some (
          obj (field "amount" (num (whole (pos 500))) (field "currency" (str (codes "USD")) end)))),
    o,
  );
  complete_fetch = λ t m tools o. next_completion o;
  kb_fetch = λ t q l o. (answered [], o);
  is_object_id = λ id. not (str_eq id "");
  uuid = λ o. ("key", o);
  now = λ o. 100;
  today = λ o. "2026-01-01";
  round = λ f. finite f;
  show = λ v. [];
  to_number = λ v. nan;
  stringify = λ v. [];
  parse = λ t. none;
  confirm_ttl = 900;
  max_hops = 3;
  context_turns = 2;
  system_prompt = λ l. codes "You are a support assistant.";
}

abbrev rider : ToolContext
rider = record {
  user = record { user_id = "u1"; role = passenger; token = "t" };
  session_id = "s1";
}

abbrev booking : ToolCall
booking = record {
  id = "c1";
  name = "book_ride";
  arguments =
      field "pickup" (str (codes "1,2"))
        (field "dropoff" (str (codes "3,4")) (field "ride_type" (str (codes "Luxury")) end));
}

abbrev script : List Completion
script = record { content = []; tool_calls = booking ∷ []; output_tokens = 1 } ∷ []

abbrev empty_world : World demo
empty_world = record {
  sessions = [];
  messages = [];
  tickets = [];
  refunds = [];
  redis = λ k. none;
  counters = record { values = λ k. 0; ttls = λ k. none };
  outside = script;
  sent = [];
}

abbrev ask : Text
ask = codes "Book me a ride"

abbrev cancel_action : PendingAction
cancel_action = record {
  tool = "cancel_ride";
  commit = core post_method (codes "/rides/r1/cancel") end;
  idempotency_key = "key";
}

abbrev saved : World demo
saved = save demo "s1" "c1" cancel_action empty_world

abbrev charge : Amount
charge = record { amount = some (finite (whole (pos 500))); currency = codes "USD" }

process_message-EndsOnce_example : EndsOnce (process_message demo rider "en" ask empty_world).0
process_message-EndsOnce_example = process_message-EndsOnce demo rider "en" ask empty_world

process_message-says_example :
    let (r, v) = received demo rider "en" ask empty_world in
    SaysOnly demo rider
      (prompt demo "s1" "en" ask (found demo r) v)
      v
      (process_message demo rider "en" ask empty_world).0
process_message-says_example = process_message-says demo rider "en" ask empty_world

process_message-IsHarmless_example :
    IsHarmless demo empty_world (process_message demo rider "en" ask empty_world).1
process_message-IsHarmless_example = process_message-IsHarmless demo rider "en" ask empty_world

execute-OnlyAsks_example :
    OnlyAsks demo empty_world (execute demo "book_ride" booking.arguments rider empty_world).1
execute-OnlyAsks_example = execute-OnlyAsks demo "book_ride" booking.arguments rider empty_world

abbrev fare : Json
fare = obj (field "amount" (num (whole (pos 500))) (field "currency" (str (codes "USD")) end))

abbrev ride_status : ToolOutcome
ride_status = result (some fare) (scan_money fare)

execute-IsAllowed_example :
    (a : IsAllowed "get_ride_status" end rider) × Agrees a.spec.requires_confirmation
      "get_ride_status"
      (ok ride_status)
unfolding execute assert_allowed spec_by_name first_missing dispatch get_ride_status core_request
    core_result get
execute-IsAllowed_example =
    execute-IsAllowed demo "get_ride_status" end rider empty_world ride_status refl

confirm-accept_sends_example :
    (confirm demo rider "c1" accept saved).1.sent
    ≡ saved.sent
      ++ record {
        method = post_method;
        path = codes "/rides/r1/cancel";
        token = "t";
        body = some (obj (field "idempotencyKey" (str (codes "key")) end));
      }
        ∷ []
unfolding take save
confirm-accept_sends_example =
    confirm-accept_sends demo rider "c1" saved cancel_action post_method (codes "/rides/r1/cancel")
      end refl refl

confirm_once_example :
    confirm demo rider "c1" accept (confirm demo rider "c1" accept saved).1
    ≡ (err no_pending_action, (confirm demo rider "c1" accept saved).1)
unfolding take save
confirm_once_example =
    confirm_once demo rider "c1" accept accept saved (confirm demo rider "c1" accept saved).1
      cancel_action refl refl

commit_once_example :
    commit demo cancel_action rider (claim demo "key" empty_world).1
    ≡ (err already_submitted, (claim demo "key" empty_world).1)
unfolding claim
commit_once_example =
    commit_once demo cancel_action rider empty_world (claim demo "key" empty_world).1 refl refl
      (omega arith) (omega arith)

recent_context_lem_example :
    (older : List LlmMessage) × ((turns demo "s1" empty_world
        ≡ older ++ recent_context demo "s1" empty_world)
      × (length (recent_context demo "s1" empty_world) ≤ 2)
      × (length (turns demo "s1" empty_world) ≤ 2
          → recent_context demo "s1" empty_world ≡ turns demo "s1" empty_world))
recent_context_lem_example = recent_context_lem demo 1 "s1" empty_world refl

abbrev of_another : World demo
of_another = record empty_world {
  sessions =
      (
        "s1",
        record {
          user_id = "u2";
          role = passenger;
          lang = "en";
          status = active;
          topic = none;
          last_activity_at = 0;
        },
      )
      ∷ [];
}

handlers_refuse_example :
    (message demo "s1" ask rider.user of_another ≡ (not_found, of_another))
    × (get_transcript demo "s1" rider.user of_another ≡ (not_found, of_another))
    × (confirm_action demo "s1" "c1" accept rider.user of_another ≡ (not_found, of_another))
    × (escalate_session demo "s1" ask none rider.user of_another ≡ (not_found, of_another))
handlers_refuse_example =
    handlers_refuse demo "s1" "c1" ask ask none accept rider.user of_another
      ((λ _ e. let h : false ≡ true = (eq_iff "u2" "u1").1 e in cc h), tt)
