-- ===== src/Chat/Tools.antt =====
-- `ToolExecutorService` of src/tools/tool-executor.service.ts up to the commit: the
-- tools that answer at once, and those that only propose an action.
pub mod Allowed
use gen_xtaxi_ai.Common.{
  ℕ, String, str_eq, Bool, true, false, not, ◌&&◌, ◌||◌, Option, none, some, List, [], ◌∷◌, ◌++◌,
  ◌==◌, if◌then◌else◌, find, is_some,
}
use gen_xtaxi_ai.Common.Number.{Fraction, Number, finite, nan, magnitude, is_negative}
use gen_xtaxi_ai.Common.Text.{Text, codes, to_upper}
use gen_xtaxi_ai.Json.{Json, Fields, null, bool, num, str, arr, obj, end, field, get}
use gen_xtaxi_ai.MoneyScan.{ScannedMoney, scan_money}
use gen_xtaxi_ai.Cards.{replace_cards}
use gen_xtaxi_ai.Chat.Types.{
  Role, ToolContext, ToolSpec, Amount, ActionCard, Method, get_method, post_method, Commit, core,
  refund_queue, PendingAction, ToolOutcome, result, action_card, Error, unknown_tool,
  role_forbidden, missing_arg, unhandled_tool, other, Result, ok, err, Ticket, open_ticket,
}
use gen_xtaxi_ai.Chat.Registry.{spec_by_name, includes}
use gen_xtaxi_ai.Chat.Guard.{
  is_missing, first_missing, assert_allowed, truthy, put, data_of, scan_opt, amount_of, first,
  option_map, to_list, scanned, needs_coordinates,
}
use gen_xtaxi_ai.Chat.Coords.{Place, parse_coords, place_json, is_raw}
use gen_xtaxi_ai.Chat.World.{
  Backends, World, M, CoreCall, CoreResult, or_default, to_text, core_request, ◌>>=◌, pure, throw,
  lift,
}

module _ (b : Backends) where
  abbrev arg_text : String → Fields → Text
  arg_text key args = to_text b (get key args)

  -- `String(args[key] ?? '')`
  abbrev pub arg_or_empty : String → Fields → Text
  arg_or_empty key args = to_text b (or_default (get key args) (some (str [])))

  abbrev pub get_call : ToolContext → Text → CoreCall
  get_call ctx path = record {
    method = get_method;
    path = path;
    token = ctx.user.token;
    body = none;
  }

  abbrev pub estimate_call : ToolContext → Place → Place → Option Json → CoreCall
  estimate_call ctx pickup dropoff ride_type = record {
    method = post_method;
    path = codes "/rides/estimate";
    token = ctx.user.token;
    body = some (
        obj (
          field "pickupCoords" (place_json pickup)
            (field "dropoffCoords" (place_json dropoff) (put "rideType" ride_type end))));
  }

  abbrev ride_path : Option Json → Text
  ride_path id = codes "/rides/" ++ to_text b id

  -- A result read from the backend.
  abbrev read_core : CoreCall → M b ToolOutcome
  read_core call = do
    res ← lift (core_request b call)
    pure (result (data_of res) (scan_opt (data_of res)))

  unfoldable pub get_fare_estimate : Fields → ToolContext → M b ToolOutcome
  get_fare_estimate args ctx =
      let pickup = parse_coords (arg_or_empty "pickup" args) in
      let dropoff = parse_coords (arg_or_empty "dropoff" args) in
      if is_raw pickup || is_raw dropoff
      then pure (result (some needs_coordinates) [])
      else read_core (estimate_call ctx pickup dropoff (get "ride_type" args))

  unfoldable pub get_ride_status : Fields → ToolContext → M b ToolOutcome
  get_ride_status args ctx =
      let id = get "ride_id" args in
      read_core (get_call ctx (if truthy id then ride_path id else codes "/rides/active"))

  -- The text of the data with the card numbers replaced, read again; what cannot be read throws.
  abbrev pub redact : Option Json → Result Json
  redact none = err (other (codes "Cannot read properties of undefined (reading 'replace')"))
  redact (some v) = elim (b.parse (replace_cards (b.stringify v))) [
    | none ↦ err (other (codes "Unexpected token in JSON"))
    | some w ↦ ok w
  ]

  unfoldable pub get_payment_history : ToolContext → M b ToolOutcome
  get_payment_history ctx = do
    res ← lift (core_request b (get_call ctx (codes "/wallet/history")))
    clean ← λ w. (redact (data_of res), w)
    pure (result (some clean) (scan_money clean))

  unfoldable pub explain_charge : Fields → ToolContext → M b ToolOutcome
  explain_charge args ctx = read_core (get_call ctx (ride_path (get "ride_id" args)))

  abbrev pub ticket_of : ToolContext → Text → Text → String → Ticket
  ticket_of ctx priority summary category = record {
    session_id = ctx.session_id;
    user_id = ctx.user.user_id;
    priority = priority;
    status = open_ticket;
    assignee_id = none;
    summary = summary;
    category = category;
    csat_score = none;
    resolved_at = none;
  }

  abbrev pub create_ticket : Ticket → World b → String × World b
  create_ticket t w =
      (b.tickets.next_id w.tickets, record w { tickets = b.tickets.create t w.tickets })

  unfoldable pub escalate : Fields → ToolContext → M b ToolOutcome
  escalate args ctx = do
    let priority = to_text b (or_default (get "priority" args) (some (str (codes "normal"))))
    let default = some (str (codes "User requested a human agent"))
    let summary = to_text b (or_default (get "summary" args) default)
    id ← lift (create_ticket (ticket_of ctx priority summary "question"))
    let data_json = obj (field "escalated" (bool true) (field "ticketId" (str (codes id)) end))
    pure (result (some data_json) [])

  abbrev next_uuid : World b → String × World b
  next_uuid w = let (k, o) = b.uuid w.outside in (k, record w { outside = o })

  unfoldable pub book_ride : Fields → ToolContext → M b ToolOutcome
  book_ride args ctx = do
    let pickup = parse_coords (arg_text "pickup" args)
    let dropoff = parse_coords (arg_text "dropoff" args)
    let scheduled = get "scheduled_at" args
    est ← lift (core_request b (estimate_call ctx pickup dropoff (get "ride_type" args)))
    let money = first (scan_opt est.content)
    key ← lift next_uuid
    let time_line =
        (if truthy scheduled then (codes "Scheduled: " ++ to_text b scheduled) ∷ [] else [])
    let body = field "pickup" (place_json pickup) (
        field "dropoff" (place_json dropoff) (
          put "rideType" (get "ride_type" args)
            (put "scheduledFor" scheduled (field "surgeAccepted" (bool true) end))))
    let action : PendingAction = record {
      tool = "book_ride";
      commit = core post_method (codes "/rides") body;
      idempotency_key = key;
    }
    pure (
        action_card
          (record {
            action = "book_ride";
            title = "Confirm your booking";
            lines =
                (codes "Pickup: " ++ arg_text "pickup" args)
                ∷ (codes "Dropoff: " ++ arg_text "dropoff" args)
                ∷ (codes "Type: " ++ arg_text "ride_type" args)
                ∷ time_line;
            money = option_map amount_of money;
            tool_call_id = "";
            confirm_label = "Confirm booking";
            decline_label = "Cancel";
          })
          action (to_list money))

  unfoldable pub cancel_ride : Fields → ToolContext → M b ToolOutcome
  cancel_ride args ctx = do
    let path = ride_path (get "ride_id" args)
    ride ← lift (core_request b (get_call ctx path))
    let fee = find (λ m. not (is_negative m.amount.num)) (scan_opt ride.content)
    let fee_line =
        (if is_some fee
          then codes "Cancellation fee may apply."
          else codes "No cancellation fee expected.")
    key ← lift next_uuid
    let action : PendingAction = record {
      tool = "cancel_ride";
      commit = core post_method (path ++ codes "/cancel") (put "reason" (get "reason" args) end);
      idempotency_key = key;
    }
    pure (
        action_card
          (record {
            action = "cancel_ride";
            title = "Confirm cancellation";
            lines =
                (codes "Ride: " ++ arg_text "ride_id" args)
                ∷ (codes "Reason: " ++ arg_text "reason" args)
                ∷ fee_line
                ∷ [];
            money = option_map amount_of fee;
            tool_call_id = "";
            confirm_label = "Confirm cancellation";
            decline_label = "Keep ride";
          })
          action (to_list fee))

  -- `Number(v)`
  abbrev number_of : Option Json → Number
  number_of none = nan
  number_of (some (num n)) = finite n
  number_of (some v) = b.to_number v

  unfoldable pub initiate_refund : Fields → ToolContext → M b ToolOutcome
  initiate_refund args ctx = do
    let amount : Amount = record {
      amount = some (number_of (get "amount" args));
      currency = to_upper (arg_text "currency" args);
    }
    key ← lift next_uuid
    let action : PendingAction = record {
      tool = "initiate_refund";
      commit = refund_queue (arg_text "ride_id" args) amount (arg_text "reason" args);
      idempotency_key = key;
    }
    pure (
        action_card
          (record {
            action = "initiate_refund";
            title = "Request a refund";
            lines =
                (codes "Ride: " ++ arg_text "ride_id" args)
                ∷ (codes "Reason: " ++ arg_text "reason" args)
                ∷ codes "This request will be reviewed by our team."
                ∷ [];
            money = some amount;
            tool_call_id = "";
            confirm_label = "Submit request";
            decline_label = "Cancel";
          })
          action (scanned amount))

  -- The `switch` of `execute`.
  unfoldable pub dispatch : String → Fields → ToolContext → M b ToolOutcome
  dispatch name args ctx =
      if str_eq name "get_fare_estimate"
      then get_fare_estimate args ctx
      else if str_eq name "get_ride_status"
      then get_ride_status args ctx
      else if str_eq name "get_payment_history"
      then get_payment_history ctx
      else if str_eq name "explain_charge"
      then explain_charge args ctx
      else if str_eq name "escalate_to_human"
      then escalate args ctx
      else if str_eq name "book_ride"
      then book_ride args ctx
      else if str_eq name "cancel_ride"
      then cancel_ride args ctx
      else if str_eq name "initiate_refund"
      then initiate_refund args ctx
      else throw (unhandled_tool name)

  unfoldable pub execute : String → Fields → ToolContext → M b ToolOutcome
  execute name args ctx w = elim (assert_allowed name args ctx) [
    | err e ↦ (err e, w)
    | ok _ ↦ dispatch name args ctx w
  ]
