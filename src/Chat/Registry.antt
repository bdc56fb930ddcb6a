-- ===== src/Chat/Registry.antt =====
-- src/tools/tool-schemas.ts: which tools there are, who may call them, what each requires, and which
-- wait for a confirmation. Descriptions and the schemas of the arguments are for the model, and no
-- code of the service reads them.
use gen_xtaxi_ai.Common.{String, str_eq, Bool, true, false, Option, List, [], ◌∷◌, find, any}
use gen_xtaxi_ai.Chat.Types.{Role, passenger, driver, admin, ToolSpec}

abbrev pub riders : List Role
riders = passenger ∷ []

abbrev pub riders_and_drivers : List Role
riders_and_drivers = passenger ∷ driver ∷ []

abbrev pub tool_specs : List ToolSpec
tool_specs =
    record {
      name = "get_fare_estimate";
      allowed_roles = riders_and_drivers;
      requires_confirmation = false;
      required = "pickup" ∷ "dropoff" ∷ "ride_type" ∷ [];
    }
    ∷ record {
      name = "get_ride_status";
      allowed_roles = riders_and_drivers;
      requires_confirmation = false;
      required = [];
    }
    ∷ record {
      name = "book_ride";
      allowed_roles = riders;
      requires_confirmation = true;
      required = "pickup" ∷ "dropoff" ∷ "ride_type" ∷ [];
    }
    ∷ record {
      name = "cancel_ride";
      allowed_roles = riders_and_drivers;
      requires_confirmation = true;
      required = "ride_id" ∷ "reason" ∷ [];
    }
    ∷ record {
      name = "get_payment_history";
      allowed_roles = riders_and_drivers;
      requires_confirmation = false;
      required = [];
    }
    ∷ record {
      name = "initiate_refund";
      allowed_roles = riders;
      requires_confirmation = true;
      required = "ride_id" ∷ "amount" ∷ "currency" ∷ "reason" ∷ [];
    }
    ∷ record {
      name = "explain_charge";
      allowed_roles = riders_and_drivers;
      requires_confirmation = false;
      required = "ride_id" ∷ [];
    }
    ∷ record {
      name = "escalate_to_human";
      allowed_roles = riders_and_drivers;
      requires_confirmation = false;
      required = "summary" ∷ [];
    }
    ∷ []

-- `TOOL_SPEC_BY_NAME.get(name)`: the names are distinct.
unfoldable pub spec_by_name : String → Option ToolSpec
spec_by_name name = find (λ s. str_eq s.name name) tool_specs

abbrev pub role_eq : Role → Role → Bool
role_eq passenger passenger = true
role_eq driver driver = true
role_eq admin admin = true
role_eq _ _ = false

-- `roles.includes(role)`
abbrev pub includes : List Role → Role → Bool
includes roles r = any (role_eq r) roles
