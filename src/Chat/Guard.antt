-- ===== src/Chat/Guard.antt =====
-- Who may call a tool, by `assertAllowed` of src/tools/tool-executor.service.ts, and the values that
-- the tools of that file work on.
use gen_xtaxi_ai.Common.{
  String, Bool, true, false, not, Option, none, some, List, [], ◌∷◌, ◌==◌, if◌then◌else◌, ◌++◌,
}
use gen_xtaxi_ai.Common.Number.{finite, magnitude, Number, Fraction}
use gen_xtaxi_ai.Common.Text.{codes}
use gen_xtaxi_ai.Json.{Json, Fields, null, bool, num, str, obj, end, field, get}
use gen_xtaxi_ai.MoneyScan.{ScannedMoney, scan_money}
use gen_xtaxi_ai.Chat.Types.{
  Role, ToolContext, ToolSpec, Amount, unknown_tool, role_forbidden, missing_arg, Result, ok, err,
}
use gen_xtaxi_ai.Chat.Registry.{spec_by_name, includes}
use gen_xtaxi_ai.Chat.World.{CoreResult}

-- `v === undefined || v === null || v === ''`
abbrev pub is_missing : Option Json → Bool
is_missing none = true
is_missing (some null) = true
is_missing (some (str [])) = true
is_missing _ = false

unfoldable pub first_missing : List String → Fields → Option String
first_missing [] args = none
first_missing (k ∷ ks) args = if is_missing (get k args) then some k else first_missing ks args

abbrev check_args : String → Option String → Result Unit
check_args name none = ok tt
check_args name (some k) = err (missing_arg name k)

abbrev check_spec : String → Option ToolSpec → Fields → Role → Result Unit
check_spec name none args role = err (unknown_tool name)
check_spec name (some spec) args role =
    if includes spec.allowed_roles role
    then check_args name (first_missing spec.required args)
    else err (role_forbidden role name)

-- `assertAllowed`
unfoldable pub assert_allowed : String → Fields → ToolContext → Result Unit
assert_allowed name args ctx = check_spec name (spec_by_name name) args ctx.user.role

-- Whether a value is true as a condition.
abbrev pub truthy : Option Json → Bool
truthy none = false
truthy (some null) = false
truthy (some (bool v)) = v
truthy (some (num n)) = not (magnitude n.num == 0)
truthy (some (str [])) = false
truthy _ = true

-- A field that is left out where it is undefined.
abbrev pub put : String → Option Json → Fields → Fields
put key none fs = fs
put key (some v) fs = field key v fs

-- `res.ok ? res.data : { error: res.error }`
abbrev pub data_of : CoreResult → Option Json
data_of r =
    if r.is_ok
    then r.content
    else (elim r.error [ none ↦ some (obj end) | some e ↦ some (obj (field "error" (str e) end)) ])

abbrev pub scan_opt : Option Json → List ScannedMoney
scan_opt none = []
scan_opt (some v) = scan_money v

abbrev pub amount_of : ScannedMoney → Amount
amount_of m = record { amount = some (finite m.amount); currency = m.currency }

abbrev pub first : List ScannedMoney → Option ScannedMoney
first [] = none
first (m ∷ ms) = some m

abbrev pub option_map : {A B : Type 0} → (A → B) → Option A → Option B
option_map f none = none
option_map f (some a) = some (f a)

abbrev pub to_list : {A : Type 0} → Option A → List A
to_list none = []
to_list (some a) = a ∷ []

-- A number that is none allows no amount.
abbrev finite_of : Option Number → Option Fraction
finite_of (some (finite f)) = some f
finite_of _ = none

abbrev pub scanned : Amount → List ScannedMoney
scanned a = elim (finite_of a.amount) [
  | some n ↦ record { amount = n; currency = a.currency } ∷ []
  | none ↦ []
]

abbrev pub needs_coordinates : Json
needs_coordinates = obj (
    field "error"
      (str (
        codes
          "get_fare_estimate needs exact numeric coordinates (\"lat,lng\") for both pickup and dropoff. "
        ++ codes
            "You do not have them. Do NOT call this tool again — instead answer the user's question directly "
        ++ codes
            "from policy/context (for general pricing or surge questions no tool is needed), or ask the user for their pickup and destination."))
      end)
