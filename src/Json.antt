-- ===== src/Json.antt =====
-- The values of JSON, as the services exchange them. A number is the fraction that it stands for.
use gen_xtaxi_ai.Common.{String, str_eq, Bool, Option, none, some, if◌then◌else◌}
use gen_xtaxi_ai.Common.Number.{Fraction}
use gen_xtaxi_ai.Common.Text.{Text}

mutual
  pub data Json : Type 0 where
    null : Json
    bool : Bool → Json
    num : Fraction → Json
    str : Text → Json
    arr : Items → Json
    obj : Fields → Json

  pub data Items : Type 0 where
    nil : Items
    item : Json → Items → Items

  pub data Fields : Type 0 where
    end : Fields
    field : String → Json → Fields → Fields

-- `o[key]`, where `none` is `undefined`
unfoldable pub get : String → Fields → Option Json
get key end = none
get key (field k v fs) = if str_eq k key then some v else get key fs

-- `typeof v === 'number'`
abbrev pub as_num : Option Json → Option Fraction
as_num (some (num n)) = some n
as_num _ = none

-- `typeof v === 'string'`
abbrev pub as_str : Option Json → Option Text
as_str (some (str t)) = some t
as_str _ = none
