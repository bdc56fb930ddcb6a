-- ===== src/MoneyScan.antt =====
-- chat-orchestrator/src/tools/money-scan.ts: the amounts of money in a tool's result.
pub mod Laws
mod Tests
use gen_xtaxi_ai.Common.{String, Option, none, some, List, [], ◌∷◌, ◌++◌}
use gen_xtaxi_ai.Common.Number.{Fraction}
use gen_xtaxi_ai.Common.Text.{Text, to_upper}
use gen_xtaxi_ai.Json.{
  Json, Items, Fields, null, bool, num, str, arr, obj, nil, item, end, field, get, as_num, as_str,
}

pub record ScannedMoney : Type 0 where
  pub amount : Fraction
  pub currency : Text

-- The fields that may hold an amount beside a `currency`: the canonical one, and the others, which
-- an empty currency rules out.
abbrev pub keys_for : Text → List String
keys_for [] = "amount" ∷ []
keys_for (c ∷ s) = "amount" ∷ "fee" ∷ "fare" ∷ "total" ∷ "subtotal" ∷ "surgeAmount" ∷ "refund" ∷ []

abbrev pub money_of : Text → Option Fraction → List ScannedMoney
money_of currency none = []
money_of currency (some n) = record { amount = n; currency = to_upper currency } ∷ []

unfoldable pub amounts_at : List String → Text → Fields → List ScannedMoney
amounts_at [] currency fs = []
amounts_at (k ∷ ks) currency fs = money_of currency (as_num (get k fs)) ++ amounts_at ks currency fs

-- What one object states itself.
abbrev pub own_amounts : Option Text → Fields → List ScannedMoney
own_amounts none fs = []
own_amounts (some currency) fs = amounts_at (keys_for currency) currency fs

unfoldable mutual
  pub scan_money : Json → List ScannedMoney
  scan_money null = []
  scan_money (bool b) = []
  scan_money (num n) = []
  scan_money (str t) = []
  scan_money (arr xs) = scan_items xs
  scan_money (obj fs) = own_amounts (as_str (get "currency" fs)) fs ++ scan_fields fs

  pub scan_items : Items → List ScannedMoney
  scan_items nil = []
  scan_items (item v xs) = scan_money v ++ scan_items xs

  pub scan_fields : Fields → List ScannedMoney
  scan_fields end = []
  scan_fields (field k v fs) = scan_money v ++ scan_fields fs
