-- ===== src/MoneyScan/Tests.antt =====
-- The scan at a fare inside an array.
use gen_xtaxi_ai.Common.{◌≡◌, ◌↔◌, Any}
use gen_xtaxi_ai.Common.Int.{pos}
use gen_xtaxi_ai.Common.Number.{whole}
use gen_xtaxi_ai.Common.Text.{codes}
use gen_xtaxi_ai.Json.{Json, num, str, arr, obj, end, field, item, nil}
use gen_xtaxi_ai.MoneyScan.{ScannedMoney, scan_money}
use gen_xtaxi_ai.MoneyScan.Laws.{States, scan_money_iff}

abbrev fares : Json
fares = arr (
    item (obj (field "fare" (num (whole (pos 250))) (field "currency" (str (codes "dzd")) end)))
      nil)

abbrev fare : ScannedMoney
fare = record { amount = whole (pos 250); currency = codes "DZD" }

scan_money_iff_example : Any (λ x. x ≡ fare) (scan_money fares) ↔ States fare fares
scan_money_iff_example = scan_money_iff fare fares
