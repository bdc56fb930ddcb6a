-- ===== src/Currency/Tests.antt =====
-- The rates and the currencies on small stores.
use gen_xtaxi_ai.Common.{some, ◌≡◌, refl, none, [], ◌∷◌}
use gen_xtaxi_ai.Common.Int.{pos, ◌*ℤ◌}
use gen_xtaxi_ai.Common.Number.{finite, whole, times, floor, rest, as_integer}
use gen_xtaxi_ai.Common.Text.{codes, to_upper, text_eq}
use gen_xtaxi_ai.Money.{
  FxRateSnapshot, of, ok as money_ok, convert as money_convert, is_iso_4217, round_minor,
  round_fraction,
}
use gen_xtaxi_ai.Money.Laws.{IsValid}
use gen_xtaxi_ai.Currency.{ConversionResult, convert}
use gen_xtaxi_ai.Currency.Conversions.{IsAtRate, convert_keeps}
use gen_xtaxi_ai.Currency.{get_config, UpsertCurrency, FetchedRates, seed, get_rate, latest}

abbrev raw : FetchedRates
raw = record {
  base = codes "usd";
  rates = (codes "DZD", finite (whole (pos 130))) ∷ (codes "eur", finite (whole (pos 1))) ∷ [];
  timestamp = 1000;
}

abbrev stored : FxRateSnapshot
stored = record {
  base = codes "USD";
  quote = codes "DZD";
  rate = finite (whole (pos 130));
  rate_timestamp = 1000;
  provider = "test";
}

abbrev dinar : UpsertCurrency
dinar = record {
  code = codes "dzd";
  minor_unit_exponent = 3;
  rounding_rule = none;
  symbol = "DA";
  enabled = none;
}

abbrev euros : FxRateSnapshot
euros = record stored { quote = codes "EUR"; rate = finite (whole (pos 2)) }

abbrev made : ConversionResult
made = record {
  original = record { amount = pos 100; currency = codes "USD" };
  converted = record { amount = pos 13000; currency = codes "DZD" };
  rate = finite (whole (pos 130));
  rate_timestamp = 1000;
}

convert_keeps_example :
    (of (finite (whole (pos 100))) (some (codes "usd")) ≡ money_ok made.original)
    × IsValid made.original
    × IsValid made.converted
    × (made.converted.currency ≡ to_upper (codes "dzd"))
    × IsAtRate
        (get_rate
          (λ f. finite f)
          (codes "USD")
          2000
          (λ key. none)
          (stored ∷ [])
          made.original.currency
          (codes "dzd"))
        made
unfolding convert money_convert get_config seed get_rate latest text_eq to_upper codes of
    is_iso_4217 round_minor round_fraction times floor rest ◌*ℤ◌ as_integer
convert_keeps_example =
    convert_keeps (λ f. finite f) (codes "USD") 2000 (λ key. none) (stored ∷ []) seed
      (finite (whole (pos 100))) (codes "usd") (codes "dzd") made refl
