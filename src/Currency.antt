-- ===== src/Currency.antt =====
-- currency-service: the currencies of currencies.service.ts, the rates of fx.service.ts, the conversion
-- of convert.service.ts and the normalisation of reporting.service.ts. What Redis holds under a key and
-- the rounding of doubles are parameters; of snapshots of one time, which MongoDB may take either of, the
-- first is taken.
pub mod Laws
pub mod Rates
pub mod Conversions
mod Tests
use gen_xtaxi_ai.Common.{
  ℕ, zero, suc, ◌+◌, ◌-◌, ◌*◌, String, Bool, true, false, ◌&&◌, ◌||◌, Option, none, some, List, [],
  ◌∷◌, ◌++◌, map, length, find, ltb, ◌==◌, if◌then◌else◌,
}
use gen_xtaxi_ai.Common.Double.{divide}
use gen_xtaxi_ai.Common.Int.{ℤ, pos, ◌*ℤ◌}
use gen_xtaxi_ai.Common.Number.{
  Fraction, den, whole, Number, finite, infinite, nan, magnitude, negate_ℕ, is_negative,
}
use gen_xtaxi_ai.Common.Text.{Text, codes, to_upper, text_eq}
use gen_xtaxi_ai.Money.{
  Money, CurrencyConfig, RoundingRule, half_even, half_up, FxRateSnapshot, Error as MoneyError,
  Result as MoneyResult, ok as money_ok, err as money_err, of, convert as money_convert,
}
use mathlib.Core.Bool.{xor}
use Prim.Native.String.{◌++◌ as str_append}

pub data Error : Type 0 where
  bad_money : MoneyError → Error
  unsupported_currency : Text → Error
  no_rate : Text → Text → Error

pub data Result (A : Type 0) : Type 0 where
  ok : A → Result A
  err : Error → Result A

infixl 5 ◌>>=◌
abbrev pub ◌>>=◌ : {A B : Type 0} → Result A → (A → Result B) → Result B
ok a >>= f = f a
err e >>= f = err e

abbrev money_result : {A : Type 0} → MoneyResult A → Result A
money_result (money_ok a) = ok a
money_result (money_err e) = err (bad_money e)

abbrev seed_of : Text → ℕ → RoundingRule → String → CurrencyConfig
seed_of code exponent rule symbol = record {
  code = code;
  minor_unit_exponent = exponent;
  rounding_rule = rule;
  symbol = symbol;
  enabled = true;
}

unfoldable pub seed : List CurrencyConfig
seed =
    seed_of (codes "DZD") 2 half_even "DA"
    ∷ seed_of (codes "EUR") 2 half_even "€"
    ∷ seed_of (codes "USD") 2 half_even "$"
    ∷ seed_of (codes "XOF") 0 half_up "CFA"
    ∷ seed_of (codes "MAD") 2 half_even "DH"
    ∷ seed_of (codes "TND") 3 half_even "DT"
    ∷ seed_of (codes "NGN") 2 half_even "₦"
    ∷ []

-- `onModuleInit`
unfoldable pub init_currencies : List CurrencyConfig → List CurrencyConfig
init_currencies [] = seed
init_currencies (c ∷ cs) = c ∷ cs

abbrev pub or_unsupported : Text → Option CurrencyConfig → Result CurrencyConfig
or_unsupported code none = err (unsupported_currency code)
or_unsupported code (some c) = ok c

unfoldable pub get_config : List CurrencyConfig → Text → Result CurrencyConfig
get_config docs code = or_unsupported code (find (λ c. text_eq c.code (to_upper code)) docs)

pub record UpsertCurrency : Type 0 where
  pub code : Text
  pub minor_unit_exponent : ℕ
  pub rounding_rule : Option RoundingRule
  pub symbol : String
  pub enabled : Option Bool

abbrev pub upserted : UpsertCurrency → CurrencyConfig
upserted dto = record {
  code = to_upper dto.code;
  minor_unit_exponent = dto.minor_unit_exponent;
  rounding_rule = elim dto.rounding_rule [ none ↦ half_even | some r ↦ r ];
  symbol = dto.symbol;
  enabled = elim dto.enabled [ none ↦ true | some e ↦ e ];
}

-- `findOneAndUpdate` with `upsert`: the first document of the code, or a new one.
unfoldable pub upsert : UpsertCurrency → List CurrencyConfig → List CurrencyConfig
upsert dto [] = upserted dto ∷ []
upsert dto (c ∷ cs) =
    let rest = upsert dto cs in
    if text_eq c.code (to_upper dto.code) then upserted dto ∷ cs else c ∷ rest

unfoldable pub cache_key : Text → Text → Text
cache_key base quote = codes "fx:" ++ to_upper base ++ 58 ∷ to_upper quote

-- What the provider's adapter returns.
pub record FetchedRates : Type 0 where
  pub base : Text
  pub rates : List (Text × Number)
  pub timestamp : ℕ

abbrev pub snapshot_of : String → FetchedRates → Text × Number → FxRateSnapshot
snapshot_of provider raw (quote, rate) = record {
  base = to_upper raw.base;
  quote = to_upper quote;
  rate = rate;
  rate_timestamp = raw.timestamp;
  provider = provider;
}

-- The writes of a refresh: those to Redis in their order, each for FX_CACHE_TTL_SECONDS, and the
-- documents inserted.
pub record Refreshed : Type 0 where
  pub cached : List (Text × FxRateSnapshot)
  pub inserted : List FxRateSnapshot
  pub count : ℕ

unfoldable pub refresh_all : String → FetchedRates → Refreshed
refresh_all provider raw =
    let docs = map (snapshot_of provider raw) raw.rates in
    record {
      cached = map (λ r. (cache_key raw.base r.0, snapshot_of provider raw r)) raw.rates;
      inserted = docs;
      count = length docs;
    }

abbrev pub later_of : FxRateSnapshot → Option FxRateSnapshot → FxRateSnapshot
later_of d none = d
later_of d (some e) = if ltb d.rate_timestamp e.rate_timestamp then e else d

-- `findOne({ base, quote }).sort({ rateTimestamp: -1 })`
unfoldable pub latest : Text → Text → List FxRateSnapshot → Option FxRateSnapshot
latest base quote [] = none
latest base quote (d ∷ ds) =
    let rest = latest base quote ds in
    if text_eq d.base base && text_eq d.quote quote then some (later_of d rest) else rest

module _ (fl : Fraction → Number) where
  abbrev pub crossed :
      Text → Text → Option FxRateSnapshot → Option FxRateSnapshot → Option FxRateSnapshot
  crossed base quote (some x) (some y) = some (record {
    base = base;
    quote = quote;
    rate = divide fl y.rate x.rate;
    rate_timestamp = y.rate_timestamp;
    provider = str_append y.provider ":cross";
  })
  crossed base quote _ _ = none

  unfoldable pub try_cross_rate : Text → List FxRateSnapshot → Text → Text → Option FxRateSnapshot
  try_cross_rate pivot docs base quote =
      if text_eq base pivot || text_eq quote pivot
      then none
      else crossed base quote (latest pivot base docs) (latest pivot quote docs)

-- `ConversionResult`, without its formatted text.
pub record ConversionResult : Type 0 where
  pub original : Money
  pub converted : Money
  pub rate : Number
  pub rate_timestamp : ℕ

pub record NormalizedAmount : Type 0 where
  pub original : Money
  pub base : Money
  pub base_currency : Text
  pub rate : Number
  pub rate_timestamp : ℕ

-- The pivot is FX_BASE_CURRENCY in capitals, `cached` what Redis holds, and `now` the time.
module _ (fl : Fraction → Number) (pivot : Text) (now : ℕ) (cached : Text → Option FxRateSnapshot)
    (docs : List FxRateSnapshot) where
  abbrev pub first_of :
      Text
      → Text
      → Option FxRateSnapshot
      → Option FxRateSnapshot
      → Option FxRateSnapshot
      → Result FxRateSnapshot
  first_of base quote (some x) y z = ok x
  first_of base quote none (some y) z = ok y
  first_of base quote none none (some z) = ok z
  first_of base quote none none none = err (no_rate base quote)

  unfoldable pub get_rate : Text → Text → Result FxRateSnapshot
  get_rate base quote =
      let b = to_upper base in
      let q = to_upper quote in
      if text_eq b q
      then ok (record {
        base = b;
        quote = q;
        rate = finite (whole (pos 1));
        rate_timestamp = now;
        provider = "identity";
      })
      else first_of b q (cached (cache_key b q)) (latest b q docs)
          (try_cross_rate fl pivot docs b q)

  unfoldable pub convert : List CurrencyConfig → Number → Text → Text → Result ConversionResult
  convert currencies amount currency target = do
    original ← money_result (of amount (some currency))
    from_cfg ← get_config currencies original.currency
    to_cfg ← get_config currencies target
    fx ← get_rate original.currency target
    made ← money_result (money_convert fl original fx from_cfg to_cfg)
    ok (record { original = original; converted = made.0; rate = fx.rate; rate_timestamp = made.1 })

  unfoldable pub normalize : Text → List CurrencyConfig → Number → Text → Result NormalizedAmount
  normalize base currencies amount currency = do
    r ← convert currencies amount currency base
    ok (record {
      original = r.original;
      base = r.converted;
      base_currency = base;
      rate = r.rate;
      rate_timestamp = r.rate_timestamp;
    })
