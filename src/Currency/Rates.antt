-- ===== src/Currency/Rates.antt =====
-- Where a rate of fx.service.ts comes from, and what it is.
use gen_xtaxi_ai.Common.{ℕ, ◌≤◌, ◌≡◌, ◌≢◌, ◌⊎◌, Option, none, some, List, All, Any}
use gen_xtaxi_ai.Common.Double.{divide}
use gen_xtaxi_ai.Common.Int.{pos}
use gen_xtaxi_ai.Common.Number.{Fraction, Number, finite, whole}
use gen_xtaxi_ai.Common.Text.{Text}
use gen_xtaxi_ai.Money.{FxRateSnapshot}
use gen_xtaxi_ai.Currency.{no_rate, Result, ok, err, cache_key}
use gen_xtaxi_ai.Currency.Laws.{IsFor}
use Prim.Native.String.{◌++◌ as str_append}

abbrev pub HasNone : Text → Text → List FxRateSnapshot → Type 0
HasNone base quote docs = All (λ (d : FxRateSnapshot). IsFor base quote d → ⊥) docs

-- A snapshot of the pair of which none is later.
abbrev pub IsLatest : Text → Text → List FxRateSnapshot → FxRateSnapshot → Type 0
IsLatest base quote docs s =
    Any (λ (d : FxRateSnapshot). d ≡ s) docs
    × IsFor base quote s
    × All (λ (d : FxRateSnapshot). IsFor base quote d → d.rate_timestamp ≤ s.rate_timestamp) docs

abbrev Found : Text → Text → List FxRateSnapshot → Option FxRateSnapshot → Type 0
Found base quote docs none = HasNone base quote docs
Found base quote docs (some s) = IsLatest base quote docs s

module _ (fl : Fraction → Number) (pivot : Text) (now : ℕ) (cached : Text → Option FxRateSnapshot)
    (docs : List FxRateSnapshot) where
  -- Across the pivot: the latest rate of the pivot to the quote over that of the pivot to the base.
  abbrev pub IsCross : Text → Text → FxRateSnapshot → Type 0
  IsCross base quote s =
      (base ≢ pivot)
      × (quote ≢ pivot)
      × ((x : FxRateSnapshot) × (y : FxRateSnapshot) × IsLatest pivot base docs x
          × IsLatest pivot quote docs y
          × (s ≡ record {
            base = base;
            quote = quote;
            rate = divide fl y.rate x.rate;
            rate_timestamp = y.rate_timestamp;
            provider = str_append y.provider ":cross";
          }))

  abbrev pub HasNoCross : Text → Text → Type 0
  HasNoCross base quote =
      (base ≡ pivot) ⊎ (quote ≡ pivot) ⊎ HasNone pivot base docs ⊎ HasNone pivot quote docs

  -- A rate of a currency to itself is 1; any other is what Redis holds under the key of the pair, or, if it
  -- holds nothing, the latest snapshot of the pair, or, if there is none, the one across the pivot; and
  -- an error is that there is none of these.
  abbrev pub IsRate : Text → Text → Result FxRateSnapshot → Type 0
  IsRate base quote (ok s) =
      ((base ≡ quote)
        × (s ≡ record {
          base = base;
          quote = base;
          rate = finite (whole (pos 1));
          rate_timestamp = now;
          provider = "identity";
        }))
      ⊎ (base ≢ quote)
        × ((cached (cache_key base quote) ≡ some s)
            ⊎ (cached (cache_key base quote) ≡ none)
              × (IsLatest base quote docs s ⊎ (HasNone base quote docs × IsCross base quote s)))
  IsRate base quote (err (no_rate b q)) =
      (b ≡ base)
      × (q ≡ quote)
      × (base ≢ quote)
      × (cached (cache_key base quote) ≡ none)
      × HasNone base quote docs
      × HasNoCross base quote
  IsRate base quote (err _) = ⊥

  abbrev Crosses : Text → Text → Option FxRateSnapshot → Type 0
  Crosses base quote none = HasNoCross base quote
  Crosses base quote (some s) = IsCross base quote s
