-- ===== src/Currency/Laws.antt =====
-- What a refresh of fx.service.ts writes to Redis, and the store of currencies.service.ts.
use gen_xtaxi_ai.Common.{
  String, ◌≡◌, refl, ap, ◌∙◌, inl, inr, true, false, some, List, [], ◌∷◌, map, All, find,
  if◌then◌else◌, Bool-cases, arith,
}
use gen_xtaxi_ai.Common.Number.{Number}
use gen_xtaxi_ai.Common.Text.{Text, to_upper, text_eq, text_eq_iff, to_upper_idempotent}
use gen_xtaxi_ai.Money.{CurrencyConfig, FxRateSnapshot}
use gen_xtaxi_ai.Currency.{
  ok, get_config, or_unsupported, UpsertCurrency, upsert, upserted, cache_key, FetchedRates,
  snapshot_of, refresh_all,
}

-- The snapshot is of this pair.
abbrev pub IsFor : Text → Text → FxRateSnapshot → Type 0
IsFor base quote s = (s.base ≡ base) × (s.quote ≡ quote)

-- The key is that of the snapshot's pair.
abbrev pub IsKeyed : Text × FxRateSnapshot → Type 0
IsKeyed (key, s) = key ≡ cache_key s.base s.quote

cached-All :
    (provider : String) (raw : FetchedRates) (rates : List (Text × Number))
    → All IsKeyed (map (λ r. (cache_key raw.base r.0, snapshot_of provider raw r)) rates)
unfolding cache_key
cached-All provider raw [] = tt
cached-All provider raw (r ∷ rs) =
    (rw (to_upper_idempotent raw.base, to_upper_idempotent r.0) refl, cached-All provider raw rs)

-- Each entry that a refresh writes to Redis is the snapshot of the pair that its key names.
pub refresh_all-cached :
    (provider : String) (raw : FetchedRates) → All IsKeyed (refresh_all provider raw).cached
unfolding refresh_all
refresh_all-cached provider raw = cached-All provider raw raw.rates

not_both : (c u t : Text) → text_eq c u ≡ false → text_eq c t ≡ true → text_eq u t ≡ false
not_both c u t h k = ground (arith, text_eq_iff c u, text_eq_iff c t, text_eq_iff u t)

find-upsert :
    (dto : UpsertCurrency) (code : Text) (docs : List CurrencyConfig)
    → find (λ c. text_eq c.code code) (upsert dto docs) ≡ (
        if text_eq (to_upper dto.code) code
        then some (upserted dto)
        else find (λ c. text_eq c.code code) docs)
unfolding upsert
find-upsert dto code [] = refl
find-upsert dto code (c ∷ cs) = elim (Bool-cases (text_eq c.code (to_upper dto.code))) [
  | inl same ↦
      let e : c.code ≡ to_upper dto.code = (text_eq_iff c.code (to_upper dto.code)).0 same in
      elim (Bool-cases (text_eq (to_upper dto.code) code)) [
        | inl t ↦ rw (same, upsert, t) refl
        | inr t ↦ rw (same, upsert, e, t) refl
      ]
  | inr other ↦ elim (Bool-cases (text_eq c.code code)) [
    | inl t ↦ rw (other, upsert, t, not_both c.code (to_upper dto.code) code other t) refl
    | inr t ↦ rw (other, upsert, t) (find-upsert dto code cs)
  ]
]

-- A configuration that was stored is the one found under its code, in any case of letters, and those of
-- the other codes are as before.
pub get_config-upsert :
    (dto : UpsertCurrency) (docs : List CurrencyConfig) (code : Text)
    → get_config (upsert dto docs) code ≡ (
        if text_eq (to_upper dto.code) (to_upper code)
        then ok (upserted dto)
        else get_config docs code)
unfolding get_config
get_config-upsert dto docs code = elim (Bool-cases (text_eq (to_upper dto.code) (to_upper code))) [
  | inl t ↦ ap (or_unsupported code) (find-upsert dto (to_upper code) docs) ∙ rw t refl
  | inr t ↦ ap (or_unsupported code) (find-upsert dto (to_upper code) docs) ∙ rw t refl
]
