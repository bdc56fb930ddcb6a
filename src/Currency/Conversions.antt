-- ===== src/Currency/Conversions.antt =====
-- The results of convert.service.ts.
use gen_xtaxi_ai.Common.{
  ℕ, ◌≡◌, refl, sym, ap, subst, ◌∙◌, Option, none, some, List, [], ◌∷◌, find, inl, inr, Bool-cases,
}
use gen_xtaxi_ai.Common.Number.{Fraction, Number}
use gen_xtaxi_ai.Common.Text.{Text, to_upper, text_eq, text_eq_iff, to_upper_idempotent}
use gen_xtaxi_ai.Money.{
  Money, CurrencyConfig, FxRateSnapshot, Result as MoneyResult, ok as money_ok, err as money_err,
  of, convert as money_convert, converted_minor, round_minor, base_mismatch, ◌>>=◌ as bind_money,
}
use gen_xtaxi_ai.Money.Laws.{IsValid, of_sound}
use gen_xtaxi_ai.Currency.{
  Result, ok, err, ◌>>=◌, money_result, get_config, or_unsupported, get_rate, ConversionResult,
  convert,
}

>>=-ok :
    {A B : Type 0} (m : Result A) (f : A → Result B) (r : B)
    → m >>= f ≡ ok r
    → (a : A) × ((m ≡ ok a) × (f a ≡ ok r))
>>=-ok (ok a) f r h = (a, (refl, h))
>>=-ok (err e) f r h = cc h

money_result-ok : {A : Type 0} (m : MoneyResult A) (a : A) → money_result m ≡ ok a → m ≡ money_ok a
money_result-ok (money_ok x) a h = let same : x ≡ a = cc h in ap money_ok same
money_result-ok (money_err e) a h = cc h

find-code :
    (code : Text) (docs : List CurrencyConfig) (c : CurrencyConfig)
    → find (λ x. text_eq x.code code) docs ≡ some c
    → c.code ≡ code
find-code code [] c h = cc h
find-code code (x ∷ xs) c h = elim (Bool-cases (text_eq x.code code)) [
  | inl t ↦
      let h' : some x ≡ some c = rw t at h in
      let same : x ≡ c = cc h' in subst (λ y. y.code ≡ code) same ((text_eq_iff x.code code).0 t)
  | inr t ↦ find-code code xs c (rw t at h)
]

or_unsupported-ok :
    (code : Text) (o : Option CurrencyConfig) (c : CurrencyConfig)
    → or_unsupported code o ≡ ok c
    → o ≡ some c
or_unsupported-ok code none c h = cc h
or_unsupported-ok code (some x) c h = let same : x ≡ c = cc h in ap some same

get_config-code :
    (docs : List CurrencyConfig) (code : Text) (c : CurrencyConfig)
    → get_config docs code ≡ ok c
    → c.code ≡ to_upper code
unfolding get_config
get_config-code docs code c h = find-code (to_upper code) docs c (or_unsupported-ok code _ c h)

-- The rate and the time are those of the rate that was found.
abbrev pub IsAtRate : Result FxRateSnapshot → ConversionResult → Type 0
IsAtRate found r =
    (fx : FxRateSnapshot) × ((found ≡ ok fx)
      × (r.rate ≡ fx.rate)
      × (r.rate_timestamp ≡ fx.rate_timestamp))

made_inv :
    (c : Option Text) (a : Number) (o : MoneyResult Money) (t : ℕ) (r : Money × ℕ)
    → of a c ≡ o
    → bind_money o (λ m. money_ok (m, t)) ≡ money_ok r
    → (x : Number) × ((of x c ≡ money_ok r.0) × (r.1 ≡ t))
made_inv c a (money_err e) t r h k = cc k
made_inv c a (money_ok m) t r h k =
    let same : (m, t) ≡ r = cc k in (a, (h ∙ ap (λ q. money_ok q.0) same, sym (ap (λ q. q.1) same)))

module _ (fl : Fraction → Number) where
  money_convert_inv :
      (m : Money) (fx : FxRateSnapshot) (f t : CurrencyConfig) (r : Money × ℕ)
      → money_convert fl m fx f t ≡ money_ok r
      → (a : Number) × ((of a (some t.code) ≡ money_ok r.0) × (r.1 ≡ fx.rate_timestamp))
  unfolding money_convert
  money_convert_inv m fx f t r h =
      elim (Bool-cases (text_eq (to_upper m.currency) (to_upper fx.base))) [
        | inr t ↦
            let h' : money_err (base_mismatch fx.base m.currency) ≡ money_ok r =
              rw (t, money_convert) at h in
            cc h'
        | inl e ↦
            let a = round_minor (converted_minor fl m fx f t) t.rounding_rule in
            made_inv (some t.code) a (of a (some t.code)) fx.rate_timestamp r refl
              (rw (e, money_convert) at h)
      ]

  -- A conversion keeps the amount that it starts from, as a valid money; what it makes is valid too, in the
  -- target currency in capitals; and its rate and time are those of the rate between the two.
  pub convert_keeps :
      (pivot : Text) (now : ℕ) (cached : Text → Option FxRateSnapshot) (docs : List FxRateSnapshot)
      (currencies : List CurrencyConfig) (amount : Number) (currency target : Text)
      (r : ConversionResult)
      → convert fl pivot now cached docs currencies amount currency target ≡ ok r
      → (of amount (some currency) ≡ money_ok r.original)
        × IsValid r.original
        × IsValid r.converted
        × (r.converted.currency ≡ to_upper target)
        × IsAtRate (get_rate fl pivot now cached docs r.original.currency target) r
  unfolding convert
  convert_keeps pivot now cached docs currencies amount currency target r h =
      let (original, (h1, k1)) = >>=-ok (money_result (of amount (some currency))) _ r h in
      let (from_cfg, (h2, k2)) = >>=-ok (get_config currencies original.currency) _ r k1 in
      let (to_cfg, (h3, k3)) = >>=-ok (get_config currencies target) _ r k2 in
      let (fx, (h4, k4)) =
        >>=-ok (get_rate fl pivot now cached docs original.currency target) _ r k3 in
      let (made, (h5, k5)) =
        >>=-ok (money_result (money_convert fl original fx from_cfg to_cfg)) _ r k4 in
      let (_, (conv, stamp)) =
        money_convert_inv original fx from_cfg to_cfg made
          (money_result-ok (money_convert fl original fx from_cfg to_cfg) made h5) in
      let made_of = money_result-ok (of amount (some currency)) original h1 in
      let (valid, _, _, _) = of_sound amount (some currency) original made_of in
      let (valid_made, _, same_code, _) = of_sound _ (some to_cfg.code) made.0 conv in
      let code =
        same_code
        ∙ ap to_upper (get_config-code currencies target to_cfg h3)
        ∙ to_upper_idempotent target in
      let same : record {
        original = original;
        converted = made.0;
        rate = fx.rate;
        rate_timestamp = made.1;
      }
          ≡ r =
        cc k5 in
      let at_rate : IsAtRate (get_rate fl pivot now cached docs original.currency target) (record {
        original = original;
        converted = made.0;
        rate = fx.rate;
        rate_timestamp = made.1;
      }) =
        (fx, (h4, refl, stamp)) in
      (
        made_of ∙ ap (λ x. money_ok x.original) same,
        subst (λ x. IsValid x.original) same valid,
        subst (λ x. IsValid x.converted) same valid_made,
        ap (λ x. x.converted.currency) (sym same) ∙ code,
        subst (λ x. IsAtRate (get_rate fl pivot now cached docs x.original.currency target) x) same
            at_rate,
      )
