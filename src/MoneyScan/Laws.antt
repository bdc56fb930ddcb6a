-- ===== src/MoneyScan/Laws.antt =====
-- The scan of money-scan.ts against a relation between a value and the amounts that it states.
use gen_xtaxi_ai.Common.{
  String, ◌≡◌, ◌↔◌, inl, inr, refl, sym, subst, Option, none, some, List, [], ◌∷◌, arith, Any,
  Any-append_iff,
}
use gen_xtaxi_ai.Common.Text.{Text, to_upper}
use gen_xtaxi_ai.Json.{
  Json, Items, Fields, null, bool, num, str, arr, obj, nil, item, end, field, get, as_num, as_str,
}
use gen_xtaxi_ai.MoneyScan.{
  ScannedMoney, keys_for, money_of, amounts_at, own_amounts, scan_money, scan_items, scan_fields,
}

-- An object with this amount of money under one of the keys, beside its currency.
abbrev pub IsStatedBy : ScannedMoney → Fields → Type 0
IsStatedBy m fs =
    (c : Text) × (get "currency" fs ≡ some (str c))
    × (m.currency ≡ to_upper c)
    × Any (λ k. get k fs ≡ some (num m.amount)) (keys_for c)

-- The amount is stated by an object somewhere in the value.
mutual
  pub data States (m : ScannedMoney) : Json → Type 0 where
    in_arr : {xs : Items} → StatesItem m xs → States m (arr xs)
    here : {fs : Fields} → IsStatedBy m fs → States m (obj fs)
    in_obj : {fs : Fields} → StatesField m fs → States m (obj fs)

  pub data StatesItem (m : ScannedMoney) : Items → Type 0 where
    in_item : {v : Json} {xs : Items} → States m v → StatesItem m (item v xs)
    in_later_item : {v : Json} {xs : Items} → StatesItem m xs → StatesItem m (item v xs)

  pub data StatesField (m : ScannedMoney) : Fields → Type 0 where
    in_field : {k : String} {v : Json} {fs : Fields} → States m v → StatesField m (field k v fs)
    in_later_field :
        {k : String} {v : Json} {fs : Fields} → StatesField m fs → StatesField m (field k v fs)

module _ (m : ScannedMoney) where
  money_of_iff :
      (c : Text) (o : Option Json)
      → Any (λ x. x ≡ m) (money_of c (as_num o))
        ↔ ((m.currency ≡ to_upper c) × (o ≡ some (num m.amount)))
  money_of_iff c none = ground arith
  money_of_iff c (some (num n)) = ground arith
  money_of_iff c (some null) = ground arith
  money_of_iff c (some (bool b)) = ground arith
  money_of_iff c (some (str t)) = ground arith
  money_of_iff c (some (arr xs)) = ground arith
  money_of_iff c (some (obj fs)) = ground arith

  amounts_at_iff :
      (ks : List String) (c : Text) (fs : Fields)
      → Any (λ x. x ≡ m) (amounts_at ks c fs)
        ↔ ((m.currency ≡ to_upper c) × Any (λ k. get k fs ≡ some (num m.amount)) ks)
  unfolding amounts_at
  amounts_at_iff [] c fs = ground arith
  amounts_at_iff (k ∷ ks) c fs = ground (
    arith,
    Any-append_iff (λ x. x ≡ m) (money_of c (as_num (get k fs))) (amounts_at ks c fs),
    money_of_iff c (get k fs),
    amounts_at_iff ks c fs,
  )

  abbrev StatesIn : Fields → Text → Type 0
  StatesIn fs c = (m.currency ≡ to_upper c) × Any (λ k. get k fs ≡ some (num m.amount)) (keys_for c)

  same_text :
      (fs : Fields) (t c : Text) → some (str t) ≡ some (str c) → StatesIn fs c → StatesIn fs t
  same_text fs t c e h = let same : t ≡ c = cc e in subst (StatesIn fs) (sym same) h

  own_amounts_at :
      (o : Option Json) (fs : Fields)
      → Any (λ x. x ≡ m) (own_amounts (as_str o) fs) ↔ (
          (c : Text) × (o ≡ some (str c))
          × (m.currency ≡ to_upper c)
          × Any (λ k. get k fs ≡ some (num m.amount)) (keys_for c))
  own_amounts_at none fs = (λ h. absurd h, λ h. cc h.1)
  own_amounts_at (some (str t)) fs =
      let (there, back) = amounts_at_iff (keys_for t) t fs in
      (λ h. (t, refl, (there h).0, (there h).1), λ (c, e, p, q). back (same_text fs t c e (p, q)))
  own_amounts_at (some null) fs = (λ h. absurd h, λ h. cc h.1)
  own_amounts_at (some (bool b)) fs = (λ h. absurd h, λ h. cc h.1)
  own_amounts_at (some (num n)) fs = (λ h. absurd h, λ h. cc h.1)
  own_amounts_at (some (arr xs)) fs = (λ h. absurd h, λ h. cc h.1)
  own_amounts_at (some (obj gs)) fs = (λ h. absurd h, λ h. cc h.1)

mutual
  unfolding scan_money

  scan_sound : (m : ScannedMoney) (v : Json) → Any (λ x. x ≡ m) (scan_money v) → States m v
  scan_sound m null h = absurd h
  scan_sound m (bool b) h = absurd h
  scan_sound m (num n) h = absurd h
  scan_sound m (str t) h = absurd h
  scan_sound m (arr xs) h = in_arr (scan_items_sound m xs h)
  scan_sound m (obj fs) h =
      elim ((Any-append_iff _ (own_amounts (as_str (get "currency" fs)) fs) (scan_fields fs)).0 h) [
        | inl own ↦ here ((own_amounts_at m (get "currency" fs) fs).0 own)
        | inr inside ↦ in_obj (scan_fields_sound m fs inside)
      ]

  scan_items_sound :
      (m : ScannedMoney) (xs : Items) → Any (λ x. x ≡ m) (scan_items xs) → StatesItem m xs
  scan_items_sound m nil h = absurd h
  scan_items_sound m (item v xs) h = elim ((Any-append_iff _ (scan_money v) (scan_items xs)).0 h) [
    | inl here' ↦ in_item (scan_sound m v here')
    | inr there ↦ in_later_item (scan_items_sound m xs there)
  ]

  scan_fields_sound :
      (m : ScannedMoney) (fs : Fields) → Any (λ x. x ≡ m) (scan_fields fs) → StatesField m fs
  scan_fields_sound m end h = absurd h
  scan_fields_sound m (field k v fs) h =
      elim ((Any-append_iff _ (scan_money v) (scan_fields fs)).0 h) [
        | inl here' ↦ in_field (scan_sound m v here')
        | inr there ↦ in_later_field (scan_fields_sound m fs there)
      ]

mutual
  unfolding scan_money

  scan_complete : (m : ScannedMoney) (v : Json) → States m v → Any (λ x. x ≡ m) (scan_money v)
  scan_complete m null h = elim h [ ]
  scan_complete m (bool b) h = elim h [ ]
  scan_complete m (num n) h = elim h [ ]
  scan_complete m (str t) h = elim h [ ]
  scan_complete m (arr xs) (in_arr h) = scan_items_complete m xs h
  scan_complete m (obj fs) (here h) =
      (Any-append_iff _ (own_amounts (as_str (get "currency" fs)) fs) (scan_fields fs)).1
        (inl ((own_amounts_at m (get "currency" fs) fs).1 h))
  scan_complete m (obj fs) (in_obj h) =
      (Any-append_iff _ (own_amounts (as_str (get "currency" fs)) fs) (scan_fields fs)).1
        (inr (scan_fields_complete m fs h))

  scan_items_complete :
      (m : ScannedMoney) (xs : Items) → StatesItem m xs → Any (λ x. x ≡ m) (scan_items xs)
  scan_items_complete m nil h = elim h [ ]
  scan_items_complete m (item v xs) (in_item h) =
      (Any-append_iff _ (scan_money v) (scan_items xs)).1 (inl (scan_complete m v h))
  scan_items_complete m (item v xs) (in_later_item h) =
      (Any-append_iff _ (scan_money v) (scan_items xs)).1 (inr (scan_items_complete m xs h))

  scan_fields_complete :
      (m : ScannedMoney) (fs : Fields) → StatesField m fs → Any (λ x. x ≡ m) (scan_fields fs)
  scan_fields_complete m end h = elim h [ ]
  scan_fields_complete m (field k v fs) (in_field h) =
      (Any-append_iff _ (scan_money v) (scan_fields fs)).1 (inl (scan_complete m v h))
  scan_fields_complete m (field k v fs) (in_later_field h) =
      (Any-append_iff _ (scan_money v) (scan_fields fs)).1 (inr (scan_fields_complete m fs h))

-- The scan of a tool's result finds an amount exactly when some object, at any depth of arrays and
-- objects, states it: a number under `amount`, or beside a currency that is not empty under `fee`,
-- `fare`, `total`, `subtotal`, `surgeAmount` or `refund`, with the object's currency in capitals.
pub scan_money_iff : (m : ScannedMoney) (v : Json) → Any (λ x. x ≡ m) (scan_money v) ↔ States m v
scan_money_iff m v = (scan_sound m v, scan_complete m v)
