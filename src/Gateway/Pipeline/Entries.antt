-- ===== src/Gateway/Pipeline/Entries.antt =====
-- Records of the log, with the counters of the budgets that their tokens are counted under.
use gen_xtaxi_ai.Common.{
  ℕ, ◌+◌, String, str_eq, eq_iff, Bool-cases, inl, inr, All, ◌≡◌, refl, sym, ap, true, false, ◌∙◌,
  List, [], ◌∷◌, ◌++◌, if◌then◌else◌, arith,
}
use gen_xtaxi_ai.Gateway.{budget_key}
use gen_xtaxi_ai.Gateway.Laws.{budget_key-inj}
use gen_xtaxi_ai.Gateway.Calls.{AiCallRecord, metrics_of}
use mathlib.Core.List.{flat_map}

-- A record, with the key of the counter that its tokens are counted under.
abbrev pub Entry : Type 0
Entry = String × AiCallRecord

abbrev pub records : List Entry → List AiCallRecord
records [] = []
records ((k, r) ∷ es) = r ∷ records es

-- The tokens under a key.
abbrev pub logged : String → List Entry → ℕ
logged key [] = 0
logged key ((k, r) ∷ es) =
    (if str_eq key k then r.input_tokens + r.output_tokens else 0) + logged key es

-- Each record is counted under the key of its user and some day.
abbrev pub AreOwn : List Entry → Type 0
AreOwn es = All (λ (e : Entry). (day : String) × (e.0 ≡ budget_key e.1.user_id day)) es

pub logged-append :
    (key : String) (xs ys : List Entry) → logged key (xs ++ ys) ≡ logged key xs + logged key ys
logged-append key [] ys = omega arith
logged-append key ((k, r) ∷ xs) ys = omega (arith, logged-append key xs ys)

pub records-append : (xs ys : List Entry) → records (xs ++ ys) ≡ records xs ++ records ys
records-append [] ys = refl
records-append ((k, r) ∷ xs) ys = ap (λ rs. r ∷ rs) (records-append xs ys)

pub keys_differ : (u v day : String) → str_eq (budget_key v day) (budget_key u day) ≡ str_eq u v
keys_differ u v day = elim (Bool-cases (str_eq u v)) [
  | inl e ↦
      let same : u ≡ v = (eq_iff u v).0 e in
      rw (e, same) ((eq_iff (budget_key v day) (budget_key v day)).1 refl)
  | inr e ↦ elim (Bool-cases (str_eq (budget_key v day) (budget_key u day))) [
    | inr f ↦ f ∙ sym e
    | inl f ↦
        let same : v ≡ u =
          budget_key-inj v u day ((eq_iff (budget_key v day) (budget_key u day)).0 f) in
        let h : false ≡ true = sym e ∙ (eq_iff u v).1 (sym same) in cc h
  ]
]

pub flat_map-append :
    (xs ys : List AiCallRecord)
    → flat_map metrics_of (xs ++ ys) ≡ flat_map metrics_of xs ++ flat_map metrics_of ys
unfolding flat_map
flat_map-append [] ys = refl
flat_map-append (x ∷ xs) ys = ap (λ more. metrics_of x ++ more) (flat_map-append xs ys)
