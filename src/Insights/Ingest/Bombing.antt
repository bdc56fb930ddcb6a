-- ===== src/Insights/Ingest/Bombing.antt =====
-- The subjects that `detectReviewBombing` finds.
use gen_xtaxi_ai.Common.{
  ℕ, suc, ◌+◌, ◌*◌, ◌≤◌, ◌<◌, String, str_eq, ◌≡◌, refl, sym, ap, ◌∙◌, ◌↔◌, inl, inr, true, false,
  not, List, [], ◌∷◌, map, keep, any, none, length, All, Any, any_iff, Bool-cases, arith,
}
use gen_xtaxi_ai.Common.Text.{Text, text_eq, text_eq_iff, trim}
use gen_xtaxi_ai.Insights.{RawReview}
use gen_xtaxi_ai.Insights.Groups.{selected-grouped, passes, extend}
use gen_xtaxi_ai.Insights.Filter.{Pattern}
use gen_xtaxi_ai.Insights.Ingest.{distinct, is_set, is_bombed, bombing_text, detect_review_bombing}

-- Each text is one of the kinds.
abbrev pub AreOf : List Text → List Text → Type 0
AreOf kinds texts = All (λ (t : Text). Any (λ (k : Text). t ≡ k) kinds) texts

-- At least five texts that are not blank, of at most a third as many kinds, rounded up.
abbrev pub IsBombed : List Text → Type 0
IsBombed texts =
    (5 ≤ length (keep is_set texts))
    × ((kinds : List Text) × AreOf kinds (keep is_set texts)
        × (3 * length kinds ≤ length (keep is_set texts) + 2))

abbrev others : Text → List Text → List Text
others t kinds = keep (λ k. not (text_eq t k)) kinds

length-others_le : (t : Text) (kinds : List Text) → length (others t kinds) ≤ length kinds
length-others_le t [] = omega arith
length-others_le t (k ∷ ks) = elim (Bool-cases (text_eq t k)) [
  | inl e ↦ rw e (omega (arith, length-others_le t ks))
  | inr e ↦ rw e (omega (arith, length-others_le t ks))
]

length-others_lt :
    (t : Text) (kinds : List Text)
    → Any (λ (k : Text). t ≡ k) kinds
    → length (others t kinds) < length kinds
length-others_lt t [] h = absurd h
length-others_lt t (k ∷ ks) h = elim (Bool-cases (text_eq t k)) [
  | inl e ↦ rw e (omega (arith, length-others_le t ks))
  | inr e ↦ elim h [
    | inl same ↦ let k' : false ≡ true = sym e ∙ (text_eq_iff t k).1 same in cc k'
    | inr later ↦ rw e (omega (arith, length-others_lt t ks later))
  ]
]

others-Any :
    (t u : Text) (kinds : List Text)
    → text_eq t u ≡ false
    → Any (λ (k : Text). u ≡ k) kinds
    → Any (λ (k : Text). u ≡ k) (others t kinds)
others-Any t u [] differs h = absurd h
others-Any t u (k ∷ ks) differs h = elim (Bool-cases (text_eq t k)) [
  | inr e ↦ elim h [
    | inl same ↦ rw e (inl same)
    | inr later ↦ rw e (inr (others-Any t u ks differs later))
  ]
  | inl e ↦ elim h [
    | inl same ↦ let k' : false ≡ true = sym differs ∙ ap (text_eq t) same ∙ e in cc k'
    | inr later ↦ rw e (others-Any t u ks differs later)
  ]
]

others-AreOf :
    (t : Text) (kinds texts : List Text)
    → any (text_eq t) texts ≡ false
    → AreOf kinds texts
    → AreOf (others t kinds) texts
others-AreOf t kinds [] new h = tt
others-AreOf t kinds (u ∷ us) new (h, hs) = elim (Bool-cases (text_eq t u)) [
  | inl e ↦ let k : true ≡ false = rw e at new in cc k
  | inr e ↦
      let rest : any (text_eq t) us ≡ false = rw e at new in
      (others-Any t u kinds e h, others-AreOf t kinds us rest hs)
]

-- There are not fewer kinds than there are distinct texts.
distinct_least : (texts kinds : List Text) → AreOf kinds texts → distinct texts ≤ length kinds
distinct_least [] kinds h = omega arith
distinct_least (t ∷ ts) kinds (h, hs) = elim (Bool-cases (any (text_eq t) ts)) [
  | inl e ↦ rw e (distinct_least ts kinds hs)
  | inr e ↦
      let fewer = distinct_least ts (others t kinds) (others-AreOf t kinds ts e hs) in
      rw e (omega (arith, fewer, length-others_lt t kinds h))
]

more-AreOf : (k : Text) (kinds texts : List Text) → AreOf kinds texts → AreOf (k ∷ kinds) texts
more-AreOf k kinds [] h = tt
more-AreOf k kinds (t ∷ ts) (h, hs) = (inr h, more-AreOf k kinds ts hs)

at-AreOf :
    (t : Text) (kinds texts : List Text)
    → AreOf kinds texts
    → Any (λ (u : Text). text_eq t u ≡ true) texts
    → Any (λ (k : Text). t ≡ k) kinds
at-AreOf t kinds [] h found = absurd found
at-AreOf t kinds (u ∷ us) (h, hs) (inl e) = rw ((text_eq_iff t u).0 e) h
at-AreOf t kinds (u ∷ us) (h, hs) (inr e) = at-AreOf t kinds us hs e

-- The distinct texts are such kinds.
distinct-AreOf :
    (texts : List Text) → (kinds : List Text) × AreOf kinds texts × (length kinds ≡ distinct texts)
distinct-AreOf [] = ([], tt, refl)
distinct-AreOf (t ∷ ts) =
    let (kinds, all, size) = distinct-AreOf ts in
    elim (Bool-cases (any (text_eq t) ts)) [
      | inl e ↦ rw e (kinds, (at-AreOf t kinds ts all ((any_iff (text_eq t) ts).0 e), all), size)
      | inr e ↦ rw e (t ∷ kinds, (inl refl, more-AreOf t kinds ts all), ap suc size)
    ]

length-keep_le : (texts : List Text) → length (keep is_set texts) ≤ length texts
length-keep_le [] = omega arith
length-keep_le (t ∷ ts) = elim (Bool-cases (is_set t)) [
  | inl e ↦ rw e (omega (arith, length-keep_le ts))
  | inr e ↦ rw e (omega (arith, length-keep_le ts))
]

is_bombed_iff : (texts : List Text) → (is_bombed texts ≡ true) ↔ IsBombed texts
is_bombed_iff texts =
    let told = keep is_set texts in
    let most = length-keep_le texts in
    let (kinds, all, size) = distinct-AreOf told in
    (
      λ h.
          let few : 3 * distinct told ≤ length told + 2 = ground (arith, h) in
          let many : 5 ≤ length told = ground (arith, h) in
          (many, (kinds, all, omega (arith, size, few))),
      λ h.
          let (many, (given, of_given, few)) = h in
          let least = distinct_least told given of_given in ground (arith, most, many, few, least),
    )

passes-extend : (texts : List Text) → passes is_bombed (extend none texts) ≡ is_bombed texts
passes-extend [] = refl
passes-extend (t ∷ ts) = refl

module _ (replace_all : Pattern → Text → Text × ℕ) (lower : Text → Text)
    (default_lang : String) where
  -- A subject is found exactly when those of its own texts in the batch, trimmed and in lower case, that are
  -- not blank are at least five, and are all among at most a third as many, rounded up.
  pub detect_review_bombing_iff :
      (subject : String) (reviews : List RawReview)
      → (any (λ s. str_eq s subject) (detect_review_bombing replace_all lower default_lang reviews)
          ≡ true)
        ↔ IsBombed
            (map (λ r. lower (trim r.text)) (keep (λ r. str_eq r.subject_id subject) reviews))
  unfolding detect_review_bombing
  detect_review_bombing_iff subject reviews =
      let own =
        map (bombing_text replace_all lower default_lang)
          (keep (λ r. str_eq r.subject_id subject) reviews) in
      let same =
        selected-grouped (λ r. r.subject_id) (bombing_text replace_all lower default_lang)
          (λ s. is_bombed) subject reviews
        ∙ passes-extend own in
      let (there, back) = is_bombed_iff own in (λ h. there (sym same ∙ h), λ h. same ∙ back h)
