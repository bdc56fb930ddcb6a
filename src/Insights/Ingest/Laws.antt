-- ===== src/Insights/Ingest/Laws.antt =====
-- What an ingested batch makes of the reviews that are there.
use gen_xtaxi_ai.Common.{
  ℕ, suc, ◌≤◌, String, str_eq, eq_iff, ◌≡◌, refl, sym, ap, subst, ◌∙◌, inl, inr, Bool, true, false,
  ◌&&◌, List, [], ◌∷◌, ◌++◌, any, length, All, Bool-cases, arith,
}
use gen_xtaxi_ai.Common.Text.{Text}
use gen_xtaxi_ai.Insights.{SubjectType, driver, rider, RawReview, Review, same_type}
use gen_xtaxi_ai.Insights.Filter.{Pattern}
use gen_xtaxi_ai.Insights.Ingest.{has_key, inserted, upsert_all}
use mathlib.Core.List.{append_assoc, append-nil}

abbrev pub same_key : Review → Review → Bool
same_key v u = str_eq u.ride_id v.ride_id && same_type u.subject_type v.subject_type

-- No two are of one ride and one type of subject.
abbrev pub IsUnique : List Review → Type 0
IsUnique [] = Unit
IsUnique (v ∷ vs) = All (λ u. same_key v u ≡ false) vs × IsUnique vs

same_type_comm : (s t : SubjectType) → same_type s t ≡ same_type t s
same_type_comm driver driver = refl
same_type_comm driver rider = refl
same_type_comm rider driver = refl
same_type_comm rider rider = refl

str_eq_comm : (a b : String) → str_eq a b ≡ str_eq b a
str_eq_comm a b = ground (arith, eq_iff a b, eq_iff b a)

same_key_comm : (v u : Review) → same_key v u ≡ same_key u v
same_key_comm v u =
    rw (str_eq_comm u.ride_id v.ride_id, same_type_comm u.subject_type v.subject_type) refl

All-snoc :
    (v x : Review) (us : List Review)
    → All (λ u. same_key v u ≡ false) us
    → same_key v x ≡ false
    → All (λ u. same_key v u ≡ false) (us ++ x ∷ [])
All-snoc v x [] h k = (k, tt)
All-snoc v x (u ∷ us) (h, hs) k = (h, All-snoc v x us hs k)

IsUnique-snoc :
    (x : Review) (vs : List Review)
    → IsUnique vs
    → any (same_key x) vs ≡ false
    → IsUnique (vs ++ x ∷ [])
IsUnique-snoc x [] h k = (tt, tt)
IsUnique-snoc x (v ∷ vs) (h, hs) k =
    let here : same_key x v ≡ false = ground (arith, k) in
    let there : any (same_key x) vs ≡ false = ground (arith, k) in
    (All-snoc v x vs h (same_key_comm v x ∙ here), IsUnique-snoc x vs hs there)

any-append : (p : Review → Bool) (xs ys : List Review) → any p xs ≡ true → any p (xs ++ ys) ≡ true
any-append p [] ys h = cc h
any-append p (x ∷ xs) ys h = ground (arith, any-append p xs ys, h)

any-last :
    (p : Review → Bool) (xs : List Review) (y : Review) → p y ≡ true → any p (xs ++ y ∷ []) ≡ true
any-last p [] y h = ground (arith, h)
any-last p (x ∷ xs) y h = ground (arith, any-last p xs y h)

has_key_self :
    (r : RawReview) (v : Review)
    → v.ride_id ≡ r.ride_id
    → v.subject_type ≡ r.subject_type
    → has_key r v ≡ true
has_key_self r v e f = rw (e, f, (eq_iff r.ride_id r.ride_id).1 refl) (same r.subject_type)
  where
    same : (t : SubjectType) → same_type t t ≡ true
    same driver = refl
    same rider = refl

module _ (replace_all : Pattern → Text → Text × ℕ) (lower : Text → Text)
    (default_lang : String) where
  abbrev pub run : List String → List RawReview → List Review → List Review × ℕ
  run = upsert_all replace_all lower default_lang

  abbrev pub made : List String → RawReview → Review
  made = inserted replace_all lower default_lang

  -- A batch that is upserted adds reviews behind those that are there, which it leaves as they are; it
  -- counts those that it adds, and at most one for each of the batch.
  pub upsert_all-adds :
      (bombed : List String) (rs : List RawReview) (reviews : List Review)
      → (added : List Review) × ((run bombed rs reviews).0 ≡ reviews ++ added)
        × ((run bombed rs reviews).1 ≡ length added)
        × (length added ≤ length rs)
  unfolding upsert_all
  upsert_all-adds bombed [] reviews = ([], sym (append-nil reviews), refl, omega arith)
  upsert_all-adds bombed (r ∷ rs) reviews = elim (Bool-cases (any (has_key r) reviews)) [
    | inl e ↦
        let (added, now, count, most) = upsert_all-adds bombed rs reviews in
        (added, rw (e, upsert_all) now, rw (e, upsert_all) count, omega (arith, most))
    | inr e ↦
        let (added, now, count, most) = upsert_all-adds bombed rs (reviews ++ made bombed r ∷ []) in
        (
          made bombed r ∷ added,
          rw (e, upsert_all) (now ∙ append_assoc reviews (made bombed r ∷ []) added),
          rw (e, upsert_all) (ap suc count),
          omega (arith, most),
        )
  ]

  pub upsert_all-IsUnique :
      (bombed : List String) (rs : List RawReview) (reviews : List Review)
      → IsUnique reviews
      → IsUnique (run bombed rs reviews).0
  unfolding upsert_all
  upsert_all-IsUnique bombed [] reviews h = h
  upsert_all-IsUnique bombed (r ∷ rs) reviews h = elim (Bool-cases (any (has_key r) reviews)) [
    | inl e ↦ rw (e, upsert_all) (upsert_all-IsUnique bombed rs reviews h)
    | inr e ↦
        rw (e, upsert_all)
          (upsert_all-IsUnique bombed rs (reviews ++ made bombed r ∷ [])
            (IsUnique-snoc (made bombed r) reviews h e))
  ]

  upsert_all-keeps :
      (bombed : List String) (p : Review → Bool) (rs : List RawReview) (reviews : List Review)
      → any p reviews ≡ true
      → any p (run bombed rs reviews).0 ≡ true
  upsert_all-keeps bombed p rs reviews h =
      let (added, now, _, _) = upsert_all-adds bombed rs reviews in
      rw now (any-append p reviews added h)

  -- After a batch each of its reviews has one under its key.
  found_after :
      (bombed : List String) (rs : List RawReview) (reviews : List Review)
      → All (λ r. any (has_key r) (run bombed rs reviews).0 ≡ true) rs
  unfolding upsert_all
  found_after bombed [] reviews = tt
  found_after bombed (r ∷ rs) reviews = elim (Bool-cases (any (has_key r) reviews)) [
    | inl e ↦
        let now : (run bombed (r ∷ rs) reviews).0 ≡ (run bombed rs reviews).0 =
          rw (e, upsert_all) refl in
        subst (λ out. All (λ q. any (has_key q) out ≡ true) (r ∷ rs)) (sym now)
          (upsert_all-keeps bombed (has_key r) rs reviews e, found_after bombed rs reviews)
    | inr e ↦
        let more = reviews ++ made bombed r ∷ [] in
        let now : (run bombed (r ∷ rs) reviews).0 ≡ (run bombed rs more).0 =
          rw (e, upsert_all) refl in
        let here : any (has_key r) more ≡ true =
          any-last (has_key r) reviews (made bombed r) (has_key_self r (made bombed r) refl refl) in
        subst (λ out. All (λ q. any (has_key q) out ≡ true) (r ∷ rs)) (sym now)
          (upsert_all-keeps bombed (has_key r) rs more here, found_after bombed rs more)
  ]

  known_again :
      (bombed : List String) (rs : List RawReview) (reviews : List Review)
      → All (λ r. any (has_key r) reviews ≡ true) rs
      → run bombed rs reviews ≡ (reviews, 0)
  unfolding upsert_all
  known_again bombed [] reviews h = refl
  known_again bombed (r ∷ rs) reviews (h, hs) =
      rw (h, upsert_all) (known_again bombed rs reviews hs)

  -- A batch that is upserted again, as after a crash before the watermark was written, inserts nothing
  -- and changes nothing, whatever subjects are thought bombed then; and the reviews have unique keys
  -- after it if they had before.
  pub upsert_all_idempotent :
      (bombed again : List String) (rs : List RawReview) (reviews : List Review)
      → (run again rs (run bombed rs reviews).0 ≡ ((run bombed rs reviews).0, 0))
        × (IsUnique reviews → IsUnique (run bombed rs reviews).0)
  upsert_all_idempotent bombed again rs reviews = (
    known_again again rs (run bombed rs reviews).0 (found_after bombed rs reviews),
    upsert_all-IsUnique bombed rs reviews,
  )
