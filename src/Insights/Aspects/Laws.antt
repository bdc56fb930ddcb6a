-- ===== src/Insights/Aspects/Laws.antt =====
-- What extraction stores in the reviews, and how far a batch comes.
use gen_xtaxi_ai.Common.{
  ℕ, zero, suc, ◌+◌, String, ◌≤◌, ◌≡◌, ◌≢◌, refl, sym, subst, ◌⊎◌, inl, inr, true, false, Option,
  none, some, List, [], ◌∷◌, map, keep, length, All, leb, if◌then◌else◌, Bool-cases, arith,
}
use gen_xtaxi_ai.Common.Double.{ltb_number}
use gen_xtaxi_ai.Common.Int.{pos, negsuc}
use gen_xtaxi_ai.Common.Number.{Number, finite, infinite, nan}
use gen_xtaxi_ai.Common.Text.{Text, trim}
use gen_xtaxi_ai.Insights.{AspectResult, Review}
use gen_xtaxi_ai.Insights.Aspects.{
  Answer, answered, unanswered, no_list, number, in_taxonomy, or_zero, clamp, clamped, extracted,
  extract, stored, behind, Processed, is_pending, process_first, process_pending,
}

-- From -1 to 1.
abbrev pub IsSentiment : Number → Type 0
IsSentiment n =
    (n ≢ nan) × (ltb_number (number (pos 1)) n ≡ false) × (ltb_number n (number (negsuc 0)) ≡ false)

abbrev pub IsSound : AspectResult → Type 0
IsSound a = (in_taxonomy a ≡ true) × IsSentiment a.sentiment

clamp-IsSentiment : (n : Number) → IsSentiment (clamp (or_zero n))
unfolding clamp ltb_number
clamp-IsSentiment nan = (λ h. cc h, refl, refl)
clamp-IsSentiment (infinite true) = (λ h. cc h, refl, refl)
clamp-IsSentiment (infinite false) = (λ h. cc h, refl, refl)
clamp-IsSentiment (finite f) = elim (Bool-cases (ltb_number (number (pos 1)) (finite f))) [
  | inl t ↦ rw (t, ltb_number) (λ h. cc h, refl, refl)
  | inr t ↦ elim (Bool-cases (ltb_number (finite f) (number (negsuc 0)))) [
    | inl u ↦ rw (t, u, ltb_number) (λ h. cc h, refl, refl)
    | inr u ↦ rw (t, u) (λ h. cc h, t, u)
  ]
]

clamped-All : (raw : List AspectResult) → All IsSound (map clamped (keep in_taxonomy raw))
clamped-All [] = tt
clamped-All (a ∷ more) = elim (Bool-cases (in_taxonomy a)) [
  | inl t ↦ rw t ((t, clamp-IsSentiment a.sentiment), clamped-All more)
  | inr t ↦ rw t (clamped-All more)
]

abbrev pub IsDescribed : Review → Type 0
IsDescribed v = All IsSound v.aspects

-- A review but for what extraction writes.
abbrev pub undescribed : Review → Review
undescribed v = record v { aspects = []; aspects_processed = false }

module _ {S : Type 0} (ask : Text → Number → String → S → Answer × S) where
  abbrev pub pending : List Review → ℕ
  pending vs = length (keep (is_pending ask) vs)

  extracted-IsSound :
      (answer : Answer) (found : List AspectResult)
      → extracted ask answer ≡ some found
      → All IsSound found
  extracted-IsSound (answered raw) found h =
      let same : map clamped (keep in_taxonomy raw) ≡ found = cc h in
      subst (All IsSound) same (clamped-All raw)
  extracted-IsSound unanswered found h = let same : [] ≡ found = cc h in subst (All IsSound) same tt
  extracted-IsSound no_list found h = cc h

  extract-IsSound :
      (text : Text) (rating : Number) (lang : String) (s : S) (found : List AspectResult)
      → (extract ask text rating lang s).0 ≡ some found
      → All IsSound found
  unfolding extract
  extract-IsSound text rating lang s found h = split (trim text) refl
    where
      split : (t : Text) → trim text ≡ t → All IsSound found
      split [] e =
          let h' : some [] ≡ some found = rw (e, extract) at h in
          let same : [] ≡ found = cc h' in subst (All IsSound) same tt
      split (c ∷ t) e = extracted-IsSound (ask text rating lang s).0 found (rw (e, extract) at h)

  -- Each review is as it was, or was pending, is no longer, and differs in its aspects and that mark only.
  abbrev pub AreKept : List Review → List Review → Type 0
  AreKept [] [] = Unit
  AreKept [] (r ∷ rs) = ⊥
  AreKept (v ∷ vs) [] = ⊥
  AreKept (v ∷ vs) (r ∷ rs) =
      ((r ≡ v)
        ⊎ ((is_pending ask v ≡ true)
            × (is_pending ask r ≡ false)
            × (undescribed r ≡ undescribed v)))
      × AreKept vs rs

  AreKept-refl : (vs : List Review) → AreKept vs vs
  AreKept-refl [] = tt
  AreKept-refl (v ∷ vs) = (inl refl, AreKept-refl vs)

  pub AreKept-undescribed :
      (vs rs : List Review) → AreKept vs rs → map undescribed rs ≡ map undescribed vs
  AreKept-undescribed [] [] h = refl
  AreKept-undescribed [] (r ∷ rs) h = absurd h
  AreKept-undescribed (v ∷ vs) [] h = absurd h
  AreKept-undescribed (v ∷ vs) (r ∷ rs) (inl same, h) = rw (same, AreKept-undescribed vs rs h) refl
  AreKept-undescribed (v ∷ vs) (r ∷ rs) (inr (_, _, same), h) =
      rw (same, AreKept-undescribed vs rs h) refl

  -- As many reviews as were pending and are not any more are done, and unless one threw they are
  -- `expected` many.
  abbrev pub Advances : ℕ → List Review → Processed ask → Type 0
  Advances expected vs p =
      (All IsDescribed vs → All IsDescribed p.reviews)
      × AreKept vs p.reviews
      × (pending p.reviews + p.done ≡ pending vs)
      × (p.threw ≡ false → p.done ≡ expected)

  abbrev first_of : ℕ → List Review → ℕ
  first_of batch vs = if leb batch (pending vs) then batch else pending vs

  -- The pending reviews, or as many of them as a batch other than 0 allows.
  abbrev pub allowed : ℕ → List Review → ℕ
  allowed zero vs = pending vs
  allowed (suc batch) vs = if leb (suc batch) (pending vs) then suc batch else pending vs

  stored-Advances :
      (batch : ℕ) (v : Review) (vs : List Review) (o : Option (List AspectResult)) (s : S)
      (rest : S → Processed ask)
      → is_pending ask v ≡ true
      → ((found : List AspectResult) → o ≡ some found → All IsSound found)
      → ((t : S) → Advances (first_of batch vs) vs (rest t))
      → Advances (first_of (suc batch) (v ∷ vs)) (v ∷ vs) (stored ask v vs o s rest)
  stored-Advances batch v vs none s rest e sound ih =
      (λ h. h, AreKept-refl (v ∷ vs), omega arith, λ h. cc h)
  stored-Advances batch v vs (some found) s rest e sound ih =
      let (described, same, left, most) = ih s in
      (
        λ h. (sound found refl, described h.1),
        (inr (e, refl, refl), same),
        rw e (omega (arith, left)),
        λ h. rw e (ground (arith, most h)),
      )

  behind-Advances :
      (batch : ℕ) (v : Review) (vs : List Review) (p : Processed ask)
      → is_pending ask v ≡ false
      → Advances (first_of batch vs) vs p
      → Advances (first_of batch (v ∷ vs)) (v ∷ vs) (behind ask v p)
  behind-Advances batch v vs p e (described, same, left, most) =
      rw e (λ h. (h.0, described h.1), (inl refl, same), left, most)

  process_first-Advances :
      (batch : ℕ) (vs : List Review) (s : S)
      → Advances (first_of batch vs) vs (process_first ask batch vs s)
  unfolding process_first
  process_first-Advances zero vs s = (λ h. h, AreKept-refl vs, omega arith, λ h. ground arith)
  process_first-Advances (suc batch) [] s = (λ h. h, tt, omega arith, λ h. ground arith)
  process_first-Advances (suc batch) (v ∷ vs) s = elim (Bool-cases (is_pending ask v)) [
    | inl e ↦
        let asked = extract ask v.text v.rating v.lang s in
        let now : process_first ask (suc batch) (v ∷ vs) s
            ≡ stored ask v vs asked.0 asked.1 (process_first ask batch vs) =
          rw (e, process_first) refl in
        subst (Advances (first_of (suc batch) (v ∷ vs)) (v ∷ vs)) (sym now) (
          stored-Advances batch v vs asked.0 asked.1 (process_first ask batch vs) e
            (λ found h. extract-IsSound v.text v.rating v.lang s found h)
            (λ t. process_first-Advances batch vs t))
    | inr e ↦
        let now : process_first ask (suc batch) (v ∷ vs) s
            ≡ behind ask v (process_first ask (suc batch) vs s) =
          rw (e, process_first) refl in
        subst (Advances (first_of (suc batch) (v ∷ vs)) (v ∷ vs)) (sym now) (
          behind-Advances (suc batch) v vs (process_first ask (suc batch) vs s) e
            (process_first-Advances (suc batch) vs s))
  ]

  pending_most : (vs : List Review) → pending vs ≤ length vs
  pending_most [] = omega arith
  pending_most (v ∷ vs) = elim (Bool-cases (is_pending ask v)) [
    | inl e ↦ rw e (omega (arith, pending_most vs))
    | inr e ↦ rw e (omega (arith, pending_most vs))
  ]

  -- A batch leaves each review described within the taxonomy, with sentiments from -1 to 1, if they
  -- were so before; each is as it was, or was pending, is no longer, and has changed in nothing else;
  -- those are as many as it reports; and unless one threw they are all that were pending, or as many
  -- of them as the batch, if it is not 0, allows.
  pub process_pending-Advances :
      (batch : ℕ) (vs : List Review) (s : S)
      → Advances (allowed batch vs) vs (process_pending ask batch vs s)
  unfolding process_pending
  process_pending-Advances zero vs s =
      let most = pending_most vs in
      let all : first_of (length vs) vs ≡ pending vs = ground (arith, most) in
      subst (λ n. Advances n vs (process_first ask (length vs) vs s)) all
        (process_first-Advances (length vs) vs s)
  process_pending-Advances (suc batch) vs s = process_first-Advances (suc batch) vs s
