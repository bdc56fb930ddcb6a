-- ===== src/Insights/Serving/Laws.antt =====
-- The chips of a rider's view.
use gen_xtaxi_ai.Common.{
  ℕ, zero, suc, ◌≤◌, ◌≡◌, ◌≢◌, refl, sym, ap, subst, ◌⊎◌, inl, inr, true, false, List, [], ◌∷◌,
  ◌++◌, map, take, drop, keep, length, All, Bool-cases, arith,
}
use gen_xtaxi_ai.Common.Double.{ltb_number}
use gen_xtaxi_ai.Common.Double.Order.{ltb_number_asym, ltb_number_trans}
use gen_xtaxi_ai.Common.Number.{Number, nan, finite}
use gen_xtaxi_ai.Common.Int.{pos}
use gen_xtaxi_ai.Common.Lemmas.{take-drop, length-take_le}
use gen_xtaxi_ai.Common.Sort.{sort, IsSorted, sort-IsSorted, sort-Perm}
use gen_xtaxi_ai.Insights.Serving.{Chip, chip, chips_of, is_positive, better, chip_threshold}
use gen_xtaxi_ai.Insights.Summaries.{AspectSummary}
use mathlib.Core.List.{Perm}

abbrev IsNumber : AspectSummary → Type 0
IsNumber a = a.sentiment ≢ nan

positive-IsNumber : (a : AspectSummary) → is_positive a ≡ true → IsNumber a
unfolding ltb_number
positive-IsNumber a h e = let h' : ltb_number chip_threshold nan ≡ true = rw e at h in cc h'

keep-All : (found : List AspectSummary) → All IsNumber (keep is_positive found)
keep-All [] = tt
keep-All (a ∷ more) = elim (Bool-cases (is_positive a)) [
  | inl t ↦ rw t (positive-IsNumber a t, keep-All more)
  | inr t ↦ rw t (keep-All more)
]

-- 0.2, as the double that it is.
abbrev pub fifth : Number
fifth = finite (record { num = pos 3602879701896397; below = 18014398509481983 })

-- No sentiment of the list is below this aspect's.
abbrev pub NotAbove : List AspectSummary → AspectSummary → Type 0
NotAbove xs y = All (λ (x : AspectSummary). ltb_number x.sentiment y.sentiment ≡ false) xs

IsSorted-append :
    (xs ys : List AspectSummary)
    → IsSorted better (xs ++ ys)
    → IsSorted better xs × All (NotAbove xs) ys
IsSorted-append [] ys h = (tt, nothing ys)
  where
    nothing : (ys : List AspectSummary) → All (NotAbove []) ys
    nothing [] = tt
    nothing (y ∷ ys) = (tt, nothing ys)
IsSorted-append (x ∷ xs) ys (h, hs) =
    let (sorted, behind) = IsSorted-append xs ys hs in
    let (front, back) = split xs h in ((front, sorted), both ys back behind)
  where
    split :
        (xs : List AspectSummary)
        → All (λ (y : AspectSummary). better y x ≡ false) (xs ++ ys)
        → All (λ (y : AspectSummary). better y x ≡ false) xs
          × All (λ (y : AspectSummary). better y x ≡ false) ys
    split [] h = (tt, h)
    split (z ∷ zs) (h, hs) = let (front, back) = split zs hs in ((h, front), back)

    both :
        (ys : List AspectSummary)
        → All (λ (y : AspectSummary). better y x ≡ false) ys
        → All (NotAbove xs) ys
        → All (NotAbove (x ∷ xs)) ys
    both [] h k = tt
    both (y ∷ ys) (h, hs) (k, ks) = ((h, k), both ys hs ks)

chips-IsSorted :
    (shown : List AspectSummary)
    → IsSorted better shown
    → IsSorted (λ (x y : Chip). ltb_number y.sentiment x.sentiment) (map chip shown)
chips-IsSorted [] h = tt
chips-IsSorted (x ∷ xs) (h, hs) = (each xs h, chips-IsSorted xs hs)
  where
    each :
        (ys : List AspectSummary)
        → All (λ (y : AspectSummary). better y x ≡ false) ys
        → All (λ c. ltb_number x.sentiment c.sentiment ≡ false) (map chip ys)
    each [] h = tt
    each (y ∷ ys) (h, hs) = (h, each ys hs)

chosen_or_few : (k : ℕ) (xs : List AspectSummary) → (length (take k xs) ≡ k) ⊎ (length xs ≤ k)
chosen_or_few zero xs = inl refl
chosen_or_few (suc k) [] = inr (omega arith)
chosen_or_few (suc k) (x ∷ xs) = elim (chosen_or_few k xs) [
  | inl h ↦ inl (ap suc h)
  | inr h ↦ inr (omega (arith, h))
]

few-drop : (k : ℕ) (xs : List AspectSummary) → length xs ≤ k → drop k xs ≡ []
few-drop zero [] h = refl
few-drop zero (x ∷ xs) h = absurd (omega (arith, h))
few-drop (suc k) [] h = refl
few-drop (suc k) (x ∷ xs) h = few-drop k xs (omega (arith, h))

-- The aspects with a sentiment above 0.2 are those shown and those left out: at most four are shown, by
-- name and sentiment, the higher sentiment first; no one left out has a sentiment above that of a shown
-- one, and none is left out unless four are shown.
abbrev pub Shows : List AspectSummary → List Chip → Type 0
Shows found chips =
    (shown : List AspectSummary) × (left_out : List AspectSummary) × Perm (shown ++ left_out)
      (keep (λ a. ltb_number fifth a.sentiment) found)
    × (chips ≡ map (λ a. record { aspect = a.name; sentiment = a.sentiment }) shown)
    × IsSorted (λ (x y : Chip). ltb_number y.sentiment x.sentiment) chips
    × All (NotAbove shown) left_out
    × (length shown ≤ 4)
    × ((length shown ≡ 4) ⊎ (left_out ≡ []))

-- A rider sees of the aspects with a sentiment above 0.2 at most four, each by its name and sentiment and
-- the higher sentiment first; none left out has a sentiment above that of one shown, and none is left
-- out unless four are shown.
pub chips_of_lem : (found : List AspectSummary) → Shows found (chips_of found)
unfolding chips_of
chips_of_lem found =
    let positive = keep is_positive found in
    let ranked = sort better positive in
    let sorted =
      sort-IsSorted better IsNumber (λ x y h. ltb_number_asym y.sentiment x.sentiment h)
        (λ x y z n h k. ltb_number_trans x.sentiment y.sentiment z.sentiment n h k) positive
        (keep-All found) in
    let (front, back) =
      IsSorted-append (take 4 ranked) (drop 4 ranked)
        (subst (IsSorted better) (sym (take-drop 4 ranked)) sorted) in
    (
      take 4 ranked,
      drop 4 ranked,
      subst (λ xs. Perm xs positive) (sym (take-drop 4 ranked)) (sort-Perm better positive),
      refl,
      chips-IsSorted (take 4 ranked) front,
      back,
      length-take_le 4 ranked,
      elim (chosen_or_few 4 ranked) [ inl h ↦ inl h | inr h ↦ inr (few-drop 4 ranked h) ],
    )
