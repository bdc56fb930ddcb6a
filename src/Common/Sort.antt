-- ===== src/Common/Sort.antt =====
-- `sort` with a comparison that says which of two comes strictly before the other: stable, as the
-- language's is.
use Prim.Native.Nat.{suc}
use native.Mathlib.Omega.{arith}
use mathlib.Core.Path.{◌≡◌, refl, ap, subst, ◌∙◌}
use mathlib.Core.Bool.{Bool, true, false}
use mathlib.Core.Logic.{inl, inr}
use mathlib.Core.List.{List, [], ◌∷◌, ◌++◌, Perm, flat_map, append_assoc, perm_append_comm}
use mathlib.Core.List.Perm
use gen_xtaxi_ai.Common.Tests.{if◌then◌else◌, Bool-cases}
use gen_xtaxi_ai.Common.Lists.{All, length, keep}

module _ {ℓ} {A : Type ℓ} (before : A → A → Bool) where
  abbrev insert : A → List A → List A
  insert x [] = x ∷ []
  insert x (y ∷ ys) = let rest = insert x ys in if before y x then y ∷ rest else x ∷ y ∷ ys

  unfoldable pub sort : List A → List A
  sort [] = []
  sort (x ∷ xs) = insert x (sort xs)

  insert-Perm : (x : A) (ys : List A) → Perm (insert x ys) (x ∷ ys)
  insert-Perm x [] = Perm.refl (x ∷ [])
  insert-Perm x (y ∷ ys) = elim (Bool-cases (before y x)) [
    | inr e ↦ rw e (Perm.refl (x ∷ y ∷ ys))
    | inl e ↦ rw e (Perm.trans (Perm.cons y (insert-Perm x ys)) (Perm.swap x y ys))
  ]

  pub sort-Perm : (xs : List A) → Perm (sort xs) xs
  unfolding sort
  sort-Perm [] = Perm.refl []
  sort-Perm (x ∷ xs) = Perm.trans (insert-Perm x (sort xs)) (Perm.cons x (sort-Perm xs))

  length-insert : (x : A) (ys : List A) → length (insert x ys) ≡ suc (length ys)
  length-insert x [] = refl
  length-insert x (y ∷ ys) = elim (Bool-cases (before y x)) [
    | inr e ↦ rw e refl
    | inl e ↦ rw e (ap suc (length-insert x ys))
  ]

  pub length-sort : (xs : List A) → length (sort xs) ≡ length xs
  unfolding sort
  length-sort [] = refl
  length-sort (x ∷ xs) = length-insert x (sort xs) ∙ ap suc (length-sort xs)

  -- None comes strictly before one that stands in front of it.
  abbrev pub IsSorted : List A → Type ℓ
  IsSorted [] = Unit
  IsSorted (x ∷ xs) = All (λ y. before y x ≡ false) xs × IsSorted xs

module _ {ℓ} {A : Type ℓ} (before : A → A → Bool) (p : A → Bool) where
  length-keep-insert :
      (x : A) (ys : List A) → length (keep p (insert before x ys)) ≡ length (keep p (x ∷ ys))
  length-keep-insert x [] = refl
  length-keep-insert x (y ∷ ys) = elim (Bool-cases (before y x)) [
    | inr e ↦ rw e refl
    | inl e ↦ rw e (ground (arith, length-keep-insert x ys))
  ]

  -- Sorting changes nothing of how many pass a test.
  pub length-keep-sort : (xs : List A) → length (keep p (sort before xs)) ≡ length (keep p xs)
  unfolding sort
  length-keep-sort [] = refl
  length-keep-sort (x ∷ xs) =
      length-keep-insert x (sort before xs) ∙ ground (arith, length-keep-sort xs)

module _ {ℓ κ} {A : Type ℓ} (before : A → A → Bool) (P : A → Type κ) where
  All-insert_P : (x : A) (ys : List A) → P x → All P ys → All P (insert before x ys)
  All-insert_P x [] h k = (h, tt)
  All-insert_P x (y ∷ ys) h (k, l) = elim (Bool-cases (before y x)) [
    | inr e ↦ rw e (h, (k, l))
    | inl e ↦ rw e (k, All-insert_P x ys h l)
  ]

  pub All-sort : (xs : List A) → All P xs → All P (sort before xs)
  unfolding sort
  All-sort [] h = tt
  All-sort (x ∷ xs) (h, hs) = All-insert_P x (sort before xs) h (All-sort xs hs)

-- The comparison is to be an order where what stands in the middle satisfies `P`.
module _ {ℓ κ} {A : Type ℓ} (before : A → A → Bool) (P : A → Type κ)
    (asym : (x y : A) → before x y ≡ true → before y x ≡ false)
    (trans : (x y z : A) → P y → before y x ≡ false → before z y ≡ false → before z x ≡ false) where
  All-insert :
      (p x : A) (ys : List A)
      → before x p ≡ false
      → All (λ y. before y p ≡ false) ys
      → All (λ y. before y p ≡ false) (insert before x ys)
  All-insert p x ys h k = All-insert_P before (λ y. before y p ≡ false) x ys h k

  All-trans :
      (x y : A) (ys : List A)
      → P y
      → before y x ≡ false
      → All (λ z. before z y ≡ false) ys
      → All (λ z. before z x ≡ false) ys
  All-trans x y [] p h k = tt
  All-trans x y (z ∷ zs) p h (k, l) = (trans x y z p h k, All-trans x y zs p h l)

  insert-IsSorted :
      (x : A) (ys : List A) → All P ys → IsSorted before ys → IsSorted before (insert before x ys)
  insert-IsSorted x [] p h = (tt, tt)
  insert-IsSorted x (y ∷ ys) (p, ps) (h, k) = elim (Bool-cases (before y x)) [
    | inr e ↦ rw e ((e, All-trans x y ys p e h), (h, k))
    | inl e ↦ rw e (All-insert y x ys (asym y x e) h, insert-IsSorted x ys ps k)
  ]

  pub sort-IsSorted : (xs : List A) → All P xs → IsSorted before (sort before xs)
  unfolding sort
  sort-IsSorted [] h = tt
  sort-IsSorted (x ∷ xs) (h, hs) =
      insert-IsSorted x (sort before xs) (All-sort before P xs hs) (sort-IsSorted xs hs)

-- Of three lists one behind the other the first two change places.
swap_append {ℓ} : {A : Type ℓ} (a b c : List A) → Perm (a ++ (b ++ c)) (b ++ (a ++ c))
swap_append a b c =
    subst (λ l. Perm l (b ++ (a ++ c))) (append_assoc a b c)
      (subst (λ r. Perm ((a ++ b) ++ c) r) (append_assoc b a c)
        (Perm.append_right c (perm_append_comm a b)))

module _ {ℓ} {A B : Type ℓ} (before : A → A → Bool) (parts : A → List B) where
  parts-insert :
      (x : A) (ys : List A)
      → Perm (flat_map parts (insert before x ys)) (parts x ++ flat_map parts ys)
  unfolding flat_map
  parts-insert x [] = Perm.refl (parts x ++ [])
  parts-insert x (y ∷ ys) = elim (Bool-cases (before y x)) [
    | inr e ↦ rw e (Perm.refl _)
    | inl e ↦ rw e (
        Perm.trans (Perm.append_left (parts y) (parts-insert x ys))
          (swap_append (parts y) (parts x) (flat_map parts ys)))
  ]

  -- The parts of what is sorted, taken together.
  pub flat_map-sort : (xs : List A) → Perm (flat_map parts (sort before xs)) (flat_map parts xs)
  unfolding flat_map sort
  flat_map-sort [] = Perm.refl []
  flat_map-sort (x ∷ xs) =
      Perm.trans (parts-insert x (sort before xs)) (Perm.append_left (parts x) (flat_map-sort xs))
