-- ===== src/Insights/Groups.antt =====
-- Maps from strings to arrays, as insights-service builds them by loops: an entry that is there keeps
-- its place, and a new one comes last.
use gen_xtaxi_ai.Common.{
  String, str_eq, eq_iff, ◌≡◌, refl, sym, ap, subst, ◌∙◌, inl, inr, Bool, true, false, Option, none,
  some, List, [], ◌∷◌, ◌++◌, map, keep, any, All, if◌then◌else◌, Bool-cases, arith,
}
use mathlib.Core.List.{append_assoc}

abbrev pub lookup {ℓ} : {A : Type ℓ} → String → List (String × A) → Option A
lookup key [] = none
lookup key (e ∷ es) = let rest = lookup key es in if str_eq e.0 key then some e.1 else rest

abbrev pub or_empty {ℓ} : {A : Type ℓ} → Option (List A) → List A
or_empty none = []
or_empty (some xs) = xs

-- `const arr = m.get(key) ?? []; arr.push(a); m.set(key, arr)`
abbrev push_under {ℓ} : {A : Type ℓ} → String → A → List (String × List A) → List (String × List A)
push_under key a [] = (key, a ∷ []) ∷ []
push_under key a (e ∷ es) =
    let rest = push_under key a es in if str_eq e.0 key then (e.0, e.1 ++ a ∷ []) ∷ es else e ∷ rest

module _ {A B : Type 0} (key : A → String) (val : A → B) where
  -- The map that a loop over `xs` makes of `m` with such pushes.
  unfoldable pub grouped : List A → List (String × List B) → List (String × List B)
  grouped [] m = m
  grouped (x ∷ xs) m = grouped xs (push_under (key x) (val x) m)

-- The keys of the entries that pass the test, in their order.
abbrev pub selected {ℓ} : {A : Type ℓ} → (String → A → Bool) → List (String × A) → List String
selected p [] = []
selected p (e ∷ es) = let rest = selected p es in if p e.0 e.1 then e.0 ∷ rest else rest

abbrev pub passes {ℓ} : {A : Type ℓ} → (A → Bool) → Option A → Bool
passes p none = false
passes p (some a) = p a

str_eq_self : (s : String) → str_eq s s ≡ true
str_eq_self s = (eq_iff s s).1 refl

lookup-push_under {ℓ} :
    {A : Type ℓ} (s k : String) (a : A) (m : List (String × List A))
    → lookup s (push_under k a m)
      ≡ (if str_eq k s then some (or_empty (lookup s m) ++ a ∷ []) else lookup s m)
lookup-push_under s k a [] = refl
lookup-push_under s k a (e ∷ es) = elim (Bool-cases (str_eq e.0 k)) [
  | inl t ↦
      let same : e.0 ≡ k = (eq_iff e.0 k).0 t in
      elim (Bool-cases (str_eq k s)) [ inl u ↦ rw (t, same, u) refl | inr u ↦ rw (t, same, u) refl ]
  | inr t ↦ elim (Bool-cases (str_eq e.0 s)) [
    | inl u ↦ rw (t, u, other k s e.0 t u) refl
    | inr u ↦ rw (t, u) (lookup-push_under s k a es)
  ]
]
  where
    other : (k s c : String) → str_eq c k ≡ false → str_eq c s ≡ true → str_eq k s ≡ false
    other k s c h i = ground (arith, eq_iff c k, eq_iff c s, eq_iff k s)

abbrev pub extend {ℓ} : {A : Type ℓ} → Option (List A) → List A → Option (List A)
extend o [] = o
extend o (y ∷ ys) = some (or_empty o ++ y ∷ ys)

extend-some {ℓ} :
    {A : Type ℓ} (xs ys : List A) (y : A) → extend (some (xs ++ y ∷ [])) ys ≡ some (xs ++ y ∷ ys)
extend-some xs [] y = refl
extend-some xs (z ∷ zs) y = ap some (append_assoc xs (y ∷ []) (z ∷ zs))

module _ {A B : Type 0} (key : A → String) (val : A → B) where
  pub lookup-grouped :
      (s : String) (xs : List A) (m : List (String × List B))
      → lookup s (grouped key val xs m)
        ≡ extend (lookup s m) (map val (keep (λ x. str_eq (key x) s) xs))
  unfolding grouped
  lookup-grouped s [] m = refl
  lookup-grouped s (x ∷ xs) m = elim (Bool-cases (str_eq (key x) s)) [
    | inl t ↦
        rw
          (
            lookup-grouped s xs (push_under (key x) (val x) m),
            lookup-push_under s (key x) (val x) m,
            t,
          )
          (extend-some (or_empty (lookup s m)) (map val (keep (λ x. str_eq (key x) s) xs)) (val x))
    | inr t ↦
        rw
          (
            lookup-grouped s xs (push_under (key x) (val x) m),
            lookup-push_under s (key x) (val x) m,
            t,
          )
          refl
  ]

abbrev IsKeyed {ℓ} : {A : Type ℓ} → List (String × A) → Type ℓ
IsKeyed [] = Unit
IsKeyed (e ∷ es) = All (λ d. str_eq d.0 e.0 ≡ false) es × IsKeyed es

All-push_under {ℓ} :
    {A : Type ℓ} (s k : String) (a : A) (m : List (String × List A))
    → str_eq k s ≡ false
    → All (λ d. str_eq d.0 s ≡ false) m
    → All (λ d. str_eq d.0 s ≡ false) (push_under k a m)
All-push_under s k a [] h i = (h, tt)
All-push_under s k a (e ∷ es) h (i, is) = elim (Bool-cases (str_eq e.0 k)) [
  | inl t ↦ rw t (i, is)
  | inr t ↦ rw t (i, All-push_under s k a es h is)
]

IsKeyed-push_under {ℓ} :
    {A : Type ℓ} (k : String) (a : A) (m : List (String × List A))
    → IsKeyed m
    → IsKeyed (push_under k a m)
IsKeyed-push_under k a [] h = (tt, tt)
IsKeyed-push_under k a (e ∷ es) (h, hs) = elim (Bool-cases (str_eq e.0 k)) [
  | inl t ↦ rw t (h, hs)
  | inr t ↦ rw t (All-push_under e.0 k a es (flip e.0 k t) h, IsKeyed-push_under k a es hs)
]
  where
    flip : (a b : String) → str_eq a b ≡ false → str_eq b a ≡ false
    flip a b h = ground (arith, eq_iff a b, eq_iff b a)

any-selected_none {ℓ} :
    {A : Type ℓ} (p : String → A → Bool) (s : String) (m : List (String × A))
    → All (λ d. str_eq d.0 s ≡ false) m
    → any (λ t. str_eq t s) (selected p m) ≡ false
any-selected_none p s [] h = refl
any-selected_none p s (e ∷ es) (h, hs) = elim (Bool-cases (p e.0 e.1)) [
  | inl t ↦ rw (t, h) (any-selected_none p s es hs)
  | inr t ↦ rw t (any-selected_none p s es hs)
]

any-selected {ℓ} :
    {A : Type ℓ} (p : String → A → Bool) (s : String) (m : List (String × A))
    → IsKeyed m
    → any (λ t. str_eq t s) (selected p m) ≡ passes (p s) (lookup s m)
any-selected p s [] h = refl
any-selected p s (e ∷ es) (h, hs) = elim (Bool-cases (str_eq e.0 s)) [
  | inl t ↦
      let same : e.0 ≡ s = (eq_iff e.0 s).0 t in
      let none_left : any (λ t. str_eq t s) (selected p es) ≡ false =
        any-selected_none p s es (subst (λ k. All (λ d. str_eq d.0 k ≡ false) es) same h) in
      elim (Bool-cases (p e.0 e.1)) [
        | inl u ↦ rw (u, t) (sym (ap (λ k. p k e.1) (sym same) ∙ u))
        | inr u ↦ rw (u, t) (none_left ∙ sym (ap (λ k. p k e.1) (sym same) ∙ u))
      ]
  | inr t ↦ elim (Bool-cases (p e.0 e.1)) [
    | inl u ↦ rw (u, t) (any-selected p s es hs)
    | inr u ↦ rw (u, t) (any-selected p s es hs)
  ]
]

module _ {A B : Type 0} (key : A → String) (val : A → B) where
  grouped-IsKeyed :
      (xs : List A) (m : List (String × List B)) → IsKeyed m → IsKeyed (grouped key val xs m)
  unfolding grouped
  grouped-IsKeyed [] m h = h
  grouped-IsKeyed (x ∷ xs) m h =
      grouped-IsKeyed xs (push_under (key x) (val x) m) (IsKeyed-push_under (key x) (val x) m h)

  -- A key is selected of the groups of a list by what the list has under it.
  pub selected-grouped :
      (p : String → List B → Bool) (s : String) (xs : List A)
      → any (λ t. str_eq t s) (selected p (grouped key val xs []))
        ≡ passes (p s) (extend none (map val (keep (λ x. str_eq (key x) s) xs)))
  selected-grouped p s xs =
      any-selected p s (grouped key val xs []) (grouped-IsKeyed xs [] tt)
      ∙ ap (passes (p s)) (lookup-grouped key val s xs [])
