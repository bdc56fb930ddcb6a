-- ===== src/Gateway/Prompts/Laws.antt =====
-- What publishing makes of the version that is resolved.
use gen_xtaxi_ai.Common.{
  ℕ, String, str_eq, ◌≡◌, refl, ap, subst, ◌∙◌, inl, inr, Bool, true, false, ◌&&◌, Option, none,
  some, List, [], ◌∷◌, map, find, Bool-cases, arith,
}
use gen_xtaxi_ai.Gateway.Prompts.{
  PromptTemplate, PromptStatus, published, is_at, is_published, retire, save_at, publish,
  resolve_published,
}

abbrev is_live : String → PromptTemplate → Bool
is_live key p = str_eq p.key key && is_published p.status

abbrev mapped : (PromptTemplate → PromptTemplate) → Option PromptTemplate → Option PromptTemplate
mapped g none = none
mapped g (some p) = some (g p)

find-map :
    (p q : PromptTemplate → Bool) (g : PromptTemplate → PromptTemplate) (docs : List PromptTemplate)
    → ((d : PromptTemplate) → p (g d) ≡ q d)
    → find p (map g docs) ≡ mapped g (find q docs)
find-map p q g [] h = refl
find-map p q g (d ∷ ds) h = elim (Bool-cases (q d)) [
  | inl e ↦ rw (h d, e) refl
  | inr e ↦ rw (h d, e) (find-map p q g ds h)
]

find-none : (docs : List PromptTemplate) → find (λ d. false) docs ≡ none
find-none [] = refl
find-none (d ∷ ds) = find-none ds

find_holds :
    (p : PromptTemplate → Bool) (docs : List PromptTemplate) (d : PromptTemplate)
    → find p docs ≡ some d
    → p d ≡ true
find_holds p [] d h = cc h
find_holds p (e ∷ es) d h = elim (Bool-cases (p e)) [
  | inl t ↦
      let h' : some e ≡ some d = rw t at h in
      let same : e ≡ d = cc h' in subst (λ x. p x ≡ true) same t
  | inr t ↦ find_holds p es d (rw t at h)
]

retire-is_live : (key : String) (d : PromptTemplate) → is_live key (retire key d) ≡ false
retire-is_live key d = elim (Bool-cases (str_eq d.key key)) [
  | inr e ↦ rw (e, e) refl
  | inl e ↦ elim (Bool-cases (is_published d.status)) [
    | inl t ↦ rw (e, t, e) refl
    | inr t ↦ rw (e, t, e, t) refl
  ]
]

retire-is_at :
    (key : String) (version : ℕ) (j : String) (d : PromptTemplate)
    → is_at j version (retire key d) ≡ is_at j version d
retire-is_at key version j d = elim (Bool-cases (str_eq d.key key && is_published d.status)) [
  | inl e ↦ rw e refl
  | inr e ↦ rw e refl
]

at_key :
    (key : String) (version : ℕ) (d : PromptTemplate)
    → is_at key version d ≡ true
    → str_eq d.key key ≡ true
at_key key version d h = ground (arith, h)

module _ (now : ℕ) (key : String) (version : ℕ) where
  abbrev step : PromptStatus → PromptTemplate → PromptTemplate
  step loaded d = save_at now key version loaded (retire key d)

  fresh_saved :
      (loaded : PromptStatus) (r : PromptTemplate)
      → is_published loaded ≡ false
      → is_live key r ≡ false
      → is_live key (save_at now key version loaded r) ≡ is_at key version r
  fresh_saved loaded r h k = elim (Bool-cases (is_at key version r)) [
    | inl e ↦ rw (e, h, at_key key version r e) refl
    | inr e ↦ rw e k
  ]

  again_saved :
      (loaded : PromptStatus) (r : PromptTemplate)
      → is_published loaded ≡ true
      → is_live key r ≡ false
      → is_live key (save_at now key version loaded r) ≡ false
  again_saved loaded r h k = elim (Bool-cases (is_at key version r)) [
    | inl e ↦ rw (e, h) k
    | inr e ↦ rw e k
  ]

  -- A version that is not the published one, and is published, is the one that is resolved from then on,
  -- with the time of it; but where the published version is published again none is resolved any more:
  -- it was retired before, and saving it writes no status, since it had read that it is published. Of a
  -- version that there is not, nothing is changed.
  pub resolve_published-publish :
      (docs : List PromptTemplate)
      → let out = publish now key version docs in
        ((find (is_at key version) docs ≡ none) → out ≡ (none, docs))
        × ((target : PromptTemplate)
            → find (is_at key version) docs ≡ some target
            → (is_published target.status ≡ false
                → resolve_published key out.1
                  ≡ some (record target { status = published; published_at = some now }))
              × (is_published target.status ≡ true → resolve_published key out.1 ≡ none))
  unfolding publish resolve_published
  resolve_published-publish docs = (
    λ h. rw h refl,
    λ target h.
        let g = step target.status in
        let out : (publish now key version docs).1 ≡ map g docs = rw (h, publish) refl in
        (
          λ fresh.
              ap (find (is_live key)) out
              ∙ find-map (is_live key) (is_at key version) g docs (λ d.
                fresh_saved target.status (retire key d) fresh (retire-is_live key d)
                ∙ retire-is_at key version key d)
              ∙ ap (mapped g) h
              ∙ ap some (saved target (find_holds (is_at key version) docs target h) fresh),
          λ again.
              ap (find (is_live key)) out
              ∙ find-map (is_live key) (λ d. false) g docs
                  (λ d. again_saved target.status (retire key d) again (retire-is_live key d))
              ∙ ap (mapped g) (find-none docs),
        ),
  )
    where
      saved :
          (target : PromptTemplate)
          → is_at key version target ≡ true
          → is_published target.status ≡ false
          → step target.status target
            ≡ record target { status = published; published_at = some now }
      saved target h k = rw (at_key key version target h, k, h) refl
