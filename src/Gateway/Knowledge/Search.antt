-- ===== src/Gateway/Knowledge/Search.antt =====
-- What a search finds.
use gen_xtaxi_ai.Common.{
  ℕ, zero, suc, ◌≤◌, String, str_eq, eq_iff, ◌≡◌, refl, sym, ap, subst, inl, inr, Option, none,
  some, List, [], ◌∷◌, map, take, keep, length, All, Bool-cases, arith,
}
use gen_xtaxi_ai.Common.Sort.{sort, All-sort}
use gen_xtaxi_ai.Common.Number.{Fraction, Number}
use gen_xtaxi_ai.Gateway.Knowledge.{
  Vector, KbChunk, VectorHit, hit, nearer, fallback_cosine, or_fallback, search,
}

module _ (fl : Fraction → Number) (sqrt : Number → Number)
    (vector_search : Vector → String → ℕ → List KbChunk → Option (List VectorHit)) where
  -- Hits of one language, and at most so many.
  abbrev pub AreHits : String → ℕ → List VectorHit → Type 0
  AreHits lang top_k hits = All (λ h. h.lang ≡ lang) hits × (length hits ≤ top_k)

  -- What is relied on of MongoDB's vector search: its filter and its limit.
  abbrev pub IsVectorSearch : Type 0
  IsVectorSearch =
      (query : Vector) (lang : String) (top_k : ℕ) (kb : List KbChunk) (hits : List VectorHit)
      → vector_search query lang top_k kb ≡ some hits
      → AreHits lang top_k hits

  hits-All :
      (query : Vector) (lang : String) (kb : List KbChunk)
      → All
          (λ h. h.lang ≡ lang)
          (map (hit fl sqrt vector_search query) (keep (λ c. str_eq c.lang lang) kb))
  hits-All query lang [] = tt
  hits-All query lang (c ∷ cs) = elim (Bool-cases (str_eq c.lang lang)) [
    | inl e ↦ rw e ((eq_iff c.lang lang).0 e, hits-All query lang cs)
    | inr e ↦ rw e (hits-All query lang cs)
  ]

  take-All :
      (lang : String) (k : ℕ) (hits : List VectorHit)
      → All (λ h. h.lang ≡ lang) hits
      → AreHits lang k (take k hits)
  take-All lang zero hits h = (tt, omega arith)
  take-All lang (suc k) [] h = (tt, omega arith)
  take-All lang (suc k) (x ∷ xs) (h, hs) =
      let (all, most) = take-All lang k xs hs in ((h, all), omega (arith, most))

  map-take :
      (query : Vector) (k : ℕ) (cs : List KbChunk)
      → map (hit fl sqrt vector_search query) (take k cs)
        ≡ take k (map (hit fl sqrt vector_search query) cs)
  map-take query zero cs = refl
  map-take query (suc k) [] = refl
  map-take query (suc k) (c ∷ cs) =
      ap (λ hs. hit fl sqrt vector_search query c ∷ hs) (map-take query k cs)

  fallback_cosine-AreHits :
      (query : Vector) (lang : String) (top_k : ℕ) (kb : List KbChunk)
      → AreHits lang top_k (fallback_cosine fl sqrt vector_search query lang top_k kb)
  unfolding fallback_cosine
  fallback_cosine-AreHits query lang top_k kb =
      let found = keep (λ c. str_eq c.lang lang) kb in
      let scored = map (hit fl sqrt vector_search query) (take 2000 found) in
      let (all, _) =
        take-All lang 2000 (map (hit fl sqrt vector_search query) found) (hits-All query lang kb) in
      take-All lang top_k (sort (nearer fl sqrt vector_search) scored) (
        All-sort (nearer fl sqrt vector_search) (λ h. h.lang ≡ lang) scored
          (subst (All (λ h. h.lang ≡ lang)) (sym (map-take query 2000 found)) all))

  -- Whether the vector search answers, finds nothing or throws: what is found is in the language that
  -- was asked for, and not more than was asked for.
  pub search-AreHits :
      (query : Vector) (lang : String) (top_k : ℕ) (kb : List KbChunk)
      → IsVectorSearch
      → AreHits lang top_k (search fl sqrt vector_search query lang top_k kb)
  unfolding search
  search-AreHits query lang top_k kb is_search =
      split (vector_search query lang top_k kb) (λ hits. is_search query lang top_k kb hits)
    where
      fallback : AreHits lang top_k (fallback_cosine fl sqrt vector_search query lang top_k kb)
      fallback = fallback_cosine-AreHits query lang top_k kb

      split :
          (o : Option (List VectorHit))
          → ((hits : List VectorHit) → o ≡ some hits → AreHits lang top_k hits)
          → AreHits lang top_k (
              or_fallback fl sqrt vector_search o
                (fallback_cosine fl sqrt vector_search query lang top_k kb))
      split none h = fallback
      split (some []) h = fallback
      split (some (x ∷ xs)) h = h (x ∷ xs) refl
