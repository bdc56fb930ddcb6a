-- ===== src/Gateway/Knowledge/Retrieval.antt =====
-- RagService.search of ai-gateway's rag/rag.service.ts, and what it finds where MongoDB has no vector
-- index. `unasked` is MongoDB's answer to a search whose vector is undefined.
use gen_xtaxi_ai.Common.{
  ℕ, ◌≤◌, String, str_eq, ◌≡◌, ap, ◌∙◌, sym, subst, Option, none, some, List, [], ◌∷◌, map, take,
  keep, length,
}
use mathlib.Core.List.{Perm}
use gen_xtaxi_ai.Common.Lemmas.{take-all, length-map}
use gen_xtaxi_ai.Common.Number.{Fraction, Number}
use gen_xtaxi_ai.Common.Sort.{sort, sort-Perm, length-sort}
use gen_xtaxi_ai.Common.Text.{Text}
use gen_xtaxi_ai.Gateway.Knowledge.{
  Vector, KbChunk, VectorHit, Embedded, no_vectors, vectors, hit, nearer, fallback_cosine,
  or_fallback, search,
}

-- `undefined_vector` is the TypeError of a cosine with no query.
pub data Retrieved (E : Type 0) : Type 0 where
  hits : List VectorHit → Retrieved E
  failed : E → Retrieved E
  undefined_vector : Retrieved E

abbrev pub chunks_in : String → List KbChunk → List KbChunk
chunks_in lang kb = keep (λ c. str_eq c.lang lang) kb

module _ {E S : Type 0} (embed : List Text → S → Embedded E × S) (fl : Fraction → Number)
    (sqrt : Number → Number)
    (vector_search : Vector → String → ℕ → List KbChunk → Option (List VectorHit))
    (unasked : String → ℕ → List KbChunk → Option (List VectorHit)) where
  abbrev fallback_unasked : List KbChunk → Retrieved E
  fallback_unasked [] = hits []
  fallback_unasked (c ∷ cs) = undefined_vector

  abbrev unasked_or : Option (List VectorHit) → Retrieved E → Retrieved E
  unasked_or none rest = rest
  unasked_or (some []) rest = rest
  unasked_or (some (h ∷ hs)) rest = hits (h ∷ hs)

  abbrev pub retrieved : Embedded E → String → ℕ → List KbChunk → Retrieved E
  retrieved (no_vectors e) lang top_k kb = failed e
  retrieved (vectors []) lang top_k kb =
      unasked_or (unasked lang top_k kb) (fallback_unasked (chunks_in lang kb))
  retrieved (vectors (v ∷ vs)) lang top_k kb = hits (search fl sqrt vector_search v lang top_k kb)

  unfoldable pub rag_search : Text → String → ℕ → List KbChunk → S → Retrieved E × S
  unfolding search
  rag_search query lang top_k kb outside =
      let (embedded, later) = embed (query ∷ []) outside in
      (retrieved embedded lang top_k kb, later)

  -- With no index, which throws or answers nothing.
  abbrev pub HasNoIndex : Type 0
  HasNoIndex =
      (v : Vector) (lang : String) (top_k : ℕ) (kb : List KbChunk) (rest : List VectorHit)
      → or_fallback fl sqrt vector_search (vector_search v lang top_k kb) rest ≡ rest

  fallback_cosine-Perm :
      (v : Vector) (lang : String) (top_k : ℕ) (kb : List KbChunk)
      → length (chunks_in lang kb) ≤ 2000
      → length (chunks_in lang kb) ≤ top_k
      → Perm
          (fallback_cosine fl sqrt vector_search v lang top_k kb)
          (map (hit fl sqrt vector_search v) (chunks_in lang kb))
  unfolding fallback_cosine
  fallback_cosine-Perm v lang top_k kb few most =
      let scored = map (hit fl sqrt vector_search v) (chunks_in lang kb) in
      let before = nearer fl sqrt vector_search in
      let all : take top_k (sort before scored) ≡ sort before scored =
        take-all top_k (sort before scored) (
          subst (λ n. n ≤ top_k)
            (sym (
              length-sort before scored
              ∙ length-map (hit fl sqrt vector_search v) (chunks_in lang kb)))
            most) in
      rw (take-all 2000 (chunks_in lang kb) few) (rw all (sort-Perm before scored))

  -- With no index, and with at most 2,000 chunks in a language and no more than are asked for, a query
  -- that is embedded finds every chunk of the language, once each, and nothing else.
  pub rag_search-Finds :
      (query : Text) (lang : String) (top_k : ℕ) (kb : List KbChunk) (outside : S) (v : Vector)
      (vs : List Vector)
      → HasNoIndex
      → (embed (query ∷ []) outside).0 ≡ vectors (v ∷ vs)
      → length (chunks_in lang kb) ≤ 2000
      → length (chunks_in lang kb) ≤ top_k
      → (found : List VectorHit) × ((rag_search query lang top_k kb outside).0 ≡ hits found)
        × Perm found (map (hit fl sqrt vector_search v) (chunks_in lang kb))
  unfolding rag_search search
  rag_search-Finds query lang top_k kb outside v vs no_index e few most = (
    fallback_cosine fl sqrt vector_search v lang top_k kb,
    ap (λ r. retrieved r lang top_k kb) e ∙ ap hits (no_index v lang top_k kb _),
    fallback_cosine-Perm v lang top_k kb few most,
  )
