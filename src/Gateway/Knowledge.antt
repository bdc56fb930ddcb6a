-- ===== src/Gateway/Knowledge.antt =====
-- ai-gateway's knowledge base: rag/rag.service.ts and rag/vector-search.service.ts over the documents of
-- schemas/kb-document.schema.ts and kb-chunk.schema.ts. The embeddings, MongoDB's vector search, which
-- may throw, and the rounding of doubles with `Math.sqrt` are parameters.
pub mod Laws
pub mod Retrieval
pub mod Search
mod Tests
use gen_xtaxi_ai.Common.{
  ℕ, zero, suc, ◌+◌, String, str_eq, Bool, true, false, ◌&&◌, not, Option, none, some, List, [],
  ◌∷◌, ◌++◌, map, take, length, keep, find, ltb, if◌then◌else◌,
}
use gen_xtaxi_ai.Common.Double.{plus, divide, ltb_number, is_truthy}
use gen_xtaxi_ai.Common.Int.{pos}
use gen_xtaxi_ai.Common.Number.{Fraction, Number, nan, finite, whole, times}
use gen_xtaxi_ai.Common.Sort.{sort}
use gen_xtaxi_ai.Common.Text.{Text}
use gen_xtaxi_ai.Gateway.Chunker.{Chunk, chunk}
use gen_xtaxi_ai.Ports.{Collection}

abbrev pub Vector : Type 0
Vector = List Number

pub data DocumentStatus : Type 0 where
  draft published : DocumentStatus

pub record KbDocument : Type 0 where
  pub title : String
  pub lang : String
  pub source : String
  pub version : ℕ
  pub published_at : Option ℕ
  pub status : DocumentStatus
  pub body : Text

pub record Metadata : Type 0 where
  pub source : String
  pub title : String
  pub version : ℕ

-- A vector that the provider did not give is none.
pub record KbChunk : Type 0 where
  pub doc_id : String
  pub content : Text
  pub lang : String
  pub embedding : Option Vector
  pub metadata : Metadata

pub record VectorHit : Type 0 where
  pub content : Text
  pub lang : String
  pub score : Number
  pub doc_id : String
  pub metadata : Metadata

pub record NewDocument : Type 0 where
  pub title : String
  pub lang : String
  pub source : String
  pub body : Text

-- The highest version of the documents with a title.
abbrev latest_version : String → List (String × KbDocument) → ℕ
latest_version title [] = 0
latest_version title (d ∷ ds) =
    let rest = latest_version title ds in
    if str_eq d.1.title title then (if ltb rest d.1.version then d.1.version else rest) else rest

pub data Published (E : Type 0) : Type 0 where
  chunks : ℕ → Published E
  not_found : Published E
  failed : E → Published E

pub data Embedded (E : Type 0) : Type 0 where
  vectors : List Vector → Embedded E
  no_vectors : E → Embedded E

abbrev pub first_of : List Vector → Option Vector
first_of [] = none
first_of (v ∷ vs) = some v

abbrev pub rest_of : List Vector → List Vector
rest_of [] = []
rest_of (v ∷ vs) = vs

abbrev pub kb_chunk : String → KbDocument → Chunk → Option Vector → KbChunk
kb_chunk id d p v = record {
  doc_id = id;
  content = p.content;
  lang = d.lang;
  embedding = v;
  metadata = record { source = d.source; title = d.title; version = d.version };
}

abbrev pub kb_chunks : String → KbDocument → List Chunk → List Vector → List KbChunk
kb_chunks id d [] vs = []
kb_chunks id d (p ∷ ps) vs = kb_chunk id d p (first_of vs) ∷ kb_chunks id d ps (rest_of vs)

module _ {E S : Type 0} (documents : Collection KbDocument)
    (embed : List Text → S → Embedded E × S) where
  pub record World : Type 0 where
    pub docs : documents.State
    pub kb : List KbChunk
    pub outside : S

  abbrev made : NewDocument → List (String × KbDocument) → KbDocument
  made input docs = record {
    title = input.title;
    lang = input.lang;
    source = input.source;
    version = latest_version input.title docs + 1;
    published_at = none;
    status = draft;
    body = input.body;
  }

  unfoldable pub create_document : NewDocument → World → World
  create_document input w = record w {
    docs = documents.create (made input (documents.docs w.docs)) w.docs;
  }

  abbrev pub is_of_other : String → KbChunk → Bool
  is_of_other id c = not (str_eq c.doc_id id)

  abbrev pub publish : ℕ → KbDocument → KbDocument
  publish now d = record d { status = published; published_at = some now }

  abbrev pub indexed :
      ℕ → String → KbDocument → List Chunk → Embedded E → World → Published E × World
  indexed now id d pieces (no_vectors e) w = (failed e, w)
  indexed now id d pieces (vectors vs) w = (
    chunks (length pieces),
    record w {
      docs = documents.update id (publish now) w.docs;
      kb = keep (is_of_other id) w.kb ++ kb_chunks id d pieces vs;
    },
  )

  abbrev pub of_pieces : ℕ → String → KbDocument → List Chunk → World → Published E × World
  of_pieces now id d [] w = (chunks 0, w)
  of_pieces now id d (p ∷ ps) w =
      let embedded = embed (map (λ c. c.content) (p ∷ ps)) w.outside in
      indexed now id d (p ∷ ps) embedded.0 (record w { outside = embedded.1 })

  abbrev pub of_found : ℕ → Option (String × KbDocument) → World → Published E × World
  of_found now none w = (not_found, w)
  of_found now (some (id, d)) w = of_pieces now id d (chunk d.body) w

  -- `now` is the time of the publication.
  unfoldable pub publish_document : ℕ → String → World → Published E × World
  unfolding chunk
  publish_document now id w = of_found now (find (λ d. str_eq d.0 id) (documents.docs w.docs)) w

module _ (fl : Fraction → Number) (sqrt : Number → Number)
    (vector_search : Vector → String → ℕ → List KbChunk → Option (List VectorHit)) where
  abbrev zero_number : Number
  zero_number = finite (whole (pos 0))

  -- The sums over the components of `a`; one that `b` lacks is no number.
  abbrev sums : Vector → Vector → Number → Number → Number → Number × Number × Number
  sums [] b dot na nb = (dot, na, nb)
  sums (x ∷ a) [] dot na nb = sums a [] nan (plus fl na (times fl x x)) nan
  sums (x ∷ a) (y ∷ b) dot na nb =
      sums a b (plus fl dot (times fl x y)) (plus fl na (times fl x x)) (plus fl nb (times fl y y))

  unfoldable pub cosine : Vector → Vector → Number
  unfolding plus times divide is_truthy
  cosine a b =
      let (dot, na, nb) = sums a b zero_number zero_number zero_number in
      if is_truthy na && is_truthy nb
      then divide fl dot (times fl (sqrt na) (sqrt nb))
      else zero_number

  abbrev or_none : Option Vector → Vector
  or_none none = []
  or_none (some v) = v

  abbrev pub hit : Vector → KbChunk → VectorHit
  hit query c = record {
    content = c.content;
    lang = c.lang;
    score = cosine query (or_none c.embedding);
    doc_id = c.doc_id;
    metadata = c.metadata;
  }

  abbrev pub nearer : VectorHit → VectorHit → Bool
  nearer a b = ltb_number b.score a.score

  unfoldable pub fallback_cosine : Vector → String → ℕ → List KbChunk → List VectorHit
  unfolding cosine sort ltb_number
  fallback_cosine query lang top_k kb =
      take top_k (sort nearer (map (hit query) (take 2000 (keep (λ c. str_eq c.lang lang) kb))))

  abbrev pub or_fallback : Option (List VectorHit) → List VectorHit → List VectorHit
  or_fallback none rest = rest
  or_fallback (some []) rest = rest
  or_fallback (some (h ∷ hits)) rest = h ∷ hits

  unfoldable pub search : Vector → String → ℕ → List KbChunk → List VectorHit
  unfolding fallback_cosine
  search embedding lang top_k kb =
      or_fallback (vector_search embedding lang top_k kb) (fallback_cosine embedding lang top_k kb)
