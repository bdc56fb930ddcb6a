-- ===== src/Gateway/Knowledge/Tests.antt =====
-- A document that is published again, and a search where there is no vector index.
use gen_xtaxi_ai.Common.{ℕ, ◌+◌, String, Option, none, some, ◌≡◌, refl, List, [], ◌∷◌, map, arith}
use mathlib.Core.List.{Perm}
use gen_xtaxi_ai.Common.Int.{pos}
use gen_xtaxi_ai.Common.Number.{finite, whole}
use gen_xtaxi_ai.Common.Text.{Text, codes}
use gen_xtaxi_ai.Gateway.Knowledge.{
  Vector, KbDocument, draft, KbChunk, VectorHit, hit, Embedded, vectors, World, publish_document,
}
use gen_xtaxi_ai.Gateway.Knowledge.Laws.{Republishes, publish_document-Republishes}
use gen_xtaxi_ai.Gateway.Knowledge.Retrieval.{hits, chunks_in, rag_search, rag_search-Finds}
use gen_xtaxi_ai.Ports.{Collection}
use gen_xtaxi_ai.Ports.Memory.{memory_collection}

abbrev documents : Collection KbDocument
documents = memory_collection KbDocument

abbrev one : Vector
one = finite (whole (pos 1)) ∷ []

abbrev embed : List Text → ℕ → Embedded String × ℕ
embed texts n = (vectors (one ∷ []), n + 1)

abbrev faq : KbDocument
faq = record {
  title = "FAQ";
  lang = "fr";
  source = "faq";
  version = 1;
  published_at = none;
  status = draft;
  body = codes "Hello";
}

abbrev chunk_of : String → String → KbChunk
chunk_of doc_id text = record {
  doc_id = doc_id;
  content = codes text;
  lang = "fr";
  embedding = none;
  metadata = record { source = "faq"; title = "FAQ"; version = 1 };
}

abbrev base : World documents embed
base = record {
  docs = ("id", faq) ∷ [];
  kb = chunk_of "id" "Old" ∷ chunk_of "other" "Other" ∷ [];
  outside = 0;
}

publish_document-Republishes_example :
    Republishes documents embed 7 "id" base
      (some ("id", faq))
      (publish_document documents embed 7 "id" base)
publish_document-Republishes_example = publish_document-Republishes documents embed 7 "id" base

abbrev no_index : Vector → String → ℕ → List KbChunk → Option (List VectorHit)
no_index query lang top_k kb = none

abbrev embedded_chunk : String → String → KbChunk
embedded_chunk text lang = record (chunk_of "id" text) { lang = lang; embedding = some one }

abbrev bilingual : List KbChunk
bilingual = embedded_chunk "Bonjour" "fr" ∷ embedded_chunk "Hello" "en" ∷ []

rag_search-Finds_example :
    (found : List VectorHit) × ((rag_search embed finite
        (λ n. n)
        no_index
        (λ lang top_k kb. none)
        (codes "Hi")
        "en"
        5
        bilingual
        0).0
      ≡ hits found)
    × Perm found (map (hit finite (λ n. n) no_index one) (chunks_in "en" bilingual))
rag_search-Finds_example =
    rag_search-Finds embed finite (λ n. n) no_index (λ lang top_k kb. none) (codes "Hi") "en" 5
      bilingual 0 one [] (λ v lang top_k kb rest. refl) refl (omega arith) (omega arith)
