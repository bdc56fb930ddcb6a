-- ===== src/Gateway/Knowledge/Laws.antt =====
-- What publishing makes of the chunks.
use gen_xtaxi_ai.Common.{
  ℕ, String, str_eq, eq_iff, ◌≡◌, refl, sym, ap, subst, ◌∙◌, inl, inr, Bool, not, Option, none,
  some, List, [], ◌∷◌, ◌++◌, map, keep, length, find, Bool-cases,
}
use gen_xtaxi_ai.Common.Lemmas.{keep-append, keep-keep}
use gen_xtaxi_ai.Common.Text.{Text}
use gen_xtaxi_ai.Gateway.Chunker.{Chunk, chunk}
use gen_xtaxi_ai.Gateway.Knowledge.{
  Vector, KbDocument, published, KbChunk, Published, chunks, not_found, failed, Embedded, vectors,
  no_vectors, first_of, rest_of, kb_chunk, kb_chunks, World, indexed, of_pieces, of_found,
  publish_document,
}
use gen_xtaxi_ai.Ports.{Collection}
use mathlib.Core.List.{append-nil}

abbrev pub is_of : String → KbChunk → Bool
is_of id c = str_eq c.doc_id id

keep-is_of_other :
    (id : String) (xs : List KbChunk) → keep (is_of id) (keep (λ c. not (is_of id c)) xs) ≡ []
keep-is_of_other id [] = refl
keep-is_of_other id (x ∷ xs) = elim (Bool-cases (is_of id x)) [
  | inl e ↦ rw e (keep-is_of_other id xs)
  | inr e ↦ rw (e, e) (keep-is_of_other id xs)
]

kb_chunks_own :
    (id : String) (d : KbDocument) (ps : List Chunk) (vs : List Vector)
    → (keep (is_of id) (kb_chunks id d ps vs) ≡ kb_chunks id d ps vs)
      × (keep (λ c. not (is_of id c)) (kb_chunks id d ps vs) ≡ [])
kb_chunks_own id d [] vs = (refl, refl)
kb_chunks_own id d (p ∷ ps) vs =
    let (own, others) = kb_chunks_own id d ps (rest_of vs) in
    (
      rw ((eq_iff id id).1 refl) (ap (λ zs. kb_chunk id d p (first_of vs) ∷ zs) own),
      rw ((eq_iff id id).1 refl) others,
    )

-- The stored chunk is this piece of the document.
abbrev pub IsChunk : String → KbDocument → Chunk → Option Vector → KbChunk → Type 0
IsChunk id d p v k =
    (k.doc_id ≡ id)
    × (k.content ≡ p.content)
    × (k.lang ≡ d.lang)
    × (k.embedding ≡ v)
    × (k.metadata.source ≡ d.source)
    × (k.metadata.title ≡ d.title)
    × (k.metadata.version ≡ d.version)

-- The stored chunks are the pieces, one for one and in their order, each with the vector of its place, if
-- there is one.
abbrev pub AreChunks : String → KbDocument → List Chunk → List Vector → List KbChunk → Type 0
AreChunks id d [] vs [] = Unit
AreChunks id d [] vs (k ∷ ks) = ⊥
AreChunks id d (p ∷ ps) vs [] = ⊥
AreChunks id d (p ∷ ps) [] (k ∷ ks) = IsChunk id d p none k × AreChunks id d ps [] ks
AreChunks id d (p ∷ ps) (v ∷ vs) (k ∷ ks) = IsChunk id d p (some v) k × AreChunks id d ps vs ks

kb_chunks-AreChunks :
    (id : String) (d : KbDocument) (ps : List Chunk) (vs : List Vector)
    → AreChunks id d ps vs (kb_chunks id d ps vs)
kb_chunks-AreChunks id d [] vs = tt
kb_chunks-AreChunks id d (p ∷ ps) [] =
    ((refl, refl, refl, refl, refl, refl, refl), kb_chunks-AreChunks id d ps [])
kb_chunks-AreChunks id d (p ∷ ps) (v ∷ vs) =
    ((refl, refl, refl, refl, refl, refl, refl), kb_chunks-AreChunks id d ps vs)

module _ {E S : Type 0} (documents : Collection KbDocument)
    (embed : List Text → S → Embedded E × S) where
  abbrev pub Base : Type 0
  Base = World documents embed

  abbrev pub others : String → Base → List KbChunk
  others id w = keep (λ c. not (is_of id c)) w.kb

  -- With vectors, the document is published at this time, its chunks are those of its body, each with
  -- its vector, and as many as are reported, and those of the others are as they were; without,
  -- nothing is changed.
  abbrev pub Indexes : ℕ → String → KbDocument → Base → Embedded E → Published E × Base → Type 0
  Indexes now id d w (no_vectors e) out =
      (out.0 ≡ failed e) × (out.1.docs ≡ w.docs) × (out.1.kb ≡ w.kb)
  Indexes now id d w (vectors vs) out =
      (out.0 ≡ chunks (length (chunk d.body)))
      × (out.1.docs
          ≡ documents.update id (λ e. record e { status = published; published_at = some now })
              w.docs)
      × AreChunks id d (chunk d.body) vs (keep (is_of id) out.1.kb)
      × (others id out.1 ≡ others id w)

  abbrev pub Answers : ℕ → String → KbDocument → Base → List Chunk → Published E × Base → Type 0
  Answers now id d w [] out = out ≡ (chunks 0, w)
  Answers now id d w (p ∷ ps) out =
      Indexes now id d w (embed (map (λ c. c.content) (p ∷ ps)) w.outside).0 out

  -- What a publication comes to, by the document that is found.
  abbrev pub Republishes :
      ℕ → String → Base → Option (String × KbDocument) → Published E × Base → Type 0
  Republishes now id w none out = out ≡ (not_found, w)
  Republishes now id w (some (_, d)) out = Answers now id d w (chunk d.body) out

  found_id :
      (id : String) (docs : List (String × KbDocument)) (e : String × KbDocument)
      → find (λ x. str_eq x.0 id) docs ≡ some e
      → e.0 ≡ id
  found_id id [] e h = cc h
  found_id id (x ∷ xs) e h = elim (Bool-cases (str_eq x.0 id)) [
    | inl t ↦
        let h' : some x ≡ some e = rw t at h in
        let same : x ≡ e = cc h' in ap (λ y. y.0) (sym same) ∙ (eq_iff x.0 id).0 t
    | inr t ↦ found_id id xs e (rw t at h)
  ]

  indexed-Indexes :
      (now : ℕ) (id : String) (d : KbDocument) (e : Embedded E) (w : Base) (after : S)
      → Indexes now id d w e
          (indexed documents embed now id d (chunk d.body) e (record w { outside = after }))
  indexed-Indexes now id d (no_vectors e) w after = (refl, refl, refl)
  indexed-Indexes now id d (vectors vs) w after =
      let (own, other) = kb_chunks_own id d (chunk d.body) vs in
      let stored : keep (is_of id)
            (keep (λ c. not (is_of id c)) w.kb ++ kb_chunks id d (chunk d.body) vs)
          ≡ kb_chunks id d (chunk d.body) vs =
        keep-append (is_of id) (keep (λ c. not (is_of id c)) w.kb)
          (kb_chunks id d (chunk d.body) vs)
        ∙ ap (λ zs. zs ++ keep (is_of id) (kb_chunks id d (chunk d.body) vs))
            (keep-is_of_other id w.kb)
        ∙ own in
      (
        refl,
        refl,
        subst (AreChunks id d (chunk d.body) vs) (sym stored)
            (kb_chunks-AreChunks id d (chunk d.body) vs),
        keep-append (λ c. not (is_of id c)) (keep (λ c. not (is_of id c)) w.kb)
              (kb_chunks id d (chunk d.body) vs)
            ∙ ap (λ zs. keep (λ c. not (is_of id c)) (keep (λ c. not (is_of id c)) w.kb) ++ zs)
                other
            ∙ append-nil (keep (λ c. not (is_of id c)) (keep (λ c. not (is_of id c)) w.kb))
            ∙ keep-keep (λ c. not (is_of id c)) (λ c. not (is_of id c)) w.kb (λ c h. h),
      )

  of_pieces-Answers :
      (now : ℕ) (id : String) (d : KbDocument) (w : Base)
      → Answers now id d w (chunk d.body) (of_pieces documents embed now id d (chunk d.body) w)
  of_pieces-Answers now id d w = split (chunk d.body) refl
    where
      split :
          (ps : List Chunk)
          → chunk d.body ≡ ps
          → Answers now id d w ps (of_pieces documents embed now id d ps w)
      split [] e = refl
      split (p ∷ ps) e =
          let asked = embed (map (λ c. c.content) (p ∷ ps)) w.outside in
          subst
            (λ qs.
              Indexes now id d w asked.0
                (indexed documents embed now id d qs asked.0 (record w { outside = asked.1 })))
            e (indexed-Indexes now id d asked.0 w asked.1)

  of_found-Republishes :
      (now : ℕ) (id : String) (w : Base) (o : Option (String × KbDocument))
      → ((e : String × KbDocument) → o ≡ some e → e.0 ≡ id)
      → Republishes now id w o (of_found documents embed now o w)
  of_found-Republishes now id w none same = refl
  of_found-Republishes now id w (some (key, d)) same =
      subst
        (λ k. Republishes now id w (some (key, d)) (of_found documents embed now (some (k, d)) w))
        (sym (same (key, d) refl)) (of_pieces-Answers now id d w)

  -- A publication of no document, or of one without text, changes nothing. Of any other it reports the
  -- failure of the embeddings, with documents and chunks as they were; or it publishes the document and
  -- leaves as its chunks those of its body with their vectors, once each and as many as it reports,
  -- however often it was published before, and the chunks of the others as they were.
  pub publish_document-Republishes :
      (now : ℕ) (id : String) (w : Base)
      → Republishes now id w
          (find (λ d. str_eq d.0 id) (documents.docs w.docs))
          (publish_document documents embed now id w)
  unfolding publish_document
  publish_document-Republishes now id w =
      of_found-Republishes now id w (find (λ d. str_eq d.0 id) (documents.docs w.docs))
        (found_id id (documents.docs w.docs))
