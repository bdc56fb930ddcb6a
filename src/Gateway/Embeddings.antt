-- ===== src/Gateway/Embeddings.antt =====
-- ai-gateway's embeddings: providers/embeddings/local.embedding.provider.ts, what
-- cohere.embedding.provider.ts makes of its answer, and the choice of providers/
-- embedding-router.service.ts. The words of a text in lower case, the MD5 digest, of which the first four
-- bytes and the fifth are read, and the arithmetic of doubles are parameters.
pub mod Laws
use gen_xtaxi_ai.Common.{
  String, str_eq, ◌⊎◌, inl, inr, Option, none, some, ℕ, zero, suc, ◌+◌, ◌%◌, Bool, true, false,
  Option, none, some, List, [], ◌∷◌, ◌++◌, map, length, ◌==◌, if◌then◌else◌,
}
use gen_xtaxi_ai.Common.Double.{is_truthy}
use gen_xtaxi_ai.Common.Int.{ℤ, pos, negsuc, ◌+ℤ◌, ◌*ℤ◌}
use gen_xtaxi_ai.Common.Number.{Fraction, Number, finite, whole}
use gen_xtaxi_ai.Common.Text.{Text}
use gen_xtaxi_ai.Common.Double.{divide}

pub record EmbeddingResult : Type 0 where
  pub vectors : List (List Number)
  pub input_tokens : ℕ

abbrev pub zeros : ℕ → List ℤ
zeros zero = []
zeros (suc n) = pos 0 ∷ zeros n

-- `vec[bucket] += sign`
abbrev pub add_at : ℕ → ℤ → List ℤ → List ℤ
add_at i sign [] = []
add_at zero sign (x ∷ xs) = (x +ℤ sign) ∷ xs
add_at (suc i) sign (x ∷ xs) = x ∷ add_at i sign xs

abbrev bigrams : List Text → List Text
bigrams [] = []
bigrams (w ∷ []) = []
bigrams (w ∷ v ∷ ws) = (w ++ b'_' ∷ v) ∷ bigrams (v ∷ ws)

abbrev pub squares : List ℤ → ℤ
squares [] = pos 0
squares (x ∷ xs) = (x *ℤ x) +ℤ squares xs

module _ (words : Text → List Text) (digest : Text → ℕ × ℕ) (fl : Fraction → Number)
    (sqrt : Number → Number) (dimensions : ℕ) where
  unfoldable pub tokenize : Text → List Text
  tokenize text = words text ++ bigrams (words text)

  abbrev pub sign_of : ℕ → ℤ
  sign_of byte = if byte % 2 == 0 then pos 1 else negsuc 0

  abbrev pub accumulate : List Text → List ℤ → List ℤ
  accumulate [] vec = vec
  accumulate (tok ∷ toks) vec =
      let (first, fifth) = digest tok in
      accumulate toks (add_at (first % dimensions) (sign_of fifth) vec)

  -- `… || 1`
  abbrev or_one : Number → Number
  or_one n = if is_truthy n then n else finite (whole (pos 1))

  unfoldable pub embed_one : Text → List Number
  unfolding tokenize divide is_truthy
  embed_one text =
      let vec = accumulate (tokenize text) (zeros dimensions) in
      let norm = or_one (sqrt (finite (whole (squares vec)))) in
      map (λ x. divide fl (finite (whole x)) norm) vec

  abbrev pub token_count : List Text → ℕ
  token_count [] = 0
  token_count (t ∷ ts) = length (tokenize t) + token_count ts

  unfoldable pub embed : List Text → EmbeddingResult
  unfolding embed_one tokenize
  embed texts = record { vectors = map embed_one texts; input_tokens = token_count texts }

-- `active`: a provider that is not known is Cohere's.
pub data EmbeddingProvider : Type 0 where
  cohere local : EmbeddingProvider

unfoldable pub active_provider : String → EmbeddingProvider
active_provider selected = if str_eq selected "local" then local else cohere

-- An answer of Cohere that is ok, or its status.
pub data CohereReply : Type 0 where
  floats : List (List Number) → Option ℕ → CohereReply
  status : ℕ → CohereReply

abbrev or_zero : Option ℕ → ℕ
or_zero none = 0
or_zero (some n) = n

-- The result, or the status that the provider is unavailable with.
unfoldable pub cohere_embed : CohereReply → EmbeddingResult ⊎ ℕ
cohere_embed (floats vectors billed) =
    inl (record { vectors = vectors; input_tokens = or_zero billed })
cohere_embed (status n) = inr n
