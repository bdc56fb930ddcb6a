-- ===== src/Gateway/Embeddings/Laws.antt =====
-- The shape of the local embeddings.
use gen_xtaxi_ai.Common.{ℕ, zero, suc, ◌%◌, ◌≡◌, refl, ap, ◌∙◌, List, [], ◌∷◌, map, length, All}
use gen_xtaxi_ai.Common.Lemmas.{length-map}
use gen_xtaxi_ai.Common.Int.{ℤ}
use gen_xtaxi_ai.Common.Number.{Fraction, Number}
use gen_xtaxi_ai.Common.Text.{Text}
use gen_xtaxi_ai.Gateway.Embeddings.{zeros, add_at, tokenize, accumulate, embed_one, embed}

length-zeros : (n : ℕ) → length (zeros n) ≡ n
length-zeros zero = refl
length-zeros (suc n) = ap suc (length-zeros n)

length-add_at : (i : ℕ) (sign : ℤ) (xs : List ℤ) → length (add_at i sign xs) ≡ length xs
length-add_at i sign [] = refl
length-add_at zero sign (x ∷ xs) = refl
length-add_at (suc i) sign (x ∷ xs) = ap suc (length-add_at i sign xs)

module _ (words : Text → List Text) (digest : Text → ℕ × ℕ) (fl : Fraction → Number)
    (sqrt : Number → Number) (dimensions : ℕ) where
  length-accumulate :
      (toks : List Text) (vec : List ℤ)
      → length (accumulate words digest fl sqrt dimensions toks vec) ≡ length vec
  length-accumulate [] vec = refl
  length-accumulate (tok ∷ toks) vec =
      length-accumulate toks (add_at ((digest tok).0 % dimensions) _ vec)
      ∙ length-add_at ((digest tok).0 % dimensions) _ vec

  length-embed_one :
      (text : Text) → length (embed_one words digest fl sqrt dimensions text) ≡ dimensions
  unfolding embed_one
  length-embed_one text =
      length-map _ (
        accumulate words digest fl sqrt dimensions (tokenize words digest fl sqrt dimensions text)
          (zeros dimensions))
      ∙ length-accumulate (tokenize words digest fl sqrt dimensions text) (zeros dimensions)
      ∙ length-zeros dimensions

  -- There is a vector for each text, and each has as many components as the index asks for.
  pub length-embed :
      (texts : List Text)
      → (length (embed words digest fl sqrt dimensions texts).vectors ≡ length texts)
        × All (λ v. length v ≡ dimensions) (embed words digest fl sqrt dimensions texts).vectors
  unfolding embed
  length-embed texts = (length-map (embed_one words digest fl sqrt dimensions) texts, all texts)
    where
      all :
          (texts : List Text)
          → All (λ v. length v ≡ dimensions) (map (embed_one words digest fl sqrt dimensions) texts)
      all [] = tt
      all (t ∷ ts) = (length-embed_one t, all ts)
