-- ===== src/Chat/Turn/Tokens.antt =====
-- The pieces into which `tokenize` cuts a text.
use gen_xtaxi_ai.Common.{ℕ, ◌≡◌, refl, sym, ap, ◌∙◌, ◌⊎◌, inl, inr, List, [], ◌∷◌, ◌++◌, Bool-cases}
use gen_xtaxi_ai.Common.Text.{Text, is_space, trim_start}
use gen_xtaxi_ai.Chat.Replies.{pieces_from, or_whole, tokenize}
use mathlib.Core.List.{append_assoc}

abbrev pub flat : List Text → Text
flat [] = []
flat (t ∷ ts) = t ++ flat ts

pieces_from-flat :
    (d : ℕ) (word gap s : Text) → flat (pieces_from (d ∷ word) gap s) ≡ (d ∷ word) ++ (gap ++ s)
unfolding pieces_from
pieces_from-flat d word gap [] = append_assoc (d ∷ word) gap []
pieces_from-flat d word [] (c ∷ s) = elim (Bool-cases (is_space c)) [
  | inl e ↦ rw (e, pieces_from) (pieces_from-flat d word (c ∷ []) s)
  | inr e ↦
      rw (e, pieces_from)
        (pieces_from-flat d (word ++ c ∷ []) [] s ∙ append_assoc (d ∷ word) (c ∷ []) s)
]
pieces_from-flat d word (g ∷ gap) (c ∷ s) = elim (Bool-cases (is_space c)) [
  | inl e ↦
      rw (e, pieces_from)
        (pieces_from-flat d word (g ∷ gap ++ c ∷ []) s
          ∙ ap (λ t. (d ∷ word) ++ t) (append_assoc (g ∷ gap) (c ∷ []) s))
  | inr e ↦
      rw (e, pieces_from)
        (ap (λ t. ((d ∷ word) ++ (g ∷ gap)) ++ t) (pieces_from-flat c [] [] s)
          ∙ append_assoc (d ∷ word) (g ∷ gap) (c ∷ s))
]

start-flat : (s : Text) → flat (pieces_from [] [] s) ≡ trim_start s
unfolding pieces_from trim_start
start-flat [] = refl
start-flat (c ∷ s) = elim (Bool-cases (is_space c)) [
  | inl e ↦ rw (e, pieces_from, trim_start) (start-flat s)
  | inr e ↦ rw (e, pieces_from, trim_start) (pieces_from-flat c [] [] s)
]

or_whole-flat :
    (s t : Text) (ps : List Text)
    → flat ps ≡ t
    → (flat (or_whole s ps) ≡ t) ⊎ ((t ≡ []) × (or_whole s ps ≡ s ∷ []))
or_whole-flat s t [] h = inr (sym h, refl)
or_whole-flat s t (p ∷ ps) h = inl h

-- The pieces of a text, put together again, are the text without the white space at its start, or the
-- text is white space alone and is one piece.
pub tokenize-flat :
    (s : Text) → (flat (tokenize s) ≡ trim_start s) ⊎ ((trim_start s ≡ []) × (tokenize s ≡ s ∷ []))
unfolding tokenize
tokenize-flat s = or_whole-flat s (trim_start s) (pieces_from [] [] s) (start-flat s)
