-- ===== src/Chat/Sessions/Laws.antt =====
-- The window that `recentContext` cuts out of the messages of a session.
use gen_xtaxi_ai.Common.{
  ℕ, suc, ◌≤◌, String, ◌≡◌, sym, ap, ◌∙◌, List, ◌++◌, map, take, drop, length, keep, arith,
}
use gen_xtaxi_ai.Common.Lemmas.{take-drop, length-take_le, take-all, length-reverse, length-map}
use gen_xtaxi_ai.Chat.World.{Backends, World, LlmMessage}
use gen_xtaxi_ai.Chat.Sessions.{limit, recent_context, is_turn_of, llm_message}
use mathlib.Core.List.{reverse, map-append, reverse-append, reverse-reverse}

-- The last elements, from the end and turned back.
last_append {ℓ} :
    {A : Type ℓ} (k : ℕ) (xs : List A)
    → xs ≡ reverse (drop k (reverse xs)) ++ reverse (take k (reverse xs))
last_append k xs =
    sym (reverse-reverse xs)
    ∙ ap reverse (sym (take-drop k (reverse xs)))
    ∙ reverse-append (take k (reverse xs)) (drop k (reverse xs))

last-length {ℓ} : {A : Type ℓ} (k : ℕ) (xs : List A) → length (reverse (take k (reverse xs))) ≤ k
last-length k xs =
    omega (arith, length-reverse (take k (reverse xs)), length-take_le k (reverse xs))

last_all {ℓ} :
    {A : Type ℓ} (k : ℕ) (xs : List A) → length xs ≤ k → reverse (take k (reverse xs)) ≡ xs
last_all k xs h =
    ap reverse (take-all k (reverse xs) (omega (arith, length-reverse xs, h))) ∙ reverse-reverse xs

module _ (b : Backends) where
  -- The turns of a session, as the model would read all of them.
  abbrev pub turns : String → World b → List LlmMessage
  turns session_id w = map llm_message (keep (is_turn_of session_id) (b.messages.docs w.messages))

  -- With a positive limit, the context is the end of the turns of the session in their order, at most
  -- the limit of them, and all of them where they are not more than that.
  pub recent_context_lem :
      (k : ℕ) (session_id : String) (w : World b)
      → b.context_turns ≡ suc k
      → (older : List LlmMessage) × ((turns session_id w ≡ older ++ recent_context b session_id w)
          × (length (recent_context b session_id w) ≤ suc k)
          × (length (turns session_id w) ≤ suc k
              → recent_context b session_id w ≡ turns session_id w))
  unfolding recent_context limit
  recent_context_lem k session_id w h =
      let xs = keep (is_turn_of session_id) (b.messages.docs w.messages) in
      let size = length-map llm_message xs in
      rw h (
        map llm_message (reverse (drop (suc k) (reverse xs))),
        (
          ap (map llm_message) (last_append (suc k) xs)
              ∙ map-append llm_message (reverse (drop (suc k) (reverse xs)))
                  (reverse (take (suc k) (reverse xs))),
          omega (
            arith,
            length-map llm_message (reverse (take (suc k) (reverse xs))),
            last-length (suc k) xs,
          ),
          λ few. ap (map llm_message) (last_all (suc k) xs (omega (arith, few, size))),
        ),
      )
