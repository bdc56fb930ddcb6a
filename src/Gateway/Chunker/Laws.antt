-- ===== src/Gateway/Chunker/Laws.antt =====
-- How long the chunks are, and how they are numbered.
use gen_xtaxi_ai.Common.{
  ℕ, zero, suc, ◌+◌, ◌-◌, ◌≤◌, ◌≡◌, refl, inl, inr, ◌&&◌, Option, none, some, List, [], ◌∷◌, ◌++◌,
  length, take, drop, ltb, leb, ◌==◌, Bool-cases, arith,
}
use gen_xtaxi_ai.Common.Lemmas.{length-drop, length-take_le, length-reverse}
use gen_xtaxi_ai.Common.Text.{Text, trim, trim_start, is_space}
use gen_xtaxi_ai.Gateway.Chunker.{
  Chunk, Chunked, last_stop, cut_at, add_chunk, add_filled, flush, split_long, is_filled, append,
  chunk_from, paragraphs_from, unix_lines, chunk,
}
use mathlib.Core.List.{reverse}

length-trim_start : (s : Text) → length (trim_start s) ≤ length s
unfolding trim_start
length-trim_start [] = omega arith
length-trim_start (c ∷ s) = elim (Bool-cases (is_space c)) [
  | inl e ↦ rw (e, trim_start) (omega (arith, length-trim_start s))
  | inr e ↦ rw (e, trim_start) (omega arith)
]

length-trim : (s : Text) → length (trim s) ≤ length s
unfolding trim
length-trim s = omega (
  arith,
  length-reverse (trim_start (reverse (trim_start s))),
  length-trim_start (reverse (trim_start s)),
  length-reverse (trim_start s),
  length-trim_start s,
)

-- A place that is found is at most `most`.
abbrev IsUpTo : ℕ → Option ℕ → Type 0
IsUpTo most none = Unit
IsUpTo most (some i) = i ≤ most

last_stop-IsUpTo :
    (most i : ℕ) (s : Text) (found : Option ℕ)
    → IsUpTo most found
    → IsUpTo most (last_stop most i s found)
last_stop-IsUpTo most i [] found h = h
last_stop-IsUpTo most i (c ∷ []) found h = h
last_stop-IsUpTo most i (c ∷ d ∷ s) found h =
    elim (Bool-cases ((c == b'.') && ((d == b' ') && leb i most))) [
      | inl e ↦ rw e (last_stop-IsUpTo most (suc i) (d ∷ s) (some i) (ground (arith, e)))
      | inr e ↦ rw e (last_stop-IsUpTo most (suc i) (d ∷ s) found h)
    ]

cut_at_bounds : (o : Option ℕ) → IsUpTo 1200 o → (602 ≤ cut_at o) × (cut_at o ≤ 1201)
cut_at_bounds none h = ground arith
cut_at_bounds (some i) h = ground (arith, h)

-- The chunks are no longer than the limit of a buffer, and are numbered in their order.
abbrev pub AreNumbered : ℕ → List Chunk → Type 0
AreNumbered n [] = Unit
AreNumbered n (c ∷ cs) = (c.index ≡ n) × (length c.content ≤ 1800) × AreNumbered (suc n) cs

AreNumbered-snoc :
    (n : ℕ) (cs : List Chunk) (content : Text) (i : ℕ)
    → AreNumbered n cs
    → i ≡ n + length cs
    → length content ≤ 1800
    → AreNumbered n (cs ++ record { content = content; index = i } ∷ [])
AreNumbered-snoc n [] content i h e l = (omega (arith, e), l, tt)
AreNumbered-snoc n (c ∷ cs) content i (h, k, hs) e l =
    (h, k, AreNumbered-snoc (suc n) cs content i hs (omega (arith, e)) l)

add_chunk-AreNumbered :
    (content : Text) (cs : List Chunk)
    → AreNumbered 0 cs
    → length content ≤ 1800
    → AreNumbered 0 (add_chunk content cs)
add_chunk-AreNumbered content cs h l = AreNumbered-snoc 0 cs content (length cs) h (omega arith) l

add_filled-AreNumbered :
    (content : Text) (cs : List Chunk)
    → AreNumbered 0 cs
    → length content ≤ 1800
    → AreNumbered 0 (add_filled content cs)
add_filled-AreNumbered [] cs h l = h
add_filled-AreNumbered (c ∷ s) cs h l = add_chunk-AreNumbered (c ∷ s) cs h l

flush-AreNumbered :
    (k : Chunked) → AreNumbered 0 k.chunks → length k.buffer ≤ 1800 → AreNumbered 0 (flush k).chunks
unfolding flush
flush-AreNumbered k h l =
    add_filled-AreNumbered (trim k.buffer) k.chunks h (omega (arith, length-trim k.buffer, l))

-- With as much fuel as the buffer is long the loop ends with a buffer that is not too long.
split_long_ends :
    (fuel : ℕ) (k : Chunked) → length k.buffer ≤ fuel → length (split_long fuel k).buffer ≤ 1800
unfolding split_long
split_long_ends zero k h = omega (arith, h)
split_long_ends (suc fuel) k h = elim (Bool-cases (ltb 1800 (length k.buffer))) [
  | inr e ↦ rw (e, split_long) (ground (arith, e))
  | inl e ↦
      let at = cut_at (last_stop 1200 0 k.buffer none) in
      let (low, high) =
        cut_at_bounds (last_stop 1200 0 k.buffer none) (last_stop-IsUpTo 1200 0 k.buffer none tt) in
      rw (e, split_long)
        (split_long_ends fuel
          (record {
            chunks = add_chunk (trim (take at k.buffer)) k.chunks;
            buffer = drop (at - 200) k.buffer;
          })
          (omega (arith, length-drop (at - 200) k.buffer, low, h)))
]

split_long-AreNumbered :
    (fuel : ℕ) (k : Chunked) → AreNumbered 0 k.chunks → AreNumbered 0 (split_long fuel k).chunks
unfolding split_long
split_long-AreNumbered zero k h = h
split_long-AreNumbered (suc fuel) k h = elim (Bool-cases (ltb 1800 (length k.buffer))) [
  | inr e ↦ rw (e, split_long) h
  | inl e ↦
      let at = cut_at (last_stop 1200 0 k.buffer none) in
      let (low, high) =
        cut_at_bounds (last_stop 1200 0 k.buffer none) (last_stop-IsUpTo 1200 0 k.buffer none tt) in
      rw (e, split_long)
        (split_long-AreNumbered fuel
          (record {
            chunks = add_chunk (trim (take at k.buffer)) k.chunks;
            buffer = drop (at - 200) k.buffer;
          })
          (add_chunk-AreNumbered (trim (take at k.buffer)) k.chunks h
            (omega (arith, length-trim (take at k.buffer), length-take_le at k.buffer, high))))
]

append-AreNumbered :
    (para : Text) (k : Chunked)
    → AreNumbered 0 k.chunks
    → length k.buffer ≤ 1800
    → AreNumbered 0 (append para k).chunks
append-AreNumbered para k h l =
    elim (Bool-cases (ltb 1200 (length (k.buffer ++ 10 ∷ 10 ∷ para)) && is_filled k.buffer)) [
      | inl e ↦ rw e (flush-AreNumbered k h l)
      | inr e ↦ rw e h
    ]

chunk_from_lem :
    (paras : List Text) (k : Chunked)
    → AreNumbered 0 k.chunks
    → length k.buffer ≤ 1800
    → AreNumbered 0 (chunk_from paras k).chunks × (length (chunk_from paras k).buffer ≤ 1800)
chunk_from_lem [] k h l = (h, l)
chunk_from_lem (para ∷ paras) k h l =
    let next = append para k in
    chunk_from_lem paras (split_long (length next.buffer) next)
      (split_long-AreNumbered (length next.buffer) next (append-AreNumbered para k h l))
      (split_long_ends (length next.buffer) next (omega arith))

-- The chunks of a text are numbered from 0 in their order, and each is at most 1800 units long; and the
-- loop that splits a long buffer has always come to its end when its fuel is spent, with a buffer of at
-- most 1800 units left.
pub chunk-AreNumbered :
    (text : Text)
    → AreNumbered 0 (chunk text)
      × ((k : Chunked) → length (split_long (length k.buffer) k).buffer ≤ 1800)
unfolding chunk
chunk-AreNumbered text =
    (numbered (trim (unix_lines text)) refl, λ k. split_long_ends (length k.buffer) k (omega arith))
  where
    numbered : (t : Text) → trim (unix_lines text) ≡ t → AreNumbered 0 (chunk text)
    numbered [] e = rw (e, chunk) tt
    numbered (c ∷ s) e =
        let k = chunk_from (paragraphs_from [] 0 (c ∷ s)) (record { chunks = []; buffer = [] }) in
        let (h, l) =
          chunk_from_lem (paragraphs_from [] 0 (c ∷ s)) (record { chunks = []; buffer = [] }) tt
            (omega arith) in
        rw (e, chunk) (flush-AreNumbered k h l)
