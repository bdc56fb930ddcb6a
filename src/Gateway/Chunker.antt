-- ===== src/Gateway/Chunker.antt =====
-- ai-gateway's chunker of documents: rag/chunker.service.ts. The loop that splits a long buffer runs
-- on fuel, as much as the buffer is long.
pub mod Laws
mod Tests
use gen_xtaxi_ai.Common.{
  ℕ, zero, suc, ◌+◌, ◌-◌, Bool, true, false, ◌&&◌, Option, none, some, List, [], ◌∷◌, ◌++◌, length,
  take, drop, ltb, leb, ◌==◌, if◌then◌else◌,
}
use gen_xtaxi_ai.Common.Text.{Text, trim}

pub record Chunk : Type 0 where
  pub content : Text
  pub index : ℕ

-- `replace(/\r\n/g, '\n')`
unfoldable pub unix_lines : Text → Text
unix_lines [] = []
unix_lines (c ∷ []) = c ∷ []
unix_lines (c ∷ d ∷ s) =
    let rest = unix_lines (d ∷ s) in if (c == 13) && (d == 10) then rest else c ∷ rest

abbrev newlines : ℕ → Text
newlines zero = []
newlines (suc n) = 10 ∷ newlines n

-- `split(/\n{2,}/)`: `para` is what came since the last separator, before the `n` line ends read last.
unfoldable pub paragraphs_from : Text → ℕ → Text → List Text
paragraphs_from para n [] = if leb 2 n then para ∷ [] ∷ [] else (para ++ newlines n) ∷ []
paragraphs_from para n (c ∷ s) =
    let line_end = paragraphs_from para (suc n) s in
    let next = paragraphs_from (c ∷ []) 0 s in
    let same = paragraphs_from (para ++ (newlines n ++ c ∷ [])) 0 s in
    if c == 10 then line_end else if leb 2 n then para ∷ next else same

-- `lastIndexOf('. ', most)`, of which `i` units were passed.
abbrev pub last_stop : ℕ → ℕ → Text → Option ℕ → Option ℕ
last_stop most i [] found = found
last_stop most i (c ∷ []) found = found
last_stop most i (c ∷ d ∷ s) found =
    last_stop most (suc i) (d ∷ s)
      (if (c == b'.') && ((d == b' ') && leb i most) then some i else found)

-- Where a buffer is cut: behind a sentence in its second half, or at the target.
abbrev pub cut_at : Option ℕ → ℕ
cut_at none = 1200
cut_at (some cut) = if ltb 600 cut then suc cut else 1200

-- The chunks so far, and the text that is in none of them yet.
pub record Chunked : Type 0 where
  pub chunks : List Chunk
  pub buffer : Text

abbrev pub add_chunk : Text → List Chunk → List Chunk
add_chunk content chunks = chunks ++ record { content = content; index = length chunks } ∷ []

abbrev pub add_filled : Text → List Chunk → List Chunk
add_filled [] chunks = chunks
add_filled (c ∷ s) chunks = add_chunk (c ∷ s) chunks

unfoldable pub flush : Chunked → Chunked
unfolding trim
flush k =
    let trimmed = trim k.buffer in
    record {
      chunks = add_filled trimmed k.chunks;
      buffer = if ltb 200 (length trimmed) then drop (length trimmed - 200) trimmed else [];
    }

-- `while (buffer.length > targetChars * 1.5)`
unfoldable pub split_long : ℕ → Chunked → Chunked
unfolding trim
split_long zero k = k
split_long (suc fuel) k =
    let at = cut_at (last_stop 1200 0 k.buffer none) in
    let more = split_long fuel (record {
      chunks = add_chunk (trim (take at k.buffer)) k.chunks;
      buffer = drop (at - 200) k.buffer;
    }) in
    if ltb 1800 (length k.buffer) then more else k

abbrev joined : Text → Text → Text
joined [] para = para
joined (c ∷ s) para = (c ∷ s) ++ 10 ∷ 10 ∷ para

abbrev pub is_filled : Text → Bool
is_filled [] = false
is_filled (c ∷ s) = true

abbrev pub append : Text → Chunked → Chunked
append para k =
    let flushed = flush k in
    let before =
      if ltb 1200 (length (k.buffer ++ 10 ∷ 10 ∷ para)) && is_filled k.buffer then flushed else k in
    record before { buffer = joined before.buffer para }

abbrev pub chunk_from : List Text → Chunked → Chunked
chunk_from [] k = k
chunk_from (para ∷ paras) k =
    let next = append para k in chunk_from paras (split_long (length next.buffer) next)

unfoldable pub chunk : Text → List Chunk
unfolding flush split_long trim unix_lines paragraphs_from
chunk text = elim (trim (unix_lines text)) [
  | [] ↦ []
  | c ∷ s ↦
      (flush
        (chunk_from (paragraphs_from [] 0 (c ∷ s)) (record { chunks = []; buffer = [] }))).chunks
]
