-- ===== src/Gateway/Chunker/Tests.antt =====
-- The chunker on concrete texts.
use gen_xtaxi_ai.Common.{◌≤◌, ◌≡◌, refl, [], ◌∷◌, length}
use gen_xtaxi_ai.Common.Text.{Text, codes, trim, trim_start}
use gen_xtaxi_ai.Gateway.Chunker.{Chunked, chunk, split_long, flush, paragraphs_from, unix_lines}
use gen_xtaxi_ai.Gateway.Chunker.Laws.{AreNumbered, chunk-AreNumbered}

abbrev text : Text
text = codes "One.\n\nTwo."

chunk-AreNumbered_example :
    AreNumbered 0 (chunk text)
    × ((k : Chunked) → length (split_long (length k.buffer) k).buffer ≤ 1800)
chunk-AreNumbered_example = chunk-AreNumbered text

one_chunk : chunk text ≡ record { content = text; index = 0 } ∷ []
unfolding chunk codes trim trim_start split_long flush paragraphs_from unix_lines
one_chunk = refl
