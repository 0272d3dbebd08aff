-- ===== src/Chunk/Plain.antt =====
-- `chunkPlainText`: paragraphs are gathered up to `maxBytes`.
pub mod Bounds
pub mod Content
pub mod Drift
mod Tests
use gist.Prelude.{
  ℕ, zero, suc, ◌+◌, List, [], ◌∷◌, ◌++◌, Bool, true, false, ltb, if◌then◌else◌, length, map, not,
}
use gist.Text.{Bytes, is_empty, trim_space, split}
use gist.Store.{prose}
use gist.Chunk.Pieces.{ContentChunk, SubChunk, force_split, assign_indices}

abbrev pub newlines : Bytes
newlines = 10 ∷ 10 ∷ []

-- The variables of the loop.
pub record Gather : Type 0 where
  pub chunks : List ContentChunk
  pub current : Bytes
  pub offset : ℕ
  pub segment_start : ℕ

unfoldable pub plain_chunk : Bytes → ℕ → ContentChunk
plain_chunk text start = record {
  content = text;
  heading_path = [];
  content_type = prose;
  start_byte = start;
  end_byte = start + length text;
  index = 0;
}

-- `off` is counted from the offset of the paragraph.
unfoldable pub plain_pieces : ℕ → ℕ → Bytes → List ContentChunk
unfolding plain_chunk
plain_pieces max_bytes offset p =
    map (λ s. plain_chunk s.text (offset + s.offset)) (force_split (length p) max_bytes 0 p)

-- The two bytes between this paragraph and the next, `if i < len(paragraphs)-1`.
abbrev pub gap : List Bytes → ℕ
gap [] = 0
gap (p ∷ ps) = 2

-- The paragraph begins a segment of its own.
unfoldable pub begin_segment : ℕ → ℕ → Bytes → Gather → Gather
unfolding plain_pieces
begin_segment max_bytes between p g =
    if ltb max_bytes (length p)
    then record g {
      chunks = g.chunks ++ plain_pieces max_bytes g.offset p;
      segment_start = g.offset;
      offset = g.offset + length p + between;
    }
    else record g { current = p; segment_start = g.offset; offset = g.offset + length p + between }

-- The text gathered so far becomes a chunk.
unfoldable pub flush : Gather → Gather
unfolding plain_chunk
flush g = record g { chunks = g.chunks ++ plain_chunk g.current g.segment_start ∷ []; current = [] }

-- One round of the loop, for a paragraph that was trimmed.
unfoldable pub gather : ℕ → ℕ → Bytes → Gather → Gather
unfolding begin_segment flush
gather max_bytes between p g =
    if is_empty p
    then record g { offset = g.offset + between }
    else if is_empty g.current
    then begin_segment max_bytes between p g
    else if ltb max_bytes (length g.current + 2 + length p)
    then begin_segment max_bytes between p (flush g)
    else record g {
      current = g.current ++ (newlines ++ p);
      offset = g.offset + (2 + length p) + between;
    }

unfoldable pub gather_all : ℕ → List Bytes → Gather → Gather
unfolding gather
gather_all max_bytes [] g = g
gather_all max_bytes (p ∷ ps) g =
    gather_all max_bytes ps (gather max_bytes (gap ps) (trim_space p) g)

unfoldable pub finish : Gather → List ContentChunk
unfolding flush
finish g = if is_empty g.current then g.chunks else (flush g).chunks

abbrev pub nothing_gathered : Gather
nothing_gathered = record { chunks = []; current = []; offset = 0; segment_start = 0 }

-- The chunks of a list of paragraphs.
unfoldable pub plain_paragraphs : ℕ → List Bytes → List ContentChunk
unfolding gather_all finish assign_indices
plain_paragraphs max_bytes ps = assign_indices 0 (finish (gather_all max_bytes ps nothing_gathered))

unfoldable pub chunk_plain_text : Bytes → ℕ → List ContentChunk
unfolding plain_paragraphs
chunk_plain_text content max_bytes = plain_paragraphs max_bytes (split content newlines)
