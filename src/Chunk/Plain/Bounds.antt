-- ===== src/Chunk/Plain/Bounds.antt =====
-- The sizes of the chunks of a plain text.
use gist.Prelude.{
  ℕ, ◌+◌, ◌≤◌, ◌≡◌, refl, List, [], ◌∷◌, ◌++◌, ltb, arith, length, length-append, All, All-append,
  map, if_cases,
}
use gist.Text.{Bytes, is_empty, trim_space, split}
use gist.Chunk.Pieces.{
  ContentChunk, SubChunk, force_split-bounded, assign_indices-All, assign_indices-Indexed, Indexed,
}
use gist.Chunk.Plain.{
  Gather, newlines, plain_chunk, gap, begin_segment, flush, gather, gather_all, finish,
  nothing_gathered, plain_paragraphs, chunk_plain_text,
}

-- The chunk has at most `max_bytes` bytes, and spans as many positions as it has bytes.
abbrev pub Sized : ℕ → ContentChunk → Type 0
Sized max_bytes c = (length c.content ≤ max_bytes) × (c.end_byte ≡ c.start_byte + length c.content)

record Bounded (max_bytes : ℕ) (g : Gather) : Type 0 where
  chunks : All (Sized max_bytes) g.chunks
  current : length g.current ≤ max_bytes

map-Sized :
    (max_bytes offset : ℕ) (ps : List SubChunk)
    → All (λ (s : SubChunk). length s.text ≤ max_bytes) ps
    → All (Sized max_bytes) (map (λ s. plain_chunk s.text (offset + s.offset)) ps)
unfolding plain_chunk
map-Sized max_bytes offset [] h = tt
map-Sized max_bytes offset (p ∷ ps) h = ((h.0, refl), map-Sized max_bytes offset ps h.1)

begin_segment-Bounded :
    (max_bytes between : ℕ) (p : Bytes) (g : Gather)
    → Bounded max_bytes g
    → Bounded max_bytes (begin_segment max_bytes between p g)
unfolding begin_segment
begin_segment-Bounded max_bytes between p g b =
    if_cases (Bounded max_bytes) (ltb max_bytes (length p))
      (λ long. record {
        chunks =
            All-append _ g.chunks _ b.chunks
              (map-Sized max_bytes g.offset _ (force_split-bounded (length p) max_bytes 0 p));
        current = b.current;
      })
      (λ short. record { chunks = b.chunks; current = ground arith })

flush-Bounded : (max_bytes : ℕ) (g : Gather) → Bounded max_bytes g → Bounded max_bytes (flush g)
unfolding flush
flush-Bounded max_bytes g b = record {
  chunks = All-append _ g.chunks _ b.chunks ((b.current, refl), tt);
  current = omega arith;
}

gather-Bounded :
    (max_bytes between : ℕ) (p : Bytes) (g : Gather)
    → Bounded max_bytes g
    → Bounded max_bytes (gather max_bytes between p g)
unfolding gather
gather-Bounded max_bytes between p g b =
    if_cases (Bounded max_bytes) (is_empty p)
      (λ _. record { chunks = b.chunks; current = b.current })
      λ _.
        if_cases (Bounded max_bytes) (is_empty g.current)
          (λ _. begin_segment-Bounded max_bytes between p g b)
          λ _.
            if_cases (Bounded max_bytes) (ltb max_bytes (length g.current + 2 + length p))
              (λ _.
                begin_segment-Bounded max_bytes between p (flush g) (flush-Bounded max_bytes g b))
              λ fits. record {
                chunks = b.chunks;
                current =
                    ground
                      (arith, length-append g.current (newlines ++ p), length-append newlines p);
              }

gather_all-Bounded :
    (max_bytes : ℕ) (ps : List Bytes) (g : Gather)
    → Bounded max_bytes g
    → Bounded max_bytes (gather_all max_bytes ps g)
unfolding gather_all
gather_all-Bounded max_bytes [] g b = b
gather_all-Bounded max_bytes (p ∷ ps) g b =
    gather_all-Bounded max_bytes ps _ (gather-Bounded max_bytes (gap ps) (trim_space p) g b)

finish-Sized : (max_bytes : ℕ) (g : Gather) → Bounded max_bytes g → All (Sized max_bytes) (finish g)
unfolding finish
finish-Sized max_bytes g b =
    if_cases (All (Sized max_bytes)) (is_empty g.current) (λ _. b.chunks)
      (λ _. (flush-Bounded max_bytes g b).chunks)

-- Every chunk of a plain text has at most `maxBytes` bytes and an end that lies its length behind
-- its start, and the chunks are numbered from 0.
pub chunk_plain_text-Sized :
    (content : Bytes) (max_bytes : ℕ)
    → All (Sized max_bytes) (chunk_plain_text content max_bytes)
      × Indexed 0 (chunk_plain_text content max_bytes)
unfolding chunk_plain_text plain_paragraphs
chunk_plain_text-Sized content max_bytes =
    let done =
      gather_all-Bounded max_bytes (split content newlines) nothing_gathered
        (record { chunks = tt; current = omega arith }) in
    (
      assign_indices-All (Sized max_bytes) (λ c i h. h) 0 _ (finish-Sized max_bytes _ done),
      assign_indices-Indexed 0 _,
    )
