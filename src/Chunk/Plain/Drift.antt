-- ===== src/Chunk/Plain/Drift.antt =====
-- The positions that the chunks of a plain text report.
use gist.Prelude.{
  ℕ, ◌+◌, ◌≤◌, ◌<◌, ◌≡◌, refl, ◌≢◌, List, [], ◌∷◌, ◌++◌, append_assoc, ltb, arith, length,
  length-append, false, lt→ltb,
}
use gist.Text.{Bytes, is_empty, trim_space, join}
use gist.Chunk.Pieces.{ContentChunk, assign_indices}
use gist.Chunk.Plain.{
  newlines, plain_chunk, begin_segment, flush, gather, gather_all, finish, nothing_gathered,
  plain_paragraphs,
}

-- A paragraph with nothing to trim.
abbrev pub IsTrimmed : Bytes → Type 0
IsTrimmed p = (p ≢ []) × (trim_space p ≡ p)

is_empty-ne : (s : Bytes) → s ≢ [] → is_empty s ≡ false
is_empty-ne [] h = absurd (h refl)
is_empty-ne (c ∷ s) h = refl

fits→ltb : (a b : ℕ) → a ≤ b → ltb b a ≡ false
fits→ltb a b h = ground arith

-- The first paragraph of a segment is kept for more.
gather_first :
    (max_bytes between : ℕ) (p : Bytes) (cs : List ContentChunk) (offset start : ℕ)
    → p ≢ []
    → length p ≤ max_bytes
    → gather max_bytes between p
        (record { chunks = cs; current = []; offset = offset; segment_start = start })
      ≡ record {
        chunks = cs;
        current = p;
        offset = offset + length p + between;
        segment_start = offset;
      }
unfolding gather begin_segment
gather_first max_bytes between p cs offset start ne fits =
    rw (is_empty-ne p ne, fits→ltb _ _ fits) refl

-- A paragraph that fits is joined.
gather_more :
    (max_bytes between : ℕ) (p q : Bytes) (cs : List ContentChunk) (offset start : ℕ)
    → p ≢ []
    → q ≢ []
    → length q + 2 + length p ≤ max_bytes
    → gather max_bytes between p
        (record { chunks = cs; current = q; offset = offset; segment_start = start })
      ≡ record {
        chunks = cs;
        current = q ++ (newlines ++ p);
        offset = offset + (2 + length p) + between;
        segment_start = start;
      }
unfolding gather
gather_more max_bytes between p q cs offset start ne some_text fits =
    rw (is_empty-ne p ne, is_empty-ne q some_text, fits→ltb _ _ fits) refl

-- One that does not fit begins a segment behind the chunk that is flushed.
gather_next :
    (max_bytes between : ℕ) (p q : Bytes) (cs : List ContentChunk) (offset start : ℕ)
    → p ≢ []
    → q ≢ []
    → length p ≤ max_bytes
    → max_bytes < length q + 2 + length p
    → gather max_bytes between p
        (record { chunks = cs; current = q; offset = offset; segment_start = start })
      ≡ record {
        chunks = cs ++ plain_chunk q start ∷ [];
        current = p;
        offset = offset + length p + between;
        segment_start = offset;
      }
unfolding gather begin_segment flush
gather_next max_bytes between p q cs offset start ne some_text fits over =
    rw (is_empty-ne p ne, is_empty-ne q some_text, fits→ltb _ _ fits, lt→ltb _ _ over) refl

append-ne-nil : (s t : Bytes) → s ≢ [] → s ++ t ≢ []
append-ne-nil [] t h = absurd (h refl)
append-ne-nil (c ∷ s) t h = λ e. cc

gathered_three :
    (max_bytes : ℕ) (a b c : Bytes)
    → a ≢ []
    → b ≢ []
    → c ≢ []
    → length a + 2 + length b ≤ max_bytes
    → max_bytes < length a + 2 + length b + 2 + length c
    → length c ≤ max_bytes
    → gather max_bytes 0 c (gather max_bytes 2 b (gather max_bytes 2 a nothing_gathered)) ≡ record {
      chunks = plain_chunk (a ++ (newlines ++ b)) 0 ∷ [];
      current = c;
      offset = 0 + length a + 2 + (2 + length b) + 2 + length c + 0;
      segment_start = 0 + length a + 2 + (2 + length b) + 2;
    }
gathered_three max_bytes a b c na nb nc fits over short =
    let size = length-append a (newlines ++ b) in
    rw
      (
        gather_first max_bytes 2 a [] 0 0 na (omega arith),
        gather_more max_bytes 2 b a [] _ 0 nb na fits,
      )
      (gather_next max_bytes 0 c (a ++ (newlines ++ b)) [] _ 0 nc (append-ne-nil a _ na) short
        (omega (arith, size)))

-- Of three trimmed paragraphs, where the first two fit in one chunk and the third does not, and
-- no paragraph is too long, the second chunk holds the third paragraph and starts, by its
-- `StartByte`, two bytes behind the position at which that paragraph stands in the content.
pub second_chunk_drifts :
    (max_bytes : ℕ) (a b c : Bytes)
    → IsTrimmed a
    → IsTrimmed b
    → IsTrimmed c
    → length a + 2 + length b ≤ max_bytes
    → max_bytes < length a + 2 + length b + 2 + length c
    → length c ≤ max_bytes
    → (plain_paragraphs max_bytes (a ∷ b ∷ c ∷ [])
        ≡ record (plain_chunk (a ++ (newlines ++ b)) 0) { index = 0 }
          ∷ record (plain_chunk c (length (a ++ (newlines ++ (b ++ newlines))) + 2)) { index = 1 }
          ∷ [])
      × (join (a ∷ b ∷ c ∷ []) newlines ≡ (a ++ (newlines ++ (b ++ newlines))) ++ c)
unfolding plain_paragraphs gather_all finish flush assign_indices join plain_chunk
second_chunk_drifts max_bytes a b c ta tb tc fits over short =
    let where_b = length-append a (newlines ++ (b ++ newlines)) in
    let where_c = length-append b newlines in
    let start : 0 + length a + 2 + (2 + length b) + 2
        ≡ length (a ++ (newlines ++ (b ++ newlines))) + 2 =
      omega (arith, where_b, where_c) in
    (
      rw
          (
            ta.1,
            tb.1,
            tc.1,
            gathered_three max_bytes a b c ta.0 tb.0 tc.0 fits over short,
            is_empty-ne c tc.0,
            start,
          )
          refl,
      simp append_assoc,
    )
