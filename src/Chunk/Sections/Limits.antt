-- ===== src/Chunk/Sections/Limits.antt =====
-- The sizes, positions and numbers of the chunks of a Markdown text.
use gist.Prelude.{
  ℕ, ◌+◌, ◌≤◌, ◌≡◌, refl, ◌⊎◌, inl, inr, List, [], ◌∷◌, ◌++◌, true, false, Bool-cases, Option, some,
  none, Option-cases, ◌||◌, ltb, leb, arith, length, map, All, All-append, All-mono, if_cases,
}
use gist.Text.{Bytes, contains, is_empty, trim_right_set}
use gist.Snippet.{slice}
use gist.Chunk.Pieces.{ContentChunk, SubChunk, assign_indices-All, assign_indices-Indexed, Indexed}
use gist.Chunk.Plain.Bounds.{chunk_plain_text-Sized}
use gist.Chunk.Paragraphs.{fence}
use gist.Chunk.Paragraphs.Limits.{split_on_paragraphs_fits, FitsOrCode}
use gist.Chunk.Sections.{
  Heading, HeadingInfo, Section, all_inside, heading_info, section_of, trimmed_section, both,
  is_trailing, next_pos, push_heading, heading_sections, extract_sections, section_chunk,
  section_chunks, all_section_chunks, chunk_sections, chunk_markdown,
}

-- The chunk fits or holds a fence, and spans as many positions as it has bytes.
abbrev pub Fits : ℕ → ContentChunk → Type 0
Fits max_bytes c =
    ((length c.content ≤ max_bytes) ⊎ (contains c.content fence ≡ true))
    × (c.end_byte ≡ c.start_byte + length c.content)

abbrev Spans : Section → Type 0
Spans s = s.end_byte ≡ s.start_byte + length s.content

trimmed_section-Spans :
    (text path : Bytes) (start : ℕ) → All Spans (trimmed_section text path start)
unfolding trimmed_section
trimmed_section-Spans text path start =
    elim (Bool-cases (is_empty (trim_right_set is_trailing text))) [
      | inl blank ↦ rw blank tt
      | inr filled ↦ rw filled (refl, tt)
    ]

-- The headings stand in the order of their positions, and inside the text.
abbrev pub InOrder : Bytes → List HeadingInfo → Type 0
InOrder source [] = Unit {0}
InOrder source (h ∷ hs) =
    (h.pos ≤ next_pos source hs) × (next_pos source hs ≤ length source) × InOrder source hs

-- Sections were found, without a panic.
abbrev Cuts : Option (List Section) → Type 0
Cuts o = (ss : List Section) × (o ≡ some ss) × All Spans ss

section_of-Cuts :
    (source path : Bytes) (start end : ℕ)
    → start ≤ end
    → end ≤ length source
    → Cuts (section_of source path start end)
unfolding section_of
section_of-Cuts source path start end h k =
    let inside : (ltb end start || ltb (length source) end) ≡ false = ground arith in
    rw inside (_, refl, trimmed_section-Spans (slice source start end) path start)

both-Cuts : (a b : Option (List Section)) → Cuts a → Cuts b → Cuts (both a b)
both-Cuts a b (ss, e, h) (ts, e', h') = rw (e, e') (ss ++ ts, refl, All-append Spans ss ts h h')

heading_sections-Cuts :
    (source : Bytes) (stack hs : List HeadingInfo)
    → InOrder source hs
    → Cuts (heading_sections source stack hs)
unfolding heading_sections
heading_sections-Cuts source stack [] h = ([], refl, tt)
heading_sections-Cuts source stack (x ∷ hs) h =
    both-Cuts _ _ (section_of-Cuts source _ x.pos (next_pos source hs) h.0 h.1)
      (heading_sections-Cuts source (push_heading x stack) hs h.2)

extract_sections-Cuts :
    (source : Bytes) (hs : List HeadingInfo) → InOrder source hs → Cuts (extract_sections source hs)
unfolding extract_sections
extract_sections-Cuts source [] h = ([], refl, tt)
extract_sections-Cuts source (x ∷ hs) h =
    both-Cuts _ _
      (if_cases Cuts (ltb 0 x.pos)
        (λ _. section_of-Cuts source [] 0 x.pos (omega arith) (omega (arith, h.0, h.1)))
        (λ _. ([], refl, tt)))
      (heading_sections-Cuts source [] (x ∷ hs) h)

section_of-bounds :
    (source path : Bytes) (start end : ℕ) (ss : List Section)
    → section_of source path start end ≡ some ss
    → (start ≤ end) × (end ≤ length source)
unfolding section_of
section_of-bounds source path start end ss h = (ground arith, ground arith)

both-some :
    (a b : Option (List Section)) (ss : List Section)
    → both a b ≡ some ss
    → (xs : List Section) × (ys : List Section) × (a ≡ some xs) × (b ≡ some ys)
both-some none b ss h = absurd (cc)
both-some (some xs) none ss h = absurd (cc)
both-some (some xs) (some ys) ss h = (xs, ys, refl, refl)

heading_sections-InOrder :
    (source : Bytes) (stack hs : List HeadingInfo) (ss : List Section)
    → heading_sections source stack hs ≡ some ss
    → InOrder source hs
unfolding heading_sections
heading_sections-InOrder source stack [] ss h = tt
heading_sections-InOrder source stack (x ∷ hs) ss h =
    let (xs, ys, first, rest) = both-some _ _ ss h in
    let (low, high) = section_of-bounds source _ x.pos (next_pos source hs) xs first in
    (low, high, heading_sections-InOrder source (push_heading x stack) hs ys rest)

extract_sections-InOrder :
    (source : Bytes) (hs : List HeadingInfo) (ss : List Section)
    → extract_sections source hs ≡ some ss
    → InOrder source hs
unfolding extract_sections
extract_sections-InOrder source [] ss h = tt
extract_sections-InOrder source (x ∷ hs) ss h =
    let (xs, ys, before, rest) = both-some _ _ ss h in
    heading_sections-InOrder source [] (x ∷ hs) ys rest

pieces-Fits :
    (max_bytes : ℕ) (sec : Section) (ps : List Bytes) (pieces : List SubChunk)
    → All (λ (s : SubChunk). FitsOrCode ps max_bytes s.text) pieces
    → All (Fits max_bytes) (
        map
          (λ (s : SubChunk).
            section_chunk sec s.text
              (sec.start_byte + s.offset)
              (sec.start_byte + s.offset + length s.text))
          pieces)
unfolding section_chunk
pieces-Fits max_bytes sec ps [] h = tt
pieces-Fits max_bytes sec ps (s ∷ ss) h = (
  (elim h.0 [ inl short ↦ inl short | inr (_, whole) ↦ inr whole ], refl),
  pieces-Fits max_bytes sec ps ss h.1,
)

section_chunks-Fits :
    (max_bytes : ℕ) (sec : Section)
    → Spans sec
    → All (Fits max_bytes) (section_chunks max_bytes sec)
unfolding section_chunks
section_chunks-Fits max_bytes sec h =
    if_cases (All (Fits max_bytes)) (leb (length sec.content) max_bytes)
      (λ e. ((inl (ground arith), h), tt))
      (λ _. pieces-Fits max_bytes sec _ _ (split_on_paragraphs_fits sec.content max_bytes))

all_section_chunks-Fits :
    (max_bytes : ℕ) (ss : List Section)
    → All Spans ss
    → All (Fits max_bytes) (all_section_chunks max_bytes ss)
unfolding all_section_chunks
all_section_chunks-Fits max_bytes [] h = tt
all_section_chunks-Fits max_bytes (s ∷ ss) h =
    All-append _ _ _ (section_chunks-Fits max_bytes s h.0)
      (all_section_chunks-Fits max_bytes ss h.1)

chunk_sections-Fits :
    (content : Bytes) (max_bytes : ℕ) (ss : List Section)
    → All Spans ss
    → All (Fits max_bytes) (chunk_sections content max_bytes ss)
      × Indexed 0 (chunk_sections content max_bytes ss)
unfolding chunk_sections
chunk_sections-Fits content max_bytes [] h =
    let (sized, numbered) = chunk_plain_text-Sized content max_bytes in
    (All-mono (λ c s. (inl s.0, s.1)) _ sized, numbered)
chunk_sections-Fits content max_bytes (s ∷ ss) h = (
  assign_indices-All (Fits max_bytes) (λ c i f. f) 0 _
      (all_section_chunks-Fits max_bytes (s ∷ ss) h),
  assign_indices-Indexed 0 _,
)

-- The headings that the program reads from the parser's tree.
abbrev pub headings_of : (Bytes → List Heading) → Bytes → List HeadingInfo
headings_of parse content = map (heading_info content) (parse content)

-- The headings lie in the text, and their positions do not fall.
abbrev pub IsCuttable : (Bytes → List Heading) → Bytes → Type 0
IsCuttable parse content =
    (all_inside content (parse content) ≡ true) × InOrder content (headings_of parse content)

-- Chunks that fit, numbered from 0, and no panic.
abbrev pub ChunksFit : ℕ → Option (List ContentChunk) → Type 0
ChunksFit max_bytes o =
    (cs : List ContentChunk) × (o ≡ some cs) × All (Fits max_bytes) cs × Indexed 0 cs

-- Whatever headings the parser finds: the splitting of a Markdown text returns exactly where they
-- lie in the text and their positions do not fall, and panics else (the position of a heading
-- without lines is 0). Where it returns, every chunk has at most `maxBytes` bytes or holds a code fence, its
-- end lies its length behind its start, and the chunks are numbered from 0.
pub chunk_markdown-Fits :
    (parse : Bytes → List Heading) (content : Bytes) (max_bytes : ℕ)
    → (IsCuttable parse content → ChunksFit max_bytes (chunk_markdown parse content max_bytes))
      × (¬ IsCuttable parse content → chunk_markdown parse content max_bytes ≡ none)
unfolding chunk_markdown
chunk_markdown-Fits parse content max_bytes =
    let sections = extract_sections content (headings_of parse content) in
    (
      λ (inside, ordered).
          let (ss, e, spans) = extract_sections-Cuts content (headings_of parse content) ordered in
          let (fit, numbered) = chunk_sections-Fits content max_bytes ss spans in
          rw (inside, e) (chunk_sections content max_bytes ss, refl, fit, numbered),
      λ uncuttable. elim (Bool-cases (all_inside content (parse content))) [
        | inl inside ↦ elim (Option-cases sections) [
          | inl e ↦ rw (inside, e) refl
          | inr (ss, e) ↦ absurd (uncuttable (inside, extract_sections-InOrder content _ ss e))
        ]
        | inr outside ↦ rw outside refl
      ],
    )
