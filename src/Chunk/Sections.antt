-- ===== src/Chunk/Sections.antt =====
-- `chunkMarkdown` and `extractSections`. The Markdown parser (goldmark) is a parameter: of its tree
-- the program reads the headings in the order of the text, each with its level, the text segments
-- below it and the start of its first line.
pub mod Ancestors
pub mod Limits
mod Tests
use mathlib.Core.List.{reverse}
use gist.Prelude.{
  ℕ, zero, suc, ◌+◌, ◌-◌, List, [], ◌∷◌, ◌++◌, Bool, true, false, ◌&&◌, ◌||◌, ltb, leb, ◌==◌,
  length, map, take, drop, Option, none, some, if◌then◌else◌, flatten,
}
use gist.Text.{Bytes, codes, is_empty, trim_right_set, join}
use gist.Snippet.{byte_at, slice}
use gist.Store.{ContentType}
use gist.Chunk.Pieces.{ContentChunk, SubChunk, assign_indices}
use gist.Chunk.Plain.{chunk_plain_text}
use gist.Chunk.Paragraphs.{detect_content_type, split_on_paragraphs}

-- A heading of the parser's tree; `first_line` is absent where the heading has no lines.
pub record Heading : Type 0 where
  pub level : ℕ
  pub segments : List Bytes
  pub first_line : Option ℕ

-- `headingInfo`.
pub record HeadingInfo : Type 0 where
  pub level : ℕ
  pub text : Bytes
  pub pos : ℕ

pub record Section : Type 0 where
  pub heading_path : Bytes
  pub content : Bytes
  pub content_type : ContentType
  pub start_byte : ℕ
  pub end_byte : ℕ

-- `for startByte > 0 && source[startByte-1] != '\n'`.
unfoldable pub back_to_line : Bytes → ℕ → ℕ
unfolding byte_at
back_to_line source zero = 0
back_to_line source (suc i) =
    let rest = back_to_line source i in if byte_at source i == 10 then suc i else rest

-- `extractText`.
unfoldable pub extract_text : List Bytes → Bytes
extract_text [] = []
extract_text (s ∷ ss) = s ++ extract_text ss

abbrev pub line_start : Option ℕ → ℕ
line_start none = 0
line_start (some i) = i

-- Each heading starts in the text: else the loop of `back_to_line` reads out of bounds and panics.
unfoldable pub all_inside : Bytes → List Heading → Bool
all_inside source [] = true
all_inside source (h ∷ hs) =
    let rest = all_inside source hs in
    if leb (line_start h.first_line) (length source) then rest else false

unfoldable pub heading_info : Bytes → Heading → HeadingInfo
unfolding back_to_line extract_text
heading_info source h = record {
  level = h.level;
  text = extract_text h.segments;
  pos = back_to_line source (line_start h.first_line);
}

-- The stack of open headings, the innermost first; the two stacks of the source grow together.
unfoldable pub pop_to : ℕ → List HeadingInfo → List HeadingInfo
pop_to level [] = []
pop_to level (h ∷ hs) = if leb level h.level then pop_to level hs else h ∷ hs

unfoldable pub push_heading : HeadingInfo → List HeadingInfo → List HeadingInfo
unfolding pop_to
push_heading h stack = h ∷ pop_to h.level stack

unfoldable pub path_of : List HeadingInfo → Bytes
unfolding join
path_of stack = join (reverse (map (λ h. h.text) stack)) (codes " > ")

-- The cut set "\n\r\t ".
abbrev pub is_trailing : ℕ → Bool
is_trailing c = c == 10 || c == 13 || c == 9 || c == 32

-- A section of this text, none where it is only white space.
unfoldable pub trimmed_section : Bytes → Bytes → ℕ → List Section
unfolding trim_right_set
trimmed_section text path start =
    let content = trim_right_set is_trailing text in
    if is_empty content
    then []
    else record {
      heading_path = path;
      content = content;
      content_type = detect_content_type content;
      start_byte = start;
      end_byte = start + length content;
    }
      ∷ []

-- A section of `source[start:end]`; `none` is the panic of a slice out of bounds.
unfoldable pub section_of : Bytes → Bytes → ℕ → ℕ → Option (List Section)
unfolding trimmed_section
section_of source path start end =
    if ltb end start || ltb (length source) end
    then none
    else some (trimmed_section (slice source start end) path start)

-- Two parts of a result, one behind the other, unless there was a panic.
abbrev pub both : Option (List Section) → Option (List Section) → Option (List Section)
both none later = none
both (some ss) none = none
both (some ss) (some ts) = some (ss ++ ts)

abbrev pub next_pos : Bytes → List HeadingInfo → ℕ
next_pos source [] = length source
next_pos source (h ∷ hs) = h.pos

unfoldable pub heading_sections :
    Bytes → List HeadingInfo → List HeadingInfo → Option (List Section)
unfolding push_heading path_of section_of
heading_sections source stack [] = some []
heading_sections source stack (h ∷ hs) =
    let open_headings = push_heading h stack in
    both (section_of source (path_of open_headings) h.pos (next_pos source hs))
      (heading_sections source open_headings hs)

-- The sections, with what stands before the first heading.
unfoldable pub extract_sections : Bytes → List HeadingInfo → Option (List Section)
unfolding heading_sections
extract_sections source [] = some []
extract_sections source (h ∷ hs) =
    both (if ltb 0 h.pos then section_of source [] 0 h.pos else some [])
      (heading_sections source [] (h ∷ hs))

unfoldable pub section_chunk : Section → Bytes → ℕ → ℕ → ContentChunk
section_chunk sec text start end = record {
  content = text;
  heading_path = sec.heading_path;
  content_type = sec.content_type;
  start_byte = start;
  end_byte = end;
  index = 0;
}

unfoldable pub section_chunks : ℕ → Section → List ContentChunk
unfolding section_chunk
section_chunks max_bytes sec =
    if leb (length sec.content) max_bytes
    then section_chunk sec sec.content sec.start_byte sec.end_byte ∷ []
    else map
        (λ (s : SubChunk).
          section_chunk sec s.text (sec.start_byte + s.offset)
            (sec.start_byte + s.offset + length s.text))
        (split_on_paragraphs sec.content max_bytes)

unfoldable pub all_section_chunks : ℕ → List Section → List ContentChunk
unfolding section_chunks
all_section_chunks max_bytes [] = []
all_section_chunks max_bytes (s ∷ ss) =
    section_chunks max_bytes s ++ all_section_chunks max_bytes ss

unfoldable pub chunk_sections : Bytes → ℕ → List Section → List ContentChunk
unfolding all_section_chunks
chunk_sections content max_bytes [] = chunk_plain_text content max_bytes
chunk_sections content max_bytes (s ∷ ss) = assign_indices 0 (all_section_chunks max_bytes (s ∷ ss))

-- The chunks, unless the sections ended in a panic.
abbrev pub chunk_found : Bytes → ℕ → Option (List Section) → Option (List ContentChunk)
chunk_found content max_bytes none = none
chunk_found content max_bytes (some ss) = some (chunk_sections content max_bytes ss)

module _ (parse : Bytes → List Heading) where
  unfoldable pub chunk_markdown : Bytes → ℕ → Option (List ContentChunk)
  unfolding all_inside chunk_sections extract_sections heading_info
  chunk_markdown content max_bytes =
      if all_inside content (parse content)
      then chunk_found content max_bytes
          (extract_sections content (map (heading_info content) (parse content)))
      else none
