-- ===== src/Chunk/Paragraphs.antt =====
-- `detectContentType`, `splitPreservingCodeBlocks` and `splitOnParagraphs`: the sections of a
-- Markdown text that are too long.
pub mod Limits
pub mod Blanks
mod Tests
use gist.Prelude.{
  ℕ, zero, suc, ◌+◌, ◌*◌, List, [], ◌∷◌, ◌++◌, Bool, true, false, ◌&&◌, ◌||◌, ltb, if◌then◌else◌,
  length, map, not, ◌==◌,
}
use gist.Text.{Bytes, codes, is_empty, trim_space, split, has_prefix, contains, trim_right_set}
use gist.Store.{ContentType, code, prose}
use gist.Chunk.Pieces.{SubChunk, force_split}
use gist.Chunk.Plain.{newlines}

abbrev pub fence : Bytes
fence = codes "```"

unfoldable pub opens_fence : Bytes → Bool
opens_fence line = has_prefix (trim_space line) fence

-- The bytes of the lines inside fences, each with its newline.
unfoldable pub code_bytes : Bool → List Bytes → ℕ
unfolding opens_fence
code_bytes in_fence [] = 0
code_bytes in_fence (line ∷ lines) =
    let rest = code_bytes (if opens_fence line then not in_fence else in_fence) lines in
    if opens_fence line then rest else if in_fence then length line + 1 + rest else rest

-- `codeBytes / totalBytes > 0.5`; the float64 quotient is on the right side of one half for every
-- text below 2^52 bytes.
unfoldable pub detect_content_type : Bytes → ContentType
unfolding code_bytes
detect_content_type content =
    if ltb 0 (length content)
      && ltb (length content) (2 * code_bytes false (split content (10 ∷ [])))
    then code
    else prose

-- The variables of the loop over the lines.
pub record Lines : Type 0 where
  pub parts : List Bytes
  pub current : Bytes
  pub in_fence : Bool
  pub prev_empty : Bool

abbrev pub is_newline : ℕ → Bool
is_newline c = c == 10

-- The text gathered so far becomes a part, if it is more than newlines.
unfoldable pub add_part : List Bytes → Bytes → List Bytes
add_part parts current =
    let text = trim_right_set is_newline current in
    if is_empty text then parts else parts ++ text ∷ []

-- The text with one more line; an empty line does not begin a text.
unfoldable pub add_line : Bytes → Bytes → Bool → Bytes
add_line current line is_blank =
    if is_empty current
    then if is_blank then current else current ++ line
    else current ++ (10 ∷ line)

unfoldable pub next_line : Bytes → Lines → Lines
unfolding opens_fence add_part add_line
next_line line l =
    let in_fence = if opens_fence line then not l.in_fence else l.in_fence in
    let is_blank = is_empty (trim_space line) in
    if not in_fence && (is_blank && l.prev_empty)
    then record {
      parts = add_part l.parts l.current;
      current = [];
      in_fence = in_fence;
      prev_empty = false;
    }
    else record {
      parts = l.parts;
      current = add_line l.current line is_blank;
      in_fence = in_fence;
      prev_empty = is_blank;
    }

unfoldable pub all_lines : List Bytes → Lines → Lines
unfolding next_line
all_lines [] l = l
all_lines (line ∷ lines) l = all_lines lines (next_line line l)

abbrev pub no_lines : Lines
no_lines = record { parts = []; current = []; in_fence = false; prev_empty = false }

unfoldable pub split_preserving_code_blocks : Bytes → List Bytes
unfolding all_lines add_part
split_preserving_code_blocks content =
    let l = all_lines (split content (10 ∷ [])) no_lines in
    if is_empty l.current then l.parts else add_part l.parts l.current

-- The variables of the loop over the paragraphs.
pub record Pack : Type 0 where
  pub result : List SubChunk
  pub current : Bytes
  pub current_offset : ℕ
  pub segment_start : ℕ

-- A paragraph where no text is gathered: one that is too long and holds no fence is cut by bytes.
unfoldable pub begin_pack : ℕ → Bytes → Pack → Pack
begin_pack max_bytes p k =
    let past = k.current_offset + length p in
    if ltb max_bytes (length p) && not (contains p fence)
    then record k {
      result = k.result ++ force_split (length p) max_bytes k.current_offset p;
      current_offset = past;
      segment_start = past;
    }
    else record k { current = p; segment_start = k.current_offset; current_offset = past }

unfoldable pub flush_pack : Pack → Pack
flush_pack k = record k {
  result = k.result ++ record { text = k.current; offset = k.segment_start } ∷ [];
  current = [];
}

unfoldable pub pack : ℕ → Bytes → Pack → Pack
unfolding begin_pack flush_pack
pack max_bytes p k =
    if is_empty k.current
    then begin_pack max_bytes p k
    else if ltb max_bytes (length k.current + 2 + length p)
    then begin_pack max_bytes p (flush_pack k)
    else record k {
      current = k.current ++ (newlines ++ p);
      current_offset = k.current_offset + (2 + length p);
    }

unfoldable pub pack_all : ℕ → List Bytes → Pack → Pack
unfolding pack
pack_all max_bytes [] k = k
pack_all max_bytes (p ∷ ps) k = pack_all max_bytes ps (pack max_bytes p k)

unfoldable pub finish_pack : Pack → List SubChunk
unfolding flush_pack
finish_pack k = if is_empty k.current then k.result else (flush_pack k).result

abbrev pub nothing_packed : Pack
nothing_packed = record { result = []; current = []; current_offset = 0; segment_start = 0 }

unfoldable pub split_on_paragraphs : Bytes → ℕ → List SubChunk
unfolding pack_all finish_pack
split_on_paragraphs content max_bytes =
    finish_pack (pack_all max_bytes (split_preserving_code_blocks content) nothing_packed)
