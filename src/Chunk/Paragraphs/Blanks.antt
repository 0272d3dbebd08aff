-- ===== src/Chunk/Paragraphs/Blanks.antt =====
-- `splitPreservingCodeBlocks`: the blank lines at which it divides.
use gist.Prelude.{◌≤◌, ◌≡◌, refl, ◌∙◌, List, [], ◌∷◌, Bool, false, ◌&&◌, arith, length, if_cases}
use gist.Text.{Bytes, is_empty, trim_space, split}
use gist.Chunk.Paragraphs.{
  Lines, next_line, all_lines, no_lines, add_part, split_preserving_code_blocks,
}

abbrev pub is_blank : Bytes → Bool
is_blank line = is_empty (trim_space line)

-- No two lines in a row are blank; the first argument says whether the line before was.
abbrev pub NoTwoBlank : Bool → List Bytes → Type 0
NoTwoBlank prev [] = Unit {0}
NoTwoBlank prev (line ∷ lines) =
    ((is_blank line && prev) ≡ false) × NoTwoBlank (is_blank line) lines

next_line-parts :
    (line : Bytes) (l : Lines)
    → (is_blank line && l.prev_empty) ≡ false
    → ((next_line line l).parts ≡ l.parts) × ((next_line line l).prev_empty ≡ is_blank line)
unfolding next_line
next_line-parts line l h = ground arith

all_lines-parts :
    (lines : List Bytes) (l : Lines)
    → NoTwoBlank l.prev_empty lines
    → (all_lines lines l).parts ≡ l.parts
unfolding all_lines
all_lines-parts [] l h = refl
all_lines-parts (line ∷ lines) l h =
    let (same, blank) = next_line-parts line l h.0 in
    all_lines-parts lines (next_line line l) (rw blank h.1) ∙ same

add_part-nil : (current : Bytes) → length (add_part [] current) ≤ 1
unfolding add_part
add_part-nil current = ground arith

-- A content with no two blank lines in a row is one part at most, however many single blank lines
-- divide its paragraphs.
pub one_part :
    (content : Bytes)
    → NoTwoBlank false (split content (10 ∷ []))
    → length (split_preserving_code_blocks content) ≤ 1
unfolding split_preserving_code_blocks
one_part content h =
    let lines = split content (10 ∷ []) in
    let none_yet = all_lines-parts lines no_lines h in
    if_cases (λ (ps : List Bytes). length ps ≤ 1) (is_empty (all_lines lines no_lines).current)
      (λ _. rw none_yet (omega arith))
      (λ _. rw none_yet (add_part-nil (all_lines lines no_lines).current))
