-- ===== src/Chunk/Paragraphs/Tests.antt =====
-- Runs of `splitOnParagraphs`, and the theorems about it at concrete inputs.
use gist.Prelude.{◌≤◌, ◌≡◌, refl, [], ◌∷◌, All, map, arith, length, false}
use gist.Text.{Bytes, codes, split, trim_space, has_prefix, contains, trim_right_set}
use gist.Chunk.Pieces.{SubChunk, texts, force_split}
use gist.Chunk.Plain.Content.{solid}
use gist.Chunk.Paragraphs.{split_preserving_code_blocks, split_on_paragraphs}
use gist.Chunk.Paragraphs.Limits.{
  FitsOrCode, split_on_paragraphs_fits, split_on_paragraphs_keeps, joined,
}
use gist.Chunk.Paragraphs.Blanks.{NoTwoBlank, one_part}

abbrev two_blanks : Bytes
two_blanks = codes "ab\n\n\ncd"

abbrev one_blank : Bytes
one_blank = codes "ab\n\ncd"

split_preserving_runs : split_preserving_code_blocks two_blanks ≡ codes "ab" ∷ codes "cd" ∷ []
unfolding split_preserving_code_blocks split trim_space trim_right_set
split_preserving_runs = refl

split_on_paragraphs_runs :
    map (λ s. s.text) (split_on_paragraphs one_blank 4) ≡ codes "ab\n\n" ∷ codes "cd" ∷ []
unfolding split_on_paragraphs split_preserving_code_blocks split trim_space trim_right_set
    has_prefix contains force_split
split_on_paragraphs_runs = refl

split_on_paragraphs_fits_example :
    All
      (λ (s : SubChunk). FitsOrCode (split_preserving_code_blocks two_blanks) 4 s.text)
      (split_on_paragraphs two_blanks 4)
split_on_paragraphs_fits_example = split_on_paragraphs_fits two_blanks 4

split_on_paragraphs_keeps_example :
    solid (texts (split_on_paragraphs two_blanks 4))
    ≡ solid (joined (split_preserving_code_blocks two_blanks))
split_on_paragraphs_keeps_example = split_on_paragraphs_keeps two_blanks 4 (omega arith)

one_blank-NoTwoBlank : NoTwoBlank false (split one_blank (10 ∷ []))
unfolding split trim_space
one_blank-NoTwoBlank = (refl, (refl, (refl, tt)))

one_part_example : length (split_preserving_code_blocks one_blank) ≤ 1
one_part_example = one_part one_blank one_blank-NoTwoBlank
