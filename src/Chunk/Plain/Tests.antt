-- ===== src/Chunk/Plain/Tests.antt =====
-- Runs of `chunkPlainText`, and the theorems about it at concrete inputs.
use mathlib.Core.List.{cons-ne-nil}
use gist.Prelude.{◌≡◌, refl, [], ◌∷◌, ◌++◌, All, arith, map}
use gist.Text.{Bytes, codes, trim_space, split, join}
use gist.Chunk.Pieces.{Indexed, contents, force_split}
use gist.Chunk.Plain.{plain_pieces, chunk_plain_text, plain_paragraphs, plain_chunk, newlines}
use gist.Chunk.Plain.Bounds.{Sized, chunk_plain_text-Sized}
use gist.Chunk.Plain.Content.{solid, trimmed, chunk_plain_text-keeps}
use gist.Chunk.Plain.Drift.{second_chunk_drifts}

abbrev three_parts : Bytes
three_parts = codes "a\n\nbc\n\nsome words"

chunk_plain_text_runs :
    map (λ c. c.content) (chunk_plain_text three_parts 6)
    ≡ codes "a\n\nbc" ∷ codes "some w" ∷ codes "ords" ∷ []
unfolding chunk_plain_text split trim_space force_split plain_pieces
chunk_plain_text_runs = refl

chunk_plain_text-Sized_example :
    All (Sized 6) (chunk_plain_text three_parts 6) × Indexed 0 (chunk_plain_text three_parts 6)
chunk_plain_text-Sized_example = chunk_plain_text-Sized three_parts 6

chunk_plain_text-keeps_example :
    solid (contents (chunk_plain_text three_parts 6)) ≡ solid (trimmed (split three_parts newlines))
chunk_plain_text-keeps_example = chunk_plain_text-keeps three_parts 6 (omega arith)

trimmed_a : trim_space (codes "a") ≡ codes "a"
unfolding trim_space
trimmed_a = refl

trimmed_b : trim_space (codes "b") ≡ codes "b"
unfolding trim_space
trimmed_b = refl

trimmed_c : trim_space (codes "c") ≡ codes "c"
unfolding trim_space
trimmed_c = refl

-- "a\n\nb\n\nc" with `maxBytes` 4: the second chunk is at 6 and reports 8.
second_chunk_drifts_example :
    (plain_paragraphs 4 (codes "a" ∷ codes "b" ∷ codes "c" ∷ [])
      ≡ record (plain_chunk (codes "a\n\nb") 0) { index = 0 }
        ∷ record (plain_chunk (codes "c") 8) { index = 1 }
        ∷ [])
    × (join (codes "a" ∷ codes "b" ∷ codes "c" ∷ []) newlines ≡ codes "a\n\nb\n\n" ++ codes "c")
second_chunk_drifts_example =
    second_chunk_drifts 4 (codes "a") (codes "b") (codes "c") (cons-ne-nil _ _, trimmed_a)
      (cons-ne-nil _ _, trimmed_b) (cons-ne-nil _ _, trimmed_c) (omega arith) (omega arith)
      (omega arith)
