-- ===== src/Chunk/Sections/Tests.antt =====
-- Runs of `chunkMarkdown`, and the theorems about it at concrete inputs.
use mathlib.Core.List.{reverse}
use mathlib.Core.Option
use gist.Prelude.{arith, ℕ, ◌≡◌, refl, List, [], ◌∷◌, map, some, none}
use gist.Text.{Bytes, codes, join}
use gist.Chunk.Pieces.{assign_indices}
use gist.Chunk.Sections.{
  Heading, HeadingInfo, all_inside, heading_info, chunk_markdown, push_heading, path_of,
}
use gist.Chunk.Sections.Ancestors.{open_above, stack_after, path_of-ancestors}
use gist.Chunk.Sections.Limits.{IsCuttable, ChunksFit, chunk_markdown-Fits}

abbrev source : Bytes
source = codes "intro\n# A\ntext\n## B\nmore\n# C\nend\n"

-- What the parser finds in `source`.
abbrev parsed : Bytes → List Heading
parsed s =
    record { level = 1; segments = codes "A" ∷ []; first_line = some 8 }
    ∷ record { level = 2; segments = codes "B" ∷ []; first_line = some 18 }
    ∷ record { level = 1; segments = codes "C" ∷ []; first_line = some 27 }
    ∷ []

chunk_markdown_runs :
    Option.map (map (λ c. c.heading_path)) (chunk_markdown parsed source 4096)
    ≡ some ([] ∷ codes "A" ∷ codes "A > B" ∷ codes "C" ∷ [])
unfolding chunk_markdown assign_indices
chunk_markdown_runs = refl

chunk_markdown-contents :
    Option.map (map (λ c. c.content)) (chunk_markdown parsed source 4096)
    ≡ some (codes "intro" ∷ codes "# A\ntext" ∷ codes "## B\nmore" ∷ codes "# C\nend" ∷ [])
unfolding chunk_markdown assign_indices
chunk_markdown-contents = refl

-- The headings of `source` lie in it, in order.
source-IsCuttable : IsCuttable parsed source
unfolding heading_info all_inside
source-IsCuttable =
    (refl, (omega arith, omega arith, (omega arith, omega arith, (omega arith, omega arith, tt))))

-- A heading without lines behind another one: the call panics.
abbrev parsed_empty : Bytes → List Heading
parsed_empty s =
    record { level = 1; segments = codes "A" ∷ []; first_line = some 9 }
    ∷ record { level = 1; segments = []; first_line = none }
    ∷ []

empty_heading_panics : chunk_markdown parsed_empty (codes "intro\n\n# A\n\n#\n") 4096 ≡ none
unfolding chunk_markdown
empty_heading_panics = refl

chunk_markdown-Fits_example :
    (IsCuttable parsed source → ChunksFit 6 (chunk_markdown parsed source 6))
    × (¬ IsCuttable parsed source → chunk_markdown parsed source 6 ≡ none)
chunk_markdown-Fits_example = chunk_markdown-Fits parsed source 6

abbrev heading : ℕ → Bytes → HeadingInfo
heading level text = record { level = level; text = text; pos = 0 }

abbrev earlier : List HeadingInfo
earlier = heading 3 (codes "c") ∷ heading 2 (codes "b") ∷ heading 1 (codes "a") ∷ []

path_of-ancestors_example :
    path_of (push_heading (heading 2 (codes "d")) (stack_after earlier))
    ≡ join
        (reverse (map (λ x. x.text) (heading 2 (codes "d") ∷ open_above 2 earlier)))
        (codes " > ")
path_of-ancestors_example = path_of-ancestors (heading 2 (codes "d")) earlier
