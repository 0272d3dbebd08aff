-- ===== src/Chunk.antt =====
-- chunk.go: the splitting of a content into chunks. `Pieces` holds what the splitters share,
-- `Plain` is `chunkPlainText`, `Paragraphs` is `splitOnParagraphs` and what it calls, `Sections`
-- is `chunkMarkdown`, `Structured` is chunk_json.go and chunk_yaml.go; this file dispatches.
pub mod Pieces
pub mod Plain
pub mod Paragraphs
pub mod Sections
pub mod Structured
mod Tests
use gist.Prelude.{
  ◌≡◌, refl, Option, some, none, ℕ, List, [], ◌∷◌, Bool, ℤ, is_positive, pos_part, if◌then◌else◌,
}
use gist.Text.{Bytes, is_empty}
use gist.Store.{Format, markdown, json, plain_text, yaml, other_format}
use gist.Chunk.Pieces.{ContentChunk, Indexed, default_max_chunk_bytes}
use gist.Chunk.Plain.{chunk_plain_text}
use gist.Chunk.Plain.Bounds.{chunk_plain_text-Sized}
use gist.Chunk.Sections.{Heading, chunk_markdown}
use gist.Chunk.Sections.Limits.{IsCuttable, chunk_markdown-Fits}
use gist.Chunk.Structured.{Parsers, chunk_json, chunk_yaml, or_plain-Indexed}

pub record ChunkConfig : Type 0 where
  pub max_chunk_bytes : ℕ
  pub format : Format

-- `ChunkOption`: each option is a step on the configuration.
pub data ChunkOption : Type 0 where
  with_max_chunk_bytes : ℤ → ChunkOption
  with_chunk_format : Format → ChunkOption

abbrev pub default_chunk_config : ChunkConfig
default_chunk_config = record { max_chunk_bytes = default_max_chunk_bytes; format = markdown }

unfoldable pub chunk_option : ChunkOption → ChunkConfig → ChunkConfig
chunk_option (with_max_chunk_bytes n) c =
    if is_positive n then record c { max_chunk_bytes = pos_part n } else c
chunk_option (with_chunk_format f) c = record c { format = f }

unfoldable pub chunk_options : List ChunkOption → ChunkConfig → ChunkConfig
unfolding chunk_option
chunk_options [] c = c
chunk_options (o ∷ os) c = chunk_options os (chunk_option o c)

module _ (parse : Bytes → List Heading) (parsers : Parsers) where
  -- `none` is a panic of the Markdown splitter.
  unfoldable pub chunk_as : Format → Bytes → ℕ → Option (List ContentChunk)
  chunk_as plain_text content max_bytes = some (chunk_plain_text content max_bytes)
  chunk_as json content max_bytes = some (chunk_json parsers content max_bytes)
  chunk_as yaml content max_bytes = some (chunk_yaml parsers content max_bytes)
  chunk_as markdown content max_bytes = chunk_markdown parse content max_bytes
  chunk_as (other_format n) content max_bytes = chunk_markdown parse content max_bytes

  -- No splitter returns an error, so the result is the list of chunks.
  unfoldable pub chunk_content : Bytes → List ChunkOption → Option (List ContentChunk)
  unfolding chunk_as chunk_options
  chunk_content content options =
      let c = chunk_options options default_chunk_config in
      if is_empty content then some [] else chunk_as c.format content c.max_chunk_bytes

  -- A call that returns chunks numbered from 0, and does not panic.
  abbrev pub Numbers : Option (List ContentChunk) → Type 0
  Numbers o = (cs : List ContentChunk) × (o ≡ some cs) × Indexed 0 cs

  chunk_markdown-Numbers :
      (content : Bytes) (max_bytes : ℕ)
      → IsCuttable parse content
      → Numbers (chunk_markdown parse content max_bytes)
  chunk_markdown-Numbers content max_bytes h =
      let (cs, e, fit, numbered) = (chunk_markdown-Fits parse content max_bytes).0 h in
      (cs, e, numbered)

  chunk_as-Numbers :
      (f : Format) (content : Bytes) (max_bytes : ℕ)
      → IsCuttable parse content
      → Numbers (chunk_as f content max_bytes)
  unfolding chunk_as chunk_json chunk_yaml
  chunk_as-Numbers plain_text content max_bytes h =
      (_, refl, (chunk_plain_text-Sized content max_bytes).1)
  chunk_as-Numbers json content max_bytes h =
      (_, refl, or_plain-Indexed parsers content max_bytes _)
  chunk_as-Numbers yaml content max_bytes h =
      (_, refl, or_plain-Indexed parsers content max_bytes _)
  chunk_as-Numbers markdown content max_bytes h = chunk_markdown-Numbers content max_bytes h
  chunk_as-Numbers (other_format n) content max_bytes h = chunk_markdown-Numbers content max_bytes h

  -- In every format and under all options the chunks of a content are numbered from 0, if the
  -- headings that the Markdown parser finds lie in it and their positions do not fall.
  pub chunk_content-Numbers :
      (content : Bytes) (options : List ChunkOption)
      → IsCuttable parse content
      → Numbers (chunk_content content options)
  unfolding chunk_content
  chunk_content-Numbers [] options h = ([], refl, tt)
  chunk_content-Numbers (b ∷ s) options h =
      let c = chunk_options options default_chunk_config in
      chunk_as-Numbers c.format (b ∷ s) c.max_chunk_bytes h
