-- ===== src/Engine.antt =====
-- gist.go: the top-level type `Gist`, over any store. A call under the locks is one step; the
-- counters are int64 and int in Go and do not wrap here, as no memory holds 2^63 bytes.
pub mod Memory
pub mod Counters
mod Tests
use gist.Prelude.{
  ℕ, suc, ◌+◌, ◌-◌, List, [], ◌∷◌, Bool, ltb, length, ℤ, pos, is_positive, pos_part, Option, none,
  some, if◌then◌else◌,
}
use gist.Text.{Bytes, codes, is_empty, fields}
use gist.Store.{
  Store, Format, markdown, Source, Chunk, ContentType, code, prose, Result, ok, err, Score,
}
use gist.Chunk.Pieces.{ContentChunk, default_max_chunk_bytes}
use gist.Chunk.Sections.{Heading}
use gist.Chunk.Structured.{Parsers}
use gist.Chunk.{chunk_content, with_max_chunk_bytes, with_chunk_format}
use gist.Fuzzy.{Vocabulary, add_terms}
use gist.Search.{Matcher, search}
use gist.Search.Convert.{SearchOption, with_budget, SearchResult}

pub record IndexConfig : Type 0 where
  pub source : Bytes
  pub format : Format
  pub max_chunk_bytes : ℕ

abbrev pub default_index_config : IndexConfig
default_index_config = record {
  source = codes "unnamed";
  format = markdown;
  max_chunk_bytes = default_max_chunk_bytes;
}

-- `IndexOption`.
pub data IndexOption : Type 0 where
  with_source : Bytes → IndexOption
  with_format : Format → IndexOption
  with_index_max_chunk_bytes : ℤ → IndexOption

unfoldable pub index_option : IndexOption → IndexConfig → IndexConfig
index_option (with_source label) c = if is_empty label then c else record c { source = label }
index_option (with_format f) c = record c { format = f }
index_option (with_index_max_chunk_bytes n) c =
    if is_positive n then record c { max_chunk_bytes = pos_part n } else c

unfoldable pub index_options : List IndexOption → IndexConfig → IndexConfig
unfolding index_option
index_options [] c = c
index_options (o ∷ os) c = index_options os (index_option o c)

pub record IndexResult : Type 0 where
  pub source_id : ℕ
  pub label : Bytes
  pub total_chunks : ℕ
  pub code_chunks : ℕ

-- A token budget of 0 is none.
pub record Gist (S : Type 0) : Type 0 where
  pub store : S
  pub vocab : Vocabulary
  pub token_budget : ℕ
  pub source_count : ℕ
  pub chunk_count : ℕ
  pub search_count : ℕ
  pub bytes_idx : ℕ
  pub bytes_ret : ℕ

pub record Stats : Type 0 where
  pub bytes_indexed : ℕ
  pub bytes_returned : ℕ
  pub bytes_saved : ℕ
  pub saved_percent : Score
  pub source_count : ℕ
  pub chunk_count : ℕ
  pub search_count : ℕ

unfoldable pub is_code : ContentType → Bool
is_code code = Bool.true
is_code prose = Bool.false

unfoldable pub stored_chunk : ℕ → Format → ContentChunk → Chunk
stored_chunk source_id format c = record {
  id = 0;
  source_id = source_id;
  heading_path = c.heading_path;
  content = c.content;
  content_type = c.content_type;
  format = format;
  byte_start = c.start_byte;
  byte_end = c.end_byte;
}

-- What the loop over the chunks has changed, and how many held code; `none` is an error of the
-- store, and the chunks before it are saved.
pub record Saved (S : Type 0) : Type 0 where
  pub store : S
  pub vocab : Vocabulary
  pub code_chunks : ℕ

module _ {S : Type 0} where
  -- A new instance over a store.
  unfoldable pub new_gist : S → ℤ → Gist S
  new_gist store max = record {
    store = store;
    vocab = [];
    token_budget = if is_positive max then pos_part max else 0;
    source_count = 0;
    chunk_count = 0;
    search_count = 0;
    bytes_idx = 0;
    bytes_ret = 0;
  }

  -- `Stats`; the saved percentage is 100 times the quotient.
  unfoldable pub gist_stats : Gist S → Stats
  gist_stats g = record {
    bytes_indexed = g.bytes_idx;
    bytes_returned = g.bytes_ret;
    bytes_saved = if ltb g.bytes_idx g.bytes_ret then 0 else g.bytes_idx - g.bytes_ret;
    saved_percent =
        if ltb 0 g.bytes_idx
        then record {
          part = if ltb g.bytes_idx g.bytes_ret then 0 else g.bytes_idx - g.bytes_ret;
          total = g.bytes_idx;
        }
        else record { part = 0; total = 1 };
    source_count = g.source_count;
    chunk_count = g.chunk_count;
    search_count = g.search_count;
  }

unfoldable pub returned_bytes : List SearchResult → ℕ
returned_bytes [] = 0
returned_bytes (r ∷ rs) = length r.snippet + returned_bytes rs

module _ {S : Type 0} (store : Store S) (matcher : Matcher) where
  -- The loop over the chunks of a content.
  unfoldable pub save_chunks :
      ℕ → Format → List ContentChunk → Saved S → Saved S × Result (Unit {0})
  unfolding stored_chunk is_code
  save_chunks source_id format [] v = (v, ok tt)
  save_chunks source_id format (c ∷ cs) v =
      let (s, result) = store.save_chunk v.store (stored_chunk source_id format c) in
      let next : Saved S = record {
        store = s;
        vocab = add_terms matcher.to_lower v.vocab (fields c.content);
        code_chunks = if is_code c.content_type then suc v.code_chunks else v.code_chunks;
      } in
      elim result [
        | ok _ ↦ save_chunks source_id format cs next
        | err e ↦ (record v { store = s }, err e)
      ]

  -- The counters, after all chunks are saved.
  unfoldable pub count_index : Bytes → List ContentChunk → Saved S → Gist S → Gist S
  count_index content chunks v g = record g {
    store = v.store;
    vocab = v.vocab;
    source_count = suc g.source_count;
    chunk_count = g.chunk_count + length chunks;
    bytes_idx = g.bytes_idx + length content;
  }

  -- The end of an index call, by what became of the chunks.
  unfoldable pub finish_index :
      Gist S
      → Bytes
      → IndexConfig
      → Source
      → List ContentChunk
      → Saved S × Result (Unit {0})
      → Gist S × Result IndexResult
  unfolding count_index
  finish_index g content c src chunks (v, err e) =
      (record g { store = v.store; vocab = v.vocab }, err e)
  finish_index g content c src chunks (v, ok _) = (
    count_index content chunks v g,
    ok (record {
      source_id = src.id;
      label = c.source;
      total_chunks = length chunks;
      code_chunks = v.code_chunks;
    }),
  )

  -- The same from what became of the source.
  unfoldable pub index_saved :
      Gist S
      → Bytes
      → IndexConfig
      → List ContentChunk
      → S × Result Source
      → Gist S × Result IndexResult
  unfolding save_chunks finish_index
  index_saved g content c chunks (s, err e) = (record g { store = s }, err e)
  index_saved g content c chunks (s, ok src) =
      finish_index g content c src chunks (
        save_chunks src.id c.format chunks (record { store = s; vocab = g.vocab; code_chunks = 0 }))

  unfoldable pub index_chunks :
      Gist S → Bytes → IndexConfig → List ContentChunk → Gist S × Result IndexResult
  unfolding index_saved
  index_chunks g content c chunks =
      index_saved g content c chunks (store.save_source g.store c.source c.format)

  -- The call behind `ChunkContent`; where that panics nothing has changed.
  abbrev pub index_found :
      Gist S
      → Bytes
      → IndexConfig
      → Option (List ContentChunk)
      → Gist S × Option (Result IndexResult)
  index_found g content c none = (g, none)
  index_found g content c (some chunks) =
      let (g', result) = index_chunks g content c chunks in (g', some result)

  -- `none` in place of the result is a panic of the Markdown splitter.
  unfoldable pub index :
      (Bytes → List Heading)
      → Parsers
      → Gist S
      → Bytes
      → List IndexOption
      → Gist S × Option (Result IndexResult)
  unfolding index_chunks index_options
  index parse parsers g content options =
      let c = index_options options default_index_config in
      index_found g content c (
        chunk_content parse parsers content
          (with_max_chunk_bytes (pos c.max_chunk_bytes) ∷ with_chunk_format c.format ∷ []))

  -- A search that succeeded is counted.
  unfoldable pub count_search :
      Gist S → Result (List SearchResult) → Gist S × Result (List SearchResult)
  unfolding returned_bytes
  count_search g (err e) = (g, err e)
  count_search g (ok results) = (
    record g {
      search_count = suc g.search_count;
      bytes_ret = g.bytes_ret + returned_bytes results;
    },
    ok results,
  )

  -- The default budget stands before the options of the call, which may override it.
  unfoldable pub with_default_budget : Gist S → List SearchOption → List SearchOption
  with_default_budget g options =
      if ltb 0 g.token_budget then with_budget (pos g.token_budget) ∷ options else options

  unfoldable pub gist_search :
      Gist S → Bytes → List SearchOption → Gist S × Result (List SearchResult)
  unfolding count_search with_default_budget
  gist_search g query options =
      count_search g
        (search store matcher g.store (some g.vocab) query (with_default_budget g options))

  unfoldable pub gist_close : Gist S → Gist S × Result (Unit {0})
  gist_close g = let (s, result) = store.close g.store in (record g { store = s }, result)
