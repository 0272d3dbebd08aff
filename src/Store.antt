-- ===== src/Store.antt =====
-- store.go: the data of the store and the interface `Store`. A string is its bytes, a call
-- returns the store's new state beside its result, and an identifier is a number that does not
-- wrap (a store cannot hold 2^63 records). `ContentType` and `MatchLayer` list the strings used.
pub mod Memory
use gist.Prelude.{ℕ, List}
use gist.Text.{Bytes, codes}

pub data Format : Type 0 where
  markdown json plain_text yaml : Format
  other_format : ℕ → Format

-- `Format.String`.
unfoldable pub format_string : Format → Bytes
format_string markdown = codes "markdown"
format_string json = codes "json"
format_string plain_text = codes "plaintext"
format_string yaml = codes "yaml"
format_string (other_format n) = codes "unknown"

pub data ContentType : Type 0 where
  code prose : ContentType

pub data MatchLayer : Type 0 where
  porter trigram fuzzy : MatchLayer

pub record Source : Type 0 where
  pub id : ℕ
  pub label : Bytes
  pub format : Format
  pub bytes_indexed : ℕ
  pub chunk_count : ℕ

pub record Chunk : Type 0 where
  pub id : ℕ
  pub source_id : ℕ
  pub heading_path : Bytes
  pub content : Bytes
  pub content_type : ContentType
  pub format : Format
  pub byte_start : ℕ
  pub byte_end : ℕ

-- A limit of 0 stands for any `Limit` that is not positive.
pub record SearchParams : Type 0 where
  pub query : Bytes
  pub limit : ℕ
  pub source_filter : Bytes

-- The float64 quotient of two lengths, kept as the two numbers that are divided.
pub record Score : Type 0 where
  pub part : ℕ
  pub total : ℕ

pub record SearchMatch : Type 0 where
  pub chunk_id : ℕ
  pub source_id : ℕ
  pub heading_path : Bytes
  pub content : Bytes
  pub content_type : ContentType
  pub score : Score
  pub match_layer : MatchLayer

pub record StoreStats : Type 0 where
  pub chunk_count : ℕ
  pub source_count : ℕ
  pub bytes_indexed : ℕ

-- `errStoreClosed`, or an error of another store, by a number.
pub data StoreError : Type 0 where
  store_closed : StoreError
  backend : ℕ → StoreError

-- What a call gives: its value, or the error it returns instead.
pub data Result {ℓ} (Value : Type ℓ) : Type ℓ where
  ok : Value → Result Value
  err : StoreError → Result Value

-- A store over its states `S`. The calls that only read leave the state out of their result.
pub record Store (S : Type 0) : Type 0 where
  pub save_source : S → Bytes → Format → S × Result Source
  pub save_chunk : S → Chunk → S × Result Chunk
  pub search_porter : S → SearchParams → Result (List SearchMatch)
  pub search_trigram : S → SearchParams → Result (List SearchMatch)
  pub vocabulary_terms : S → Result (List Bytes)
  pub sources : S → Result (List Source)
  pub stats : S → Result StoreStats
  pub close : S → S × Result (Unit {0})
