-- ===== src/Store/Memory.antt =====
-- store_memory.go: the store that keeps all in memory. A call under the lock is one step from a
-- state to the next. `to_lower` is `strings.ToLower`, whose Unicode tables are not part of the
-- program; `greater` is `>` on the float64 quotients; the order of a Go map is left out.
pub mod Invariant
pub mod Closed
pub mod Ranking
mod Tests
use gist.Prelude.{
  ℕ, zero, suc, ◌+◌, List, [], ◌∷◌, ◌++◌, Bool, true, false, ◌&&◌, ◌||◌, ◌==◌, leb, if◌then◌else◌,
  length, take, keep,
}
use gist.Text.{Bytes, is_empty, bytes_eq, contains, fields}
use gist.Sort.{SliceSort}
use gist.Store.{
  Format, Source, Chunk, SearchParams, Score, SearchMatch, MatchLayer, porter, trigram, StoreStats,
  store_closed, Result, ok, err, Store,
}

pub record MemoryStore : Type 0 where
  pub sources : List Source
  pub chunks : List Chunk
  pub next_src : ℕ
  pub next_chk : ℕ
  pub closed : Bool

unfoldable pub new_memory_store : MemoryStore
new_memory_store = record { sources = []; chunks = []; next_src = 0; next_chk = 0; closed = false }

unfoldable pub save_source : MemoryStore → Bytes → Format → MemoryStore × Result Source
save_source m label format =
    let s : Source = record {
      id = suc m.next_src;
      label = label;
      format = format;
      bytes_indexed = 0;
      chunk_count = 0;
    } in
    if m.closed
    then (m, err store_closed)
    else (record m { sources = m.sources ++ s ∷ []; next_src = suc m.next_src }, ok s)

-- The loop over the sources: the first with the chunk's source counts it.
unfoldable pub count_chunk : Chunk → List Source → List Source
count_chunk c [] = []
count_chunk c (s ∷ ss) =
    if s.id == c.source_id
    then record s {
      chunk_count = suc s.chunk_count;
      bytes_indexed = s.bytes_indexed + length c.content;
    }
      ∷ ss
    else s ∷ count_chunk c ss

unfoldable pub save_chunk : MemoryStore → Chunk → MemoryStore × Result Chunk
unfolding count_chunk
save_chunk m chunk =
    let c : Chunk = record chunk { id = suc m.next_chk } in
    if m.closed then (m, err store_closed) else (
      record m {
        next_chk = suc m.next_chk;
        chunks = m.chunks ++ c ∷ [];
        sources = count_chunk c m.sources;
      },
      ok c,
    )

source_matches : List Source → ℕ → Bytes → Bool
source_matches [] source_id filter = false
source_matches (s ∷ ss) source_id filter =
    s.id == source_id && bytes_eq s.label filter || source_matches ss source_id filter

-- An empty filter matches all sources.
unfoldable pub matches_source_filter : MemoryStore → ℕ → Bytes → Bool
unfolding source_matches
matches_source_filter m source_id filter =
    if is_empty filter then true else source_matches m.sources source_id filter

unfoldable pub has_word : List Bytes → Bytes → Bool
has_word [] w = false
has_word (v ∷ vs) w = bytes_eq v w || has_word vs w

-- How many query words stand in the set of content words.
unfoldable pub matched_words : List Bytes → List Bytes → ℕ
unfolding has_word
matched_words [] content_words = 0
matched_words (q ∷ qs) content_words =
    let n = matched_words qs content_words in if has_word content_words q then suc n else n

-- The quotient that scores a match; 0 where nothing can be divided by.
unfoldable pub score_of : ℕ → ℕ → Score
score_of part total =
    if total == 0 then record { part = 0; total = 1 } else record { part = part; total = total }

unfoldable pub match_of : Chunk → Score → MatchLayer → SearchMatch
match_of c score layer = record {
  chunk_id = c.id;
  source_id = c.source_id;
  heading_path = c.heading_path;
  content = c.content;
  content_type = c.content_type;
  score = score;
  match_layer = layer;
}

-- `limit`, or all where it is not positive or larger than the count.
unfoldable pub limit_to : ℕ → List SearchMatch → List SearchMatch
limit_to limit results =
    if limit == 0 || leb (suc (length results)) limit
    then take (length results) results
    else take limit results

-- The set as a list, each word once.
unfoldable pub add_word : Bytes → List Bytes → List Bytes
unfolding has_word
add_word w seen = if has_word seen w then seen else seen ++ w ∷ []

unfoldable pub sum_bytes : List Source → ℕ
sum_bytes [] = 0
sum_bytes (s ∷ ss) = s.bytes_indexed + sum_bytes ss

unfoldable pub sources : MemoryStore → Result (List Source)
sources m = if m.closed then err store_closed else ok m.sources

unfoldable pub stats : MemoryStore → Result StoreStats
unfolding sum_bytes
stats m =
    if m.closed
    then err store_closed
    else ok (record {
      chunk_count = length m.chunks;
      source_count = length m.sources;
      bytes_indexed = sum_bytes m.sources;
    })

unfoldable pub close : MemoryStore → MemoryStore
close m = record m { closed = true }

module _ (to_lower : Bytes → Bytes) where
  unfoldable pub porter_matches : MemoryStore → List Bytes → Bytes → List Chunk → List SearchMatch
  unfolding matched_words score_of match_of matches_source_filter
  porter_matches m query_words filter [] = []
  porter_matches m query_words filter (c ∷ cs) =
      let rest = porter_matches m query_words filter cs in
      let content_words = fields (to_lower c.content) in
      let matched = matched_words query_words content_words in
      if matches_source_filter m c.source_id filter
      then if matched == 0
        then rest
        else match_of c (score_of matched (length content_words)) porter ∷ rest
      else rest

  unfoldable pub trigram_matches : MemoryStore → Bytes → Bytes → List Chunk → List SearchMatch
  unfolding score_of match_of matches_source_filter
  trigram_matches m lower_query filter [] = []
  trigram_matches m lower_query filter (c ∷ cs) =
      let rest = trigram_matches m lower_query filter cs in
      let lower_content = to_lower c.content in
      if matches_source_filter m c.source_id filter
      then if contains lower_content lower_query
        then match_of c (score_of (length lower_query) (length lower_content)) trigram ∷ rest
        else rest
      else rest

  add_words : List Bytes → List Bytes → List Bytes
  unfolding add_word
  add_words [] seen = seen
  add_words (w ∷ ws) seen = add_words ws (add_word (to_lower w) seen)

  chunk_words : List Chunk → List Bytes → List Bytes
  unfolding add_words
  chunk_words [] seen = seen
  chunk_words (c ∷ cs) seen = chunk_words cs (add_words (fields c.content) seen)

  unfoldable pub vocabulary_terms : MemoryStore → Result (List Bytes)
  unfolding chunk_words
  vocabulary_terms m = if m.closed then err store_closed else ok (chunk_words m.chunks [])

module _ (to_lower : Bytes → Bytes) (greater : Score → Score → Bool)
    (sorter : SliceSort SearchMatch) where
  abbrev pub ranked : List SearchMatch → List SearchMatch
  ranked = sorter.run (λ a b. greater a.score b.score)

  unfoldable pub search_porter : MemoryStore → SearchParams → Result (List SearchMatch)
  unfolding limit_to
  search_porter m params =
      let query_words = fields (to_lower params.query) in
      if m.closed
      then err store_closed
      else if is_empty query_words
      then ok []
      else ok (
          limit_to params.limit
            (ranked (porter_matches to_lower m query_words params.source_filter m.chunks)))

  unfoldable pub search_trigram : MemoryStore → SearchParams → Result (List SearchMatch)
  unfolding limit_to
  search_trigram m params =
      let lower_query = to_lower params.query in
      if m.closed
      then err store_closed
      else if is_empty lower_query
      then ok []
      else ok (
          limit_to params.limit
            (ranked (trigram_matches to_lower m lower_query params.source_filter m.chunks)))

  -- The memory store as a `Store`.
  unfoldable pub memory_store : Store MemoryStore
  memory_store = record {
    save_source = save_source;
    save_chunk = save_chunk;
    search_porter = search_porter;
    search_trigram = search_trigram;
    vocabulary_terms = vocabulary_terms to_lower;
    sources = sources;
    stats = stats;
    close = λ m. (close m, ok tt);
  }
