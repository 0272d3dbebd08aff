-- ===== src/Store/Memory/Tests.antt =====
-- Runs of store_memory.go, and the theorems about it at concrete inputs.
use gist.Prelude.{
  ℕ, ◌*◌, ◌≡◌, refl, ◌↔◌, List, [], ◌∷◌, Bool, false, ltb, arith, Any, if◌then◌else◌,
}
use gist.Text.{Bytes, codes, to_lower_ascii, bytes_eq, is_empty, fields}
use gist.Text.Laws.{Occurs}
use gist.Sort.{StrictWeak, by_insertion, insertion_sort}
use gist.Store.{
  Chunk, Score, SearchMatch, SearchParams, prose, plain_text, markdown, porter, ok, err,
  store_closed,
}
use gist.Store.Memory.{
  MemoryStore, new_memory_store, save_source, save_chunk, search_porter, search_trigram, sources,
  stats, close, vocabulary_terms, porter_matches, trigram_matches,
}
use gist.Store.Memory.Invariant.{
  Inv, Call, saves_source, saves_chunk, History, begin, call, apply, History-Inv,
}
use gist.Store.Memory.Closed.{close_refuses}
use gist.Store.Memory.Ranking.{
  InSource, SharesWord, words_of, porter_match, trigram_match, porter_matches_iff,
  trigram_matches_iff, Ranks, search-Ranks,
}

abbrev text_chunk : ℕ → Bytes → Chunk
text_chunk source text = record {
  id = 0;
  source_id = source;
  heading_path = [];
  content = text;
  content_type = prose;
  format = plain_text;
  byte_start = 0;
  byte_end = 0;
}

-- The order of the quotients by cross-multiplication.
abbrev greater_ratio : Score → Score → Bool
greater_ratio a b = ltb (b.part * a.total) (a.part * b.total)

abbrev label : Bytes
label = codes "notes"

abbrev two_calls : List Call
two_calls =
    saves_source label plain_text
    ∷ saves_chunk (text_chunk 1 (codes "Set the pool size"))
    ∷ saves_chunk (text_chunk 1 (codes "pool"))
    ∷ []

abbrev apply_all : MemoryStore → List Call → MemoryStore
apply_all m [] = m
apply_all m (c ∷ cs) = apply_all (apply m c) cs

abbrev small_store : MemoryStore
unfolding new_memory_store apply save_source save_chunk
small_store = apply_all new_memory_store two_calls

small_store-History : History small_store
unfolding new_memory_store apply save_source save_chunk
small_store-History =
    call _ (saves_chunk (text_chunk 1 (codes "pool")))
      (call _ (saves_chunk (text_chunk 1 (codes "Set the pool size")))
        (call _ (saves_source label plain_text) begin tt) (omega arith))
      (omega arith)

History-Inv_example : Inv small_store
History-Inv_example = History-Inv small_store-History

stats_runs :
    stats small_store ≡ ok (record { chunk_count = 2; source_count = 1; bytes_indexed = 21 })
unfolding stats new_memory_store apply save_source save_chunk
stats_runs = refl

small_store-open : small_store.closed ≡ false
unfolding new_memory_store apply save_source save_chunk
small_store-open = refl

abbrev params : SearchParams
params = record { query = codes "POOL"; limit = 1; source_filter = [] }

close_refuses_example :
    let shut = close small_store in
    (save_source shut label markdown ≡ (shut, err store_closed))
    × (save_chunk shut (text_chunk 1 label) ≡ (shut, err store_closed))
    × (search_porter to_lower_ascii greater_ratio (by_insertion SearchMatch) shut params
        ≡ err store_closed)
    × (search_trigram to_lower_ascii greater_ratio (by_insertion SearchMatch) shut params
        ≡ err store_closed)
    × (vocabulary_terms to_lower_ascii shut ≡ err store_closed)
    × (sources shut ≡ err store_closed)
    × (stats shut ≡ err store_closed)
    × (close shut ≡ shut)
close_refuses_example =
    close_refuses to_lower_ascii greater_ratio (by_insertion SearchMatch) small_store label markdown
      (text_chunk 1 label) params

abbrev pool_words : List Bytes
pool_words = codes "pool" ∷ []

abbrev pool_match : SearchMatch
pool_match = record {
  chunk_id = 2;
  source_id = 1;
  heading_path = [];
  content = codes "pool";
  content_type = prose;
  score = record { part = 1; total = 1 };
  match_layer = porter;
}

porter_matches_iff_example :
    Any
      (λ x. x ≡ pool_match)
      (porter_matches to_lower_ascii small_store pool_words [] small_store.chunks)
    ↔ Any
        (λ c.
          InSource small_store [] c
          × SharesWord pool_words (words_of to_lower_ascii c)
          × (porter_match to_lower_ascii pool_words c ≡ pool_match))
        small_store.chunks
porter_matches_iff_example =
    porter_matches_iff to_lower_ascii small_store pool_words [] small_store.chunks pool_match

trigram_matches_iff_example :
    Any
      (λ x. x ≡ pool_match)
      (trigram_matches to_lower_ascii small_store (codes "poo") [] small_store.chunks)
    ↔ Any
        (λ c.
          InSource small_store [] c
          × Occurs (codes "poo") (to_lower_ascii c.content)
          × (trigram_match to_lower_ascii (codes "poo") c ≡ pool_match))
        small_store.chunks
trigram_matches_iff_example =
    trigram_matches_iff to_lower_ascii small_store (codes "poo") [] small_store.chunks pool_match

-- A store under an order of scores by their parts alone, which is a strict weak order.
abbrev greater_part : Score → Score → Bool
greater_part a b = ltb b.part a.part

greater_part-StrictWeak : StrictWeak (λ (a : SearchMatch) b. greater_part a.score b.score)
greater_part-StrictWeak = record {
  asym = λ a b h. ground arith;
  not_less_trans = λ a b c h k. ground arith;
}

search-Ranks_example :
    let words = fields (to_lower_ascii params.query) in
    let text = to_lower_ascii params.query in
    ((results : List SearchMatch) × (search_porter to_lower_ascii greater_part
          (by_insertion SearchMatch)
          small_store
          params
        ≡ ok results)
      × (if is_empty words
          then results ≡ []
          else Ranks greater_part 1
              (porter_matches to_lower_ascii small_store words [] small_store.chunks)
              results))
    × ((results : List SearchMatch) × (search_trigram to_lower_ascii greater_part
            (by_insertion SearchMatch)
            small_store
            params
          ≡ ok results)
        × (if is_empty text
            then results ≡ []
            else Ranks greater_part 1
                (trigram_matches to_lower_ascii small_store text [] small_store.chunks)
                results))
search-Ranks_example =
    search-Ranks to_lower_ascii greater_part (by_insertion SearchMatch) greater_part-StrictWeak
      small_store params small_store-open

search_porter_runs :
    search_porter to_lower_ascii greater_ratio (by_insertion SearchMatch) small_store params
    ≡ ok (pool_match ∷ [])
unfolding search_porter new_memory_store apply save_source save_chunk porter_matches fields
    to_lower_ascii insertion_sort bytes_eq
search_porter_runs = refl
