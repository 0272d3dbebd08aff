-- ===== src/Engine/Tests.antt =====
-- The theorems about gist.go at concrete inputs.
use gist.Prelude.{suc, ◌+◌, Bool, ◌≡◌, refl, List, [], ◌∷◌, arith, none, ltb, length, pos}
use gist.Text.{Bytes, codes, to_lower_ascii}
use gist.Sort.{by_insertion}
use gist.Store.{Store, Score, SearchMatch, prose, trigram, ok, err, store_closed, plain_text}
use gist.Store.Memory.{MemoryStore, new_memory_store, memory_store}
use gist.Store.Memory.Invariant.{History-Inv, begin}
use gist.Chunk.Sections.{Heading, all_inside}
use gist.Chunk.Structured.{Parsers}
use gist.Fuzzy.{FuzzyResult}
use gist.Search.{Matcher, search}
use gist.Search.Convert.{SearchResult, search_options, default_search_config, convert_matches}
use gist.Search.Budget.{FitsBudget}
use gist.Engine.{
  Gist, new_gist, index, gist_search, with_format, with_source, returned_bytes, IndexOption,
}
use gist.Engine.Counters.{Counts, index-Counts, gist_search_fits}
use gist.Engine.Memory.{cut_chunks, Agrees, IndexesCut, index-IndexesCut}

abbrev no_headings : Bytes → List Heading
no_headings s = []

abbrev no_parsers : Parsers
no_parsers = record {
  json_unmarshal = λ s. none;
  json_marshal = λ v. none;
  yaml_unmarshal = λ s. none;
  yaml_marshal = λ v. [];
}

abbrev plain_matcher : Matcher
plain_matcher = record {
  to_lower = to_lower_ascii;
  distance = λ s t. length s;
  text_less = λ s t. ltb (length s) (length t);
  sorter = by_insertion FuzzyResult;
}

abbrev greater_part : Score → Score → Bool
greater_part a b = ltb b.part a.part

abbrev notes : List IndexOption
notes = with_source (codes "notes") ∷ with_format plain_text ∷ []

abbrev memory : Store MemoryStore
memory = memory_store to_lower_ascii greater_part (by_insertion SearchMatch)

fresh_gist : Gist MemoryStore
unfolding new_gist
fresh_gist = new_gist new_memory_store (pos 100)

fresh_gist-Agrees : Agrees fresh_gist
unfolding fresh_gist new_gist new_memory_store
fresh_gist-Agrees = record {
  inv = History-Inv begin;
  is_open = refl;
  sources = refl;
  chunks = refl;
}

index-Counts_example :
    Counts fresh_gist (codes "set the pool size") (
      index memory plain_matcher no_headings no_parsers fresh_gist
        (codes "set the pool size")
        notes)
index-Counts_example =
    index-Counts memory plain_matcher no_headings no_parsers fresh_gist (codes "set the pool size")
      notes

index-IndexesCut_example :
    IndexesCut fresh_gist (cut_chunks no_headings no_parsers (codes "set the pool size") notes) (
      index memory plain_matcher no_headings no_parsers fresh_gist
        (codes "set the pool size")
        notes)
index-IndexesCut_example =
    index-IndexesCut to_lower_ascii greater_part (by_insertion SearchMatch) plain_matcher
      no_headings no_parsers fresh_gist (codes "set the pool size") notes fresh_gist-Agrees
      (unfold all_inside in refl, tt)

abbrev one_match : List SearchMatch
one_match =
    record {
      chunk_id = 1;
      source_id = 1;
      heading_path = [];
      content = codes "set the pool size";
      content_type = prose;
      score = record { part = 1; total = 2 };
      match_layer = trigram;
    }
    ∷ []

-- A store with one state, in which only the substring search finds anything.
abbrev substring_store : Store (Unit {0})
substring_store = record {
  save_source = λ s l f. (s, err store_closed);
  save_chunk = λ s c. (s, err store_closed);
  search_porter = λ s p. ok [];
  search_trigram = λ s p. ok one_match;
  vocabulary_terms = λ s. ok [];
  sources = λ s. ok [];
  stats = λ s. err store_closed;
  close = λ s. (s, ok tt);
}

abbrev budgeted : Gist (Unit {0})
budgeted = record {
  store = tt;
  vocab = [];
  token_budget = 3;
  source_count = 1;
  chunk_count = 1;
  search_count = 4;
  bytes_idx = 17;
  bytes_ret = 0;
}

abbrev one_result : List SearchResult
one_result =
    convert_matches to_lower_ascii [] (record default_search_config { budget = 3 }) 0 [] one_match

abbrev counted : Gist (Unit {0})
counted = record budgeted { search_count = 5; bytes_ret = 0 + returned_bytes one_result }

finds_one :
    gist_search substring_store plain_matcher budgeted (codes "pool") [] ≡ (counted, ok one_result)
unfolding gist_search search search_options
finds_one = refl

gist_search_fits_example :
    FitsBudget 3 one_result
    × (counted.search_count ≡ suc budgeted.search_count)
    × (counted.bytes_ret ≡ budgeted.bytes_ret + returned_bytes one_result)
gist_search_fits_example =
    gist_search_fits substring_store plain_matcher budgeted counted (codes "pool") [] one_result
      (omega arith) tt finds_one
