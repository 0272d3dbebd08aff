-- ===== src/Search/Tests.antt =====
-- The theorems about search.go at concrete inputs.
use gist.Prelude.{refl, List, [], ◌∷◌, map, arith, none, ltb, length}
use gist.Text.{Bytes, codes, to_lower_ascii}
use gist.Sort.{by_insertion}
use gist.Store.{Store, SearchMatch, ok, err, store_closed, prose, trigram}
use gist.Fuzzy.{FuzzyResult}
use gist.Search.{Matcher, find_matches}
use gist.Search.Convert.{SearchConfig, SearchResult, convert_matches, default_search_config}
use gist.Search.Budget.{FitsBudget, convert_matches_fits, EachFront, snippets_are_fronts}
use gist.Search.Tiers.{Found, find_matches-Found}

abbrev found_match : Bytes → SearchMatch
found_match text = record {
  chunk_id = 1;
  source_id = 1;
  heading_path = [];
  content = text;
  content_type = prose;
  score = record { part = 1; total = 2 };
  match_layer = trigram;
}

abbrev two_matches : List SearchMatch
two_matches = found_match (codes "set the pool size") ∷ found_match (codes "the pool is full") ∷ []

abbrev five_tokens : SearchConfig
five_tokens = record { limit = 5; source_filter = []; snippet_len = 100; budget = 5 }

convert_matches_fits_example :
    FitsBudget 5 (convert_matches to_lower_ascii [] five_tokens 0 [] two_matches)
convert_matches_fits_example =
    convert_matches_fits to_lower_ascii [] five_tokens two_matches (omega arith)

snippets_are_fronts_example :
    EachFront to_lower_ascii [] five_tokens
      (map
        (λ (r : SearchResult). r.snippet)
        (convert_matches to_lower_ascii [] five_tokens 0 [] two_matches))
      two_matches
snippets_are_fronts_example = snippets_are_fronts to_lower_ascii [] five_tokens two_matches refl

-- A store with one state, in which only the substring search finds anything.
abbrev substring_store : Store (Unit {0})
substring_store = record {
  save_source = λ s l f. (s, err store_closed);
  save_chunk = λ s c. (s, err store_closed);
  search_porter = λ s p. ok [];
  search_trigram = λ s p. ok two_matches;
  vocabulary_terms = λ s. ok [];
  sources = λ s. ok [];
  stats = λ s. err store_closed;
  close = λ s. (s, ok tt);
}

abbrev plain_matcher : Matcher
plain_matcher = record {
  to_lower = to_lower_ascii;
  distance = λ s t. length s;
  text_less = λ s t. ltb (length s) (length t);
  sorter = by_insertion FuzzyResult;
}

find_matches-Found_example :
    Found substring_store tt default_search_config (codes "pool") none two_matches
find_matches-Found_example =
    find_matches-Found substring_store plain_matcher tt default_search_config (codes "pool") none
      two_matches (unfold find_matches in refl)
