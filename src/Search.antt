-- ===== src/Search.antt =====
-- search.go: the search in three tiers over any store. `Matcher` holds what the fuzzy tier needs
-- from outside. The states of the store do not change in a search.
pub mod Convert
pub mod Budget
pub mod Tiers
mod Tests
use gist.Prelude.{
  ℕ, List, [], ◌∷◌, map, Bool, ℤ, pos, is_positive, pos_part, Option, none, some, if◌then◌else◌,
}
use gist.Text.{Bytes, is_empty}
use gist.Sort.{SliceSort}
use gist.Store.{
  Store, SearchParams, SearchMatch, Source, MatchLayer, fuzzy, Result, ok, err, StoreError,
}
use gist.Fuzzy.{Vocabulary, FuzzyResult, fuzzy_match}
use Convert.{
  SearchConfig, SearchOption, SearchResult, search_options, default_search_config, convert_matches,
}

-- What the searcher takes from outside: `strings.ToLower`, the Levenshtein distance, `<` on strings
-- and the sorting of the results of the fuzzy match.
pub record Matcher : Type 0 where
  pub to_lower : Bytes → Bytes
  pub distance : Bytes → Bytes → ℕ
  pub text_less : Bytes → Bytes → Bool
  pub sorter : SliceSort FuzzyResult

-- An early return: what follows is done only where the call before it gave no error.
infixr 4 ◌>>=◌
abbrev pub ◌>>=◌ {i j} :
    {Found : Type i} {Next : Type j} (call : Result Found) (rest : Found → Result Next)
    → Result Next
err e >>= rest = err e
ok found >>= rest = rest found

unfoldable pub as_fuzzy : List SearchMatch → List SearchMatch
as_fuzzy [] = []
as_fuzzy (m ∷ ms) = record m { match_layer = fuzzy } ∷ as_fuzzy ms

unfoldable pub params_of : Bytes → SearchConfig → SearchParams
params_of query c = record { query = query; limit = c.limit; source_filter = c.source_filter }

-- The matches of the second search where the first finds none.
abbrev pub or_else : List SearchMatch → Result (List SearchMatch) → Result (List SearchMatch)
or_else [] second = second
or_else (m ∷ ms) second = ok (m ∷ ms)

module _ {S : Type 0} (store : Store S) (matcher : Matcher) where
  abbrev pub best_terms : Bytes → Vocabulary → List FuzzyResult
  best_terms query vocab =
      fuzzy_match matcher.to_lower matcher.distance matcher.text_less matcher.sorter query vocab
        (pos 2)

  -- The search for the best of the terms that are near the query.
  unfoldable pub corrected_search : S → SearchConfig → List FuzzyResult → Result (List SearchMatch)
  unfolding as_fuzzy params_of
  corrected_search s c [] = ok []
  corrected_search s c (best ∷ more) = do
    first ← store.search_porter s (params_of best.term c)
    matches ← or_else first (store.search_trigram s (params_of best.term c))
    ok (as_fuzzy matches)

  -- `s.vocab == nil`, then the correction.
  unfoldable pub fuzzy_tier :
      S → SearchConfig → Bytes → Option Vocabulary → Result (List SearchMatch)
  unfolding corrected_search
  fuzzy_tier s c query none = ok []
  fuzzy_tier s c query (some vocab) = corrected_search s c (best_terms query vocab)

  -- The matches of the first tier that has any.
  unfoldable pub find_matches :
      S → SearchConfig → Bytes → Option Vocabulary → Result (List SearchMatch)
  unfolding fuzzy_tier params_of
  find_matches s c query vocab = do
    porter_found ← store.search_porter s (params_of query c)
    or_else porter_found (
        store.search_trigram s (params_of query c) >>= λ trigram_found.
        or_else trigram_found (fuzzy_tier s c query vocab))

  unfoldable pub search :
      S → Option Vocabulary → Bytes → List SearchOption → Result (List SearchResult)
  unfolding find_matches
  search s vocab query options = do
    let c = search_options options default_search_config
    labels ← store.sources s
    matches ← find_matches s c query vocab
    ok (convert_matches matcher.to_lower labels c 0 [] matches)
