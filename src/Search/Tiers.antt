-- ===== src/Search/Tiers.antt =====
-- Which tier of a search a result comes from.
use gist.Prelude.{◌≡◌, ◌≢◌, refl, ◌∙◌, subst, List, [], ◌∷◌, All, Option, none, some}
use gist.Text.{Bytes}
use gist.Store.{Store, SearchMatch, MatchLayer, fuzzy, Result, ok, err}
use gist.Fuzzy.{Vocabulary, FuzzyResult}
use gist.Search.{
  Matcher, ◌>>=◌, or_else, as_fuzzy, params_of, corrected_search, fuzzy_tier, find_matches,
  best_terms,
}
use gist.Search.Convert.{SearchConfig}

abbrev pub OfLayer : MatchLayer → SearchMatch → Type 0
OfLayer layer m = m.match_layer ≡ layer

-- How a search that succeeded came by its matches: from the word search; from the substring search
-- where that found none; or corrected, where both found none and a vocabulary is there.
pub data Found {S : Type 0} (store : Store S) (s : S) (c : SearchConfig) (query : Bytes)
    (vocab : Option Vocabulary) (ms : List SearchMatch) : Type 0 where
  by_words :
      store.search_porter s (params_of query c) ≡ ok ms → ms ≢ [] → Found store s c query vocab ms
  by_substring :
      store.search_porter s (params_of query c) ≡ ok []
      → store.search_trigram s (params_of query c) ≡ ok ms
      → ms ≢ []
      → Found store s c query vocab ms
  corrected :
      store.search_porter s (params_of query c) ≡ ok []
      → store.search_trigram s (params_of query c) ≡ ok []
      → All (OfLayer fuzzy) ms
      → (vocab ≡ none → ms ≡ [])
      → Found store s c query vocab ms

as_fuzzy-OfLayer : (ms : List SearchMatch) → All (OfLayer fuzzy) (as_fuzzy ms)
unfolding as_fuzzy
as_fuzzy-OfLayer [] = tt
as_fuzzy-OfLayer (m ∷ ms) = (refl, as_fuzzy-OfLayer ms)

-- Where a call and what follows it succeed, the call gave what they went on with.
pub both_succeed {i j} :
    {Value : Type i} {Next : Type j} {rest : Value → Result Next} (call : Result Value)
    (last : Next)
    → (call >>= rest) ≡ ok last
    → (found : Value) × (call ≡ ok found) × (rest found ≡ ok last)
both_succeed (err e) last failed = cc
both_succeed (ok found) last done = (found, refl, done)

module _ {S : Type 0} (store : Store S) (matcher : Matcher) where
  corrected_search-fuzzy :
      (s : S) (c : SearchConfig) (best : List FuzzyResult) (ms : List SearchMatch)
      → corrected_search store matcher s c best ≡ ok ms
      → All (OfLayer fuzzy) ms
  unfolding corrected_search
  corrected_search-fuzzy s c [] [] h = tt
  corrected_search-fuzzy s c [] (m ∷ ms) h = absurd (cc)
  corrected_search-fuzzy s c (b ∷ bs) ms h =
      let (first, e, h') = both_succeed (store.search_porter s (params_of b.term c)) ms h in
      let (found, e', h'') =
        both_succeed (or_else first (store.search_trigram s (params_of b.term c))) ms h' in
      ok_fuzzy found ms h''
    where
      ok_fuzzy :
          (found ms : List SearchMatch)
          → ◌≡◌ {A = Result (List SearchMatch)} (ok (as_fuzzy found)) (ok ms)
          → All (OfLayer fuzzy) ms
      ok_fuzzy found ms e = subst (All (OfLayer fuzzy)) (cc) (as_fuzzy-OfLayer found)

  fuzzy_tier-fuzzy :
      (s : S) (c : SearchConfig) (query : Bytes) (vocab : Option Vocabulary) (ms : List SearchMatch)
      → fuzzy_tier store matcher s c query vocab ≡ ok ms
      → All (OfLayer fuzzy) ms × (vocab ≡ none → ms ≡ [])
  unfolding fuzzy_tier
  fuzzy_tier-fuzzy s c query none [] h = (tt, λ _. refl)
  fuzzy_tier-fuzzy s c query none (m ∷ ms) h = absurd (cc)
  fuzzy_tier-fuzzy s c query (some vocab) ms h =
      (corrected_search-fuzzy s c (best_terms store matcher query vocab) ms h, λ e. absurd (cc))

  first_tier :
      (s : S) (c : SearchConfig) (query : Bytes) (vocab : Option Vocabulary)
      (found ms : List SearchMatch)
      → store.search_porter s (params_of query c) ≡ ok found
      → or_else found (
          store.search_trigram s (params_of query c) >>= λ ts.
          or_else ts (fuzzy_tier store matcher s c query vocab))
        ≡ ok ms
      → Found store s c query vocab ms
  first_tier s c query vocab (x ∷ xs) ms e h =
      let same : x ∷ xs ≡ ms = cc in by_words (e ∙ h) (subst (λ l. l ≢ []) same (λ n. cc))
  first_tier s c query vocab [] ms e h =
      let (found, e', h') = both_succeed (store.search_trigram s (params_of query c)) ms h in
      second_tier found e' h'
    where
      second_tier :
          (found : List SearchMatch)
          → store.search_trigram s (params_of query c) ≡ ok found
          → or_else found (fuzzy_tier store matcher s c query vocab) ≡ ok ms
          → Found store s c query vocab ms
      second_tier (x ∷ xs) e' h' =
          let same : x ∷ xs ≡ ms = cc in
          by_substring e (e' ∙ h') (subst (λ l. l ≢ []) same (λ n. cc))
      second_tier [] e' h' =
          let (layers, nothing) = fuzzy_tier-fuzzy s c query vocab ms h' in
          corrected e e' layers nothing

  -- Over any store, a search that succeeds has its matches from the word search if that found any,
  -- else from the substring search if that found any, and else they all carry the layer "fuzzy",
  -- with none where there is no vocabulary.
  pub find_matches-Found :
      (s : S) (c : SearchConfig) (query : Bytes) (vocab : Option Vocabulary) (ms : List SearchMatch)
      → find_matches store matcher s c query vocab ≡ ok ms
      → Found store s c query vocab ms
  unfolding find_matches
  find_matches-Found s c query vocab ms h =
      let (found, e, h') = both_succeed (store.search_porter s (params_of query c)) ms h in
      first_tier s c query vocab found ms e h'
