-- ===== src/Engine/Counters.antt =====
-- The counters and the budget of the top-level type, over any store.
use gist.Prelude.{
  ℕ, zero, suc, ◌+◌, ◌<◌, ◌≡◌, refl, ◌∙◌, sym, subst, ap, List, [], ◌∷◌, true, ltb, arith, length,
  All, pos, Option, some, none,
}
use gist.Text.{Bytes}
use gist.Store.{Store, Source, Result, ok, err}
use gist.Chunk.Pieces.{ContentChunk}
use gist.Chunk.Sections.{Heading}
use gist.Chunk.Structured.{Parsers}
use gist.Chunk.{chunk_content, with_max_chunk_bytes, with_chunk_format}
use gist.Search.{Matcher, search, find_matches}
use gist.Search.Tiers.{both_succeed}
use gist.Search.Convert.{
  SearchConfig, SearchOption, with_limit, with_source_filter, with_snippet_len, with_budget,
  search_option, search_options, default_search_config, SearchResult, convert_matches,
}
use gist.Search.Budget.{FitsBudget, convert_matches_fits}
use gist.Engine.{
  Gist, Saved, IndexConfig, IndexOption, IndexResult, finish_index, index_saved, index_chunks,
  index, index_found, returned_bytes, gist_search, count_search, with_default_budget, index_options,
  default_index_config,
}

-- All counters are as before.
abbrev pub Keeps : {S : Type 0} → Gist S → Gist S → Type 0
Keeps g g' =
    (g'.source_count ≡ g.source_count)
    × (g'.chunk_count ≡ g.chunk_count)
    × (g'.bytes_idx ≡ g.bytes_idx)
    × (g'.search_count ≡ g.search_count)
    × (g'.bytes_ret ≡ g.bytes_ret)

-- What an index call does to the counters: nothing where it fails or panics; else one source, its
-- chunks and the bytes of its content are added.
abbrev pub Counts : {S : Type 0} → Gist S → Bytes → Gist S × Option (Result IndexResult) → Type 0
Counts g content (g', none) = Keeps g g'
Counts g content (g', some (err e)) = Keeps g g'
Counts g content (g', some (ok r)) =
    (g'.source_count ≡ suc g.source_count)
    × (g'.chunk_count ≡ g.chunk_count + r.total_chunks)
    × (g'.bytes_idx ≡ g.bytes_idx + length content)
    × (g'.search_count ≡ g.search_count)
    × (g'.bytes_ret ≡ g.bytes_ret)

module _ {S : Type 0} (store : Store S) (matcher : Matcher) where
  abbrev answered : Gist S × Result IndexResult → Gist S × Option (Result IndexResult)
  answered (g, result) = (g, some result)

  finish_index-Counts :
      (g : Gist S) (content : Bytes) (c : IndexConfig) (src : Source) (chunks : List ContentChunk)
      (done : Saved S × Result (Unit {0}))
      → Counts g content (answered (finish_index store matcher g content c src chunks done))
  unfolding finish_index
  finish_index-Counts g content c src chunks (v, err e) = (refl, refl, refl, refl, refl)
  finish_index-Counts g content c src chunks (v, ok u) = (refl, refl, refl, refl, refl)

  index_saved-Counts :
      (g : Gist S) (content : Bytes) (c : IndexConfig) (chunks : List ContentChunk)
      (saved : S × Result Source)
      → Counts g content (answered (index_saved store matcher g content c chunks saved))
  unfolding index_saved
  index_saved-Counts g content c chunks (s, err e) = (refl, refl, refl, refl, refl)
  index_saved-Counts g content c chunks (s, ok src) = finish_index-Counts g content c src chunks _

  -- Over any store, an index call that fails or panics leaves every counter as it was, also where some
  -- chunks were saved before the failure; one that succeeds adds one source, the chunks that it reports
  -- and the bytes of the content, and leaves the counters of searches.
  pub index-Counts :
      (parse : Bytes → List Heading) (parsers : Parsers) (g : Gist S) (content : Bytes)
      (options : List IndexOption)
      → Counts g content (index store matcher parse parsers g content options)
  unfolding index index_chunks
  index-Counts parse parsers g content options =
      let c = index_options options default_index_config in
      let chunks =
        chunk_content parse parsers content
          (with_max_chunk_bytes (pos c.max_chunk_bytes) ∷ with_chunk_format c.format ∷ []) in
      by_chunks c chunks
    where
      by_chunks :
          (c : IndexConfig) (found : Option (List ContentChunk))
          → Counts g content (index_found store matcher g content c found)
      by_chunks c none = (refl, refl, refl, refl, refl)
      by_chunks c (some chunks) =
          index_saved-Counts g content c chunks (store.save_source g.store c.source c.format)

-- The option is no budget.
abbrev pub IsNotBudget : SearchOption → Type 0
IsNotBudget (with_budget n) = ⊥
IsNotBudget (with_limit n) = Unit
IsNotBudget (with_source_filter s) = Unit
IsNotBudget (with_snippet_len n) = Unit

search_options-budget :
    (options : List SearchOption) (c : SearchConfig)
    → All IsNotBudget options
    → (search_options options c).budget ≡ c.budget
unfolding search_options
search_options-budget [] c h = refl
search_options-budget (o ∷ os) c h =
    search_options-budget os (search_option o c) h.1 ∙ search_option-budget o h.0
  where
    search_option-budget :
        (p : SearchOption) → IsNotBudget p → (search_option p c).budget ≡ c.budget
    search_option-budget (with_limit n) k = ground arith
    search_option-budget (with_source_filter s) k = refl
    search_option-budget (with_snippet_len n) k = ground arith
    search_option-budget (with_budget n) k = absurd k

module _ {S : Type 0} (store : Store S) (matcher : Matcher) where
  search_fits :
      (s : S) (vocab : Option (List Bytes)) (query : Bytes) (options : List SearchOption) (n : ℕ)
      (results : List SearchResult)
      → (search_options options default_search_config).budget ≡ n
      → 0 < n
      → search store matcher s vocab query options ≡ ok results
      → FitsBudget n results
  unfolding search
  search_fits s vocab query options n results e h found =
      let (labels, _, found') = both_succeed (store.sources s) _ found in
      let (ms, _, found'') = both_succeed (find_matches store matcher s c query vocab) _ found' in
      subst (FitsBudget n) (ok-injective found'') (
        subst (λ k. FitsBudget k (convert_matches matcher.to_lower labels c 0 [] ms)) e
          (convert_matches_fits matcher.to_lower labels c ms (rw e h)))
    where
      c : SearchConfig
      c = search_options options default_search_config

      ok-injective :
          {xs ys : List SearchResult}
          → ◌≡◌ {A = Result (List SearchResult)} (ok xs) (ok ys)
          → xs ≡ ys
      ok-injective p = cc

  default_budget :
      (g : Gist S) (options : List SearchOption)
      → 0 < g.token_budget
      → All IsNotBudget options
      → (search_options (with_default_budget store matcher g options) default_search_config).budget
        ≡ g.token_budget
  unfolding with_default_budget search_option search_options
  default_budget g options h plain =
      let positive : ltb 0 g.token_budget ≡ true = ground arith in
      rw positive (search_options-budget options _ plain ∙ budget_set g.token_budget h)
    where
      budget_set :
          (n : ℕ) → 0 < n → (search_option (with_budget (pos n)) default_search_config).budget ≡ n
      budget_set zero k = absurd (omega arith)
      budget_set (suc n) k = refl

  count_search_lem :
      (g g' : Gist S) (r : Result (List SearchResult)) (results : List SearchResult)
      → count_search store matcher g r ≡ (g', ok results)
      → (r ≡ ok results)
        × (g'.search_count ≡ suc g.search_count)
        × (g'.bytes_ret ≡ g.bytes_ret + returned_bytes results)
  unfolding count_search
  count_search_lem g g' (err e) results h = absurd (cc (ap (λ p. p.1) h))
  count_search_lem g g' (ok xs) results h =
      let same : ◌≡◌ {A = Result (List SearchResult)} (ok xs) (ok results) = ap (λ p. p.1) h in
      let xs_same : xs ≡ results = cc in
      (
        same,
        sym (ap (λ p. p.0.search_count) h),
        sym (ap (λ p. p.0.bytes_ret) h) ∙ ap (λ l. g.bytes_ret + returned_bytes l) xs_same,
      )

  -- Where the instance has a token budget and the call gives none, the results of a search that
  -- succeeds cost at most that budget together, unless there is just one; the search is counted,
  -- and so are the bytes of the snippets.
  pub gist_search_fits :
      (g g' : Gist S) (query : Bytes) (options : List SearchOption) (results : List SearchResult)
      → 0 < g.token_budget
      → All IsNotBudget options
      → gist_search store matcher g query options ≡ (g', ok results)
      → FitsBudget g.token_budget results
        × (g'.search_count ≡ suc g.search_count)
        × (g'.bytes_ret ≡ g.bytes_ret + returned_bytes results)
  unfolding gist_search
  gist_search_fits g g' query options results h plain found =
      let (searched, counted, returned) = count_search_lem g g' _ results found in
      (
        search_fits g.store (some g.vocab) query (with_default_budget store matcher g options)
            g.token_budget results (default_budget g options h plain) h searched,
        counted,
        returned,
      )
