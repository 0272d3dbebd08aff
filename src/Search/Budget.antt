-- ===== src/Search/Budget.antt =====
-- Which matches a search shows under a budget of tokens.
use mathlib.Core.Path.{ap₂}
use gist.Prelude.{
  pos, ℕ, zero, suc, ◌+◌, ◌≤◌, ◌<◌, ◌≡◌, refl, sym, ◌∙◌, ◌⊎◌, inl, inr, List, [], ◌∷◌, ◌++◌,
  append_assoc, append-nil, map, take, length, Bool, true, false, ◌&&◌, ltb, not, arith, Bool-cases,
  if◌then◌else◌,
}
use gist.Text.{Bytes, is_empty, fields}
use gist.Snippet.{estimate_tokens, extract_snippet, max_len_of}
use gist.Snippet.Front.{IsFrontOf, extract_snippet-IsFrontOf}
use gist.Store.{Source, SearchMatch}
use gist.Search.Convert.{
  SearchConfig, SearchResult, result_of, snippet_of_match, find_match_positions, convert_matches,
}

abbrev pub total_tokens : List SearchResult → ℕ
total_tokens [] = 0
total_tokens (r ∷ rs) = estimate_tokens r.snippet + total_tokens rs

total_tokens-append :
    (rs : List SearchResult) (r : SearchResult)
    → total_tokens (rs ++ r ∷ []) ≡ total_tokens rs + estimate_tokens r.snippet
total_tokens-append [] r = omega arith
total_tokens-append (x ∷ xs) r = omega (arith, total_tokens-append xs r)

-- The results cost at most the budget, or there is at most one.
abbrev pub FitsBudget : ℕ → List SearchResult → Type 0
FitsBudget budget rs = (total_tokens rs ≤ budget) ⊎ (length rs ≤ 1)

module _ (to_lower : Bytes → Bytes) (sources : List Source) (c : SearchConfig) where
  abbrev pub shown : SearchMatch → SearchResult
  shown = result_of to_lower sources c

  abbrev cost : SearchMatch → ℕ
  cost m = estimate_tokens (snippet_of_match to_lower c m)

  shown-cost : (m : SearchMatch) → estimate_tokens (shown m).snippet ≡ cost m
  unfolding result_of
  shown-cost m = refl

  stops : ℕ → List SearchResult → SearchMatch → Bool
  stops used results m = ltb 0 c.budget && (ltb c.budget (used + cost m) && not (is_empty results))

  fits_next :
      (results : List SearchResult) (m : SearchMatch)
      → 0 < c.budget
      → stops (total_tokens results) results m ≡ false
      → FitsBudget c.budget (results ++ shown m ∷ [])
  unfolding stops
  fits_next [] m h go_on = inr (omega arith)
  fits_next (r ∷ rs) m h go_on =
      inl (ground (arith, total_tokens-append (r ∷ rs) (shown m), shown-cost m))

  convert_fits :
      (used : ℕ) (results : List SearchResult) (ms : List SearchMatch)
      → 0 < c.budget
      → used ≡ total_tokens results
      → FitsBudget c.budget results
      → FitsBudget c.budget (convert_matches to_lower sources c used results ms)
  unfolding convert_matches stops
  convert_fits used results [] h e f = f
  convert_fits used results (m ∷ ms) h e f = elim (Bool-cases (stops used results m)) [
    | inl stop ↦ rw stop f
    | inr go_on ↦
        let positive : ltb 0 c.budget ≡ true = ground arith in
        rw go_on (
          convert_fits (if ltb 0 c.budget then used + cost m else used) (results ++ shown m ∷ []) ms
            h (rw positive (omega (arith, total_tokens-append results (shown m), shown-cost m, e)))
            (fits_next results m h (rw e at go_on)))
  ]

  -- Under a positive budget the results of a search together cost at most the budget, unless there
  -- is just one result.
  pub convert_matches_fits :
      (ms : List SearchMatch)
      → 0 < c.budget
      → FitsBudget c.budget (convert_matches to_lower sources c 0 [] ms)
  convert_matches_fits ms h = convert_fits 0 [] ms h refl (inr (omega arith))

  -- The results are those of the first `kept` matches; where that is not all, one more would have
  -- passed a positive budget.
  pub record Shows (ms : List SearchMatch) (used : ℕ) (before results : List SearchResult)
      : Type 0 where
    pub kept : ℕ
    pub within : kept ≤ length ms
    pub front : results ≡ before ++ take kept (map shown ms)
    pub next_is_over :
        kept < length ms
        → (0 < c.budget) × (c.budget < used + total_tokens (take (suc kept) (map shown ms)))

  convert-Shows :
      (used : ℕ) (results : List SearchResult) (ms : List SearchMatch)
      → Shows ms used results (convert_matches to_lower sources c used results ms)
  unfolding convert_matches stops
  convert-Shows used results [] = record {
    kept = 0;
    within = omega arith;
    front = sym (append-nil results);
    next_is_over = λ h. absurd (omega arith);
  }
  convert-Shows used results (m ∷ ms) = elim (Bool-cases (stops used results m)) [
    | inl stop ↦ rw stop (record {
      kept = 0;
      within = omega arith;
      front = sym (append-nil results);
      next_is_over = λ _. (ground arith, ground (arith, shown-cost m));
    })
    | inr go_on ↦
        let rest =
          convert-Shows (if ltb 0 c.budget then used + cost m else used) (results ++ shown m ∷ [])
            ms in
        rw go_on (record {
          kept = suc rest.kept;
          within = omega (arith, rest.within);
          front = rest.front ∙ append_assoc results (shown m ∷ []) _;
          next_is_over = λ h.
              let over = rest.next_is_over (omega arith) in
              (over.0, ground (arith, over, shown-cost m));
        })
  ]

  -- A search shows the first of its matches in their order, and it leaves one out only where that
  -- one would pass the budget.
  pub convert_matches-Shows :
      (ms : List SearchMatch) → Shows ms 0 [] (convert_matches to_lower sources c 0 [] ms)
  convert_matches-Shows ms = convert-Shows 0 [] ms

-- The front of the content, as long as a snippet may be.
abbrev pub front_snippet : SearchConfig → SearchMatch → Bytes
front_snippet c m = extract_snippet m.content [] (pos c.snippet_len)

module _ (to_lower : Bytes → Bytes) (sources : List Source) (c : SearchConfig) where
  snippet_of_match-front :
      (m : SearchMatch) → c.source_filter ≡ [] → snippet_of_match to_lower c m ≡ front_snippet c m
  unfolding snippet_of_match find_match_positions fields
  snippet_of_match-front m e = rw e refl

  take-snippets :
      (k : ℕ) (ms : List SearchMatch)
      → c.source_filter ≡ []
      → map (λ (r : SearchResult). r.snippet) (take k (map (result_of to_lower sources c) ms))
        ≡ take k (map (front_snippet c) ms)
  unfolding result_of
  take-snippets zero ms e = refl
  take-snippets (suc k) [] e = refl
  take-snippets (suc k) (m ∷ ms) e = ap₂ (◌∷◌) (snippet_of_match-front m e) (take-snippets k ms e)

  -- One snippet for each of the first matches, a front of its content.
  abbrev pub EachFront : List Bytes → List SearchMatch → Type 0
  EachFront [] ms = Unit {0}
  EachFront (s ∷ ss) [] = ⊥
  EachFront (s ∷ ss) (m ∷ ms) =
      IsFrontOf m.content (max_len_of (pos c.snippet_len)) s × EachFront ss ms

  take-EachFront :
      (k : ℕ) (ms : List SearchMatch) → EachFront (take k (map (front_snippet c) ms)) ms
  take-EachFront zero ms = tt
  take-EachFront (suc k) [] = tt
  take-EachFront (suc k) (m ∷ ms) =
      (extract_snippet-IsFrontOf m.content (pos c.snippet_len), take-EachFront k ms)

  -- Without a source filter each snippet is the front of its content, at most as long as a snippet
  -- may be and the whole content where that is not longer, wherever in it the words of the query
  -- stand: the positions that centre a snippet are those of the words of the filter.
  pub snippets_are_fronts :
      (ms : List SearchMatch)
      → c.source_filter ≡ []
      → EachFront
          (map (λ (r : SearchResult). r.snippet) (convert_matches to_lower sources c 0 [] ms))
          ms
  snippets_are_fronts ms e =
      let shows = convert_matches-Shows to_lower sources c ms in
      rw (shows.front, take-snippets shows.kept ms e) (take-EachFront shows.kept ms)
