-- ===== src/Snippet/Tests.antt =====
-- Runs of snippet.go, and the theorems about it at concrete inputs.
use mathlib.Core.List.{cons-ne-nil, Mem}
use gist.Prelude.{
  ◌^◌, some, none, ◌+◌, ◌/◌, ◌≤◌, ◌≡◌, refl, ◌⊎◌, List, [], ◌∷◌, arith, length, All, pos,
}
use gist.Text.{Bytes, codes}
use gist.Snippet.Trim.{
  move_start, move_end, drop_spaces, word_start, find_sentence_start, sentence_break,
  is_sentence_end, byte_at, seek_word_boundary, skip_spaces, is_word_boundary, find_sentence_end,
  back_to_word_boundary,
}
use gist.Snippet.{
  MatchPosition, Span, extract_snippet, trim_to_word_boundary, densest_cluster_center,
  trim_to_token_budget,
}
use gist.Snippet.Boundary.{Cut, trim_to_word_boundary_cuts}
use gist.Snippet.Bounds.{IsPart, extract_snippet_fits}
use gist.Snippet.Cluster.{cluster, densest_cluster_center_most}
use gist.Snippet.Budget.{Trims, trim_to_token_budget_fits}

abbrev quick : Bytes
quick = codes "The quick brown fox jumps over the lazy dog"

abbrev at_fox : MatchPosition
at_fox = record { start = pos 16; end = pos 19 }

extract_snippet_runs : extract_snippet quick (at_fox ∷ []) (pos 20) ≡ codes "brown fox jumps"
unfolding extract_snippet trim_to_word_boundary move_start move_end drop_spaces word_start
    find_sentence_start sentence_break is_sentence_end byte_at seek_word_boundary skip_spaces
    is_word_boundary find_sentence_end back_to_word_boundary
extract_snippet_runs = refl

extract_snippet_fits_example :
    IsPart quick (extract_snippet quick (at_fox ∷ []) (pos 20))
    × (length (extract_snippet quick (at_fox ∷ []) (pos 20)) ≤ 20)
extract_snippet_fits_example = extract_snippet_fits quick (at_fox ∷ []) (pos 20)

trim_to_word_boundary_cuts_example :
    (trim_to_word_boundary quick 7 27 ≡ []) ⊎ Cut quick 7 27 (trim_to_word_boundary quick 7 27)
trim_to_word_boundary_cuts_example =
    trim_to_word_boundary_cuts quick 7 27 (cons-ne-nil _ _) (omega arith)

abbrev first_span : Span
first_span = record { start = 2; end = 5 }

abbrev later_spans : List Span
later_spans = record { start = 40; end = 44 } ∷ record { start = 46; end = 49 } ∷ []

densest_cluster_center_most_example :
    (q : Span) × Mem q (first_span ∷ later_spans)
    × (densest_cluster_center first_span later_spans 20 ≡ q.start + 20 / 2)
    × All
        (λ r. cluster 20 (first_span ∷ later_spans) r ≤ cluster 20 (first_span ∷ later_spans) q)
        (first_span ∷ later_spans)
densest_cluster_center_most_example =
    densest_cluster_center_most first_span later_spans 20 (omega arith) (omega arith)

densest_cluster_center_runs : densest_cluster_center first_span later_spans 20 ≡ 50
unfolding densest_cluster_center
densest_cluster_center_runs = refl

trim_to_token_budget_runs : trim_to_token_budget quick (pos 3) ≡ some (codes "The quick")
unfolding trim_to_token_budget
trim_to_token_budget_runs = refl

-- A budget of 2^62 tokens makes no room, and one of 2^61 panics.
overflowing_budgets :
    (trim_to_token_budget quick (pos (2 ^ 62)) ≡ some [])
    × (trim_to_token_budget quick (pos (2 ^ 61)) ≡ none)
unfolding trim_to_token_budget
overflowing_budgets = (refl, refl)

trim_to_token_budget_fits_example : Trims quick (pos 3) (trim_to_token_budget quick (pos 3))
trim_to_token_budget_fits_example = trim_to_token_budget_fits quick (pos 3) (omega arith)
