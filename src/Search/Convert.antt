-- ===== src/Search/Convert.antt =====
-- The options of a search, and `convertMatches`.
use gist.Prelude.{
  ℕ, zero, suc, ◌+◌, List, [], ◌∷◌, ◌++◌, drop, length, ◌&&◌, ltb, ◌==◌, ℤ, pos, is_positive,
  pos_part, none, some, if◌then◌else◌, not,
}
use gist.Text.{Bytes, is_empty, fields, index}
use gist.Snippet.{MatchPosition, extract_snippet, estimate_tokens, default_max_snippet_len}
use gist.Store.{Source, SearchMatch, Score, ContentType, MatchLayer}

pub record SearchResult : Type 0 where
  pub title : Bytes
  pub snippet : Bytes
  pub source : Bytes
  pub score : Score
  pub content_type : ContentType
  pub match_layer : MatchLayer
  pub bytes_used : ℕ

-- A budget of 0 is none.
pub record SearchConfig : Type 0 where
  pub limit : ℕ
  pub source_filter : Bytes
  pub snippet_len : ℕ
  pub budget : ℕ

abbrev pub default_search_config : SearchConfig
default_search_config = record {
  limit = 5;
  source_filter = [];
  snippet_len = default_max_snippet_len;
  budget = 0;
}

-- `SearchOption`: each option is a step on the configuration.
pub data SearchOption : Type 0 where
  with_limit : ℤ → SearchOption
  with_source_filter : Bytes → SearchOption
  with_snippet_len : ℤ → SearchOption
  with_budget : ℤ → SearchOption

unfoldable pub search_option : SearchOption → SearchConfig → SearchConfig
search_option (with_limit n) c = if is_positive n then record c { limit = pos_part n } else c
search_option (with_source_filter s) c = record c { source_filter = s }
search_option (with_snippet_len n) c =
    if is_positive n then record c { snippet_len = pos_part n } else c
search_option (with_budget n) c = if is_positive n then record c { budget = pos_part n } else c

unfoldable pub search_options : List SearchOption → SearchConfig → SearchConfig
unfolding search_option
search_options [] c = c
search_options (o ∷ os) c = search_options os (search_option o c)

-- The label of a source; of two with one identifier the later counts, and none has "".
label_from : Bytes → List Source → ℕ → Bytes
label_from label [] i = label
label_from label (s ∷ ss) i = label_from (if s.id == i then s.label else label) ss i

unfoldable pub label_of : List Source → ℕ → Bytes
unfolding label_from
label_of sources i = label_from [] sources i

-- The occurrences of a term from `offset` on, on fuel: each lies behind the one before, so one
-- more round than the text has bytes is enough for a term that is not empty.
unfoldable pub term_positions : ℕ → Bytes → Bytes → ℕ → List MatchPosition
term_positions zero lower t offset = []
term_positions (suc fuel) lower t offset = elim (index (drop offset lower) t) [
  | none ↦ []
  | some i ↦
      record { start = pos (offset + i); end = pos (offset + i + length t) }
      ∷ term_positions fuel lower t (offset + i + length t)
]

module _ (to_lower : Bytes → Bytes) where
  unfoldable pub find_match_positions : Bytes → List Bytes → List MatchPosition
  unfolding term_positions
  find_match_positions content [] = []
  find_match_positions content (t ∷ ts) =
      let lower = to_lower content in
      term_positions (suc (length lower)) lower (to_lower t) 0 ++ find_match_positions content ts

  unfoldable pub snippet_of_match : SearchConfig → SearchMatch → Bytes
  unfolding find_match_positions
  snippet_of_match c m =
      extract_snippet m.content (find_match_positions m.content (fields c.source_filter))
        (pos c.snippet_len)

  unfoldable pub result_of : List Source → SearchConfig → SearchMatch → SearchResult
  unfolding label_of
  result_of sources c m =
      let snippet = snippet_of_match c m in
      record {
        title = m.heading_path;
        snippet = snippet;
        source = label_of sources m.source_id;
        score = m.score;
        content_type = m.content_type;
        match_layer = m.match_layer;
        bytes_used = length snippet;
      }

  -- The loop, with the tokens used and the results so far; it ends at the first match that would
  -- pass the budget, but never before the first result.
  unfoldable pub convert_matches :
      List Source → SearchConfig → ℕ → List SearchResult → List SearchMatch → List SearchResult
  unfolding result_of
  convert_matches sources c used results [] = results
  convert_matches sources c used results (m ∷ ms) =
      let tokens = estimate_tokens (snippet_of_match c m) in
      let rest =
        convert_matches sources c (if ltb 0 c.budget then used + tokens else used)
          (results ++ result_of sources c m ∷ []) ms in
      if ltb 0 c.budget && (ltb c.budget (used + tokens) && not (is_empty results))
      then results
      else rest
