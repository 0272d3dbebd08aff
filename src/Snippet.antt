-- ===== src/Snippet.antt =====
-- snippet.go: the part of a text that is shown around its matches, and the estimate of tokens.
-- A `string` is its bytes and a position is a number; a window that Go moves below 0 is cut at 0
-- at once, as Go does in its next step.
mod Trim
pub mod Boundary
pub mod Bounds
pub mod Cluster
pub mod Budget
pub mod Front
mod Tests
unfoldable pub use Trim.*
use gist.Prelude.{
  ℕ, zero, suc, ◌+◌, ◌-◌, ◌*◌, ◌/◌, ◌%◌, ◌^◌, ◌≤◌, not, Option, none, some, List, [], ◌∷◌, ◌++◌,
  Bool, true, false, ◌&&◌, ◌||◌, ◌==◌, ltb, leb, if◌then◌else◌, length, take, drop, ℤ, pos, negsuc,
  pos_part, is_positive,
}
use gist.Text.{Bytes, is_empty}

abbrev pub default_max_snippet_len : ℕ
default_max_snippet_len = 1500

-- A range of bytes with a match: `start` inclusive, `end` exclusive.
pub record MatchPosition : Type 0 where
  pub start : ℤ
  pub end : ℤ

-- A position that was cut to the content.
pub record Span : Type 0 where
  pub start : ℕ
  pub end : ℕ

-- The position cut to a content of `n` bytes.
clip : ℕ → MatchPosition → Span
clip n p = record {
  start = pos_part p.start;
  end = if ltb n (pos_part p.end) then n else pos_part p.end;
}

-- The positions that lie in the content, cut to it.
unfoldable pub valid_positions : ℕ → List MatchPosition → List Span
unfolding clip
valid_positions n [] = []
valid_positions n (p ∷ ps) =
    let s = clip n p in
    let rest = valid_positions n ps in if ltb s.start n && ltb s.start s.end then s ∷ rest else rest

-- Whether a match counts for the window: it lies inside, or overlaps it.
unfoldable pub counts : ℕ → ℕ → Span → Bool
counts w_start w_end q =
    if leb w_start q.start && leb q.end w_end then true else ltb q.start w_end && ltb w_start q.end

unfoldable pub count_in : ℕ → ℕ → List Span → ℕ
unfolding counts
count_in w_start w_end [] = 0
count_in w_start w_end (q ∷ qs) =
    let n = count_in w_start w_end qs in if counts w_start w_end q then suc n else n

-- The loop over the candidates, with the best count and centre so far.
unfoldable pub densest_loop : ℕ → List Span → List Span → ℕ → ℕ → ℕ × ℕ
unfolding count_in
densest_loop window all [] best_count best_center = (best_count, best_center)
densest_loop window all (p ∷ ps) best_count best_center =
    let count = count_in p.start (p.start + window) all in
    let better = ltb best_count count in
    densest_loop window all ps (if better then count else best_count)
      (if better then p.start + window / 2 else best_center)

unfoldable pub densest_cluster_center : Span → List Span → ℕ → ℕ
unfolding densest_loop
densest_cluster_center p ps window =
    (densest_loop window (p ∷ ps) (p ∷ ps) 0 ((p.start + p.end) / 2)).1

-- The window of `max_len` bytes round `center`, moved into a content of `n` bytes.
unfoldable pub window_around : ℕ → ℕ → ℕ → Span
window_around n center max_len =
    let half = max_len / 2 in
    let start = if ltb center half then 0 else center - half in
    let end = start + max_len in
    if ltb n end
    then record { start = n - max_len; end = n }
    else record { start = start; end = end }

snippet_of : Bytes → List Span → ℕ → Bytes
unfolding window_around densest_cluster_center
snippet_of content [] max_len = trim_to_word_boundary content 0 max_len
snippet_of content (p ∷ []) max_len =
    let w = window_around (length content) ((p.start + p.end) / 2) max_len in
    trim_to_word_boundary content w.start w.end
snippet_of content (p ∷ q ∷ ps) max_len =
    let w = window_around (length content) (densest_cluster_center p (q ∷ ps) max_len) max_len in
    trim_to_word_boundary content w.start w.end

-- `maxLen`, or the default where it is not positive.
abbrev pub max_len_of : ℤ → ℕ
max_len_of n = if is_positive n then pos_part n else default_max_snippet_len

pub extract_snippet : Bytes → List MatchPosition → ℤ → Bytes
unfolding snippet_of valid_positions
extract_snippet content positions max_len =
    if is_empty content
    then []
    else if leb (length content) (max_len_of max_len)
    then content
    else snippet_of content (valid_positions (length content) positions) (max_len_of max_len)

unfoldable pub estimate_tokens : Bytes → ℕ
estimate_tokens text = if length text == 0 then 0 else (length text + 3) / 4

-- The position, going back from `end`, of a byte for which `unicode.IsSpace(rune(b))` holds.
is_space_byte : ℕ → Bool
is_space_byte b = b == 32 || (leb 9 b && leb b 13) || b == 0x85 || b == 0xA0

back_to_space : Bytes → ℕ → ℕ
unfolding is_space_byte
back_to_space text zero = 0
back_to_space text (suc end) =
    let rest = back_to_space text end in
    if is_space_byte (byte_at text (suc end)) then suc end else rest

-- `maxTokens * 4` in an int of 64 bits: from 2^63 on the bits say a negative number.
abbrev pub budget_bytes : ℤ → ℕ
budget_bytes max_tokens = (pos_part max_tokens * 4) % 2 ^ 64

-- `none` is a panic: a text is cut at a negative number.
unfoldable pub trim_to_token_budget : Bytes → ℤ → Option Bytes
unfolding back_to_space byte_at
trim_to_token_budget text max_tokens =
    let max_bytes = budget_bytes max_tokens in
    let end = back_to_space text max_bytes in
    if not (is_positive max_tokens)
    then some []
    else if leb (2 ^ 63) max_bytes
    then none
    else if leb (length text) max_bytes
    then some text
    else if end == 0
    then some (take max_bytes text)
    else some (take end text)
