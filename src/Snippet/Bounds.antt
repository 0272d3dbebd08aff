-- ===== src/Snippet/Bounds.antt =====
-- `ExtractSnippet`: the length of a snippet, and where it stands in its content.
use gist.Prelude.{
  ℕ, ◌+◌, ◌-◌, ◌/◌, ◌≤◌, ◌<◌, ◌≡◌, refl, ◌≢◌, inl, inr, List, [], ◌∷◌, ◌++◌, append-nil, leb, arith,
  length, length-take, take, drop, slice_parts, Bool-cases, ℤ,
}
use gist.Text.{Bytes}
use gist.Snippet.{
  MatchPosition, Span, max_len_of, extract_snippet, snippet_of, window_around,
  densest_cluster_center,
}
use gist.Snippet.Trim.{trim_to_word_boundary, slice}
use gist.Snippet.Boundary.{Cut, trim_to_word_boundary_cuts}

-- `t` is a contiguous part of `s`.
pub record IsPart (s t : Bytes) : Type 0 where
  pub before : Bytes
  pub behind : Bytes
  pub whole : before ++ (t ++ behind) ≡ s

pub IsPart-self : (s : Bytes) → IsPart s s
IsPart-self s = record { before = []; behind = []; whole = append-nil s }

pub IsPart-nil : (s : Bytes) → IsPart s []
IsPart-nil s = record { before = []; behind = s; whole = refl }

slice-IsPart : (s : Bytes) (first stop : ℕ) → IsPart s (slice s first stop)
slice-IsPart s first stop = record {
  before = take first s;
  behind = drop (stop - first) (drop first s);
  whole = slice_parts first (stop - first) s;
}

Cut-IsPart : (s : Bytes) (start end : ℕ) (t : Bytes) → Cut s start end t → IsPart s t
Cut-IsPart s start end t c = rw c.text (slice-IsPart s c.first c.stop)

Cut-length : (s : Bytes) (start end : ℕ) (t : Bytes) → Cut s start end t → length t + start ≤ end
Cut-length s start end t c = rw c.text (
    omega
      (arith, length-take (c.stop - c.first) (drop c.first s), c.from_start, c.to_end, c.not_empty))

-- A window of at most `n` bytes gives a part of at most `n` bytes.
trim_fits :
    (s : Bytes) (start end n : ℕ)
    → s ≢ []
    → start ≤ end
    → end ≤ start + n
    → IsPart s (trim_to_word_boundary s start end)
      × (length (trim_to_word_boundary s start end) ≤ n)
trim_fits s start end n some_bytes h k =
    elim (trim_to_word_boundary_cuts s start end some_bytes h) [
      | inl e ↦ rw e (IsPart-nil s, omega arith)
      | inr c ↦ (Cut-IsPart s start end _ c, omega (arith, Cut-length s start end _ c))
    ]

window_around_lem :
    (n center max_len : ℕ)
    → max_len < n
    → let w = window_around n center max_len in
      (w.start ≤ w.end) × (w.end ≤ w.start + max_len) × (w.end ≤ n)
unfolding window_around
window_around_lem n center max_len h = ground arith

snippet_of_fits :
    (s : Bytes) (ps : List Span) (n : ℕ)
    → s ≢ []
    → n < length s
    → IsPart s (snippet_of s ps n) × (length (snippet_of s ps n) ≤ n)
unfolding snippet_of
snippet_of_fits s [] n some_bytes h = trim_fits s 0 n n some_bytes (omega arith) (omega arith)
snippet_of_fits s (p ∷ []) n some_bytes h =
    let w = window_around_lem (length s) ((p.start + p.end) / 2) n h in
    trim_fits s _ _ n some_bytes w.0 w.1
snippet_of_fits s (p ∷ q ∷ ps) n some_bytes h =
    let w = window_around_lem (length s) (densest_cluster_center p (q ∷ ps) n) n h in
    trim_fits s _ _ n some_bytes w.0 w.1

-- A snippet is a contiguous part of the content, for any positions, and has at most `maxLen`
-- bytes (1500 where `maxLen` is not positive).
pub extract_snippet_fits :
    (content : Bytes) (positions : List MatchPosition) (max_len : ℤ)
    → IsPart content (extract_snippet content positions max_len)
      × (length (extract_snippet content positions max_len) ≤ max_len_of max_len)
unfolding extract_snippet
extract_snippet_fits [] positions max_len = (IsPart-self [], omega arith)
extract_snippet_fits (c ∷ s) positions max_len =
    elim (Bool-cases (leb (length (c ∷ s)) (max_len_of max_len))) [
      | inl short ↦ rw short (IsPart-self (c ∷ s), ground arith)
      | inr long ↦ rw long (snippet_of_fits (c ∷ s) _ _ (ground arith) (ground arith))
    ]
