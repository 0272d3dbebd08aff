-- ===== src/Snippet/Boundary.antt =====
-- Where `trimToWordBoundary` cuts: the range that it keeps, and the bytes at its two ends.
use gist.Prelude.{
  ℕ, zero, suc, ◌+◌, ◌-◌, ◌≤◌, ◌<◌, ◌≡◌, refl, sym, ◌≢◌, [], true, ◌&&◌, some, ◌==◌, leb, ltb, ◌⊎◌,
  inl, inr, arith, length, Option-cases, Bool-cases, take-length,
}
use gist.Text.{Bytes}
use gist.Snippet.Trim.{
  byte_at, slice, is_sentence_end, is_word_boundary, sentence_break, find_sentence_start,
  seek_word_boundary, skip_spaces, start_rounds, word_start, move_start, find_sentence_end,
  back_to_word_boundary, end_rounds, move_end, drop_spaces, trim_to_word_boundary,
}

-- A start is fit where a word begins, or where nothing is left before `end`.
abbrev pub IsStart : Bytes → ℕ → ℕ → Type 0
IsStart s end i = (is_word_boundary s i ≡ true) ⊎ (end ≤ i)

-- An end is fit at a word boundary or behind the end of a sentence, or where nothing is left.
abbrev pub IsEnd : Bytes → ℕ → ℕ → Type 0
IsEnd s start j =
    (is_word_boundary s j ≡ true) ⊎ (is_sentence_end (byte_at s (j - 1)) ≡ true) ⊎ (j ≤ start)

find_sentence_start_lem :
    (s : Bytes) (rounds i j : ℕ)
    → find_sentence_start s rounds i ≡ some j
    → (i < j) × (j ≤ i + rounds + 1) × (is_word_boundary s j ≡ true)
unfolding find_sentence_start is_word_boundary sentence_break
find_sentence_start_lem s zero i j h = cc
find_sentence_start_lem s (suc rounds) i j h =
    ground (arith, find_sentence_start_lem s rounds (i + 1) j)

seek_word_boundary_lem :
    (s : Bytes) (rounds i : ℕ)
    → (i ≤ seek_word_boundary s rounds i)
      × (seek_word_boundary s rounds i ≤ i + rounds)
      × IsStart s (i + rounds) (seek_word_boundary s rounds i)
unfolding seek_word_boundary
seek_word_boundary_lem s zero i = (omega arith, omega arith, inr (omega arith))
seek_word_boundary_lem s (suc rounds) i = ground (arith, seek_word_boundary_lem s rounds (i + 1))

skip_spaces_lem :
    (s : Bytes) (rounds i : ℕ)
    → is_word_boundary s i ≡ true
    → (i ≤ skip_spaces s rounds i)
      × (skip_spaces s rounds i ≤ i + rounds)
      × (is_word_boundary s (skip_spaces s rounds i) ≡ true)
unfolding skip_spaces is_word_boundary
skip_spaces_lem s zero i h = (omega arith, omega arith, h)
skip_spaces_lem s (suc rounds) i h = ground (arith, skip_spaces_lem s rounds (i + 1))

spaces_at_end : (s : Bytes) (rounds i : ℕ) → rounds ≡ 0 → skip_spaces s rounds i ≡ i
unfolding skip_spaces
spaces_at_end s zero i e = refl
spaces_at_end s (suc rounds) i e = absurd (omega arith)

word_start_lem :
    (s : Bytes) (start end : ℕ)
    → start ≤ end
    → (start ≤ word_start s start end)
      × (word_start s start end ≤ end)
      × IsStart s end (word_start s start end)
unfolding word_start
word_start_lem s start end h =
    let word = seek_word_boundary s (end - start) start in
    let (low, high, fit) = seek_word_boundary_lem s (end - start) start in
    elim fit [
      | inl e ↦ ground (arith, skip_spaces_lem s (end - word) word e)
      | inr e ↦
          rw (spaces_at_end s (end - word) word (omega arith))
            (omega arith, omega arith, inr (omega arith))
    ]

start_rounds-le : (start end : ℕ) → start ≤ end → start + start_rounds start end ≤ end
unfolding start_rounds
start_rounds-le start end h = ground arith

-- The start that is found lies in the range, but for a break whose space is the last byte.
pub move_start_lem :
    (s : Bytes) (start end : ℕ)
    → start ≤ end
    → (start ≤ move_start s start end)
      × (move_start s start end ≤ end + 1)
      × IsStart s end (move_start s start end)
unfolding move_start
move_start_lem s zero end h = (omega arith, omega arith, inl (unfold is_word_boundary in refl))
move_start_lem s (suc k) end h =
    elim (Option-cases (find_sentence_start s (start_rounds (suc k) end) (suc k))) [
      | inl e ↦ rw (e, move_start) (ground (arith, word_start_lem s (suc k) end h))
      | inr (j, e) ↦
          rw (e, move_start)
            (ground (
              arith,
              find_sentence_start_lem s (start_rounds (suc k) end) (suc k) j e,
              start_rounds-le (suc k) end h,
            ))
    ]

find_sentence_end_lem :
    (s : Bytes) (rounds end j : ℕ)
    → find_sentence_end s rounds end ≡ some j
    → (j ≤ end) × (is_sentence_end (byte_at s (j - 1)) ≡ true)
unfolding find_sentence_end
find_sentence_end_lem s zero end j h = cc
find_sentence_end_lem s (suc rounds) end j h =
    ground (arith, find_sentence_end_lem s rounds (end - 1) j)

back_to_word_boundary_lem :
    (s : Bytes) (rounds start end : ℕ)
    → end ≤ start + rounds
    → (back_to_word_boundary s rounds end ≤ end)
      × IsEnd s start (back_to_word_boundary s rounds end)
unfolding back_to_word_boundary
back_to_word_boundary_lem s zero start end h = (omega arith, inr (inr (omega arith)))
back_to_word_boundary_lem s (suc rounds) start end h =
    ground (arith, back_to_word_boundary_lem s rounds start (end - 1))

at_end : (s : Bytes) (i : ℕ) → length s ≤ i → is_word_boundary s i ≡ true
unfolding is_word_boundary
at_end s i h = ground arith

pub move_end_lem :
    (s : Bytes) (start end : ℕ)
    → (move_end s start end ≤ end) × IsEnd s start (move_end s start end)
unfolding move_end
move_end_lem s start end = elim (Bool-cases (ltb end (length s))) [
  | inl inside ↦ elim (Option-cases (find_sentence_end s (end_rounds start end) end)) [
    | inl none_found ↦
        rw (inside, none_found, move_end)
          (back_to_word_boundary_lem s (end - start) start end (omega arith))
    | inr (j, e) ↦
        rw (inside, e, move_end)
          (ground (arith, find_sentence_end_lem s (end_rounds start end) end j e))
  ]
  | inr outside ↦ rw (outside, move_end) (omega arith, inl (at_end s end (ground arith)))
]

pub drop_spaces_lem :
    (s : Bytes) (rounds start end : ℕ)
    → IsEnd s start end
    → (drop_spaces s rounds end ≤ end) × IsEnd s start (drop_spaces s rounds end)
unfolding drop_spaces is_word_boundary
drop_spaces_lem s zero start end h = (omega arith, h)
drop_spaces_lem s (suc rounds) start end h =
    ground (arith, drop_spaces_lem s rounds start (end - 1))

-- What is left of `s[start:end]`: nothing, or `s[first:stop]` inside it, cut at fit places.
pub record Cut (s : Bytes) (start end : ℕ) (t : Bytes) : Type 0 where
  pub first : ℕ
  pub stop : ℕ
  pub text : t ≡ slice s first stop
  pub from_start : start ≤ first
  pub to_end : stop ≤ end
  pub not_empty : first < stop
  pub fit_start : is_word_boundary s first ≡ true
  pub fit_stop : (is_word_boundary s stop ≡ true) ⊎ (is_sentence_end (byte_at s (stop - 1)) ≡ true)

slice_all : (s : Bytes) → slice s 0 (length s) ≡ s
slice_all s = let e : length s - 0 ≡ length s = omega arith in rw e (take-length s)

whole-Cut : (s : Bytes) (start end : ℕ) → s ≢ [] → start ≡ 0 → length s ≤ end → Cut s start end s
whole-Cut s start end some_bytes e h = record {
  first = 0;
  stop = length s;
  text = sym (slice_all s);
  from_start = omega arith;
  to_end = h;
  not_empty = ground arith;
  fit_start = unfold is_word_boundary in refl;
  fit_stop = inl (at_end s (length s) (omega arith));
}

inner-Cut :
    (s : Bytes) (start end first stop : ℕ)
    → (start ≤ first) × IsStart s end first
    → (stop ≤ end) × IsEnd s first stop
    → first < stop
    → Cut s start end (slice s first stop)
inner-Cut s start end first stop low high inside = record {
  first = first;
  stop = stop;
  text = refl;
  from_start = low.0;
  to_end = high.0;
  not_empty = inside;
  fit_start = ground arith;
  fit_stop = ground arith;
}

-- For a window of a content that is not empty, `trimToWordBoundary` gives the empty text or a
-- part of the window that starts at a word boundary and ends at one or behind the end of a sentence.
pub trim_to_word_boundary_cuts :
    (s : Bytes) (start end : ℕ)
    → s ≢ []
    → start ≤ end
    → (trim_to_word_boundary s start end ≡ []) ⊎ Cut s start end (trim_to_word_boundary s start end)
unfolding trim_to_word_boundary
trim_to_word_boundary_cuts s start end some_bytes h =
    let first = move_start s start end in
    let last = move_end s first end in
    let stop = drop_spaces s (last - first) last in
    let low = move_start_lem s start end h in
    let high = move_end_lem s first end in
    let trimmed = drop_spaces_lem s (last - first) first last high.1 in
    elim (Bool-cases (start == 0 && leb (length s) end)) [
      | inl whole ↦ rw whole (inr (whole-Cut s start end some_bytes (ground arith) (ground arith)))
      | inr cut ↦ elim (Bool-cases (leb last first)) [
        | inl nothing ↦ rw (cut, nothing) (inl refl)
        | inr more ↦ elim (Bool-cases (leb stop first)) [
          | inl spaces ↦ rw (cut, more, spaces) (inl refl)
          | inr kept ↦
              rw (cut, more, kept)
                (inr (
                  inner-Cut s start end first stop (low.0, low.2)
                    (omega (arith, high.0, trimmed.0), trimmed.1) (ground arith)))
        ]
      ]
    ]
