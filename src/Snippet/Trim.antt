-- ===== src/Snippet/Trim.antt =====
-- `trimToWordBoundary` and its loops. A loop over positions recurs on the rounds left.
use gist.Prelude.{
  ℕ, zero, suc, ◌+◌, ◌-◌, [], ◌∷◌, Bool, true, ◌&&◌, ◌||◌, Option, none, some, ◌==◌, ltb, leb,
  if◌then◌else◌, length, take, drop,
}
use gist.Text.{Bytes}

-- `s[i]`. Every position that the program reads lies in the text.
unfoldable pub byte_at : Bytes → ℕ → ℕ
byte_at [] i = 0
byte_at (c ∷ s) zero = c
byte_at (c ∷ s) (suc i) = byte_at s i

-- What was found, or the other value: a `found` flag and the code under `if !found`.
abbrev pub found_or : Option ℕ → ℕ → ℕ
found_or (some i) other = i
found_or none other = other

-- `s[start:end]`.
abbrev pub slice : Bytes → ℕ → ℕ → Bytes
slice s start end = take (end - start) (drop start s)

abbrev pub sentence_search_range : ℕ
sentence_search_range = 50

unfoldable pub is_sentence_end : ℕ → Bool
is_sentence_end b = b == b'.' || b == b'!' || b == b'?'

unfoldable pub is_word_boundary : Bytes → ℕ → Bool
is_word_boundary s i =
    if i == 0 || leb (length s) i then true else byte_at s (i - 1) == 32 || byte_at s i == 32

-- Whether a sentence ends at `i` and a space follows.
unfoldable pub sentence_break : Bytes → ℕ → Bool
sentence_break s i =
    is_sentence_end (byte_at s i) && (ltb (i + 1) (length s) && byte_at s (i + 1) == 32)

-- The start behind the first sentence break among `rounds` positions from `i`.
unfoldable pub find_sentence_start : Bytes → ℕ → ℕ → Option ℕ
find_sentence_start s zero i = none
find_sentence_start s (suc rounds) i =
    let rest = find_sentence_start s rounds (i + 1) in
    if sentence_break s i then some (i + 2) else rest

unfoldable pub seek_word_boundary : Bytes → ℕ → ℕ → ℕ
seek_word_boundary s zero start = start
seek_word_boundary s (suc rounds) start =
    let rest = seek_word_boundary s rounds (start + 1) in
    if is_word_boundary s start then start else rest

unfoldable pub skip_spaces : Bytes → ℕ → ℕ → ℕ
skip_spaces s zero start = start
skip_spaces s (suc rounds) start =
    let rest = skip_spaces s rounds (start + 1) in if byte_at s start == 32 then rest else start

-- How many positions from `start` are searched for a sentence break.
unfoldable pub start_rounds : ℕ → ℕ → ℕ
start_rounds start end =
    let limit = start + sentence_search_range in (if ltb end limit then end else limit) - start

-- The start of the next word.
unfoldable pub word_start : Bytes → ℕ → ℕ → ℕ
word_start s start end =
    let word = seek_word_boundary s (end - start) start in skip_spaces s (end - word) word

-- The start, moved forward to a sentence or a word.
unfoldable pub move_start : Bytes → ℕ → ℕ → ℕ
unfolding start_rounds word_start
move_start s start end =
    if start == 0
    then 0
    else found_or (find_sentence_start s (start_rounds start end) start) (word_start s start end)

-- The end behind the last sentence end among the `rounds` positions below `end`.
unfoldable pub find_sentence_end : Bytes → ℕ → ℕ → Option ℕ
find_sentence_end s zero end = none
find_sentence_end s (suc rounds) end =
    let rest = find_sentence_end s rounds (end - 1) in
    if is_sentence_end (byte_at s (end - 1)) then some end else rest

unfoldable pub back_to_word_boundary : Bytes → ℕ → ℕ → ℕ
back_to_word_boundary s zero end = end
back_to_word_boundary s (suc rounds) end =
    let rest = back_to_word_boundary s rounds (end - 1) in
    if is_word_boundary s end then end else rest

-- How many positions below `end` are searched for the end of a sentence.
unfoldable pub end_rounds : ℕ → ℕ → ℕ
end_rounds start end =
    let limit = end - sentence_search_range in end - (if ltb limit start then start else limit)

-- The end, moved back to a sentence or a word.
unfoldable pub move_end : Bytes → ℕ → ℕ → ℕ
unfolding end_rounds
move_end s start end =
    if ltb end (length s)
    then found_or (find_sentence_end s (end_rounds start end) end)
        (back_to_word_boundary s (end - start) end)
    else end

unfoldable pub drop_spaces : Bytes → ℕ → ℕ → ℕ
drop_spaces s zero end = end
drop_spaces s (suc rounds) end =
    let rest = drop_spaces s rounds (end - 1) in if byte_at s (end - 1) == 32 then rest else end

unfoldable pub trim_to_word_boundary : Bytes → ℕ → ℕ → Bytes
trim_to_word_boundary s start end =
    let first = move_start s start end in
    let last = move_end s first end in
    let stop = drop_spaces s (last - first) last in
    if start == 0 && leb (length s) end
    then s
    else if leb last first
    then []
    else if leb stop first
    then []
    else slice s first stop
