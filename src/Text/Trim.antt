-- ===== src/Text/Trim.antt =====
-- `unicode.IsSpace`, `strings.TrimSpace`, `strings.Fields` and `strings.TrimRight`.
use gist.Prelude.{
  ℕ, zero, suc, List, [], ◌∷◌, ◌++◌, Bool, ◌&&◌, ◌||◌, ◌==◌, ltb, leb, if◌then◌else◌,
}
use gist.Text.Search.{Bytes, is_empty}

-- '\t', '\n', '\v', '\f', '\r' and ' '.
is_ascii_space : ℕ → Bool
is_ascii_space c = c == 32 || (leb 9 c && leb c 13)

-- U+0085, U+00A0, U+1680, U+2000 to U+200A, U+2028, U+2029, U+202F, U+205F and U+3000 in UTF-8.
is_wide_space2 : ℕ → ℕ → Bool
is_wide_space2 a b = a == 0xC2 && (b == 0x85 || b == 0xA0)

is_wide_space3 : ℕ → ℕ → ℕ → Bool
is_wide_space3 a b c =
    (a == 0xE1 && b == 0x9A && c == 0x80)
    || (a == 0xE2
        && b == 0x80
        && ((leb 0x80 c && leb c 0x8A) || c == 0xA8 || c == 0xA9 || c == 0xAF))
    || (a == 0xE2 && b == 0x81 && c == 0x9F)
    || (a == 0xE3 && b == 0x80 && c == 0x80)

wide_space_width : ℕ → Bytes → ℕ
unfolding is_wide_space2 is_wide_space3
wide_space_width a [] = 0
wide_space_width a (b ∷ []) = if is_wide_space2 a b then 2 else 0
wide_space_width a (b ∷ c ∷ s) =
    if is_wide_space2 a b then 2 else if is_wide_space3 a b c then 3 else 0

-- The bytes of the white-space character that a text begins with, 0 where there is none.
pub space_width : Bytes → ℕ
unfolding is_ascii_space wide_space_width
space_width [] = 0
space_width (c ∷ s) = if is_ascii_space c then 1 else if ltb c 0x80 then 0 else wide_space_width c s

-- `skip` counts the bytes of a white-space character still to pass.
trim_left_from : ℕ → Bytes → Bytes
trim_left_from skip [] = []
trim_left_from (suc skip) (c ∷ s) = trim_left_from skip s
trim_left_from zero (c ∷ s) = elim (space_width (c ∷ s)) [
  | zero ↦ c ∷ s
  | suc skip ↦ trim_left_from skip s
]

pub trim_left : Bytes → Bytes
unfolding trim_left_from space_width
trim_left s = trim_left_from 0 s

-- The text ends where only white space follows.
pub trim_right : Bytes → Bytes
unfolding trim_left
trim_right [] = []
trim_right (c ∷ s) = if is_empty (trim_left (c ∷ s)) then [] else c ∷ trim_right s

unfoldable pub trim_space : Bytes → Bytes
unfolding trim_left trim_right
trim_space s = trim_right (trim_left s)

cons_word : Bytes → List Bytes → List Bytes
cons_word [] words = words
cons_word (c ∷ s) words = (c ∷ s) ∷ words

fields_from : ℕ → Bytes → Bytes → List Bytes
fields_from skip [] cur = cons_word cur []
fields_from (suc skip) (c ∷ s) cur = fields_from skip s cur
fields_from zero (c ∷ s) cur = elim (space_width (c ∷ s)) [
  | zero ↦ fields_from 0 s (cur ++ c ∷ [])
  | suc skip ↦ cons_word cur (fields_from skip s [])
]

unfoldable pub fields : Bytes → List Bytes
unfolding fields_from cons_word space_width
fields s = fields_from 0 s []

-- `strings.TrimRight` with a set of ASCII bytes.
unfoldable pub trim_right_set : (ℕ → Bool) → Bytes → Bytes
trim_right_set p [] = []
trim_right_set p (c ∷ s) =
    let rest = trim_right_set p s in if is_empty rest && p c then [] else c ∷ rest

-- `strings.TrimLeft` and `strings.Trim` with a set of ASCII bytes.
unfoldable pub trim_left_set : (ℕ → Bool) → Bytes → Bytes
trim_left_set p [] = []
trim_left_set p (c ∷ s) = let rest = trim_left_set p s in if p c then rest else c ∷ s

unfoldable pub trim_set : (ℕ → Bool) → Bytes → Bytes
unfolding trim_left_set trim_right_set
trim_set p s = trim_right_set p (trim_left_set p s)
