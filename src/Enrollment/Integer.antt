-- ===== src/Enrollment/Integer.antt =====
-- `strconv.ParseInt` and `strconv.FormatInt` in base 10 for 64 bits, as enrollment.go uses them.
use gist.Prelude.{
  ℕ, zero, suc, ◌+◌, ◌*◌, ◌/◌, ◌%◌, ◌^◌, ◌<◌, ◌≡◌, refl, arith, ℤ, pos, negsuc, sub_ℕ, [], ◌∷◌,
  ◌++◌, Bool, true, false, ◌&&◌, ◌||◌, not, ◌==◌, ◌-◌, Option, none, some, leb, ltb, if◌then◌else◌,
  Bool-cases, inl, inr,
}
use gist.Text.{Bytes, is_empty}
use gist.Version.Decimal.{value_from}

unfoldable pub all_digits : Bytes → Bool
all_digits [] = true
all_digits (c ∷ s) = let rest = all_digits s in if leb b'0' c && leb c b'9' then rest else false

-- The number that a text of digits writes, with its sign, if 64 bits hold it.
unfoldable pub parse_magnitude : Bool → Bytes → Option ℤ
unfolding all_digits
parse_magnitude negative s =
    let n = value_from 0 s in
    if is_empty s || not (all_digits s)
    then none
    else if negative
    then if ltb (2 ^ 63) n then none else some (sub_ℕ 0 n)
    else if ltb n (2 ^ 63)
    then some (pos n)
    else none

unfoldable pub parse_int : Bytes → Option ℤ
unfolding parse_magnitude
parse_int [] = none
parse_int (c ∷ s) =
    if c == b'+'
    then parse_magnitude false s
    else if c == b'-'
    then parse_magnitude true s
    else parse_magnitude false (c ∷ s)

-- The digits of a number, the last one by division. `rounds` is fuel.
unfoldable pub digits_of : ℕ → ℕ → Bytes
digits_of zero n = []
digits_of (suc rounds) n =
    let front = digits_of rounds (n / 10) in
    if ltb n 10 then (b'0' + n) ∷ [] else front ++ (b'0' + n % 10) ∷ []

abbrev pub format_ℕ : ℕ → Bytes
format_ℕ n = digits_of (suc n) n

abbrev pub format_int : ℤ → Bytes
format_int (pos n) = format_ℕ n
format_int (negsuc n) = b'-' ∷ format_ℕ (suc n)

value_from-last :
    (m : ℕ) (s : Bytes) (c : ℕ) → value_from m (s ++ c ∷ []) ≡ 10 * value_from m s + (c - 48)
value_from-last m [] c = refl
value_from-last m (d ∷ s) c = value_from-last (10 * m + (d - 48)) s c

-- More rounds than the number are enough to write all its digits.
value_from-digits_of : (rounds n : ℕ) → n < rounds → value_from 0 (digits_of rounds n) ≡ n
unfolding digits_of
value_from-digits_of zero n h = absurd (omega arith)
value_from-digits_of (suc rounds) n h = elim (Bool-cases (ltb n 10)) [
  | inl one ↦ rw one (omega arith)
  | inr more ↦
      let smaller : (n / 10) < rounds = ground arith in
      rw
        (
          more,
          value_from-last 0 (digits_of rounds (n / 10)) (b'0' + n % 10),
          value_from-digits_of rounds (n / 10) smaller,
        )
        (omega arith)
]

-- A text that `FormatInt` wrote says the number.
pub value_from-format_ℕ : (n : ℕ) → value_from 0 (format_ℕ n) ≡ n
value_from-format_ℕ n = value_from-digits_of (suc n) n (omega arith)
