-- ===== src/Version/Decimal.antt =====
-- semver.go: `compareNumeric` beside the numbers that its arguments write.
use Prim.Native.Nat.{compare}
use gist.Prelude.{
  ℕ, ◌+◌, ◌-◌, ◌*◌, ◌≤◌, ◌<◌, ◌≡◌, refl, [], ◌∷◌, arith, length, All, leb, Bool-cases, inl, inr,
}
use gist.Text.{Bytes, trim_left_set}
use gist.Compare.{or_then}
use gist.Version.{is_zero, compare_bytes, compare_int, compare_numeric}

-- The number that digits write, behind a number already read.
abbrev pub value_from : ℕ → Bytes → ℕ
value_from n [] = n
value_from n (c ∷ s) = value_from (10 * n + (c - 48)) s

abbrev pub IsDigits : Bytes → Type 0
IsDigits = All (λ c. (48 ≤ c) × (c ≤ 57))

-- Of two texts of one length the one with the greater number in front is the greater.
value_from-less :
    (m n : ℕ) (s t : Bytes)
    → IsDigits s
    → IsDigits t
    → length s ≡ length t
    → m < n
    → value_from m s < value_from n t
value_from-less m n [] [] hs ht e h = h
value_from-less m n [] (d ∷ t) hs ht e h = absurd (omega arith)
value_from-less m n (c ∷ s) [] hs ht e h = absurd (omega arith)
value_from-less m n (c ∷ s) (d ∷ t) hs ht e h =
    value_from-less (10 * m + (c - 48)) (10 * n + (d - 48)) s t hs.1 ht.1 (omega arith)
      (omega (arith, hs.0.0, hs.0.1, ht.0.0, ht.0.1))

-- A longer text behind a positive number is the greater.
value_from-longer :
    (n : ℕ) (s t : Bytes)
    → IsDigits s
    → IsDigits t
    → length s ≤ length t
    → 0 < n
    → value_from 0 s < value_from n t
value_from-longer n s [] hs ht e h = value_from-less 0 n s [] hs ht (omega arith) h
value_from-longer n s (d ∷ t) hs ht e h = elim (Bool-cases (leb (length s) (length t))) [
  | inl shorter ↦ value_from-longer (10 * n + (d - 48)) s t hs ht.1 (ground arith) (omega arith)
  | inr same ↦ value_from-less 0 n s (d ∷ t) hs ht (ground arith) h
]

-- Two texts of one length compare as their numbers do.
compare-value_from :
    (n : ℕ) (s t : Bytes)
    → IsDigits s
    → IsDigits t
    → length s ≡ length t
    → compare (value_from n s) (value_from n t) ≡ compare_bytes s t
unfolding compare_bytes
compare-value_from n [] [] hs ht e = ground arith
compare-value_from n [] (d ∷ t) hs ht e = absurd (omega arith)
compare-value_from n (c ∷ s) [] hs ht e = absurd (omega arith)
compare-value_from n (c ∷ s) (d ∷ t) hs ht e = ground (
  arith,
  hs.0,
  ht.0,
  compare-value_from (10 * n + (c - 48)) s t hs.1 ht.1,
  value_from-less (10 * n + (c - 48)) (10 * n + (d - 48)) s t hs.1 ht.1,
  value_from-less (10 * n + (d - 48)) (10 * n + (c - 48)) t s ht.1 hs.1,
)

-- Leading zeros do not count.
value_from-trimmed : (s : Bytes) → value_from 0 (trim_left_set is_zero s) ≡ value_from 0 s
unfolding trim_left_set
value_from-trimmed [] = refl
value_from-trimmed (c ∷ s) = ground (arith, value_from-trimmed s)

trimmed-IsDigits : (s : Bytes) → IsDigits s → IsDigits (trim_left_set is_zero s)
unfolding trim_left_set
trimmed-IsDigits [] h = tt
trimmed-IsDigits (c ∷ s) h = elim (Bool-cases (is_zero c)) [
  | inl zeros ↦ rw zeros (trimmed-IsDigits s h.1)
  | inr other ↦ rw other h
]

-- A text with no leading zero: empty, or with a positive digit in front.
abbrev IsTrimmed : Bytes → Type 0
IsTrimmed [] = Unit {0}
IsTrimmed (c ∷ s) = c ≡ 48 → ⊥

cut_zeros-IsTrimmed : (s : Bytes) → IsTrimmed (trim_left_set is_zero s)
unfolding trim_left_set
cut_zeros-IsTrimmed [] = tt
cut_zeros-IsTrimmed (c ∷ s) = elim (Bool-cases (is_zero c)) [
  | inl zeros ↦ rw zeros (cut_zeros-IsTrimmed s)
  | inr other ↦ rw other (λ e. ground arith)
]

shorter-less :
    (s t : Bytes)
    → IsDigits s
    → IsDigits t
    → IsTrimmed t
    → length s < length t
    → value_from 0 s < value_from 0 t
shorter-less s [] hs ht k h = absurd (omega arith)
shorter-less s (d ∷ t) hs ht k h =
    value_from-longer (10 * 0 + (d - 48)) s t hs ht.1 (omega arith) (positive d k ht.0)
  where
    positive : (d : ℕ) → (d ≡ 48 → ⊥) → (48 ≤ d) × (d ≤ 57) → 0 < 10 * 0 + (d - 48)
    positive d k h = ground (arith, k)

compare-trimmed :
    (s t : Bytes)
    → IsDigits s
    → IsDigits t
    → IsTrimmed s
    → IsTrimmed t
    → or_then (compare_int (length s) (length t)) (compare_bytes s t)
      ≡ compare (value_from 0 s) (value_from 0 t)
unfolding compare_int
compare-trimmed s t hs ht ks kt =
    ground
      (arith, shorter-less s t hs ht kt, shorter-less t s ht hs ks, compare-value_from 0 s t hs ht)

-- On texts of decimal digits, of any length and with any leading zeros, `compareNumeric` compares
-- the numbers that they write.
pub compare_numeric-compare :
    (a b : Bytes)
    → IsDigits a
    → IsDigits b
    → compare_numeric a b ≡ compare (value_from 0 a) (value_from 0 b)
unfolding compare_numeric
compare_numeric-compare a b ha hb =
    rw (← value_from-trimmed a, ← value_from-trimmed b)
      (compare-trimmed (trim_left_set is_zero a) (trim_left_set is_zero b) (trimmed-IsDigits a ha)
        (trimmed-IsDigits b hb) (cut_zeros-IsTrimmed a) (cut_zeros-IsTrimmed b))
