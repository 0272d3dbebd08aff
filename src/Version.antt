-- ===== src/Version.antt =====
-- hosted/internal/storage/semver.go: the order of SemVer versions.
pub mod Order
pub mod Decimal
pub mod Store
mod Tests
use Prim.Native.Nat.{Ordering}
use gist.Prelude.{
  ℕ, suc, ◌-◌, List, [], ◌∷◌, Bool, true, false, ◌&&◌, Option, none, some, ◌==◌, leb, ltb, length,
  take, drop, if◌then◌else◌, not,
}
use gist.Text.{Bytes, codes, is_empty, index_byte, split, trim_set, trim_left_set, trim_right_set}
use gist.Compare.{or_then}

abbrev pub is_digit : ℕ → Bool
is_digit c = leb b'0' c && leb c b'9'

abbrev pub is_zero : ℕ → Bool
is_zero c = c == b'0'

-- `strings.Compare`.
unfoldable pub compare_bytes : Bytes → Bytes → Ordering
compare_bytes [] [] = Ordering.eq
compare_bytes [] (c ∷ t) = Ordering.lt
compare_bytes (b ∷ s) [] = Ordering.gt
compare_bytes (b ∷ s) (c ∷ t) =
    let rest = compare_bytes s t in
    if b == c then rest else if ltb b c then Ordering.lt else Ordering.gt

unfoldable pub compare_int : ℕ → ℕ → Ordering
compare_int a b = if ltb a b then Ordering.lt else if ltb b a then Ordering.gt else Ordering.eq

unfoldable pub is_numeric : Bytes → Bool
unfolding trim_set
is_numeric s = if is_empty s then false else is_empty (trim_set is_digit s)

unfoldable pub compare_numeric : Bytes → Bytes → Ordering
unfolding compare_bytes compare_int trim_left_set
compare_numeric a b =
    let s = trim_left_set is_zero a in
    let t = trim_left_set is_zero b in
    or_then (compare_int (length s) (length t)) (compare_bytes s t)

unfoldable pub compare_identifier : Bytes → Bytes → Ordering
unfolding is_numeric compare_numeric
compare_identifier a b =
    if is_numeric a && is_numeric b
    then compare_numeric a b
    else if is_numeric a
    then Ordering.lt
    else if is_numeric b
    then Ordering.gt
    else compare_bytes a b

-- The loop over both lists, and what is returned behind it.
unfoldable pub compare_identifiers : Ordering → List Bytes → List Bytes → Ordering
compare_identifiers last [] bs = last
compare_identifiers last (a ∷ as') [] = last
compare_identifiers last (a ∷ as') (b ∷ bs) =
    or_then (compare_identifier a b) (compare_identifiers last as' bs)

unfoldable pub compare_prerelease : List Bytes → List Bytes → Ordering
unfolding compare_identifiers compare_int
compare_prerelease a b =
    if is_empty a && is_empty b
    then Ordering.eq
    else if is_empty a
    then Ordering.gt
    else if is_empty b
    then Ordering.lt
    else compare_identifiers (compare_int (length a) (length b)) a b

-- The three numbers of the core, and the identifiers of the pre-release.
pub record Semver : Type 0 where
  pub major : Bytes
  pub minor : Bytes
  pub patch : Bytes
  pub pre : List Bytes

-- The loop over the parts of the core: there are three, and all are numeric.
unfoldable pub core_of : List Bytes → List Bytes → Option Semver
unfolding is_numeric
core_of pre (major ∷ minor ∷ patch ∷ []) =
    if is_numeric major && (is_numeric minor && is_numeric patch)
    then some (record { major = major; minor = minor; patch = patch; pre = pre })
    else none
core_of pre parts = none

-- The text before the build metadata.
unfoldable pub without_build : Bytes → Bytes
without_build v = elim (index_byte v b'+') [ none ↦ v | some i ↦ take i v ]

unfoldable pub parse_semver : Bytes → Option Semver
unfolding core_of without_build index_byte split
parse_semver text =
    let v = without_build text in
    elim (index_byte v b'-') [
      | none ↦ core_of [] (split v (codes "."))
      | some i ↦
          if i == length v - 1
          then none
          else core_of (split (drop (suc i) v) (codes ".")) (split (take i v) (codes "."))
    ]

unfoldable pub compare_parsed : Semver → Semver → Ordering
unfolding compare_numeric compare_prerelease
compare_parsed a b = or_then (compare_numeric a.major b.major) (
    or_then (compare_numeric a.minor b.minor)
      (or_then (compare_numeric a.patch b.patch) (compare_prerelease a.pre b.pre)))

-- By what the two parses gave.
unfoldable pub compare_results : Option Semver → Option Semver → Bytes → Bytes → Ordering
unfolding compare_parsed compare_bytes
compare_results none none a b = compare_bytes a b
compare_results none (some q) a b = Ordering.gt
compare_results (some p) none a b = Ordering.lt
compare_results (some p) (some q) a b = compare_parsed p q

unfoldable pub compare_semver : Bytes → Bytes → Ordering
unfolding compare_results parse_semver
compare_semver a b = compare_results (parse_semver a) (parse_semver b) a b
