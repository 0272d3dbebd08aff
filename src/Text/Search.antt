-- ===== src/Text/Search.antt =====
-- `strings.HasPrefix`, `Contains`, `Index`, `Split` and `Join`.
use gist.Prelude.{
  ℕ, zero, suc, ◌-◌, List, [], ◌∷◌, ◌++◌, Bool, true, false, ◌&&◌, ◌||◌, Option, none, some, ◌==◌,
  length, if◌then◌else◌,
}

abbrev pub Bytes : Type 0
Bytes = List ℕ

abbrev pub is_empty {ℓ} : {A : Type ℓ} → List A → Bool
is_empty [] = true
is_empty (x ∷ xs) = false

-- `a == b` on strings.
unfoldable pub bytes_eq : Bytes → Bytes → Bool
bytes_eq [] [] = true
bytes_eq [] (c ∷ t) = false
bytes_eq (b ∷ s) [] = false
bytes_eq (b ∷ s) (c ∷ t) = b == c && bytes_eq s t

unfoldable pub has_prefix : Bytes → Bytes → Bool
has_prefix s [] = true
has_prefix [] (p ∷ ps) = false
has_prefix (c ∷ s) (p ∷ ps) = c == p && has_prefix s ps

unfoldable pub contains : Bytes → Bytes → Bool
contains [] p = has_prefix [] p
contains (c ∷ s) p = has_prefix (c ∷ s) p || contains s p

-- The position of the first occurrence.
unfoldable pub index : Bytes → Bytes → Option ℕ
index [] p = if has_prefix [] p then some 0 else none
index (c ∷ s) p = elim (has_prefix (c ∷ s) p) [
  | true ↦ some 0
  | false ↦ elim (index s p) [ none ↦ none | some i ↦ some (suc i) ]
]

-- `strings.IndexByte`.
unfoldable pub index_byte : Bytes → ℕ → Option ℕ
index_byte [] b = none
index_byte (c ∷ s) b = elim (c == b) [
  | true ↦ some 0
  | false ↦ elim (index_byte s b) [ none ↦ none | some i ↦ some (suc i) ]
]

-- The text is cut at each separator. `skip` counts the bytes of a separator still to pass.
split_from : (sep s : Bytes) (skip : ℕ) (cur : Bytes) → List Bytes
split_from sep [] skip cur = cur ∷ []
split_from sep (c ∷ s) (suc skip) cur = split_from sep s skip cur
split_from sep (c ∷ s) zero cur = elim (has_prefix (c ∷ s) sep) [
  | true ↦ cur ∷ split_from sep s (length sep - 1) []
  | false ↦ split_from sep s 0 (cur ++ c ∷ [])
]

-- `strings.Split` for a separator that is not empty.
unfoldable pub split : Bytes → Bytes → List Bytes
unfolding split_from has_prefix
split s sep = split_from sep s 0 []

unfoldable pub join : List Bytes → Bytes → Bytes
join [] sep = []
join (p ∷ []) sep = p
join (p ∷ q ∷ ps) sep = p ++ (sep ++ join (q ∷ ps) sep)
