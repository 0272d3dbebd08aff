-- ===== src/Chunk/Structured/Data.antt =====
-- The values that the parsers of JSON and YAML return, and `normalizeYAML`.
use gist.Prelude.{
  ℕ, zero, suc, ◌+◌, ◌/◌, ◌%◌, [], ◌∷◌, ◌++◌, Bool, true, false, ◌==◌, ltb, if◌then◌else◌,
  Bool-cases, inl, inr,
}
use gist.Text.{Bytes, bytes_eq}

-- `scalar` is a string or a primitive, with a mark for strings; `object` is `map[string]any` and
-- `keyed` is `map[any]any`, which only the YAML parser returns.
mutual
  pub data Value : Type 0 where
    scalar : Bytes → Value
    text : Bytes → Value
    object : Fields → Value
    keyed : Keyed → Value
    array : Items → Value

  pub data Items : Type 0 where
    none_left : Items
    item : Value → Items → Items

  pub data Fields : Type 0 where
    no_fields : Fields
    field : Bytes → Value → Fields → Fields

  pub data Keyed : Type 0 where
    no_keys : Keyed
    key : Value → Value → Keyed → Keyed

-- `%d`, on fuel: every division by ten makes the number smaller.
decimal_from : ℕ → ℕ → Bytes
decimal_from zero n = []
decimal_from (suc fuel) n =
    let front = decimal_from fuel (n / 10) in
    (if ltb n 10 then [] else front) ++ (b'0' + n % 10) ∷ []

unfoldable pub decimal : ℕ → Bytes
unfolding decimal_from
decimal n = decimal_from (suc n) n

abbrev pub push_item : Items → Value → Items
push_item none_left v = item v none_left
push_item (item x xs) v = item x (push_item xs v)

abbrev pub count_items : Items → ℕ
count_items none_left = 0
count_items (item x xs) = suc (count_items xs)

-- A map with string keys or an array, and not empty.
abbrev pub is_splittable : Value → Bool
is_splittable (object (field k v fs)) = true
is_splittable (array (item x xs)) = true
is_splittable _ = false

-- `m[k] = v`.
unfoldable pub set_field : Bytes → Value → Fields → Fields
set_field k v no_fields = field k v no_fields
set_field k v (field j w fs) = if bytes_eq j k then field j v fs else field j w (set_field k v fs)

abbrev pub trim_newline : Bytes → Bytes
trim_newline [] = []
trim_newline (c ∷ []) = if c == 10 then [] else c ∷ []
trim_newline (b ∷ c ∷ s) = b ∷ trim_newline (c ∷ s)

module _ (yaml_marshal : Value → Bytes) where
  -- `stringify`; a key that is a string is taken as it is.
  unfoldable pub stringify : Value → Bytes
  stringify (text s) = s
  stringify (scalar s) = trim_newline (yaml_marshal (scalar s))
  stringify (object fs) = trim_newline (yaml_marshal (object fs))
  stringify (keyed fs) = trim_newline (yaml_marshal (keyed fs))
  stringify (array xs) = trim_newline (yaml_marshal (array xs))

  unfoldable mutual
    unfolding set_field stringify

    pub normalize_yaml : Value → Value
    normalize_yaml (scalar s) = scalar s
    normalize_yaml (text s) = text s
    normalize_yaml (object fs) = object (normalize_fields fs)
    normalize_yaml (keyed fs) = object (normalize_keyed fs no_fields)
    normalize_yaml (array xs) = array (normalize_items xs)

    pub normalize_fields : Fields → Fields
    normalize_fields no_fields = no_fields
    normalize_fields (field k v fs) = field k (normalize_yaml v) (normalize_fields fs)

    -- The loop over the keys, with the map that is built.
    pub normalize_keyed : Keyed → Fields → Fields
    normalize_keyed no_keys out = out
    normalize_keyed (key k v fs) out =
        normalize_keyed fs (set_field (stringify k) (normalize_yaml v) out)

    pub normalize_items : Items → Items
    normalize_items none_left = none_left
    normalize_items (item x xs) = item (normalize_yaml x) (normalize_items xs)

-- No map with other keys than strings is left.
mutual
  pub IsStringKeyed : Value → Type 0
  IsStringKeyed (scalar s) = Unit
  IsStringKeyed (text s) = Unit
  IsStringKeyed (object fs) = AllFields fs
  IsStringKeyed (keyed fs) = ⊥
  IsStringKeyed (array xs) = AllItems xs

  pub AllFields : Fields → Type 0
  AllFields no_fields = Unit
  AllFields (field k v fs) = IsStringKeyed v × AllFields fs

  pub AllItems : Items → Type 0
  AllItems none_left = Unit
  AllItems (item x xs) = IsStringKeyed x × AllItems xs

set_field-AllFields :
    (k : Bytes) (v : Value) (fs : Fields)
    → IsStringKeyed v
    → AllFields fs
    → AllFields (set_field k v fs)
unfolding set_field IsStringKeyed
set_field-AllFields k v no_fields h hs = (h, tt)
set_field-AllFields k v (field j w fs) h hs = elim (Bool-cases (bytes_eq j k)) [
  | inl same ↦ rw same (h, hs.1)
  | inr other ↦ rw other (hs.0, set_field-AllFields k v fs h hs.1)
]

module _ (yaml_marshal : Value → Bytes) where
  mutual
    unfolding normalize_yaml IsStringKeyed

    normalize_yaml_keys : (v : Value) → IsStringKeyed (normalize_yaml yaml_marshal v)
    normalize_yaml_keys (scalar s) = tt
    normalize_yaml_keys (text s) = tt
    normalize_yaml_keys (object fs) = normalize_fields_keys fs
    normalize_yaml_keys (keyed fs) = normalize_keyed_keys fs no_fields tt
    normalize_yaml_keys (array xs) = normalize_items_keys xs

    normalize_fields_keys : (fs : Fields) → AllFields (normalize_fields yaml_marshal fs)
    normalize_fields_keys no_fields = tt
    normalize_fields_keys (field k v fs) = (normalize_yaml_keys v, normalize_fields_keys fs)

    normalize_keyed_keys :
        (fs : Keyed) (out : Fields)
        → AllFields out
        → AllFields (normalize_keyed yaml_marshal fs out)
    normalize_keyed_keys no_keys out h = h
    normalize_keyed_keys (key k v fs) out h =
        normalize_keyed_keys fs _
          (set_field-AllFields (stringify yaml_marshal k) _ out (normalize_yaml_keys v) h)

    normalize_items_keys : (xs : Items) → AllItems (normalize_items yaml_marshal xs)
    normalize_items_keys none_left = tt
    normalize_items_keys (item x xs) = (normalize_yaml_keys x, normalize_items_keys xs)

  -- A normalised YAML value holds, at any depth, no map but those with string keys.
  pub normalize_yaml-IsStringKeyed : (v : Value) → IsStringKeyed (normalize_yaml yaml_marshal v)
  normalize_yaml-IsStringKeyed v = normalize_yaml_keys v
