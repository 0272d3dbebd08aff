-- ===== src/Chunk/Structured.antt =====
-- chunk_json.go and chunk_yaml.go: a parsed value is split by its keys and elements. The parsers
-- and `json.Marshal` are parameters. Go ranges over a map in any order; the fields here stand in
-- the order of one such run.
pub mod Data
use gist.Prelude.{
  ℕ, zero, suc, ◌+◌, ◌-◌, ◌/◌, ◌%◌, List, [], ◌∷◌, ◌++◌, Bool, true, false, ◌&&◌, ltb, leb, ◌==◌,
  length, Option, none, some, if◌then◌else◌,
}
use gist.Text.{Bytes, codes, is_empty, join}
use gist.Store.{prose}
use gist.Chunk.Pieces.{ContentChunk, assign_indices, Indexed, assign_indices-Indexed}
use gist.Chunk.Plain.{chunk_plain_text}
use gist.Chunk.Plain.Bounds.{chunk_plain_text-Sized}
use Data.{
  Value, Items, Fields, scalar, text, object, keyed, array, none_left, item, no_fields, field,
  decimal, push_item, count_items, is_splittable, normalize_yaml,
}

-- `encoding/json` and `gopkg.in/yaml.v3`. `none` is an error.
pub record Parsers : Type 0 where
  pub json_unmarshal : Bytes → Option Value
  pub json_marshal : Value → Option Bytes
  pub yaml_unmarshal : Bytes → Option Value
  pub yaml_marshal : Value → Bytes

unfoldable pub value_chunk : Bytes → Bytes → ContentChunk
value_chunk content path = record {
  content = content;
  heading_path = path;
  content_type = prose;
  start_byte = 0;
  end_byte = 0;
  index = 0;
}

abbrev pub path_separator : Bytes
path_separator = codes " > "

-- "[3]" and "[3-5]".
unfoldable pub position_label : ℕ → Bytes
unfolding decimal
position_label i = codes "[" ++ (decimal i ++ codes "]")

unfoldable pub range_label : ℕ → ℕ → Bytes
unfolding position_label
range_label start end =
    if start == end
    then position_label start
    else codes "[" ++ (decimal start ++ (codes "-" ++ (decimal end ++ codes "]")))

module _ (parsers : Parsers) (max_bytes : ℕ) where
  -- `flushArrayChunk`; nothing where the buffer is empty, as its callers test.
  unfoldable pub flush_array_chunk : Items → List Bytes → ℕ → ℕ → List ContentChunk
  unfolding range_label value_chunk
  flush_array_chunk none_left path start end = []
  flush_array_chunk (item x xs) path start end =
      let label = range_label start end in
      elim (parsers.json_marshal (array (item x xs))) [
        | none ↦ []
        | some bytes ↦
            value_chunk bytes (
              if is_empty path
              then label
              else join path path_separator ++ (path_separator ++ label))
            ∷ []
      ]

  -- `single, _ := json.Marshal(...)`: an error leaves no bytes.
  abbrev pub marshalled_length : Value → ℕ
  marshalled_length v = elim (parsers.json_marshal v) [ none ↦ 0 | some bytes ↦ length bytes ]

  unfoldable mutual
    unfolding flush_array_chunk value_chunk position_label

    pub chunk_structured : Value → List Bytes → List ContentChunk
    chunk_structured (scalar s) path = []
    chunk_structured (text s) path = []
    chunk_structured (object fs) path = chunk_fields fs path
    chunk_structured (keyed fs) path = []
    chunk_structured (array xs) path = chunk_array xs path 0 0 none_left

    -- The loop over the keys of an object.
    pub chunk_fields : Fields → List Bytes → List ContentChunk
    chunk_fields no_fields path = []
    chunk_fields (field key child fs) path =
        let child_path = path ++ key ∷ [] in
        let nested = chunk_structured child child_path in
        let rest = chunk_fields fs path in
        elim (parsers.json_marshal (object (field key child no_fields))) [
          | none ↦ rest
          | some bytes ↦
              (if leb (length bytes) max_bytes
                then value_chunk bytes (join child_path path_separator) ∷ []
                else if is_splittable child
                then nested
                else value_chunk bytes (join child_path path_separator) ∷ [])
              ++ rest
        ]

    -- The loop over the elements of an array, from position `i`.
    pub chunk_array : Items → List Bytes → ℕ → ℕ → Items → List ContentChunk
    chunk_array none_left path i start buf = flush_array_chunk buf path start (i - 1)
    chunk_array (item x xs) path i start buf =
        let nested = chunk_structured x (path ++ position_label i ∷ []) in
        elim (parsers.json_marshal (array (push_item buf x))) [
          | none ↦ chunk_array xs path (i + 1) start buf
          | some bytes ↦
              let over = ltb max_bytes (length bytes) && ltb 0 (count_items buf) in
              let buf' = if over then item x none_left else push_item buf x in
              let splits =
                count_items buf' == 1
                && (ltb max_bytes (marshalled_length (array (item x none_left)))
                    && is_splittable x) in
              (if over then flush_array_chunk buf path start (i - 1) else [])
              ++ ((if splits then nested else [])
                  ++ chunk_array xs path (i + 1)
                      (if splits then i + 1 else if over then i else start)
                      (if splits then none_left else buf'))
        ]

-- What both splitters do with the parsed value, or with the lack of one.
unfoldable pub or_plain : Parsers → Bytes → ℕ → Option Value → List ContentChunk
unfolding chunk_structured value_chunk assign_indices
or_plain parsers content max_bytes none = chunk_plain_text content max_bytes
or_plain parsers content max_bytes (some v) =
    let chunks = chunk_structured parsers max_bytes v [] in
    assign_indices 0 (if is_empty chunks then value_chunk content [] ∷ [] else chunks)

unfoldable pub chunk_json : Parsers → Bytes → ℕ → List ContentChunk
unfolding or_plain
chunk_json parsers content max_bytes =
    or_plain parsers content max_bytes (parsers.json_unmarshal content)

abbrev normalized : Parsers → Option Value → Option Value
normalized parsers none = none
normalized parsers (some v) = some (normalize_yaml parsers.yaml_marshal v)

unfoldable pub chunk_yaml : Parsers → Bytes → ℕ → List ContentChunk
unfolding or_plain normalize_yaml
chunk_yaml parsers content max_bytes =
    or_plain parsers content max_bytes (normalized parsers (parsers.yaml_unmarshal content))

pub or_plain-Indexed :
    (parsers : Parsers) (content : Bytes) (max_bytes : ℕ) (v : Option Value)
    → Indexed 0 (or_plain parsers content max_bytes v)
unfolding or_plain
or_plain-Indexed parsers content max_bytes none = (chunk_plain_text-Sized content max_bytes).1
or_plain-Indexed parsers content max_bytes (some v) = assign_indices-Indexed 0 _
