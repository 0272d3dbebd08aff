-- ===== src/Lexical.antt =====
-- internal/cataloglexical/lexical.go: the terms of a text, and how well a document matches a query.
-- A set of terms is the list of them. `strings.ToLower` and the cut of a text at what is no letter
-- and no digit rest on Unicode's tables and are parameters, and so is the decoding of JSON.
mod Terms
pub mod Scores
mod Tests
use Prim.Native.Nat.{Ordering, compare}
use gist.Prelude.{
  ℕ, zero, suc, ◌+◌, ◌-◌, List, [], ◌∷◌, ◌++◌, Bool, true, false, ◌&&◌, ◌||◌, Option, none, some,
  ◌==◌, leb, ltb, length, take, drop, if◌then◌else◌, not, map,
}
use gist.Text.{Bytes, codes, bytes_eq, is_empty, trim_space}
use gist.Compare.{or_then}

abbrev pub weight_name : ℕ
weight_name = 3

abbrev pub weight_taxonomy : ℕ
weight_taxonomy = 2

abbrev pub weight_description : ℕ
weight_description = 1

unfoldable pub has_text : List Bytes → Bytes → Bool
has_text [] t = false
has_text (u ∷ us) t = let rest = has_text us t in if bytes_eq u t then true else rest

abbrev pub stopwords : List Bytes
stopwords = map codes (
    "a" ∷ "an" ∷ "and" ∷ "are" ∷ "as" ∷ "at" ∷ "be" ∷ "by" ∷ "for" ∷ "from" ∷ "in" ∷ "into" ∷ "is"
    ∷ "it" ∷ "its" ∷ "of" ∷ "on" ∷ "or" ∷ "that" ∷ "the" ∷ "these" ∷ "this" ∷ "those" ∷ "through"
    ∷ "to" ∷ "via" ∷ "with" ∷ "without" ∷ [])

-- A suffix and what stands in its place.
pub record Suffix : Type 0 where
  pub suffix : Bytes
  pub replacement : Bytes

abbrev suffix_of : Bytes → Bytes → Suffix
suffix_of s r = record { suffix = s; replacement = r }

unfoldable pub suffixes : List Suffix
suffixes =
    suffix_of (codes "sses") (codes "ss")
    ∷ suffix_of (codes "ies") (codes "y")
    ∷ suffix_of (codes "ational") (codes "ate")
    ∷ suffix_of (codes "ation") (codes "ate")
    ∷ suffix_of (codes "ing") []
    ∷ suffix_of (codes "ed") []
    ∷ suffix_of (codes "er") []
    ∷ suffix_of (codes "s") []
    ∷ []

-- `strings.HasSuffix`.
unfoldable pub has_suffix : Bytes → Bytes → Bool
has_suffix w s = leb (length s) (length w) && bytes_eq (drop (length w - length s) w) s

unfoldable pub keeps_final_s : Bytes → Suffix → Bool
unfolding has_suffix
keeps_final_s w s =
    bytes_eq s.suffix (codes "s")
    && (has_suffix w (codes "ss") || has_suffix w (codes "us") || has_suffix w (codes "is"))

-- The loop over the table: the first suffix that the word ends in decides.
unfoldable pub strip : Bytes → List Suffix → Bytes
unfolding keeps_final_s
strip w [] = w
strip w (s ∷ ss) =
    let rest = strip w ss in
    let base = take (length w - length s.suffix) w ++ s.replacement in
    if has_suffix w s.suffix
    then if keeps_final_s w s then w else if leb 3 (length base) then base else w
    else rest

unfoldable pub stem : Bytes → Bytes
stem w =
    if leb (length w) 3
    then w
    else let v = strip w suffixes in
      if ltb 3 (length v) && has_suffix v (codes "e") then take (length v - 1) v else v

unfoldable pub stems_of : List Bytes → List Bytes
unfolding stem has_text
stems_of [] = []
stems_of (w ∷ ws) = let rest = stems_of ws in if has_text stopwords w then rest else stem w ∷ rest

-- The loop of `Query`, over the terms still to come; `out` holds those seen.
unfoldable pub distinct_terms : List Bytes → List Bytes → List Bytes
unfolding has_text
distinct_terms [] out = out
distinct_terms (t ∷ ts) out = distinct_terms ts (if has_text out t then out else out ++ t ∷ [])

pub record Document : Type 0 where
  pub id : Bytes
  pub logical_name : Bytes
  pub kind : Bytes
  pub capabilities : List Bytes
  pub taxonomy : List Bytes
  pub description : Bytes

-- An entry of `required_capabilities`: a text, an object with its `id`, or neither.
pub data RequiredCapability : Type 0 where
  by_name by_object : Bytes → RequiredCapability
  undecodable : RequiredCapability

pub record Metadata : Type 0 where
  pub logical_name : Bytes
  pub summary : Bytes
  pub description : Bytes
  pub tags : List Bytes
  pub taxonomy : List Bytes
  pub required_capabilities : List RequiredCapability
  pub capability_ref : Bytes

abbrev pub empty_metadata : Metadata
empty_metadata = record {
  logical_name = [];
  summary = [];
  description = [];
  tags = [];
  taxonomy = [];
  required_capabilities = [];
  capability_ref = [];
}

-- `strings.LastIndex` of "@".
unfoldable pub last_at : Bytes → Option ℕ
last_at [] = none
last_at (c ∷ s) = elim (last_at s) [
  | none ↦ if c == b'@' then some 0 else none
  | some i ↦ some (suc i)
]

unfoldable pub unpin : Bytes → Bytes
unfolding last_at
unpin ref = elim (last_at ref) [ none ↦ ref | some zero ↦ ref | some (suc i) ↦ take (suc i) ref ]

unfoldable pub capability_ids : List RequiredCapability → Option (List Bytes)
unfolding unpin
capability_ids [] = some []
capability_ids (undecodable ∷ cs) = none
capability_ids (by_name id ∷ cs) = elim (capability_ids cs) [
  | none ↦ none
  | some ids ↦ some (unpin id ∷ ids)
]
capability_ids (by_object id ∷ cs) = elim (capability_ids cs) [
  | none ↦ none
  | some ids ↦ some (unpin id ∷ ids)
]

abbrev pub document_of : Bytes → Bytes → Metadata → List Bytes → Document
document_of kind id m ids = record {
  id = id;
  logical_name = m.logical_name;
  kind = kind;
  capabilities = ids ++ elim m.capability_ref [ [] ↦ [] | c ∷ s ↦ unpin (c ∷ s) ∷ [] ];
  taxonomy = m.tags ++ m.taxonomy;
  description = trim_space (m.summary ++ codes " " ++ m.description);
}

abbrev pub read_metadata : (Bytes → Option Metadata) → Bytes → Option Metadata
read_metadata decode raw = if is_empty raw then some empty_metadata else decode raw

unfoldable pub document_of_decoded : Bytes → Bytes → Option Metadata → Option Document
unfolding capability_ids trim_space
document_of_decoded kind id none = none
document_of_decoded kind id (some m) = elim (capability_ids m.required_capabilities) [
  | none ↦ none
  | some ids ↦ some (document_of kind id m ids)
]

-- `decode` is `json.Unmarshal` into the metadata, `none` where it gives an error.
unfoldable pub document_from_metadata :
    (Bytes → Option Metadata) → Bytes → Bytes → Bytes → Option Document
unfolding document_of_decoded
document_from_metadata decode kind id raw = document_of_decoded kind id (read_metadata decode raw)

pub record Match : Type 0 where
  pub terms : ℕ
  pub weight : ℕ

abbrev pub no_match : Match
no_match = record { terms = 0; weight = 0 }

unfoldable pub matched : Match → Bool
matched m = ltb 0 m.terms

-- The sign of `Better`: `gt` where the first match is the better one.
unfoldable pub better : Match → Match → Ordering
better m o = or_then (compare m.terms o.terms) (compare m.weight o.weight)

-- The terms of the three fields.
pub record Index : Type 0 where
  pub names : List Bytes
  pub classes : List Bytes
  pub prose : List Bytes

-- What a term adds: the weight of the first field that holds it, 0 where none does.
unfoldable pub weight_of : Index → Bytes → ℕ
unfolding has_text
weight_of ix t =
    if has_text ix.names t
    then weight_name
    else if has_text ix.classes t
    then weight_taxonomy
    else if has_text ix.prose t
    then weight_description
    else 0

abbrev pub count_term : ℕ → Match → Match
count_term zero m = m
count_term (suc w) m = record { terms = m.terms + 1; weight = m.weight + suc w }

unfoldable pub score_from : Index → List Bytes → Match → Match
unfolding weight_of
score_from ix [] m = m
score_from ix (t ∷ ts) m = score_from ix ts (count_term (weight_of ix t) m)

unfoldable pub index_score : Index → List Bytes → Match
unfolding score_from
index_score ix ts = score_from ix ts no_match

module _ (to_lower : Bytes → Bytes) (words : Bytes → List Bytes) where
  unfoldable pub terms_of : Bytes → List Bytes
  unfolding stems_of
  terms_of text = stems_of (words (to_lower text))

  unfoldable pub query_of : Bytes → List Bytes
  unfolding distinct_terms terms_of
  query_of text = distinct_terms (terms_of text) []

  unfoldable pub add_texts : List Bytes → List Bytes
  unfolding terms_of
  add_texts [] = []
  add_texts (t ∷ ts) = terms_of t ++ add_texts ts

  unfoldable pub new_index : Document → Index
  unfolding add_texts
  new_index d = record {
    names = add_texts (d.id ∷ d.logical_name ∷ []);
    classes = add_texts (d.kind ∷ []) ++ (add_texts d.capabilities ++ add_texts d.taxonomy);
    prose = add_texts (d.description ∷ []);
  }

  unfoldable pub score : Bytes → Document → Match
  unfolding query_of new_index index_score
  score query d = index_score (new_index d) (query_of query)
