-- ===== src/Chunk/Tests.antt =====
-- The theorems about chunking by format at concrete inputs.
use gist.Prelude.{◌≡◌, refl, List, [], ◌∷◌, map, none, some}
use gist.Text.{Bytes, codes, join}
use gist.Chunk.Sections.{Heading}
use gist.Chunk.Structured.{Parsers, chunk_json}
use gist.Chunk.Structured.Data.{
  Value, scalar, text, object, keyed, no_fields, field, no_keys, key, decimal,
}

abbrev no_headings : Bytes → List Heading
no_headings s = []

abbrev two_keys : Value
two_keys =
    object
      (field (codes "a") (scalar (codes "1")) (field (codes "b") (scalar (codes "2")) no_fields))

-- Parsers that know one document, and print every value alike.
abbrev one_document : Parsers
one_document = record {
  json_unmarshal = λ s. some two_keys;
  json_marshal = λ v. some (codes "{..}");
  yaml_unmarshal = λ s. none;
  yaml_marshal = λ v. codes "k\n";
}

chunk_json_runs :
    map (λ c. c.heading_path) (chunk_json one_document (codes "{}") 10) ≡ codes "a" ∷ codes "b" ∷ []
unfolding chunk_json join
chunk_json_runs = refl

decimal_runs : decimal 2047 ≡ codes "2047"
unfolding decimal
decimal_runs = refl

abbrev number_keyed : Value
number_keyed = keyed (key (scalar (codes "1")) (text (codes "one")) no_keys)
