-- ===== src/Resolution/References.antt =====
-- catalog/resolution/resolve.go: references written as text, digests, and the pins of records.
use gist.Prelude.{
  ℕ, [], ◌∷◌, ◌++◌, Bool, true, false, ◌&&◌, ◌||◌, Option, none, some, ◌==◌, leb, length,
  if◌then◌else◌, not,
}
use gist.Text.{Bytes, codes, is_empty, bytes_eq}
use gist.Catalog.{ArtifactRef, Digest, CatalogRecord, kind_skill}

pub record ArtifactPin : Type 0 where
  pub reference : Bytes
  pub kind : Bytes
  pub digest : Digest
  pub manifest_digest : Digest

abbrev pub at_sign : ℕ
at_sign = b'@'

-- `strings.Cut` at the first "@": the parts before and behind it.
unfoldable pub cut_at : Bytes → Option (Bytes × Bytes)
cut_at [] = none
cut_at (c ∷ s) = elim (c == at_sign) [
  | true ↦ some ([], s)
  | false ↦ elim (cut_at s) [ none ↦ none | some (a, b) ↦ some (c ∷ a, b) ]
]

unfoldable pub capability_ref : ArtifactRef → Bytes
capability_ref r = r.id ++ at_sign ∷ r.version

-- The parts of a text that `Cut` gives where it has no "@", too.
unfoldable pub port_ref : Bytes → ArtifactPin → ArtifactRef
unfolding cut_at
port_ref workspace p = elim (cut_at p.reference) [
  | none ↦ record { workspace_id = workspace; kind = p.kind; id = p.reference; version = [] }
  | some (id, version) ↦ record {
    workspace_id = workspace;
    kind = p.kind;
    id = id;
    version = version;
  }
]

unfoldable pub has_at : Bytes → Bool
has_at [] = false
has_at (c ∷ s) = let rest = has_at s in if c == at_sign then true else rest

-- The parts of a reference, if they are complete.
unfoldable pub exact_ref : Bytes → Bytes → Bytes → Bytes → Option ArtifactRef
unfolding has_at
exact_ref workspace kind id version =
    if is_empty id || (is_empty version || has_at version)
    then none
    else some (record { workspace_id = workspace; kind = kind; id = id; version = version })

unfoldable pub parse_ref : Bytes → Bytes → Bytes → Option ArtifactRef
unfolding cut_at exact_ref
parse_ref workspace kind value = elim (cut_at value) [
  | none ↦ none
  | some (id, version) ↦ exact_ref workspace kind id version
]

-- A digit that `hex.DecodeString` accepts.
abbrev pub is_hex : ℕ → Bool
is_hex c = (leb b'0' c && leb c b'9') || ((leb b'a' c && leb c b'f') || (leb b'A' c && leb c b'F'))

unfoldable pub all_hex : Bytes → Bool
all_hex [] = true
all_hex (c ∷ s) = let rest = all_hex s in if is_hex c then rest else false

module _ (to_lower : Bytes → Bytes) where
  unfoldable pub valid_digest : Digest → Bool
  unfolding all_hex
  valid_digest d =
      bytes_eq d.algorithm (codes "sha256")
      && (length d.value == 64 && (bytes_eq (to_lower d.value) d.value && all_hex d.value))

  module _ (sha256_hex : Bytes → Bytes) where
    unfoldable pub document_metadata_alias : CatalogRecord → Option Digest
    document_metadata_alias r =
        if valid_digest r.document_digest
          && bytes_eq (sha256_hex r.metadata) r.document_digest.value
        then some r.document_digest
        else none

    -- The manifest digest of a record, or the digest of its document in its place.
    unfoldable pub with_alias : CatalogRecord → CatalogRecord
    unfolding document_metadata_alias
    with_alias r =
        if not (valid_digest r.manifest_digest) && not (bytes_eq r.ref.kind kind_skill)
        then elim (document_metadata_alias r) [
          | none ↦ r
          | some alias ↦ record r { manifest_digest = alias }
        ]
        else r

    abbrev pub pin_of : CatalogRecord → ArtifactPin
    pin_of r = record {
      reference = capability_ref r.ref;
      kind = r.ref.kind;
      digest = r.digest;
      manifest_digest = r.manifest_digest;
    }

    unfoldable pub pin : CatalogRecord → Option ArtifactPin
    unfolding with_alias capability_ref
    pin r =
        let r' = with_alias r in
        if not (valid_digest r'.digest) || not (valid_digest r'.manifest_digest)
        then none
        else some (pin_of r')
