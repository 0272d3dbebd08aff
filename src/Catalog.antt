-- ===== src/Catalog.antt =====
-- catalog/ports: the records that the catalog's parts share. A kind is a text, as in the source.
use gist.Prelude.{ℕ, ◌&&◌, Bool, List}
use gist.Text.{Bytes, codes, bytes_eq}

abbrev pub kind_skill : Bytes
kind_skill = codes "skill"

abbrev pub kind_capability : Bytes
kind_capability = codes "capability"

abbrev pub kind_tool : Bytes
kind_tool = codes "tool"

abbrev pub kind_provider : Bytes
kind_provider = codes "provider"

abbrev pub kind_binding : Bytes
kind_binding = codes "binding"

pub record ArtifactRef : Type 0 where
  pub workspace_id : Bytes
  pub kind : Bytes
  pub id : Bytes
  pub version : Bytes

pub record Digest : Type 0 where
  pub algorithm : Bytes
  pub value : Bytes

pub record CatalogRecord : Type 0 where
  pub ref : ArtifactRef
  pub state : Bytes
  pub digest : Digest
  pub manifest_digest : Digest
  pub document_digest : Digest
  pub package_digest : Digest
  pub object_key : Bytes
  pub artifact_size : ℕ
  pub metadata : Bytes

pub record Principal : Type 0 where
  pub issuer : Bytes
  pub subject : Bytes
  pub audience : Bytes
  pub workspace_id : Bytes
  pub scopes : List Bytes
  pub policy_generation : ℕ
  pub subject_type : Bytes

pub record Decision : Type 0 where
  pub allowed : Bool
  pub status : ℕ
  pub reason : Bytes

pub record Cursor : Type 0 where
  pub id : Bytes
  pub principal_hash : Bytes
  pub workspace_id : Bytes
  pub expires_at : ℕ

-- `a == b` on references.
unfoldable pub ref_eq : ArtifactRef → ArtifactRef → Bool
ref_eq a b =
    bytes_eq a.workspace_id b.workspace_id
    && (bytes_eq a.kind b.kind && (bytes_eq a.id b.id && bytes_eq a.version b.version))
