-- ===== src/Resolution/Tests.antt =====
-- A run of the resolution of a skill, and the theorems about it at concrete inputs.
use gist.Prelude.{◌*◌, ◌≡◌, refl, [], ◌∷◌, true, false, some, pos}
use gist.Text.{Bytes, codes, bytes_eq, trim_space}
use gist.Outcome.{gave}
use gist.Catalog.{
  ArtifactRef, CatalogRecord, Digest, ref_eq, kind_skill, kind_capability, kind_tool, kind_provider,
  kind_binding,
}
use gist.Resolution.References.{
  ArtifactPin, capability_ref, parse_ref, valid_digest, with_alias, pin,
}
use gist.Resolution.{
  Request, Resolution, ResolverServices, SkillMetadata, ready, resolve, second, find_closure,
  authorize, authorize_part, resolve_capability, admitted_capability, chosen_binding,
  admitted_binding, admitted_parts,
}
use gist.Resolution.RoundTrip.{IsExact, parse_ref-capability_ref}
use gist.Resolution.Answers.{IsResolved, resolve-IsResolved}

abbrev sha : Digest
sha = record {
  algorithm = codes "sha256";
  value = codes "00112233445566778899aabbccddeeff00112233445566778899aabbccddeeff";
}

abbrev reference : Bytes → Bytes → ArtifactRef
reference kind id = record { workspace_id = codes "w"; kind = kind; id = id; version = codes "1" }

abbrev published : ArtifactRef → CatalogRecord
published ref = record {
  ref = ref;
  state = codes "published";
  digest = sha;
  manifest_digest = sha;
  document_digest = sha;
  package_digest = sha;
  object_key = [];
  artifact_size = 0;
  metadata = [];
}

-- A catalog with one capability "mail", bound to the tool "send" of the provider "post".
abbrev services : ResolverServices
services = record {
  get = λ ref. gave (published ref);
  find_bindings = λ p. some (record {
    records = published (reference kind_binding (codes "b")) ∷ [];
    next = record { id = []; principal_hash = []; workspace_id = []; expires_at = 0 };
  });
  decide = λ p ref. some (record { allowed = true; status = 200; reason = [] });
  put = λ r. true;
  now = 5 * second;
  new_id = some (codes "r1");
  encoded_size = λ r. 900;
  decode_skill = λ raw. some (record {
    id = codes "s";
    version = codes "1";
    required_capabilities =
        record { id = codes "mail"; contract_version = codes "1"; optional = false } ∷ [];
    runtime_requirements = record { local_execution = false; filesystem = [] };
  });
  decode_capability = λ raw. some (record { id = codes "mail"; version = codes "1" });
  decode_binding = λ raw. some (record {
    id = codes "b";
    version = codes "1";
    capability_ref = codes "mail@1";
    tool_ref = codes "send@1";
    provider_ref = codes "post@1";
    adapter_version = codes "1";
    fixture_digest = sha;
    conformance = codes "passed";
    exact_versions = true;
  });
  decode_tool = λ raw. some (record {
    id = codes "send";
    version = codes "1";
    lifecycle = codes "published";
    execution_location = codes "client";
    action_id = codes "post";
    action_version = codes "1";
    credentials_type = [];
  });
  decode_support_state = λ raw. some (codes "executable");
  to_lower = λ s. s;
  sha256_hex = λ s. [];
}

abbrev asked : Request
asked = record {
  principal = record {
    issuer = [];
    subject = codes "u";
    audience = [];
    workspace_id = codes "w";
    scopes = [];
    policy_generation = 0;
    subject_type = [];
  };
  skill = reference kind_skill (codes "s");
  runtime_id = codes "cli";
  owned_connections = false;
  max_bytes = pos 4096;
  lease = pos 0;
}

abbrev pinned : Bytes → Bytes → ArtifactPin
pinned kind text = record { reference = text; kind = kind; digest = sha; manifest_digest = sha }

abbrev resolution : Resolution
resolution = record {
  id = codes "r1";
  status = ready;
  skill = pinned kind_skill (codes "s@1");
  findings =
      record {
        capability_id = codes "mail";
        required = true;
        status = ready;
        binding = some (pinned kind_binding (codes "b@1"));
        closure =
            pinned kind_capability (codes "mail@1")
            ∷ pinned kind_binding (codes "b@1")
            ∷ pinned kind_tool (codes "send@1")
            ∷ pinned kind_provider (codes "post@1")
            ∷ [];
        provenance = [];
        reason = [];
      }
      ∷ [];
}

resolved : resolve services asked ≡ gave resolution
unfolding resolve trim_space bytes_eq authorize authorize_part ref_eq valid_digest with_alias pin
    resolve_capability find_closure admitted_capability chosen_binding admitted_binding
    admitted_parts parse_ref
resolved = refl

resolve-IsResolved_example :
    (skill : CatalogRecord) × (sm : SkillMetadata) × IsResolved services asked skill sm resolution
resolve-IsResolved_example = resolve-IsResolved services asked resolution resolved

parse_ref-capability_ref_example :
    (IsExact (reference kind_tool (codes "send"))
      → parse_ref (codes "w") kind_tool (capability_ref (reference kind_tool (codes "send")))
        ≡ some (reference kind_tool (codes "send")))
    × (parse_ref (codes "w") kind_tool (codes "send@1") ≡ some (reference kind_tool (codes "send"))
        → (capability_ref (reference kind_tool (codes "send")) ≡ codes "send@1")
          × IsExact (reference kind_tool (codes "send")))
parse_ref-capability_ref_example =
    parse_ref-capability_ref (reference kind_tool (codes "send")) (codes "send@1")
