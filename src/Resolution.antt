-- ===== src/Resolution.antt =====
-- catalog/resolution: what a skill needs, resolved against the catalog into pinned records. The
-- catalog, the policy, the store, the clock, the decoders and the random identifier are the record
-- `ResolverServices`; a decoder that gives `none` found an error.
pub mod References
mod RoundTrip
mod Ready
mod Answers
mod Tests
use gist.Prelude.{
  ℕ, zero, suc, ◌+◌, ◌*◌, ◌/◌, ◌-◌, ℤ, is_positive, pos_part, List, [], ◌∷◌, ◌++◌, map, Bool, true,
  false, ◌&&◌, ◌||◌, Option, none, some, leb, ltb, length, if◌then◌else◌, not,
}
use gist.Text.{Bytes, codes, is_empty, bytes_eq, trim_space}
use gist.Outcome.{Outcome, gave, failed, ◌>>=◌}
use gist.Catalog.{
  ArtifactRef, Digest, CatalogRecord, Principal, Decision, ref_eq, kind_skill, kind_capability,
  kind_tool, kind_provider, kind_binding,
}
use gist.Discovery.{SearchPage}
use gist.Resolution.References.{
  ArtifactPin, capability_ref, port_ref, parse_ref, valid_digest, with_alias, pin,
}

pub record Request : Type 0 where
  pub principal : Principal
  pub skill : ArtifactRef
  pub runtime_id : Bytes
  pub owned_connections : Bool
  pub max_bytes : ℤ
  pub lease : ℤ

pub data Status : Type 0 where
  ready requires_connection requires_selection incomplete : Status
  unsupported_runtime requires_gateway : Status

pub record Finding : Type 0 where
  pub capability_id : Bytes
  pub required : Bool
  pub status : Status
  pub binding : Option ArtifactPin
  pub closure : List ArtifactPin
  pub provenance : Bytes
  pub reason : Bytes

pub record Resolution : Type 0 where
  pub id : Bytes
  pub status : Status
  pub skill : ArtifactPin
  pub findings : List Finding

pub record RuntimeRequirements : Type 0 where
  pub local_execution : Bool
  pub filesystem : List Bytes

pub record CapabilityRequirement : Type 0 where
  pub id : Bytes
  pub contract_version : Bytes
  pub optional : Bool

pub record SkillMetadata : Type 0 where
  pub id : Bytes
  pub version : Bytes
  pub required_capabilities : List CapabilityRequirement
  pub runtime_requirements : RuntimeRequirements

pub record CapabilityMetadata : Type 0 where
  pub id : Bytes
  pub version : Bytes

pub record BindingMetadata : Type 0 where
  pub id : Bytes
  pub version : Bytes
  pub capability_ref : Bytes
  pub tool_ref : Bytes
  pub provider_ref : Bytes
  pub adapter_version : Bytes
  pub fixture_digest : Digest
  pub conformance : Bytes
  pub exact_versions : Bool

pub record ToolContract : Type 0 where
  pub id : Bytes
  pub version : Bytes
  pub lifecycle : Bytes
  pub execution_location : Bytes
  pub action_id : Bytes
  pub action_version : Bytes
  pub credentials_type : Bytes

-- The error of `Get`: a record that is revoked, one that is not there, or any other.
pub data GetError : Type 0 where
  revoked not_found other_error : GetError

pub data ResolveError : Type 0 where
  invalid_request foreign_skill access_denied authorize_failed undecodable identity_mismatch :
      ResolveError
  invalid_pin search_failed no_identifier budget_exceeded store_failed : ResolveError
  load_failed : GetError → ResolveError

-- The status of a finding that is returned early.
pub data EarlyStatus : Type 0 where
  left_incomplete left_to_select : EarlyStatus

abbrev pub early_status : EarlyStatus → Status
early_status left_incomplete = incomplete
early_status left_to_select = requires_selection

-- Why the resolution of a capability ends early: with an error, or with a finding.
pub data Stop : Type 0 where
  abort : ResolveError → Stop
  settle : EarlyStatus → Bytes → Stop

pub record PinnedFinding : Type 0 where
  pub capability_id : Bytes
  pub status : Status
  pub binding_ref : Option ArtifactRef
  pub closure : List (ArtifactRef × Digest × Digest)
  pub required : Bool
  pub provenance : Bytes

pub record PinnedResolution : Type 0 where
  pub id : Bytes
  pub principal : Principal
  pub skill : ArtifactRef
  pub skill_pin : ArtifactRef × Digest × Digest
  pub expires_at : ℕ
  pub findings : List PinnedFinding

-- `find_bindings` is the search for the bindings of the workspace, at most `max_binding_scan`;
-- `now` is a number of nanoseconds.
pub record ResolverServices : Type 0 where
  pub get : ArtifactRef → Outcome GetError CatalogRecord
  pub find_bindings : Principal → Option SearchPage
  pub decide : Principal → ArtifactRef → Option Decision
  pub put : PinnedResolution → Bool
  pub now : ℕ
  pub new_id : Option Bytes
  pub encoded_size : Resolution → ℕ
  pub decode_skill : Bytes → Option SkillMetadata
  pub decode_capability : Bytes → Option CapabilityMetadata
  pub decode_binding : Bytes → Option BindingMetadata
  pub decode_tool : Bytes → Option ToolContract
  pub decode_support_state : Bytes → Option Bytes
  pub to_lower : Bytes → Bytes
  pub sha256_hex : Bytes → Bytes

abbrev pub max_binding_scan : ℕ
max_binding_scan = 100

abbrev pub second : ℕ
second = 1_000_000_000

abbrev pub max_lease : ℕ
max_lease = 60 * second

-- `leaseExpiry` and `Unix`: the seconds at which the lease ends.
unfoldable pub lease_expiry : ℕ → ℤ → ℕ
lease_expiry now requested =
    if not (is_positive requested) || ltb max_lease (pos_part requested)
    then (now + max_lease) / second
    else (now + pos_part requested) / second

unfoldable pub is_admitted : Bytes → Bool
is_admitted state = bytes_eq state (codes "published") || bytes_eq state (codes "deprecated")

abbrev pub or_abort {ℓ} : {A : Type ℓ} → ResolveError → Option A → Outcome Stop A
or_abort why none = failed (abort why)
or_abort why (some a) = gave a

abbrev pub or_settle {ℓ} : {A : Type ℓ} → Bytes → Option A → Outcome Stop A
or_settle reason none = failed (settle left_incomplete reason)
or_settle reason (some a) = gave a

abbrev pub or_stop {ℓ} : {A : Type ℓ} → Outcome ResolveError A → Outcome Stop A
or_stop (gave a) = gave a
or_stop (failed why) = failed (abort why)

abbrev pub check_that : Bool → Stop → Outcome Stop (Unit {0})
check_that true stop = gave tt
check_that false stop = failed stop

unfoldable pub binds : ArtifactRef → BindingMetadata → Bool
binds cap_ref bm = bytes_eq bm.capability_ref (capability_ref cap_ref)

abbrev pub not_empty : Bytes → Bool
not_empty s = not (is_empty s)

unfoldable pub only_binding : List CatalogRecord → Outcome Stop CatalogRecord
only_binding [] = failed (settle left_incomplete (codes "no admitted binding"))
only_binding (r ∷ []) = gave r
only_binding (r ∷ s ∷ rs) = failed (settle left_to_select (codes "multiple admitted bindings"))

unfoldable pub is_executable : ArtifactRef → ArtifactRef → ToolContract → Bool
is_executable tool_ref provider_ref t =
    (bytes_eq t.execution_location (codes "client")
      || (bytes_eq t.execution_location (codes "runtime")
          || bytes_eq t.execution_location (codes "gist_gateway")))
    && (bytes_eq t.id tool_ref.id
        && (bytes_eq t.version tool_ref.version
            && ((bytes_eq t.lifecycle (codes "published")
                  || bytes_eq t.lifecycle (codes "deprecated"))
                && (bytes_eq t.action_id provider_ref.id
                    && bytes_eq t.action_version provider_ref.version))))

unfoldable pub is_supported : Bytes → Bool
is_supported state = bytes_eq state (codes "resolvable") || bytes_eq state (codes "executable")

abbrev pub needs_connection : ToolContract → Bool
needs_connection t =
    not_empty t.credentials_type && not (bytes_eq t.credentials_type (codes "none"))

abbrev pub is_ready : Status → Bool
is_ready ready = true
is_ready requires_connection = false
is_ready requires_selection = false
is_ready incomplete = false
is_ready unsupported_runtime = false
is_ready requires_gateway = false

-- The four records of a closure, with the contract of the tool.
pub record Closure : Type 0 where
  pub capability : CatalogRecord
  pub binding : CatalogRecord
  pub tool : CatalogRecord
  pub provider : CatalogRecord
  pub pins : List ArtifactPin
  pub binding_pin : ArtifactPin
  pub contract : ToolContract

-- The status of a complete closure, with its reason.
unfoldable pub judge : Request → RuntimeRequirements → ToolContract → Status × Bytes
judge req rt t =
    if bytes_eq t.execution_location (codes "gist_gateway")
    then (requires_gateway, codes "binding requires an execution gateway")
    else if rt.local_execution && not (bytes_eq t.execution_location (codes "client"))
    then (unsupported_runtime, codes "skill requires client-local execution")
    else if not (is_empty rt.filesystem)
    then (
      unsupported_runtime,
      codes "runtime filesystem permissions are not present in the v1 request",
    )
    else if needs_connection t && not req.owned_connections
    then (requires_connection, codes "runtime connection required")
    else (ready, [])

abbrev pub settled : CapabilityRequirement → Status → Bytes → Finding
settled need status reason = record {
  capability_id = need.id;
  required = not need.optional;
  status = status;
  binding = none;
  closure = [];
  provenance = [];
  reason = reason;
}

abbrev pub judged : Request → CapabilityRequirement → RuntimeRequirements → Closure → Finding
judged req need rt c =
    let (status, reason) = judge req rt c.contract in
    record {
      capability_id = need.id;
      required = not need.optional;
      status = status;
      binding = some c.binding_pin;
      closure = c.pins;
      provenance = elim status [
        | ready ↦ if needs_connection c.contract then codes "client_asserted" else []
        | _ ↦ []
      ];
      reason = reason;
    }

-- The finding by what became of the closure.
unfoldable pub finding_of :
    Request
    → CapabilityRequirement
    → RuntimeRequirements
    → Outcome Stop Closure
    → Outcome ResolveError Finding
unfolding judge
finding_of req need rt (gave c) = gave (judged req need rt c)
finding_of req need rt (failed (abort why)) = failed why
finding_of req need rt (failed (settle early reason)) =
    gave (settled need (early_status early) reason)

abbrev pub ref_of : Principal → CapabilityRequirement → ArtifactRef
ref_of p need = record {
  workspace_id = p.workspace_id;
  kind = kind_capability;
  id = need.id;
  version = need.contract_version;
}

-- The loop over the findings: a required one that is not ready makes the result incomplete.
unfoldable pub aggregate : List Finding → Status
aggregate [] = ready
aggregate (f ∷ fs) =
    let rest = aggregate fs in if f.required && not (is_ready f.status) then incomplete else rest

abbrev pub pinned_item : Bytes → ArtifactPin → ArtifactRef × Digest × Digest
pinned_item workspace p = (port_ref workspace p, p.digest, p.manifest_digest)

abbrev pub pinned_finding : Bytes → Finding → PinnedFinding
pinned_finding workspace f = record {
  capability_id = f.capability_id;
  status = f.status;
  binding_ref = elim f.binding [ none ↦ none | some p ↦ some (port_ref workspace p) ];
  closure = map (pinned_item workspace) f.closure;
  required = f.required;
  provenance = f.provenance;
}

abbrev pub or_fail {ℓ} : {A : Type ℓ} → ResolveError → Option A → Outcome ResolveError A
or_fail why none = failed why
or_fail why (some a) = gave a

abbrev pub refuse_if : Bool → ResolveError → Outcome ResolveError (Unit {0})
refuse_if true why = failed why
refuse_if false why = gave tt

abbrev pub resolution_of : Bytes → ArtifactPin → List Finding → Status → Resolution
resolution_of id skill findings status = record {
  id = id;
  status = status;
  skill = skill;
  findings = findings;
}

abbrev pub is_invalid : Request → Bool
is_invalid req =
    is_empty req.principal.workspace_id
    || (is_empty req.principal.subject
        || (is_empty req.skill.id
            || (is_empty req.skill.version
                || (not (is_positive req.max_bytes) || is_empty (trim_space req.runtime_id)))))

abbrev pub is_foreign : Request → Bool
is_foreign req =
    not (bytes_eq req.skill.workspace_id req.principal.workspace_id)
    || not (bytes_eq req.skill.kind kind_skill)

module _ (w : ResolverServices) where
  abbrev pub is_digest : Digest → Bool
  is_digest = valid_digest w.to_lower

  abbrev pub pin_record : CatalogRecord → Option ArtifactPin
  pin_record = pin w.to_lower w.sha256_hex

  -- What `Get` gave, if it is a complete immutable record of this reference.
  unfoldable pub admit_record : ArtifactRef → CatalogRecord → Outcome GetError CatalogRecord
  unfolding is_admitted
  admit_record ref r =
      if bytes_eq r.state (codes "revoked")
      then failed revoked
      else if not (ref_eq r.ref ref) || not (is_admitted r.state) || not (is_digest r.digest)
      then failed other_error
      else let r' = with_alias w.to_lower w.sha256_hex r in
        if not (is_digest r'.manifest_digest) then failed other_error else gave r'

  unfoldable pub get_admitted : ArtifactRef → Outcome GetError CatalogRecord
  unfolding admit_record
  get_admitted ref = w.get ref >>= admit_record ref

  -- `authorize`: an error of the policy and a denial are two errors.
  unfoldable pub authorize : Principal → ArtifactRef → Outcome ResolveError (Unit {0})
  authorize p ref = elim (w.decide p ref) [
    | none ↦ failed authorize_failed
    | some d ↦ refuse_if (not d.allowed) access_denied
  ]

  -- The same where a capability is resolved: an error ends the resolution.
  unfoldable pub authorize_part : Principal → ArtifactRef → Outcome Stop (Unit {0})
  unfolding authorize
  authorize_part p ref = or_stop (authorize p ref)

  -- A record that may be missing: that settles the finding; any other error ends the resolution.
  unfoldable pub obtain : Bytes → ArtifactRef → Outcome Stop CatalogRecord
  obtain missing ref = elim (get_admitted ref) [
    | gave r ↦ gave r
    | failed not_found ↦ failed (settle left_incomplete missing)
    | failed revoked ↦ failed (abort (load_failed revoked))
    | failed other_error ↦ failed (abort (load_failed other_error))
  ]

  -- The bindings of the capability among the candidates; one that is malformed settles the finding.
  unfoldable pub matching_bindings :
      Principal → ArtifactRef → List CatalogRecord → Outcome Stop (List CatalogRecord)
  unfolding binds
  matching_bindings p cap_ref [] = gave []
  matching_bindings p cap_ref (r ∷ rs) =
      let rest = matching_bindings p cap_ref rs in
      if not (bytes_eq r.ref.workspace_id p.workspace_id) || not (bytes_eq r.ref.kind kind_binding)
      then rest
      else do
        bm ← or_settle (codes "binding metadata is invalid") (w.decode_binding r.metadata)
        if binds cap_ref bm then (rest >>= λ found. gave (r ∷ found)) else rest

  unfoldable pub is_compatible : ArtifactRef → CatalogRecord → BindingMetadata → Bool
  unfolding binds
  is_compatible cap_ref r bm =
      bytes_eq bm.id r.ref.id
      && (bytes_eq bm.version r.ref.version
          && (binds cap_ref bm
              && (bytes_eq bm.conformance (codes "passed")
                  && (bm.exact_versions
                      && (not_empty bm.adapter_version && is_digest bm.fixture_digest)))))

  -- The capability itself.
  unfoldable pub admitted_capability :
      Principal → ArtifactRef → Outcome Stop (CatalogRecord × ArtifactPin)
  unfolding authorize_part obtain
  admitted_capability p cap_ref = do
    _ ← authorize_part p cap_ref
    r ← obtain (codes "capability unavailable") cap_ref
    cm ← or_abort undecodable (w.decode_capability r.metadata)
    _ ←
        check_that (bytes_eq cm.id cap_ref.id && bytes_eq cm.version cap_ref.version)
          (settle left_incomplete (codes "capability manifest identity mismatch"))
    p' ← or_settle (codes "capability closure incomplete") (pin_record r)
    gave (r, p')

  -- The one binding of the capability, as the search gave it.
  unfoldable pub chosen_binding : Principal → ArtifactRef → Outcome Stop CatalogRecord
  unfolding matching_bindings only_binding
  chosen_binding p cap_ref = do
    page ← or_abort search_failed (w.find_bindings p)
    _ ←
        check_that (ltb (length page.records) max_binding_scan && is_empty page.next.id)
          (settle left_incomplete (codes "binding catalog exceeds resolution scan limit"))
    found ← matching_bindings p cap_ref page.records
    only_binding found

  -- The binding read again, with its metadata.
  unfoldable pub admitted_binding :
      Principal
      → ArtifactRef
      → CatalogRecord
      → Outcome Stop (CatalogRecord × BindingMetadata × ArtifactPin)
  unfolding authorize_part obtain is_compatible
  admitted_binding p cap_ref candidate = do
    _ ← authorize_part p candidate.ref
    r ← obtain (codes "binding unavailable") candidate.ref
    bm ← or_settle (codes "binding metadata is invalid") (w.decode_binding r.metadata)
    _ ←
        check_that (is_compatible cap_ref r bm)
          (settle left_incomplete (codes "binding is incompatible or incomplete"))
    _ ←
        check_that (not_empty bm.id && not_empty bm.version)
          (settle left_incomplete (codes "binding version is incomplete"))
    p' ← or_settle (codes "binding closure incomplete") (pin_record r)
    gave (r, bm, p')

  -- The tool and the provider that the binding names, and what their contracts say.
  unfoldable pub admitted_parts :
      Principal
      → BindingMetadata
      → Outcome Stop (CatalogRecord × ArtifactPin × CatalogRecord × ArtifactPin × ToolContract)
  unfolding authorize_part obtain is_executable is_supported
  admitted_parts p bm = do
    tool_ref ←
        or_settle (codes "binding tool reference is invalid")
          (parse_ref p.workspace_id kind_tool bm.tool_ref)
    provider_ref ←
        or_settle (codes "binding provider reference is invalid")
          (parse_ref p.workspace_id kind_provider bm.provider_ref)
    _ ← authorize_part p tool_ref
    _ ← authorize_part p provider_ref
    tool ← obtain (codes "binding tool unavailable") tool_ref
    provider ← obtain (codes "binding provider unavailable") provider_ref
    tool_pin ← or_settle (codes "tool closure incomplete") (pin_record tool)
    provider_pin ← or_settle (codes "provider closure incomplete") (pin_record provider)
    contract ←
        or_settle (codes "execution schema is incompatible or incomplete")
          (w.decode_tool tool.metadata)
    _ ←
        check_that (is_executable tool_ref provider_ref contract)
          (settle left_incomplete (codes "execution schema is incompatible or incomplete"))
    support ←
        or_settle (codes "provider is not admitted for resolution")
          (w.decode_support_state provider.metadata)
    _ ←
        check_that (is_supported support)
          (settle left_incomplete (codes "provider is not admitted for resolution"))
    gave (tool, tool_pin, provider, provider_pin, contract)

  unfoldable pub find_closure : Principal → ArtifactRef → Outcome Stop Closure
  find_closure p cap_ref = do
    (cap, cap_pin) ← admitted_capability p cap_ref
    candidate ← chosen_binding p cap_ref
    (binding, bm, binding_pin) ← admitted_binding p cap_ref candidate
    (tool, tool_pin, provider, provider_pin, contract) ← admitted_parts p bm
    gave (record {
      capability = cap;
      binding = binding;
      tool = tool;
      provider = provider;
      pins = cap_pin ∷ binding_pin ∷ tool_pin ∷ provider_pin ∷ [];
      binding_pin = binding_pin;
      contract = contract;
    })

  unfoldable pub resolve_capability :
      Request → RuntimeRequirements → CapabilityRequirement → Outcome ResolveError Finding
  unfolding finding_of
  resolve_capability req rt need =
      if is_empty need.id || is_empty need.contract_version
      then gave (settled need incomplete (codes "invalid capability reference"))
      else finding_of req need rt (find_closure req.principal (ref_of req.principal need))

  unfoldable pub resolve_all :
      Request
      → RuntimeRequirements
      → List CapabilityRequirement
      → Outcome ResolveError (List Finding)
  resolve_all req rt [] = gave []
  resolve_all req rt (need ∷ needs) = do
    f ← resolve_capability req rt need
    fs ← resolve_all req rt needs
    gave (f ∷ fs)

  -- What is stored for a result.
  unfoldable pub pinned_resolution : Request → Resolution → PinnedResolution
  unfolding port_ref lease_expiry
  pinned_resolution req r = record {
    id = r.id;
    principal = req.principal;
    skill = req.skill;
    skill_pin = pinned_item req.principal.workspace_id r.skill;
    expires_at = lease_expiry w.now req.lease;
    findings = map (pinned_finding req.principal.workspace_id) r.findings;
  }

  unfoldable pub persist :
      Request → ArtifactPin → List Finding → Status → Outcome ResolveError Resolution
  unfolding pinned_resolution
  persist req skill findings status = do
    id ← or_fail no_identifier w.new_id
    let r : Resolution = resolution_of id skill findings status
    _ ← refuse_if (ltb (pos_part req.max_bytes) (w.encoded_size r)) budget_exceeded
    _ ← refuse_if (not (w.put (pinned_resolution req r))) store_failed
    gave r

  unfoldable pub load_skill : ArtifactRef → Outcome ResolveError CatalogRecord
  unfolding get_admitted
  load_skill ref = elim (get_admitted ref) [ gave r ↦ gave r | failed e ↦ failed (load_failed e) ]

  unfoldable pub resolve : Request → Outcome ResolveError Resolution
  unfolding authorize load_skill resolve_all persist aggregate
  resolve req = do
    _ ← refuse_if (is_invalid req) invalid_request
    _ ← refuse_if (is_foreign req) foreign_skill
    _ ← authorize req.principal req.skill
    skill ← load_skill req.skill
    sm ← or_fail undecodable (w.decode_skill skill.metadata)
    _ ←
        refuse_if (not (bytes_eq sm.id req.skill.id && bytes_eq sm.version req.skill.version))
          identity_mismatch
    skill_pin ← or_fail invalid_pin (pin_record skill)
    findings ← resolve_all req sm.runtime_requirements sm.required_capabilities
    persist req skill_pin findings (aggregate findings)
