-- ===== src/Resolution/Answers.antt =====
-- resolve.go: findings and results, from the request to what is stored.
use gist.Prelude.{
  ◌≡◌, ◌∙◌, refl, sym, subst, List, [], ◌∷◌, Bool, true, false, ◌||◌, ◌&&◌, Option, none, some, not,
  arith, All, Bool-cases, inl, inr, map, ◌↔◌, pos_part, ◌≤◌, ltb,
}
use gist.Text.{Bytes, codes, bytes_eq, is_empty}
use gist.Outcome.{Outcome, gave, failed, both_gave, gave-injective}
use gist.Catalog.{ArtifactRef, CatalogRecord, Principal, kind_tool, kind_provider}
use gist.Resolution.References.{ArtifactPin, pin_of, parse_ref}
use gist.Resolution.{
  Request, Finding, Resolution, Closure, Stop, ResolverServices, RuntimeRequirements, GetError,
  CapabilityRequirement, SkillMetadata, ToolContract, ResolveError, Status, ready, incomplete,
  left_incomplete, left_to_select, settle, abort, requires_connection, requires_selection,
  unsupported_runtime, requires_gateway, invalid_request, foreign_skill, undecodable,
  identity_mismatch, invalid_pin, no_identifier, budget_exceeded, store_failed, authorize,
  BindingMetadata, admitted_capability, chosen_binding, admitted_binding, admitted_parts,
  find_closure, finding_of, resolve_capability, resolve_all, aggregate, persist, resolve,
  pin_record, is_ready, ref_of, judge, judged, settled, load_skill, resolution_of, is_invalid,
  is_foreign, refuse_if, or_fail, needs_connection, pinned_resolution, get_admitted,
}
use gist.Resolution.Ready.{
  IsAdmitted, Pinned, Executable, admitted_capability-Pinned, admitted_binding-Pinned,
  admitted_parts-Pinned, PartsPinned, Binds, MayRead, authorize-MayRead, get_admitted-IsAdmitted,
  pin_record-IsAdmitted,
}

module _ (w : ResolverServices) where
  abbrev IsTrusted : Principal → CatalogRecord → Type 0
  IsTrusted p r = IsAdmitted w r × MayRead w p r.ref

  abbrev records_of : Closure → List CatalogRecord
  records_of c = c.capability ∷ c.binding ∷ c.tool ∷ c.provider ∷ []

  -- All four records are what the catalog gave, admitted, and the principal may read them: that of
  -- the capability, a binding of just this capability, the tool and the provider that the binding
  -- names; the pins are theirs, and the contract of the tool fits it and the provider.
  pub record IsPinned (p : Principal) (cap_ref : ArtifactRef) (c : Closure) : Type 0 where
    pub capability : c.capability.ref ≡ cap_ref
    pub binding : BindingMetadata
    pub binds : Binds w cap_ref c.binding binding
    pub tool : parse_ref p.workspace_id kind_tool binding.tool_ref ≡ some c.tool.ref
    pub provider : parse_ref p.workspace_id kind_provider binding.provider_ref ≡ some c.provider.ref
    pub trusted : All (IsTrusted p) (records_of c)
    pub pins : c.pins ≡ map (pin_of w.to_lower w.sha256_hex) (records_of c)
    pub executable : Executable w c.tool c.provider c.contract

  four_pins :
      (p : Principal) (cap_ref ref : ArtifactRef) (bm : BindingMetadata) (c b t v : CatalogRecord)
      (cp bp tp vp : ArtifactPin) (k : ToolContract)
      → Pinned w p cap_ref c cp
      → Pinned w p ref b bp × Binds w cap_ref b bm
      → PartsPinned w p bm (t, tp, v, vp, k)
      → IsPinned p cap_ref (record {
        capability = c;
        binding = b;
        tool = t;
        provider = v;
        pins = cp ∷ bp ∷ tp ∷ vp ∷ [];
        binding_pin = bp;
        contract = k;
      })
  four_pins p cap_ref ref bm c b t v cp bp tp vp k hc (hb, binds) (et, ev, ht, hv, e) = record {
    capability = hc.named;
    binding = bm;
    binds = binds;
    tool = et;
    provider = ev;
    trusted = (
      (hc.admitted, hc.allowed),
      ((hb.admitted, hb.allowed), ((ht.admitted, ht.allowed), ((hv.admitted, hv.allowed), tt))),
    );
    pins = cc (hc.pinned, hb.pinned, ht.pinned, hv.pinned);
    executable = e;
  }

  find_closure-IsPinned :
      (p : Principal) (cap_ref : ArtifactRef) (c : Closure)
      → find_closure w p cap_ref ≡ gave c
      → IsPinned p cap_ref c
  unfolding find_closure
  find_closure-IsPinned p cap_ref c h =
      let ((cap, cp), e1, h1) = both_gave (admitted_capability w p cap_ref) c h in
      let (candidate, e2, h2) = both_gave (chosen_binding w p cap_ref) c h1 in
      let ((b, bm, bp), e3, h3) = both_gave (admitted_binding w p cap_ref candidate) c h2 in
      let ((t, tp, v, vp, k), e4, h4) = both_gave (admitted_parts w p bm) c h3 in
      subst (IsPinned p cap_ref) (gave-injective h4) (
        four_pins p cap_ref candidate.ref bm cap b t v cp bp tp vp k
          (admitted_capability-Pinned w p cap_ref cap cp e1)
          (admitted_binding-Pinned w p cap_ref candidate b bm bp e3)
          (admitted_parts-Pinned w p bm (t, tp, v, vp, k) e4))

  -- What stands behind a finding that is ready.
  pub record IsBacked (req : Request) (rt : RuntimeRequirements) (need : CapabilityRequirement)
      (f : Finding) (c : Closure) : Type 0 where
    pub pinned : IsPinned req.principal (ref_of req.principal need) c
    pub closure : f.closure ≡ c.pins
    pub connected : needs_connection c.contract ≡ true → req.owned_connections ≡ true
    pub no_gateway : bytes_eq c.contract.execution_location (codes "gist_gateway") ≡ false
    pub local :
        rt.local_execution ≡ true → bytes_eq c.contract.execution_location (codes "client") ≡ true
    pub no_files : is_empty rt.filesystem ≡ true

  judge-ready :
      (req : Request) (rt : RuntimeRequirements) (t : ToolContract)
      → (judge req rt t).0 ≡ ready
      → (needs_connection t ≡ true → req.owned_connections ≡ true)
        × (bytes_eq t.execution_location (codes "gist_gateway") ≡ false)
        × (rt.local_execution ≡ true → bytes_eq t.execution_location (codes "client") ≡ true)
        × (is_empty rt.filesystem ≡ true)
  unfolding judge
  judge-ready req rt t h = (λ k. ground arith, ground arith, λ k. ground arith, ground arith)

  -- The finding of one requirement: it names the requirement, and if it is ready it is backed.
  pub record Answer (req : Request) (rt : RuntimeRequirements) (need : CapabilityRequirement)
      (f : Finding) : Type 0 where
    pub named : f.capability_id ≡ need.id
    pub required : f.required ≡ not need.optional
    pub backed : f.status ≡ ready → (c : Closure) × IsBacked req rt need f c

  settled-Answer :
      (req : Request) (rt : RuntimeRequirements) (need : CapabilityRequirement) (status : Status)
      (reason : Bytes)
      → is_ready status ≡ false
      → Answer req rt need (settled need status reason)
  settled-Answer req rt need status reason h = record {
    named = refl;
    required = refl;
    backed = λ e. absurd (ground arith);
  }

  judged-Answer :
      (req : Request) (rt : RuntimeRequirements) (need : CapabilityRequirement) (c : Closure)
      → IsPinned req.principal (ref_of req.principal need) c
      → Answer req rt need (judged req need rt c)
  judged-Answer req rt need c h = record {
    named = refl;
    required = refl;
    backed = λ e.
        let (connected, no_gateway, local, no_files) = judge-ready req rt c.contract e in
        (
          c,
          record {
            pinned = h;
            closure = refl;
            connected = connected;
            no_gateway = no_gateway;
            local = local;
            no_files = no_files;
          },
        );
  }

  finding_of-Answer :
      (req : Request) (rt : RuntimeRequirements) (need : CapabilityRequirement)
      (o : Outcome Stop Closure) (f : Finding)
      → ((c : Closure) → o ≡ gave c → IsPinned req.principal (ref_of req.principal need) c)
      → finding_of req need rt o ≡ gave f
      → Answer req rt need f
  unfolding finding_of
  finding_of-Answer req rt need (gave c) f h e =
      subst (Answer req rt need) (gave-injective e) (judged-Answer req rt need c (h c refl))
  finding_of-Answer req rt need (failed (abort why)) f h e = absurd (cc)
  finding_of-Answer req rt need (failed (settle left_incomplete reason)) f h e =
      subst (Answer req rt need) (gave-injective e)
        (settled-Answer req rt need incomplete reason refl)
  finding_of-Answer req rt need (failed (settle left_to_select reason)) f h e =
      subst (Answer req rt need) (gave-injective e)
        (settled-Answer req rt need requires_selection reason refl)

  resolve_capability-Answer :
      (req : Request) (rt : RuntimeRequirements) (need : CapabilityRequirement) (f : Finding)
      → resolve_capability w req rt need ≡ gave f
      → Answer req rt need f
  unfolding resolve_capability
  resolve_capability-Answer req rt need f h =
      elim (Bool-cases (is_empty need.id || is_empty need.contract_version)) [
        | inl lacks ↦
            subst (Answer req rt need) (gave-injective (rw lacks at h))
              (settled-Answer req rt need incomplete _ refl)
        | inr complete ↦
            let cap_ref = ref_of req.principal need in
            finding_of-Answer req rt need (find_closure w req.principal cap_ref) f
              (λ c e. find_closure-IsPinned req.principal cap_ref c e) (rw complete at h)
      ]

  -- The findings answer the requirements one by one, in their order.
  abbrev pub AnswersAll :
      Request → RuntimeRequirements → List CapabilityRequirement → List Finding → Type 0
  AnswersAll req rt [] [] = Unit {0}
  AnswersAll req rt [] (f ∷ fs) = ⊥
  AnswersAll req rt (need ∷ needs) [] = ⊥
  AnswersAll req rt (need ∷ needs) (f ∷ fs) = Answer req rt need f × AnswersAll req rt needs fs

  resolve_all-AnswersAll :
      (req : Request) (rt : RuntimeRequirements) (needs : List CapabilityRequirement)
      (fs : List Finding)
      → resolve_all w req rt needs ≡ gave fs
      → AnswersAll req rt needs fs
  unfolding resolve_all
  resolve_all-AnswersAll req rt [] fs h = subst (AnswersAll req rt []) (gave-injective h) tt
  resolve_all-AnswersAll req rt (need ∷ needs) fs h =
      let (f, e, h1) = both_gave (resolve_capability w req rt need) fs h in
      let (rest, e', h2) = both_gave (resolve_all w req rt needs) fs h1 in
      subst (AnswersAll req rt (need ∷ needs)) (gave-injective h2)
        (resolve_capability-Answer req rt need f e, resolve_all-AnswersAll req rt needs rest e')

  abbrev pub AllReady : List Finding → Type 0
  AllReady = All (λ (f : Finding). f.required ≡ true → f.status ≡ ready)

  is_ready→ready : (s : Status) → is_ready s ≡ true → s ≡ ready
  is_ready→ready ready h = refl
  is_ready→ready requires_connection h = cc
  is_ready→ready requires_selection h = cc
  is_ready→ready incomplete h = cc
  is_ready→ready unsupported_runtime h = cc
  is_ready→ready requires_gateway h = cc

  aggregate-AllReady : (fs : List Finding) → (aggregate fs ≡ ready) ↔ AllReady fs
  unfolding aggregate
  aggregate-AllReady [] = (λ h. tt, λ h. refl)
  aggregate-AllReady (f ∷ fs) =
      let (to, back) = aggregate-AllReady fs in
      (
        λ h. (λ r. ground (arith, is_ready→ready f.status), to (ground arith)),
        λ h. let first = h.0 in let rest = back h.1 in ground (arith, first),
      )

  -- A result: what it answers, when it is ready, and what was stored for it.
  pub record IsResolved (req : Request) (skill : CatalogRecord) (sm : SkillMetadata)
      (res : Resolution) : Type 0 where
    pub known : (skill.ref ≡ req.skill) × IsTrusted req.principal skill
    pub decoded : w.decode_skill skill.metadata ≡ some sm
    pub root : res.skill ≡ pin_of w.to_lower w.sha256_hex skill
    pub answers : AnswersAll req sm.runtime_requirements sm.required_capabilities res.findings
    pub status : (res.status ≡ ready) ↔ AllReady res.findings
    pub fits : w.encoded_size res ≤ pos_part req.max_bytes
    pub stored : w.put (pinned_resolution w req res) ≡ true

  status-AllReady :
      (s : Status) (fs gs : List Finding) → s ≡ aggregate fs → gs ≡ fs → (s ≡ ready) ↔ AllReady gs
  status-AllReady s fs gs e e' = rw (e, e') (aggregate-AllReady fs)

  refuse_if-gave :
      (b : Bool) (why : ResolveError) (u : Unit {0}) → refuse_if b why ≡ gave u → b ≡ false
  refuse_if-gave true why u h = absurd (cc)
  refuse_if-gave false why u h = refl

  or_fail-gave :
      {A : Type 0} (why : ResolveError) (o : Option A) (a : A) → or_fail why o ≡ gave a → o ≡ some a
  or_fail-gave why none a h = absurd (cc)
  or_fail-gave why (some x) a h = cc

  -- What `persist` returns is what it stored, within the budget.
  abbrev Persisted : Request → ArtifactPin → List Finding → Resolution → Type 0
  Persisted req skill fs res =
      (res.skill ≡ skill)
      × (res.findings ≡ fs)
      × (res.status ≡ aggregate fs)
      × (w.encoded_size res ≤ pos_part req.max_bytes)
      × (w.put (pinned_resolution w req res) ≡ true)

  persist-Persisted :
      (req : Request) (skill : ArtifactPin) (fs : List Finding) (res : Resolution)
      → persist w req skill fs (aggregate fs) ≡ gave res
      → Persisted req skill fs res
  unfolding persist
  persist-Persisted req skill fs res h =
      let (id, e, h1) = both_gave (or_fail no_identifier w.new_id) res h in
      let r = resolution_of id skill fs (aggregate fs) in
      let (u, f, h2) =
        both_gave (refuse_if (ltb (pos_part req.max_bytes) (w.encoded_size r)) budget_exceeded) res
          h1 in
      let (v, s, h3) =
        both_gave (refuse_if (not (w.put (pinned_resolution w req r))) store_failed) res h2 in
      let fits = refuse_if-gave (ltb (pos_part req.max_bytes) (w.encoded_size r)) _ u f in
      let put' = refuse_if-gave (not (w.put (pinned_resolution w req r))) _ v s in
      subst (Persisted req skill fs) (gave-injective h3)
        (refl, refl, refl, ground arith, ground arith)

  load_skill-gave :
      (ref : ArtifactRef) (r : CatalogRecord)
      → load_skill w ref ≡ gave r
      → get_admitted w ref ≡ gave r
  unfolding load_skill
  load_skill-gave ref r h = same (get_admitted w ref) refl
    where
      same :
          (o : Outcome GetError CatalogRecord)
          → get_admitted w ref ≡ o
          → get_admitted w ref ≡ gave r
      same (gave x) e = ground arith
      same (failed why) e = absurd (ground arith)

  -- A resolution that succeeds read the skill of the request, which the policy lets the principal
  -- read, and it answers the skill's requirements one by one, in their order. A finding that is
  -- ready names four records, allowed to the principal, with their pins: the required capability, a
  -- compatible binding of it, and the tool and the provider that the binding names; the tool's
  -- contract fits the provider and the runtime, and there is a connection where one is needed. The
  -- skill and these records are what the catalog gave for their references, published or deprecated
  -- there and with valid digests. The result is ready exactly where every required finding is, its
  -- size is within `MaxBytes`, and the same result was stored.
  pub resolve-IsResolved :
      (req : Request) (res : Resolution)
      → resolve w req ≡ gave res
      → (skill : CatalogRecord) × (sm : SkillMetadata) × IsResolved req skill sm res
  unfolding resolve
  resolve-IsResolved req res h =
      let (u1, e1, h1) = both_gave (refuse_if (is_invalid req) invalid_request) res h in
      let (u2, e2, h2) = both_gave (refuse_if (is_foreign req) foreign_skill) res h1 in
      let (u3, e3, h3) = both_gave (authorize w req.principal req.skill) res h2 in
      let (skill, e4, h4) = both_gave (load_skill w req.skill) res h3 in
      let (sm, e5, h5) = both_gave (or_fail undecodable (w.decode_skill skill.metadata)) res h4 in
      let (u6, e6, h6) =
        both_gave
          (refuse_if (not (bytes_eq sm.id req.skill.id && bytes_eq sm.version req.skill.version))
            identity_mismatch)
          res h5 in
      let (root, e7, h7) = both_gave (or_fail invalid_pin (pin_record w skill)) res h6 in
      let (fs, e8, h8) =
        both_gave (resolve_all w req sm.runtime_requirements sm.required_capabilities) res h7 in
      let (same, admitted) =
        get_admitted-IsAdmitted w req.skill skill (load_skill-gave req.skill skill e4) in
      let may_read = authorize-MayRead w req.principal req.skill u3 e3 in
      let (root_same, findings, status, fits, stored) = persist-Persisted req root fs res h8 in
      (
        skill,
        sm,
        record {
          known = (same, (admitted, rw same may_read));
          decoded = or_fail-gave _ (w.decode_skill skill.metadata) sm e5;
          root =
              root_same
              ∙ pin_record-IsAdmitted w skill root admitted
                  (or_fail-gave _ (pin_record w skill) root e7);
          answers =
              subst (AnswersAll req sm.runtime_requirements sm.required_capabilities) (sym findings)
                (resolve_all-AnswersAll req sm.runtime_requirements sm.required_capabilities fs e8);
          status = status-AllReady res.status fs res.findings status findings;
          fits = fits;
          stored = stored;
        },
      )
