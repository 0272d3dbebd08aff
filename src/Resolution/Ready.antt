-- ===== src/Resolution/Ready.antt =====
-- resolve.go: what stands behind a finding that is ready, and behind a result that is.
use gist.Prelude.{
  ◌≡◌, ◌∙◌, ◌⊎◌, Bool-cases, refl, sym, ap, subst, Bool, true, false, ◌&&◌, Option, none, some,
  arith, Option-cases, inl, inr,
}
use gist.Text.{Bytes, codes, bytes_eq}
use gist.Text.Laws.{bytes_eq→eq}
use gist.Outcome.{Outcome, gave, failed, both_gave, gave-injective}
use gist.Catalog.{ArtifactRef, CatalogRecord, Principal, Decision, ref_eq, kind_tool, kind_provider}
use gist.Resolution.References.{
  ArtifactPin, pin, pin_of, with_alias, document_metadata_alias, parse_ref,
}
use gist.Resolution.{
  Stop, GetError, ResolveError, or_stop, ResolverServices, BindingMetadata, ToolContract,
  undecodable, left_incomplete, settle, revoked, not_found, other_error, admit_record, get_admitted,
  authorize, authorize_part, obtain, admitted_capability, admitted_binding, admitted_parts,
  is_digest, pin_record, is_admitted, or_settle, or_abort, check_that, is_compatible, not_empty,
  is_executable, is_supported,
}

ref_eq→eq : (a b : ArtifactRef) → ref_eq a b ≡ true → a ≡ b
unfolding ref_eq
ref_eq→eq a b h = ground (
  arith,
  bytes_eq→eq a.workspace_id b.workspace_id,
  bytes_eq→eq a.kind b.kind,
  bytes_eq→eq a.id b.id,
  bytes_eq→eq a.version b.version,
)

module _ (w : ResolverServices) where
  -- What the catalog gave for the reference of a record, of which the record is a copy, its digest
  -- of the manifest filled in where the metadata hold it.
  pub record Fetched (r : CatalogRecord) : Type 0 where
    pub found : CatalogRecord
    pub got : w.get r.ref ≡ gave found
    pub named : found.ref ≡ r.ref
    pub state : (found.state ≡ codes "published") ⊎ (found.state ≡ codes "deprecated")
    pub digest : is_digest w found.digest ≡ true
    pub copied : r ≡ with_alias w.to_lower w.sha256_hex found

  state_lem :
      (s : Bytes) → is_admitted s ≡ true → (s ≡ codes "published") ⊎ (s ≡ codes "deprecated")
  unfolding is_admitted
  state_lem s h = elim (Bool-cases (bytes_eq s (codes "published"))) [
    | inl e ↦ inl (bytes_eq→eq s (codes "published") e)
    | inr e ↦ inr (bytes_eq→eq s (codes "deprecated") (ground arith))
  ]

  -- A complete immutable record that the catalog gave, published or deprecated.
  pub record IsAdmitted (r : CatalogRecord) : Type 0 where
    pub state : is_admitted r.state ≡ true
    pub digest : is_digest w r.digest ≡ true
    pub manifest : is_digest w r.manifest_digest ≡ true
    pub fetched : Fetched r

  with_alias-same :
      (r : CatalogRecord)
      → ((with_alias w.to_lower w.sha256_hex r).ref ≡ r.ref)
        × ((with_alias w.to_lower w.sha256_hex r).state ≡ r.state)
        × ((with_alias w.to_lower w.sha256_hex r).digest ≡ r.digest)
  unfolding with_alias
  with_alias-same r = elim (Option-cases (document_metadata_alias w.to_lower w.sha256_hex r)) [
    | inl e ↦ (ground arith, ground arith, ground arith)
    | inr (d, e) ↦ (ground arith, ground arith, ground arith)
  ]

  with_alias_complete :
      (r : CatalogRecord)
      → is_digest w r.manifest_digest ≡ true
      → with_alias w.to_lower w.sha256_hex r ≡ r
  unfolding with_alias
  with_alias_complete r h = rw h refl

  admit_record-IsAdmitted :
      (ref : ArtifactRef) (r r' : CatalogRecord)
      → w.get ref ≡ gave r
      → admit_record w ref r ≡ gave r'
      → (r'.ref ≡ ref) × IsAdmitted r'
  unfolding admit_record
  admit_record-IsAdmitted ref r r' got h =
      let x = with_alias w.to_lower w.sha256_hex r in
      let (same_ref, same_state, same_digest) = with_alias-same r in
      let e : x ≡ r' = ground arith in
      let eq' : ref_eq r.ref ref ≡ true = ground arith in
      let same_name = ref_eq→eq r.ref ref eq' in
      let st : is_admitted r.state ≡ true = ground arith in
      let dg : is_digest w r.digest ≡ true = ground arith in
      let mf : is_digest w x.manifest_digest ≡ true = ground arith in
      subst (λ y. (y.ref ≡ ref) × IsAdmitted y) e
        (
          same_ref ∙ same_name,
          record {
            state = ap is_admitted same_state ∙ st;
            digest = ap (is_digest w) same_digest ∙ dg;
            manifest = mf;
            fetched = record {
              found = r;
              got = ap w.get (same_ref ∙ same_name) ∙ got;
              named = sym same_ref;
              state = state_lem r.state st;
              digest = dg;
              copied = refl;
            };
          },
        )

  pub get_admitted-IsAdmitted :
      (ref : ArtifactRef) (r : CatalogRecord)
      → get_admitted w ref ≡ gave r
      → (r.ref ≡ ref) × IsAdmitted r
  unfolding get_admitted
  get_admitted-IsAdmitted ref r h =
      let (found, e, h') = both_gave (w.get ref) r h in admit_record-IsAdmitted ref found r e h'

  obtain-IsAdmitted :
      (missing : Bytes) (ref : ArtifactRef) (r : CatalogRecord)
      → obtain w missing ref ≡ gave r
      → (r.ref ≡ ref) × IsAdmitted r
  unfolding obtain
  obtain-IsAdmitted missing ref r h = get_admitted-IsAdmitted ref r (same (get_admitted w ref) refl)
    where
      same :
          (o : Outcome GetError CatalogRecord)
          → get_admitted w ref ≡ o
          → get_admitted w ref ≡ gave r
      same (gave x) e = ground arith
      same (failed not_found) e = absurd (ground arith)
      same (failed revoked) e = absurd (ground arith)
      same (failed other_error) e = absurd (ground arith)

  -- The policy answers for a reference, and allows to read it.
  abbrev pub MayRead : Principal → ArtifactRef → Type 0
  MayRead p ref = (d : Decision) × (w.decide p ref ≡ some d) × (d.allowed ≡ true)

  pub authorize-MayRead :
      (p : Principal) (ref : ArtifactRef) (u : Unit {0})
      → authorize w p ref ≡ gave u
      → MayRead p ref
  unfolding authorize
  authorize-MayRead p ref u h = elim (Option-cases (w.decide p ref)) [
    | inl e ↦ absurd (ground arith)
    | inr (d, e) ↦ (d, e, ground arith)
  ]

  authorize_part-MayRead :
      (p : Principal) (ref : ArtifactRef) (u : Unit {0})
      → authorize_part w p ref ≡ gave u
      → MayRead p ref
  unfolding authorize_part
  authorize_part-MayRead p ref u h = same (authorize w p ref) refl h
    where
      same :
          (o : Outcome ResolveError (Unit {0}))
          → authorize w p ref ≡ o
          → or_stop o ≡ gave u
          → MayRead p ref
      same (gave v) e k = authorize-MayRead p ref v e
      same (failed why) e k = absurd (cc)

  or_settle-gave :
      {A : Type 0} (reason : Bytes) (o : Option A) (a : A)
      → or_settle reason o ≡ gave a
      → o ≡ some a
  or_settle-gave reason none a h = absurd (cc)
  or_settle-gave reason (some x) a h = cc

  check_that-gave : (b : Bool) (stop : Stop) (u : Unit {0}) → check_that b stop ≡ gave u → b ≡ true
  check_that-gave true stop u h = refl
  check_that-gave false stop u h = absurd (cc)

  pub pin_record-IsAdmitted :
      (r : CatalogRecord) (p : ArtifactPin)
      → IsAdmitted r
      → pin_record w r ≡ some p
      → p ≡ pin_of w.to_lower w.sha256_hex r
  unfolding pin
  pin_record-IsAdmitted r p h e =
      let same = with_alias_complete r h.manifest in
      let d = h.digest in let m = h.manifest in ground arith

  -- The record of a reference, which the principal may read, and the pin of it.
  pub record Pinned (p : Principal) (ref : ArtifactRef) (r : CatalogRecord) (item : ArtifactPin)
      : Type 0 where
    pub named : r.ref ≡ ref
    pub admitted : IsAdmitted r
    pub allowed : MayRead p r.ref
    pub pinned : item ≡ pin_of w.to_lower w.sha256_hex r

  Pinned-steps :
      (p : Principal) (ref : ArtifactRef) (r : CatalogRecord) (item : ArtifactPin) (u : Unit {0})
      (missing reason : Bytes)
      → authorize_part w p ref ≡ gave u
      → obtain w missing ref ≡ gave r
      → or_settle reason (pin_record w r) ≡ gave item
      → Pinned p ref r item
  Pinned-steps p ref r item u missing reason a o i =
      let (same, admitted) = obtain-IsAdmitted missing ref r o in
      record {
        named = same;
        admitted = admitted;
        allowed = rw same (authorize_part-MayRead p ref u a);
        pinned =
            pin_record-IsAdmitted r item admitted (or_settle-gave reason (pin_record w r) item i);
      }

  pub admitted_capability-Pinned :
      (p : Principal) (cap_ref : ArtifactRef) (r : CatalogRecord) (item : ArtifactPin)
      → admitted_capability w p cap_ref ≡ gave (r, item)
      → Pinned p cap_ref r item
  unfolding admitted_capability
  admitted_capability-Pinned p cap_ref r item h =
      let (u, a, h1) = both_gave (authorize_part w p cap_ref) (r, item) h in
      let (x, o, h2) = both_gave (obtain w (codes "capability unavailable") cap_ref) (r, item) h1 in
      let (cm, d, h3) =
        both_gave (or_abort undecodable (w.decode_capability x.metadata)) (r, item) h2 in
      let (v, c, h4) =
        both_gave
          (check_that (bytes_eq cm.id cap_ref.id && bytes_eq cm.version cap_ref.version)
            (settle left_incomplete (codes "capability manifest identity mismatch")))
          (r, item) h3 in
      let (i, s, h5) =
        both_gave (or_settle (codes "capability closure incomplete") (pin_record w x)) (r, item)
          h4 in
      let e = gave-injective h5 in
      let er : x ≡ r = ap (λ y. y.0) e in
      let ei : i ≡ item = ap (λ y. y.1) e in
      subst (λ y. Pinned p cap_ref y item) er
        (subst (λ y. Pinned p cap_ref x y) ei (Pinned-steps p cap_ref x i u _ _ a o s))

  -- The metadata of a binding, and that it binds this capability.
  pub record Binds (cap_ref : ArtifactRef) (r : CatalogRecord) (bm : BindingMetadata) : Type 0 where
    pub decoded : w.decode_binding r.metadata ≡ some bm
    pub compatible : is_compatible w cap_ref r bm ≡ true

  pub admitted_binding-Pinned :
      (p : Principal) (cap_ref : ArtifactRef) (candidate r : CatalogRecord) (bm : BindingMetadata)
      (item : ArtifactPin)
      → admitted_binding w p cap_ref candidate ≡ gave (r, bm, item)
      → Pinned p candidate.ref r item × Binds cap_ref r bm
  unfolding admitted_binding
  admitted_binding-Pinned p cap_ref candidate r bm item h =
      let (u, a, h1) = both_gave (authorize_part w p candidate.ref) _ h in
      let (x, o, h2) = both_gave (obtain w (codes "binding unavailable") candidate.ref) _ h1 in
      let (m, d, h3) =
        both_gave (or_settle (codes "binding metadata is invalid") (w.decode_binding x.metadata)) _
          h2 in
      let (v, c, h4) =
        both_gave
          (check_that (is_compatible w cap_ref x m)
            (settle left_incomplete (codes "binding is incompatible or incomplete")))
          _ h3 in
      let (v', c', h5) =
        both_gave
          (check_that (not_empty m.id && not_empty m.version)
            (settle left_incomplete (codes "binding version is incomplete")))
          _ h4 in
      let (i, s, h6) =
        both_gave (or_settle (codes "binding closure incomplete") (pin_record w x)) _ h5 in
      let e = gave-injective h6 in
      let er : x ≡ r = ap (λ y. y.0) e in
      let ei : i ≡ item = ap (λ y. y.2) e in
      let em : m ≡ bm = ap (λ y. y.1) e in
      let binds_it : Binds cap_ref x m = record {
        decoded = or_settle-gave _ (w.decode_binding x.metadata) m d;
        compatible = check_that-gave (is_compatible w cap_ref x m) _ v c;
      } in
      subst (λ y. Pinned p candidate.ref y item × Binds cap_ref y bm) er
        (
          subst (λ y. Pinned p candidate.ref x y) ei (Pinned-steps p candidate.ref x i u _ _ a o s),
          subst (λ y. Binds cap_ref x y) em binds_it,
        )

  -- What the tool's contract says of itself and of the provider.
  pub record Executable (tool provider : CatalogRecord) (t : ToolContract) : Type 0 where
    pub decoded : w.decode_tool tool.metadata ≡ some t
    pub executable : is_executable tool.ref provider.ref t ≡ true
    pub support :
        (state : Bytes) × (w.decode_support_state provider.metadata ≡ some state)
        × (is_supported state ≡ true)

  abbrev pub Parts : Type 0
  Parts = CatalogRecord × ArtifactPin × CatalogRecord × ArtifactPin × ToolContract

  -- The tool and the provider are the records that the metadata of the binding name.
  abbrev pub PartsPinned : Principal → BindingMetadata → Parts → Type 0
  PartsPinned p bm (tool, tool_pin, provider, provider_pin, t) =
      (parse_ref p.workspace_id kind_tool bm.tool_ref ≡ some tool.ref)
      × (parse_ref p.workspace_id kind_provider bm.provider_ref ≡ some provider.ref)
      × Pinned p tool.ref tool tool_pin
      × Pinned p provider.ref provider provider_pin
      × Executable tool provider t

  pub admitted_parts-Pinned :
      (p : Principal) (bm : BindingMetadata) (parts : Parts)
      → admitted_parts w p bm ≡ gave parts
      → PartsPinned p bm parts
  unfolding admitted_parts
  admitted_parts-Pinned p bm parts h =
      let (tr, et, h1) =
        both_gave
          (or_settle (codes "binding tool reference is invalid")
            (parse_ref p.workspace_id kind_tool bm.tool_ref))
          parts h in
      let (pr, ep, h2) =
        both_gave
          (or_settle (codes "binding provider reference is invalid")
            (parse_ref p.workspace_id kind_provider bm.provider_ref))
          parts h1 in
      let (u, a, h3) = both_gave (authorize_part w p tr) parts h2 in
      let (v, b, h4) = both_gave (authorize_part w p pr) parts h3 in
      let (tool, ot, h5) = both_gave (obtain w (codes "binding tool unavailable") tr) parts h4 in
      let (provider, op, h6) =
        both_gave (obtain w (codes "binding provider unavailable") pr) parts h5 in
      let (tp, st, h7) =
        both_gave (or_settle (codes "tool closure incomplete") (pin_record w tool)) parts h6 in
      let (pp, sp, h8) =
        both_gave (or_settle (codes "provider closure incomplete") (pin_record w provider)) parts
          h7 in
      let (t, dt, h9) =
        both_gave
          (or_settle (codes "execution schema is incompatible or incomplete")
            (w.decode_tool tool.metadata))
          parts h8 in
      let (c, ec, h10) =
        both_gave
          (check_that (is_executable tr pr t)
            (settle left_incomplete (codes "execution schema is incompatible or incomplete")))
          parts h9 in
      let (s, ds, h11) =
        both_gave
          (or_settle (codes "provider is not admitted for resolution")
            (w.decode_support_state provider.metadata))
          parts h10 in
      let (d, ed, h12) =
        both_gave
          (check_that (is_supported s)
            (settle left_incomplete (codes "provider is not admitted for resolution")))
          parts h11 in
      let tool_named = (obtain-IsAdmitted _ tr tool ot).0 in
      let provider_named = (obtain-IsAdmitted _ pr provider op).0 in
      subst (PartsPinned p bm) (gave-injective h12) (
        or_settle-gave _ (parse_ref p.workspace_id kind_tool bm.tool_ref) tr et
            ∙ ap some (sym tool_named),
        or_settle-gave _ (parse_ref p.workspace_id kind_provider bm.provider_ref) pr ep
            ∙ ap some (sym provider_named),
        subst (λ x. Pinned p x tool tp) (sym tool_named) (Pinned-steps p tr tool tp u _ _ a ot st),
        subst (λ x. Pinned p x provider pp) (sym provider_named)
            (Pinned-steps p pr provider pp v _ _ b op sp),
        record {
          decoded = or_settle-gave _ (w.decode_tool tool.metadata) t dt;
          executable =
              rw ((obtain-IsAdmitted _ tr tool ot).0, (obtain-IsAdmitted _ pr provider op).0)
                (check_that-gave (is_executable tr pr t) _ c ec);
          support = (
            s,
            or_settle-gave _ (w.decode_support_state provider.metadata) s ds,
            check_that-gave (is_supported s) _ d ed,
          );
        },
      )
