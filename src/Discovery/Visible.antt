-- ===== src/Discovery/Visible.antt =====
-- catalog/discovery/index.go: which records a response discloses, and which leave no trace in it.
use gist.Prelude.{
  ◌≡◌, ◌⊎◌, refl, subst, List, [], ◌∷◌, ◌++◌, Bool, true, false, Option, none, some, arith, All,
  All-mono, Any, Option-cases, inl, inr,
}
use gist.Text.{Bytes, bytes_eq}
use gist.Text.Laws.{bytes_eq→eq}
use gist.Outcome.{Outcome, gave, failed, ◌>>=◌, both_gave, gave-injective}
use gist.Catalog.{CatalogRecord, Decision}
use gist.Lexical.{Document, matched, document_from_metadata, new_index, index_score, query_of}
use gist.Discovery.{
  Candidate, Request, RankedCandidate, SearchPage, Services, DiscoveryError, candidate_from_record,
  matches_filters, is_text_query, is_readable, match_text, examine, visit, cons_some, visible_of,
  respond,
}

module _ (w : Services) (req : Request) where
  -- The policy answers for a record, and allows or denies it.
  abbrev pub Decides : CatalogRecord → Bool → Type 0
  Decides r answer = (d : Decision) × (w.decide req.principal r.ref ≡ some d) × (d.allowed ≡ answer)

  -- A record of the workspace that is not readable, or that the policy denies.
  pub record Hidden (r : CatalogRecord) : Type 0 where
    pub own_workspace : bytes_eq r.ref.workspace_id req.principal.workspace_id ≡ true
    pub denied : (is_readable r.state ≡ false) ⊎ Decides r false

module _ (w : Services) (req : Request) (terms : List Bytes) where
  abbrev MatchesText : CatalogRecord → Type 0
  MatchesText r =
      (d : Document) × (document_from_metadata w.decode_lexical r.ref.kind r.ref.id r.metadata
        ≡ some d)
      × (matched (index_score (new_index w.to_lower w.words d) terms) ≡ true)

  -- The candidate shows this record, and the principal may see it and asked for it.
  pub record Discloses (r : CatalogRecord) (c : Candidate) : Type 0 where
    pub own_workspace : r.ref.workspace_id ≡ req.principal.workspace_id
    pub readable : is_readable r.state ≡ true
    pub allowed : Decides w req r true
    pub shown : candidate_from_record w.decode r ≡ some c
    pub filtered : matches_filters w.equal_fold c req ≡ true
    pub matching : is_text_query req ≡ true → MatchesText r

  match_text_lem :
      (r : CatalogRecord) (c : Candidate) (rc : RankedCandidate)
      → match_text w req terms r c ≡ gave (some rc)
      → (rc.candidate ≡ c) × (is_text_query req ≡ true → MatchesText r)
  unfolding match_text
  match_text_lem r c rc h =
      elim (Option-cases (document_from_metadata w.decode_lexical r.ref.kind r.ref.id r.metadata)) [
        | inl e ↦ (ground arith, λ q. absurd (ground arith))
        | inr (d, e) ↦ (ground arith, λ q. (d, e, ground arith))
      ]

  examine_lem :
      (r : CatalogRecord) (rc : RankedCandidate)
      → examine w req terms r ≡ gave (some rc)
      → (candidate_from_record w.decode r ≡ some rc.candidate)
        × (matches_filters w.equal_fold rc.candidate req ≡ true)
        × (is_text_query req ≡ true → MatchesText r)
  unfolding examine
  examine_lem r rc h = elim (Option-cases (candidate_from_record w.decode r)) [
    | inl e ↦ absurd (ground arith)
    | inr (c, e) ↦
        let test : matches_filters w.equal_fold c req ≡ true = ground arith in
        let text : match_text w req terms r c ≡ gave (some rc) = ground arith in
        let (same, matching) = match_text_lem r c rc text in (rw same e, rw same test, matching)
  ]

  visit-Discloses :
      (r : CatalogRecord) (rc : RankedCandidate)
      → visit w req terms r ≡ gave (some rc)
      → Discloses r rc.candidate
  unfolding visit
  visit-Discloses r rc h = elim (Option-cases (w.decide req.principal r.ref)) [
    | inl e ↦ absurd (ground arith)
    | inr (d, e) ↦
        let ws : bytes_eq r.ref.workspace_id req.principal.workspace_id ≡ true = ground arith in
        let examined : examine w req terms r ≡ gave (some rc) = ground arith in
        let (shown, filtered, matching) = examine_lem r rc examined in
        record {
          own_workspace = bytes_eq→eq r.ref.workspace_id req.principal.workspace_id ws;
          readable = ground arith;
          allowed = (d, e, ground arith);
          shown = shown;
          filtered = filtered;
          matching = matching;
        }
  ]

  Any-later :
      (rc : RankedCandidate) (r : CatalogRecord) (rs : List CatalogRecord)
      → Any (λ x. Discloses x rc.candidate) rs
      → Any (λ x. Discloses x rc.candidate) (r ∷ rs)
  Any-later rc r rs h = inr h

  -- Each visible candidate shows one of the records.
  pub visible_of-Discloses :
      (rs : List CatalogRecord) (cs : List RankedCandidate)
      → visible_of w req terms rs ≡ gave cs
      → All (λ (rc : RankedCandidate). Any (λ r. Discloses r rc.candidate) rs) cs
  unfolding visible_of
  visible_of-Discloses [] cs h = subst (All _) (gave-injective h) tt
  visible_of-Discloses (r ∷ rs) cs h =
      let (first, e, h') = both_gave (visit w req terms r) cs h in
      let (others, e', h'') = both_gave (visible_of w req terms rs) cs h' in
      subst (All (λ (rc : RankedCandidate). Any (λ x. Discloses x rc.candidate) (r ∷ rs)))
        (gave-injective h'')
        (with_first first e others
          (All-mono (λ rc. Any-later rc r rs) others (visible_of-Discloses rs others e')))
    where
      with_first :
          (first : Option RankedCandidate)
          → visit w req terms r ≡ gave first
          → (others : List RankedCandidate)
          → All (λ (rc : RankedCandidate). Any (λ x. Discloses x rc.candidate) (r ∷ rs)) others
          → All
              (λ (rc : RankedCandidate). Any (λ x. Discloses x rc.candidate) (r ∷ rs))
              (cons_some w first others)
      with_first none e others rest = rest
      with_first (some rc) e others rest = (inl (visit-Discloses r rc e), rest)

  visit-Hidden : (r : CatalogRecord) → Hidden w req r → visit w req terms r ≡ gave none
  unfolding visit
  visit-Hidden r h = elim h.denied [
    | inl unreadable ↦ let ws = h.own_workspace in ground arith
    | inr (d, e, no_access) ↦ let ws = h.own_workspace in ground arith
  ]

  unchanged :
      (rest : Outcome DiscoveryError (List RankedCandidate))
      → (rest >>= λ cs. gave (cons_some w none cs)) ≡ rest
  unchanged (gave cs) = refl
  unchanged (failed why) = refl

  visible_of-Hidden :
      (before behind : List CatalogRecord) (r : CatalogRecord)
      → Hidden w req r
      → visible_of w req terms (before ++ r ∷ behind) ≡ visible_of w req terms (before ++ behind)
  unfolding visible_of
  visible_of-Hidden [] behind r h =
      rw (visit-Hidden r h) (unchanged (visible_of w req terms behind))
  visible_of-Hidden (x ∷ before) behind r h = rw (visible_of-Hidden before behind r h) refl

-- A record of the principal's own workspace that is not readable, or that the policy denies to the
-- principal, changes nothing in what is answered, wherever it stands among the records of the page:
-- with it and without it the response, or the error, is the same.
pub respond-Hidden :
    (w : Services) (req : Request) (page : SearchPage) (before behind : List CatalogRecord)
    (r : CatalogRecord)
    → Hidden w req r
    → respond w req (record page { records = before ++ r ∷ behind })
      ≡ respond w req (record page { records = before ++ behind })
unfolding respond
respond-Hidden w req page before behind r h =
    rw (visible_of-Hidden w req (query_of w.to_lower w.words req.query) before behind r h) refl
