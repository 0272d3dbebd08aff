-- ===== src/Discovery.antt =====
-- catalog/discovery/index.go: the search of the catalog on behalf of a principal. What the service
-- calls is the record `Services`; `none` is an error there. The cache of cache.go is no part of a
-- search: every request reads the current records.
mod Visible
mod Answers
mod Fitting
mod Tests
use Prim.Native.Nat.{Ordering}
use gist.Prelude.{
  ℕ, zero, suc, ◌+◌, ◌-◌, ◌/◌, ℤ, is_positive, pos_part, List, [], ◌∷◌, ◌++◌, Bool, true, false,
  ◌&&◌, ◌||◌, Option, none, some, ◌==◌, leb, ltb, length, take, if◌then◌else◌, not,
}
use gist.Text.{Bytes, codes, is_empty, bytes_eq, trim_space}
use gist.Sort.{SliceSort}
use gist.Outcome.{Outcome, gave, failed, ◌>>=◌}
use gist.Compare.{is_less}
use gist.Catalog.{ArtifactRef, CatalogRecord, Principal, Decision, Cursor}
use gist.Version.{compare_bytes}
use gist.Lexical
use gist.Lexical.{
  Match, no_match, matched, better, document_from_metadata, new_index, index_score, query_of,
}

pub record Candidate : Type 0 where
  pub ref : ArtifactRef
  pub kind : Bytes
  pub id : Bytes
  pub version : Bytes
  pub logical_name : Bytes
  pub summary : Bytes
  pub trust : Bytes
  pub tags : List Bytes
  pub required_capability_count : ℕ
  pub resolution_required : Bool
  pub estimated_bytes : ℤ

pub record Request : Type 0 where
  pub principal : Principal
  pub query : Bytes
  pub kinds : List Bytes
  pub tags : List Bytes
  pub cursor : Cursor
  pub limit : ℤ
  pub max_bytes : ℤ

pub record Response : Type 0 where
  pub candidates : List Candidate
  pub next_cursor : Option Cursor
  pub token_estimate : ℕ

-- The metadata that a candidate shows, with the number of its required capabilities.
pub record Metadata : Type 0 where
  pub logical_name : Bytes
  pub summary : Bytes
  pub trust : Bytes
  pub tags : List Bytes
  pub required_capabilities : ℕ
  pub estimated_bytes : ℤ

pub record SearchQuery : Type 0 where
  pub principal : Principal
  pub text : Bytes
  pub kinds : List Bytes
  pub tags : List Bytes
  pub cursor : Cursor
  pub limit : ℕ
  pub max_bytes : ℕ

pub record SearchPage : Type 0 where
  pub records : List CatalogRecord
  pub next : Cursor

-- A visible candidate with its match.
pub record RankedCandidate : Type 0 where
  pub candidate : Candidate
  pub lexical_match : Match

pub data DiscoveryError : Type 0 where
  invalid_request expired_cursor foreign_cursor search_failed other_workspace : DiscoveryError
  authorize_failed decode_failed budget_exceeded : DiscoveryError

-- The catalog's index, the policy, the clock, and the packages that the service calls: the JSON
-- decoders, the size of a response in JSON, `strings.EqualFold`, `strings.ToLower`, the cut of a
-- text into words, the hash of a principal and `sort.SliceStable`.
pub record Services : Type 0 where
  pub find : SearchQuery → Option SearchPage
  pub decide : Principal → ArtifactRef → Option Decision
  pub now : ℕ
  pub principal_hash : Principal → Bytes
  pub decode : Bytes → Option Metadata
  pub decode_lexical : Bytes → Option Lexical.Metadata
  pub response_size : Response → ℕ
  pub equal_fold : Bytes → Bytes → Bool
  pub to_lower : Bytes → Bytes
  pub words : Bytes → List Bytes
  pub sorter : SliceSort RankedCandidate

abbrev no_metadata : Metadata
no_metadata = record {
  logical_name = [];
  summary = [];
  trust = [];
  tags = [];
  required_capabilities = 0;
  estimated_bytes = ℤ.pos 0;
}

abbrev candidate_of : CatalogRecord → Metadata → Candidate
candidate_of r m = record {
  ref = r.ref;
  kind = r.ref.kind;
  id = r.ref.id;
  version = r.ref.version;
  logical_name = m.logical_name;
  summary = m.summary;
  trust = m.trust;
  tags = m.tags;
  required_capability_count = m.required_capabilities;
  resolution_required = ltb 0 m.required_capabilities;
  estimated_bytes = m.estimated_bytes;
}

unfoldable pub candidate_from_record : (Bytes → Option Metadata) → CatalogRecord → Option Candidate
candidate_from_record decode r =
    elim (if is_empty r.metadata then some no_metadata else decode r.metadata) [
      | none ↦ none
      | some m ↦ some (candidate_of r m)
    ]

unfoldable pub has_kind : List Bytes → Bytes → Bool
has_kind [] kind = false
has_kind (k ∷ ks) kind = let rest = has_kind ks kind in if bytes_eq kind k then true else rest

unfoldable pub has_tag : (Bytes → Bytes → Bool) → List Bytes → Bytes → Bool
has_tag fold [] wanted = false
has_tag fold (t ∷ ts) wanted =
    let rest = has_tag fold ts wanted in if fold t wanted then true else rest

unfoldable pub has_tags : (Bytes → Bytes → Bool) → List Bytes → List Bytes → Bool
unfolding has_tag
has_tags fold tags [] = true
has_tags fold tags (w ∷ ws) =
    let rest = has_tags fold tags ws in if has_tag fold tags w then rest else false

unfoldable pub matches_filters : (Bytes → Bytes → Bool) → Candidate → Request → Bool
unfolding has_kind has_tags
matches_filters fold c req =
    (if is_empty req.kinds then true else has_kind req.kinds c.kind)
    && has_tags fold c.tags req.tags

abbrev pub is_text_query : Request → Bool
is_text_query req = not (is_empty (trim_space req.query))

unfoldable pub is_readable : Bytes → Bool
is_readable state = bytes_eq state (codes "published") || bytes_eq state (codes "deprecated")

-- The order of two candidates of equal match: by kind, identifier and version.
unfoldable pub ref_less : Candidate → Candidate → Bool
ref_less a b =
    if not (bytes_eq a.kind b.kind)
    then is_less (compare_bytes a.kind b.kind)
    else if not (bytes_eq a.id b.id)
    then is_less (compare_bytes a.id b.id)
    else is_less (compare_bytes a.version b.version)

abbrev pub by_sign : Ordering → Bool → Bool
by_sign Ordering.gt tie = true
by_sign Ordering.eq tie = tie
by_sign Ordering.lt tie = false

unfoldable pub ranks_before : RankedCandidate → RankedCandidate → Bool
unfolding ref_less
ranks_before a b =
    by_sign (better a.lexical_match b.lexical_match) (ref_less a.candidate b.candidate)

abbrev pub plain_response : List Candidate → Response
plain_response cs = record { candidates = cs; next_cursor = none; token_estimate = 0 }

module _ (w : Services) where
  -- The test of the query's words, for a candidate that passed the filters.
  unfoldable pub match_text :
      Request
      → List Bytes
      → CatalogRecord
      → Candidate
      → Outcome DiscoveryError (Option RankedCandidate)
  match_text req terms r c =
      if is_text_query req
      then elim (document_from_metadata w.decode_lexical r.ref.kind r.ref.id r.metadata) [
        | none ↦ failed decode_failed
        | some d ↦
            let m = index_score (new_index w.to_lower w.words d) terms in
            if matched m
            then gave (some (record { candidate = c; lexical_match = m }))
            else gave none
      ]
      else gave (some (record { candidate = c; lexical_match = no_match }))

  -- A record that the policy shows.
  unfoldable pub examine :
      Request → List Bytes → CatalogRecord → Outcome DiscoveryError (Option RankedCandidate)
  unfolding match_text
  examine req terms r = elim (candidate_from_record w.decode r) [
    | none ↦ failed decode_failed
    | some c ↦ if matches_filters w.equal_fold c req then match_text req terms r c else gave none
  ]

  -- One round of the loop over the records of a page.
  unfoldable pub visit :
      Request → List Bytes → CatalogRecord → Outcome DiscoveryError (Option RankedCandidate)
  unfolding examine
  visit req terms r =
      if not (bytes_eq r.ref.workspace_id req.principal.workspace_id)
      then failed other_workspace
      else if not (is_readable r.state)
      then gave none
      else elim (w.decide req.principal r.ref) [
        | none ↦ failed authorize_failed
        | some d ↦ if d.allowed then examine req terms r else gave none
      ]

  abbrev pub cons_some : Option RankedCandidate → List RankedCandidate → List RankedCandidate
  cons_some none cs = cs
  cons_some (some c) cs = c ∷ cs

  unfoldable pub visible_of :
      Request → List Bytes → List CatalogRecord → Outcome DiscoveryError (List RankedCandidate)
  unfolding visit
  visible_of req terms [] = gave []
  visible_of req terms (r ∷ rs) = do
    c ← visit req terms r
    cs ← visible_of req terms rs
    gave (cons_some c cs)

  -- The loop that adds candidates, up to the limit and while the response fits.
  unfoldable pub fill : ℕ → ℕ → List RankedCandidate → List Candidate → List Candidate
  fill limit max_bytes [] shown = shown
  fill limit max_bytes (r ∷ rs) shown =
      let rest = fill limit max_bytes rs (shown ++ r.candidate ∷ []) in
      if length shown == limit
      then shown
      else if ltb max_bytes (w.response_size (plain_response (shown ++ r.candidate ∷ [])))
      then shown
      else rest

  unfoldable pub estimated : Response → Response
  estimated r = record r { token_estimate = (w.response_size r + 3) / 4 }

  abbrev pub drop_last : Response → Response
  drop_last r = record r { candidates = take (length r.candidates - 1) r.candidates }

  -- The last loop: candidates are taken away until the response fits. `rounds` is fuel.
  unfoldable pub shrink : ℕ → ℕ → Response → Outcome DiscoveryError Response
  unfolding estimated
  shrink zero max_bytes r = failed budget_exceeded
  shrink (suc rounds) max_bytes r =
      let next = estimated r in
      let rest = shrink rounds max_bytes (drop_last next) in
      if leb (w.response_size next) max_bytes
      then gave next
      else if is_empty next.candidates
      then failed budget_exceeded
      else rest

  abbrev pub limit_of : Request → ℕ
  limit_of req = if is_positive req.limit then pos_part req.limit else 20

  abbrev pub next_of : Cursor → Option Cursor
  next_of next = if is_empty next.id then none else some next

  abbrev pub filled : Request → Cursor → List RankedCandidate → Response
  filled req next ranked = record {
    candidates = fill (limit_of req) (pos_part req.max_bytes) ranked [];
    next_cursor = next_of next;
    token_estimate = 0;
  }

  -- What follows the loop over the records.
  unfoldable pub present : Request → Cursor → List RankedCandidate → Outcome DiscoveryError Response
  unfolding fill shrink
  present req next visible =
      let r = filled req next (w.sorter.run ranks_before visible) in
      shrink (suc (length r.candidates)) (pos_part req.max_bytes) r

  unfoldable pub respond : Request → SearchPage → Outcome DiscoveryError Response
  unfolding visible_of present
  respond req page = do
    visible ← visible_of req (query_of w.to_lower w.words req.query) page.records
    present req page.next visible

  -- The checks of the cursor.
  unfoldable pub check_cursor : Request → Outcome DiscoveryError (Unit {0})
  check_cursor req =
      if is_empty req.cursor.id
      then gave tt
      else if not (bytes_eq req.cursor.workspace_id req.principal.workspace_id)
          || leb req.cursor.expires_at w.now
      then failed expired_cursor
      else if not (is_empty req.cursor.principal_hash)
          && not (bytes_eq req.cursor.principal_hash (w.principal_hash req.principal))
      then failed foreign_cursor
      else gave tt

  abbrev pub query_of_request : Request → SearchQuery
  query_of_request req = record {
    principal = req.principal;
    text = req.query;
    kinds = req.kinds;
    tags = req.tags;
    cursor = req.cursor;
    limit = limit_of req;
    max_bytes = pos_part req.max_bytes;
  }

  abbrev pub is_invalid : Request → Bool
  is_invalid req =
      is_empty req.principal.workspace_id
      || is_empty req.principal.subject
      || not (is_positive req.max_bytes)

  abbrev pub fetch : Request → Outcome DiscoveryError SearchPage
  fetch req = elim (w.find (query_of_request req)) [
    | none ↦ failed search_failed
    | some page ↦ gave page
  ]

  unfoldable pub search_catalog : Request → Outcome DiscoveryError Response
  unfolding check_cursor respond
  search_catalog req =
      if is_invalid req
      then failed invalid_request
      else do _ ← check_cursor req; page ← fetch req; respond req page
