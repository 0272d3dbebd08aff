-- ===== src/Discovery/Answers.antt =====
-- catalog/discovery/index.go: what a search answers, from the request to the response.
use gist.Prelude.{
  ℕ, ◌≤◌, ◌≡◌, List, [], ◌∷◌, some, arith, All, Any, Option-cases, Bool-cases, inl, inr, length,
  pos_part,
}
use mathlib.Core.List.{Perm, Mem, mem-cons, mem-cons_self, mem-cons_of_mem, not-mem-nil}
use mathlib.Core.List.Perm
use mathlib.Core.Logic.Or
use gist.Outcome.{Outcome, gave, both_gave, gave-injective}
use gist.Catalog.{CatalogRecord}
use gist.Lexical.{query_of}
use gist.Discovery.{
  Candidate, Request, Response, RankedCandidate, SearchPage, Services, visible_of, present, respond,
  check_cursor, search_catalog, DiscoveryError, query_of_request, limit_of, fetch, is_invalid,
}
use gist.Discovery.Visible.{Discloses, visible_of-Discloses}
use gist.Discovery.Fitting.{
  IsFront, IsFront-All, IsFront-trans, IsFront-length, shown_by, IsRanked, Shrunk, Fits, fits,
  never, present-Fits,
}

All-of_mem : {A : Type 0} (P : A → Type 0) (xs : List A) → ((a : A) → Mem a xs → P a) → All P xs
All-of_mem P [] h = tt
All-of_mem P (x ∷ xs) h = (h x mem-cons_self, All-of_mem P xs (λ a m. h a (mem-cons_of_mem x m)))

module _ (w : Services) (req : Request) where
  -- One of the records is what the candidate shows.
  abbrev pub Shows : List CatalogRecord → Candidate → Type 0
  Shows rs c = ∥ Any (λ r. Discloses w req (query_of w.to_lower w.words req.query) r c) rs ∥₁

  -- A response to the request, from the records of the page that the catalog found.
  pub record Answers (page : SearchPage) (resp : Response) : Type 0 where
    pub found : w.find (query_of_request w req) ≡ some page
    pub shows : All (Shows page.records) resp.candidates
    pub limited : length resp.candidates ≤ limit_of w req
    pub fitting : w.response_size resp ≤ pos_part req.max_bytes
    pub ranked :
        (visible : List RankedCandidate) × (order : List RankedCandidate) × (visible_of w req
            (query_of w.to_lower w.words req.query)
            page.records
          ≡ gave visible)
        × IsRanked w visible order
        × IsFront resp.candidates (shown_by order)

  disclosed_mem :
      (rs : List CatalogRecord) (cs : List RankedCandidate) (rc : RankedCandidate)
      → All
          (λ (x : RankedCandidate).
            Any (λ r. Discloses w req (query_of w.to_lower w.words req.query) r x.candidate) rs)
          cs
      → Mem rc cs
      → Shows rs rc.candidate
  disclosed_mem rs [] rc h m = absurd (not-mem-nil m)
  disclosed_mem rs (x ∷ xs) rc h m =
      Or.elim (hlevel) (mem-cons.0 m) (λ e. rw e (∣ h.0 ∣₁)) (disclosed_mem rs xs rc h.1)

  disclosed_ranked :
      (rs : List CatalogRecord) (visible order : List RankedCandidate)
      → All
          (λ (x : RankedCandidate).
            Any (λ r. Discloses w req (query_of w.to_lower w.words req.query) r x.candidate) rs)
          visible
      → Perm order visible
      → All (Shows rs) (shown_by order)
  disclosed_ranked rs visible order h p = All-shown order (
      All-of_mem (λ (x : RankedCandidate). Shows rs x.candidate) order
        (λ rc m. disclosed_mem rs visible rc h ((Perm.mem_iff p).0 m)))
    where
      All-shown :
          (l : List RankedCandidate)
          → All (λ (x : RankedCandidate). Shows rs x.candidate) l
          → All (Shows rs) (shown_by l)
      All-shown [] h = tt
      All-shown (x ∷ xs) h = (h.0, All-shown xs h.1)

  present_lem :
      (page : SearchPage) (visible : List RankedCandidate) (resp : Response)
      → w.find (query_of_request w req) ≡ some page
      → visible_of w req (query_of w.to_lower w.words req.query) page.records ≡ gave visible
      → present w req page.next visible ≡ gave resp
      → Answers page resp
  present_lem page visible resp found seen shown =
      let (order, is_ranked, front, limited, ends) = present-Fits w req page.next visible in
      let discloses =
        visible_of-Discloses w req (query_of w.to_lower w.words req.query) page.records visible
          seen in
      let (shrunk, fitting) = fits_gave (present w req page.next visible) ends shown in
      let whole = IsFront-trans _ _ _ shrunk.front front in
      record {
        found = found;
        shows =
            IsFront-All (Shows page.records) resp.candidates (shown_by order) whole
              (disclosed_ranked page.records visible order discloses is_ranked.same);
        limited = omega (arith, IsFront-length _ _ shrunk.front);
        fitting = fitting;
        ranked = (visible, order, seen, is_ranked, whole);
      }
    where
      fits_gave :
          {max_bytes : ℕ} {r : Response} (o : Outcome DiscoveryError Response)
          → Fits w max_bytes r o
          → o ≡ gave resp
          → Shrunk w r resp × (w.response_size resp ≤ max_bytes)
      fits_gave o (fits r' f le) e = rw (← gave-injective e) (f, le)
      fits_gave o (never r' f none_left lt) e = absurd (cc)

  -- A response that a search gives shows only records of the page that the catalog found for it:
  -- of the principal's workspace, published or deprecated, allowed to the principal by the policy,
  -- passing the filters and, where the query has text, matching a word of it. It has at most as
  -- many candidates as the limit (20 where it is not positive): a front of all the candidates that
  -- the loop over the records of the page found, sorted by their ranks, the best match first. Its
  -- size is within `MaxBytes`.
  pub search_catalog-Answers :
      (resp : Response) → search_catalog w req ≡ gave resp → (page : SearchPage) × Answers page resp
  unfolding search_catalog respond
  search_catalog-Answers resp h = elim (Bool-cases (is_invalid w req)) [
    | inl invalid ↦ absurd (cc (rw invalid at h))
    | inr valid ↦
        let (checked, c, h') = both_gave (check_cursor w req) resp (rw valid at h) in
        let (page, f, h'') = both_gave (fetch w req) resp h' in
        let (visible, seen, shown) =
          both_gave (visible_of w req (query_of w.to_lower w.words req.query) page.records) resp
            h'' in
        (page, present_lem page visible resp (fetched page f) seen shown)
  ]
    where
      fetched :
          (page : SearchPage)
          → fetch w req ≡ gave page
          → w.find (query_of_request w req) ≡ some page
      fetched page f = elim (Option-cases (w.find (query_of_request w req))) [
        | inl e ↦ absurd (ground arith)
        | inr (p, e) ↦ ground arith
      ]
