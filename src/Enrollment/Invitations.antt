-- ===== src/Enrollment/Invitations.antt =====
-- enrollment.go: whom `createInvitation` lets ask the database for an invitation, and for what.
use mathlib.Core.List.{Mem}
use gist.Prelude.{
  ◌≡◌, ◌⊎◌, refl, sym, ap, ◌∙◌, true, false, ◌||◌, not, some, arith, Bool-cases, inl, inr,
}
use gist.Text.{Bytes, codes, is_empty, bytes_eq}
use gist.Text.Laws.{bytes_eq→eq}
use gist.Outcome.{gave, failed, both_gave, gave-injective}
use gist.Enrollment.{
  Config, Platform, HttpRequest, HttpError, InvitationInput, Invitation, Session, Reply, refuse_if,
  or_refuse, refused, http_error, kept,
}
use gist.Enrollment.Checks.{canonical_id}
use gist.Enrollment.Requests.{
  Checked, read_invitation, csrf, is_stranger, is_valid, invitation_for, random_token,
  invalid_invitation,
}
use gist.Enrollment.Handlers.{EnrollmentStore, create_invitation, ask_for, invitation_answer}
use gist.Enrollment.Callbacks.{refuse_if-gave, or_refuse-gave, true_of_negated}
use gist.Enrollment.Scopes.{AreGranted, subset-AreGranted, has_item-Mem}

module _ (cfg : Config) (w : Platform) where
  -- A member of the workspace, known by a session.
  pub record IsMember (p : Session) : Type 0 where
    pub id : is_empty p.id ≡ false
    pub subject : is_empty p.subject ≡ false
    pub workspace : Mem cfg.workspace_id p.workspaces

  -- What an invitation may hold.
  pub record IsOffer (asked : InvitationInput) : Type 0 where
    pub account : canonical_id asked.github_account_id ≡ true
    pub role : (asked.role ≡ codes "reader") ⊎ (asked.role ≡ codes "maintainer")
    pub filled : is_empty asked.scopes ≡ false
    pub scopes : AreGranted cfg.allowed_scopes asked.scopes

  -- A request for an invitation that passes all tests.
  pub record IsPermitted (r : HttpRequest) (token : Bytes) (i : Invitation) : Type 0 where
    pub member : Session
    pub asked : InvitationInput
    pub method : r.method ≡ codes "POST"
    pub origin : r.origin ≡ cfg.public_origin
    pub known : (w.authenticate r ≡ some member) × IsMember member
    pub unforged : r.csrf_header ≡ csrf cfg w member.subject
    pub body : (raw : Bytes) × (r.body ≡ some raw) × (w.decode_invitation raw ≡ some asked)
    pub offer : IsOffer asked
    pub invitation : invitation_for cfg w member asked token ≡ i

  member : (p : Session) → is_stranger cfg w p ≡ false → IsMember p
  member p h = record {
    id = ground arith;
    subject = ground arith;
    workspace = has_item-Mem p.workspaces cfg.workspace_id (ground arith);
  }

  role_of :
      (role : Bytes)
      → bytes_eq role (codes "reader") || bytes_eq role (codes "maintainer") ≡ true
      → (role ≡ codes "reader") ⊎ (role ≡ codes "maintainer")
  role_of role h = elim (Bool-cases (bytes_eq role (codes "reader"))) [
    | inl e ↦ inl (bytes_eq→eq role (codes "reader") e)
    | inr e ↦ inr (bytes_eq→eq role (codes "maintainer") (ground arith))
  ]

  offer : (asked : InvitationInput) → is_valid cfg w asked ≡ true → IsOffer asked
  offer asked h = record {
    account = ground arith;
    role = role_of asked.role (ground arith);
    filled = ground arith;
    scopes = subset-AreGranted asked.scopes cfg.allowed_scopes (ground arith);
  }

  read_invitation-IsPermitted :
      (r : HttpRequest) (token : Bytes) (i : Invitation)
      → read_invitation cfg w r ≡ gave (token, i)
      → IsPermitted r token i
  unfolding read_invitation
  read_invitation-IsPermitted r token i h =
      let last : Bytes × Invitation = (token, i) in
      let (u1, e1, h1) = both_gave _ last h in
      let (u2, e2, h2) = both_gave _ last h1 in
      let (p, e3, h3) = both_gave _ last h2 in
      let (u4, e4, h4) =
        both_gave
          (refuse_if (is_stranger cfg w p) (http_error 401 kept (codes "authentication required")))
          last h3 in
      let (u5, e5, h5) =
        both_gave
          (refuse_if (not (bytes_eq r.csrf_header (csrf cfg w p.subject)))
            (http_error 403 kept (codes "request denied")))
          last h4 in
      let (raw, e6, h6) = both_gave (or_refuse (invalid_invitation cfg w) r.body) last h5 in
      let (asked, e7, h7) =
        both_gave (or_refuse (invalid_invitation cfg w) (w.decode_invitation raw)) last h6 in
      let (u8, e8, h8) =
        both_gave (refuse_if (not (is_valid cfg w asked)) (invalid_invitation cfg w)) last h7 in
      let (tok, e9, h9) =
        both_gave
          (or_refuse (http_error 500 kept (codes "invitation unavailable")) (random_token cfg w 0))
          last h8 in
      let same = gave-injective h9 in
      record {
        member = p;
        asked = asked;
        method =
            bytes_eq→eq r.method (codes "POST")
              (true_of_negated cfg w _ (refuse_if-gave _ _ u1 e1));
        origin =
            bytes_eq→eq r.origin cfg.public_origin
              (true_of_negated cfg w _ (refuse_if-gave _ _ u2 e2));
        known = (or_refuse-gave _ _ p e3, member p (refuse_if-gave _ _ u4 e4));
        unforged =
            bytes_eq→eq r.csrf_header (csrf cfg w p.subject)
              (true_of_negated cfg w _ (refuse_if-gave _ _ u5 e5));
        body = (raw, or_refuse-gave _ _ raw e6, or_refuse-gave _ _ asked e7);
        offer = offer asked (true_of_negated cfg w _ (refuse_if-gave _ _ u8 e8));
        invitation =
            sym (ap (λ (x : Bytes × Invitation). invitation_for cfg w p asked x.0) same)
            ∙ ap (λ x. x.1) same;
      }

  module _ {State : Type 0} (store : EnrollmentStore State) where
    -- What a call of `createInvitation` comes to.
    pub data Invites (s : State) (r : HttpRequest) : State × Reply → Type 0 where
      refuses : (e : HttpError) → Invites s r (s, refused e)
      asks :
          (token : Bytes) (i : Invitation)
          → IsPermitted r token i
          → Invites s r (invitation_answer cfg w store token i (store.create_invitation s i))

    -- `createInvitation` leaves the database alone and answers with an error, or the request was a
    -- `POST` of the site's own origin by a member of the workspace with the member's CSRF token,
    -- for a canonical account, a known role and at least one scope, all of them allowed and none
    -- twice; then the database is asked once, for just this invitation, and answers for the reply.
    pub create_invitation-Invites :
        (s : State) (r : HttpRequest) → Invites s r (create_invitation cfg w store s r)
    unfolding create_invitation
    create_invitation-Invites s r = by_request (read_invitation cfg w r) refl
      where
        by_request :
            (o : Checked (Bytes × Invitation))
            → read_invitation cfg w r ≡ o
            → Invites s r (ask_for cfg w store s o)
        by_request (failed e) h = refuses e
        by_request (gave (token, i)) h = asks token i (read_invitation-IsPermitted r token i h)
