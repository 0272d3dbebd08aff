-- ===== src/Enrollment/Requests.antt =====
-- enrollment.go: what the handlers read of a request and test, up to the calls of the database, and
-- the replies they have ready.
use gist.Prelude.{
  ℕ, ◌+◌, List, [], ◌∷◌, ◌++◌, Bool, false, ◌&&◌, ◌||◌, not, Option, none, some, leb, ltb, ◌==◌,
  if◌then◌else◌, length,
}
use gist.Text.{Bytes, codes, is_empty, bytes_eq}
use gist.Outcome.{Outcome, gave, failed, ◌>>=◌}
use gist.Enrollment.{
  Config, Platform, Values, FlowClaims, OpenFlow, HttpRequest, InvitationInput, Invitation, Login,
  Session, Reply, HttpError, kept, cleared, sealed_until, signed_in, invited, redirect_to_github,
  all_of, value, has_key, refuse_if, or_refuse, http_error, redirect,
}
use gist.Enrollment.Checks.{
  has_item, subset, canonical_id, read_return_to, seal_flow, claims_of, open_flow, login_failure,
}

abbrev pub Checked : Type 0 → Type 0
Checked = Outcome HttpError

module _ (cfg : Config) (w : Platform) where
  abbrev pub random_token : ℕ → Option Bytes
  random_token i = elim (w.random i) [ none ↦ none | some b ↦ some (w.encode b) ]

  -- `h.csrf`
  abbrev pub csrf : Bytes → Bytes
  csrf subject =
      w.encode (w.hmac (codes "gist-enrollment-csrf" ++ (0 ∷ subject ++ (0 ∷ cfg.workspace_id))))

  abbrev pub is_32_bytes : Option Bytes → Bool
  is_32_bytes none = false
  is_32_bytes (some raw) = length raw == 32

  abbrev pub bad_target : HttpError
  bad_target = http_error 400 kept (codes "invalid sign-in return target")

  abbrev pub unavailable : HttpError
  unavailable = http_error 500 kept (codes "login unavailable")

  abbrev pub is_form : Option Bytes → Bool
  is_form none = false
  is_form (some t) = bytes_eq t (codes "application/x-www-form-urlencoded")

  abbrev pub is_single : List Bytes → Bool
  is_single vs = length vs == 1

  -- The invitation and the return target of a `POST`.
  unfoldable pub read_start_form : HttpRequest → Checked (Bytes × Bytes)
  read_start_form r = do
    _ ← refuse_if (has_key r.query (codes "invite") || has_key r.query (codes "return_to")) (
        http_error 400 kept
          (codes "invitation and return target must be submitted in the request body"))
    _ ←
        refuse_if (not (bytes_eq r.origin cfg.public_origin))
          (http_error 403 kept (codes "request denied"))
    _ ←
        refuse_if (not (is_form r.media_type))
          (http_error 415 kept (codes "unsupported media type"))
    form ← or_refuse (http_error 400 kept (codes "invalid invitation")) r.post_form
    _ ←
        refuse_if (not (is_single (all_of form (codes "invite"))))
          (http_error 400 kept (codes "invalid invitation"))
    target ← or_refuse bad_target (read_return_to cfg w form)
    gave (value form (codes "invite"), target)

  -- The return target of a `GET`, which names no invitation.
  unfoldable pub read_start_link : HttpRequest → Checked (Bytes × Bytes)
  read_start_link r = do
    _ ←
        refuse_if (has_key r.query (codes "invite"))
          (http_error 400 kept (codes "invitation must be submitted in a same-origin form"))
    target ← or_refuse bad_target (read_return_to cfg w r.query)
    gave ([], target)

  unfoldable pub read_start : HttpRequest → Checked (Bytes × Bytes)
  unfolding read_start_form read_start_link
  read_start r =
      if bytes_eq r.method (codes "GET")
      then read_start_link r
      else if bytes_eq r.method (codes "POST")
      then read_start_form r
      else failed (http_error 405 kept (codes "method not allowed"))

  -- What `start` has ready when it calls the database: the claims, the cookie and its end.
  unfoldable pub prepare_flow : HttpRequest → Checked (FlowClaims × Bytes × ℕ)
  unfolding read_start seal_flow
  prepare_flow r = do
    (invite, return_to) ← read_start r
    _ ←
        refuse_if (not (is_empty invite) && not (is_32_bytes (w.decode invite)))
          (http_error 400 kept (codes "invalid invitation"))
    state ← or_refuse unavailable (random_token 0)
    verifier ← or_refuse unavailable (random_token 1)
    let expires = w.clock 0 + cfg.flow_ttl
    let claims = claims_of cfg w state verifier invite return_to expires
    cookie ← or_refuse unavailable (seal_flow cfg w claims)
    gave (claims, cookie, expires)

  abbrev pub github_query : FlowClaims → List (Bytes × Bytes)
  github_query c =
      (codes "client_id", cfg.client_id)
      ∷ (codes "redirect_uri", cfg.callback_url)
      ∷ (codes "state", c.state)
      ∷ (codes "code_challenge", w.encode (w.sha256 c.verifier))
      ∷ (codes "code_challenge_method", codes "S256")
      ∷ []

  abbrev pub to_github : FlowClaims → Bytes → ℕ → Reply
  to_github c cookie expires = record {
    status = 302;
    body = redirect_to_github (github_query c);
    flow = sealed_until cookie expires;
    session = none;
  }

  -- The form of a callback, opened and tested.
  abbrev pub login_denied : HttpError
  login_denied = http_error 400 cleared (codes "login denied")

  abbrev pub is_malformed : Values → Bool
  is_malformed q =
      not (is_single (all_of q (codes "state")))
      || (not (is_single (all_of q (codes "code")))
          || (is_empty (value q (codes "code"))
              || (ltb 4096 (length (value q (codes "code")))
                  || not (is_empty (value q (codes "error"))))))

  unfoldable pub read_callback : HttpRequest → Checked OpenFlow
  unfolding open_flow
  read_callback r = do
    _ ←
        refuse_if (not (bytes_eq r.method (codes "GET")))
          (http_error 405 kept (codes "method not allowed"))
    cookie ← or_refuse login_denied r.flow_cookie
    _ ← refuse_if (is_malformed r.query) login_denied
    flow ← or_refuse login_denied (open_flow cfg w cookie)
    _ ←
        refuse_if
          (not (bytes_eq flow.state (value r.query (codes "state")))
            || leb flow.expires_at (w.clock 0))
          login_denied
    gave flow

  abbrev pub login_unavailable : OpenFlow → Reply
  login_unavailable flow =
      login_failure flow.return_to 500 (codes "login unavailable") (codes "service_unavailable")

  abbrev pub signed_in_as : OpenFlow → Bytes → Bytes → Reply
  signed_in_as flow account cookie =
      if is_empty flow.return_to
      then record {
        status = 200;
        body = signed_in (csrf account);
        flow = cleared;
        session = some cookie;
      }
      else record (redirect 302 cleared flow.return_to) { session = some cookie }

  abbrev pub hash_of_invitation : OpenFlow → Option Bytes
  hash_of_invitation flow =
      if is_empty flow.invitation then none else some (w.sha256 flow.invitation)

  abbrev pub login_of : OpenFlow → Bytes → Login
  login_of flow account = record {
    workspace_id = cfg.workspace_id;
    account = account;
    invitation_hash = hash_of_invitation flow;
    founder_account = cfg.founder_account;
    workspace_name = cfg.workspace_name;
    bootstrap_scopes = cfg.bootstrap_scopes;
    now = w.clock 2;
  }

  -- What `callback` does with the session.
  unfoldable pub finish_login : OpenFlow → Bytes → Reply
  unfolding login_failure
  finish_login flow account = elim (w.issue account (cfg.workspace_id ∷ []) cfg.session_ttl) [
    | none ↦ login_unavailable flow
    | some cookie ↦ signed_in_as flow account cookie
  ]

  abbrev pub invalid_invitation : HttpError
  invalid_invitation = http_error 400 kept (codes "invalid invitation")

  abbrev pub is_stranger : Session → Bool
  is_stranger p =
      is_empty p.id || (is_empty p.subject || not (has_item p.workspaces cfg.workspace_id))

  abbrev pub is_valid : InvitationInput → Bool
  is_valid asked =
      canonical_id asked.github_account_id
      && ((bytes_eq asked.role (codes "reader") || bytes_eq asked.role (codes "maintainer"))
          && (not (is_empty asked.scopes) && subset asked.scopes cfg.allowed_scopes))

  abbrev pub invitation_for : Session → InvitationInput → Bytes → Invitation
  invitation_for p asked token = record {
    workspace_id = cfg.workspace_id;
    subject = p.subject;
    account = asked.github_account_id;
    role = asked.role;
    scopes = asked.scopes;
    token_hash = w.sha256 token;
    expires_at = w.clock 0 + cfg.invitation_ttl;
  }

  -- `createInvitation`: what is asked of the database.
  unfoldable pub read_invitation : HttpRequest → Checked (Bytes × Invitation)
  unfolding subset canonical_id
  read_invitation r = do
    _ ←
        refuse_if (not (bytes_eq r.method (codes "POST")))
          (http_error 405 kept (codes "method not allowed"))
    _ ←
        refuse_if (not (bytes_eq r.origin cfg.public_origin))
          (http_error 403 kept (codes "request denied"))
    p ← or_refuse (http_error 401 kept (codes "authentication required")) (w.authenticate r)
    _ ← refuse_if (is_stranger p) (http_error 401 kept (codes "authentication required"))
    _ ←
        refuse_if (not (bytes_eq r.csrf_header (csrf p.subject)))
          (http_error 403 kept (codes "request denied"))
    raw ← or_refuse invalid_invitation r.body
    asked ← or_refuse invalid_invitation (w.decode_invitation raw)
    _ ← refuse_if (not (is_valid asked)) invalid_invitation
    token ← or_refuse (http_error 500 kept (codes "invitation unavailable")) (random_token 0)
    gave (token, invitation_for p asked token)

  abbrev pub invited_with : Bytes → Invitation → Reply
  invited_with token i = record {
    status = 201;
    body = invited token i.expires_at;
    flow = kept;
    session = none;
  }
