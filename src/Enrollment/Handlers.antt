-- ===== src/Enrollment/Handlers.antt =====
-- enrollment.go: the three handlers. Each takes the state of the database and the request, and
-- gives the state behind its calls and the reply.
use gist.Prelude.{ℕ, Option, none, some}
use gist.Text.{Bytes, codes}
use gist.Outcome.{gave, failed}
use gist.Enrollment.{
  Config, Platform, FlowClaims, OpenFlow, HttpRequest, Invitation, Login, Reply, refused,
  StoreAnswer, done, denied, replay, broken, kept, value, http_error,
}
use gist.Enrollment.Requests.{
  Checked, unavailable, prepare_flow, to_github, login_denied, read_callback, login_unavailable,
  login_of, finish_login, read_invitation, invited_with,
}
use gist.Enrollment.Checks.{github_account, login_failure}

-- The calls of the database, each with the state behind it.
pub record EnrollmentStore (State : Type 0) : Type 0 where
  pub create_flow : State → Bytes → ℕ → State × StoreAnswer
  pub consume_flow : State → Bytes → ℕ → State × StoreAnswer
  pub complete_login : State → Login → State × StoreAnswer
  pub create_invitation : State → Invitation → State × StoreAnswer

module _ (cfg : Config) (w : Platform) {State : Type 0} (store : EnrollmentStore State) where
  abbrev pub begun : FlowClaims → Bytes → ℕ → State × StoreAnswer → State × Reply
  begun c cookie expires (s, done) = (s, to_github cfg w c cookie expires)
  begun c cookie expires (s, denied) = (s, refused (unavailable cfg w))
  begun c cookie expires (s, replay) = (s, refused (unavailable cfg w))
  begun c cookie expires (s, broken) = (s, refused (unavailable cfg w))

  abbrev pub begin_flow : State → Checked (FlowClaims × Bytes × ℕ) → State × Reply
  begin_flow s (failed e) = (s, refused e)
  begin_flow s (gave (c, cookie, expires)) =
      begun c cookie expires (store.create_flow s (w.sha256 c.state) expires)

  unfoldable pub start : State → HttpRequest → State × Reply
  unfolding prepare_flow
  start s r = begin_flow s (prepare_flow cfg w r)

  -- What `callback` does behind `CompleteLogin`.
  unfoldable pub after_login : OpenFlow → Bytes → State × StoreAnswer → State × Reply
  unfolding finish_login
  after_login flow account (s, done) = (s, finish_login cfg w flow account)
  after_login flow account (s, denied) = (
    s,
    login_failure flow.return_to 403 (codes "workspace access denied") (codes "access_denied"),
  )
  after_login flow account (s, replay) = (s, login_unavailable cfg w flow)
  after_login flow account (s, broken) = (s, login_unavailable cfg w flow)

  -- What it does with the account that GitHub named.
  unfoldable pub with_account : OpenFlow → State → Option Bytes → State × Reply
  unfolding after_login
  with_account flow s none =
      (s, login_failure flow.return_to 401 (codes "login denied") (codes "github_failed"))
  with_account flow s (some account) =
      after_login flow account (store.complete_login s (login_of cfg w flow account))

  -- What it does behind `ConsumeFlow`.
  unfoldable pub after_consume : Bytes → OpenFlow → State × StoreAnswer → State × Reply
  unfolding with_account github_account
  after_consume code flow (s, done) = with_account flow s (github_account cfg w code flow.verifier)
  after_consume code flow (s, replay) = (s, refused (login_denied cfg w))
  after_consume code flow (s, denied) = (s, login_unavailable cfg w flow)
  after_consume code flow (s, broken) = (s, login_unavailable cfg w flow)

  abbrev pub code_of : HttpRequest → Bytes
  code_of r = value r.query (codes "code")

  unfoldable pub with_flow : State → HttpRequest → Checked OpenFlow → State × Reply
  unfolding after_consume
  with_flow s r (failed e) = (s, refused e)
  with_flow s r (gave flow) =
      after_consume (code_of r) flow (store.consume_flow s (w.sha256 flow.state) (w.clock 1))

  unfoldable pub callback : State → HttpRequest → State × Reply
  unfolding read_callback with_flow
  callback s r = with_flow s r (read_callback cfg w r)

  abbrev pub invitation_answer : Bytes → Invitation → State × StoreAnswer → State × Reply
  invitation_answer token i (s, done) = (s, invited_with cfg w token i)
  invitation_answer token i (s, denied) =
      (s, refused (http_error 403 kept (codes "request denied")))
  invitation_answer token i (s, replay) =
      (s, refused (http_error 500 kept (codes "invitation unavailable")))
  invitation_answer token i (s, broken) =
      (s, refused (http_error 500 kept (codes "invitation unavailable")))

  abbrev pub ask_for : State → Checked (Bytes × Invitation) → State × Reply
  ask_for s (failed e) = (s, refused e)
  ask_for s (gave (token, i)) = invitation_answer token i (store.create_invitation s i)

  unfoldable pub create_invitation : State → HttpRequest → State × Reply
  unfolding read_invitation
  create_invitation s r = ask_for s (read_invitation cfg w r)
