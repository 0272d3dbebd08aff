-- ===== src/Enrollment/Callbacks.antt =====
-- enrollment.go: what stands behind a session that `callback` issues, and that a flow issues one
-- session at most.
use gist.Prelude.{
  ◌≡◌, refl, subst, [], ◌∷◌, Bool, true, false, ◌||◌, not, Option, none, some, leb, ◌<◌, arith,
  Option-cases, inl, inr,
}
use gist.Text.{Bytes, codes, bytes_eq}
use gist.Text.Laws.{bytes_eq→eq}
use gist.Outcome.{gave, failed, both_gave, gave-injective}
use gist.Enrollment.{
  Config, Platform, OpenFlow, HttpRequest, StoreAnswer, done, denied, replay, broken, refuse_if,
  or_refuse, value,
}
use gist.Enrollment.Checks.{open_flow, github_account, login_failure}
use gist.Enrollment.Requests.{
  Checked, read_callback, finish_login, login_of, login_denied, is_malformed,
}
use gist.Enrollment.Handlers.{
  EnrollmentStore, callback, with_flow, after_consume, with_account, after_login, code_of,
}

pub refuse_if-gave :
    {Failure : Type 0} (b : Bool) (why : Failure) (u : Unit {0})
    → refuse_if b why ≡ gave u
    → b ≡ false
refuse_if-gave true why u h = absurd (cc)
refuse_if-gave false why u h = refl

pub or_refuse-gave :
    {Failure A : Type 0} (why : Failure) (o : Option A) (a : A)
    → or_refuse why o ≡ gave a
    → o ≡ some a
or_refuse-gave why none a h = absurd (cc)
or_refuse-gave why (some x) a h = cc

module _ (cfg : Config) (w : Platform) where
  -- The flow of a callback: the cookie of the request opens to it under the handler's key, the
  -- request names the same state, and it has not ended.
  pub record IsGenuine (r : HttpRequest) (flow : OpenFlow) : Type 0 where
    pub method : r.method ≡ codes "GET"
    pub cookie : (c : Bytes) × (r.flow_cookie ≡ some c) × (open_flow cfg w c ≡ some flow)
    pub state : flow.state ≡ value r.query (codes "state")
    pub open_still : w.clock 0 < flow.expires_at

  abbrev is_stale : OpenFlow → HttpRequest → Bool
  is_stale f r =
      not (bytes_eq f.state (value r.query (codes "state"))) || leb f.expires_at (w.clock 0)

  pub true_of_negated : (b : Bool) → not b ≡ false → b ≡ true
  true_of_negated true h = refl
  true_of_negated false h = absurd (cc)

  read_callback-IsGenuine :
      (r : HttpRequest) (flow : OpenFlow) → read_callback cfg w r ≡ gave flow → IsGenuine r flow
  unfolding read_callback
  read_callback-IsGenuine r flow h =
      let (u1, e1, h1) = both_gave _ flow h in
      let (c, e2, h2) = both_gave _ flow h1 in
      let (u3, e3, h3) =
        both_gave (refuse_if (is_malformed cfg w r.query) (login_denied cfg w)) flow h2 in
      let (f, e4, h4) = both_gave (or_refuse (login_denied cfg w) (open_flow cfg w c)) flow h3 in
      let (u5, e5, h5) = both_gave (refuse_if (is_stale f r) (login_denied cfg w)) flow h4 in
      let same : f ≡ flow = gave-injective h5 in
      let tested : is_stale f r ≡ false = refuse_if-gave (is_stale f r) _ u5 e5 in
      subst (IsGenuine r) same (record {
        method = bytes_eq→eq r.method (codes "GET") (true_of_negated _ (refuse_if-gave _ _ u1 e1));
        cookie =
            (c, or_refuse-gave _ r.flow_cookie c e2, or_refuse-gave _ (open_flow cfg w c) f e4);
        state = bytes_eq→eq f.state (value r.query (codes "state")) (ground arith);
        open_still = ground arith;
      })

  module _ {State : Type 0} (store : EnrollmentStore State) where
    -- A session and the calls that led to it: the flow was consumed, GitHub named the account,
    -- the database completed its login, and the session is issued for that account.
    pub record IsSignedIn (s : State) (r : HttpRequest) (cookie : Bytes) (s' : State) : Type 0 where
      pub flow : OpenFlow
      pub account : Bytes
      pub consumed : State
      pub genuine : IsGenuine r flow
      pub read : read_callback cfg w r ≡ gave flow
      pub consumes : store.consume_flow s (w.sha256 flow.state) (w.clock 1) ≡ (consumed, done)
      pub named : github_account cfg w (code_of cfg w store r) flow.verifier ≡ some account
      pub logs_in : store.complete_login consumed (login_of cfg w flow account) ≡ (s', done)
      pub issued : w.issue account (cfg.workspace_id ∷ []) cfg.session_ttl ≡ some cookie

    finish_login-issued :
        (flow : OpenFlow) (account cookie : Bytes)
        → (finish_login cfg w flow account).session ≡ some cookie
        → w.issue account (cfg.workspace_id ∷ []) cfg.session_ttl ≡ some cookie
    unfolding finish_login login_failure
    finish_login-issued flow account cookie h =
        elim (Option-cases (w.issue account (cfg.workspace_id ∷ []) cfg.session_ttl)) [
          | inl e ↦ absurd (ground arith)
          | inr (c, e) ↦ ground arith
        ]

    abbrev Consumes : State → OpenFlow → State → Type 0
    Consumes s flow t = store.consume_flow s (w.sha256 flow.state) (w.clock 1) ≡ (t, done)

    after_login-IsSignedIn :
        (s t : State) (r : HttpRequest) (flow : OpenFlow) (account cookie : Bytes)
        (a : State × StoreAnswer)
        → read_callback cfg w r ≡ gave flow
        → Consumes s flow t
        → github_account cfg w (code_of cfg w store r) flow.verifier ≡ some account
        → store.complete_login t (login_of cfg w flow account) ≡ a
        → (after_login cfg w store flow account a).1.session ≡ some cookie
        → IsSignedIn s r cookie (after_login cfg w store flow account a).0
    unfolding after_login login_failure
    after_login-IsSignedIn s t r flow account cookie (u, done) e1 e2 e3 e4 h = record {
      flow = flow;
      account = account;
      consumed = t;
      genuine = read_callback-IsGenuine r flow e1;
      read = e1;
      consumes = e2;
      named = e3;
      logs_in = e4;
      issued = finish_login-issued flow account cookie h;
    }
    after_login-IsSignedIn s t r flow account cookie (u, denied) e1 e2 e3 e4 h =
        absurd (ground arith)
    after_login-IsSignedIn s t r flow account cookie (u, replay) e1 e2 e3 e4 h =
        absurd (ground arith)
    after_login-IsSignedIn s t r flow account cookie (u, broken) e1 e2 e3 e4 h =
        absurd (ground arith)

    with_account-IsSignedIn :
        (s t : State) (r : HttpRequest) (flow : OpenFlow) (cookie : Bytes) (o : Option Bytes)
        → read_callback cfg w r ≡ gave flow
        → Consumes s flow t
        → github_account cfg w (code_of cfg w store r) flow.verifier ≡ o
        → (with_account cfg w store flow t o).1.session ≡ some cookie
        → IsSignedIn s r cookie (with_account cfg w store flow t o).0
    unfolding with_account login_failure
    with_account-IsSignedIn s t r flow cookie none e1 e2 e3 h = absurd (ground arith)
    with_account-IsSignedIn s t r flow cookie (some account) e1 e2 e3 h =
        after_login-IsSignedIn s t r flow account cookie _ e1 e2 e3 refl h

    after_consume-IsSignedIn :
        (s : State) (r : HttpRequest) (flow : OpenFlow) (cookie : Bytes) (a : State × StoreAnswer)
        → read_callback cfg w r ≡ gave flow
        → store.consume_flow s (w.sha256 flow.state) (w.clock 1) ≡ a
        → (after_consume cfg w store (code_of cfg w store r) flow a).1.session ≡ some cookie
        → IsSignedIn s r cookie (after_consume cfg w store (code_of cfg w store r) flow a).0
    unfolding after_consume login_failure
    after_consume-IsSignedIn s r flow cookie (t, done) e1 e2 h =
        with_account-IsSignedIn s t r flow cookie _ e1 e2 refl h
    after_consume-IsSignedIn s r flow cookie (t, denied) e1 e2 h = absurd (ground arith)
    after_consume-IsSignedIn s r flow cookie (t, replay) e1 e2 h = absurd (cc)
    after_consume-IsSignedIn s r flow cookie (t, broken) e1 e2 h = absurd (ground arith)

    -- A reply of `callback` that sets a session: the request was a `GET` whose sealed cookie opened
    -- to a flow with the state of the query that had not ended, the database consumed that flow,
    -- GitHub named the account for the code and the flow's verifier, the database then completed
    -- the login of that account, and the session was issued for that account and this workspace.
    pub callback-IsSignedIn :
        (s : State) (r : HttpRequest) (cookie : Bytes)
        → (callback cfg w store s r).1.session ≡ some cookie
        → IsSignedIn s r cookie (callback cfg w store s r).0
    unfolding callback with_flow
    callback-IsSignedIn s r cookie h = by_flow (read_callback cfg w r) refl h
      where
        by_flow :
            (o : Checked OpenFlow)
            → read_callback cfg w r ≡ o
            → (with_flow cfg w store s r o).1.session ≡ some cookie
            → IsSignedIn s r cookie (with_flow cfg w store s r o).0
        by_flow (failed why) e no_session = absurd (cc)
        by_flow (gave flow) e issued = after_consume-IsSignedIn s r flow cookie _ e refl issued
