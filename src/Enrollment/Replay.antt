-- ===== src/Enrollment/Replay.antt =====
-- enrollment.go: a flow that led to a session is refused from then on, whatever requests come
-- between.
use gist.Prelude.{Option-cases, inl, inr, ◌≢◌, ◌≡◌, refl, sym, ◌∙◌, subst, Option, none, some, ℕ}
use gist.Text.{Bytes}
use gist.Outcome.{gave, failed, gave-injective}
use gist.Enrollment.{
  Config, Platform, OpenFlow, HttpRequest, Invitation, FlowClaims, StoreAnswer, done, denied,
  replay, broken,
}
use gist.Enrollment.Requests.{Checked, read_callback, login_of, prepare_flow, read_invitation}
use gist.Enrollment.Handlers.{
  EnrollmentStore, start, callback, create_invitation, with_flow, after_consume, with_account,
  after_login, code_of, begin_flow, begun, ask_for, invitation_answer,
}
use gist.Enrollment.Flows.{
  Tables, Connection, flow_store, consume_row, IsSpent, create_row-IsSpent, consume_row-IsSpent,
  consumed-IsSpent, spent_refuses,
}
use gist.Enrollment.Callbacks.{callback-IsSignedIn}

module _ (cfg : Config) {Rest : Type 0} where
  -- A state behind any requests; each finds a database connection, times and random bytes of its
  -- own. No sign-in draws a state with the hash `h` again.
  pub data Later (h : Bytes) (s : Tables Rest) : Tables Rest → Type 0 where
    now : Later h s s
    started :
        {t : Tables Rest} (w : Platform) (db : Connection Rest) (r : HttpRequest)
        → ((c : FlowClaims) (cookie : Bytes) (e : ℕ)
            → prepare_flow cfg w r ≡ gave (c, cookie, e)
            → w.sha256 c.state ≢ h)
        → Later h s t
        → Later h s (start cfg w (flow_store db) t r).0
    called_back :
        {t : Tables Rest} (w : Platform) (db : Connection Rest) (r : HttpRequest)
        → Later h s t
        → Later h s (callback cfg w (flow_store db) t r).0
    invites :
        {t : Tables Rest} (w : Platform) (db : Connection Rest) (r : HttpRequest)
        → Later h s t
        → Later h s (create_invitation cfg w (flow_store db) t r).0

  module _ (db : Connection Rest) (h : Bytes) where
    abbrev State : Type 0
    State = Tables Rest

    abbrev store : EnrollmentStore State
    store = flow_store db

    abbrev IsUsed : State → Type 0
    IsUsed s = IsSpent h s

    begun-Used :
        (w : Platform) (c : FlowClaims) (cookie : Bytes) (e : ℕ) (a : State × StoreAnswer)
        → IsUsed a.0
        → IsUsed (begun cfg w store c cookie e a).0
    begun-Used w c cookie e (t, done) u = u
    begun-Used w c cookie e (t, denied) u = u
    begun-Used w c cookie e (t, replay) u = u
    begun-Used w c cookie e (t, broken) u = u

    begin_flow-Used :
        (w : Platform) (s : State) (o : Checked (FlowClaims × Bytes × ℕ))
        → ((c : FlowClaims) (cookie : Bytes) (e : ℕ)
            → o ≡ gave (c, cookie, e)
            → w.sha256 c.state ≢ h)
        → IsUsed s
        → IsUsed (begin_flow cfg w store s o).0
    begin_flow-Used w s (failed e) fresh u = u
    begin_flow-Used w s (gave (c, cookie, e)) fresh u =
        begun-Used w c cookie e _
          (create_row-IsSpent db h s (w.sha256 c.state) e (fresh c cookie e refl) u)

    invitation_answer-Used :
        (w : Platform) (token : Bytes) (i : Invitation) (a : State × StoreAnswer)
        → IsUsed a.0
        → IsUsed (invitation_answer cfg w store token i a).0
    invitation_answer-Used w token i (t, done) u = u
    invitation_answer-Used w token i (t, denied) u = u
    invitation_answer-Used w token i (t, replay) u = u
    invitation_answer-Used w token i (t, broken) u = u

    ask_for-Used :
        (w : Platform) (s : State) (o : Checked (Bytes × Invitation))
        → IsUsed s
        → IsUsed (ask_for cfg w store s o).0
    ask_for-Used w s (failed e) u = u
    ask_for-Used w s (gave (token, i)) u =
        invitation_answer-Used w token i (store.create_invitation s i)
          (record { closed = u.closed })

    after_login-Used :
        (w : Platform) (flow : OpenFlow) (account : Bytes) (a : State × StoreAnswer)
        → IsUsed a.0
        → IsUsed (after_login cfg w store flow account a).0
    unfolding after_login
    after_login-Used w flow account (t, done) u = u
    after_login-Used w flow account (t, denied) u = u
    after_login-Used w flow account (t, replay) u = u
    after_login-Used w flow account (t, broken) u = u

    with_account-Used :
        (w : Platform) (flow : OpenFlow) (s : State) (o : Option Bytes)
        → IsUsed s
        → IsUsed (with_account cfg w store flow s o).0
    unfolding with_account
    with_account-Used w flow s none u = u
    with_account-Used w flow s (some account) u =
        after_login-Used w flow account (store.complete_login s (login_of cfg w flow account))
          (record { closed = u.closed })

    after_consume-Used :
        (w : Platform) (code : Bytes) (flow : OpenFlow) (a : State × StoreAnswer)
        → IsUsed a.0
        → IsUsed (after_consume cfg w store code flow a).0
    unfolding after_consume
    after_consume-Used w code flow (t, done) u = with_account-Used w flow t _ u
    after_consume-Used w code flow (t, denied) u = u
    after_consume-Used w code flow (t, replay) u = u
    after_consume-Used w code flow (t, broken) u = u

    with_flow-Used :
        (w : Platform) (s : State) (r : HttpRequest) (o : Checked OpenFlow)
        → IsUsed s
        → IsUsed (with_flow cfg w store s r o).0
    unfolding with_flow
    with_flow-Used w s r (failed e) u = u
    with_flow-Used w s r (gave flow) u =
        after_consume-Used w (code_of cfg w store r) flow _
          (consume_row-IsSpent db h s (w.sha256 flow.state) (w.clock 1) u)

  Later-IsSpent : (h : Bytes) {s t : Tables Rest} → Later h s t → IsSpent h s → IsSpent h t
  unfolding start callback create_invitation
  Later-IsSpent h now u = u
  Later-IsSpent h (started w db r fresh l) u =
      begin_flow-Used db h w _ (prepare_flow cfg w r) fresh (Later-IsSpent h l u)
  Later-IsSpent h (called_back w db r l) u =
      with_flow-Used db h w _ r (read_callback cfg w r) (Later-IsSpent h l u)
  Later-IsSpent h (invites w db r l) u =
      ask_for-Used db h w _ (read_invitation cfg w r) (Later-IsSpent h l u)

  -- A callback that sets a session spends its flow: it could be consumed before and cannot be
  -- consumed after.
  callback-IsSpent :
      (w : Platform) (db : Connection Rest) (s : Tables Rest) (r : HttpRequest) (flow : OpenFlow)
      (cookie : Bytes)
      → (callback cfg w (flow_store db) s r).1.session ≡ some cookie
      → read_callback cfg w r ≡ gave flow
      → (t : Tables Rest) × (consume_row db s (w.sha256 flow.state) (w.clock 1) ≡ (t, done))
        × IsSpent (w.sha256 flow.state) (callback cfg w (flow_store db) s r).0
  callback-IsSpent w db s r flow cookie signed e =
      let x = callback-IsSignedIn cfg w (flow_store db) s r cookie signed in
      let known : x.flow ≡ flow = gave-injective (sym x.read ∙ e) in
      let consumes : consume_row db s (w.sha256 flow.state) (w.clock 1) ≡ (x.consumed, done) =
        subst
          (λ (f : OpenFlow). consume_row db s (w.sha256 f.state) (w.clock 1) ≡ (x.consumed, done))
          known x.consumes in
      let spent = consumed-IsSpent db s x.consumed (w.sha256 flow.state) (w.clock 1) consumes in
      (
        x.consumed,
        consumes,
        subst (λ (a : Tables Rest × StoreAnswer). IsSpent (w.sha256 flow.state) a.0) x.logs_in
            (record { closed = spent.closed }),
      )

  -- On the table of the database, whatever of its statements fail and whenever expired rows are
  -- deleted: a callback that sets a session makes its flow useless. Behind any later requests, of
  -- which no sign-in drew the same state again, a callback whose cookie opens to a flow with the
  -- same hash of its state sets no session.
  pub callback_once :
      (w w' : Platform) (db db' : Connection Rest) (s t : Tables Rest) (r r' : HttpRequest)
      (flow flow' : OpenFlow) (cookie : Bytes)
      → (callback cfg w (flow_store db) s r).1.session ≡ some cookie
      → read_callback cfg w r ≡ gave flow
      → Later (w.sha256 flow.state) (callback cfg w (flow_store db) s r).0 t
      → read_callback cfg w' r' ≡ gave flow'
      → w'.sha256 flow'.state ≡ w.sha256 flow.state
      → (callback cfg w' (flow_store db') t r').1.session ≡ none
  callback_once w w' db db' s t r r' flow flow' cookie signed e l e' same =
      let (u, consumes, spent) = callback-IsSpent w db s r flow cookie signed e in
      let still = Later-IsSpent (w.sha256 flow.state) l spent in
      elim (Option-cases (callback cfg w' (flow_store db') t r').1.session) [
        | inl unset ↦ unset
        | inr (cookie', again) ↦
            let (v, consumes', spent') = callback-IsSpent w' db' t r' flow' cookie' again e' in
            absurd (
              spent_refuses db' t v (w'.sha256 flow'.state) (w'.clock 1)
                (subst (λ k. IsSpent k t) (sym same) still) consumes')
      ]
