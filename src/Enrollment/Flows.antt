-- ===== src/Enrollment/Flows.antt =====
-- hosted/internal/storage/enrollment.go: CreateFlow and ConsumeFlow on the table
-- github_login_flows. A table is a function of its primary key; what else is in the database is
-- the parameter `Rest`, which the two other calls work on.
use gist.Prelude.{
  ℕ, ◌+◌, ◌*◌, ◌≡◌, ◌≢◌, refl, sym, ap, subst, Bool-cases, if_cases, Bool, true, false, ◌&&◌, ◌||◌,
  not, Option, none, some, leb, ltb, ◌==◌, if◌then◌else◌, length, arith, inl, inr,
}
use gist.Text.{Bytes, bytes_eq}
use gist.Text.Laws.{bytes_eq→eq, bytes_eq_self}
use gist.Enrollment.{Invitation, Login, StoreAnswer, done, replay, broken, second}
use gist.Enrollment.Handlers.{EnrollmentStore}

pub record FlowRow : Type 0 where
  pub expires_at : ℕ
  pub consumed_at : Option ℕ

pub record Tables (Rest : Type 0) : Type 0 where
  pub flows : Bytes → Option FlowRow
  pub rest : Rest

-- What became of the `UPDATE`: it ran, it failed, or it ran and its answer was lost.
pub data UpdateFault : Type 0 where
  ran failed_before lost_answer : UpdateFault

-- The database as one request finds it: the clock, which statements fail, and which of the expired
-- rows (500 at most) the `DELETE` takes.
pub record Connection (Rest : Type 0) : Type 0 where
  pub now : ℕ
  pub delete_fails : Bool
  pub insert_fails : Bool
  pub update_fault : UpdateFault
  pub picks : Bytes → Bool
  pub complete : Rest → Login → Rest × StoreAnswer
  pub invite : Rest → Invitation → Rest × StoreAnswer

-- A row that was not consumed.
unfoldable pub is_open : Option FlowRow → Bool
is_open none = false
is_open (some row) = elim row.consumed_at [ none ↦ true | some at_time ↦ false ]

abbrev pub is_expired : ℕ → Option FlowRow → Bool
is_expired now none = false
is_expired now (some row) = ltb row.expires_at now

-- `consumed_at IS NULL AND expires_at > now`
abbrev pub is_usable : ℕ → Option FlowRow → Bool
is_usable now none = false
is_usable now (some row) = is_open (some row) && ltb now row.expires_at

abbrev pub consumed_row : ℕ → Option FlowRow → Option FlowRow
consumed_row now none = none
consumed_row now (some row) = some (record row { consumed_at = some now })

abbrev pub has_row : Option FlowRow → Bool
has_row none = false
has_row (some row) = true

consumed_row_closed : (now : ℕ) (row : Option FlowRow) → is_open (consumed_row now row) ≡ false
unfolding is_open
consumed_row_closed now none = refl
consumed_row_closed now (some row) = refl

closed_unusable : (now : ℕ) (row : Option FlowRow) → is_open row ≡ false → is_usable now row ≡ false
closed_unusable now none h = refl
closed_unusable now (some row) h = ground arith

module _ {Rest : Type 0} where
  abbrev pub put_row : Tables Rest → Bytes → Option FlowRow → Tables Rest
  put_row s hash row = record s { flows = λ k. if bytes_eq k hash then row else s.flows k }

  module _ (db : Connection Rest) where
    unfoldable pub prune_flows : Tables Rest → Tables Rest
    prune_flows s = record s {
      flows = λ k. if db.picks k && is_expired db.now (s.flows k) then none else s.flows k;
    }

    abbrev pub is_bad_flow : Bytes → ℕ → Bool
    is_bad_flow hash expires =
        not (length hash == 32) || (leb expires db.now || ltb (db.now + 600 * second) expires)

    -- The `INSERT`, which fails for a key that is there.
    unfoldable pub insert_flow : Tables Rest → Bytes → ℕ → Tables Rest × StoreAnswer
    insert_flow s hash expires =
        if db.insert_fails || has_row (s.flows hash)
        then (s, broken)
        else (put_row s hash (some (record { expires_at = expires; consumed_at = none })), done)

    unfoldable pub create_row : Tables Rest → Bytes → ℕ → Tables Rest × StoreAnswer
    unfolding prune_flows insert_flow
    create_row s hash expires =
        if is_bad_flow hash expires || db.delete_fails
        then (s, broken)
        else insert_flow (prune_flows s) hash expires

    abbrev pub update_answer :
        Tables Rest → Tables Rest → Bool → UpdateFault → Tables Rest × StoreAnswer
    update_answer s s' found failed_before = (s, broken)
    update_answer s s' true ran = (s', done)
    update_answer s s' false ran = (s, replay)
    update_answer s s' true lost_answer = (s', broken)
    update_answer s s' false lost_answer = (s, broken)

    unfoldable pub consume_row : Tables Rest → Bytes → ℕ → Tables Rest × StoreAnswer
    consume_row s hash now =
        if not (length hash == 32)
        then (s, replay)
        else update_answer s (put_row s hash (consumed_row now (s.flows hash)))
            (is_usable now (s.flows hash)) db.update_fault

    abbrev pub elsewhere : Tables Rest → Rest × StoreAnswer → Tables Rest × StoreAnswer
    elsewhere s (rest, answer) = (record s { rest = rest }, answer)

    abbrev pub flow_store : EnrollmentStore (Tables Rest)
    flow_store = record {
      create_flow = create_row;
      consume_flow = consume_row;
      complete_login = λ s l. elsewhere s (db.complete s.rest l);
      create_invitation = λ s i. elsewhere s (db.invite s.rest i);
    }

  -- No row of this hash can be consumed, at any time.
  pub record IsSpent (h : Bytes) (s : Tables Rest) : Type 0 where
    pub closed : is_open (s.flows h) ≡ false

  pruned-IsSpent :
      (db : Connection Rest) (h : Bytes) (s : Tables Rest)
      → IsSpent h s
      → IsSpent h (prune_flows db s)
  unfolding prune_flows is_open
  pruned-IsSpent db h s u = record {
    closed =
        if_cases (λ o. is_open o ≡ false) (db.picks h && is_expired db.now (s.flows h)) (λ _. refl)
          (λ _. u.closed);
  }

  put_row-IsSpent :
      (h : Bytes) (s : Tables Rest) (hash : Bytes) (row : Option FlowRow)
      → (bytes_eq h hash ≡ true → is_open row ≡ false)
      → IsSpent h s
      → IsSpent h (put_row s hash row)
  put_row-IsSpent h s hash row c u = record {
    closed = if_cases (λ o. is_open o ≡ false) (bytes_eq h hash) c (λ _. u.closed);
  }

  insert_flow-IsSpent :
      (db : Connection Rest) (h : Bytes) (s : Tables Rest) (hash : Bytes) (expires : ℕ)
      → hash ≢ h
      → IsSpent h s
      → IsSpent h (insert_flow db s hash expires).0
  unfolding insert_flow
  insert_flow-IsSpent db h s hash expires other u =
      if_cases (λ (p : Tables Rest × StoreAnswer). IsSpent h p.0)
        (db.insert_fails || has_row (s.flows hash)) (λ _. u)
        (λ _. put_row-IsSpent h s hash _ (λ e. absurd (other (sym (bytes_eq→eq h hash e)))) u)

  pub create_row-IsSpent :
      (db : Connection Rest) (h : Bytes) (s : Tables Rest) (hash : Bytes) (expires : ℕ)
      → hash ≢ h
      → IsSpent h s
      → IsSpent h (create_row db s hash expires).0
  unfolding create_row
  create_row-IsSpent db h s hash expires other u =
      if_cases (λ (p : Tables Rest × StoreAnswer). IsSpent h p.0)
        (is_bad_flow db hash expires || db.delete_fails) (λ _. u)
        (λ _.
          insert_flow-IsSpent db h (prune_flows db s) hash expires other (pruned-IsSpent db h s u))

  update_answer-IsSpent :
      (db : Connection Rest) (h : Bytes) (s s' : Tables Rest) (found : Bool) (fault : UpdateFault)
      → IsSpent h s
      → IsSpent h s'
      → IsSpent h (update_answer db s s' found fault).0
  update_answer-IsSpent db h s s' found failed_before u u' = u
  update_answer-IsSpent db h s s' true ran u u' = u'
  update_answer-IsSpent db h s s' false ran u u' = u
  update_answer-IsSpent db h s s' true lost_answer u u' = u'
  update_answer-IsSpent db h s s' false lost_answer u u' = u

  pub consume_row-IsSpent :
      (db : Connection Rest) (h : Bytes) (s : Tables Rest) (hash : Bytes) (now : ℕ)
      → IsSpent h s
      → IsSpent h (consume_row db s hash now).0
  unfolding consume_row
  consume_row-IsSpent db h s hash now u =
      if_cases (λ (p : Tables Rest × StoreAnswer). IsSpent h p.0) (not (length hash == 32)) (λ _. u)
        (λ _.
          update_answer-IsSpent db h s _ (is_usable now (s.flows hash)) db.update_fault u
            (put_row-IsSpent h s hash _ (λ _. consumed_row_closed now (s.flows hash)) u))

  update_answer_done :
      (db : Connection Rest) (s s' t : Tables Rest) (found : Bool) (fault : UpdateFault)
      → update_answer db s s' found fault ≡ (t, done)
      → (found ≡ true) × (s' ≡ t)
  update_answer_done db s s' t found failed_before e = absurd (cc (ap (λ p. p.1) e))
  update_answer_done db s s' t true ran e = (refl, ap (λ p. p.0) e)
  update_answer_done db s s' t false ran e = absurd (cc (ap (λ p. p.1) e))
  update_answer_done db s s' t true lost_answer e = absurd (cc (ap (λ p. p.1) e))
  update_answer_done db s s' t false lost_answer e = absurd (cc (ap (λ p. p.1) e))

  -- Where `ConsumeFlow` gives no error, it updated a row that could be consumed.
  consume_row_done :
      (db : Connection Rest) (s t : Tables Rest) (hash : Bytes) (now : ℕ)
      → consume_row db s hash now ≡ (t, done)
      → (is_usable now (s.flows hash) ≡ true)
        × (put_row s hash (consumed_row now (s.flows hash)) ≡ t)
  unfolding consume_row
  consume_row_done db s t hash now e = elim (Bool-cases (not (length hash == 32))) [
    | inl short ↦ absurd (cc (ap (λ p. p.1) (rw short at e)))
    | inr long ↦ update_answer_done db s _ t _ db.update_fault (rw long at e)
  ]

  pub consumed-IsSpent :
      (db : Connection Rest) (s t : Tables Rest) (hash : Bytes) (now : ℕ)
      → consume_row db s hash now ≡ (t, done)
      → IsSpent hash t
  consumed-IsSpent db s t hash now e =
      let (usable, same) = consume_row_done db s t hash now e in
      subst (IsSpent hash) same
        (record { closed = rw (bytes_eq_self hash) (consumed_row_closed now (s.flows hash)) })

  pub spent_refuses :
      (db : Connection Rest) (s t : Tables Rest) (hash : Bytes) (now : ℕ)
      → IsSpent hash s
      → consume_row db s hash now ≢ (t, done)
  spent_refuses db s t hash now u e =
      cc (closed_unusable now (s.flows hash) u.closed, (consume_row_done db s t hash now e).0)
