-- ===== src/Enrollment/Cookie.antt =====
-- enrollment.go: `openFlow` of what `sealFlow` wrote.
use gist.Prelude.{
  ◌<◌, ◌^◌, All, ◌≡◌, refl, ap, subst, ℕ, ◌≤◌, ◌*◌, ◌/◌, [], ◌∷◌, ◌++◌, true, false, ◌&&◌, not,
  if◌then◌else◌, none, some, arith, ltb, Option-cases, inl, inr, length, take, drop,
}
use gist.Text.{Bytes, is_empty}
use gist.Text.Laws.{bytes_eq_self}
use gist.Enrollment.{Config, Platform, FlowClaims, OpenFlow, second}
use gist.Enrollment.Checks.{
  seal_flow, open_flow, check_claims, canonical_token, validate_return_to, opened, claims_of,
}

length-append_from : (s t : Bytes) → length s ≤ length (s ++ t)
length-append_from [] t = ground arith
length-append_from (c ∷ s) t = ground (arith, length-append_from s t)

-- A text whose first part has `n` bytes is cut into its parts at `n`.
pub record Cut (n : ℕ) (s t : Bytes) : Type 0 where
  pub long : ltb (length (s ++ t)) n ≡ false
  pub front : take n (s ++ t) ≡ s
  pub back : drop n (s ++ t) ≡ t

pub Cut-length : (s t : Bytes) → Cut (length s) s t
Cut-length [] t = record { long = ground arith; front = refl; back = refl }
Cut-length (c ∷ s) t =
    let rest = Cut-length s t in
    record {
      long = ground (arith, length-append_from s t);
      front = ap (◌∷◌ c) rest.front;
      back = rest.back;
    }

abbrev pub AreBelow : ℕ → Bytes → Type 0
AreBelow n = All (λ c. c < n)

-- Claims whose texts are ASCII and whose time an int64 holds.
pub record IsAscii (c : FlowClaims) : Type 0 where
  pub state : AreBelow 128 c.state
  pub verifier : AreBelow 128 c.verifier
  pub invitation : AreBelow 128 c.invitation
  pub return_to : AreBelow 128 c.return_to
  pub expires : c.expires < 2 ^ 63

module _ (cfg : Config) (w : Platform) where
  -- What a flow relies on: base64 reads back what it wrote, in ASCII, JSON reads back a document
  -- whose texts are ASCII, the cipher opens what it sealed with the same nonce of its length, a nonce
  -- that is drawn has that length, and 32 bytes are at most 128 characters and at least one.
  pub record ReadsBack : Type 0 where
    pub encoded : (b : Bytes) → w.decode (w.encode b) ≡ some b
    pub letters : (b : Bytes) → AreBelow 256 b → AreBelow 128 (w.encode b)
    pub claims : (c : FlowClaims) → IsAscii c → w.decode_claims (w.encode_claims c) ≡ some c
    pub sealed :
        (nonce raw : Bytes)
        → length nonce ≡ w.nonce_size
        → w.unseal nonce (w.seal nonce raw) ≡ some raw
    pub nonce : (n : Bytes) → w.new_nonce ≡ some n → length n ≡ w.nonce_size
    pub not_empty : (b : Bytes) → length b ≡ 32 → is_empty (w.encode b) ≡ false
    pub short : (b : Bytes) → length b ≡ 32 → length (w.encode b) ≤ 128

  -- A token that `randomToken` wrote.
  pub data IsToken : Bytes → Type 0 where
    of_bytes : (b : Bytes) → length b ≡ 32 → AreBelow 256 b → IsToken (w.encode b)

  -- The invitation of a flow: none, or a token.
  pub data IsInvitation : Bytes → Type 0 where
    not_invited : IsInvitation []
    invited_by : {v : Bytes} → IsToken v → IsInvitation v

  -- The return target of a flow: none, or one that passed the test.
  pub data IsTarget : Bytes → Type 0 where
    no_target : IsTarget []
    tested : {v : Bytes} → validate_return_to cfg w v ≡ some v → IsTarget v

  module _ (back : ReadsBack) where
    canonical_token-IsToken : (v : Bytes) → IsToken v → canonical_token cfg w v ≡ true
    unfolding canonical_token
    canonical_token-IsToken _ (of_bytes b e bytes) =
        rw (back.not_empty b e, back.encoded b)
          (ground (arith, back.short b e, bytes_eq_self (w.encode b)))

    invitation_lem :
        (v : Bytes) → IsInvitation v → not (is_empty v) && not (canonical_token cfg w v) ≡ false
    invitation_lem _ not_invited = refl
    invitation_lem v (invited_by t) = rw (canonical_token-IsToken v t) (ground arith)

    check_claims_lem :
        (c : FlowClaims)
        → IsToken c.state
        → IsToken c.verifier
        → IsInvitation c.invitation
        → IsTarget c.return_to
        → check_claims cfg w c ≡ some (opened cfg w c c.return_to)
    unfolding check_claims
    check_claims_lem c s v i t =
        rw
          (
            canonical_token-IsToken c.state s,
            canonical_token-IsToken c.verifier v,
            invitation_lem c.invitation i,
          )
          (with_target c.return_to t)
      where
        with_target :
            (target : Bytes)
            → IsTarget target
            → (if is_empty target
                then some (opened cfg w c [])
                else elim (validate_return_to cfg w target) [
                  | none ↦ none
                  | some v ↦ some (opened cfg w c v)
                ])
              ≡ some (opened cfg w c target)
        with_target _ no_target = refl
        with_target [] (tested e) = refl
        with_target (x ∷ v) (tested e) = rw e refl

    -- The cookie, made of the nonce that was drawn.
    open_flow_lem :
        (c : FlowClaims) (nonce : Bytes) (f : OpenFlow)
        → length nonce ≡ w.nonce_size
        → IsAscii c
        → check_claims cfg w c ≡ some f
        → open_flow cfg w (w.encode (nonce ++ w.seal nonce (w.encode_claims c))) ≡ some f
    unfolding open_flow
    open_flow_lem c nonce f e ascii h =
        let sealed = w.seal nonce (w.encode_claims c) in
        let cut : Cut w.nonce_size nonce sealed =
          subst (λ n. Cut n nonce sealed) e (Cut-length nonce sealed) in
        rw
          (
            back.encoded (nonce ++ sealed),
            cut.long,
            cut.front,
            cut.back,
            back.sealed nonce (w.encode_claims c) e,
            back.claims c ascii,
          )
          h

    IsToken-AreBelow : (v : Bytes) → IsToken v → AreBelow 128 v
    IsToken-AreBelow _ (of_bytes b e bytes) = back.letters b bytes

    IsInvitation-AreBelow : (v : Bytes) → IsInvitation v → AreBelow 128 v
    IsInvitation-AreBelow _ not_invited = tt
    IsInvitation-AreBelow v (invited_by t) = IsToken-AreBelow v t

    -- On a platform where base64 reads back what it wrote, in ASCII and 32 bytes as 1 to 128
    -- characters, where the cipher opens what it sealed with a nonce of its length, which a
    -- nonce that is drawn has, and where JSON reads back a document whose texts are ASCII: the
    -- cookie that `sealFlow` writes for a flow whose tokens `randomToken` wrote and whose
    -- return target is ASCII and passed the test opens to the same flow, whose end, a time
    -- that an int64 holds in seconds, is cut to whole seconds.
    pub open_flow-seal_flow :
        (state verifier invitation return_to : Bytes) (expires : ℕ) (cookie : Bytes)
        → IsToken state
        → IsToken verifier
        → IsInvitation invitation
        → IsTarget return_to
        → AreBelow 128 return_to
        → expires / second < 2 ^ 63
        → seal_flow cfg w (claims_of cfg w state verifier invitation return_to expires)
          ≡ some cookie
        → open_flow cfg w cookie
          ≡ some (record {
            state = state;
            verifier = verifier;
            invitation = invitation;
            return_to = return_to;
            expires_at = expires / second * second;
          })
    unfolding seal_flow
    open_flow-seal_flow state verifier invitation return_to expires cookie s v i t text time h =
        elim (Option-cases w.new_nonce) [
          | inl e ↦ absurd (ground arith)
          | inr (nonce, e) ↦
              let c = claims_of cfg w state verifier invitation return_to expires in
              let written : w.encode (nonce ++ w.seal nonce (w.encode_claims c)) ≡ cookie =
                ground arith in
              subst (λ x. open_flow cfg w x ≡ some (opened cfg w c return_to)) written
                (open_flow_lem c nonce _ (back.nonce nonce e)
                  (record {
                    state = IsToken-AreBelow state s;
                    verifier = IsToken-AreBelow verifier v;
                    invitation = IsInvitation-AreBelow invitation i;
                    return_to = text;
                    expires = time;
                  })
                  (check_claims_lem c s v i t))
        ]
