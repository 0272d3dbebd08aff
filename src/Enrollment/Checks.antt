-- ===== src/Enrollment/Checks.antt =====
-- enrollment.go: the tests of identifiers, scopes and return targets, the sealed cookie of a flow
-- and the account that GitHub names.
use gist.Prelude.{
  ℕ, ◌*◌, ◌/◌, ℤ, is_positive, List, [], ◌∷◌, ◌++◌, Bool, true, false, ◌&&◌, ◌||◌, not, Option,
  none, some, ltb, ◌==◌, if◌then◌else◌, length, take, drop,
}
use gist.Text.{Bytes, codes, is_empty, bytes_eq, contains}
use gist.Enrollment.{
  Config, Platform, Url, Values, FlowClaims, OpenFlow, TokenAnswer, HttpResponse, Reply, cleared,
  all_of, has_key, http_error, redirect, refused, max_request_bytes, second,
}
use gist.Enrollment.Integer.{parse_int, format_int}

-- `contains`, the loop over the items.
unfoldable pub has_item : List Bytes → Bytes → Bool
has_item [] v = false
has_item (x ∷ xs) v = let rest = has_item xs v in if bytes_eq x v then true else rest

-- The loop of `subset`; the keys of `seen` stand in a list, and its number is the count of all.
unfoldable pub subset_from : List Bytes → List Bytes → List Bytes → Bool
unfolding has_item
subset_from allowed seen [] = true
subset_from allowed seen (v ∷ vs) =
    let rest = subset_from allowed (v ∷ seen) vs in
    if is_empty v || (has_item seen v || not (has_item allowed v)) then false else rest

unfoldable pub subset : List Bytes → List Bytes → Bool
unfolding subset_from
subset items allowed = subset_from allowed [] items

abbrev pub starts_with_zero : Bytes → Bool
starts_with_zero [] = false
starts_with_zero (c ∷ s) = c == b'0'

abbrev pub is_written : Bytes → Option ℤ → Bool
is_written v none = false
is_written v (some n) = is_positive n && bytes_eq (format_int n) v

unfoldable pub canonical_id : Bytes → Bool
canonical_id v =
    if is_empty v || (ltb 19 (length v) || starts_with_zero v)
    then false
    else is_written v (parse_int v)

unfoldable pub website_return_target : Bytes → Bool
website_return_target raw =
    bytes_eq raw (codes "/library")
    || (bytes_eq raw (codes "/workspace") || bytes_eq raw (codes "/workspace/servers"))

unfoldable pub login_failure : Bytes → ℕ → Bytes → Bytes → Reply
unfolding website_return_target
login_failure return_to status text code =
    if website_return_target return_to
    then redirect 303 cleared (codes "/signin?error=" ++ code)
    else refused (http_error status cleared text)

module _ (cfg : Config) (w : Platform) where
  abbrev pub authorize_path : Bytes
  authorize_path = codes "/oauth/authorize"

  abbrev pub is_outside : Url → Url → Bool
  is_outside target origin =
      not (bytes_eq target.scheme origin.scheme)
      || (not (w.equal_fold target.host origin.host)
          || (target.has_user
              || (not (is_empty target.opaque)
                  || (not (is_empty target.fragment)
                      || (not (is_empty target.raw_fragment)
                          || (not (bytes_eq target.path authorize_path)
                              || (not (bytes_eq target.escaped_path authorize_path)
                                  || not (is_empty target.raw_path))))))))

  abbrev pub is_no_target : Bytes → Bool
  is_no_target raw =
      is_empty raw || (ltb max_request_bytes (length raw) || contains raw (codes "#"))

  -- What the two calls of `url.Parse` decide.
  unfoldable pub judge_target : Bytes → Option Url → Option Url → Option Bytes
  judge_target raw none origin = none
  judge_target raw (some target) none = none
  judge_target raw (some target) (some origin) =
      if is_outside target origin || not (w.is_query target.raw_query) then none else some raw

  unfoldable pub validate_return_to : Bytes → Option Bytes
  unfolding website_return_target judge_target
  validate_return_to raw =
      if website_return_target raw
      then some raw
      else if is_no_target raw
      then none
      else judge_target raw (w.parse_url raw) (w.parse_url cfg.public_origin)

  unfoldable pub read_return_to : Values → Option Bytes
  unfolding validate_return_to
  read_return_to values =
      if has_key values (codes "return_to")
      then one_target (all_of values (codes "return_to"))
      else some []
    where
      one_target : List Bytes → Option Bytes
      one_target [] = none
      one_target (raw ∷ []) = validate_return_to raw
      one_target (raw ∷ s ∷ rest) = none

  abbrev pub reads_back : Bytes → Option Bytes → Bool
  reads_back v none = false
  reads_back v (some b) = bytes_eq (w.encode b) v

  unfoldable pub canonical_token : Bytes → Bool
  canonical_token v = if is_empty v || ltb 128 (length v) then false else reads_back v (w.decode v)

  abbrev pub claims_of : Bytes → Bytes → Bytes → Bytes → ℕ → FlowClaims
  claims_of state verifier invitation return_to expires = record {
    state = state;
    verifier = verifier;
    invitation = invitation;
    return_to = return_to;
    expires = expires / second;
  }

  -- `sealFlow`: the value of the cookie.
  unfoldable pub seal_flow : FlowClaims → Option Bytes
  seal_flow claims = elim w.new_nonce [
    | none ↦ none
    | some nonce ↦ some (w.encode (nonce ++ w.seal nonce (w.encode_claims claims)))
  ]

  abbrev pub are_invalid : FlowClaims → Bool
  are_invalid c =
      not (canonical_token c.state)
      || (not (canonical_token c.verifier)
          || (not (is_empty c.invitation) && not (canonical_token c.invitation)))

  abbrev pub opened : FlowClaims → Bytes → OpenFlow
  opened c return_to = record {
    state = c.state;
    verifier = c.verifier;
    invitation = c.invitation;
    return_to = return_to;
    expires_at = c.expires * second;
  }

  -- What is tested of the claims.
  unfoldable pub check_claims : FlowClaims → Option OpenFlow
  check_claims c =
      if are_invalid c
      then none
      else if is_empty c.return_to
      then some (opened c [])
      else elim (validate_return_to c.return_to) [
        | none ↦ none
        | some target ↦ some (opened c target)
      ]

  abbrev pub or_none {i j} : {A : Type i} {B : Type j} → (A → Option B) → Option A → Option B
  or_none f none = none
  or_none f (some a) = f a

  abbrev pub unsealed : Bytes → Option Bytes
  unsealed sealed =
      if ltb (length sealed) w.nonce_size
      then none
      else w.unseal (take w.nonce_size sealed) (drop w.nonce_size sealed)

  unfoldable pub open_flow : Bytes → Option OpenFlow
  unfolding check_claims
  open_flow text = or_none check_claims (or_none w.decode_claims (or_none unsealed (w.decode text)))

  abbrev pub json_limit : ℕ
  json_limit = 16384

  -- `decodeLimited` of an answer with status 200.
  abbrev pub decode_limited {ℓ} : {A : Type ℓ} → (Bytes → Option A) → HttpResponse → Option A
  decode_limited decoder r =
      if r.status_code == 200
      then or_none (λ (raw : Bytes). if ltb json_limit (length raw) then none else decoder raw)
          r.body
      else none

  abbrev pub exchange_form : Bytes → Bytes → List (Bytes × Bytes)
  exchange_form code verifier =
      (codes "client_id", cfg.client_id)
      ∷ (codes "client_secret", cfg.client_secret)
      ∷ (codes "code", code)
      ∷ (codes "redirect_uri", cfg.callback_url)
      ∷ (codes "code_verifier", verifier)
      ∷ []

  abbrev pub usable_token : TokenAnswer → Option Bytes
  usable_token t =
      if is_empty t.access_token || not (is_empty t.error) then none else some t.access_token

  abbrev pub account_of : ℤ → Option Bytes
  account_of n = if is_positive n then some (format_int n) else none

  unfoldable pub github_account : Bytes → Bytes → Option Bytes
  github_account code verifier =
      let answer = w.exchange (exchange_form code verifier) in
      let token = or_none usable_token (or_none (decode_limited w.decode_token) answer) in
      let user = or_none (decode_limited w.decode_user) (or_none w.fetch_user token) in
      or_none account_of (or_none parse_int user)
