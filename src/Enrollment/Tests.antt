-- ===== src/Enrollment/Tests.antt =====
-- A platform and a database in small, runs of the handlers, and the theorems at concrete inputs.
use gist.Prelude.{
  ap, ◌+◌, ◌-◌, ◌/◌, ◌%◌, pos, negsuc, ℕ, ◌*◌, ◌≡◌, refl, List, [], ◌∷◌, ◌++◌, true, false, Option,
  none, some, arith, if◌then◌else◌, length, take, drop,
}
use gist.Text.{Bytes, codes, bytes_eq, is_empty}
use gist.Outcome.{gave}
use gist.Enrollment.{
  Config, Platform, OpenFlow, HttpRequest, Values, Url, FlowClaims, StoreAnswer, done, replay,
  second,
}
use gist.Enrollment.Integer.{parse_int, parse_magnitude, all_digits, digits_of}
use gist.Enrollment.Checks.{
  has_item, subset, subset_from, canonical_id, seal_flow, claims_of, open_flow, check_claims,
  canonical_token, validate_return_to, website_return_target, github_account,
}
use gist.Enrollment.Requests.{read_callback, finish_login, read_invitation}
use gist.Enrollment.Handlers.{
  EnrollmentStore, callback, create_invitation, with_flow, after_consume, with_account, after_login,
}
use gist.Enrollment.Callbacks.{IsSignedIn, callback-IsSignedIn}
use gist.Enrollment.Replay.{now, called_back, callback_once}
use gist.Enrollment.Flows.{Tables, Connection, ran, flow_store, consume_row, is_open}
use gist.Enrollment.Settings.{
  Settings, IsSound, validate_config, new_config, completed, new_config-IsSound,
}
use gist.Enrollment.Invitations.{Invites, create_invitation-Invites}
use gist.Enrollment.Cookie.{
  ReadsBack, IsAscii, AreBelow, of_bytes, not_invited, tested, Cut-length, open_flow-seal_flow,
}

abbrev config : Config
config = record {
  client_id = codes "id";
  client_secret = codes "secret";
  callback_url = codes "https://gist.example/auth/github/callback";
  public_origin = codes "https://gist.example";
  workspace_id = codes "w";
  workspace_name = codes "Work";
  founder_account = codes "42";
  bootstrap_scopes = codes "catalog:read" ∷ [];
  allowed_scopes = codes "catalog:read" ∷ codes "catalog:publish" ∷ [];
  flow_ttl = 300 * second;
  session_ttl = 3600 * second;
  invitation_ttl = 3600 * second;
}

abbrev bytes_32 : Bytes
bytes_32 = codes "0123456789abcdef0123456789abcdef"

-- The lengths of the texts, the end and the texts one behind the other.
abbrev written : FlowClaims → Bytes
written c =
    length c.state
    ∷ length c.verifier
    ∷ length c.invitation
    ∷ length c.return_to
    ∷ c.expires
    ∷ (c.state ++ (c.verifier ++ (c.invitation ++ c.return_to)))

abbrev read_claims : Bytes → Option FlowClaims
read_claims (a ∷ b ∷ c ∷ d ∷ e ∷ s) = some (record {
  state = take a s;
  verifier = take b (drop a s);
  invitation = take c (drop b (drop a s));
  return_to = drop c (drop b (drop a s));
  expires = e;
})
read_claims other = none

abbrev platform : Platform
platform = record {
  parse_url = λ s. none;
  is_query = λ s. true;
  equal_fold = bytes_eq;
  encode = λ s. s;
  decode = λ s. some s;
  seal = λ nonce raw. raw;
  unseal = λ nonce raw. some raw;
  nonce_size = 2;
  new_nonce = some (1 ∷ 2 ∷ []);
  encode_claims = written;
  decode_claims = read_claims;
  sha256 = λ s. s;
  hmac = λ s. s;
  random = λ i. some bytes_32;
  clock = λ i. 10 * second;
  exchange = λ form. some (record { status_code = 200; body = some (codes "t") });
  fetch_user = λ token. some (record { status_code = 200; body = some (codes "u") });
  decode_token = λ raw. some (record { access_token = codes "token"; error = [] });
  decode_user = λ raw. some (codes "42");
  decode_invitation = λ raw. some (record {
    github_account_id = codes "77";
    role = codes "reader";
    scopes = codes "catalog:read" ∷ [];
  });
  issue = λ account workspaces ttl. some (codes "session");
  authenticate =
      λ r. some (record { id = codes "s1"; subject = codes "42"; workspaces = codes "w" ∷ [] });
}

-- A database that keeps the flows that were consumed.
abbrev consume : List Bytes → Bytes → ℕ → List Bytes × StoreAnswer
consume s h at_time = if has_item s h then (s, replay) else (h ∷ s, done)

abbrev database : EnrollmentStore (List Bytes)
database = record {
  create_flow = λ s h e. (s, done);
  consume_flow = consume;
  complete_login = λ s l. (s, done);
  create_invitation = λ s i. (s, done);
}

abbrev claims : FlowClaims
claims = claims_of config platform bytes_32 bytes_32 [] (codes "/library") (300 * second)

abbrev flow : OpenFlow
flow = record {
  state = bytes_32;
  verifier = bytes_32;
  invitation = [];
  return_to = codes "/library";
  expires_at = 300 * second;
}

abbrev query : Values
query key =
    if bytes_eq key (codes "state")
    then some (bytes_32 ∷ [])
    else if bytes_eq key (codes "code")
    then some (codes "c" ∷ [])
    else none

abbrev request : HttpRequest
request = record {
  method = codes "GET";
  origin = [];
  media_type = none;
  csrf_header = [];
  flow_cookie = some (1 ∷ 2 ∷ written claims);
  query = query;
  post_form = none;
  body = none;
}

reads : read_callback config platform request ≡ gave flow
unfolding read_callback open_flow check_claims canonical_token validate_return_to
    website_return_target bytes_eq
reads = refl

signs_in : (callback config platform database [] request).1.session ≡ some (codes "session")
unfolding callback with_flow after_consume with_account after_login finish_login github_account
    parse_int read_callback open_flow check_claims canonical_token validate_return_to
    website_return_target bytes_eq has_item all_digits parse_magnitude digits_of
signs_in = refl

-- The state behind the first sign-in.
abbrev behind : List Bytes
behind = (callback config platform database [] request).0

callback-IsSignedIn_example :
    IsSignedIn config platform database [] request (codes "session") behind
callback-IsSignedIn_example =
    callback-IsSignedIn config platform database [] request (codes "session") signs_in

-- A connection on which nothing fails, and a table with the one flow.
abbrev connection : Connection (Unit {0})
connection = record {
  now = 10 * second;
  delete_fails = false;
  insert_fails = false;
  update_fault = ran;
  picks = λ k. true;
  complete = λ s l. (s, done);
  invite = λ s i. (s, done);
}

abbrev tables : Tables (Unit {0})
tables = record {
  flows = λ k.
      if bytes_eq k bytes_32
      then some (record { expires_at = 300 * second; consumed_at = none })
      else none;
  rest = tt;
}

abbrev behind_tables : Tables (Unit {0})
behind_tables = (callback config platform (flow_store connection) tables request).0

signs_in_tables :
    (callback config platform (flow_store connection) tables request).1.session
    ≡ some (codes "session")
unfolding callback with_flow after_consume with_account after_login finish_login github_account
    parse_int read_callback open_flow check_claims canonical_token validate_return_to
    website_return_target bytes_eq has_item all_digits parse_magnitude digits_of consume_row is_open
signs_in_tables = refl

-- The same request again, behind another try of it.
callback_once_example :
    (callback config platform
      (flow_store connection)
      (callback config platform (flow_store connection) behind_tables request).0
      request).1.session
    ≡ none
callback_once_example =
    callback_once config platform platform connection connection tables
      (callback config platform (flow_store connection) behind_tables request).0 request request
      flow flow (codes "session") signs_in_tables reads
      (called_back platform connection request now) reads refl

abbrev invitation_request : HttpRequest
invitation_request = record request {
  method = codes "POST";
  origin = codes "https://gist.example";
  csrf_header = codes "gist-enrollment-csrf" ++ (0 ∷ codes "42" ++ (0 ∷ codes "w"));
  body = some (codes "{}");
}

invites : (create_invitation config platform database [] invitation_request).1.status ≡ 201
unfolding create_invitation read_invitation subset subset_from canonical_id bytes_eq has_item
    parse_int parse_magnitude all_digits digits_of
invites = refl

create_invitation-Invites_example :
    Invites config platform database [] invitation_request
      (create_invitation config platform database [] invitation_request)
create_invitation-Invites_example =
    create_invitation-Invites config platform database [] invitation_request

reads_claims : (c : FlowClaims) → IsAscii c → read_claims (written c) ≡ some c
reads_claims c ascii =
    let verifier_on = Cut-length c.verifier (c.invitation ++ c.return_to) in
    let invitation_on = Cut-length c.invitation c.return_to in
    let state_on = Cut-length c.state (c.verifier ++ (c.invitation ++ c.return_to)) in
    rw
      (
        state_on.front, state_on.back, verifier_on.front, verifier_on.back, invitation_on.front,
        invitation_on.back,
      )
      refl

-- Base 16 with the characters from `0` on, in place of base 64.
abbrev hex : Bytes → Bytes
hex [] = []
hex (c ∷ s) = (48 + c / 16) ∷ (48 + c % 16) ∷ hex s

abbrev unhex : Bytes → Bytes
unhex [] = []
unhex (a ∷ []) = []
unhex (a ∷ b ∷ s) = ((a - 48) * 16 + (b - 48)) ∷ unhex s

unhex-hex : (s : Bytes) → unhex (hex s) ≡ s
unhex-hex [] = refl
unhex-hex (c ∷ s) =
    let same : (48 + c / 16 - 48) * 16 + (48 + c % 16 - 48) ≡ c = omega arith in
    rw (same, unhex-hex s) refl

hex-AreBelow : (s : Bytes) → AreBelow 256 s → AreBelow 128 (hex s)
hex-AreBelow [] h = tt
hex-AreBelow (c ∷ s) h = (omega (arith, h.0), (omega arith, hex-AreBelow s h.1))

length-hex : (s : Bytes) → length (hex s) ≡ 2 * length s
length-hex [] = omega arith
length-hex (c ∷ s) = omega (arith, length-hex s)

hex_not_empty : (b : Bytes) → length b ≡ 32 → is_empty (hex b) ≡ false
hex_not_empty [] e = absurd (ground arith)
hex_not_empty (c ∷ b) e = refl

abbrev hex_platform : Platform
hex_platform = record platform { encode = hex; decode = λ s. some (unhex s) }

hex_platform-ReadsBack : ReadsBack config hex_platform
hex_platform-ReadsBack = record {
  encoded = λ b. ap some (unhex-hex b);
  letters = hex-AreBelow;
  claims = reads_claims;
  sealed = λ nonce raw e. refl;
  nonce = λ n e. ground arith;
  not_empty = hex_not_empty;
  short = λ b e. omega (arith, length-hex b);
}

abbrev hex_claims : FlowClaims
hex_claims =
    claims_of config hex_platform (hex bytes_32) (hex bytes_32) [] (codes "/library") (300 * second)

seals : seal_flow config hex_platform hex_claims ≡ some (hex (1 ∷ 2 ∷ written hex_claims))
unfolding seal_flow
seals = refl

accepts : validate_return_to config hex_platform (codes "/library") ≡ some (codes "/library")
unfolding validate_return_to website_return_target bytes_eq
accepts = refl

bytes_32-AreBelow : AreBelow 256 bytes_32
bytes_32-AreBelow = ground arith

open_flow-seal_flow_example :
    open_flow config hex_platform (hex (1 ∷ 2 ∷ written hex_claims))
    ≡ some (record flow { state = hex bytes_32; verifier = hex bytes_32 })
open_flow-seal_flow_example =
    open_flow-seal_flow config hex_platform hex_platform-ReadsBack (hex bytes_32) (hex bytes_32) []
      (codes "/library") (300 * second) (hex (1 ∷ 2 ∷ written hex_claims))
      (of_bytes bytes_32 refl bytes_32-AreBelow) (of_bytes bytes_32 refl bytes_32-AreBelow)
      not_invited (tested accepts) (ground arith) (omega arith) seals

abbrev site : Bytes → Url
site path = record {
  scheme = codes "https";
  host = codes "gist.example";
  has_user = false;
  opaque = [];
  fragment = [];
  raw_fragment = [];
  path = path;
  escaped_path = path;
  raw_path = [];
  raw_query = [];
}

abbrev web_platform : Platform
web_platform = record platform {
  parse_url = λ s.
      if bytes_eq s config.public_origin
      then some (site [])
      else some (site (codes "/auth/github/callback"));
}

-- A negative duration, one that is too long, and one that is kept.
abbrev settings : Settings
settings = record {
  base = config;
  flow_key = bytes_32;
  csrf_key = bytes_32;
  flow_ttl = negsuc 0;
  session_ttl = pos (1000 * 3600 * second);
  invitation_ttl = pos (3600 * second);
}

configures : new_config web_platform settings ≡ gave (completed settings)
unfolding new_config validate_config subset subset_from canonical_id bytes_eq has_item parse_int
    parse_magnitude all_digits digits_of
configures = refl

new_config-IsSound_example : IsSound (completed settings)
new_config-IsSound_example =
    new_config-IsSound web_platform settings (completed settings) configures
