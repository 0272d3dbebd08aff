-- ===== src/Enrollment.antt =====
-- hosted/internal/enrollment/enrollment.go: sign-in with GitHub and invitations. The database is
-- the section parameter `store` on a state of its own; the platform's parts (URLs, base64, the
-- cipher, hashes, JSON, the HTTP client, sessions) are the record `Platform`. A time is a number
-- of nanoseconds, `clock i` is the i-th reading of the clock in a handler and `random i` its i-th
-- 32 random bytes; a decoder that gives `none` found an error.
pub mod Integer
pub mod Checks
pub mod Requests
pub mod Handlers
mod Callbacks
pub mod Flows
mod Replay
mod Invitations
mod Cookie
mod Scopes
mod Settings
mod Tests
use gist.Prelude.{
  ℕ, zero, ◌+◌, ◌*◌, ◌/◌, ◌≡◌, refl, ℤ, pos, negsuc, is_positive, List, [], ◌∷◌, ◌++◌, Bool, true,
  false, ◌&&◌, ◌||◌, not, Option, none, some, leb, ltb, ◌==◌, if◌then◌else◌, length,
}
use gist.Text.{Bytes, codes, is_empty, bytes_eq, contains}
use gist.Outcome.{Outcome, gave, failed, ◌>>=◌}

abbrev pub max_request_bytes : ℕ
max_request_bytes = 8192

abbrev pub second : ℕ
second = 1_000_000_000

pub record Config : Type 0 where
  pub client_id : Bytes
  pub client_secret : Bytes
  pub callback_url : Bytes
  pub public_origin : Bytes
  pub workspace_id : Bytes
  pub workspace_name : Bytes
  pub founder_account : Bytes
  pub bootstrap_scopes : List Bytes
  pub allowed_scopes : List Bytes
  pub flow_ttl : ℕ
  pub session_ttl : ℕ
  pub invitation_ttl : ℕ

pub record Session : Type 0 where
  pub id : Bytes
  pub subject : Bytes
  pub workspaces : List Bytes

pub record Url : Type 0 where
  pub scheme : Bytes
  pub host : Bytes
  pub has_user : Bool
  pub opaque : Bytes
  pub fragment : Bytes
  pub raw_fragment : Bytes
  pub path : Bytes
  pub escaped_path : Bytes
  pub raw_path : Bytes
  pub raw_query : Bytes

-- `url.Values`: a key that is not there has no list.
abbrev pub Values : Type 0
Values = Bytes → Option (List Bytes)

abbrev pub all_of : Values → Bytes → List Bytes
all_of q key = elim (q key) [ none ↦ [] | some vs ↦ vs ]

abbrev pub first_or_empty : List Bytes → Bytes
first_or_empty [] = []
first_or_empty (v ∷ vs) = v

abbrev pub value : Values → Bytes → Bytes
value q key = first_or_empty (all_of q key)

abbrev pub has_key : Values → Bytes → Bool
has_key q key = elim (q key) [ none ↦ false | some vs ↦ true ]

-- What a handler reads of a request; a form or a document of more than `max_request_bytes` does
-- not parse.
pub record HttpRequest : Type 0 where
  pub method : Bytes
  pub origin : Bytes
  pub media_type : Option Bytes
  pub csrf_header : Bytes
  pub flow_cookie : Option Bytes
  pub query : Values
  pub post_form : Option Values
  pub body : Option Bytes

pub record Invitation : Type 0 where
  pub workspace_id : Bytes
  pub subject : Bytes
  pub account : Bytes
  pub role : Bytes
  pub scopes : List Bytes
  pub token_hash : Bytes
  pub expires_at : ℕ

pub record InvitationInput : Type 0 where
  pub github_account_id : Bytes
  pub role : Bytes
  pub scopes : List Bytes

pub record Login : Type 0 where
  pub workspace_id : Bytes
  pub account : Bytes
  pub invitation_hash : Option Bytes
  pub founder_account : Bytes
  pub workspace_name : Bytes
  pub bootstrap_scopes : List Bytes
  pub now : ℕ

pub record FlowClaims : Type 0 where
  pub state : Bytes
  pub verifier : Bytes
  pub invitation : Bytes
  pub return_to : Bytes
  pub expires : ℕ

-- `openFlow` gives the same five values, the last as a time.
pub record OpenFlow : Type 0 where
  pub state : Bytes
  pub verifier : Bytes
  pub invitation : Bytes
  pub return_to : Bytes
  pub expires_at : ℕ

pub record TokenAnswer : Type 0 where
  pub access_token : Bytes
  pub error : Bytes

-- An answer of GitHub; `body` is `none` if reading or closing it failed.
pub record HttpResponse : Type 0 where
  pub status_code : ℕ
  pub body : Option Bytes

-- The error of a store: `ErrDenied`, `ErrReplay` or any other.
pub data StoreAnswer : Type 0 where
  done denied replay broken : StoreAnswer

pub data FlowCookie : Type 0 where
  kept cleared : FlowCookie
  sealed_until : Bytes → ℕ → FlowCookie

pub data Body : Type 0 where
  message : Bytes → Body
  signed_in : Bytes → Body
  invited : Bytes → ℕ → Body
  redirect_to : Bytes → Body
  redirect_to_github : List (Bytes × Bytes) → Body

pub record Reply : Type 0 where
  pub status : ℕ
  pub body : Body
  pub flow : FlowCookie
  pub session : Option Bytes

pub record Platform : Type 0 where
  pub parse_url : Bytes → Option Url
  pub is_query : Bytes → Bool
  pub equal_fold : Bytes → Bytes → Bool
  pub encode : Bytes → Bytes
  pub decode : Bytes → Option Bytes
  pub seal : Bytes → Bytes → Bytes
  pub unseal : Bytes → Bytes → Option Bytes
  pub nonce_size : ℕ
  pub new_nonce : Option Bytes
  pub encode_claims : FlowClaims → Bytes
  pub decode_claims : Bytes → Option FlowClaims
  pub sha256 : Bytes → Bytes
  pub hmac : Bytes → Bytes
  pub random : ℕ → Option Bytes
  pub clock : ℕ → ℕ
  pub exchange : List (Bytes × Bytes) → Option HttpResponse
  pub fetch_user : Bytes → Option HttpResponse
  pub decode_token : Bytes → Option TokenAnswer
  pub decode_user : Bytes → Option Bytes
  pub decode_invitation : Bytes → Option InvitationInput
  pub issue : Bytes → List Bytes → ℕ → Option Bytes
  pub authenticate : HttpRequest → Option Session

-- The arguments of `http.Error`, with what was done to the flow's cookie.
pub record HttpError : Type 0 where
  pub status : ℕ
  pub flow : FlowCookie
  pub text : Bytes

abbrev pub http_error : ℕ → FlowCookie → Bytes → HttpError
http_error status flow text = record { status = status; flow = flow; text = text }

abbrev pub refused : HttpError → Reply
refused e = record { status = e.status; body = message e.text; flow = e.flow; session = none }

abbrev pub redirect : ℕ → FlowCookie → Bytes → Reply
redirect status flow target = record {
  status = status;
  body = redirect_to target;
  flow = flow;
  session = none;
}

abbrev pub refuse_if {ℓ} : {Failure : Type ℓ} → Bool → Failure → Outcome Failure (Unit {0})
refuse_if true why = failed why
refuse_if false why = gave tt

abbrev pub or_refuse {i j} :
    {Failure : Type i} {A : Type j} → Failure → Option A → Outcome Failure A
or_refuse why none = failed why
or_refuse why (some a) = gave a
