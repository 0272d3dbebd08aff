-- ===== src/Enrollment/Settings.antt =====
-- enrollment.go: `ValidateConfig`, and what `New` makes of the configuration. That a service is nil
-- and the copies of the keys and of the HTTP client have no counterpart in values.
use gist.Prelude.{
  ℕ, ◌*◌, ◌≤◌, ◌<◌, ◌≡◌, subst, ℤ, pos_part, is_positive, List, [], ◌∷◌, Bool, true, false, ◌||◌,
  not, Option, none, some, ltb, ◌==◌, if◌then◌else◌, length, arith, Bool-cases, inl, inr,
}
use gist.Text.{Bytes, codes, is_empty, bytes_eq}
use gist.Outcome.{Outcome, gave, ◌>>=◌, both_gave, gave-injective}
use gist.Enrollment.{Config, Platform, Url, second, refuse_if}
use gist.Enrollment.Checks.{canonical_id, subset}
use gist.Enrollment.Callbacks.{refuse_if-gave, true_of_negated}
use gist.Enrollment.Scopes.{AreGranted, subset-AreGranted}

-- A configuration as it is given: the durations may be negative, those of `base` are not read.
pub record Settings : Type 0 where
  pub base : Config
  pub flow_key : Bytes
  pub csrf_key : Bytes
  pub flow_ttl : ℤ
  pub session_ttl : ℤ
  pub invitation_ttl : ℤ

pub data SettingsError : Type 0 where
  no_credentials bad_callback bad_origin weak_keys scopes_exceeded : SettingsError

abbrev pub is_not_https : Url → Bool
is_not_https u =
    not (bytes_eq u.scheme (codes "https"))
    || (is_empty u.host
        || (u.has_user || (not (is_empty u.fragment) || not (is_empty u.raw_query))))

abbrev pub is_bad_callback : Option Url → Bool
is_bad_callback none = true
is_bad_callback (some u) = is_not_https u || not (bytes_eq u.path (codes "/auth/github/callback"))

abbrev pub host_of : Option Url → Bytes
host_of none = []
host_of (some u) = u.host

abbrev pub is_bad_origin : Bytes → Option Url → Bool
is_bad_origin host none = true
is_bad_origin host (some u) =
    is_not_https u || (not (is_empty u.path) || not (bytes_eq host u.host))

abbrev pub is_weak : Settings → Bool
is_weak x =
    is_empty x.base.workspace_id
    || (is_empty x.base.workspace_name
        || (not (canonical_id x.base.founder_account)
            || (not (length x.flow_key == 32) || ltb (length x.csrf_key) 32)))

unfoldable pub validate_config : Platform → Settings → Outcome SettingsError (Unit {0})
validate_config w x = do
  _ ← refuse_if (is_empty x.base.client_id || is_empty x.base.client_secret) no_credentials
  _ ← refuse_if (is_bad_callback (w.parse_url x.base.callback_url)) bad_callback
  _ ←
      refuse_if
        (is_bad_origin (host_of (w.parse_url x.base.callback_url))
          (w.parse_url x.base.public_origin))
        bad_origin
  refuse_if (is_weak x) weak_keys

-- A duration that is not positive or above the most is replaced.
abbrev pub limited : ℕ → ℕ → ℤ → ℕ
limited most usual given =
    if not (is_positive given) || ltb most (pos_part given) then usual else pos_part given

abbrev pub all_scopes : List Bytes
all_scopes = codes "catalog:read" ∷ codes "catalog:publish" ∷ codes "catalog:resolve" ∷ []

abbrev pub or_all : List Bytes → List Bytes
or_all scopes = if is_empty scopes then all_scopes else scopes

abbrev pub minute : ℕ
minute = 60 * second

abbrev pub hour : ℕ
hour = 60 * minute

abbrev pub completed : Settings → Config
completed x = record x.base {
  flow_ttl = limited (10 * minute) (5 * minute) x.flow_ttl;
  session_ttl = limited (24 * hour) (8 * hour) x.session_ttl;
  invitation_ttl = limited (7 * 24 * hour) (24 * hour) x.invitation_ttl;
  bootstrap_scopes = or_all x.base.bootstrap_scopes;
  allowed_scopes = or_all x.base.allowed_scopes;
}

unfoldable pub new_config : Platform → Settings → Outcome SettingsError Config
unfolding validate_config
new_config w x = do
  _ ← validate_config w x
  _ ←
      refuse_if (not (subset (or_all x.base.bootstrap_scopes) (or_all x.base.allowed_scopes)))
        scopes_exceeded
  gave (completed x)

-- A duration between one nanosecond and the most.
pub record IsWithin (most n : ℕ) : Type 0 where
  pub positive : 0 < n
  pub at_most : n ≤ most

-- What the handlers rely on.
pub record IsSound (c : Config) : Type 0 where
  pub flow : IsWithin (10 * minute) c.flow_ttl
  pub session : IsWithin (24 * hour) c.session_ttl
  pub invitation : IsWithin (7 * 24 * hour) c.invitation_ttl
  pub scopes : AreGranted c.allowed_scopes c.bootstrap_scopes
  pub founder : canonical_id c.founder_account ≡ true

is_positive_lem : (n : ℤ) → is_positive n ≡ true → 0 < pos_part n
is_positive_lem n h = ground arith

limited-IsWithin :
    (most usual : ℕ) (given : ℤ)
    → 0 < usual
    → usual ≤ most
    → IsWithin most (limited most usual given)
limited-IsWithin most usual given p q =
    elim (Bool-cases (not (is_positive given) || ltb most (pos_part given))) [
      | inl out ↦ rw out (record { positive = p; at_most = q })
      | inr fits ↦
          rw fits
            (record { positive = is_positive_lem given (ground arith); at_most = ground arith })
    ]

validate_config-canonical_id :
    (w : Platform) (x : Settings) (u : Unit {0})
    → validate_config w x ≡ gave u
    → canonical_id x.base.founder_account ≡ true
unfolding validate_config
validate_config-canonical_id w x u h =
    let (u1, e1, h1) =
      both_gave
        (refuse_if (is_empty x.base.client_id || is_empty x.base.client_secret) no_credentials) u
        h in
    let (u2, e2, h2) =
      both_gave (refuse_if (is_bad_callback (w.parse_url x.base.callback_url)) bad_callback) u h1 in
    let (u3, e3, h3) =
      both_gave
        (refuse_if
          (is_bad_origin (host_of (w.parse_url x.base.callback_url))
            (w.parse_url x.base.public_origin))
          bad_origin)
        u h2 in
    let strong : is_weak x ≡ false = refuse_if-gave (is_weak x) weak_keys u h3 in ground arith

completed-IsSound :
    (w : Platform) (x : Settings)
    → canonical_id x.base.founder_account ≡ true
    → subset (or_all x.base.bootstrap_scopes) (or_all x.base.allowed_scopes) ≡ true
    → IsSound (completed x)
completed-IsSound w x f s = record {
  flow = limited-IsWithin (10 * minute) (5 * minute) x.flow_ttl (omega arith) (omega arith);
  session = limited-IsWithin (24 * hour) (8 * hour) x.session_ttl (omega arith) (omega arith);
  invitation =
      limited-IsWithin (7 * 24 * hour) (24 * hour) x.invitation_ttl (omega arith) (omega arith);
  scopes = subset-AreGranted (or_all x.base.bootstrap_scopes) (or_all x.base.allowed_scopes) s;
  founder = f;
}

-- A configuration that `New` accepts has durations of at most ten minutes for a flow, a day for a
-- session and a week for an invitation, none of them zero, however they were given; its founder is
-- a canonical account, and the founder's scopes are allowed ones, none of them twice.
pub new_config-IsSound :
    (w : Platform) (x : Settings) (c : Config) → new_config w x ≡ gave c → IsSound c
unfolding new_config
new_config-IsSound w x c h =
    let scopes : Bool = subset (or_all x.base.bootstrap_scopes) (or_all x.base.allowed_scopes) in
    let (u1, e1, h1) = both_gave (validate_config w x) c h in
    let (u2, e2, h2) = both_gave (refuse_if (not scopes) scopes_exceeded) c h1 in
    subst IsSound (gave-injective h2) (
      completed-IsSound w x (validate_config-canonical_id w x u1 e1)
        (true_of_negated x.base w scopes (refuse_if-gave (not scopes) scopes_exceeded u2 e2)))
