-- ===== src/Auth/Service.antt =====
-- Logins, sessions and the owner's credentials (server/internal/auth/service.go). What
-- `GenerateSessionToken` and a new password's salt read from `rand.Read` is an argument, and so is what
-- the limiter's iterations over its maps begin with.
use swa_drive.Base.{
  ℕ, zero, ◌+◌, ◌-◌, Bool, true, false, not, ◌||◌, Option, none, some, List, [], ◌∷◌, ◌++◌, Result,
  ok, err, Error, invalid_credentials, unauthorized, user_not_found, session_not_found,
  rate_limited, errors_is, ltb, if◌then◌else◌,
}
use swa_drive.Base.Text.{Text, codes}
use swa_drive.Base.Int.{ℤ, pos, negsuc}
use swa_drive.Base.Hex.{encode_hex}
use swa_drive.Platform.{Platform}
use swa_drive.Audit.Event.{Event, outcome_success, outcome_failure, outcome_denied}
use swa_drive.Auth.Library.{Library}
use swa_drive.Auth.Limiter.{check, record_failure, clear}
use swa_drive.Auth.Model.{
  User, UserCredential, Session, AuthenticatedSession, Authenticated, Identity, session_lifetime,
  last_seen_write_interval,
}
use swa_drive.Auth.Password.{hash_password, verify_password}
use swa_drive.Auth.Policy.{
  canonicalize_username, canonicalize_client_name, validate_new_password, validate_login_password,
}
use swa_drive.Auth.Repository.{
  find_credential_by_username, create_initial_owner_with_audit, reset_owner_credentials_with_audit,
  create_session_with_audit, find_authenticated_session, update_last_seen, list_sessions,
  revoke_session_with_audit, format_int,
}
use swa_drive.Auth.Token.{generate_session_token, parse_session_token, hash_session_token}
use swa_drive.World.{
  M, ◌>>=◌, ◌>>◌, lift, pure, raise, attempt, guard, now, query, transact, transact_timed,
}
use swa_drive.World.Audit.{record_event}

pub record LoginInput : Type 0 where
  pub username : Text
  pub password : Text
  pub client_name : Text
  pub remote_ip : Text
  pub request_id : Text

pub record LoginResult : Type 0 where
  pub token : Text
  pub user : User
  pub session : Session

-- An event of a request, with what `audit.Event` leaves empty.
abbrev pub plain_event : ℕ → (event_type outcome : Text) → (request_id remote_ip : Text) → Event
plain_event t event_type outcome request_id remote_ip = record {
  occurred_at = t;
  actor_user_id = none;
  actor_session_id = none;
  event_type = event_type;
  outcome = outcome;
  resource_type = [];
  resource_id = [];
  resource_path = [];
  destination_path = [];
  request_id = request_id;
  remote_ip = remote_ip;
  metadata = [];
}

unfoldable pub session_event : Identity → ℕ → Text → ℕ → Event
session_event who session_id event_type t =
    record (plain_event t event_type outcome_success who.request_id who.remote_ip) {
      actor_user_id = some who.user_id;
      actor_session_id = some who.session_id;
      resource_type = codes "session";
      resource_id = format_int session_id;
    }

-- `service.limiter.Check`, `RecordFailure` and `Clear` on the process's limiter.
abbrev pub limiter_check : (username remote_ip : Text) → ℕ → M (ℕ × Bool)
limiter_check username remote_ip t w =
    let (r, l) = check username remote_ip t w.limiter in (ok r, record w { limiter = l })

abbrev pub limiter_record_failure :
    (choices : ℕ × ℕ) (username remote_ip : Text) → ℕ → M (Bool × Bool)
limiter_record_failure choices username remote_ip t w =
    let (r, l) = record_failure choices username remote_ip t w.limiter in
    (ok r, record w { limiter = l })

abbrev pub limiter_clear : (username remote_ip : Text) → M (Unit {0})
limiter_clear username remote_ip w =
    (ok tt, record w { limiter = clear username remote_ip w.limiter })

unfoldable pub invalid_username_limiter_key : Platform → Library → Text → Text
invalid_username_limiter_key env lib username =
    let canonical = env.to_lower (lib.trim_space username) in
    codes "invalid:" ++ encode_hex (env.sha256_sum canonical)

-- One round of `recordLoginBlockTransitions`.
unfoldable pub record_transition : Bool → Text → LoginInput → ℕ → M (Unit {0})
record_transition crossed reason_code input t =
    if crossed
    then record_event
        (record (plain_event t (codes "auth.login_rate_limited") outcome_denied input.request_id
          input.remote_ip) { metadata = (codes "reason_code", reason_code) ∷ [] })
    else pure tt

unfoldable pub record_login_block_transitions : Bool × Bool → LoginInput → ℕ → M (Unit {0})
record_login_block_transitions (account, ip) input t = do
  record_transition account (codes "account_rate_limit") input t
  record_transition ip (codes "ip_rate_limit") input t

unfoldable pub fail_login : ℕ × ℕ → Text → LoginInput → ℕ → M LoginResult
fail_login choices limiter_username input t = do
  transitions ← limiter_record_failure choices limiter_username input.remote_ip t
  record_event
      (plain_event t (codes "auth.login_failure") outcome_failure input.request_id input.remote_ip)
  record_login_block_transitions transitions input t
  raise invalid_credentials

abbrev pub is_user_not_found : Error → Bool
is_user_not_found user_not_found = true
is_user_not_found e = false

abbrev pub is_session_not_found : Error → Bool
is_session_not_found session_not_found = true
is_session_not_found e = false

-- The `switch` over what the look for the user gave.
unfoldable pub enabled_only : Result UserCredential → Result (Option UserCredential)
enabled_only (ok c) = elim c.user.disabled_at [ none ↦ ok (some c) | some t ↦ ok none ]
enabled_only (err e) = if errors_is is_user_not_found e then ok none else err e

unfoldable pub enabled_credential : Result Text → M (Option UserCredential)
enabled_credential (err e) = pure none
enabled_credential (ok username) = do
  r ← attempt (query (find_credential_by_username username))
  lift (enabled_only r)

abbrev pub or_dummy : Text → Option UserCredential → Text
or_dummy dummy_hash none = dummy_hash
or_dummy dummy_hash (some c) = c.password_hash

abbrev pub is_refused : AuthenticatedSession → ℕ → Bool
is_refused a t =
    not (elim a.session.revoked_at [ none ↦ true | some u ↦ false ])
    || not (ltb t a.session.expires_at)
    || not (elim a.user.disabled_at [ none ↦ true | some u ↦ false ])

unfoldable pub unauthorized_if_missing : Result AuthenticatedSession → Result AuthenticatedSession
unauthorized_if_missing (ok a) = ok a
unauthorized_if_missing (err e) =
    if errors_is is_session_not_found e then err unauthorized else err e

-- `now.Add(-LastSeenWriteInterval)` stops at the epoch here.
unfoldable pub touch_session : AuthenticatedSession → ℕ → M AuthenticatedSession
touch_session a t =
    if not (ltb (t - last_seen_write_interval) a.session.last_seen_at)
    then (do
      transact (λ _. update_last_seen a.session.id t (t - last_seen_write_interval))
      pure (record a { session = record a.session { last_seen_at = t } }))
    else pure a

module _ (env : Platform) (lib : Library) where
  unfoldable pub bootstrap_owner :
      (random : Option Text) (username password request_id : Text) → M User
  bootstrap_owner random username password request_id = do
    canonical ← lift (canonicalize_username env lib username)
    lift (validate_new_password password)
    password_hash ← hash_password lib random password
    t ← now
    transact_timed (
        create_initial_owner_with_audit canonical password_hash t
          (record (plain_event t (codes "auth.owner_bootstrap") outcome_success request_id []) {
            resource_type = codes "user";
          }))

  unfoldable pub reset_owner_credentials :
      (random : Option Text) (username password : Text) → M (User × ℕ)
  reset_owner_credentials random username password = do
    canonical ← lift (canonicalize_username env lib username)
    lift (validate_new_password password)
    password_hash ← hash_password lib random password
    t ← now
    transact_timed (
        reset_owner_credentials_with_audit canonical password_hash t
          (record (plain_event t (codes "auth.owner_credentials_reset") outcome_success [] []) {
            resource_type = codes "user";
          }))

  -- `Login` from where the password was right.
  unfoldable pub start_session :
      (random : Option Text)
      → UserCredential
      → (limiter_username client_name : Text) → LoginInput
      → ℕ
      → M LoginResult
  start_session random c limiter_username client_name input t = do
    limiter_clear limiter_username input.remote_ip
    (token, token_hash) ← lift (generate_session_token env lib random)
    session ← transact_timed (
        create_session_with_audit c.user.id token_hash client_name t (t + session_lifetime)
          (record (plain_event t (codes "auth.login_success") outcome_success input.request_id
            input.remote_ip) { actor_user_id = some c.user.id; resource_type = codes "session" }))
    pure (record { token = token; user = c.user; session = session })

  -- The branches of `Login` after the look at the password.
  unfoldable pub decide_login :
      (choices : ℕ × ℕ) (random : Option Text)
      → Option UserCredential
      → Bool
      → (limiter_username client_name : Text) → LoginInput
      → ℕ
      → M LoginResult
  decide_login choices random none correct limiter_username client_name input t =
      fail_login choices limiter_username input t
  decide_login choices random (some c) false limiter_username client_name input t =
      fail_login choices limiter_username input t
  decide_login choices random (some c) true limiter_username client_name input t =
      start_session random c limiter_username client_name input t

  -- `Login` from the look at the password's form on.
  unfoldable pub try_login :
      (dummy_hash : Text) (choices : ℕ × ℕ) (random : Option Text)
      → Result Text
      → (limiter_username client_name : Text) → LoginInput
      → ℕ
      → M LoginResult
  try_login dummy_hash choices random canonical limiter_username client_name input t =
      elim (validate_login_password input.password) [
        | err e ↦ fail_login choices limiter_username input t
        | ok u ↦ (do
          found ← enabled_credential canonical
          correct ← verify_password lib input.password (or_dummy dummy_hash found)
          decide_login choices random found correct limiter_username client_name input t)
      ]

  abbrev pub limiter_name : Text → Result Text → Text
  limiter_name username (ok canonical) = canonical
  limiter_name username (err e) = invalid_username_limiter_key env lib username

  unfoldable pub login :
      (dummy_hash : Text) (choices : ℕ × ℕ) (random : Option Text) → LoginInput → M LoginResult
  login dummy_hash choices random input = do
    client_name ← lift (canonicalize_client_name lib input.client_name)
    let canonical = canonicalize_username env lib input.username
    let limiter_username = limiter_name input.username canonical
    t ← now
    (retry_after, blocked) ← limiter_check limiter_username input.remote_ip t
    guard (not blocked) (rate_limited retry_after)
    try_login dummy_hash choices random canonical limiter_username client_name input t

  unfoldable pub authenticate : (token_value request_id remote_ip : Text) → M Authenticated
  authenticate token_value request_id remote_ip = do
    token ←
        lift (elim (parse_session_token lib token_value) [ ok v ↦ ok v | err e ↦ err unauthorized ])
    r ← attempt (query (find_authenticated_session (hash_session_token env token)))
    found ← lift (unauthorized_if_missing r)
    t ← now
    guard (not (is_refused found t)) unauthorized
    a ← touch_session found t
    pure (record {
      user = a.user;
      session = a.session;
      request_id = request_id;
      remote_ip = remote_ip;
    })

unfoldable pub list_own_sessions : Identity → M (List Session)
list_own_sessions who = query (list_sessions who.user_id)

unfoldable pub logout : Identity → M (Unit {0})
logout who = do
  t ← now
  s ← transact_timed (
      revoke_session_with_audit who.user_id who.session_id t
        (session_event who who.session_id (codes "auth.logout") t))
  pure tt

unfoldable pub revoke_session : Identity → ℤ → M (Unit {0})
revoke_session who (negsuc n) = raise session_not_found
revoke_session who (pos zero) = raise session_not_found
revoke_session who (pos id) = do
  t ← now
  s ← transact_timed (
      revoke_session_with_audit who.user_id id t
        (session_event who id (codes "auth.session_revoked") t))
  pure tt
