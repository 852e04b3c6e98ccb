-- ===== src/Auth/Login.antt =====
-- Who can log in, and what a login leaves.
pub mod Admission
pub mod Running
pub mod Returning
use swa_drive.Base.{
  ℕ, ◌+◌, ◌≡◌, ◌≤◌, ◌<◌, refl, sym, ap, subst, ◌∙◌, Bool, true, false, not, ◌&&◌, Option, some,
  none, List, [], ◌∷◌, Result, ok, err, ◌==◌, arith, inl, inr, Option-cases, Result-cases,
  Bool-cases, rate_limited,
}
use swa_drive.Base.Text.{Text, codes, text_eq, text_eq_iff, text_eq_refl}
use swa_drive.Platform.{Platform}
use swa_drive.Audit.Event.{Event, outcome_success}
use swa_drive.Auth.Authentication.{ok-answer}
use swa_drive.Auth.Library.{Library}
use swa_drive.Auth.Limiter.{LoginLimiter, check}
use swa_drive.Auth.Model.{Session, SessionRow, User, UserCredential, session_lifetime}
use swa_drive.Auth.Password.{ParsedHash, parse_password_hash, verify_password, derive_key}
use swa_drive.Auth.Policy.{canonicalize_username, validate_login_password}
use swa_drive.Auth.Repository.{
  first_where, find_credential_by_username, create_session_with_audit, new_session, session_row,
  next_id, session_ids, session_insertable,
}
use swa_drive.Auth.Repository.Transactions.{create_session_with_audit-ok}
use swa_drive.Auth.Service.{
  LoginInput, LoginResult, login, try_login, decide_login, start_session, fail_login, limiter_name,
  limiter_check, limiter_record_failure, record_login_block_transitions, enabled_credential,
  enabled_only, is_user_not_found, or_dummy, plain_event,
}
use swa_drive.Auth.Token.{generate_session_token, hash_session_token}
use swa_drive.Database.{Db}
use swa_drive.World.{
  World, M, now, query, lift, guard, attempt, transact_timed, fallible, ◌>>=◌, raise,
}
use swa_drive.World.Laws.{
  bind-ok, lifted-ok, attempt_lem, checked-ok, query-ok, lift-ok, now-same, transact_timed-ok,
  query-same,
}
use swa_drive.World.Ends.{step_same, SameState}

pub fail_login-ne_ok :
    (choices : ℕ × ℕ) (name : Text) (input : LoginInput) (t : ℕ) (w : World) {r : LoginResult}
    {v : World}
    → fail_login choices name input t w ≡ (ok r, v)
    → ⊥
unfolding fail_login
fail_login-ne_ok choices name input t w h =
    let (_, w1, _, h1) = bind-ok _ _ w h in
    let (_, w2, _, h2) = bind-ok _ _ w1 h1 in let (_, w3, _, h3) = bind-ok _ _ w2 h2 in cc

-- The password was checked against the hash: its key is the one in the hash.
abbrev pub IsPasswordOf : Library → (password encoded : Text) → Type 0
IsPasswordOf lib password encoded =
    (parsed : ParsedHash) × (parse_password_hash lib encoded ≡ ok parsed)
    × (lib.id_key password parsed.salt parsed.parameters.iterations parsed.parameters.memory_kib
          parsed.parameters.parallelism parsed.parameters.key_length
        ≡ parsed.derived)

pub verify_password-IsPasswordOf :
    (lib : Library) (password encoded : Text) (w : World) {v : World}
    → verify_password lib password encoded w ≡ (ok true, v)
    → IsPasswordOf lib password encoded × (v.db ≡ w.db)
unfolding verify_password derive_key ◌>>=◌ fallible
verify_password-IsPasswordOf lib password encoded w h =
    elim (Result-cases (parse_password_hash lib encoded)) [
      | inr (e, g) ↦ absurd (ground arith)
      | inl (parsed, g) ↦
          (let same : text_eq
                  (lib.id_key password parsed.salt parsed.parameters.iterations
                    parsed.parameters.memory_kib parsed.parameters.parallelism
                    parsed.parameters.key_length)
                  parsed.derived
                ≡ true =
              ground arith in
            ((parsed, g, (text_eq_iff _ _).0 same), ground arith))
    ]

enabled_only-ok :
    (r : Result UserCredential) {c : UserCredential}
    → enabled_only r ≡ ok (some c)
    → (r ≡ ok c) × (c.user.disabled_at ≡ none)
unfolding enabled_only
enabled_only-ok (err e) h = absurd (ground arith)
enabled_only-ok (ok c) h = elim (Option-cases c.user.disabled_at) [
  | inl e ↦ (ground arith, ground arith)
  | inr (t, e) ↦ absurd (ground arith)
]

pub enabled_credential-ok :
    (canonical : Result Text) (w : World) {c : UserCredential} {v : World}
    → enabled_credential canonical w ≡ (ok (some c), v)
    → (name : Text) × (canonical ≡ ok name)
      × (find_credential_by_username name w.db ≡ ok c)
      × (c.user.disabled_at ≡ none)
      × (v.db ≡ w.db)
unfolding enabled_credential
enabled_credential-ok (err e) w h = absurd (ground arith)
enabled_credential-ok (ok name) w {c = c} h =
    let (r, w1, asked, h1) = bind-ok _ _ w h in
    let (chosen, same) = lift-ok _ w1 h1 in
    let (found, enabled) = enabled_only-ok r chosen in
    let asked' =
      attempt_lem (query (find_credential_by_username name)) w asked ∙ ap (λ z. (z, w1)) found in
    let (in_tables, db_same, _) = query-ok (find_credential_by_username name) w asked' in
    (name, refl, in_tables, enabled, ap (λ z. z.db) same ∙ db_same)

generate_session_token-ok :
    (env : Platform) (lib : Library) (random : Option Text) {token hash : Text}
    → generate_session_token env lib random ≡ ok (token, hash)
    → (drawn : Text) × (random ≡ some drawn)
      × (token ≡ lib.encode_url drawn)
      × (hash ≡ env.sha256_sum token)
unfolding generate_session_token hash_session_token
generate_session_token-ok env lib none h = absurd (ground arith)
generate_session_token-ok env lib (some drawn) h = (drawn, refl, ground arith, ground arith)

-- What a login left: the token comes from the bytes that were drawn, and the session that the answer
-- tells of is stored with the hash of the token, beside the sessions that were there.
pub record IsStarted (env : Platform) (lib : Library) (random : Option Text) (user : User) (t : ℕ)
    (before after : Db) (r : LoginResult) : Type 0 where
  pub drawn : Text
  pub was_drawn : random ≡ some drawn
  pub its_token : r.token ≡ lib.encode_url drawn
  pub its_user : r.user ≡ user
  pub owner_id : r.session.user_id ≡ user.id
  pub numbered : r.session.id ≡ next_id (session_ids before.sessions)
  pub seen : r.session.last_seen_at ≡ t
  pub live : r.session.revoked_at ≡ none
  pub made : r.session.created_at ≡ t
  pub ends : r.session.expires_at ≡ t + session_lifetime
  pub stored : after.sessions ≡ session_row r.session (env.sha256_sum r.token) ∷ before.sessions
  pub same_users : after.users ≡ before.users

pub start_session-IsStarted :
    (env : Platform) (lib : Library) (random : Option Text) (c : UserCredential)
    (name client_name : Text) (input : LoginInput) (t : ℕ) (w : World) {r : LoginResult} {v : World}
    → start_session env lib random c name client_name input t w ≡ (ok r, v)
    → IsStarted env lib random c.user t w.db v.db r
unfolding start_session
start_session-IsStarted env lib random c name client_name input t w {r = r} {v = v} h =
    let (_, w1, cleared, h1) = bind-ok _ _ w h in
    let ((token, hash), made, h2) = lifted-ok _ _ w1 h1 in
    let (drawn, was_drawn, its_token, its_hash) = generate_session_token-ok env lib random made in
    let (session, w2, opened, h3) = bind-ok _ _ w1 h2 in
    let (clock, opened') = transact_timed-ok _ w1 opened in
    let (is_new, rows, users, _, _) =
      create_session_with_audit-ok c.user.id hash client_name t (t + session_lifetime) _ clock w1.db
        opened' in
    let answer = ok-answer h3 in
    let same : w1.db ≡ w.db = ap (λ z. z.1.db) (sym cleared) in
    let last : w2.db ≡ v.db = ap (λ z. z.1.db) h3 in
    let its_session = ap (λ z. z.session) answer ∙ is_new in
    record {
      drawn = drawn;
      was_drawn = was_drawn;
      its_token = ap (λ z. z.token) answer ∙ its_token;
      its_user = ap (λ z. z.user) answer;
      owner_id = ap (λ z. z.user_id) its_session;
      numbered = ap (λ z. z.id) its_session ∙ ap (λ d. next_id (session_ids d.sessions)) same;
      seen = ap (λ z. z.last_seen_at) its_session;
      live = ap (λ z. z.revoked_at) its_session;
      made = ap (λ z. z.created_at) its_session;
      ends = ap (λ z. z.expires_at) its_session;
      stored =
          ap (λ z. z.sessions) (sym last)
          ∙ rows
          ∙ ap (λ z. session_row session z ∷ w1.db.sessions)
              (its_hash ∙ ap env.sha256_sum (sym (ap (λ z. z.token) answer)))
          ∙ ap (λ z. session_row z (env.sha256_sum r.token) ∷ w1.db.sessions)
              (sym (ap (λ z. z.session) answer))
          ∙ ap (λ d. session_row r.session (env.sha256_sum r.token) ∷ d.sessions) same;
      same_users = ap (λ z. z.users) (sym last) ∙ users ∙ ap (λ z. z.users) same;
    }
