-- ===== src/Auth/Login/Running.antt =====
-- A request of a session that is found, live and not over, where no call fails, runs to its end.
use swa_drive.Base.{
  ℕ, ◌-◌, ◌≡◌, ◌≤◌, ◌<◌, refl, sym, ap, subst, ◌∙◌, Bool, true, false, not, ◌&&◌, ◌||◌, some, none,
  List, [], ◌∷◌, Result, ok, err, ◌==◌, ltb, leb, arith, inl, inr, Option-cases, Bool-cases, all,
  any, map, length, unauthorized,
}
use swa_drive.Base.Text.{Text, text_eq, text_eq_refl}
use swa_drive.Platform.{Platform}
use swa_drive.Audit.Event.{stored_time}
use swa_drive.Auth.Library.{Library}
use swa_drive.Auth.Model.{
  SessionRow, UserCredential, AuthenticatedSession, Authenticated, last_seen_write_interval,
}
use swa_drive.Auth.Repository.{
  first_where, find_credential_by_username, find_authenticated_session, largest, next_id,
  session_ids, update_last_seen, seen_row, same_name,
}
use swa_drive.Auth.Repository.Rows.{first_where-any}
use swa_drive.Auth.Service.{authenticate, touch_session, unauthorized_if_missing, is_refused}
use swa_drive.Auth.Token.{parse_session_token, hash_session_token}
use swa_drive.Database.{Db}
use swa_drive.World.{
  World, M, now, query, lift, guard, attempt, transact, fallible, pure, ◌>>=◌, ◌>>◌,
}
use swa_drive.World.Running.{bind_value, transact-Runs, query-runs, now-runs}

-- The user table has the primary key that its schema declares.
abbrev pub IsKeyed : List UserCredential → Type 0
IsKeyed [] = Unit
IsKeyed (c ∷ cs) = (any (λ d. d.user.id == c.user.id) cs ≡ false) × IsKeyed cs

-- The one user with this id.
pub first_where-id :
    (p : UserCredential → Bool) (users : List UserCredential) {c : UserCredential}
    → IsKeyed users
    → first_where p users ≡ some c
    → first_where (λ d. d.user.id == c.user.id) users ≡ some c
unfolding first_where
first_where-id p [] keyed h = absurd (ground arith)
first_where-id p (d ∷ ds) {c = c} (one, keyed) h = elim (Bool-cases (p d)) [
  | inl e ↦ ground arith
  | inr e ↦
      (let rest : first_where p ds ≡ some c = ground arith in
        let ih = first_where-id p ds keyed rest in
        let there = first_where-any (λ x. x.user.id == c.user.id) ds ih in
        elim (Bool-cases (d.user.id == c.user.id)) [
          | inr far ↦ rw far ih
          | inl same ↦
              (let at : any (λ x. x.user.id == d.user.id) ds ≡ true =
                  subst (λ i. any (λ x. x.user.id == i) ds ≡ true) (ground arith) there in
                absurd (ground arith))
        ])
]

touchable :
    (rows : List SessionRow) (id seen before : ℕ)
    → largest (session_ids rows) < id
    → all
        (λ r.
          not (r.session.id == id && leb r.session.last_seen_at before)
          || leb r.session.created_at seen)
        rows
      ≡ true
unfolding largest
touchable [] id seen before h = refl
touchable (r ∷ rs) id seen before h =
    let others = touchable rs id seen before (ground arith) in
    let far : (r.session.id == id) ≡ false = ground arith in ground arith

-- The note of when the session was seen goes through.
pub update_last_seen-ok :
    (row : SessionRow) (rows : List SessionRow) (seen before : ℕ) (db : Db)
    → db.sessions ≡ row ∷ rows
    → row.session.id ≡ next_id (session_ids rows)
    → row.session.created_at ≤ stored_time seen
    → (db' : Db) × (update_last_seen row.session.id seen before db ≡ ok db')
unfolding update_last_seen
update_last_seen-ok row rows seen before db h numbered late =
    let old =
      touchable rows row.session.id (stored_time seen) (stored_time before)
        (omega (arith, numbered)) in
    let new : leb row.session.created_at (stored_time seen) ≡ true = ground arith in
    (
      record db {
        sessions =
            map (seen_row row.session.id (stored_time seen) (stored_time before)) db.sessions;
      },
      ground arith,
    )

touch_session-runs :
    (a : AuthenticatedSession) (t : ℕ) (x : World)
    → x.faults ≡ []
    → ((db' : Db) × (update_last_seen a.session.id t (t - last_seen_write_interval) x.db ≡ ok db'))
    → (b : AuthenticatedSession) × (y : World) × (touch_session a t x ≡ (ok b, y))
      × (b.user ≡ a.user)
      × (b.session.id ≡ a.session.id)
unfolding touch_session transact fallible ◌>>=◌
touch_session-runs a t x clear (db', h) =
    elim (Bool-cases (ltb (t - last_seen_write_interval) a.session.last_seen_at)) [
      | inl e ↦ (a, x, rw e refl, refl, refl)
      | inr e ↦
          (let (y, ran, _, _, _) =
              transact-Runs (λ _. update_last_seen a.session.id t (t - last_seen_write_interval)) x
                clear h in
            let seen : AuthenticatedSession = record a {
              session = record a.session { last_seen_at = t };
            } in
            (
              seen,
              y,
              rw (touch_session, e)
                  (bind_value
                    (transact (λ _. update_last_seen a.session.id t (t - last_seen_write_interval)))
                    (λ _. pure seen) x ran refl),
              refl,
              refl,
            ))
    ]

-- The steps of `authenticate`, from the last one back.
module _ (request_id remote_ip : Text) where
  abbrev granted : AuthenticatedSession → M Authenticated
  granted a = pure (record {
    user = a.user;
    session = a.session;
    request_id = request_id;
    remote_ip = remote_ip;
  })

  abbrev from_accepted : AuthenticatedSession → ℕ → M Authenticated
  from_accepted found t = touch_session found t >>= granted

  abbrev from_time : AuthenticatedSession → ℕ → M Authenticated
  from_time found t = guard (not (is_refused found t)) unauthorized >> from_accepted found t

  abbrev from_answer : Result AuthenticatedSession → M Authenticated
  from_answer r = lift (unauthorized_if_missing r) >>= (λ found. now >>= from_time found)

abbrev from_token : Platform → (request_id remote_ip : Text) → Text → M Authenticated
from_token env request_id remote_ip token =
    attempt (query (find_authenticated_session (hash_session_token env token)))
    >>= from_answer request_id remote_ip

abbrev accepted_form : Result Text → Result Text
accepted_form r = elim r [ ok v ↦ ok v | err e ↦ err unauthorized ]

module _ (env : Platform) (lib : Library) where
  pub authenticate-runs :
      (token request_id remote_ip : Text) (x : World) (a : AuthenticatedSession)
      → x.faults ≡ []
      → x.delays ≡ []
      → parse_session_token lib token ≡ ok token
      → find_authenticated_session (env.sha256_sum token) x.db ≡ ok a
      → is_refused a x.clock ≡ false
      → ((db' : Db) × (update_last_seen a.session.id x.clock
              (x.clock - last_seen_write_interval)
              x.db
            ≡ ok db'))
      → (b : Authenticated) × (y : World) × (authenticate env lib token request_id remote_ip x
          ≡ (ok b, y))
        × (b.user ≡ a.user)
        × (b.session.id ≡ a.session.id)
  unfolding authenticate hash_session_token ◌>>=◌ unauthorized_if_missing
  authenticate-runs token request_id remote_ip x a clear steady form found accepted touch =
      let (b, y, ran, same_user, same_id) = touch_session-runs a x.clock x clear touch in
      let asked = query-runs (find_authenticated_session (env.sha256_sum token)) x clear found in
      let answer : Authenticated = record {
        user = b.user;
        session = b.session;
        request_id = request_id;
        remote_ip = remote_ip;
      } in
      (
        answer,
        y,
        bind_value
            (lift (elim (parse_session_token lib token) [ ok v ↦ ok v | err e ↦ err unauthorized ]))
            (from_token env request_id remote_ip) x (ap (λ z. lift (accepted_form z) x) form)
            (bind_value (attempt (query (find_authenticated_session (env.sha256_sum token))))
              (from_answer request_id remote_ip) x (ap (λ z. (ok z.0, z.1)) asked)
              (bind_value now (from_time request_id remote_ip a) x (now-runs x steady) (
                bind_value (guard (not (is_refused a x.clock)) unauthorized)
                  (λ _. from_accepted request_id remote_ip a x.clock) x
                  (ap (λ z. guard (not z) unauthorized x) accepted)
                  (bind_value (touch_session a x.clock) (granted request_id remote_ip) x ran
                    refl)))),
        same_user,
        same_id,
      )

pub stored_time-le : {s t : ℕ} → s ≤ t → stored_time s ≤ stored_time t
stored_time-le h = omega arith

pub find_authenticated_session-first :
    (hash : Text) (row : SessionRow) (rows : List SessionRow) (c : UserCredential) (db : Db)
    → db.sessions ≡ row ∷ rows
    → row.token_hash ≡ hash
    → first_where (λ d. d.user.id == row.session.user_id) db.users ≡ some c
    → find_authenticated_session hash db ≡ ok (record { user = c.user; session = row.session })
unfolding find_authenticated_session first_where
find_authenticated_session-first hash row rows c db e same user =
    let eq : text_eq row.token_hash hash ≡ true =
      ap (text_eq row.token_hash) (sym same) ∙ text_eq_refl row.token_hash in
    rw (find_authenticated_session, e, eq, user) refl

pub find_credential_by_username-first :
    (name : Text) (db : Db) {c : UserCredential}
    → find_credential_by_username name db ≡ ok c
    → first_where (λ d. same_name d.user.username name) db.users ≡ some c
unfolding find_credential_by_username
find_credential_by_username-first name db h =
    elim (Option-cases (first_where (λ d. same_name d.user.username name) db.users)) [
      | inl e ↦ absurd (ground arith)
      | inr (c, e) ↦ ground arith
    ]

pub parse_session_token-encoded :
    (lib : Library) (drawn : Text)
    → lib.decode_url (lib.encode_url drawn) ≡ some drawn
    → length drawn ≡ 32
    → parse_session_token lib (lib.encode_url drawn) ≡ ok (lib.encode_url drawn)
unfolding parse_session_token
parse_session_token-encoded lib drawn h k = ground arith

pub not_refused :
    (c : UserCredential) (row : SessionRow) (t : ℕ)
    → row.session.revoked_at ≡ none
    → c.user.disabled_at ≡ none
    → t < row.session.expires_at
    → is_refused (record { user = c.user; session = row.session }) t ≡ false
not_refused c row t live enabled early = ground arith
