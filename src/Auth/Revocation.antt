-- ===== src/Auth/Revocation.antt =====
-- Sessions that were ended, by their user or by a reset of the owner's credentials, stay ended.
use swa_drive.Base.{
  ℕ, ◌≡◌, sym, ap, subst, ◌∙◌, ◌≢◌, some_eq, true, ◌&&◌, Option, some, List, Result, ok, ◌==◌,
  arith, inl, inr, Option-cases, map,
}
use swa_drive.Base.Text.{Text, codes, text_eq}
use swa_drive.Platform.{Platform}
use swa_drive.Audit.Event.{Event, stored_time}
use swa_drive.Auth.Authentication.{authenticate-IsGranted}
use swa_drive.Auth.Library.{Library}
use swa_drive.Auth.Model.{Session, SessionRow, User, Authenticated, Identity}
use swa_drive.Auth.Password.{hash_password, derive_key}
use swa_drive.Auth.Repository.{first_where, revoke_session_with_audit, revoke_id, revoke_row}
use swa_drive.Auth.Repository.Transactions.{
  Operation, run_all, reset_owner_credentials_with_audit-ok,
}
use swa_drive.Auth.Repository.History.{IsRevoked, run_all-IsRevoked}
use swa_drive.Auth.Repository.Rows.{
  first_where-map, first_where-passes, is_revoked, revoke_id-IsConservative,
  revoke_row-IsConservative,
}
use swa_drive.Auth.Service.{authenticate, logout, session_event, reset_owner_credentials}
use swa_drive.Database.{Db}
use swa_drive.World.{World, ◌>>=◌, now, fallible}
use swa_drive.World.Laws.{bind-ok, lifted-ok, now-same, transact_timed-ok}
use swa_drive.World.Ends.{SameState, step_same}

-- The row is that of the token whose hash is given.
abbrev pub IsOf : Text → SessionRow → Db → Type 0
IsOf h row db = first_where (λ r. text_eq r.token_hash h) db.sessions ≡ some row

revoke_id-revoked :
    (id time : ℕ) (row : SessionRow)
    → row.session.id ≡ id
    → is_revoked (revoke_id id time row).session ≡ true
unfolding revoke_id
revoke_id-revoked id time row h = ground arith

revoke_row-revoked :
    (user time : ℕ) (row : SessionRow)
    → row.session.user_id ≡ user
    → is_revoked (revoke_row user time row).session ≡ true
unfolding revoke_row
revoke_row-revoked user time row h = elim (Option-cases row.session.revoked_at) [
  | inl e ↦ ground arith
  | inr (t, e) ↦ ground arith
]

mapped-IsRevoked :
    (h : Text) (row : SessionRow) (db db' : Db) (f : SessionRow → SessionRow)
    → IsOf h row db
    → ((r : SessionRow) → (f r).token_hash ≡ r.token_hash)
    → is_revoked (f row).session ≡ true
    → db'.sessions ≡ map f db.sessions
    → IsRevoked h db'
mapped-IsRevoked h row db db' f found same gone e = (
  f row,
  rw e (
      first_where-map (λ r. text_eq r.token_hash h) f db.sessions
        (λ r. ap (λ z. text_eq z h) (same r)) found),
  gone,
)

revoke_session_with_audit-IsRevoked :
    (h : Text) (row : SessionRow) (user id t : ℕ) (e : Event) (c : ℕ) (db : Db) {s : Session}
    {db' : Db}
    → IsOf h row db
    → first_where (λ r. r.session.id == id && r.session.user_id == user) db.sessions ≡ some row
    → row.session.id ≡ id
    → revoke_session_with_audit user id t e c db ≡ ok (s, db')
    → IsRevoked h db'
unfolding revoke_session_with_audit
revoke_session_with_audit-IsRevoked h row user id t e c db {db' = db'} found by_id same k =
    elim (Option-cases row.session.revoked_at) [
      | inl g ↦
          (let rows : db'.sessions ≡ map (revoke_id id (stored_time t)) db.sessions =
              ground arith in
            let same_token = (revoke_id-IsConservative id (stored_time t)).same_token in
            let gone = revoke_id-revoked id (stored_time t) row same in
            mapped-IsRevoked h row db db' (revoke_id id (stored_time t)) found same_token gone rows)
      | inr (v, g) ↦
          (let rows : db'.sessions ≡ db.sessions = ground arith in
            (row, rw rows found, ground arith))
    ]

same_id :
    (who : Identity) (row : SessionRow) (db : Db)
    → first_where
        (λ r. r.session.id == who.session_id && r.session.user_id == who.user_id)
        db.sessions
      ≡ some row
    → row.session.id ≡ who.session_id
same_id who row db h =
    let passes =
      first_where-passes (λ r. r.session.id == who.session_id && r.session.user_id == who.user_id)
        db.sessions h in
    ground arith

revoke_at :
    (who : Identity) (t clock : ℕ) {db db' : Db} {r : Result (Session × Db)}
    → revoke_session_with_audit who.user_id who.session_id t
        (session_event who who.session_id (codes "auth.logout") t)
        clock
        db
      ≡ r
    → db ≡ db'
    → revoke_session_with_audit who.user_id who.session_id t
        (session_event who who.session_id (codes "auth.logout") t)
        clock
        db'
      ≡ r
revoke_at who t clock {r = r} h e =
    subst
      (λ d.
        revoke_session_with_audit who.user_id who.session_id t
          (session_event who who.session_id (codes "auth.logout") t) clock d
        ≡ r)
      e h

hash_password-same :
    (lib : Library) (random : Option Text) (password : Text) (w : World)
    → SameState w (hash_password lib random password w).1
unfolding hash_password derive_key ◌>>=◌ fallible
hash_password-same lib random password w = ground arith

module _ (env : Platform) (lib : Library) where
  never_granted :
      (token request_id remote_ip : Text) (os : List Operation) (db : Db) (x : World)
      {a : Authenticated} {y : World}
      → IsRevoked (env.sha256_sum token) db
      → x.db ≡ run_all os db
      → authenticate env lib token request_id remote_ip x ≡ (ok a, y)
      → ⊥
  never_granted token request_id remote_ip os db x r e h =
      let (t, _, _, granted) = authenticate-IsGranted env lib token request_id remote_ip x h in
      let (row, found, gone) = run_all-IsRevoked (env.sha256_sum token) os db r in
      let same : granted.row ≡ row = some_eq (
        sym granted.found
        ∙ ap (λ d. first_where (λ r. text_eq r.token_hash (env.sha256_sum token)) d.sessions) e
        ∙ found) in
      let live = granted.not_revoked in absurd (ground arith)

  -- A user who logged out of the session of a token is never authenticated by this token again: not in
  -- any world whose tables come from those after the logout by any sequence of the repository's
  -- transactions. (The session is the one row with its id and with this token.)
  pub logout-final :
      (who : Identity) (token request_id remote_ip : Text) (row : SessionRow) (os : List Operation)
      (w x : World) {v : World}
      → IsOf (env.sha256_sum token) row w.db
      → first_where
          (λ r. r.session.id == who.session_id && r.session.user_id == who.user_id)
          w.db.sessions
        ≡ some row
      → logout who w ≡ (ok tt, v)
      → x.db ≡ run_all os v.db
      → (a : Authenticated) (y : World)
      → authenticate env lib token request_id remote_ip x ≢ (ok a, y)
  unfolding logout
  logout-final who token request_id remote_ip row os w x {v = v} found by_id out e a y h =
      let (t, w1, looked, h1) = bind-ok _ _ w out in
      let (s, w2, done, h2) = bind-ok _ _ w1 h1 in
      let (db_same, _) = step_same now w (now-same w) looked in
      let (clock, done') = transact_timed-ok _ w1 done in
      let done'' = revoke_at who t clock done' db_same in
      let same : row.session.id ≡ who.session_id = same_id who row w.db by_id in
      let r =
        revoke_session_with_audit-IsRevoked (env.sha256_sum token) row who.user_id who.session_id t
          _ clock w.db found by_id same done'' in
      let v_same : w2.db ≡ v.db = ap (λ z. z.1.db) h2 in
      never_granted token request_id remote_ip os w2.db x r (e ∙ ap (run_all os) (sym v_same)) h

  -- A reset of the owner's credentials ends every session that the owner has: none of their tokens is
  -- accepted again, in any world whose tables come from those after the reset by any sequence of the
  -- repository's transactions.
  pub reset_owner_credentials-final :
      (random : Option Text) (username password token request_id remote_ip : Text)
      (row : SessionRow) (os : List Operation) (w x : World) {user : User} {n : ℕ} {v : World}
      → IsOf (env.sha256_sum token) row w.db
      → reset_owner_credentials env lib random username password w ≡ (ok (user, n), v)
      → row.session.user_id ≡ user.id
      → x.db ≡ run_all os v.db
      → (a : Authenticated) (y : World)
      → authenticate env lib token request_id remote_ip x ≢ (ok a, y)
  unfolding reset_owner_credentials
  reset_owner_credentials-final random username password token request_id remote_ip row os w x
        {user = user} {v = v} found done its e a y h =
      let (canonical, _, h1) = lifted-ok _ _ w done in
      let (u, _, h2) = lifted-ok _ _ w h1 in
      let (password_hash, w1, hashed, h3) = bind-ok _ _ w h2 in
      let (t, w2, looked, h4) = bind-ok _ _ w1 h3 in
      let (clock, reset) = transact_timed-ok _ w2 h4 in
      let same =
        (step_same now w1 (now-same w1) looked).0
        ∙ (step_same (hash_password lib random password) w
            (hash_password-same lib random password w) hashed).0 in
      let (id, its_id, rows) = reset_owner_credentials_with_audit-ok _ _ t _ clock w2.db reset in
      let gone = revoke_row-revoked id (stored_time t) row (its ∙ its_id) in
      let rows' = rows ∙ ap (λ d. map (revoke_row id (stored_time t)) d.sessions) same in
      let r =
        mapped-IsRevoked (env.sha256_sum token) row w.db v.db _ found
          (revoke_row-IsConservative id (stored_time t)).same_token gone rows' in
      never_granted token request_id remote_ip os v.db x r e h
