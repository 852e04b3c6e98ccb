-- ===== src/Auth/Repository/History.antt =====
-- Any sequence of the repository's transactions: what stays revoked, and how many sessions are active.
use swa_drive.Base.{
  ℕ, ◌≡◌, ◌≤◌, ◌<◌, ap, subst, true, not, some, List, [], ◌∷◌, any, arith, inl, inr, Bool-cases,
}
use swa_drive.Base.Text.{Text, text_eq}
use swa_drive.Auth.Model.{SessionRow}
use swa_drive.Auth.Repository.{first_where, active_sessions, session_insertable, is_active_session}
use swa_drive.Auth.Repository.Rows.{
  active_sessions-map, active_sessions-later, first_where-other, first_where-map, is_revoked,
}
use swa_drive.Database.{Db}
use swa_drive.Auth.Repository.Transactions.{
  Operation, run, run_all, time_after, Effect, changes, adds, run-Effect,
}

fresh_token :
    (row : SessionRow) (db : Db)
    → session_insertable row db ≡ true
    → not (any (λ r. text_eq r.token_hash row.token_hash) db.sessions) ≡ true
unfolding session_insertable
fresh_token row db h = ground arith

active-user :
    (user t : ℕ) (row : SessionRow)
    → is_active_session user t row ≡ true
    → row.session.user_id ≡ user
unfolding is_active_session
active-user user t row h = ground arith

active_sessions-new :
    (user t : ℕ) (row : SessionRow) (rows : List SessionRow)
    → active_sessions row.session.user_id t rows < 100
    → active_sessions user t rows ≤ 100
    → active_sessions user t (row ∷ rows) ≤ 100
active_sessions-new user t row rows few h = elim (Bool-cases (is_active_session user t row)) [
  | inr e ↦ rw e h
  | inl e ↦
      (let same : row.session.user_id ≡ user = active-user user t row e in
        let few' = subst (λ u. active_sessions u t rows < 100) same few in
        rw e (omega (arith, few')))
]

-- The token whose hash is `h` belongs to a revoked session.
abbrev pub IsRevoked : Text → Db → Type 0
IsRevoked h db =
    (row : SessionRow) × (first_where (λ r. text_eq r.token_hash h) db.sessions ≡ some row)
    × (is_revoked row.session ≡ true)

-- No user has more than 100 sessions that are active at the given time.
abbrev pub IsLimited : ℕ → Db → Type 0
IsLimited t db = (user : ℕ) → active_sessions user t db.sessions ≤ 100

-- The sessions are made in the order of their times.
abbrev pub IsOrdered : ℕ → List Operation → Type 0
IsOrdered t [] = Unit
IsOrdered t (o ∷ os) = (t ≤ time_after t o) × IsOrdered (time_after t o) os

abbrev pub last_time : ℕ → List Operation → ℕ
last_time t [] = t
last_time t (o ∷ os) = last_time (time_after t o) os

Effect-IsRevoked :
    (h : Text) (t : ℕ) (db : Db) {rows : List SessionRow}
    → Effect db t rows
    → IsRevoked h db
    → (row : SessionRow) × (first_where (λ r. text_eq r.token_hash h) rows ≡ some row)
      × (is_revoked row.session ≡ true)
Effect-IsRevoked h t db (changes f c e) (row, found, gone) = (
  f row,
  rw e (
      first_where-map (λ r. text_eq r.token_hash h) f db.sessions
        (λ r. ap (λ z. text_eq z h) (c.same_token r)) found),
  c.kept_revoked row gone,
)
Effect-IsRevoked h t db (adds new e fits live few) (row, found, gone) =
    (row, rw e (first_where-other h new db.sessions (fresh_token new db fits) found), gone)

Effect-IsLimited :
    (s t : ℕ) (db : Db) {rows : List SessionRow}
    → s ≤ t
    → Effect db t rows
    → IsLimited s db
    → (user : ℕ) → active_sessions user t rows ≤ 100
Effect-IsLimited s t db o (changes f c e) all_few user =
    let later = active_sessions-later user db.sessions o in
    let fewer = active_sessions-map c user t db.sessions in
    rw e (omega (arith, later, fewer, all_few user))
Effect-IsLimited s t db o (adds new e fits live few) all_few user =
    let later = active_sessions-later user db.sessions o in
    rw e (active_sessions-new user t new db.sessions few (omega (arith, later, all_few user)))

-- A session that was revoked stays so, whatever transactions follow and whether they succeed.
pub run_all-IsRevoked :
    (h : Text) (os : List Operation) (db : Db) → IsRevoked h db → IsRevoked h (run_all os db)
run_all-IsRevoked h [] db r = r
run_all-IsRevoked h (o ∷ os) db r =
    run_all-IsRevoked h os (run o db) (Effect-IsRevoked h (time_after 0 o) db (run-Effect 0 o db) r)

-- If no user has more than 100 active sessions, then none has after any sequence of bootstraps, resets
-- of credentials, logins, notes of when a session was seen, and revocations, whether they succeed or
-- fail, where the sessions are created in the order of their times. Active is counted at the time of
-- the last creation.
pub run_all-IsLimited :
    (t : ℕ) (os : List Operation) (db : Db)
    → IsOrdered t os
    → IsLimited t db
    → IsLimited (last_time t os) (run_all os db)
run_all-IsLimited t [] db ordered l = l
run_all-IsLimited t (o ∷ os) db (first, rest) l =
    run_all-IsLimited (time_after t o) os (run o db) rest
      (Effect-IsLimited t (time_after t o) db first (run-Effect t o db) l)
