-- ===== src/Auth/Repository/Transactions.antt =====
-- What each of the repository's transactions does to the sessions.
use swa_drive.Base.{
  ℕ, ◌≡◌, ◌<◌, refl, sym, ap, subst, ◌∙◌, true, ◌&&◌, none, List, [], ◌∷◌, Result, ok, err, map,
  arith, inl, inr, Result-cases, Option-cases, ◌==◌, ◌⊎◌,
}
use swa_drive.Base.Text.{Text}
use swa_drive.Audit.Event.{Event, stored_time}
use swa_drive.Auth.Model.{Session, SessionRow, User}
use swa_drive.Auth.Repository.{
  create_initial_owner_with_audit, reset_owner_credentials_with_audit, create_session_with_audit,
  update_last_seen, revoke_session_with_audit, first_where, active_sessions, session_insertable,
  new_session, session_row, revoke_row, revoke_id, seen_row,
}
use swa_drive.Auth.Repository.Rows.{
  IsConservative, revoke_row-IsConservative, revoke_id-IsConservative, seen_row-IsConservative,
  map-id,
}
use swa_drive.Database.{Db}

-- The transactions, each with its arguments; the clock comes last.
pub data Operation : Type 0 where
  bootstraps : (username password_hash : Text) → ℕ → Event → ℕ → Operation
  resets : (username password_hash : Text) → ℕ → Event → ℕ → Operation
  opens : (user : ℕ) (token_hash client_name : Text) (created expires : ℕ) → Event → ℕ → Operation
  sees : (id seen_at update_before : ℕ) → Operation
  revokes : (user id time : ℕ) → Event → ℕ → Operation

-- The tables after a transaction, which are the old ones if it failed.
abbrev pub committed : {A : Type 0} → Result (A × Db) → Db → Db
committed (ok (a, db')) db = db'
committed (err e) db = db

abbrev pub committed_plain : Result Db → Db → Db
committed_plain (ok db') db = db'
committed_plain (err e) db = db

abbrev pub run : Operation → Db → Db
run (bootstraps n p t e c) db = committed (create_initial_owner_with_audit n p t e c db) db
run (resets n p t e c) db = committed (reset_owner_credentials_with_audit n p t e c db) db
run (opens u h n t x e c) db = committed (create_session_with_audit u h n t x e c db) db
run (sees i s b) db = committed_plain (update_last_seen i s b db) db
run (revokes u i t e c) db = committed (revoke_session_with_audit u i t e c db) db

abbrev pub run_all : List Operation → Db → Db
run_all [] db = db
run_all (o ∷ os) db = run_all os (run o db)

-- The time of the last session, as it is stored.
abbrev pub time_after : ℕ → Operation → ℕ
time_after s (opens u h n t x e c) = stored_time t
time_after s o = s

unchanged-IsConservative : IsConservative (λ r. r)
unchanged-IsConservative = record {
  same_token = λ r. refl;
  same_user = λ r. refl;
  same_end = λ r. refl;
  kept_revoked = λ r h. h;
}

-- What a transaction did to the sessions: it changed rows, or added one.
pub data Effect (db : Db) (time : ℕ) (rows : List SessionRow) : Type 0 where
  changes :
      (f : SessionRow → SessionRow)
      → IsConservative f
      → rows ≡ map f db.sessions
      → Effect db time rows
  adds :
      (row : SessionRow)
      → rows ≡ row ∷ db.sessions
      → session_insertable row db ≡ true
      → row.session.revoked_at ≡ none
      → active_sessions row.session.user_id time db.sessions < 100
      → Effect db time rows

pub create_initial_owner_with_audit-ok :
    (n p : Text) (t : ℕ) (e : Event) (c : ℕ) (db : Db) {user : User} {db' : Db}
    → create_initial_owner_with_audit n p t e c db ≡ ok (user, db')
    → db'.sessions ≡ db.sessions
unfolding create_initial_owner_with_audit
create_initial_owner_with_audit-ok n p t e c db h = ground arith

pub create_session_with_audit-ok :
    (u : ℕ) (h n : Text) (t x : ℕ) (e : Event) (c : ℕ) (db : Db) {s : Session} {db' : Db}
    → create_session_with_audit u h n t x e c db ≡ ok (s, db')
    → (s ≡ new_session db.sessions u n t x)
      × (db'.sessions ≡ session_row s h ∷ db.sessions)
      × (db'.users ≡ db.users)
      × (session_insertable (session_row s h) db ≡ true)
      × (active_sessions u (stored_time t) db.sessions < 100)
unfolding create_session_with_audit
create_session_with_audit-ok u h n t x e c db k =
    (ground arith, ground arith, ground arith, ground arith, ground arith)

pub reset_owner_credentials_with_audit-ok :
    (n p : Text) (t : ℕ) (e : Event) (c : ℕ) (db : Db) {r : User × ℕ} {db' : Db}
    → reset_owner_credentials_with_audit n p t e c db ≡ ok (r, db')
    → (user : ℕ) × (r.0.id ≡ user)
      × (db'.sessions ≡ map (revoke_row user (stored_time t)) db.sessions)
unfolding reset_owner_credentials_with_audit
reset_owner_credentials_with_audit-ok n p t e c db h = (_, refl, ground arith)

pub update_last_seen-ok :
    (i s b : ℕ) (db : Db) {db' : Db}
    → update_last_seen i s b db ≡ ok db'
    → db'.sessions ≡ map (seen_row i (stored_time s) (stored_time b)) db.sessions
unfolding update_last_seen
update_last_seen-ok i s b db h = ground arith

pub revoke_session_with_audit-ok :
    (u i t : ℕ) (e : Event) (c : ℕ) (db : Db) {s : Session} {db' : Db}
    → revoke_session_with_audit u i t e c db ≡ ok (s, db')
    → (db'.sessions ≡ db.sessions) ⊎ (db'.sessions ≡ map (revoke_id i (stored_time t)) db.sessions)
unfolding revoke_session_with_audit
revoke_session_with_audit-ok u i t e c db h =
    elim (Option-cases
      (first_where (λ r. r.session.id == i && r.session.user_id == u) db.sessions)) [
        | inl m ↦ absurd (ground arith)
        | inr (row, m) ↦ elim (Option-cases row.session.revoked_at) [
          | inl g ↦ inr (ground arith)
          | inr (v, g) ↦ inl (ground arith)
        ]
      ]

same_rows : (db : Db) (t : ℕ) {rows : List SessionRow} → rows ≡ db.sessions → Effect db t rows
same_rows db t h = changes (λ r. r) unchanged-IsConservative (h ∙ sym (map-id db.sessions))

pub run-Effect : (s : ℕ) (o : Operation) (db : Db) → Effect db (time_after s o) (run o db).sessions
run-Effect s (bootstraps n p t e c) db =
    elim (Result-cases (create_initial_owner_with_audit n p t e c db)) [
      | inl ((u, db'), h) ↦
          (let same = create_initial_owner_with_audit-ok n p t e c db h in
            rw h (same_rows db s same))
      | inr (f, h) ↦ rw h (same_rows db s refl)
    ]
run-Effect s (resets n p t e c) db =
    elim (Result-cases (reset_owner_credentials_with_audit n p t e c db)) [
      | inl ((u, db'), h) ↦
          (let (user, _, rows) = reset_owner_credentials_with_audit-ok n p t e c db h in
            rw h (changes _ (revoke_row-IsConservative user (stored_time t)) rows))
      | inr (f, h) ↦ rw h (same_rows db s refl)
    ]
run-Effect s (opens u h n t x e c) db =
    elim (Result-cases (create_session_with_audit u h n t x e c db)) [
      | inl ((z, db'), k) ↦
          (let (made, rows, _, fits, few) = create_session_with_audit-ok u h n t x e c db k in
            rw k (
              adds (session_row z h) rows fits (ap (λ y. y.revoked_at) made) (
                subst (λ v. active_sessions v (stored_time t) db.sessions < 100)
                  (sym (ap (λ y. y.user_id) made)) few)))
      | inr (f, k) ↦ rw k (same_rows db (stored_time t) refl)
    ]
run-Effect s (sees i u b) db = elim (Result-cases (update_last_seen i u b db)) [
  | inl (db', h) ↦
      (let rows = update_last_seen-ok i u b db h in
        rw h (changes _ (seen_row-IsConservative i (stored_time u) (stored_time b)) rows))
  | inr (f, h) ↦ rw h (same_rows db s refl)
]
run-Effect s (revokes u i t e c) db = elim (Result-cases (revoke_session_with_audit u i t e c db)) [
  | inl ((z, db'), h) ↦ elim (revoke_session_with_audit-ok u i t e c db h) [
    | inl rows ↦ rw h (same_rows db s rows)
    | inr rows ↦ rw h (changes _ (revoke_id-IsConservative i (stored_time t)) rows)
  ]
  | inr (f, h) ↦ rw h (same_rows db s refl)
]
