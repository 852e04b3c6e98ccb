-- ===== src/Auth/Repository.antt =====
-- The repository of users and sessions over SQLite (server/internal/auth/sqlite_repository.go). A method
-- that writes is a transaction: it answers with the new tables, or with an error and the caller keeps
-- the old ones. The keys and checks of the two tables are those of
-- server/internal/database/migrations/0001_auth.sql.
pub mod Tables
pub mod Rows
pub mod Transactions
pub mod History
use swa_drive.Base.{
  ℕ, zero, suc, ◌+◌, ◌≡◌, Bool, true, false, not, ◌&&◌, ◌||◌, Option, none, some, List, [], ◌∷◌,
  Result, ok, err, fault, user_not_found, session_not_found, owner_exists, session_limit, ◌>>=◌,
  ◌>>◌, require, ltb, leb, ◌==◌, if◌then◌else◌, all, any, filter, length, map, take, ◌/◌, ◌%◌,
}
use swa_drive.Base.Text.{Text, text_eq}
use swa_drive.Audit.Event.{Event, append_in_transaction, stored_time}
use swa_drive.Auth.Policy.{rune_count}
use swa_drive.Auth.Model.{
  Role, owner, is_owner, User, UserCredential, Session, SessionRow, AuthenticatedSession,
  maximum_active_sessions, maximum_listed_sessions,
}
use swa_drive.Database.{Db}
pub use swa_drive.Auth.Repository.Tables.{format_int, next_id, same_name, user_ids, session_ids}
unfoldable pub use swa_drive.Auth.Repository.Tables.{
  digits, first_where, largest, fold_case, ends_trimmed, is_trimmed, find_credential_by_username,
  user_insertable, session_insertable,
}

unfoldable pub create_initial_owner_with_audit :
    (username password_hash : Text) → ℕ → Event → ℕ → Db → Result (User × Db)
create_initial_owner_with_audit username password_hash now event clock db = do
  require (not (any (λ c. is_owner c.user.role) db.users)) owner_exists
  let user : User = record {
    id = next_id (user_ids db.users);
    username = username;
    role = owner;
    created_at = now;
    updated_at = now;
    disabled_at = none;
  }
  let stored = record user { created_at = stored_time now; updated_at = stored_time now }
  let row : UserCredential = record { user = stored; password_hash = password_hash }
  require (user_insertable row db.users) fault
  events ←
      append_in_transaction
        (record event { actor_user_id = some user.id; resource_id = format_int user.id }) clock
        db.events
  ok (user, record db { users = row ∷ db.users; events = events })

abbrev pub is_live : ℕ → Session → Bool
is_live user s = elim s.revoked_at [ none ↦ s.user_id == user | some t ↦ false ]

-- `UPDATE sessions SET revoked_at = ? WHERE user_id = ? AND revoked_at IS NULL`
unfoldable pub revoke_row : (user time : ℕ) → SessionRow → SessionRow
revoke_row user time row =
    if is_live user row.session
    then record row { session = record row.session { revoked_at = some time } }
    else row

unfoldable pub set_password : (id time : ℕ) → Text → UserCredential → UserCredential
set_password id time password_hash c =
    if c.user.id == id
    then record { user = record c.user { updated_at = time }; password_hash = password_hash }
    else c

unfoldable pub reset_owner_credentials_with_audit :
    (username password_hash : Text) → ℕ → Event → ℕ → Db → Result ((User × ℕ) × Db)
reset_owner_credentials_with_audit username password_hash now event clock db =
    elim (first_where (λ c. same_name c.user.username username && is_owner c.user.role) db.users) [
      | none ↦ err user_not_found
      | some c ↦ (do
        let time = stored_time now
        require (leb c.user.created_at time && not (length password_hash == 0)) fault
        require
            (all (λ r. not (is_live c.user.id r.session) || leb r.session.created_at time)
              db.sessions)
            fault
        events ←
            append_in_transaction (record event { resource_id = format_int c.user.id }) clock
              db.events
        ok (
          (
            record c.user { updated_at = now },
            length (filter (λ r. is_live c.user.id r.session) db.sessions),
          ),
          record db {
            users = map (set_password c.user.id time password_hash) db.users;
            sessions = map (revoke_row c.user.id time) db.sessions;
            events = events;
          },
        ))
    ]

-- A session that is neither revoked nor past its end at the given time.
unfoldable pub is_active_session : (user time : ℕ) → SessionRow → Bool
is_active_session user time row = is_live user row.session && ltb time row.session.expires_at

abbrev pub active_sessions : (user time : ℕ) → List SessionRow → ℕ
active_sessions user time rows = length (filter (is_active_session user time) rows)

abbrev pub new_session :
    List SessionRow → (user : ℕ) (client_name : Text) (created expires : ℕ) → Session
new_session rows user client_name created expires = record {
  id = next_id (session_ids rows);
  user_id = user;
  client_name = client_name;
  created_at = created;
  expires_at = expires;
  revoked_at = none;
  last_seen_at = created;
}

-- The row that is inserted for it.
abbrev pub session_row : Session → Text → SessionRow
session_row session token_hash = record {
  session = record session {
    created_at = stored_time session.created_at;
    expires_at = stored_time session.expires_at;
    last_seen_at = stored_time session.last_seen_at;
  };
  token_hash = token_hash;
}

unfoldable pub create_session_with_audit :
    (user : ℕ) (token_hash client_name : Text) (created expires : ℕ)
    → Event
    → ℕ
    → Db
    → Result (Session × Db)
create_session_with_audit user token_hash client_name created expires event clock db = do
  require (ltb (active_sessions user (stored_time created) db.sessions) maximum_active_sessions)
      session_limit
  let session = new_session db.sessions user client_name created expires
  let row = session_row session token_hash
  require (session_insertable row db) fault
  events ←
      append_in_transaction
        (record event {
          actor_user_id = some user;
          actor_session_id = some session.id;
          resource_id = format_int session.id;
        })
        clock db.events
  ok (session, record db { sessions = row ∷ db.sessions; events = events })

-- The join of the session with its user.
unfoldable pub find_authenticated_session : Text → Db → Result AuthenticatedSession
find_authenticated_session token_hash db =
    elim (first_where (λ r. text_eq r.token_hash token_hash) db.sessions) [
      | none ↦ err session_not_found
      | some row ↦ elim (first_where (λ c. c.user.id == row.session.user_id) db.users) [
        | none ↦ err session_not_found
        | some c ↦ ok (record { user = c.user; session = row.session })
      ]
    ]

unfoldable pub seen_row : (id seen_at update_before : ℕ) → SessionRow → SessionRow
seen_row id seen_at update_before row =
    if row.session.id == id && leb row.session.last_seen_at update_before
    then record row { session = record row.session { last_seen_at = seen_at } }
    else row

unfoldable pub update_last_seen : (id seen_at update_before : ℕ) → Db → Result Db
update_last_seen id seen_at update_before db = do
  let seen = stored_time seen_at
  let before = stored_time update_before
  require
      (all
        (λ r.
          not (r.session.id == id && leb r.session.last_seen_at before)
          || leb r.session.created_at seen)
        db.sessions)
      fault
  ok (record db { sessions = map (seen_row id seen before) db.sessions })

-- `ORDER BY created_at DESC, id DESC`
unfoldable pub listed_session_before : Session → Session → Bool
listed_session_before a b =
    ltb b.created_at a.created_at || a.created_at == b.created_at && ltb b.id a.id

unfoldable pub insert_listed : Session → List Session → List Session
insert_listed s [] = s ∷ []
insert_listed s (t ∷ ts) =
    let rest = insert_listed s ts in if listed_session_before s t then s ∷ t ∷ ts else t ∷ rest

unfoldable pub sort_listed : List Session → List Session
sort_listed [] = []
sort_listed (s ∷ ss) = insert_listed s (sort_listed ss)

unfoldable pub list_sessions : ℕ → Db → Result (List Session)
list_sessions user db = ok (
    take maximum_listed_sessions
      (sort_listed (map (λ r. r.session) (filter (λ r. r.session.user_id == user) db.sessions))))

-- `UPDATE sessions SET revoked_at = ? WHERE id = ?`
unfoldable pub revoke_id : (id time : ℕ) → SessionRow → SessionRow
revoke_id id time row =
    if row.session.id == id
    then record row { session = record row.session { revoked_at = some time } }
    else row

unfoldable pub revoke_session_with_audit :
    (user id time : ℕ) → Event → ℕ → Db → Result (Session × Db)
revoke_session_with_audit user id time event clock db =
    elim (first_where (λ r. r.session.id == id && r.session.user_id == user) db.sessions) [
      | none ↦ err session_not_found
      | some row ↦ elim row.session.revoked_at [
        | some t ↦ (do
          events ← append_in_transaction event clock db.events
          ok (row.session, record db { events = events }))
        | none ↦ (do
          require (leb row.session.created_at (stored_time time)) fault
          events ← append_in_transaction event clock db.events
          ok (
            record row.session { revoked_at = some time },
            record db {
              sessions = map (revoke_id id (stored_time time)) db.sessions;
              events = events;
            },
          ))
      ]
    ]
