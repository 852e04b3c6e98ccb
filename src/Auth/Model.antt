-- ===== src/Auth/Model.antt =====
-- Who makes a request (server/internal/auth/models.go).
use swa_drive.Base.{ℕ, ◌*◌, Bool, true, false, Option}
use swa_drive.Base.Text.{Text}

pub data Role : Type 0 where
  owner member : Role

abbrev pub is_owner : Role → Bool
is_owner owner = true
is_owner member = false

-- `auth.Identity`, as far as the packages uploads and files read it. Session 0 is no session.
pub record Identity : Type 0 where
  pub user_id : ℕ
  pub role : Role
  pub session_id : ℕ
  pub request_id : Text
  pub remote_ip : Text

-- `User`; times are nanoseconds.
pub record User : Type 0 where
  pub id : ℕ
  pub username : Text
  pub role : Role
  pub created_at : ℕ
  pub updated_at : ℕ
  pub disabled_at : Option ℕ

-- `userCredential`, a row of `users`.
pub record UserCredential : Type 0 where
  pub user : User
  pub password_hash : Text

pub record Session : Type 0 where
  pub id : ℕ
  pub user_id : ℕ
  pub client_name : Text
  pub created_at : ℕ
  pub expires_at : ℕ
  pub revoked_at : Option ℕ
  pub last_seen_at : ℕ

-- A row of `sessions`: the session with the hash of its token.
pub record SessionRow : Type 0 where
  pub session : Session
  pub token_hash : Text

pub record AuthenticatedSession : Type 0 where
  pub user : User
  pub session : Session

-- `auth.Identity` in full.
pub record Authenticated : Type 0 where
  pub user : User
  pub session : Session
  pub request_id : Text
  pub remote_ip : Text

-- What the other packages read of it.
abbrev pub identity_of : Authenticated → Identity
identity_of a = record {
  user_id = a.user.id;
  role = a.user.role;
  session_id = a.session.id;
  request_id = a.request_id;
  remote_ip = a.remote_ip;
}

-- 30 days, and five minutes.
abbrev pub session_lifetime : ℕ
session_lifetime = 30 * 24 * 3600 * 1000000000

abbrev pub last_seen_write_interval : ℕ
last_seen_write_interval = 5 * 60 * 1000000000

abbrev pub maximum_active_sessions : ℕ
maximum_active_sessions = 100

abbrev pub maximum_listed_sessions : ℕ
maximum_listed_sessions = 200
