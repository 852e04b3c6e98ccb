-- ===== src/Uploads/Model.antt =====
-- The data of package uploads (server/internal/uploads/models.go). Times are nanoseconds; ids, sizes
-- and counts are not negative, which the table's checks and `Create` enforce.
use swa_drive.Base.{ℕ, Bool, true, false}
use swa_drive.Base.Text.{Text}
use swa_drive.Base.Int.{ℤ}

abbrev pub mebibyte : ℕ
mebibyte = 1048576

abbrev pub default_chunk_size : ℕ
default_chunk_size = 4194304

abbrev pub upload_lifetime : ℕ
upload_lifetime = 86400000000000

abbrev pub maximum_chunks_per_upload : ℕ
maximum_chunks_per_upload = 1000000

abbrev pub maximum_active_uploads_per_user : ℕ
maximum_active_uploads_per_user = 100

pub data Status : Type 0 where
  pending finalizing completed cancelled expired : Status

abbrev pub status_eq : Status → Status → Bool
status_eq pending pending = true
status_eq finalizing finalizing = true
status_eq completed completed = true
status_eq cancelled cancelled = true
status_eq expired expired = true
status_eq _ _ = false

pub record Upload : Type 0 where
  pub id : Text
  pub user_id : ℕ
  pub target_path : Text
  pub part_name : Text
  pub total_size : ℕ
  pub chunk_size : ℕ
  pub total_chunks : ℕ
  pub whole_sha256 : Text
  pub status : Status
  pub created_at : ℕ
  pub updated_at : ℕ
  pub expires_at : ℕ
  pub received_chunks : ℕ
  pub received_bytes : ℕ

pub record Chunk : Type 0 where
  pub upload_id : Text
  pub index : ℕ
  pub offset : ℕ
  pub size : ℕ
  pub sha256 : Text
  pub received_at : ℕ

-- As the request gives it.
pub record CreateInput : Type 0 where
  pub target_path : Text
  pub total_size : ℤ
  pub chunk_size : ℤ
  pub whole_sha256 : Text

pub record PutResult : Type 0 where
  pub upload : Upload
  pub idempotent : Bool
