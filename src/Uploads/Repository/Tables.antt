-- ===== src/Uploads/Repository/Tables.antt =====
-- The rows of the tables of uploads, what the statements of the repository select and update, and the
-- constraints (server/internal/uploads/sqlite_repository.go and server/internal/database/migrations).
use swa_drive.Base.{
  ℕ, suc, ◌+◌, ◌/◌, Bool, false, not, ◌&&◌, ◌||◌, Option, none, some, List, [], ◌∷◌, Result, ok,
  err, upload_not_found, chunk_not_found, missing_chunks, upload_state, ◌>>=◌, ltb, leb, ◌==◌,
  if◌then◌else◌, filter, any, length,
}
use swa_drive.Base.Text.{Text, text_eq}
use swa_drive.Base.Int.{pos}
use swa_drive.Audit.Event.{stored_time, second}
pub use swa_drive.Database.{Db}
use swa_drive.Uploads.Model.{
  Upload, Chunk, Status, pending, finalizing, status_eq, maximum_chunks_per_upload,
}
use swa_drive.Uploads.Chunks.{chunk_bounds, total_chunks, allowed_chunk_size}

-- `WHERE id = ? AND user_id = ?`
abbrev pub owns : ℕ → Text → Upload → Bool
owns user id u = text_eq u.id id && u.user_id == user

abbrev pub is_active : Upload → Bool
is_active u = status_eq u.status pending || status_eq u.status finalizing

unfoldable pub active_uploads : ℕ → List Upload → ℕ
active_uploads user rows = length (filter (λ u. u.user_id == user && is_active u) rows)

unfoldable pub find_row : ℕ → Text → List Upload → Option Upload
find_row user id [] = none
find_row user id (u ∷ us) = if owns user id u then some u else find_row user id us

-- `UPDATE uploads SET … WHERE …`: the new rows, and how many changed.
unfoldable pub update_where : (Upload → Bool) → (Upload → Upload) → List Upload → List Upload × ℕ
update_where p f [] = ([], 0)
update_where p f (u ∷ us) =
    let (rest, n) = update_where p f us in if p u then (f u ∷ rest, suc n) else (u ∷ rest, n)

-- `WHERE id = ? AND user_id = ? AND status = ?`
abbrev pub in_status : ℕ → Text → Status → Upload → Bool
in_status user id s u = owns user id u && status_eq u.status s

-- `SET status = ?, updated_at = ?`
abbrev pub set_status : Status → ℕ → Upload → Upload
set_status s now u = record u { status = s; updated_at = stored_time now }

-- `SET status = ?, whole_sha256 = ?, updated_at = ?`
abbrev pub set_checked : Status → Text → ℕ → Upload → Upload
set_checked s sha now u = record u { status = s; whole_sha256 = sha; updated_at = stored_time now }

-- `requireChangedUpload`
unfoldable pub require_changed : List Upload × ℕ → Result (List Upload)
require_changed (rows, n) = if n == 0 then err upload_state else ok rows

-- The primary key, the unique part name and the checks of the table.
unfoldable pub insertable : Upload → List Upload → Bool
insertable u rows =
    not (any (λ v. text_eq v.id u.id || text_eq v.part_name u.part_name) rows)
    && allowed_chunk_size (pos u.chunk_size)
    && u.total_chunks == total_chunks u.total_size u.chunk_size
    && leb u.total_chunks maximum_chunks_per_upload
    && (length u.whole_sha256 == 0 || length u.whole_sha256 == 32)
    && ltb (u.created_at / second) (u.expires_at / second)

-- A row as it is written: times in seconds.
unfoldable pub upload_row : Upload → Upload
upload_row u = record u {
  created_at = stored_time u.created_at;
  updated_at = stored_time u.updated_at;
  expires_at = stored_time u.expires_at;
  received_chunks = 0;
  received_bytes = 0;
}

unfoldable pub chunks_of : Text → List Chunk → List Chunk
chunks_of id = filter (λ c. text_eq c.upload_id id)

unfoldable pub sum_sizes : List Chunk → ℕ
sum_sizes [] = 0
sum_sizes (c ∷ cs) = c.size + sum_sizes cs

-- The join with `upload_chunks` that counts what was received.
unfoldable pub with_progress : List Chunk → Upload → Upload
with_progress cs u =
    let own = chunks_of u.id cs in
    record u { received_chunks = length own; received_bytes = sum_sizes own }

unfoldable pub find : ℕ → Text → Db → Result Upload
find user id db = elim (find_row user id db.uploads) [
  | none ↦ err upload_not_found
  | some u ↦ ok (with_progress db.chunks u)
]

unfoldable pub is_known_part : Text → Db → Bool
is_known_part name db = any (λ u. text_eq u.part_name name) db.uploads

unfoldable pub find_chunk_in : Text → ℕ → List Chunk → Result Chunk
find_chunk_in id i [] = err chunk_not_found
find_chunk_in id i (c ∷ cs) =
    if text_eq c.upload_id id && c.index == i then ok c else find_chunk_in id i cs

unfoldable pub find_chunk : Text → ℕ → Db → Result Chunk
find_chunk id i db = find_chunk_in id i db.chunks

-- `ORDER BY chunk_index`
unfoldable pub insert_by_index : Chunk → List Chunk → List Chunk
insert_by_index c [] = c ∷ []
insert_by_index c (d ∷ ds) = if leb c.index d.index then c ∷ d ∷ ds else d ∷ insert_by_index c ds

unfoldable pub sort_by_index : List Chunk → List Chunk
sort_by_index [] = []
sort_by_index (c ∷ cs) = insert_by_index c (sort_by_index cs)

-- The condition on the row at position `i`.
unfoldable pub chunk_matches : Upload → ℕ → Chunk → Bool
chunk_matches u i c = elim (chunk_bounds u (pos i)) [
  | err _ ↦ false
  | ok (offset, size) ↦
      text_eq c.upload_id u.id
      && c.index == i
      && c.offset == offset
      && c.size == size
      && length c.sha256 == 32
]

-- The loop of `ValidateChunks` over the ordered rows, with the state of its callback.
module _ {A : Type 0} (u : Upload) (visit : Chunk → A → Result A) where
  unfoldable pub validate_from : ℕ → List Chunk → A → Result A
  validate_from i [] a = if i == u.total_chunks then ok a else err missing_chunks
  validate_from i (c ∷ cs) a =
      if chunk_matches u i c
      then visit c a >>= (λ b. validate_from (suc i) cs b)
      else err missing_chunks

  unfoldable pub validate_chunks : Db → A → Result A
  validate_chunks db a = validate_from 0 (sort_by_index (chunks_of u.id db.chunks)) a

abbrev pub has_chunk : Text → ℕ → List Chunk → Bool
has_chunk id i cs = any (λ c. text_eq c.upload_id id && c.index == i) cs

-- The foreign key and the checks of `upload_chunks`.
unfoldable pub chunk_insertable : Chunk → List Upload → Bool
chunk_insertable c rows =
    any (λ u. text_eq u.id c.upload_id) rows
    && leb 1 c.size
    && leb c.size 16777216
    && length c.sha256 == 32

-- `UPDATE uploads SET updated_at = ? WHERE id = ?`
abbrev pub is_upload : Text → Upload → Bool
is_upload id u = text_eq u.id id

abbrev pub set_updated : ℕ → Upload → Upload
set_updated now u = record u { updated_at = stored_time now }
