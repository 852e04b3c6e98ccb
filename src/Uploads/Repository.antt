-- ===== src/Uploads/Repository.antt =====
-- The repository of uploads over SQLite (server/internal/uploads/sqlite_repository.go). A method is a
-- transaction: it answers with the new database, or with an error and the caller keeps the old one.
-- The checks and keys of the tables are those of server/internal/database/migrations.
pub mod Tables
pub mod Calls
pub mod Rows
pub mod Steps
pub mod Lifecycle
pub mod History
pub mod Limit
pub mod Validation
use swa_drive.Base.{
  ℕ, zero, suc, ◌+◌, ◌/◌, ◌*◌, ◌≡◌, Bool, true, false, not, ◌&&◌, ◌||◌, Option, none, some, List,
  [], ◌∷◌, ◌++◌, Result, ok, err, upload_not_found, chunk_not_found, chunk_conflict, missing_chunks,
  upload_state, upload_limit, fault, ◌>>=◌, ◌>>◌, require, ltb, leb, ◌==◌, if◌then◌else◌, filter,
  any, take, length, map,
}
use swa_drive.Base.Order.{text_le}
use swa_drive.Base.Text.{Text, codes, text_eq}
use swa_drive.Base.Int.{ℤ, pos}
use swa_drive.Platform.{Platform}
use swa_drive.Audit.Event.{Event, StoredEvent, append_in_transaction, stored_time, second}
use swa_drive.Files.Index.{
  Index, Entry, require_available_active_path, confirm_active, mark_unhealthy, clear_health_reason,
}
use swa_drive.Uploads.Model.{
  Upload, Chunk, Status, pending, finalizing, completed, cancelled, expired, status_eq,
  maximum_active_uploads_per_user, maximum_chunks_per_upload,
}
use swa_drive.Uploads.Chunks.{chunk_bounds, total_chunks, allowed_chunk_size}
pub use swa_drive.Uploads.Repository.Tables.{
  owns, is_active, in_status, set_status, set_checked, has_chunk, is_upload, set_updated, Db,
}
unfoldable pub use swa_drive.Uploads.Repository.Tables.{
  active_uploads, find_row, update_where, require_changed, insertable, upload_row, chunks_of,
  sum_sizes, with_progress, find, is_known_part, find_chunk_in, find_chunk, insert_by_index,
  sort_by_index, chunk_matches, validate_from, validate_chunks, chunk_insertable,
}

unfoldable pub create_with_audit : Upload → Event → ℕ → Db → Result Db
create_with_audit u e now db = do
  require_available_active_path u.target_path db.index
  require (ltb (active_uploads u.user_id db.uploads) maximum_active_uploads_per_user) upload_limit
  require (insertable u db.uploads) fault
  events ← append_in_transaction e now db.events
  ok (record db { uploads = upload_row u ∷ db.uploads; events = events })

unfoldable pub record_chunk : Chunk → ℕ → Db → Result Db
record_chunk c now db = do
  require (chunk_insertable c db.uploads) fault
  require (not (has_chunk c.upload_id c.index db.chunks)) chunk_conflict
  let (rows, n) = update_where (is_upload c.upload_id) (set_updated now) db.uploads
  ok (record db {
    uploads = rows;
    chunks = record c { received_at = stored_time c.received_at } ∷ db.chunks;
  })

unfoldable pub prepare_finalization : ℕ → Text → Status → Text → ℕ → Db → Result Db
prepare_finalization user id from sha now db = do
  rows ←
      require_changed
        (update_where (in_status user id from) (set_checked finalizing sha now) db.uploads)
  ok (record db { uploads = rows })

unfoldable pub transition_status : ℕ → Text → Status → Status → ℕ → Db → Result Db
transition_status user id from to now db = do
  rows ← require_changed (update_where (in_status user id from) (set_status to now) db.uploads)
  ok (record db { uploads = rows })

-- `uploadHealthReason`
unfoldable pub upload_health_reason : Text → Text
upload_health_reason id = codes "upload:" ++ id

module _ (env : Platform) where
  unfoldable pub complete_with_audit : ℕ → Text → ℕ → Entry → Event → ℕ → Db → Result Db
  complete_with_audit user id updated entry e now db = do
    let reason = upload_health_reason id
    index ← confirm_active env entry reason db.index
    rows ← require_changed (
        update_where (in_status user id finalizing)
          (set_checked completed entry.whole_sha256 updated) db.uploads)
    events ← append_in_transaction e now db.events
    ok (record db { uploads = rows; events = events; index = clear_health_reason reason index })

-- `AND (? = 0 OR expires_at <= ?)`
abbrev pub unfinished : ℕ → Text → Bool → ℕ → Upload → Bool
unfinished user id require_expired now u =
    in_status user id pending u && (not require_expired || leb u.expires_at (stored_time now))

-- `finishUncompleted`
unfoldable pub finish_uncompleted : ℕ → Text → Status → ℕ → Bool → Event → ℕ → Db → Result Db
finish_uncompleted user id status updated require_expired e now db = do
  rows ← require_changed (
      update_where (unfinished user id require_expired updated) (set_status status updated)
        db.uploads)
  events ← append_in_transaction e now db.events
  ok (record db {
    uploads = rows;
    chunks = filter (λ c. not (text_eq c.upload_id id)) db.chunks;
    events = events;
  })

unfoldable pub cancel_with_audit : ℕ → Text → ℕ → Event → ℕ → Db → Result Db
unfolding finish_uncompleted
cancel_with_audit user id updated e now db =
    finish_uncompleted user id cancelled updated false e now db

unfoldable pub expire_with_audit : ℕ → Text → ℕ → Event → ℕ → Db → Result Db
unfolding finish_uncompleted
expire_with_audit user id updated e now db =
    finish_uncompleted user id expired updated true e now db

-- `ORDER BY key, id`: rows by a time and then by their id, byte by byte.
unfoldable pub insert_row : (Upload → ℕ) → Upload → List Upload → List Upload
insert_row key u [] = u ∷ []
insert_row key u (v ∷ vs) =
    if ltb (key u) (key v) || key u == key v && text_le u.id v.id
    then u ∷ v ∷ vs
    else v ∷ insert_row key u vs

unfoldable pub sort_rows : (Upload → ℕ) → List Upload → List Upload
unfolding insert_row text_le
sort_rows key [] = []
sort_rows key (u ∷ us) = insert_row key u (sort_rows key us)

unfoldable pub list_expired : ℕ → ℕ → Db → List Upload
list_expired now limit db = take limit (
    sort_rows (λ u. u.expires_at)
      (filter (λ u. status_eq u.status pending && leb u.expires_at (stored_time now)) db.uploads))

unfoldable pub list_finalizing : ℕ → Db → List Upload
list_finalizing limit db =
    take limit
      (sort_rows (λ u. u.updated_at) (filter (λ u. status_eq u.status finalizing) db.uploads))

unfoldable pub reset_finalizing : ℕ → Text → ℕ → Db → Result Db
reset_finalizing user id now db = do
  rows ←
      require_changed
        (update_where (in_status user id finalizing) (set_status pending now) db.uploads)
  ok (record db { uploads = rows; index = clear_health_reason (upload_health_reason id) db.index })

unfoldable pub mark_index_unhealthy : Text → Db → Result Db
mark_index_unhealthy reason db = do
  index ← mark_unhealthy reason db.index
  ok (record db { index = index })
