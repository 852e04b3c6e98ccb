-- ===== src/Uploads/Repository/Rows.antt =====
-- What each call does to the rows of `uploads`, as an equation.
use swa_drive.Base.{ℕ, ◌≡◌, Bool, true, ok, ◌∷◌, arith}
use swa_drive.Base.Text.{Text}
use swa_drive.Platform.{Platform}
use swa_drive.Audit.Event.{Event}
use swa_drive.Files.Index.{Entry}
use swa_drive.Uploads.Model.{Upload, Chunk, Status, pending, finalizing, completed}
use swa_drive.Uploads.Repository.{
  Db, update_where, require_changed, create_with_audit, record_chunk, upload_row, insertable,
  prepare_finalization, complete_with_audit, finish_uncompleted, reset_finalizing,
  mark_index_unhealthy, in_status, unfinished, is_upload, set_status, set_checked, set_updated,
}

pub prepare-rows :
    (who : ℕ) (it : Text) (from : Status) (sha : Text) (now : ℕ) (db db' : Db)
    → prepare_finalization who it from sha now db ≡ ok db'
    → db'.uploads
      ≡ (update_where (in_status who it from) (set_checked finalizing sha now) db.uploads).0
unfolding prepare_finalization require_changed
prepare-rows who it from sha now db db' e = ground arith

pub reset-rows :
    (who : ℕ) (it : Text) (now : ℕ) (db db' : Db)
    → reset_finalizing who it now db ≡ ok db'
    → db'.uploads
      ≡ (update_where (in_status who it finalizing) (set_status pending now) db.uploads).0
unfolding reset_finalizing require_changed
reset-rows who it now db db' e = ground arith

pub finish-rows :
    (who : ℕ) (it : Text) (to : Status) (now : ℕ) (late : Bool) (e : Event) (db db' : Db)
    → finish_uncompleted who it to now late e now db ≡ ok db'
    → db'.uploads ≡ (update_where (unfinished who it late now) (set_status to now) db.uploads).0
unfolding finish_uncompleted require_changed
finish-rows who it to now late e db db' h = ground arith

pub complete-rows :
    (env : Platform) (who : ℕ) (it : Text) (now : ℕ) (entry : Entry) (e : Event) (db db' : Db)
    → complete_with_audit env who it now entry e now db ≡ ok db'
    → db'.uploads
      ≡ (update_where
          (in_status who it finalizing)
          (set_checked completed entry.whole_sha256 now)
          db.uploads).0
unfolding complete_with_audit require_changed
complete-rows env who it now entry e db db' h = ground arith

pub record-rows :
    (c : Chunk) (now : ℕ) (db db' : Db)
    → record_chunk c now db ≡ ok db'
    → db'.uploads ≡ (update_where (is_upload c.upload_id) (set_updated now) db.uploads).0
unfolding record_chunk
record-rows c now db db' h = ground arith

pub create-rows :
    (u : Upload) (e : Event) (now : ℕ) (db db' : Db)
    → create_with_audit u e now db ≡ ok db'
    → (db'.uploads ≡ upload_row u ∷ db.uploads) × (insertable u db.uploads ≡ true)
unfolding create_with_audit
create-rows u e now db db' h = ground arith

pub mark-rows :
    (reason : Text) (db db' : Db)
    → mark_index_unhealthy reason db ≡ ok db'
    → db'.uploads ≡ db.uploads
unfolding mark_index_unhealthy
mark-rows reason db db' h = ground arith
