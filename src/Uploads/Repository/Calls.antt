-- ===== src/Uploads/Repository/Calls.antt =====
-- The calls that change the upload tables, as the service makes them, and histories of such calls.
use swa_drive.Base.{ℕ, Bool, List, [], ◌∷◌, Result, ok, err, if◌then◌else◌}
use swa_drive.Base.Text.{Text}
use swa_drive.Platform.{Platform}
use swa_drive.Audit.Event.{Event}
use swa_drive.Files.Index.{Entry}
use swa_drive.Uploads.Model.{Upload, Chunk, pending, finalizing}
use swa_drive.Uploads.Repository.{
  Db, create_with_audit, record_chunk, prepare_finalization, complete_with_audit, cancel_with_audit,
  expire_with_audit, reset_finalizing, mark_index_unhealthy,
}

-- `PrepareFinalization` is called from `pending`, or `again` from `finalizing`.
pub data Call : Type 0 where
  creates : Upload → Event → Call
  records : Chunk → Call
  prepares : (user : ℕ) (id : Text) (again : Bool) (sha : Text) → Call
  completes : (user : ℕ) (id : Text) → Entry → Event → Call
  cancels expires : (user : ℕ) (id : Text) → Event → Call
  resets : (user : ℕ) (id : Text) → Call
  marks : Text → Call

module _ (env : Platform) where
  unfoldable pub apply : Call → ℕ → Db → Result Db
  apply (creates u e) now db = create_with_audit u e now db
  apply (records c) now db = record_chunk c now db
  apply (prepares user id again sha) now db =
      prepare_finalization user id (if again then finalizing else pending) sha now db
  apply (completes user id entry e) now db = complete_with_audit env user id now entry e now db
  apply (cancels user id e) now db = cancel_with_audit user id now e now db
  apply (expires user id e) now db = expire_with_audit user id now e now db
  apply (resets user id) now db = reset_finalizing user id now db
  apply (marks reason) now db = mark_index_unhealthy reason db

  -- A failed call rolls its transaction back.
  unfoldable pub run : List (ℕ × Call) → Db → Db
  unfolding apply
  run [] db = db
  run ((now, c) ∷ cs) db = run cs (elim (apply c now db) [ ok db' ↦ db' | err _ ↦ db ])
