-- ===== src/Uploads/Repository/Lifecycle.antt =====
-- The life of an upload's row: which status may follow which, and what never changes.
use swa_drive.Base.{ℕ, ◌≡◌, refl, true, false, some, ok, if◌then◌else◌, &&-eq_true, ◌∙◌}
use swa_drive.Base.Text.{Text}
use swa_drive.Platform.{Platform}
use swa_drive.Uploads.Model.{Upload, pending, finalizing, completed, cancelled, expired}
use swa_drive.Uploads.Repository.{
  Db, find_row, upload_row, cancel_with_audit, expire_with_audit, in_status, is_upload, set_status,
  set_checked, set_updated,
}
use swa_drive.Uploads.Repository.Rows.{
  prepare-rows, reset-rows, finish-rows, complete-rows, record-rows, create-rows, mark-rows,
}
use swa_drive.Uploads.Repository.Calls.{
  Call, creates, records, prepares, completes, cancels, expires, resets, marks, apply,
}
use swa_drive.Uploads.Repository.Steps.{
  RowStep, RowStep-refl, find_row-tail, find_row-update_where, set_checked-RowStep,
  set_updated-RowStep, set_status-RowStep, prepared, finish-Steps, hidden,
}

-- One call of the service moves every upload's row only as the life cycle allows (pending to
-- finalizing, cancelled or expired; finalizing to pending or completed; any status to itself), keeps
-- its id, owner, path, part, sizes and deadline, and never removes it.
pub apply-RowStep :
    (env : Platform) (c : Call) (now : ℕ) (db db' : Db) (user : ℕ) (id : Text) (u : Upload)
    → find_row user id db.uploads ≡ some u
    → apply env c now db ≡ ok db'
    → (v : Upload) × (find_row user id db'.uploads ≡ some v) × RowStep u v
unfolding apply
apply-RowStep env (creates w e) now db db' user id u h a = rw (create-rows w e now db db' a).0 (
  u,
  find_row-tail user id (upload_row w) db.uploads
        (hidden w db.uploads user id h (create-rows w e now db db' a).1)
      ∙ h,
  RowStep-refl u,
)
apply-RowStep env (records c) now db db' user id u h a = rw (record-rows c now db db' a) (
    find_row-update_where (is_upload c.upload_id) (set_updated now)
      (λ x _. set_updated-RowStep now x) user id db.uploads h)
apply-RowStep env (prepares who it again sha) now db db' user id u h a =
    let from = if again then finalizing else pending in
    rw (prepare-rows who it from sha now db db' a) (
      find_row-update_where (in_status who it from) (set_checked finalizing sha now)
        (λ x e. set_checked-RowStep from finalizing sha now x (prepared again) (&&-eq_true _ _ e).1)
        user id db.uploads h)
apply-RowStep env (completes who it entry e) now db db' user id u h a =
    rw (complete-rows env who it now entry e db db' a) (
      find_row-update_where _ (set_checked completed entry.whole_sha256 now)
        (λ x e.
          set_checked-RowStep finalizing completed entry.whole_sha256 now x refl
            (&&-eq_true _ _ e).1)
        user id db.uploads h)
apply-RowStep env (cancels who it e) now db db' user id u h a =
    rw (finish-rows who it cancelled now false e db db' (unfold cancel_with_audit in a))
      (finish-Steps who it cancelled now false db.uploads refl user id h)
apply-RowStep env (expires who it e) now db db' user id u h a =
    rw (finish-rows who it expired now true e db db' (unfold expire_with_audit in a))
      (finish-Steps who it expired now true db.uploads refl user id h)
apply-RowStep env (resets who it) now db db' user id u h a = rw (reset-rows who it now db db' a) (
    find_row-update_where _ (set_status pending now)
      (λ x e. set_status-RowStep finalizing pending now x refl (&&-eq_true _ _ e).1) user id
      db.uploads h)
apply-RowStep env (marks reason) now db db' user id u h a =
    rw (mark-rows reason db db' a) (u, h, RowStep-refl u)
