-- ===== src/Uploads/Service/Completion.antt =====
-- Publishing an upload: `Complete` and what it calls, of
-- server/internal/uploads/service.go.
pub mod Integrity
pub mod Publication
pub mod Request
pub mod Overlong
pub mod Health
pub mod Unmarked
use swa_drive.Base.{
  ℕ, zero, suc, ◌+◌, ◌-◌, ◌≡◌, Bool, true, false, not, ◌&&◌, ◌||◌, Option, none, some, List, [],
  ◌∷◌, ◌++◌, Result, ok, err, Error, owner_required, upload_not_found, upload_state, chunk_length,
  index_inconsistent, errors_join, checksum_mismatch, finalization_reconciliation, joined,
  errors_is, ltb, leb, ◌==◌, if◌then◌else◌, take, drop, length, min,
}
use swa_drive.Base.Text.{Text, codes, text_eq}
use swa_drive.Platform.{Platform}
use swa_drive.Storage.Path.{LogicalPath, parse_path}
use swa_drive.Storage.Disk.{Disk}
use swa_drive.Storage.Manager.{
  PublicationState, open_part, part_info, finalize_part, finalization_state, open_download,
  remove_part,
}
use swa_drive.Files.Index.{Entry, file, new_entry}
use swa_drive.Audit.Event.{Event, outcome_success, outcome_failure}
use swa_drive.Uploads.Model.{Upload, Chunk, Status, pending, finalizing, completed, status_eq}
use swa_drive.Uploads.Repository.{
  Db, find, validate_chunks, prepare_finalization, complete_with_audit, reset_finalizing,
  cancel_with_audit, expire_with_audit, mark_index_unhealthy, upload_health_reason, list_expired,
  list_finalizing,
}
use swa_drive.World.{
  World, M, ◌>>=◌, ◌>>◌, lift, pure, raise, raise_joined, attempt, gets, guard, now, query,
  transact, inspect, change, fallible,
}
use swa_drive.Uploads.Service.{
  Identity, Role, owner, is_owner, valid_upload_id, event, event_at, record_security_failure,
  reason,
}

unfoldable pub mark_unhealthy : Text → M (Unit {0})
mark_unhealthy id = transact (λ _. mark_index_unhealthy (upload_health_reason id))

unfoldable pub validate_published_state : Upload → PublicationState → M (Unit {0})
validate_published_state upload state =
    if state.destination_exists && state.destination_size == upload.total_size
    then pure tt
    else raise_joined (joined index_inconsistent finalization_reconciliation)
        (mark_unhealthy upload.id)

-- The callback of `verifyAndSyncPart`: the stored section of a chunk, and what was hashed so far.
abbrev pub section : Text → Chunk → Text
section content c = take c.size (drop c.offset content)

module _ (env : Platform) where
  unfoldable pub hash_section : Text → Chunk → Text → Result Text
  hash_section content c hashed =
      if length (section content c) == c.size
        && text_eq (env.sha256_sum (section content c)) c.sha256
      then ok (hashed ++ section content c)
      else err checksum_mismatch

  unfoldable pub verify_and_sync_part : Upload → M Text
  verify_and_sync_part upload = do
    content ← inspect (open_part upload.part_name)
    hashed ← query (λ db. validate_chunks upload (hash_section content) db [])
    let sum = env.sha256_sum hashed
    guard (not (length upload.whole_sha256 == 32) || text_eq sum upload.whole_sha256)
        checksum_mismatch
    fallible
    pure sum

  unfoldable pub ensure_published_checksum : Upload → LogicalPath → M Upload
  ensure_published_checksum upload destination =
      if length upload.whole_sha256 == 32 then pure upload else (do
        (content, time) ← inspect (open_download destination)
        guard (length content == upload.total_size) chunk_length
        pure (record upload { whole_sha256 = env.sha256_sum content }))

  unfoldable pub after_booking : Upload → Result (Unit {0}) → M (Unit {0})
  after_booking upload (ok _) = pure tt
  after_booking upload (err f) = raise_joined f (mark_unhealthy upload.id)

  -- The index entry, the status and the audit event of a published upload. Only a failure of the
  -- transaction marks the index.
  unfoldable pub complete_published :
      Upload → Identity → (modified_at now_at : ℕ) → List (Text × Text) → M (Unit {0})
  complete_published upload who modified_at now_at metadata = do
    guard (length upload.whole_sha256 == 32) finalization_reconciliation
    destination ← lift (parse_path upload.target_path false)
    entry ←
        lift
          (new_entry env destination file upload.total_size modified_at now_at upload.whole_sha256)
    e ← event who upload.id upload.target_path (codes "uploads.completed") outcome_success metadata
    done ←
        attempt (transact (λ t. complete_with_audit env upload.user_id upload.id now_at entry e t))
    after_booking upload done

  -- `Complete` where an earlier run has published the file already.
  unfoldable pub complete_recovered : Identity → Upload → LogicalPath → PublicationState → M Upload
  complete_recovered who upload destination state = do
    t ← now
    validate_published_state upload state
    checked ← ensure_published_checksum upload destination
    complete_published checked who state.destination_modified_at t []
    query (find upload.user_id upload.id)

  -- What follows the rename: the way back to pending where this run left it, or the bookkeeping.
  unfoldable pub after_rename : Identity → Upload → Text → ℕ → ℕ → Result (Unit {0}) → M Upload
  after_rename who upload sum modified_at t (err f) =
      if status_eq upload.status pending
      then raise_joined f (transact (λ _. reset_finalizing upload.user_id upload.id t))
      else raise f
  after_rename who upload sum modified_at t (ok _) = do
    complete_published (record upload { whole_sha256 = sum }) who modified_at t []
    query (find upload.user_id upload.id)

  unfoldable pub publish_part : Identity → Upload → LogicalPath → Text → ℕ → ℕ → M Upload
  publish_part who upload destination sum modified_at t = do
    moved ← attempt (change (finalize_part upload.part_name destination))
    after_rename who upload sum modified_at t moved

  unfoldable pub after_verification : Identity → Upload → LogicalPath → ℕ → Result Text → M Upload
  after_verification who upload destination modified_at (err f) =
      raise_joined f (record_security_failure who upload.id (codes "whole_file_integrity"))
  after_verification who upload destination modified_at (ok sum) = do
    t ← now
    transact (λ _. prepare_finalization upload.user_id upload.id upload.status sum t)
    publish_part who upload destination sum modified_at t

  unfoldable pub verify_then_publish : Identity → Upload → LogicalPath → ℕ → M Upload
  verify_then_publish who upload destination modified_at = do
    verified ← attempt (verify_and_sync_part upload)
    after_verification who upload destination modified_at verified

  -- The part's bytes, of which the size is compared, and its modification time.
  unfoldable pub publish_measured : Identity → Upload → LogicalPath → Text × ℕ → M Upload
  publish_measured who upload destination (content, modified_at) =
      if length content == upload.total_size
      then verify_then_publish who upload destination modified_at
      else raise_joined chunk_length (record_security_failure who upload.id (codes "part_size"))

  -- `Complete` from the checks of the chunks on.
  unfoldable pub publish : Identity → Upload → LogicalPath → M Upload
  publish who upload destination = do
    query (λ db. validate_chunks upload (λ c a. ok a) db tt)
    info ← inspect (part_info upload.part_name)
    publish_measured who upload destination info

  unfoldable pub complete_finalizing : Identity → Upload → LogicalPath → M Upload
  complete_finalizing who upload destination = do
    state ← inspect (finalization_state upload.part_name destination)
    (if not state.part_exists && state.destination_exists
        then complete_recovered who upload destination state
        else guard (state.part_exists && not state.destination_exists) upload_state
          >> publish who upload destination)

  unfoldable pub complete_found : Identity → Upload → M Upload
  complete_found who upload = if status_eq upload.status completed then pure upload else (do
    guard (status_eq upload.status pending || status_eq upload.status finalizing) upload_state
    destination ← lift (parse_path upload.target_path false)
    (if status_eq upload.status finalizing
        then complete_finalizing who upload destination
        else publish who upload destination))

  unfoldable pub complete : Identity → Text → M Upload
  complete who id = do
    guard (is_owner who.role) owner_required
    guard (valid_upload_id id) upload_not_found
    upload ← query (find who.user_id id)
    complete_found who upload
