-- ===== src/Uploads/Service/Recovery.antt =====
-- Recovering, cancelling and expiring uploads: `ReconcileFinalizing`, `HasPendingFinalization`, `Cancel`
-- and `CleanupExpired` of server/internal/uploads/service.go.
pub mod Frame
use swa_drive.Base.{
  ℕ, zero, suc, ◌+◌, ◌-◌, ◌≡◌, Bool, true, false, not, ◌&&◌, ◌||◌, Option, none, some, List, [],
  ◌∷◌, ◌++◌, Result, ok, err, Error, owner_required, upload_not_found, upload_state, chunk_length,
  index_inconsistent, errors_join, checksum_mismatch, finalization_reconciliation, joined,
  errors_is, ltb, leb, ◌==◌, if◌then◌else◌, take, drop, length, min,
}
use swa_drive.Base.Text.{Text, codes, text_eq}
use swa_drive.Platform.{Platform}
use swa_drive.Storage.Path.{LogicalPath, parse_path}
use swa_drive.Storage.Disk.{Disk}
use swa_drive.Storage.Manager.{
  PublicationState, open_part, part_info, finalize_part, finalization_state, open_download,
  remove_part,
}
use swa_drive.Files.Index.{Entry, file, new_entry}
use swa_drive.Audit.Event.{Event, outcome_success, outcome_failure}
use swa_drive.Uploads.Model.{Upload, Chunk, Status, pending, finalizing, completed, status_eq}
use swa_drive.Uploads.Repository.{
  Db, find, validate_chunks, prepare_finalization, complete_with_audit, reset_finalizing,
  cancel_with_audit, expire_with_audit, mark_index_unhealthy, upload_health_reason, list_expired,
  list_finalizing,
}
use swa_drive.World.{
  World, M, ◌>>=◌, ◌>>◌, lift, pure, raise, raise_joined, attempt, gets, guard, now, query,
  transact, inspect, change, fallible,
}
use swa_drive.Uploads.Service.{
  Identity, Role, owner, is_owner, valid_upload_id, event, event_at, record_security_failure,
  reason,
}
use swa_drive.Uploads.Service.Completion.{
  mark_unhealthy, validate_published_state, ensure_published_checksum, complete_published,
}

abbrev pub is_upload_not_found : Error → Bool
is_upload_not_found upload_not_found = true
is_upload_not_found _ = false

abbrev is_upload_state : Error → Bool
is_upload_state upload_state = true
is_upload_state _ = false

module _ (env : Platform) where
  unfoldable pub reconcile_published : Upload → LogicalPath → PublicationState → ℕ → M (Unit {0})
  reconcile_published upload destination state t = do
    validate_published_state upload state
    checked ← ensure_published_checksum env upload destination
    complete_published env checked
        (record {
          user_id = upload.user_id;
          role = owner;
          session_id = 0;
          request_id = [];
          remote_ip = [];
        })
        state.destination_modified_at t (reason (codes "reconciled"))

  -- The switch on what the volume holds.
  unfoldable pub reconcile_state : Upload → LogicalPath → PublicationState → ℕ → M (Unit {0})
  reconcile_state upload destination state t =
      if state.part_exists && not state.destination_exists
      then transact (λ _. reset_finalizing upload.user_id upload.id t)
      else if not state.part_exists && state.destination_exists
      then reconcile_published upload destination state t
      else raise_joined finalization_reconciliation (mark_unhealthy upload.id)

  unfoldable pub reconcile_parsed : Upload → Result LogicalPath → M (Unit {0})
  reconcile_parsed upload (err f) = raise (joined finalization_reconciliation f)
  reconcile_parsed upload (ok destination) = do
    state ← inspect (finalization_state upload.part_name destination)
    t ← now
    reconcile_state upload destination state t

  unfoldable pub reconcile_found : Upload → M (Unit {0})
  reconcile_found upload =
      if status_eq upload.status finalizing
      then reconcile_parsed upload (parse_path upload.target_path false)
      else pure tt

  -- An upload that is gone by now is passed over.
  unfoldable pub found_or : Result Upload → M (Unit {0})
  found_or (ok upload) = reconcile_found upload
  found_or (err f) = if errors_is is_upload_not_found f then pure tt else raise f

  -- `reconcileFinalizingUpload`, on a candidate's owner and id.
  unfoldable pub reconcile_finalizing_upload : ℕ → Text → M (Unit {0})
  reconcile_finalizing_upload user id = do found ← attempt (query (find user id)); found_or found

  -- One pass over a page of candidates.
  unfoldable pub reconcile_page : List Upload → ℕ → M ℕ
  reconcile_page [] done = pure done
  reconcile_page (u ∷ us) done =
      reconcile_finalizing_upload u.user_id u.id >> reconcile_page us (suc done)

  -- `ReconcileFinalizing`: pages of 100, at most 1000 uploads, so at most 10 rounds.
  unfoldable pub reconcile_rounds : ℕ → ℕ → M ℕ
  reconcile_rounds zero done = do
    remaining ← query (λ db. ok (list_finalizing 1 db))
    guard (length remaining == 0) finalization_reconciliation
    pure done
  reconcile_rounds (suc rounds) done = do
    candidates ← query (λ db. ok (list_finalizing 100 db))
    done' ← reconcile_page candidates done
    (if ltb (length candidates) 100 then pure done' else λ w. reconcile_rounds rounds done' w)

  unfoldable pub reconcile_finalizing : M ℕ
  reconcile_finalizing = reconcile_rounds 10 0

unfoldable pub has_pending_finalization : M Bool
has_pending_finalization = do
  found ← query (λ db. ok (list_finalizing 1 db))
  pure (not (length found == 0))

unfoldable pub cancel : Identity → Text → M (Unit {0})
cancel who id = do
  guard (is_owner who.role) owner_required
  guard (valid_upload_id id) upload_not_found
  upload ← query (find who.user_id id)
  guard (status_eq upload.status pending) upload_state
  change (remove_part upload.part_name)
  t ← now
  e ← event who upload.id upload.target_path (codes "uploads.cancelled") outcome_success []
  transact (λ s. cancel_with_audit upload.user_id upload.id t e s)

-- One round of `CleanupExpired`, with whether the upload was cleaned.
unfoldable pub expire_upload : Upload → ℕ → M Bool
expire_upload upload t =
    if status_eq upload.status pending && leb upload.expires_at t
    then (do
      change (remove_part upload.part_name)
      transact (λ s.
          expire_with_audit upload.user_id upload.id t
            (record {
              occurred_at = t;
              actor_user_id = some upload.user_id;
              actor_session_id = none;
              event_type = codes "uploads.cancelled";
              outcome = outcome_success;
              resource_type = codes "upload";
              resource_id = upload.id;
              resource_path = upload.target_path;
              destination_path = [];
              request_id = [];
              remote_ip = [];
              metadata = reason (codes "expired");
            })
            s)
      pure true)
    else pure false

abbrev passed_over : Error → Bool
passed_over f = errors_is is_upload_not_found f || errors_is is_upload_state f

-- The loop over the candidates; a candidate that is gone or no longer pending is passed over.
unfoldable pub cleanup_each : ℕ → List Upload → ℕ → M ℕ
cleanup_each t [] cleaned = pure cleaned
cleanup_each t (u ∷ us) cleaned = do
  tried ← attempt (query (find u.user_id u.id) >>= (λ upload. expire_upload upload t))
  next ← elim tried [
    | ok did ↦ pure (if did then suc cleaned else cleaned)
    | err f ↦ if passed_over f then pure cleaned else raise f
  ]
  cleanup_each t us next

unfoldable pub cleanup_expired : M ℕ
cleanup_expired = do
  t ← now
  candidates ← query (λ db. ok (list_expired t 100 db))
  cleanup_each t candidates 0
