-- ===== src/Tests/Transfers.antt =====
-- Uploads from their plan to the published file.
use swa_drive.Base.{
  ℕ, ◌+◌, ◌*◌, ◌≡◌, refl, ◌≤◌, Bool, true, false, not, ◌&&◌, ◌||◌, some, [], ◌∷◌, arith, length, ok,
  ◌==◌,
}
use swa_drive.Base.Text.{codes, text_eq, split, cons_head}
use swa_drive.Base.Int.{pos}
use swa_drive.Storage.Path.{
  parse_path, valid_component, has_control, starts_with_slash, valid_internal_name,
}
use swa_drive.Storage.Disk.{pad}
use swa_drive.Storage.Manager.{open_part, lstat}
use swa_drive.Storage.Utf8.{valid_string, decode}
use swa_drive.Audit.Event.{
  Event, outcome_success, prepare_event, validate_event, valid_event_path, encode_metadata,
  known_outcome, append_event, append_in_transaction,
}
use swa_drive.Uploads.Model.{Upload, Status, pending, completed, cancelled, status_eq}
use swa_drive.Uploads.Chunks.{chunk_bounds}
use swa_drive.Uploads.Chunks.Tiling.{chunk_bounds-tiles, bytes_below}
use swa_drive.Uploads.Repository.{
  Db, find_row, active_uploads, validate_chunks, with_progress, chunks_of, sort_by_index,
  insert_by_index, validate_from, chunk_matches, update_where, require_changed, cancel_with_audit,
  finish_uncompleted,
}
use swa_drive.Uploads.Repository.Calls.{Call, cancels, apply, run}
use swa_drive.Uploads.Repository.Lifecycle.{apply-RowStep}
use swa_drive.Uploads.Repository.Steps.{RowStep}
use swa_drive.Uploads.Repository.History.{run-ended}
use swa_drive.Uploads.Repository.Limit.{run-limit}
use swa_drive.Uploads.Repository.Validation.{validate_chunks-progress}
use swa_drive.World.{World, ◌>>=◌, query, inspect, fallible}
use swa_drive.Uploads.Service.{event_at}
use swa_drive.Uploads.Service.Transfer.{Body, put_found}
use swa_drive.Uploads.Service.Transfer.Retry.{stored, put_found-recorded}
use swa_drive.Uploads.Service.Completion.{verify_and_sync_part, hash_section}
use swa_drive.Uploads.Service.Completion.Integrity.{verify_and_sync_part-whole}
use swa_drive.Tests.Samples.{
  env, bytes, digest, id, upload, chunk, volume, database, world, who, planned,
}

one_chunk : chunk_bounds (upload pending) (pos 0) ≡ ok (0, 3)
unfolding chunk_bounds
one_chunk = refl

chunk_bounds-tiles_example :
    (size : ℕ) × (chunk_bounds (upload pending) (pos 0) ≡ ok (0 * 1048576, size))
    × (bytes_below (upload pending) 0 ≡ 0 * 1048576)
    × (1 ≤ size)
    × (size ≤ 1048576)
    × (0 * 1048576 + size ≤ 3)
chunk_bounds-tiles_example = chunk_bounds-tiles (upload pending) 0 (planned pending) (omega arith)

abbrev cancelling : Event
cancelling =
    event_at who id (codes "a.txt") (codes "uploads.cancelled") outcome_success [] 5000000000

abbrev cancelling_call : Call
cancelling_call = cancels 1 id cancelling

abbrev is_ok_with : Status → ℕ → Db → Bool
is_ok_with s n db = elim db.uploads [
  | [] ↦ false
  | u ∷ _ ↦ status_eq u.status s && length db.events == n
]

abbrev before_cancel : Db
before_cancel = database pending (chunk ∷ [])

abbrev after_cancel : Db
after_cancel = run env ((5000000000, cancelling_call) ∷ []) before_cancel

cancel_runs : is_ok_with cancelled 1 after_cancel ≡ true
unfolding run apply cancel_with_audit finish_uncompleted update_where require_changed
    append_in_transaction prepare_event validate_event valid_event_path encode_metadata
    known_outcome append_event text_eq event_at parse_path split cons_head valid_string decode
    starts_with_slash valid_component has_control
cancel_runs = refl

apply-RowStep_example :
    (v : Upload) × (find_row 1 id after_cancel.uploads ≡ some v) × RowStep (upload pending) v
apply-RowStep_example =
    apply-RowStep env cancelling_call 5000000000 before_cancel after_cancel 1 id (upload pending)
      (unfold find_row text_eq in refl)
      (unfold run apply cancel_with_audit finish_uncompleted update_where require_changed
          append_in_transaction prepare_event validate_event valid_event_path encode_metadata
          known_outcome append_event text_eq event_at parse_path split cons_head valid_string decode
          starts_with_slash valid_component has_control in
        refl)

run-ended_example :
    (v : Upload) × (find_row 1 id
        (run env ((5000000000, cancelling_call) ∷ []) (database completed [])).uploads
      ≡ some v)
    × (v.status ≡ completed)
    × (v.part_name ≡ codes "p.part")
    × (v.target_path ≡ codes "a.txt")
run-ended_example =
    run-ended env ((5000000000, cancelling_call) ∷ []) (database completed []) 1 id
      (upload completed) (unfold find_row text_eq in refl) refl

run-limit_example : active_uploads 1 after_cancel.uploads ≤ 100
run-limit_example =
    run-limit env ((5000000000, cancelling_call) ∷ []) before_cancel 1
      (unfold active_uploads in omega arith)

validate_chunks-progress_example :
    ((with_progress (chunk ∷ []) (upload pending)).received_chunks ≡ 1)
    × ((with_progress (chunk ∷ []) (upload pending)).received_bytes ≡ 3)
validate_chunks-progress_example =
    validate_chunks-progress {A = Unit {0}} (upload pending) (λ c a. ok a) before_cancel tt tt
      (planned pending)
      (unfold validate_chunks validate_from chunks_of sort_by_index insert_by_index chunk_matches
          chunk_bounds text_eq in
        refl)

abbrev ready : World
ready = world pending (chunk ∷ []) volume

verify_and_sync_part-whole_example :
    (digest ≡ env.sha256_sum bytes)
    × (not (length digest == 32) || text_eq digest digest ≡ true)
    × (ready.disk ≡ ready.disk)
    × (ready.db ≡ ready.db)
verify_and_sync_part-whole_example =
    verify_and_sync_part-whole env (upload pending) ready ready digest bytes (planned pending)
      (unfold open_part lstat valid_internal_name text_eq in refl) refl
      (unfold verify_and_sync_part ◌>>=◌ inspect query fallible open_part lstat valid_internal_name
          text_eq validate_chunks validate_from chunks_of sort_by_index insert_by_index
          chunk_matches chunk_bounds hash_section pad in
        refl)

abbrev body : Body
body = record { content = bytes; failing = false }

put_found-recorded_example :
    stored (put_found env who id (upload pending) 0 0 3 body digest (ok chunk) ready).1
    ≡ stored ready
put_found-recorded_example =
    put_found-recorded env who id (upload pending) 0 0 3 body digest chunk ready
