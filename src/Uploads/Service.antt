-- ===== src/Uploads/Service.antt =====
-- What the methods of the upload service share (server/internal/uploads/service.go): identities, audit
-- events, upload ids, `Get` and `ExpectedChunk`.
pub mod Transfer
pub mod Completion
pub mod Recovery
use swa_drive.Base.{
  ℕ, zero, suc, ◌≡◌, Bool, true, false, not, ◌&&◌, ◌||◌, Option, none, some, List, [], ◌∷◌, ◌++◌,
  Result, ok, err, Error, owner_required, upload_not_found, upload_state, invalid_upload, ltb, leb,
  ◌==◌, if◌then◌else◌, all, length, ◌+◌, ◌/◌, ◌%◌,
}
use swa_drive.Base.Text.{Text, codes}
use swa_drive.Base.Int.{ℤ}
unfoldable pub use swa_drive.Base.Hex.{is_hex_digit, encode_hex}
unfoldable pub use swa_drive.World.Audit.{record_event}
pub use swa_drive.Auth.Model.{Role, owner, member, is_owner, Identity}
use swa_drive.Audit.Event.{Event, prepare_event, append_event, outcome_success, outcome_failure}
use swa_drive.Audit.Event
use swa_drive.Uploads.Model.{Upload, Status, pending, status_eq}
use swa_drive.Uploads.Chunks.{chunk_bounds}
use swa_drive.Uploads.Repository.{Db, find}
use swa_drive.World.{World, M, ◌>>=◌, ◌>>◌, lift, pure, guard, gets, now, query, transact}

unfoldable pub valid_upload_id : Text → Bool
unfolding is_hex_digit
valid_upload_id id = length id == 32 && all is_hex_digit id

-- `newUploadID` on the 16 bytes that `rand.Read` gives, if it gives them.
unfoldable pub new_upload_id : Option Text → Result Text
unfolding encode_hex
new_upload_id none = err Error.fault
new_upload_id (some bytes) = ok (encode_hex bytes)

unfoldable pub event_at :
    Identity → (id target event_type outcome : Text) → List (Text × Text) → ℕ → Event
event_at who id target event_type outcome metadata t = record {
  occurred_at = t;
  actor_user_id = some who.user_id;
  actor_session_id = if ltb 0 who.session_id then some who.session_id else none;
  event_type = event_type;
  outcome = outcome;
  resource_type = codes "upload";
  resource_id = id;
  resource_path = target;
  destination_path = [];
  request_id = who.request_id;
  remote_ip = who.remote_ip;
  metadata = metadata;
}

-- `service.event`: it looks at the clock again.
unfoldable pub event :
    Identity → (id target event_type outcome : Text) → List (Text × Text) → M Event
event who id target event_type outcome metadata = do
  t ← now
  pure (event_at who id target event_type outcome metadata t)

abbrev pub reason : Text → List (Text × Text)
reason code = (codes "reason_code", code) ∷ []

-- `recordSecurityFailure`
unfoldable pub record_security_failure : Identity → Text → Text → M (Unit {0})
record_security_failure who id code = do
  upload ← query (find who.user_id id)
  e ←
      event who id upload.target_path (codes "uploads.security_failure") outcome_failure
        (reason code)
  record_event e

unfoldable pub get : Identity → Text → M Upload
get who id = do
  guard (is_owner who.role) owner_required
  guard (valid_upload_id id) upload_not_found
  query (find who.user_id id)

-- `upload.Status != StatusPending || !upload.ExpiresAt.After(now)`
abbrev pub accepts_chunks : Upload → ℕ → Bool
accepts_chunks u t = status_eq u.status pending && ltb t u.expires_at

unfoldable pub expected_chunk : Identity → Text → ℤ → M ℕ
unfolding get
expected_chunk who id index = do
  upload ← get who id
  t ← now
  guard (accepts_chunks upload t) upload_state
  (offset, size) ← lift (chunk_bounds upload index)
  pure size
