-- ===== src/Uploads/Service/Transfer.antt =====
-- Creating an upload and storing its chunks: `Create` and `PutChunk` of
-- server/internal/uploads/service.go.
pub mod Retry
pub mod Storing
pub mod Creation
use swa_drive.Base.{
  ℕ, suc, ◌+◌, ◌≡◌, Bool, true, false, not, ◌&&◌, ◌||◌, Option, none, some, List, [], ◌∷◌, ◌++◌,
  Result, ok, err, Error, owner_required, upload_not_found, upload_state, invalid_upload,
  upload_busy, chunk_length, checksum_mismatch, chunk_conflict, chunk_not_found, fault, errors_is,
  ltb, leb, ◌==◌, if◌then◌else◌, take, length,
}
use swa_drive.Base.Text.{Text, codes, text_eq}
use swa_drive.Base.Int.{ℤ, pos, negsuc}
use swa_drive.Platform.{Platform}
use swa_drive.Storage.Path.{LogicalPath, parse_path}
use swa_drive.Storage.Disk.{
  Disk, Node, regular, Lookup, present, absent, broken, put_node, write_at,
}
use swa_drive.Storage.Manager.{
  in_uploads, prepare_upload, create_part, remove_part, open_part, check_available,
}
use swa_drive.Audit.Event.{Event, outcome_success, outcome_failure}
use swa_drive.Uploads.Model.{
  Upload, Chunk, CreateInput, PutResult, Status, pending, default_chunk_size, upload_lifetime,
  maximum_chunks_per_upload,
}
use swa_drive.Uploads.Chunks.{chunk_bounds, total_chunks, allowed_chunk_size}
use swa_drive.Uploads.Repository.{Db, find, find_chunk, record_chunk, create_with_audit}
use swa_drive.World.{
  World, M, ◌>>=◌, ◌>>◌, lift, pure, raise, raise_joined, attempt, gets, guard, now, query,
  transact, inspect, change, fallible,
}
use swa_drive.Uploads.Service.{
  Identity, Role, is_owner, new_upload_id, valid_upload_id, event, record_security_failure,
  accepts_chunks,
}

-- `CheckAvailable` under the service's reserve.
unfoldable pub check_space : ℕ → M (Unit {0})
check_space required = do
  fallible
  w ← gets (λ w. w)
  lift (check_available w.block_size w.free_blocks required w.reserve)

-- A chunk size of 0 means the default.
abbrev pub requested_chunk_size : ℤ → ℤ
requested_chunk_size (pos c) = if c == 0 then pos default_chunk_size else pos c
requested_chunk_size (negsuc n) = negsuc n

-- The sizes that `Create` accepts, with the chunk count; a negative size is invalid.
unfoldable pub plan : CreateInput → Result (ℕ × ℕ × ℕ)
plan input = elim input.total_size [
  | negsuc n ↦ err invalid_upload
  | pos total ↦ elim (requested_chunk_size input.chunk_size) [
    | negsuc n ↦ err invalid_upload
    | pos size ↦
        (let count = total_chunks total size in
          if not (allowed_chunk_size (pos size))
            || not (length input.whole_sha256 == 0 || length input.whole_sha256 == 32)
            || ltb maximum_chunks_per_upload count
          then err invalid_upload
          else ok (total, size, count))
  ]
]

-- The end of `Create`: a part whose upload could not be stored is removed again.
unfoldable pub after_storing : Upload → Result (Unit {0}) → M Upload
after_storing upload (ok _) = pure upload
after_storing upload (err f) = raise_joined f (change (remove_part upload.part_name))

unfoldable pub store_upload : Upload → Event → M Upload
store_upload upload e = do
  stored ← attempt (transact (create_with_audit upload e))
  after_storing upload stored

-- `random` is what `rand.Read` gives.
unfoldable pub create : Identity → CreateInput → Option Text → M Upload
create who input random = do
  guard (is_owner who.role) owner_required
  destination ← lift (parse_path input.target_path false)
  (total, size, count) ← lift (plan input)
  check_space total
  inspect (prepare_upload destination)
  id ← lift (new_upload_id random)
  let part = id ++ codes ".part"
  w ← gets (λ w. w)
  change (create_part part w.clock)
  t ← now
  let upload : Upload = record {
    id = id;
    user_id = who.user_id;
    target_path = destination.value;
    part_name = part;
    total_size = total;
    chunk_size = size;
    total_chunks = count;
    whole_sha256 = input.whole_sha256;
    status = pending;
    created_at = t;
    updated_at = t;
    expires_at = t + upload_lifetime;
    received_chunks = 0;
    received_bytes = 0;
  }
  e ← event who id upload.target_path (codes "uploads.created") outcome_success []
  store_upload upload e

-- A request body: the bytes that arrive, and whether reading fails after them.
pub record Body : Type 0 where
  pub content : Text
  pub failing : Bool

-- The stream through `io.LimitReader(body, expectedSize+1)`.
abbrev pub streamed : Body → ℕ → Text
streamed body expected = take (suc expected) body.content

abbrev pub read_fails : Body → ℕ → Bool
read_fails body expected = body.failing && ltb (length body.content) (suc expected)

abbrev pub is_chunk_not_found : Error → Bool
is_chunk_not_found chunk_not_found = true
is_chunk_not_found _ = false

-- The index of the path parameter, which `chunkBounds` has found not negative.
abbrev pub index_of : ℤ → ℕ
index_of (pos n) = n
index_of (negsuc n) = 0

-- `io.NewOffsetWriter(partFile, offset)` under the copy.
unfoldable pub write_part : Text → ℕ → Text → ℕ → Disk → Result Disk
write_part name offset bytes time d = elim (open_part name d) [
  | err e ↦ err e
  | ok old ↦ ok (put_node (in_uploads name) (present (regular (write_at old offset bytes) time)) d)
]

module _ (env : Platform) where
  -- The end of `PutChunk` for a chunk that is recorded already: the body is compared, not written.
  unfoldable pub retry_chunk : Identity → Text → Upload → Chunk → ℕ → ℕ → Text → M PutResult
  retry_chunk who id upload existing offset expected sum =
      if existing.size == expected && existing.offset == offset && text_eq existing.sha256 sum
      then (do
        found ← query (find who.user_id id)
        pure (record { upload = found; idempotent = true }))
      else raise_joined chunk_conflict
          (record_security_failure who upload.id (codes "chunk_retry_conflict"))

  -- The end of `PutChunk` for a new chunk: sync, then the row.
  unfoldable pub store_chunk : Identity → Text → Upload → ℕ → ℕ → ℕ → Text → M PutResult
  store_chunk who id upload i offset expected sum = do
    fallible
    t ← now
    transact (λ _.
        record_chunk
          (record {
            upload_id = upload.id;
            index = i;
            offset = offset;
            size = expected;
            sha256 = sum;
            received_at = t;
          })
          t)
    found ← query (find who.user_id id)
    pure (record { upload = found; idempotent = false })

  -- The length first, then the checksum.
  unfoldable pub compare_sums :
      Identity → Upload → (expected read : ℕ) → (sum checksum : Text) → M Text
  compare_sums who upload expected read sum checksum =
      if read == expected
      then (if text_eq sum checksum
          then pure sum
          else raise_joined checksum_mismatch
              (record_security_failure who upload.id (codes "chunk_checksum")))
      else raise_joined chunk_length (record_security_failure who upload.id (codes "chunk_length"))

  -- Reading, the length and the checksum, the same for a new chunk and for a retry.
  unfoldable pub check_body : Identity → Upload → ℕ → Body → Text → M Text
  check_body who upload expected body checksum = do
    guard (not (read_fails body expected)) fault
    let sum = env.sha256_sum (streamed body expected)
    compare_sums who upload expected (length (streamed body expected)) sum checksum

  -- From the look for a recorded chunk on. Any error but "not found" ends the request.
  unfoldable pub put_found :
      Identity → Text → Upload → (i offset expected : ℕ) → Body → Text → Result Chunk → M PutResult
  put_found who id upload i offset expected body checksum (ok chunk) = do
    sum ← check_body who upload expected body checksum
    retry_chunk who id upload chunk offset expected sum
  put_found who id upload i offset expected body checksum (err f) = do
    guard (errors_is is_chunk_not_found f) f
    check_space expected
    inspect (open_part upload.part_name)
    w ← gets (λ w. w)
    change (write_part upload.part_name offset (streamed body expected) w.clock)
    sum ← check_body who upload expected body checksum
    store_chunk who id upload i offset expected sum

  -- `PutChunk` under its locks, once it is admitted and has a slot.
  unfoldable pub put_admitted : Identity → Text → ℤ → Body → Text → M PutResult
  put_admitted who id index body checksum = do
    upload ← query (find who.user_id id)
    t ← now
    guard (accepts_chunks upload t) upload_state
    (offset, expected) ← lift (chunk_bounds upload index)
    existing ← attempt (query (find_chunk upload.id (index_of index)))
    put_found who id upload (index_of index) offset expected body checksum existing

  -- A request that finds the queue full is turned away; its own admission ends with the call.
  unfoldable pub put_chunk : Identity → Text → ℤ → Body → Text → M PutResult
  put_chunk who id index body checksum = do
    guard (is_owner who.role) owner_required
    guard (valid_upload_id id && length checksum == 32) invalid_upload
    w ← gets (λ w. w)
    guard (ltb w.admitted w.admissions) upload_busy
    fallible
    put_admitted who id index body checksum
