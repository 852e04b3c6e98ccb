-- ===== src/Uploads/Service/Transfer/Retry.antt =====
-- A chunk that is recorded already is never written again (`PutChunk`,
-- server/internal/uploads/service.go).
use swa_drive.Base.{ℕ, ◌≡◌, refl, ◌&&◌, List, Result, ok, arith, inl, inr, Bool-cases, ◌==◌}
use swa_drive.Base.Text.{Text, text_eq, codes}
use swa_drive.Platform.{Platform}
use swa_drive.Storage.Disk.{Disk}
use swa_drive.Audit.Event.{Event}
use swa_drive.Uploads.Model.{Upload, Chunk}
use swa_drive.Uploads.Repository.{Db, find}
use swa_drive.World.{World, M, query, now}
use swa_drive.World.Frame.{
  Keeps, bind-Keeps, disk_of, now-disk, query-disk, transact_frame, db_view, now-Keeps, query-Keeps,
  transact-Keeps,
}
use swa_drive.Uploads.Service.{Identity, event, record_event, record_security_failure}
use swa_drive.Uploads.Service.Transfer.{Body, retry_chunk, compare_sums, check_body, put_found}

-- The tables that a retry could spoil.
abbrev transfers : Db → List Upload × List Chunk
transfers db = (db.uploads, db.chunks)

abbrev pub stored : World → Disk × (List Upload × List Chunk)
stored w = (w.disk, transfers w.db)

both : {A : Type 0} (m : M A) → Keeps disk_of m → Keeps (db_view transfers) m → Keeps stored m
both m k l w = rw (k w, l w)

now-stored : Keeps stored now
now-stored = both now now-disk (now-Keeps transfers)

query-stored : {A : Type 0} (f : Db → Result A) → Keeps stored (query f)
query-stored f = both (query f) (query-disk f) (query-Keeps transfers f)

record_event-stored : (e : Event) → Keeps stored (record_event e)
unfolding record_event
record_event-stored e =
    both {A = Unit {0}} (record_event e) (transact_frame _)
      (transact-Keeps transfers _ λ t db db' h. ground arith)

security-stored :
    (who : Identity) (id code : Text) → Keeps stored (record_security_failure who id code)
unfolding record_security_failure event
security-stored who id code =
    bind-Keeps stored _ _ (query-stored _) λ u.
      bind-Keeps stored _ _ (bind-Keeps stored _ _ now-stored (λ t w. refl)) record_event-stored

compare_sums-stored :
    (env : Platform) (who : Identity) (u : Upload) (expected read : ℕ) (sum checksum : Text)
    → Keeps stored (compare_sums env who u expected read sum checksum)
unfolding compare_sums
compare_sums-stored env who u expected read sum checksum w = elim (Bool-cases (read == expected)) [
  | inl e ↦ elim (Bool-cases (text_eq sum checksum)) [
    | inl f ↦ rw (e, compare_sums, f)
    | inr f ↦ rw (e, compare_sums, f) (security-stored who u.id (codes "chunk_checksum") w)
  ]
  | inr e ↦ rw (e, compare_sums) (security-stored who u.id (codes "chunk_length") w)
]

retry_chunk-stored :
    (env : Platform) (who : Identity) (id : Text) (u : Upload) (c : Chunk) (offset expected : ℕ)
    (sum : Text)
    → Keeps stored (retry_chunk env who id u c offset expected sum)
unfolding retry_chunk
retry_chunk-stored env who id u c offset expected sum w =
    elim (Bool-cases (c.size == expected && c.offset == offset && text_eq c.sha256 sum)) [
      | inl e ↦
          rw (e, retry_chunk)
            (bind-Keeps stored _ _ (query-stored (find who.user_id id)) (λ found w. refl) w)
      | inr e ↦ rw (e, retry_chunk) (security-stored who u.id (codes "chunk_retry_conflict") w)
    ]

-- Where the repository already has a row for the chunk, whatever the body and its checksum are and
-- whether the request succeeds or fails, the volume, the uploads' rows and the chunks' rows are as
-- they were.
pub put_found-recorded :
    (env : Platform) (who : Identity) (id : Text) (u : Upload) (i offset expected : ℕ) (body : Body)
    (checksum : Text) (c : Chunk) (w : World)
    → stored (put_found env who id u i offset expected body checksum (ok c) w).1 ≡ stored w
unfolding put_found check_body
put_found-recorded env who id u i offset expected body checksum c w =
    bind-Keeps stored _ _
      (bind-Keeps stored _ _ (λ w. refl) (λ _. compare_sums-stored env who u expected _ _ checksum))
      (retry_chunk-stored env who id u c offset expected) w
