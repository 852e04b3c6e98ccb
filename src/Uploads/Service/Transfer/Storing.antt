-- ===== src/Uploads/Service/Transfer/Storing.antt =====
-- What a request that stores a new chunk has done (`PutChunk`, server/internal/uploads/service.go).
use swa_drive.Base.{
  ℕ, ◌≡◌, refl, sym, ap, subst, ◌∙◌, true, false, ok, err, arith, ◌∷◌, length, take, drop,
  chunk_not_found,
}
use swa_drive.Base.Text.{Text, text_eq_iff, text_eq_refl}
use swa_drive.Platform.{Platform}
use swa_drive.Storage.Disk.{Disk, put_node}
use swa_drive.Storage.Disk.Writing.{section-write_at}
use swa_drive.Storage.Disk.{write_at}
use swa_drive.Storage.Manager.{open_part, in_uploads, lstat}
use swa_drive.Audit.Event.{stored_time}
use swa_drive.Uploads.Model.{Upload, Chunk, PutResult}
use swa_drive.Uploads.Repository.{find_chunk, find_chunk_in, record_chunk, Db}
use swa_drive.World.{World, ◌>>=◌}
use swa_drive.World.Laws.{
  after_bind, query-ok, inspect-ok, change-ok, transact-ok, guard-ok, now-same, fallible-same,
}
use swa_drive.Uploads.Service.{Identity}
use swa_drive.Uploads.Service.Transfer.{
  Body, streamed, check_body, check_space, compare_sums, put_found, store_chunk, write_part,
}

record_chunk-find :
    (c : Chunk) (now : ℕ) (db db' : Db)
    → record_chunk c now db ≡ ok db'
    → (d : Chunk) × (find_chunk c.upload_id c.index db' ≡ ok d)
      × (d.offset ≡ c.offset)
      × (d.size ≡ c.size)
      × (d.sha256 ≡ c.sha256)
unfolding record_chunk find_chunk find_chunk_in
record_chunk-find c now db db' h =
    let row : Chunk = record c { received_at = stored_time c.received_at } in
    let rows : db'.chunks ≡ row ∷ db.chunks = ground arith in
    (row, rw (rows, text_eq_refl c.upload_id) (ground arith), refl, refl, refl)

compare_sums-ok :
    (env : Platform) (who : Identity) (u : Upload) (expected read : ℕ) (sum checksum : Text)
    (w : World) {r : Text} {v : World}
    → compare_sums env who u expected read sum checksum w ≡ (ok r, v)
    → (read ≡ expected) × (sum ≡ checksum) × (r ≡ sum) × (v ≡ w)
unfolding compare_sums
compare_sums-ok env who u expected read sum checksum w h = ground (arith, text_eq_iff sum checksum)

check_body-ok :
    (env : Platform) (who : Identity) (u : Upload) (expected : ℕ) (body : Body) (checksum : Text)
    (w : World) {r : Text} {v : World}
    → check_body env who u expected body checksum w ≡ (ok r, v)
    → (length (streamed body expected) ≡ expected)
      × (env.sha256_sum (streamed body expected) ≡ checksum)
      × (r ≡ checksum)
      × (v ≡ w)
unfolding check_body
check_body-ok env who u expected body checksum w h = after_bind _ _ w h λ _ w₁ read h₁.
    let (_, same) = guard-ok _ _ w read in
    let (size, sum, same_sum, same₁) = compare_sums-ok env who u expected _ _ checksum w₁ h₁ in
    (size, sum, same_sum ∙ sum, same₁ ∙ same)

check_space-disk : (n : ℕ) (w : World) {v : World} → check_space n w ≡ (ok tt, v) → v.disk ≡ w.disk
unfolding check_space ◌>>=◌
check_space-disk n w h = ground (arith, fallible-same w)

write_part-open :
    (name : Text) (offset : ℕ) (bytes : Text) (time : ℕ) (d d' : Disk) (old : Text)
    → open_part name d ≡ ok old
    → write_part name offset bytes time d ≡ ok d'
    → open_part name d' ≡ ok (write_at old offset bytes)
unfolding write_part open_part put_node lstat
write_part-open name offset bytes time d d' old o h = ground (arith, text_eq_refl (in_uploads name))

store_chunk-ok :
    (env : Platform) (who : Identity) (id : Text) (u : Upload) (i offset expected : ℕ) (sum : Text)
    (w : World) {r : PutResult} {v : World}
    → store_chunk env who id u i offset expected sum w ≡ (ok r, v)
    → (v.disk ≡ w.disk)
      × (r.idempotent ≡ false)
      × (d : Chunk) × (find_chunk u.id i v.db ≡ ok d)
      × (d.offset ≡ offset)
      × (d.size ≡ expected)
      × (d.sha256 ≡ sum)
unfolding store_chunk
store_chunk-ok env who id u i offset expected sum w {r} {v} h = after_bind _ _ w h λ _ w₁ synced h₁.
    after_bind _ _ w₁ h₁ λ t w₂ looked h₂. after_bind _ _ w₂ h₂ λ _ w₃ recorded h₃.
      after_bind _ _ w₃ h₃ λ found w₄ asked h₄.
        let (s, row, disk₃) = transact-ok _ w₂ recorded in
        let (_, db₄, disk₄) = query-ok _ w₃ asked in
        let (d, there, place, size, digest) = record_chunk-find _ t w₂.db w₃.db row in
        let last : v ≡ w₄ = cc in
        let now₁ : w₂.disk ≡ w₁.disk = ap (λ z. z.1.disk) (sym looked) ∙ (now-same w₁).1 in
        let now₀ : w₁.disk ≡ w.disk = ap (λ z. z.1.disk) (sym synced) ∙ (fallible-same w).1 in
        (
          ap (λ z. z.disk) last ∙ disk₄ ∙ disk₃ ∙ now₁ ∙ now₀,
          cc,
          d,
          ap (find_chunk u.id i) (ap (λ z. z.db) last ∙ db₄) ∙ there,
          place,
          size,
          digest,
        )

-- Where the repository has no row for the chunk and the request succeeds: the body had exactly the
-- chunk's length and the checksum that the request declared; the part holds it at the chunk's offset,
-- written into what the part held before; and the repository now finds a row for the chunk, with this
-- offset, length and checksum.
pub put_found-stores :
    (env : Platform) (who : Identity) (id : Text) (u : Upload) (i offset expected : ℕ) (body : Body)
    (checksum : Text) (w : World) {r : PutResult} {v : World}
    → put_found env who id u i offset expected body checksum (err chunk_not_found) w ≡ (ok r, v)
    → (length (streamed body expected) ≡ expected)
      × (env.sha256_sum (streamed body expected) ≡ checksum)
      × (r.idempotent ≡ false)
      × ((old stored : Text) × (open_part u.part_name w.disk ≡ ok old)
          × (open_part u.part_name v.disk ≡ ok stored)
          × (stored ≡ write_at old offset (streamed body expected))
          × (take expected (drop offset stored) ≡ streamed body expected))
      × ((c : Chunk) × (find_chunk u.id i v.db ≡ ok c)
          × (c.offset ≡ offset)
          × (c.size ≡ expected)
          × (c.sha256 ≡ checksum))
unfolding put_found
put_found-stores env who id u i offset expected body checksum w {r} {v} h =
    after_bind _ _ w h λ _ w₁ missing h₁. after_bind _ _ w₁ h₁ λ _ w₂ roomy h₂.
      after_bind _ _ w₂ h₂ λ old w₃ opened h₃. after_bind _ _ w₃ h₃ λ x w₄ looked h₄.
        after_bind _ _ w₄ h₄ λ _ w₅ written h₅. after_bind _ _ w₅ h₅ λ sum w₆ checked h₆.
          let (_, same₁) = guard-ok true chunk_not_found w missing in
          let disk₂ = check_space-disk expected w₁ roomy in
          let (o, _, disk₃) = inspect-ok (open_part u.part_name) w₂ opened in
          let same₄ : w₄ ≡ w₃ = cc in
          let before : w₄.disk ≡ w.disk =
            ap (λ z. z.disk) same₄ ∙ disk₃ ∙ disk₂ ∙ ap (λ z. z.disk) same₁ in
          let o' : open_part u.part_name w₄.disk ≡ ok old = cc in
          let (moved, _) = change-ok _ w₄ written in
          let (size, digest, same_sum, same₆) =
            check_body-ok env who u expected body checksum w₅ checked in
          let (disk₇, fresh, c, there, place, long, sha) =
            store_chunk-ok env who id u i offset expected sum w₆ h₆ in
          let new = streamed body expected in
          let kept : v.disk ≡ w₅.disk = disk₇ ∙ ap (λ z. z.disk) same₆ in
          let stored =
            write_part-open u.part_name offset new x.clock w₄.disk w₅.disk old o' moved in
          (
            size,
            digest,
            fresh,
            (
              old,
              write_at old offset new,
              ap (open_part u.part_name) (sym before) ∙ o',
              ap (open_part u.part_name) kept ∙ stored,
              refl,
              subst (λ n. take n (drop offset (write_at old offset new)) ≡ new) size
                  (section-write_at old new offset),
            ),
            (c, there, place, long, sha ∙ same_sum),
          )
