-- ===== src/Uploads/Service/Completion/Integrity.antt =====
-- What a publication has checked: every stored chunk, and the whole file.
use swa_drive.Base.{
  ℕ, suc, ◌≡◌, ap, ◌∙◌, true, not, ◌||◌, [], ◌++◌, ok, arith, length, take, take-add, take-length,
  ◌==◌,
}
use swa_drive.Base.Text.{Text, text_eq}
use swa_drive.Platform.{Platform}
use swa_drive.Storage.Manager.{open_part}
use swa_drive.Uploads.Model.{Upload, Chunk}
use swa_drive.Uploads.Chunks.Tiling.{IsPlanned, bytes_below, bytes_below-total, bytes_below_zero}
use swa_drive.Uploads.Repository.{Db, validate_chunks}
use swa_drive.Uploads.Repository.Validation.{Fits, validate_from-inv}
use swa_drive.World.{World}
use swa_drive.World.Laws.{after_bind, query-ok, inspect-ok, guard-ok, fallible-same}
use swa_drive.Uploads.Service.Completion.{section, hash_section, verify_and_sync_part}

module _ (env : Platform) (u : Upload) (p : IsPlanned u) (content : Text) where
  hash_section-keep :
      (i : ℕ) (c : Chunk) (a b : Text)
      → Fits u i c
      → a ≡ take (bytes_below u i) content
      → hash_section env content c a ≡ ok b
      → b ≡ take (bytes_below u (suc i)) content
  unfolding hash_section
  hash_section-keep i c a b f e h =
      let hashed : b ≡ a ++ section content c = ground arith in
      hashed ∙ rw (e, f.offset, f.next) (take-add (bytes_below u i) c.size content)

  hashed-content :
      (db : Db) (r : Text)
      → length content ≡ u.total_size
      → validate_chunks u (hash_section env content) db [] ≡ ok r
      → r ≡ content
  unfolding validate_chunks
  hashed-content db r size h =
      validate_from-inv u (hash_section env content) p (λ i a. a ≡ take (bytes_below u i) content)
        hash_section-keep 0 _ [] r (rw (bytes_below_zero u)) h
      ∙ rw (bytes_below-total u p, ← size) (take-length content)

-- What a verification that succeeds has found, with the part's bytes as a result.
pub verify_and_sync_part-ok :
    (env : Platform) (u : Upload) (w v : World) (sum : Text)
    → IsPlanned u
    → verify_and_sync_part env u w ≡ (ok sum, v)
    → (content : Text) × (open_part u.part_name w.disk ≡ ok content)
      × (length content ≡ u.total_size → sum ≡ env.sha256_sum content)
      × (not (length u.whole_sha256 == 32) || text_eq sum u.whole_sha256 ≡ true)
      × (v.disk ≡ w.disk)
      × (v.db ≡ w.db)
unfolding verify_and_sync_part
verify_and_sync_part-ok env u w v sum p h = after_bind _ _ w h λ content w₁ opened h₁.
    after_bind _ _ w₁ h₁ λ hashed w₂ checked h₂. after_bind _ _ w₂ h₂ λ _ w₃ agrees h₃.
      after_bind _ _ w₃ h₃ λ _ w₄ synced h₄.
        let (o, db₁, disk₁) = inspect-ok _ w opened in
        let (c, db₂, disk₂) = query-ok _ w₁ checked in
        let (g, same) = guard-ok _ _ w₂ agrees in
        let flush = fallible-same w₃ in
        let whole : length content ≡ u.total_size → hashed ≡ content =
          λ size. hashed-content env u p content w₁.db hashed size c in
        let last : sum ≡ env.sha256_sum hashed = ground arith in
        (
          content,
          o,
          (λ size. last ∙ ap env.sha256_sum (whole size)),
          rw last g,
          ground arith,
          ground arith,
        )

-- Where a part of the announced size, in an upload whose sizes are those that `Create` plans, passes
-- the verification, the chunks that were hashed one after the other were the whole file: the checksum
-- is that of all the part's bytes, and agrees with the one declared at creation if there is one.
-- Neither the volume nor the database changed.
pub verify_and_sync_part-whole :
    (env : Platform) (u : Upload) (w v : World) (sum content : Text)
    → IsPlanned u
    → open_part u.part_name w.disk ≡ ok content
    → length content ≡ u.total_size
    → verify_and_sync_part env u w ≡ (ok sum, v)
    → (sum ≡ env.sha256_sum content)
      × (not (length u.whole_sha256 == 32) || text_eq sum u.whole_sha256 ≡ true)
      × (v.disk ≡ w.disk)
      × (v.db ≡ w.db)
verify_and_sync_part-whole env u w v sum content p opened size h =
    let (found, same, digest, agrees, disk, db) = verify_and_sync_part-ok env u w v sum p h in
    let one : found ≡ content = cc in
    (digest (rw one size) ∙ ap env.sha256_sum one, agrees, disk, db)
