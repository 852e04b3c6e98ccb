-- ===== src/Uploads/Orphans.antt =====
-- Parts without an upload: `OrphanPartReconciler` of server/internal/uploads/orphan_reconcile.go. The
-- counts that the code returns next to an error are left out.
pub mod Safety
use swa_drive.Base.{
  ℕ, zero, suc, ◌+◌, ◌*◌, ◌≡◌, Bool, true, false, not, ◌&&◌, ◌||◌, List, [], ◌∷◌, ◌++◌, Result, ok,
  err, invalid_upload, orphan_part_scan_limit, fault, ltb, leb, ◌==◌, if◌then◌else◌, all, length,
  take, drop,
}
use swa_drive.Base.Text.{Text, codes, text_eq}
use swa_drive.Base.Int.{ℤ, pos, negsuc}
use swa_drive.Storage.Manager.{remove_part}
use swa_drive.Uploads.Repository.{Db, is_known_part}
use swa_drive.World.{World, M, ◌>>=◌, ◌>>◌, lift, pure, guard, now, query, change, fallible}

abbrev pub maximum_orphan_part_scan_limit : ℕ
maximum_orphan_part_scan_limit = 10000

-- `storage.UploadPartEntry`
pub record UploadPartEntry : Type 0 where
  pub name : Text
  pub modified_at : ℕ

pub record OrphanResult : Type 0 where
  pub scanned : ℕ
  pub orphans : ℕ
  pub removed : ℕ

-- 32 hexadecimal digits, the letters in lower case.
abbrev pub is_lower_hex : ℕ → Bool
is_lower_hex b = leb b'0' b && leb b b'9' || leb b'a' b && leb b b'f'

unfoldable pub valid_part_name : Text → Bool
unfolding text_eq
valid_part_name name =
    length name == 37 && text_eq (drop 32 name) (codes ".part") && all is_lower_hex (take 32 name)

-- The callback of the walk, on the entries that it visits.
unfoldable pub collect :
    ℕ → List UploadPartEntry → List UploadPartEntry → Result (List UploadPartEntry)
collect limit [] candidates = ok candidates
collect limit (e ∷ es) candidates =
    if not (valid_part_name e.name)
    then collect limit es candidates
    else if length candidates == limit
    then err orphan_part_scan_limit
    else collect limit es (candidates ++ e ∷ [])

-- The loop over the candidates. `not (leb (modified_at + age) now)` is `ModifiedAt.After(cutoff)`.
unfoldable pub select_orphans : (age now_at : ℕ) → List UploadPartEntry → List Text → M (List Text)
select_orphans age now_at [] orphans = pure orphans
select_orphans age now_at (c ∷ cs) orphans = do
  known ← query (λ db. ok (is_known_part c.name db))
  select_orphans age now_at cs
      (if known || not (leb (c.modified_at + age) now_at) then orphans else orphans ++ c.name ∷ [])

unfoldable pub remove_orphans : List Text → M (Unit {0})
remove_orphans [] = pure tt
remove_orphans (n ∷ ns) = change (remove_part n) >> remove_orphans ns

unfoldable pub finish_orphans : Bool → ℕ → List Text → M OrphanResult
finish_orphans apply scanned orphans =
    if apply
    then remove_orphans orphans
      >> pure (record { scanned = scanned; orphans = length orphans; removed = length orphans })
    else pure (record { scanned = scanned; orphans = length orphans; removed = 0 })

unfoldable pub orphan_limits : (minimum_age scan_limit : ℤ) → Result (ℕ × ℕ)
orphan_limits (pos age) (pos limit) =
    if age == 0 || ltb limit 1 || ltb maximum_orphan_part_scan_limit limit
    then err invalid_upload
    else ok (age, limit)
orphan_limits _ _ = err invalid_upload

-- `Reconcile`; `entries` is what the walk through the uploads' directory visits.
unfoldable pub reconcile_orphans :
    List UploadPartEntry → (minimum_age scan_limit : ℤ) → (apply : Bool) → M OrphanResult
reconcile_orphans entries minimum_age scan_limit apply = do
  (age, limit) ← lift (orphan_limits minimum_age scan_limit)
  fallible
  candidates ← lift (collect limit entries [])
  t ← now
  orphans ← select_orphans age t candidates []
  finish_orphans apply (length candidates) orphans
