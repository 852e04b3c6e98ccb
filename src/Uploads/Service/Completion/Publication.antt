-- ===== src/Uploads/Service/Completion/Publication.antt =====
-- `Complete` publishes exactly what it has verified.
use swa_drive.Base.{
  ℕ, ◌≡◌, refl, List, [], sym, ap, ◌∙◌, true, not, ◌||◌, Result, ok, err, arith, inl, inr,
  Bool-cases, length, ◌==◌, subst,
}
use swa_drive.Base.Text.{Text, text_eq}
use swa_drive.Platform.{Platform}
use swa_drive.Storage.Path.{LogicalPath}
use swa_drive.Storage.Disk.{Disk, present, regular, absent, below}
use swa_drive.Storage.Manager.{in_uploads, in_files, open_part, part_info, finalize_part, lstat}
use swa_drive.Storage.Manager.Publication.{part_info-ok, finalize_part-publishes}
use swa_drive.Uploads.Model.{Upload, pending, status_eq}
use swa_drive.Uploads.Chunks.Tiling.{IsPlanned}
use swa_drive.World.{World, change}
use swa_drive.World.Laws.{
  after_bind, query-ok, inspect-ok, change-ok, transact-ok, transact-disk, attempt_lem,
}
use swa_drive.World.Frame.{Keeps, disk_of, bind-Keeps, now-disk}
use swa_drive.Uploads.Service.{Identity, event}
use swa_drive.Uploads.Service.Completion.{
  publish_measured, after_booking, after_rename, after_verification, complete_published,
  mark_unhealthy, publish, publish_part, verify_then_publish, verify_and_sync_part,
}
use swa_drive.Uploads.Service.Completion.Integrity.{verify_and_sync_part-ok}

event-disk :
    (who : Identity) (id target kind outcome : Text) (md : List (Text × Text))
    → Keeps disk_of (event who id target kind outcome md)
unfolding event
event-disk who id target kind outcome md = bind-Keeps disk_of _ _ now-disk (λ t w. refl)

after_booking-disk :
    (env : Platform) (u : Upload) (r : Result (Unit {0})) → Keeps disk_of (after_booking env u r)
unfolding after_booking mark_unhealthy
after_booking-disk env u (ok _) w = refl
after_booking-disk env u (err f) w = transact-disk _ w

-- The bookkeeping after the rename leaves the volume alone, whatever comes of it.
pub complete_published-disk :
    (env : Platform) (u : Upload) (who : Identity) (m t : ℕ) (md : List (Text × Text))
    → Keeps disk_of (complete_published env u who m t md)
unfolding complete_published mark_unhealthy
complete_published-disk env u who m t md =
    bind-Keeps disk_of _ _ (λ w. refl)
      λ _.
        bind-Keeps disk_of _ _ (λ w. refl)
          λ destination.
            bind-Keeps disk_of _ _ (λ w. refl)
              λ entry.
                bind-Keeps disk_of _ _ (event-disk who _ _ _ _ md)
                  λ e. bind-Keeps disk_of _ _ (transact-disk _) (after_booking-disk env u)

after_rename-disk :
    (env : Platform) (who : Identity) (u : Upload) (sum : Text) (m t : ℕ) (r : Result (Unit {0}))
    (w : World) {a : Upload} {v : World}
    → after_rename env who u sum m t r w ≡ (ok a, v)
    → (r ≡ ok tt) × (v.disk ≡ w.disk)
unfolding after_rename
after_rename-disk env who u sum m t (ok _) w h = after_bind _ _ w h λ _ w₁ booked found.
    let kept = complete_published-disk env (record u { whole_sha256 = sum }) who m t [] w in
    let (_, _, last) = query-ok _ w₁ found in
    (refl, last ∙ (ap (λ z. z.1.disk) (sym booked) ∙ kept))
after_rename-disk env who u sum m t (err f) w h = elim (Bool-cases (status_eq u.status pending)) [
  | inl e ↦ absurd (ground arith)
  | inr e ↦ absurd (ground arith)
]

publish_part-ok :
    (env : Platform) (who : Identity) (u : Upload) (p : LogicalPath) (sum : Text) (m t : ℕ)
    (w : World) {r : Upload} {v : World}
    → publish_part env who u p sum m t w ≡ (ok r, v)
    → finalize_part u.part_name p w.disk ≡ ok v.disk
unfolding publish_part
publish_part-ok env who u p sum m t w {r} {v} h = after_bind _ _ w h λ moved w₁ tried h₁.
    let (done, same) = after_rename-disk env who u sum m t moved w₁ h₁ in
    let (renamed, _) = change-ok (finalize_part u.part_name p) w (
      attempt_lem (change (finalize_part u.part_name p)) w tried
      ∙ ap (λ (z : Result (Unit {0})). (z, w₁)) done) in
    rw same renamed

after_verification-ok :
    (env : Platform) (who : Identity) (u : Upload) (p : LogicalPath) (m : ℕ) (checked : Result Text)
    (w : World) {r : Upload} {v : World}
    → after_verification env who u p m checked w ≡ (ok r, v)
    → (sum : Text) × (checked ≡ ok sum) × (finalize_part u.part_name p w.disk ≡ ok v.disk)
unfolding after_verification
after_verification-ok env who u p m (err f) w h = absurd (ground arith)
after_verification-ok env who u p m (ok sum) w {v = v} h = after_bind _ _ w h λ t w₁ looked h₁.
    after_bind _ _ w₁ h₁ λ _ w₂ prepared h₂.
      let (_, _, kept) = transact-ok _ w₁ prepared in
      (
        sum,
        refl,
        subst (λ d. finalize_part u.part_name p d ≡ ok v.disk)
            (kept ∙ (ap (λ z. z.1.disk) (sym looked) ∙ now-disk w))
            (publish_part-ok env who u p sum m t w₂ h₂),
      )

-- The whole-file guarantee of a publication.
pub record IsPublished (env : Platform) (u : Upload) (p : LogicalPath) (w v : World) : Type 0 where
  pub content : Text
  pub modified_at : ℕ
  -- the part's bytes are the destination's, which was free, and the part is gone
  pub stored : w.disk (in_uploads u.part_name) ≡ present (regular content modified_at)
  pub free : w.disk (in_files p) ≡ absent
  pub there : v.disk (in_files p) ≡ present (regular content modified_at)
  pub gone : v.disk (in_uploads u.part_name) ≡ absent
  -- their number is the announced one, and the announced checksum, if there is one, is theirs
  pub size : length content ≡ u.total_size
  pub sum :
      not (length u.whole_sha256 == 32) || text_eq (env.sha256_sum content) u.whole_sha256 ≡ true

same_part :
    (name : Text) (d : Disk) (content : Text) (info : Text × ℕ)
    → open_part name d ≡ ok content
    → part_info name d ≡ ok info
    → info.0 ≡ content
unfolding open_part part_info lstat
same_part name d content info h k = ground arith

measured-ok :
    (env : Platform) (who : Identity) (u : Upload) (p : LogicalPath) (info : Text × ℕ) (w : World)
    {r : Upload} {v : World}
    → publish_measured env who u p info w ≡ (ok r, v)
    → (length info.0 ≡ u.total_size) × (verify_then_publish env who u p info.1 w ≡ (ok r, v))
unfolding publish_measured
measured-ok env who u p (content, m) w h = elim (Bool-cases (length content == u.total_size)) [
  | inl e ↦ (ground arith, ground arith)
  | inr e ↦ absurd (ground arith)
]

verified-ok :
    (env : Platform) (who : Identity) (u : Upload) (p : LogicalPath) (m : ℕ) (w : World)
    {r : Upload} {v : World}
    → IsPlanned u
    → verify_then_publish env who u p m w ≡ (ok r, v)
    → (content : Text) × (open_part u.part_name w.disk ≡ ok content)
      × (length content ≡ u.total_size
          → not (length u.whole_sha256 == 32) || text_eq (env.sha256_sum content) u.whole_sha256
            ≡ true)
      × (finalize_part u.part_name p w.disk ≡ ok v.disk)
unfolding verify_then_publish
verified-ok env who u p m w {r} {v} planned h = after_bind _ _ w h λ checked w₁ tried h₁.
    let (sum, e, renamed) = after_verification-ok env who u p m checked w₁ h₁ in
    let (content, opened, digest, agrees, disk₁, _) =
      verify_and_sync_part-ok env u w w₁ sum planned
        (attempt_lem (verify_and_sync_part env u) w tried ∙ ap (λ (z : Result Text). (z, w₁)) e) in
    (
      content,
      opened,
      (λ size. rw (← digest size) agrees),
      subst (λ d. finalize_part u.part_name p d ≡ ok v.disk) disk₁ renamed,
    )

-- A publication that succeeds, of an upload whose sizes are those that `Create` plans, took a part of
-- exactly the announced size, whose checksum is the one declared for the whole file if one was, to a
-- destination that was free; there the file has the part's bytes and modification time, and the part
-- is gone.
pub publish-IsPublished :
    (env : Platform) (who : Identity) (u : Upload) (p : LogicalPath) (w : World) {r : Upload}
    {v : World}
    → IsPlanned u
    → publish env who u p w ≡ (ok r, v)
    → IsPublished env u p w v
unfolding publish
publish-IsPublished env who u p w {r} {v} planned h = after_bind _ _ w h λ _ w₁ complete h₁.
    after_bind _ _ w₁ h₁ λ info w₂ measured h₂.
      let (_, _, disk₁) = query-ok _ w complete in
      let (found₁, _, disk₂) = inspect-ok (part_info u.part_name) w₁ measured in
      let found = subst (λ d. part_info u.part_name d ≡ ok info) disk₁ found₁ in
      let (size, rest) = measured-ok env who u p info w₂ h₂ in
      let (content, opened₂, digest, renamed₂) = verified-ok env who u p info.1 w₂ planned rest in
      let opened = subst (λ d. open_part u.part_name d ≡ ok content) (disk₂ ∙ disk₁) opened₂ in
      let renamed =
        subst (λ d. finalize_part u.part_name p d ≡ ok v.disk) (disk₂ ∙ disk₁) renamed₂ in
      let same = same_part u.part_name w.disk content info opened found in
      let (moved, found', free, there, gone, _) =
        finalize_part-publishes u.part_name p w.disk v.disk [] renamed (unfold below in refl)
          (unfold below in refl) in
      let one : moved ≡ info = ground arith in
      record {
        content = info.0;
        modified_at = info.1;
        stored = part_info-ok u.part_name w.disk info found;
        free = free;
        there = subst (λ (z : Text × ℕ). v.disk (in_files p) ≡ present (regular z.0 z.1)) one there;
        gone = gone;
        size = size;
        sum = rw same (digest (rw (← same) size));
      }
