-- ===== src/Uploads/Service/Completion/Request.antt =====
-- `Complete` from the request on: what its success means.
use swa_drive.Base.{◌≡◌, sym, ap, subst, ◌∙◌, false, ok, err, arith, inl, inr, Result-cases, Error}
use swa_drive.Base.Text.{Text}
use swa_drive.Platform.{Platform}
use swa_drive.Storage.Path.{LogicalPath, parse_path}
use swa_drive.Storage.Disk.{present, regular, absent}
use swa_drive.Storage.Manager.{in_uploads, in_files}
use swa_drive.Uploads.Model.{Upload, pending, finalizing, completed, status_eq}
use swa_drive.Uploads.Chunks.Tiling.{IsPlanned}
use swa_drive.Uploads.Repository.{find}
use swa_drive.World.{World, ◌>>=◌}
use swa_drive.World.Laws.{after_bind, query-ok, guard-ok}
use swa_drive.Uploads.Service.{Identity}
use swa_drive.Uploads.Service.Completion.{complete, complete_found, publish}
use swa_drive.Uploads.Service.Completion.Publication.{publish-IsPublished, IsPublished}

pub pending-publish :
    (env : Platform) (who : Identity) (u : Upload) (w : World) (p : LogicalPath)
    → u.status ≡ pending
    → parse_path u.target_path false ≡ ok p
    → complete_found env who u w ≡ publish env who u p w
unfolding complete_found ◌>>=◌
pending-publish env who u w p s e =
    let running = ap (λ z. status_eq z completed) s in
    let free = ap (λ z. status_eq z pending) s in
    let fresh = ap (λ z. status_eq z finalizing) s in
    rw (running, complete_found, free, e, ◌>>=◌, fresh)

pub pending-refused :
    (env : Platform) (who : Identity) (u : Upload) (w : World) (f : Error)
    → u.status ≡ pending
    → parse_path u.target_path false ≡ err f
    → complete_found env who u w ≡ (err f, w)
unfolding complete_found ◌>>=◌
pending-refused env who u w f s e =
    let running = ap (λ z. status_eq z completed) s in
    let free = ap (λ z. status_eq z pending) s in rw (running, complete_found, free, e, ◌>>=◌)

found-publish :
    (env : Platform) (who : Identity) (u : Upload) (w : World) {r : Upload} {v : World}
    → u.status ≡ pending
    → complete_found env who u w ≡ (ok r, v)
    → (p : LogicalPath) × (parse_path u.target_path false ≡ ok p)
      × (publish env who u p w ≡ (ok r, v))
found-publish env who u w s h = elim (Result-cases (parse_path u.target_path false)) [
  | inl (p, e) ↦ (p, e, sym (pending-publish env who u w p s e) ∙ h)
  | inr (f, e) ↦ (let refused = pending-refused env who u w f s e in absurd (cc))
]

-- Of the world before, a publication is about the volume only.
IsPublished-disk :
    (env : Platform) (u : Upload) (p : LogicalPath) (w w' v : World)
    → w.disk ≡ w'.disk
    → IsPublished env u p w v
    → IsPublished env u p w' v
IsPublished-disk env u p w w' v e q = record {
  content = q.content;
  modified_at = q.modified_at;
  stored =
      subst (λ d. d (in_uploads u.part_name) ≡ present (regular q.content q.modified_at)) e
        q.stored;
  free = subst (λ d. d (in_files p) ≡ absent) e q.free;
  there = q.there;
  gone = q.gone;
  size = q.size;
  sum = q.sum;
}

-- A completion that succeeds on a pending upload whose sizes are those that `Create` plans: its path
-- parses, and at it the volume has exactly the upload's part, of the announced size and, where one was
-- declared, with the declared checksum; the destination was free and the part is gone.
pub complete-IsPublished :
    (env : Platform) (who : Identity) (id : Text) (u : Upload) (w : World) {r : Upload} {v : World}
    → find who.user_id id w.db ≡ ok u
    → u.status ≡ pending
    → IsPlanned u
    → complete env who id w ≡ (ok r, v)
    → (p : LogicalPath) × (parse_path u.target_path false ≡ ok p) × IsPublished env u p w v
unfolding complete
complete-IsPublished env who id u w {r} {v} found s planned h = after_bind _ _ w h λ _ w₁ owner h₁.
    after_bind _ _ w₁ h₁ λ _ w₂ valid h₂. after_bind _ _ w₂ h₂ λ x w₃ looked h₃.
      let (_, same₂) = guard-ok _ _ w₁ valid in
      let (_, same₁) = guard-ok _ _ w owner in
      let (row, db₃, disk₃) = query-ok (find who.user_id id) w₂ looked in
      let one : x ≡ u = ground arith in
      let disk : w₃.disk ≡ w.disk = cc in
      let same : complete_found env who u w₃ ≡ (ok r, v) =
        subst (λ y. complete_found env who y w₃ ≡ (ok r, v)) one h₃ in
      let (p, parsed, published) = found-publish env who u w₃ s same in
      (
        p,
        parsed,
        IsPublished-disk env u p w₃ w v disk (publish-IsPublished env who u p w₃ planned published),
      )
