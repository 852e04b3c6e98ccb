-- ===== src/Uploads/Service/Recovery/Frame.antt =====
-- Recovery repairs the records, never the volume.
use swa_drive.Base.{
  ℕ, zero, suc, ◌≡◌, refl, false, not, ◌&&◌, List, [], ◌∷◌, Result, ok, err, inl, inr, Bool-cases,
  ◌==◌, length, ltb, errors_is,
}
use swa_drive.Base.Text.{Text}
use swa_drive.Platform.{Platform}
use swa_drive.Storage.Path.{LogicalPath, parse_path}
use swa_drive.Storage.Manager.{PublicationState}
use swa_drive.Uploads.Model.{Upload, finalizing, status_eq}
use swa_drive.World.{World}
use swa_drive.World.Frame.{
  Keeps, bind-Keeps, disk_of, now-disk, query-disk, inspect-disk, transact_frame,
}
use swa_drive.Uploads.Service.Completion.{
  mark_unhealthy, validate_published_state, ensure_published_checksum,
}
use swa_drive.Uploads.Service.Completion.Publication.{complete_published-disk}
use swa_drive.Uploads.Service.Recovery.{
  reconcile_published, reconcile_state, reconcile_parsed, reconcile_found, found_or,
  reconcile_finalizing_upload, reconcile_page, reconcile_rounds, reconcile_finalizing,
  is_upload_not_found,
}

validate-disk : (u : Upload) (s : PublicationState) → Keeps disk_of (validate_published_state u s)
unfolding validate_published_state mark_unhealthy
validate-disk u s w =
    elim (Bool-cases (s.destination_exists && s.destination_size == u.total_size)) [
      | inl e ↦ rw (e, validate_published_state)
      | inr e ↦ rw (e, validate_published_state) (transact_frame _ w)
    ]

module _ (env : Platform) where
  ensure-disk : (u : Upload) (p : LogicalPath) → Keeps disk_of (ensure_published_checksum env u p)
  unfolding ensure_published_checksum
  ensure-disk u p w = elim (Bool-cases (length u.whole_sha256 == 32)) [
    | inl e ↦ rw (e, ensure_published_checksum)
    | inr e ↦
        rw (e, ensure_published_checksum)
          (bind-Keeps disk_of _ _ (inspect-disk _)
            (λ found. bind-Keeps disk_of _ _ (λ w. refl) (λ _ w. refl)) w)
  ]

  state-disk :
      (u : Upload) (p : LogicalPath) (s : PublicationState) (t : ℕ)
      → Keeps disk_of (reconcile_state env u p s t)
  unfolding reconcile_state reconcile_published mark_unhealthy
  state-disk u p s t w = elim (Bool-cases (s.part_exists && not s.destination_exists)) [
    | inl e ↦ rw (e, reconcile_state) (transact_frame _ w)
    | inr e ↦ elim (Bool-cases (not s.part_exists && s.destination_exists)) [
      | inl f ↦
          rw (e, reconcile_state, f)
            (bind-Keeps disk_of _ _ (validate-disk u s)
              (λ _.
                bind-Keeps disk_of _ _ (ensure-disk u p)
                  (λ checked. complete_published-disk env checked _ _ t _))
              w)
      | inr f ↦ rw (e, reconcile_state, f) (transact_frame _ w)
    ]
  ]

  parsed-disk : (u : Upload) (r : Result LogicalPath) → Keeps disk_of (reconcile_parsed env u r)
  unfolding reconcile_parsed
  parsed-disk u (err f) = λ w. refl
  parsed-disk u (ok p) =
      bind-Keeps disk_of _ _ (inspect-disk _)
        λ s. bind-Keeps disk_of _ _ now-disk (state-disk u p s)

  found-disk : (u : Upload) → Keeps disk_of (reconcile_found env u)
  unfolding reconcile_found
  found-disk u w = elim (Bool-cases (status_eq u.status finalizing)) [
    | inl e ↦ rw (e, reconcile_found) (parsed-disk u (parse_path u.target_path false) w)
    | inr e ↦ rw (e, reconcile_found)
  ]

  found_or-disk : (r : Result Upload) → Keeps disk_of (found_or env r)
  unfolding found_or
  found_or-disk (ok u) w = found-disk u w
  found_or-disk (err f) w = elim (Bool-cases (errors_is is_upload_not_found f)) [
    | inl e ↦ rw (e, found_or)
    | inr e ↦ rw (e, found_or)
  ]

  upload-disk : (user : ℕ) (id : Text) → Keeps disk_of (reconcile_finalizing_upload env user id)
  unfolding reconcile_finalizing_upload
  upload-disk user id = bind-Keeps disk_of _ _ (λ w. query-disk _ w) found_or-disk

  page-disk : (us : List Upload) (n : ℕ) → Keeps disk_of (reconcile_page env us n)
  unfolding reconcile_page
  page-disk [] n = λ w. refl
  page-disk (u ∷ us) n =
      bind-Keeps disk_of _ _ (upload-disk u.user_id u.id) (λ _. page-disk us (suc n))

  rounds-disk : (k n : ℕ) → Keeps disk_of (reconcile_rounds env k n)
  unfolding reconcile_rounds
  rounds-disk zero n =
      bind-Keeps disk_of _ _ (query-disk _) (λ us. bind-Keeps disk_of _ _ (λ w. refl) (λ _ w. refl))
  rounds-disk (suc k) n = bind-Keeps disk_of _ _ (query-disk _) λ us.
      bind-Keeps disk_of _ _ (page-disk us n) λ done w. elim (Bool-cases (ltb (length us) 100)) [
        | inl e ↦ rw e
        | inr e ↦ rw e (rounds-disk k done w)
      ]

-- Whatever the database and the volume hold, and whatever fails on the way, a run of the recovery of
-- finalizing uploads leaves every name of the volume as it was.
pub reconcile_finalizing-disk :
    (env : Platform) (w : World) → (reconcile_finalizing env w).1.disk ≡ w.disk
unfolding reconcile_finalizing
reconcile_finalizing-disk env w = rounds-disk env 10 0 w
