-- ===== src/Uploads/Repository/Limit.antt =====
-- No history gives an owner more than the permitted number of active uploads.
use swa_drive.Base.{
  ℕ, ◌≤◌, ◌≡◌, refl, Bool, true, false, List, [], ◌∷◌, ok, arith, inl, inr, Result-cases,
  if◌then◌else◌,
}
use swa_drive.Platform.{Platform}
use swa_drive.Audit.Event.{Event}
use swa_drive.Uploads.Model.{
  Upload, pending, finalizing, completed, cancelled, expired, maximum_active_uploads_per_user,
}
use swa_drive.Uploads.Repository.{
  Db, update_where, active_uploads, is_active, in_status, unfinished, is_upload, set_status,
  set_checked, set_updated, cancel_with_audit, expire_with_audit, create_with_audit, upload_row,
}
use swa_drive.Uploads.Repository.Rows.{
  prepare-rows, reset-rows, finish-rows, complete-rows, record-rows, mark-rows,
}
use swa_drive.Uploads.Repository.Calls.{
  Call, creates, records, prepares, completes, cancels, expires, resets, marks, apply, run,
}

-- An update that makes no row active which was not leaves the count as it was or lower.
module _ (p : Upload → Bool) (f : Upload → Upload)
    (owner : (u : Upload) → (f u).user_id ≡ u.user_id)
    (calm : (u : Upload) → p u ≡ true → is_active (f u) ≡ true → is_active u ≡ true) where
  active_uploads-update_where :
      (user : ℕ) (rows : List Upload)
      → active_uploads user (update_where p f rows).0 ≤ active_uploads user rows
  unfolding active_uploads update_where
  active_uploads-update_where user [] = omega arith
  active_uploads-update_where user (x ∷ xs) =
      ground (arith, active_uploads-update_where user xs, owner x, calm x)

create-limit :
    (u : Upload) (e : Event) (now : ℕ) (db db' : Db) (user : ℕ)
    → active_uploads user db.uploads ≤ maximum_active_uploads_per_user
    → create_with_audit u e now db ≡ ok db'
    → active_uploads user db'.uploads ≤ maximum_active_uploads_per_user
unfolding create_with_audit active_uploads upload_row
create-limit u e now db db' user h a = ground arith

apply-limit :
    (env : Platform) (c : Call) (now : ℕ) (db db' : Db) (user : ℕ)
    → active_uploads user db.uploads ≤ maximum_active_uploads_per_user
    → apply env c now db ≡ ok db'
    → active_uploads user db'.uploads ≤ maximum_active_uploads_per_user
unfolding apply
apply-limit env (creates u e) now db db' user h a = create-limit u e now db db' user h a
apply-limit env (records c) now db db' user h a = rw (record-rows c now db db' a) (
    omega (
      arith,
      active_uploads-update_where (is_upload c.upload_id) (set_updated now) (λ u. refl) (λ u e k. k)
          user db.uploads,
    ))
apply-limit env (prepares who it again sha) now db db' user h a =
    let from = if again then finalizing else pending in
    rw (prepare-rows who it from sha now db db' a) (
      omega (
        arith,
        active_uploads-update_where (in_status who it from) (set_checked finalizing sha now)
            (λ u. refl) (λ u e k. ground arith) user db.uploads,
      ))
apply-limit env (completes who it entry e) now db db' user h a =
    rw (complete-rows env who it now entry e db db' a) (
      omega (
        arith,
        active_uploads-update_where (in_status who it finalizing)
            (set_checked completed entry.whole_sha256 now) (λ u. refl) (λ u e k. cc) user
            db.uploads,
      ))
apply-limit env (cancels who it e) now db db' user h a =
    rw (finish-rows who it cancelled now false e db db' (unfold cancel_with_audit in a)) (
      omega (
        arith,
        active_uploads-update_where (unfinished who it false now) (set_status cancelled now)
            (λ u. refl) (λ u e k. cc) user db.uploads,
      ))
apply-limit env (expires who it e) now db db' user h a =
    rw (finish-rows who it expired now true e db db' (unfold expire_with_audit in a)) (
      omega (
        arith,
        active_uploads-update_where (unfinished who it true now) (set_status expired now)
            (λ u. refl) (λ u e k. cc) user db.uploads,
      ))
apply-limit env (resets who it) now db db' user h a = rw (reset-rows who it now db db' a) (
    omega (
      arith,
      active_uploads-update_where (in_status who it finalizing) (set_status pending now) (λ u. refl)
          (λ u e k. ground arith) user db.uploads,
    ))
apply-limit env (marks reason) now db db' user h a = rw (mark-rows reason db db' a) h

-- After any history of calls no owner has more than 100 pending or finalizing uploads, if none had
-- before it.
pub run-limit :
    (env : Platform) (cs : List (ℕ × Call)) (db : Db) (user : ℕ)
    → active_uploads user db.uploads ≤ 100
    → active_uploads user (run env cs db).uploads ≤ 100
unfolding run
run-limit env [] db user h = h
run-limit env ((now, c) ∷ cs) db user h = elim (Result-cases (apply env c now db)) [
  | inl (db', a) ↦ rw (a, run) (run-limit env cs db' user (apply-limit env c now db db' user h a))
  | inr (f, a) ↦ rw (a, run) (run-limit env cs db user h)
]
