-- ===== src/Uploads/Service/Completion/Overlong.antt =====
-- A name that `Create` accepts and no `Complete` can book: longer than 255 bytes in lower case.
use swa_drive.Base.{
  ℕ, ◌≡◌, refl, sym, ap, subst, ◌∙◌, ◌<◌, Bool, false, ◌||◌, upload_state, List, [], Result, ok,
  err, arith, inl, inr, Result-cases, Bool-cases, ◌==◌, length, Error, chunk_length, errors_join,
  if◌then◌else◌,
}
use swa_drive.Base.Text.{Text, codes}
use swa_drive.Platform.{Platform}
use swa_drive.Storage.Path.{LogicalPath, parse_path}
use swa_drive.Storage.Path.Containment.{parse_path-ok}
use swa_drive.Storage.Manager.{PublicationState, open_download}
use swa_drive.Files.Index.{Kind, file, new_entry, base_name}
use swa_drive.Uploads.Model.{Upload, pending, finalizing, completed, status_eq}
use swa_drive.Uploads.Repository.{reset_finalizing}
use swa_drive.World.{World, M, pure, ◌>>=◌, raise_joined, guard, lift, transact, raise, inspect}
use swa_drive.World.Laws.{bind-ok, if_taken, lift-ok, checked-ok}
use swa_drive.Uploads.Service.{Identity, record_security_failure}
use swa_drive.Uploads.Service.Completion.{
  after_rename, after_verification, complete_finalizing, complete_found, complete_published,
  complete_recovered, ensure_published_checksum, publish, publish_measured, publish_part,
  verify_then_publish,
}

-- A method that never succeeds.
abbrev Fails : {A : Type 0} → M A → Type 0
Fails m = (w : World) → (f : Error) × ((m w).0 ≡ err f)

failing_after :
    {A B : Type 0} (m : M A) (f : A → M B)
    → ((a : A) (w v : World) → m w ≡ (ok a, v) → (e : Error) × ((f a v).0 ≡ err e))
    → Fails (m >>= f)
unfolding ◌>>=◌
failing_after {A = A} m f k w = elim (Result-cases (m w).0) [
  | inl (a, s) ↦ rw (s, ◌>>=◌) (k a w (m w).1 (ap (λ (z : Result A). (z, (m w).1)) s))
  | inr (e, s) ↦ rw (s, ◌>>=◌) (e, refl)
]

bind-Fails : {A B : Type 0} (m : M A) (f : A → M B) → ((a : A) → Fails (f a)) → Fails (m >>= f)
bind-Fails m f k = failing_after m f λ a w v s. k a v

first-Fails : {A B : Type 0} (m : M A) (f : A → M B) → Fails m → Fails (m >>= f)
first-Fails m f k = failing_after m f λ a w v s. absurd (let (e, bad) = k w in cc)

if-Fails : {A : Type 0} (b : Bool) (m n : M A) → Fails m → Fails n → Fails (if b then m else n)
if-Fails b m n k l w = elim (Bool-cases b) [ inl e ↦ rw e (k w) | inr e ↦ rw e (l w) ]

raise_joined-Fails : {A B : Type 0} (e : Error) (m : M A) → Fails (raise_joined {B = B} e m)
raise_joined-Fails e m w = (errors_join e (m w).0, refl)

module _ (env : Platform) where
  pub new_entry-fails :
      (p : LogicalPath) (k : Kind) (size m t : ℕ) (sum : Text)
      → 255 < length (env.to_lower (base_name p.value))
      → (f : Error) × (new_entry env p k size m t sum ≡ err f)
  unfolding new_entry
  new_entry-fails p k size m t sum over = elim (Result-cases (new_entry env p k size m t sum)) [
    | inl (e, s) ↦ absurd (ground arith)
    | inr refused ↦ refused
  ]

  module _ (who : Identity) (u : Upload)
      (over : 255 < length (env.to_lower (base_name u.target_path))) where
    pub complete_published-Fails :
        (v : Upload) (m t : ℕ) (md : List (Text × Text))
        → v.target_path ≡ u.target_path
        → Fails (complete_published env v who m t md)
    unfolding complete_published
    complete_published-Fails v m t md same = bind-Fails _ _ λ _. failing_after _ _ λ p w w1 parsed.
        let place = (parse_path-ok v.target_path false p (lift-ok _ w parsed).0).0 in
        let name : 255 < length (env.to_lower (base_name p.value)) =
          subst (λ z. 255 < length (env.to_lower (base_name z))) (sym (place ∙ same)) over in
        let (f, refused) = new_entry-fails p file v.total_size m t v.whole_sha256 name in
        first-Fails (lift (new_entry env p file v.total_size m t v.whole_sha256)) _
          (λ _. (f, refused)) w1

    after_rename-Fails :
        (sum : Text) (m t : ℕ) (r : Result (Unit {0})) → Fails (after_rename env who u sum m t r)
    unfolding after_rename
    after_rename-Fails sum m t (ok _) =
        first-Fails _ _ (complete_published-Fails (record u { whole_sha256 = sum }) m t [] refl)
    after_rename-Fails sum m t (err f) =
        if-Fails (status_eq u.status pending) _ (raise f)
          (raise_joined-Fails f (transact (λ _. reset_finalizing u.user_id u.id t)))
          (λ w. (f, refl))

    after_verification-Fails :
        (p : LogicalPath) (m : ℕ) (r : Result Text) → Fails (after_verification env who u p m r)
    unfolding after_verification publish_part
    after_verification-Fails p m (err f) =
        raise_joined-Fails f (record_security_failure who u.id (codes "whole_file_integrity"))
    after_verification-Fails p m (ok sum) =
        bind-Fails _ _ λ t. bind-Fails _ _ λ _. bind-Fails _ _ (after_rename-Fails sum m t)

    publish-Fails : (p : LogicalPath) → Fails (publish env who u p)
    unfolding publish publish_measured verify_then_publish
    publish-Fails p = bind-Fails _ _ λ _. bind-Fails _ _ λ info.
        if-Fails _ _ _ (bind-Fails _ _ (after_verification-Fails p info.1))
          (raise_joined-Fails chunk_length (record_security_failure who u.id (codes "part_size")))

    ensured-path :
        (p : LogicalPath) (w : World) {c : Upload} {v : World}
        → ensure_published_checksum env u p w ≡ (ok c, v)
        → c.target_path ≡ u.target_path
    unfolding ensure_published_checksum
    ensured-path p w {c = c} h = elim (if_taken (length u.whole_sha256 == 32) (pure u) _ w h) [
      | inl (_, k) ↦ (let one : u ≡ c = cc in ap (λ (z : Upload). z.target_path) (sym one))
      | inr (_, k) ↦
          (let (read, w1, _, k1) = bind-ok (inspect (open_download p)) _ w k in
            let (_, k2) = checked-ok (length read.0 == u.total_size) chunk_length _ w1 k1 in
            ground arith)
    ]

    complete_recovered-Fails :
        (p : LogicalPath) (state : PublicationState) → Fails (complete_recovered env who u p state)
    unfolding complete_recovered
    complete_recovered-Fails p state = bind-Fails _ _ λ t. bind-Fails _ _ λ _.
        failing_after _ _ λ c w v ensured.
          first-Fails _ _
            (complete_published-Fails c state.destination_modified_at t []
              (ensured-path p w ensured))
            v

    complete_finalizing-Fails : (p : LogicalPath) → Fails (complete_finalizing env who u p)
    unfolding complete_finalizing
    complete_finalizing-Fails p = bind-Fails _ _ λ state.
        if-Fails _ _ _ (complete_recovered-Fails p state) (bind-Fails _ _ λ _. publish-Fails p)

    pub complete_found-Fails :
        status_eq u.status completed ≡ false → Fails (complete_found env who u)
    unfolding complete_found
    complete_found-Fails open_still w =
        rw (open_still, complete_found)
          (bind-Fails
            (guard (status_eq u.status pending || status_eq u.status finalizing) upload_state)
            (λ _. lift (parse_path u.target_path false) >>= λ p.
              if status_eq u.status finalizing
              then complete_finalizing env who u p
              else publish env who u p)
            (λ _.
              bind-Fails _ _ λ p. if-Fails _ _ _ (complete_finalizing-Fails p) (publish-Fails p))
            w)
