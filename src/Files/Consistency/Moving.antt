-- ===== src/Files/Consistency/Moving.antt =====
-- `Move` fails closed.
use swa_drive.Base.{ℕ, ◌≡◌, refl, sym, ap, ◌∙◌, false, ok, arith, inl, inr, Result-cases}
use swa_drive.Base.Text.{Text}
use swa_drive.Platform.{Platform}
use swa_drive.Storage.Path.{LogicalPath, parse_path}
use swa_drive.Storage.Disk.{Disk, absent, rename}
use swa_drive.Storage.Manager
use swa_drive.Audit.Event.{Event}
use swa_drive.Auth.Model.{Identity}
use swa_drive.Database.{Db}
use swa_drive.Files.Index.{Index, clear_health_reason}
use swa_drive.Files.Subtree.{move_subtree}
use swa_drive.Files.Repository.{move_subtree_with_audit}
use swa_drive.Files.Agreement.{
  IsTree, Consistent, file_at, move-Consistent, move-inv, nonempty_name,
}
use swa_drive.Files.Consistency.{
  IsFaithful, IsMarked, Consistent-at, rename-back, announced_end, abort_mutation-IsFaithful,
  compensate-IsFaithful, file_event_end,
}
use swa_drive.Files.Service.{move_file, after_move, after_move_booked, move_mutation_reason}
use swa_drive.World.{World}
use swa_drive.World.Ends.{guard_end, lift_end, attempt_transact_end}

pub renamed_files :
    (s t : LogicalPath) (d d' : Disk)
    → Manager.move s t d ≡ ok d'
    → (d (file_at t.value) ≡ absent) × (d' ≡ rename (file_at s.value) (file_at t.value) d)
renamed_files s t d d' moved =
    let (free, same, named_t, named_s, _) = move-inv s t d d' moved in
    let at_t = nonempty_name t named_t in
    let at_s = nonempty_name s named_s in (ap d (sym at_t) ∙ free, cc)

-- A move and the move back leave every name below the files' directory as it was.
move-back :
    (s t : LogicalPath) (d d' d'' : Disk) (q : Text)
    → IsTree d
    → Manager.move s t d ≡ ok d'
    → Manager.move t s d' ≡ ok d''
    → d'' (file_at q) ≡ d (file_at q)
move-back s t d d' d'' q tree there back =
    let (free, a) = renamed_files s t d d' there in
    let (_, b) = renamed_files t s d' d'' back in
    ap (λ z. z (file_at q)) (b ∙ ap (rename (file_at t.value) (file_at s.value)) a)
    ∙ rename-back s.value t.value q d tree free

pub move_booked-inv :
    (env : Platform) (source destination : Text) (e : Event) (reason : Text) (t : ℕ) (db db' : Db)
    → move_subtree_with_audit env source destination e reason t db ≡ ok db'
    → (i : Index) × (move_subtree env source destination reason db.index ≡ ok i)
      × (db'.index.entries ≡ i.entries)
      × (db'.index.active_generation ≡ i.active_generation)
unfolding move_subtree_with_audit clear_health_reason
move_booked-inv env source destination e reason t db db' h =
    elim (Result-cases (move_subtree env source destination reason db.index)) [
      | inl (i, f) ↦ (i, f, ground arith, ground arith)
      | inr (g, f) ↦ absurd (ground arith)
    ]

module _ (env : Platform) (s t : LogicalPath) (d : Disk) (tree : IsTree d) where
  after_move-IsFaithful :
      (who : Identity) (w : World)
      → Consistent d w.db.index
      → IsMarked move_mutation_reason w
      → Manager.move s t d ≡ ok w.disk
      → IsFaithful (after_move env who s t (ok tt) w).1
  unfolding after_move after_move_booked
  after_move-IsFaithful who w h marked moved =
      file_event_end who _ _ _ _ _ _ IsFaithful w _ λ e v same.
        attempt_transact_end IsFaithful v
          (move_subtree_with_audit env s.value t.value e move_mutation_reason) _
          (λ f u kept.
            compensate-IsFaithful (Unit {0}) (Manager.move t s) move_mutation_reason f u
              (ap (λ z. z.index.unhealthy) (kept.0 ∙ same.0) ∙ marked)
              (λ d'' back.
                Consistent-at d d'' w.db.index u.db.index
                  (λ q.
                    move-back s t d u.disk d'' q tree (moved ∙ ap ok (sym (kept.1 ∙ same.1))) back)
                  (ap (λ z. z.index.entries) (kept.0 ∙ same.0))
                  (ap (λ z. z.index.active_generation) (kept.0 ∙ same.0)) h))
          (λ n u booked kept.
            let (i, indexed, entries, generation) =
              move_booked-inv env s.value t.value e move_mutation_reason n v.db u.db booked in
            λ _.
              Consistent-at u.disk u.disk i u.db.index (λ q. refl) entries generation
                (move-Consistent env s t move_mutation_reason d u.disk w.db.index i tree h
                  (moved ∙ ap ok (sym (kept ∙ same.1)))
                  (ap (λ z. move_subtree env s.value t.value move_mutation_reason z.index)
                      (sym same.0)
                    ∙ indexed)))

-- However `Move` ends, with success, with an error, or with the driver, the system or the context
-- failing at any call: if the index is healthy then, it shows under every path the kind and the size of
-- what the volume has there. This holds if it did so before, and if nothing is below a name that is
-- free.
pub move_file-IsFaithful :
    (env : Platform) (who : Identity) (source destination : Text) (w : World)
    → IsTree w.disk
    → IsFaithful w
    → IsFaithful (move_file env who source destination w).1
unfolding move_file after_move
move_file-IsFaithful env who source destination w tree before =
    guard_end IsFaithful w _ _ _ before λ _.
      lift_end IsFaithful w (parse_path source false) _ before λ s _.
        lift_end IsFaithful w (parse_path destination false) _ before λ t _.
          announced_end (Unit {0}) move_mutation_reason (Manager.move s t)
            (λ _. after_move env who s t) w before
            (λ _ e v h marked.
              abort_mutation-IsFaithful (Unit {0}) move_mutation_reason e v h marked)
            (λ _ v moved h marked. after_move-IsFaithful env s t w.disk tree who v h marked moved)
