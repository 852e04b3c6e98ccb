-- ===== src/Files/Consistency/Trashing.antt =====
-- `Trash` fails closed.
use swa_drive.Base.{
  ℕ, ◌≡◌, refl, sym, ap, ◌∙◌, false, Option, none, some, [], ◌∷◌, Result, ok, err, Error, some_eq,
  arith, ◌==◌, length,
}
use swa_drive.Base.Text.{Text}
use swa_drive.Storage.Path.{LogicalPath, parse_path}
use swa_drive.Storage.Disk.{Disk, rename}
use swa_drive.Storage.Manager.{move_to_trash, in_trash}
use swa_drive.Audit.Event.{Event}
use swa_drive.Auth.Model.{Identity}
use swa_drive.Files.Index.{mark_unhealthy}
use swa_drive.Files.Subtree.{hide_subtree}
use swa_drive.Files.Trash.{TrashEntry, trashing, find_trash}
use swa_drive.Files.Repository.{prepare_trash, commit_trash_with_audit, trash_health_reason}
use swa_drive.Files.Agreement.{file_at}
use swa_drive.Files.Consistency.{IsFaithful, IsFaithful-same, Consistent-at, file_event_end}
use swa_drive.Files.Service.{random_id}
use swa_drive.Base.Hex.{encode_hex}
use swa_drive.Files.Service.Trashing.{
  trash_file, after_trashing, after_commit, mark_index_unhealthy_for,
}
use swa_drive.World.{World, ◌>>=◌, attempt, change, transact}
use swa_drive.World.Ends.{
  SameState, now_end, guard_end, lift_end, transact_end, transact_last, attempt_transact_end,
  attempt_change_end,
}
use swa_drive.Files.Consistency.Accounting.{
  IsAccounted, IsAccounted-same, trashed-inv, hidden-Consistent, commit_trash-inv,
  generation_for_repair-ok, clear_health_reason-same, prepared, IsOnItsWay, waiting-IsAccounted,
  prepare_trash-inv, abort_trash-index, on_index-trash, found_first,
}

module _ (e : TrashEntry) (p : LogicalPath) (named : (length e.id == 0) ≡ false)
    (at_p : e.original_path ≡ p.value) (d : Disk) where
  booked-Consistent :
      (updated t : ℕ) (event : Event) (w v : World)
      → IsOnItsWay e d w
      → move_to_trash p e.id d ≡ ok w.disk
      → commit_trash_with_audit e.user_id e.id updated event t w.db ≡ ok v.db
      → v.disk ≡ w.disk
      → IsAccounted v
  booked-Consistent updated t event w v ((rows, first), agrees) moved booked kept healthy settled =
      let (entry, g, i, found, active, hidden, new) =
        commit_trash-inv e.user_id e.id updated t event w.db v.db booked in
      let it : entry ≡ prepared e =
        some_eq (sym found ∙ ap (find_trash e.user_id e.id trashing) first ∙ found_first e rows) in
      let at_path : hide_subtree g p.value e.id w.db.index ≡ ok i =
        ap (λ z. hide_subtree g z e.id w.db.index) (sym (ap (λ z. z.original_path) it ∙ at_p))
        ∙ hidden in
      let generation = generation_for_repair-ok (trash_health_reason e.id) w.db.index g active in
      let volume : v.disk ≡ rename (file_at p.value) (in_trash e.id) d =
        kept ∙ trashed-inv p e.id d w.disk moved in
      let (entries, same) = clear_health_reason-same (trash_health_reason e.id) i in
      Consistent-at (rename (file_at p.value) (in_trash e.id) d) v.disk i v.db.index
        (λ q. ap (λ z. z (file_at q)) volume) (ap (λ z. z.entries) new ∙ entries)
        (ap (λ z. z.active_generation) new ∙ same)
        (hidden-Consistent g p.value e.id e.id d w.db.index i named generation agrees at_path)

  way_same : (w v : World) → SameState w v → IsOnItsWay e d w → IsOnItsWay e d v
  way_same w v (a, b) ((rows, first), agrees) = (
    (rows, ap (λ z. z.trash) a ∙ first),
    Consistent-at d d w.db.index v.db.index (λ q. refl) (ap (λ z. z.index.entries) a)
        (ap (λ z. z.index.active_generation) a) agrees,
  )

  marked-IsAccounted :
      (reason : Text) (w : World)
      → IsOnItsWay e d w
      → IsAccounted (mark_index_unhealthy_for reason w).1
  unfolding mark_index_unhealthy_for
  marked-IsAccounted reason w ((rows, first), _) = now_end IsAccounted w _ λ t v same.
      let still = ap (λ z. z.trash) same.0 ∙ first in
      transact_last IsAccounted v _
        (λ u k. waiting-IsAccounted e rows u (ap (λ z. z.trash) k.0 ∙ still))
        (λ n u done _.
          waiting-IsAccounted e rows u
            (on_index-trash (mark_unhealthy reason) v.db u.db done ∙ still))

  after_trashing-IsAccounted :
      (who : Identity) (r : Result (Unit {0})) (w : World)
      → IsOnItsWay e d w
      → (r ≡ ok tt → move_to_trash p e.id d ≡ ok w.disk)
      → ((f : Error) → r ≡ err f → w.disk ≡ d)
      → IsAccounted (after_trashing who e r w).1
  unfolding after_trashing after_commit
  after_trashing-IsAccounted who (ok tt) w way moved _ =
      file_event_end who _ _ _ _ _ _ IsAccounted w _ λ event v same.
        attempt_transact_end IsAccounted v
          (λ t. commit_trash_with_audit e.user_id e.id e.updated_at event t) (after_commit e)
          (λ f u kept.
            marked-IsAccounted (trash_health_reason e.id) u
              (way_same v u kept (way_same w v same way)))
          (λ n u booked kept.
            booked-Consistent e.updated_at n event v u (way_same w v same way)
              (moved refl ∙ ap ok (sym same.1)) booked kept)
  after_trashing-IsAccounted who (err f) w way _ kept =
      transact_last IsAccounted w _
        (λ v same. waiting-IsAccounted e way.0.0 v (ap (λ z. z.trash) same.0 ∙ way.0.1))
        (λ n v undone same.
          let index = abort_trash-index e.user_id e.id w.db v.db undone in
          λ _ _.
            Consistent-at d v.disk w.db.index v.db.index
              (λ q. ap (λ z. z (file_at q)) (same ∙ kept f refl)) (ap (λ z. z.entries) index)
              (ap (λ z. z.active_generation) index) way.1)

random_id-named :
    (random : Option Text) (id : Text)
    → ((bytes : Text) → random ≡ some bytes → length bytes ≡ 16)
    → random_id random ≡ ok id
    → (length id == 0) ≡ false
unfolding random_id encode_hex
random_id-named none id sixteen h = cc
random_id-named (some []) id sixteen h = absurd (ground (arith, sixteen [] refl))
random_id-named (some (b ∷ bs)) id sixteen h = ground arith

-- From the row on.
prepared_end :
    (who : Identity) (e : TrashEntry) (p : LogicalPath) (w : World)
    → (length e.id == 0) ≡ false
    → e.original_path ≡ p.value
    → IsFaithful w
    → IsAccounted
        ((transact (λ _. prepare_trash e) >>= λ _.
            (attempt (change (move_to_trash p e.id)) >>= after_trashing who e))
          w).1
prepared_end who e p w named at_p before =
    transact_end IsAccounted w (λ _. prepare_trash e) _
      (λ v same. IsAccounted-same w v same (λ healthy _. before healthy))
      (λ n v done kept.
        let (first, index, healthy) = prepare_trash-inv e w.db v.db done in
        let way : IsOnItsWay e w.disk v = (
          (w.db.trash, first),
          Consistent-at w.disk w.disk w.db.index v.db.index (λ q. refl) (ap (λ z. z.entries) index)
              (ap (λ z. z.active_generation) index) (before healthy),
        ) in
        attempt_change_end IsAccounted v (move_to_trash p e.id) (after_trashing who e)
          (λ f u same.
            after_trashing-IsAccounted e p named at_p w.disk who (err f) u
              (way_same e p named at_p w.disk v u same way) (λ no. absurd (ground arith))
              (λ _ _. same.1 ∙ kept))
          (λ u moved same.
            let still : IsOnItsWay e w.disk u = (
              (w.db.trash, ap (λ z. z.trash) same ∙ first),
              Consistent-at w.disk w.disk v.db.index u.db.index (λ q. refl)
                  (ap (λ z. z.index.entries) same) (ap (λ z. z.index.active_generation) same) way.1,
            ) in
            after_trashing-IsAccounted e p named at_p w.disk who (ok tt) u still
              (λ _. ap (move_to_trash p e.id) (sym kept) ∙ moved) (λ f no. absurd (ground arith))))

-- However `Trash` ends, with success, with an error, or with the driver, the system or the context
-- failing at any call: if the index is healthy then and no trash entry waits for its reconciliation, the
-- index shows under every path the kind and the size of what the volume has there. This holds if it did
-- so before, whether one waited or not, and `rand.Read` gives 16 bytes or fails.
pub trash_file-IsAccounted :
    (who : Identity) (value : Text) (random : Option Text) (w : World)
    → ((bytes : Text) → random ≡ some bytes → length bytes ≡ 16)
    → IsFaithful w
    → IsAccounted (trash_file who value random w).1
unfolding trash_file
trash_file-IsAccounted who value random w sixteen before =
    let begin : IsAccounted w = λ healthy _. before healthy in
    guard_end IsAccounted w _ _ _ begin λ _.
      lift_end IsAccounted w (parse_path value false) _ begin λ p _.
        lift_end IsAccounted w (random_id random) _ begin λ id named.
          now_end IsAccounted w _ λ t v same. now_end IsAccounted v _ λ u v2 same2.
            prepared_end who _ p v2 (random_id-named random id sixteen named) refl
              (IsFaithful-same w v2 (same2.0 ∙ same.0) (same2.1 ∙ same.1) before)
