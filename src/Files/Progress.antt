-- ===== src/Files/Progress.antt =====
-- A `Move` that nothing stands against succeeds.
use swa_drive.Base.{
  ℕ, ◌≡◌, refl, ap, ◌∙◌, true, false, none, some, List, [], ok, err, arith, if◌then◌else◌,
  owner_required,
}
use swa_drive.Base.Text.{Text, codes}
use swa_drive.Platform.{Platform}
use swa_drive.Storage.Path.{LogicalPath, parse_path}
use swa_drive.Storage.Disk.{Disk}
use swa_drive.Storage.Manager
use swa_drive.Audit.Event.{Event, StoredEvent, append_in_transaction}
use swa_drive.Auth.Model.{Identity, is_owner}
use swa_drive.Database.{Db}
use swa_drive.Files.Index.{Index, begin_mutation, clear_health_reason}
use swa_drive.Files.Subtree.{move_subtree}
use swa_drive.Files.Repository.{on_index, move_subtree_with_audit}
use swa_drive.Files.Service.{
  move_file, after_move, after_move_booked, move_mutation_reason, file_event, file_event_at,
}
use swa_drive.World.{World, ◌>>◌, attempt, guard, lift, now, fallible, transact, change}
use swa_drive.World.Running.{attempt-Runs, bind_value, now-Runs, transact-Runs, change-Runs}

abbrev pub announced : Db → Db
announced db = record db { index = record db.index { unhealthy = some move_mutation_reason } }

begun :
    (g : ℕ) (db : Db)
    → db.index.active_generation ≡ some g
    → db.index.unhealthy ≡ none
    → on_index (begin_mutation move_mutation_reason) db ≡ ok (announced db)
unfolding on_index begin_mutation
begun g db a b = ground arith

-- The tables after the move.
abbrev booked : Db → Index → List StoredEvent → Db
booked db i events = record (announced db) {
  index = clear_health_reason move_mutation_reason i;
  events = events;
}

move_booked :
    (env : Platform) (s t : Text) (e : Event) (now : ℕ) (db : Db) (i : Index)
    (events : List StoredEvent)
    → move_subtree env s t move_mutation_reason (announced db).index ≡ ok i
    → append_in_transaction e now db.events ≡ ok events
    → move_subtree_with_audit env s t e move_mutation_reason now (announced db)
      ≡ ok (booked db i events)
unfolding move_subtree_with_audit
move_booked env s t e now db i events a b = rw (a, b) refl

-- A `Move` of an owner between two valid paths succeeds: where no call fails, the index is healthy with
-- an active generation, the volume allows the move and the index that of the subtree, and the audit log
-- takes the event, whatever the clock says.
pub move_file-succeeds :
    (env : Platform) (who : Identity) (source destination : Text) (w : World) {s t : LogicalPath}
    {g : ℕ} {disk : Disk} {i : Index}
    → w.faults ≡ []
    → is_owner who.role ≡ true
    → parse_path source false ≡ ok s
    → parse_path destination false ≡ ok t
    → w.db.index.active_generation ≡ some g
    → w.db.index.unhealthy ≡ none
    → Manager.move s t w.disk ≡ ok disk
    → move_subtree env s.value t.value move_mutation_reason (announced w.db).index ≡ ok i
    → ((at now : ℕ)
        → (events : List StoredEvent) × (append_in_transaction
              (file_event_at who (codes "files.moved") (codes "file") [] s.value t.value [] at)
              now
              w.db.events
            ≡ ok events))
    → (v : World) × (move_file env who source destination w ≡ (ok tt, v))
unfolding move_file after_move after_move_booked file_event
move_file-succeeds env who source destination w {s = s} {t = t} {i = i} calm owner source_ok
      destination_ok active healthy moved indexed logged =
    let (n, (w1, timed, db1, disk1, calm1)) = now-Runs w calm in
    let (w2, announced_ok, db2, disk2, calm2) =
      transact-Runs (λ _. on_index (begin_mutation move_mutation_reason)) w1 {db = announced w.db}
        calm1
        (ap (on_index (begin_mutation move_mutation_reason)) db1 ∙ begun _ w.db active healthy) in
    let (w3, changed, db3, disk3, calm3) =
      attempt-Runs (fallible >> change (Manager.move s t)) w2
        (change-Runs (Manager.move s t) w2 calm2 (ap (Manager.move s t) (disk2 ∙ disk1) ∙ moved)) in
    let (at, (w4, timed4, db4, disk4, calm4)) = now-Runs w3 calm3 in
    let (events, taken) = logged at w4.clock in
    let e : Event =
      file_event_at who (codes "files.moved") (codes "file") [] s.value t.value [] at in
    let (w5, stored, db5, disk5, calm5) =
      attempt-Runs (transact (move_subtree_with_audit env s.value t.value e move_mutation_reason))
        w4
        (transact-Runs (move_subtree_with_audit env s.value t.value e move_mutation_reason) w4
          {db = booked w.db i events} calm4
          (ap (λ d. move_subtree_with_audit env s.value t.value e move_mutation_reason w4.clock d)
              (db4 ∙ db3 ∙ db2)
            ∙ move_booked env s.value t.value e w4.clock w.db i events indexed taken)) in
    let finished : after_move env who s t (ok tt) w3 ≡ (ok tt, w5) =
      bind_value (file_event who _ _ _ _ _ _) _ w3 (bind_value now _ w3 timed4 refl) (
        bind_value
          (attempt (transact (move_subtree_with_audit env s.value t.value e move_mutation_reason)))
          (after_move_booked env s t) w4 stored refl) in
    let from_now = bind_value now _ w timed (
      bind_value (transact (λ _. on_index (begin_mutation move_mutation_reason))) _ w1 announced_ok
        (bind_value (attempt (fallible >> change (Manager.move s t))) (after_move env who s t) w2
          changed finished)) in
    (
      w5,
      bind_value (guard (is_owner who.role) owner_required) _ w
          (ap (λ b. (if b then ok tt else err owner_required, w)) owner)
          (bind_value (lift (parse_path source false)) _ w (ap (λ r. (r, w)) source_ok) (
            bind_value (lift (parse_path destination false)) _ w (ap (λ r. (r, w)) destination_ok)
              from_now)),
    )
