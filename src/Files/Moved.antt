-- ===== src/Files/Moved.antt =====
-- What a `Move` that succeeds has done.
use swa_drive.Base.{
  ℕ, ◌≡◌, refl, sym, ap, ◌∙◌, true, false, none, some, Result, ok, err, Error, arith, inl, inr,
  Result-cases, owner_required,
}
use swa_drive.Base.Text.{Text, text_eq_refl}
use swa_drive.Platform.{Platform}
use swa_drive.Storage.Path.{LogicalPath, parse_path}
use swa_drive.Storage.Disk.{Disk}
use swa_drive.Storage.Manager
use swa_drive.Audit.Event.{Event}
use swa_drive.Auth.Model.{Identity, is_owner}
use swa_drive.Database.{Db}
use swa_drive.Files.Index.{Index, begin_mutation, clear_health_reason}
use swa_drive.Files.Subtree.{move_subtree}
use swa_drive.Files.Repository.{on_index, move_subtree_with_audit}
use swa_drive.Files.Agreement.{move_subtree-inv}
use swa_drive.Files.Consistency.{the_event-same, on_index-inv}
use swa_drive.Files.Service.{
  move_file, after_move, after_move_booked, move_mutation_reason, file_event, abort_mutation,
  after_clearing, clear_intent, compensate, after_undoing,
}
use swa_drive.World.{World, M, ◌>>=◌, ◌>>◌, now, fallible, transact, change, attempt}
use swa_drive.World.Ends.{step_same, fallible-change-ok, fallible-change-err}
use swa_drive.World.Laws.{checked-ok, lifted-ok, bind-ok, now-same, transact-ok, attempt_lem}

after_clearing-ne_ok :
    (A : Type 0) (e : Error) (r : Result (Unit {0})) (w : World) {a : A} {v : World}
    → after_clearing e r w ≡ (ok a, v)
    → ⊥
unfolding after_clearing
after_clearing-ne_ok A e (ok u) w h = cc
after_clearing-ne_ok A e (err f) w h = cc

-- What takes a change back never ends in success.
abort_mutation-ne_ok :
    (A : Type 0) (reason : Text) (e : Error) (w : World) {a : A} {v : World}
    → abort_mutation reason e w ≡ (ok a, v)
    → ⊥
unfolding abort_mutation
abort_mutation-ne_ok A reason e w h =
    let (r, w1, _, rest) = bind-ok (attempt (clear_intent reason)) _ w h in
    after_clearing-ne_ok A e r w1 rest

after_undoing-ne_ok :
    (A : Type 0) (reason : Text) (e : Error) (r : Result (Unit {0})) (w : World) {a : A} {v : World}
    → after_undoing reason e r w ≡ (ok a, v)
    → ⊥
unfolding after_undoing
after_undoing-ne_ok A reason e (ok u) w h = abort_mutation-ne_ok A reason e w h
after_undoing-ne_ok A reason e (err f) w h = cc

compensate-ne_ok :
    (A : Type 0) (undo : M (Unit {0})) (reason : Text) (e : Error) (w : World) {a : A} {v : World}
    → compensate undo reason e w ≡ (ok a, v)
    → ⊥
unfolding compensate
compensate-ne_ok A undo reason e w h =
    let (r, w1, _, rest) = bind-ok (attempt undo) _ w h in after_undoing-ne_ok A reason e r w1 rest

after_move_booked-ok :
    (env : Platform) (s t : LogicalPath) (r : Result (Unit {0})) (w : World) {v : World}
    → after_move_booked env s t r w ≡ (ok tt, v)
    → (r ≡ ok tt) × (v ≡ w)
unfolding after_move_booked
after_move_booked-ok env s t (ok tt) w h = (refl, ap (λ z. z.1) (sym h))
after_move_booked-ok env s t (err f) w h =
    absurd (compensate-ne_ok (Unit {0}) (change (Manager.move t s)) move_mutation_reason f w h)

cleared_reason :
    (reason : Text) (i : Index)
    → i.unhealthy ≡ some reason
    → clear_health_reason reason i ≡ record i { unhealthy = none }
unfolding clear_health_reason
cleared_reason reason i h = rw (h, text_eq_refl reason) refl

-- The index after its transaction: the subtree moved and the reason cleared.
booked_index :
    (env : Platform) (source destination : Text) (e : Event) (t : ℕ) (db db' : Db)
    → move_subtree_with_audit env source destination e move_mutation_reason t db ≡ ok db'
    → db.index.unhealthy ≡ some move_mutation_reason
    → (i : Index) × (move_subtree env source destination move_mutation_reason db.index ≡ ok i)
      × (db'.index ≡ record i { unhealthy = none })
unfolding move_subtree_with_audit clear_health_reason
booked_index env source destination e t db db' h marked =
    elim (Result-cases (move_subtree env source destination move_mutation_reason db.index)) [
      | inr (g, f) ↦ absurd (ground arith)
      | inl (i, f) ↦
          (let (_, _, _, _, kept) =
              move_subtree-inv env source destination move_mutation_reason db.index i f in
            let cleared : db'.index ≡ clear_health_reason move_mutation_reason i = ground arith in
            (i, f, cleared ∙ cleared_reason move_mutation_reason i (kept ∙ marked)))
    ]

after_move-ok :
    (env : Platform) (who : Identity) (s t : LogicalPath) (r : Result (Unit {0})) (w : World)
    {v : World}
    → after_move env who s t r w ≡ (ok tt, v)
    → w.db.index.unhealthy ≡ some move_mutation_reason
    → (r ≡ ok tt)
      × (v.disk ≡ w.disk)
      × ((i : Index) × (move_subtree env s.value t.value move_mutation_reason w.db.index ≡ ok i)
          × (v.db.index ≡ record i { unhealthy = none }))
unfolding after_move
after_move-ok env who s t (err f) w h marked =
    absurd (abort_mutation-ne_ok (Unit {0}) move_mutation_reason f w h)
after_move-ok env who s t (ok tt) w {v = v} h marked =
    let (e, w1, noted, rest) = bind-ok (file_event who _ _ _ _ _ _) _ w h in
    let (same_db, same_disk) =
      step_same (file_event who _ _ _ _ _ _) w (the_event-same who _ _ _ _ _ _ w) noted in
    let (booked, w2, tried, last) =
      bind-ok
        (attempt (transact (move_subtree_with_audit env s.value t.value e move_mutation_reason))) _
        w1 rest in
    let (fine, over) = after_move_booked-ok env s t booked w2 last in
    let done : transact (move_subtree_with_audit env s.value t.value e move_mutation_reason) w1
        ≡ (ok tt, w2) =
      attempt_lem (transact (move_subtree_with_audit env s.value t.value e move_mutation_reason)) w1
        tried
      ∙ ap (λ z. (z, w2)) fine in
    let (n, stored, kept) =
      transact-ok (move_subtree_with_audit env s.value t.value e move_mutation_reason) w1 done in
    let (i, moved, new) =
      booked_index env s.value t.value e n w1.db w2.db stored
        (ap (λ z. z.index.unhealthy) same_db ∙ marked) in
    (
      refl,
      ap (λ z. z.disk) over ∙ kept ∙ same_disk,
      (
        i,
        ap (λ z. move_subtree env s.value t.value move_mutation_reason z.index) (sym same_db)
            ∙ moved,
        ap (λ z. z.db.index) over ∙ new,
      ),
    )

begun_index :
    (reason : Text) (i i' : Index)
    → begin_mutation reason i ≡ ok i'
    → (i.unhealthy ≡ none) × (i' ≡ record i { unhealthy = some reason })
unfolding begin_mutation
begun_index reason i i' h = (ground arith, ground arith)

change_db :
    (f : Disk → Result Disk) (r : Result (Unit {0})) (w : World) {v : World}
    → (fallible >> change f) w ≡ (r, v)
    → v.db ≡ w.db
change_db f (ok tt) w h = (fallible-change-ok f w h).1
change_db f (err e) w h = (fallible-change-err f w h).0

-- The intent that a mutation begins with.
announced-ok :
    {A : Type 0} (reason : Text) (k : ℕ → M A) (w : World) {a : A} {v : World}
    → (now >>= λ t. transact (λ _. on_index (begin_mutation reason)) >>= λ _. k t) w ≡ (ok a, v)
    → (t : ℕ) × (w1 : World) × (w.db.index.unhealthy ≡ none)
      × (w1.db.index ≡ record w.db.index { unhealthy = some reason })
      × (w1.disk ≡ w.disk)
      × (k t w1 ≡ (ok a, v))
announced-ok reason k w h =
    let (t, w1, timed, h1) = bind-ok now _ w h in
    let (db1, disk1) = step_same now w (now-same w) timed in
    let (_, w2, announced, h2) =
      bind-ok (transact (λ _. on_index (begin_mutation reason))) _ w1 h1 in
    let (_, begun, disk2) = transact-ok (λ _. on_index (begin_mutation reason)) w1 announced in
    let (healthy, marked) =
      begun_index reason w1.db.index w2.db.index
        (on_index-inv (begin_mutation reason) w1.db w2.db begun) in
    (
      t,
      w2,
      ap (λ z. z.index.unhealthy) (sym db1) ∙ healthy,
      marked ∙ ap (λ z. record z.index { unhealthy = some reason }) db1,
      disk2 ∙ disk1,
      h2,
    )

module _ (env : Platform) (who : Identity) (s t : LogicalPath) where
  -- What was announced, changed and booked, from the world in which the change is tried.
  tried-ok :
      (w : World) {v : World}
      → (attempt (fallible >> change (Manager.move s t)) >>= after_move env who s t) w ≡ (ok tt, v)
      → w.db.index.unhealthy ≡ some move_mutation_reason
      → (Manager.move s t w.disk ≡ ok v.disk)
        × ((i : Index) × (move_subtree env s.value t.value move_mutation_reason w.db.index ≡ ok i)
            × (v.db.index ≡ record i { unhealthy = none }))
  tried-ok w h marked =
      let (r, w1, tried, rest) =
        bind-ok (attempt (fallible >> change (Manager.move s t))) (after_move env who s t) w h in
      let changed = attempt_lem (fallible >> change (Manager.move s t)) w tried in
      let same_db = change_db (Manager.move s t) r w changed in
      let (fine, same_disk, (i, moved, new)) =
        after_move-ok env who s t r w1 rest (ap (λ z. z.index.unhealthy) same_db ∙ marked) in
      let (done, _) = fallible-change-ok (Manager.move s t) w (changed ∙ ap (λ z. (z, w1)) fine) in
      (
        done ∙ ap ok (sym same_disk),
        (
          i,
          ap (λ z. move_subtree env s.value t.value move_mutation_reason z.index) (sym same_db)
              ∙ moved,
          new,
        ),
      )

-- A `Move` that succeeds was an owner's, with two valid paths. It has moved the one to the other on the
-- volume; the index, which was healthy before, is the one whose subtree is moved, and is healthy again.
pub move_file-moves :
    (env : Platform) (who : Identity) (source destination : Text) (w : World) {v : World}
    → move_file env who source destination w ≡ (ok tt, v)
    → (s : LogicalPath) × (t : LogicalPath) × (parse_path source false ≡ ok s)
      × (parse_path destination false ≡ ok t)
      × (is_owner who.role ≡ true)
      × (Manager.move s t w.disk ≡ ok v.disk)
      × (w.db.index.unhealthy ≡ none)
      × ((i : Index) × (move_subtree env s.value t.value move_mutation_reason
              (record w.db.index { unhealthy = some move_mutation_reason })
            ≡ ok i)
          × (v.db.index ≡ record i { unhealthy = none }))
unfolding move_file
move_file-moves env who source destination w {v = v} h =
    let (owner, h1) = checked-ok (is_owner who.role) owner_required _ w h in
    let (s, source_ok, h2) = lifted-ok (parse_path source false) _ w h1 in
    let (t, destination_ok, h3) = lifted-ok (parse_path destination false) _ w h2 in
    let (_, w1, healthy, marked, same_disk, h4) = announced-ok move_mutation_reason _ w h3 in
    let (moved, (i, indexed, new)) = tried-ok env who s t w1 h4 (ap (λ z. z.unhealthy) marked) in
    (
      s,
      t,
      source_ok,
      destination_ok,
      owner,
      ap (Manager.move s t) (sym same_disk) ∙ moved,
      healthy,
      (
        i,
        ap (λ z. move_subtree env s.value t.value move_mutation_reason z) (sym marked) ∙ indexed,
        new,
      ),
    )
