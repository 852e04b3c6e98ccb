-- ===== src/Files/Consistency/Creating.antt =====
-- `CreateDirectory` fails closed.
use swa_drive.Base.{
  ℕ, ◌≡◌, refl, sym, ap, ◌∙◌, false, some, [], ◌∷◌, ok, Error, arith, inl, inr, Result-cases,
  Bool-cases, some_eq, if◌then◌else◌,
}
use swa_drive.Base.Text.{Text, text_eq_comm, text_eq, text_eq_iff}
use swa_drive.Platform.{Platform}
use swa_drive.Storage.Path.{LogicalPath, parse_path}
use swa_drive.Storage.Disk.{Disk, present, folder, absent, put_node}
use swa_drive.Storage.Manager.{create_directory, in_files, ensure_destination_available}
use swa_drive.Storage.Manager.Publication.{available-ok}
use swa_drive.Storage.Repair.{remove_empty_directory}
use swa_drive.Audit.Event.{Event, stored_time}
use swa_drive.Auth.Model.{Identity}
use swa_drive.Database.{Db}
use swa_drive.Files.Index.{
  Index, Entry, Kind, directory, new_entry, insert_active, insert_entry, generation_for,
  clear_health_reason,
}
use swa_drive.Files.Subtree.View.{shown}
use swa_drive.Files.Repository.{create_entry_with_audit}
use swa_drive.Files.Agreement.{Consistent, node_view, file_at, nonempty_name, generation_for-ok}
use swa_drive.Files.Consistency.{
  IsFaithful, IsMarked, Consistent-at, announced_end, abort_mutation-IsFaithful,
  compensate-IsFaithful, file_event_end,
}
use swa_drive.Files.Service.{
  compensate, make_directory, after_creation, book_directory, after_creation_booked,
  mkdir_mutation_reason,
}
use swa_drive.World.{World, change}
use swa_drive.World.Ends.{SameState, guard_end, lift_end, attempt_transact_end}

created-inv :
    (p : LogicalPath) (d d' : Disk)
    → create_directory p d ≡ ok d'
    → (d (file_at p.value) ≡ absent)
      × (d' ≡ put_node (file_at p.value) (present folder) d)
      × (in_files p ≡ file_at p.value)
unfolding create_directory
created-inv p d d' h =
    let free : ensure_destination_available p d ≡ ok tt = ground arith in
    let named : text_eq p.value [] ≡ false = ground arith in
    let at_p = nonempty_name p named in
    let placed : d' ≡ put_node (in_files p) (present folder) d = ground arith in
    (
      ap d (sym at_p) ∙ available-ok p d free,
      placed ∙ ap (λ z. put_node z (present folder) d) at_p,
      at_p,
    )

removed-inv :
    (p : LogicalPath) (d d' : Disk)
    → remove_empty_directory p d ≡ ok d'
    → d' ≡ put_node (in_files p) absent d
unfolding remove_empty_directory
removed-inv p d d' h = ground arith

created_removed :
    (p : LogicalPath) (d d' d'' : Disk) (q : Text)
    → create_directory p d ≡ ok d'
    → remove_empty_directory p d' ≡ ok d''
    → d'' (file_at q) ≡ d (file_at q)
unfolding put_node
created_removed p d d' d'' q made removed =
    let (free, a, at_p) = created-inv p d d' made in
    let b = removed-inv p d' d'' removed ∙ ap (λ z. put_node z absent d') at_p in
    elim (Bool-cases (text_eq (file_at q) (file_at p.value))) [
      | inl same ↦
          ap (λ z. z (file_at q)) b
          ∙ (rw (put_node, same)
              (sym (ap d ((text_eq_iff (file_at q) (file_at p.value)).0 same) ∙ free)))
      | inr other ↦
          ap (λ z. z (file_at q)) b
          ∙ (rw (put_node, other) (ap (λ z. z (file_at q)) a ∙ (rw (put_node, other) refl)))
    ]

new_entry-inv :
    (env : Platform) (p : LogicalPath) (kind : Kind) (size m t : ℕ) (sha : Text) (e : Entry)
    → new_entry env p kind size m t sha ≡ ok e
    → (e.path ≡ p.value) × (e.kind ≡ kind) × (e.size ≡ size) × (e.trash_entry_id ≡ [])
unfolding new_entry
new_entry-inv env p kind size m t sha e h = (ground arith, ground arith, ground arith, ground arith)

insert_entry-shown :
    (e : Entry) (i i' : Index) (q : Text)
    → e.trash_entry_id ≡ []
    → insert_entry e i ≡ ok i'
    → (i'.active_generation ≡ i.active_generation)
      × (shown e.generation_id i'.entries q
          ≡ (if text_eq e.path q then some (e.kind, e.size) else shown e.generation_id i.entries q))
unfolding insert_entry shown
insert_entry-shown e i i' q outside h =
    let placed : i'.entries
        ≡ record e {
          modified_at = stored_time e.modified_at;
          indexed_at = stored_time e.indexed_at;
        }
          ∷ i.entries =
      ground arith in
    (ground arith, ap (λ es. shown e.generation_id es q) placed ∙ ground (arith, outside))

insert_active-inv :
    (env : Platform) (e : Entry) (reason : Text) (i i' : Index)
    → insert_active env e reason i ≡ ok i'
    → (g : ℕ) × (i.active_generation ≡ some g)
      × (insert_entry (record e { generation_id = g }) i ≡ ok i')
unfolding insert_active
insert_active-inv env e reason i i' h = elim (Result-cases (generation_for reason i)) [
  | inr (f, s) ↦ absurd (ground arith)
  | inl (g, s) ↦ (g, generation_for-ok reason i g s, ground arith)
]

folder_view :
    (p q : Text) (d : Disk)
    → node_view (put_node (file_at p) (present folder) d (file_at q))
      ≡ (if text_eq p q then some (directory, 0) else node_view (d (file_at q)))
unfolding put_node text_eq
folder_view p q d = rw (text_eq_comm q p) ground arith

-- An entry that is inserted is shown under its path.
inserted-Consistent :
    (env : Platform) (e : Entry) (reason : Text) (d : Disk) (i i' : Index)
    → Consistent d i
    → e.trash_entry_id ≡ []
    → e.kind ≡ directory
    → e.size ≡ 0
    → insert_active env e reason i ≡ ok i'
    → Consistent (put_node (file_at e.path) (present folder) d) i'
unfolding put_node
inserted-Consistent env e reason d i i' before outside kind size h g active q =
    let (g0, was, inserted) = insert_active-inv env e reason i i' h in
    let (generation, view) =
      insert_entry-shown (record e { generation_id = g0 }) i i' q outside inserted in
    let agrees = before g0 was q in
    let same : g0 ≡ g = some_eq (sym was ∙ sym generation ∙ active) in
    folder_view e.path q d
    ∙ (rw (agrees, kind, size) refl)
    ∙ sym view
    ∙ ap (λ z. shown z i'.entries q) same

module _ (env : Platform) (who : Identity) (p : LogicalPath) (d : Disk) where
  -- The directory is there and the index does not know it yet.
  abbrev IsWaiting : World → Type 0
  IsWaiting w =
      Consistent d w.db.index
      × IsMarked mkdir_mutation_reason w
      × (create_directory p d ≡ ok w.disk)

  undone :
      (A : Type 0) (f : Error) (w : World)
      → IsWaiting w
      → IsFaithful
          (compensate {A = A} (change (remove_empty_directory p)) mkdir_mutation_reason f w).1
  undone A f w (h, marked, made) =
      compensate-IsFaithful A (remove_empty_directory p) mkdir_mutation_reason f w marked
        (λ d'' removed.
          Consistent-at d d'' w.db.index w.db.index
            (λ q. created_removed p d w.disk d'' q made removed) refl refl h)

  IsWaiting-same : (w v : World) → SameState w v → IsWaiting w → IsWaiting v
  IsWaiting-same w v (a, b) (h, marked, made) = (
    Consistent-at d d w.db.index v.db.index (λ q. refl) (ap (λ z. z.index.entries) a)
        (ap (λ z. z.index.active_generation) a) h,
    ap (λ z. z.index.unhealthy) a ∙ marked,
    made ∙ ap ok (sym b),
  )

  entry_booked-inv :
      (e : Entry) (event : Event) (reason : Text) (t : ℕ) (db db' : Db)
      → create_entry_with_audit env e event reason t db ≡ ok db'
      → (i : Index) × (insert_active env e reason db.index ≡ ok i)
        × (db'.index.entries ≡ i.entries)
        × (db'.index.active_generation ≡ i.active_generation)
  unfolding create_entry_with_audit clear_health_reason
  entry_booked-inv e event reason t db db' h =
      elim (Result-cases (insert_active env e reason db.index)) [
        | inl (i, f) ↦ (i, f, ground arith, ground arith)
        | inr (g, f) ↦ absurd (ground arith)
      ]

  booked-Consistent :
      (t n : ℕ) (w v : World) (entry : Entry) (event : Event)
      → IsWaiting w
      → new_entry env p directory 0 t t [] ≡ ok entry
      → create_entry_with_audit env entry event mkdir_mutation_reason n w.db ≡ ok v.db
      → v.disk ≡ w.disk
      → Consistent v.disk v.db.index
  booked-Consistent t n w v entry event (h, marked, made) s booked kept =
      let (path, kind, size, outside) = new_entry-inv env p directory 0 t t [] entry s in
      let (i, inserted, entries, generation) =
        entry_booked-inv entry event mkdir_mutation_reason n w.db v.db booked in
      let (_, placed, _) = created-inv p d w.disk made in
      let shown_now =
        inserted-Consistent env entry mkdir_mutation_reason d w.db.index i h outside kind size
          inserted in
      let volume : v.disk ≡ put_node (file_at entry.path) (present folder) d =
        kept ∙ placed ∙ ap (λ z. put_node (file_at z) (present folder) d) (sym path) in
      Consistent-at (put_node (file_at entry.path) (present folder) d) v.disk i v.db.index
        (λ q. ap (λ z. z (file_at q)) volume) entries generation shown_now

  book_directory-IsFaithful :
      (t : ℕ) (w : World)
      → IsWaiting w
      → IsFaithful (book_directory env who p (new_entry env p directory 0 t t []) w).1
  unfolding book_directory after_creation_booked
  book_directory-IsFaithful t w waiting = elim (Result-cases (new_entry env p directory 0 t t [])) [
    | inr (f, s) ↦ rw s (undone Entry f w waiting)
    | inl (entry, s) ↦ rw s (
        file_event_end who _ _ _ _ _ _ IsFaithful w _ λ event v same.
          attempt_transact_end IsFaithful v
            (create_entry_with_audit env entry event mkdir_mutation_reason)
            (after_creation_booked env p entry)
            (λ f u kept.
              undone Entry f u (IsWaiting-same v u kept (IsWaiting-same w v same waiting)))
            (λ n u booked kept _.
              booked-Consistent t n v u entry event (IsWaiting-same w v same waiting) s booked
                kept))
  ]

-- However `CreateDirectory` ends, with success, with an error, or with the driver, the system or the
-- context failing at any call: if the index is healthy then, it shows under every path the kind and the
-- size of what the volume has there. This holds if it did so before.
pub make_directory-IsFaithful :
    (env : Platform) (who : Identity) (value : Text) (w : World)
    → IsFaithful w
    → IsFaithful (make_directory env who value w).1
unfolding make_directory after_creation
make_directory-IsFaithful env who value w before = guard_end IsFaithful w _ _ _ before λ _.
    lift_end IsFaithful w (parse_path value false) _ before λ p _.
      announced_end Entry mkdir_mutation_reason (create_directory p)
        (λ t. after_creation env who p t) w before
        (λ t e v h marked. abort_mutation-IsFaithful Entry mkdir_mutation_reason e v h marked)
        (λ t v made h marked. book_directory-IsFaithful env who p w.disk t v (h, marked, made))
