-- ===== src/Files/Consistency/Accounting.antt =====
-- What the transactions of the trash do to the index, and the volume after a move to the trash.
use swa_drive.Base.{
  ℕ, ◌≡◌, refl, sym, ap, ◌∙◌, Bool, true, false, none, some, List, [], ◌∷◌, Result, ok, some_eq,
  arith, inl, inr, Result-cases, Option-cases, ◌==◌, length, filter, if◌then◌else◌,
}
use swa_drive.Base.Text.{Text, text_eq, text_eq_refl}
use swa_drive.Storage.Path.{LogicalPath}
use swa_drive.Storage.Disk.{Disk, Lookup, absent, rename, below}
use swa_drive.Storage.Manager.{move_to_trash, in_files, in_trash}
use swa_drive.Audit.Event.{Event, stored_time}
use swa_drive.Database.{Db}
use swa_drive.Files.Index.{
  Index, clear_health_reason, active_generation, active_generation_for_repair,
}
use swa_drive.Files.Subtree.{in_subtree, selected, update_entries, hide_subtree}
use swa_drive.Files.Subtree.View.{shown}
use swa_drive.Files.Subtree.Hiding.{shown-hidden}
use swa_drive.Files.Trash.{TrashEntry, trashing, find_trash, is_unsettled}
use swa_drive.Files.Repository.{
  on_index, prepare_trash, abort_trash, commit_trash_with_audit, trash_health_reason,
}
use swa_drive.Files.Agreement.{Consistent, node_view, file_at, nonempty_name}
use swa_drive.Files.Consistency.{Consistent-at}
use swa_drive.Files.Repository.Unsettled.{unsettled}
use swa_drive.World.{World}
use swa_drive.World.Ends.{SameState}

-- The index agrees with the volume, unless it calls itself unhealthy or a trash entry waits for its
-- reconciliation.
abbrev pub IsAccounted : World → Type 0
IsAccounted w = w.db.index.unhealthy ≡ none → unsettled w.db ≡ [] → Consistent w.disk w.db.index

pub IsAccounted-same : (w v : World) → SameState w v → IsAccounted w → IsAccounted v
IsAccounted-same w v (a, b) h healthy settled =
    Consistent-at w.disk v.disk w.db.index v.db.index (λ q. ap (λ z. z (file_at q)) b)
      (ap (λ z. z.index.entries) a) (ap (λ z. z.index.active_generation) a)
      (h (ap (λ z. z.index.unhealthy) (sym a) ∙ healthy) (ap unsettled (sym a) ∙ settled))

pub trashed-inv :
    (p : LogicalPath) (name : Text) (d d' : Disk)
    → move_to_trash p name d ≡ ok d'
    → d' ≡ rename (file_at p.value) (in_trash name) d
unfolding move_to_trash
trashed-inv p name d d' h =
    let named : text_eq p.value [] ≡ false = ground arith in
    let done : d' ≡ rename (in_files p) (in_trash name) d = ground arith in
    done ∙ ap (λ z. rename z (in_trash name) d) (nonempty_name p named)

trashed_at_name :
    (p name q : Text) (d : Disk)
    → rename (file_at p) (in_trash name) d (file_at q)
      ≡ (if in_subtree p q then absent else d (file_at q))
unfolding rename in_subtree below
trashed_at_name p name q d = elim (Option-cases (below p q)) [
  | inl e ↦ rw (e, in_subtree) refl
  | inr (r, e) ↦ rw (e, in_subtree) refl
]

view_outside :
    (b : Bool) (l : Lookup)
    → node_view (if b then absent else l) ≡ (if b then none else node_view l)
view_outside true l = refl
view_outside false l = refl

-- The file is in the trash and the index hides it.
pub hidden-Consistent :
    (g : ℕ) (p name id : Text) (d : Disk) (i i' : Index)
    → (length id == 0) ≡ false
    → i.active_generation ≡ some g
    → Consistent d i
    → hide_subtree g p id i ≡ ok i'
    → Consistent (rename (file_at p) (in_trash name) d) i'
unfolding hide_subtree
hidden-Consistent g p name id d i i' named active h hidden g' active' q =
    let generation : i'.active_generation ≡ i.active_generation = ground arith in
    let same : g ≡ g' = some_eq (sym active ∙ sym generation ∙ active') in
    let entries : i'.entries
        ≡ update_entries (selected g p) (λ e. record e { trash_entry_id = id }) i.entries =
      ground arith in
    ap node_view (trashed_at_name p name q d)
    ∙ view_outside (in_subtree p q) (d (file_at q))
    ∙ ap (λ z. if in_subtree p q then none else z) (h g active q)
    ∙ sym (shown-hidden g p id named i.entries q)
    ∙ ap (λ z. shown g z q) (sym entries)
    ∙ ap (λ z. shown z i'.entries q) same

pub commit_trash-inv :
    (user : ℕ) (id : Text) (updated t : ℕ) (e : Event) (db db' : Db)
    → commit_trash_with_audit user id updated e t db ≡ ok db'
    → (entry : TrashEntry) × (g : ℕ) × (i : Index) × (find_trash user id trashing db.trash
        ≡ some entry)
      × (active_generation_for_repair (trash_health_reason id) db.index ≡ ok g)
      × (hide_subtree g entry.original_path id db.index ≡ ok i)
      × (db'.index ≡ clear_health_reason (trash_health_reason id) i)
unfolding commit_trash_with_audit
commit_trash-inv user id updated t e db db' h =
    elim (Option-cases (find_trash user id trashing db.trash)) [
      | inl f ↦ absurd (ground arith)
      | inr (entry, f) ↦
          elim (Result-cases (active_generation_for_repair (trash_health_reason id) db.index)) [
            | inr (x, k) ↦ absurd (ground arith)
            | inl (g, k) ↦ elim (Result-cases (hide_subtree g entry.original_path id db.index)) [
              | inr (x, l) ↦ absurd (ground arith)
              | inl (i, l) ↦ (entry, g, i, f, k, l, ground arith)
            ]
          ]
    ]

pub generation_for_repair-ok :
    (reason : Text) (i : Index) (g : ℕ)
    → active_generation_for_repair reason i ≡ ok g
    → i.active_generation ≡ some g
unfolding active_generation_for_repair
generation_for_repair-ok reason i g h = ground arith

pub clear_health_reason-same :
    (reason : Text) (i : Index)
    → ((clear_health_reason reason i).entries ≡ i.entries)
      × ((clear_health_reason reason i).active_generation ≡ i.active_generation)
unfolding clear_health_reason
clear_health_reason-same reason i = (refl, refl)

-- The row of an entry that is on its way to the trash.
abbrev pub prepared : TrashEntry → TrashEntry
prepared e = record e {
  trashed_at = stored_time e.trashed_at;
  state = trashing;
  updated_at = stored_time e.updated_at;
}

-- It is the first of the rows, and what the index shows agrees with a volume.
abbrev pub IsOnItsWay : TrashEntry → Disk → World → Type 0
IsOnItsWay e d w =
    ((rows : List TrashEntry) × (w.db.trash ≡ prepared e ∷ rows)) × Consistent d w.db.index

pub waiting-IsAccounted :
    (e : TrashEntry) (rows : List TrashEntry) (w : World)
    → w.db.trash ≡ prepared e ∷ rows
    → IsAccounted w
unfolding unsettled
waiting-IsAccounted e rows w first healthy settled =
    let there : filter is_unsettled (prepared e ∷ rows) ≡ [] =
      ap (filter is_unsettled) (sym first) ∙ settled in
    absurd (ground arith)

pub prepare_trash-inv :
    (e : TrashEntry) (db db' : Db)
    → prepare_trash e db ≡ ok db'
    → (db'.trash ≡ prepared e ∷ db.trash) × (db'.index ≡ db.index) × (db.index.unhealthy ≡ none)
unfolding prepare_trash active_generation
prepare_trash-inv e db db' h = (ground arith, ground arith, ground arith)

pub abort_trash-index :
    (user : ℕ) (id : Text) (db db' : Db) → abort_trash user id db ≡ ok db' → db'.index ≡ db.index
unfolding abort_trash
abort_trash-index user id db db' h = ground arith

pub on_index-trash :
    (f : Index → Result Index) (db db' : Db) → on_index f db ≡ ok db' → db'.trash ≡ db.trash
unfolding on_index
on_index-trash f db db' h = ground arith

pub found_first :
    (e : TrashEntry) (rows : List TrashEntry)
    → find_trash e.user_id e.id trashing (prepared e ∷ rows) ≡ some (prepared e)
unfolding find_trash
found_first e rows = rw (text_eq_refl e.id) ground arith
