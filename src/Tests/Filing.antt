-- ===== src/Tests/Filing.antt =====
-- One file in the files' directory: moved, beside a new directory, and trash left half way.
use swa_drive.Base.{
  ◌≡◌, refl, sym, ap, subst, some_eq, ◌∙◌, Bool, true, false, not, none, some, [], ◌∷◌, ◌++◌, ok,
  arith, inl, inr, Bool-cases, length, all, ◌==◌, if◌then◌else◌,
}
use swa_drive.Base.Text.{cons_head, split, join, Text, codes, text_eq, text_eq_iff, text_eq_comm}
use swa_drive.Storage.Path.{
  LogicalPath, root_name, parse_path, valid_component, has_control, starts_with_slash,
}
use swa_drive.Storage.Disk.{pad, Disk, rename, present, absent, folder, regular, below}
use swa_drive.Storage.Manager
use swa_drive.Storage.Manager.{
  safe_source_info, ensure_destination_available, ensure_files_parent, lstat,
}
use swa_drive.Files.Subtree.{
  hide_subtree, show_again, move_subtree, update_moved, update_entries, in_subtree, moved_entry,
  require_parent, require_absent, no_clash,
}
use swa_drive.Files.Index.{
  begin_mutation, clear_health_reason, generation_for, active_generation_for_repair,
  metadata_in_generation, parent_path_of, drop_last, base_name, last_component, storable, Index,
  Entry, file,
}
use swa_drive.Files.Agreement.{move-Consistent, IsTree, Consistent, node_view, file_at}
use swa_drive.Files.Consistency.{IsFaithful}
use swa_drive.Files.Consistency.Moving.{move_file-IsFaithful}
use swa_drive.Files.Consistency.Creating.{make_directory-IsFaithful}
use swa_drive.Files.Subtree.View.{shown}
use swa_drive.Files.Subtree.Restoring.{show_again-hide_subtree}
use swa_drive.Files.Consistency.Accounting.{IsAccounted}
use swa_drive.Files.Consistency.Trashing.{trash_file-IsAccounted}
use swa_drive.Files.Service.Trashing.{trash_file}
use swa_drive.Files.Moved.{move_file-moves}
use swa_drive.Auth.Model.{is_owner}
use swa_drive.Files.Repository.{on_index, move_subtree_with_audit}
use swa_drive.Storage.Utf8.{valid_string, decode}
use swa_drive.Audit.Event.{
  prepare_event, validate_event, valid_event_path, encode_metadata, known_outcome, append_event,
  append_in_transaction, safe_entry, allowed_reason_code, marshal_entries,
}
use swa_drive.Files.Service.{
  after_move, after_move_booked, file_event, file_event_at, move_mutation_reason, move_file,
  make_directory,
}
use swa_drive.World.{World, ◌>>=◌, now, fallible, transact, change}
use swa_drive.Tests.Samples.{env, bytes, id, world, who}
use swa_drive.Uploads.Model.{pending}

abbrev no_slash : Text → Bool
no_slash n = all (λ b. not (b == b'/')) n

slash_inside : (p rest : Text) → no_slash (p ++ b'/' ∷ rest) ≡ false
slash_inside [] rest = refl
slash_inside (x ∷ p) rest = ground (arith, slash_inside p rest)

-- What stands before the one slash of a name.
before_slash :
    (p n rest a : Text)
    → no_slash n ≡ true
    → no_slash a ≡ true
    → p ++ b'/' ∷ rest ≡ n ++ b'/' ∷ a
    → p ≡ n
before_slash [] [] rest a h k e = refl
before_slash [] (y ∷ n) rest a h k e = absurd (ground arith)
before_slash (x ∷ p) [] rest a h k e =
    let rest_same : p ++ b'/' ∷ rest ≡ a = ground arith in
    absurd (ground (arith, slash_inside p rest, ap no_slash rest_same))
before_slash (x ∷ p) (y ∷ n) rest a h k e = ground (arith, before_slash p n rest a)

-- The files' directory and the file `a` in it.
abbrev disk : Disk
disk name =
    if text_eq name (codes "files")
    then present folder
    else if text_eq name (codes "files/a")
    then present (regular bytes 7)
    else absent

abbrev pub entry : Entry
entry = record {
  generation_id = 1;
  path = codes "a";
  parent_path = [];
  name = codes "a";
  normalized_name = codes "a";
  normalized_path = codes "a";
  kind = file;
  size = 3;
  modified_at = 7;
  indexed_at = 7;
  trash_entry_id = [];
  whole_sha256 = [];
}

abbrev index : Index
index = record { active_generation = some 1; unhealthy = none; entries = entry ∷ [] }

abbrev pub filed : World
filed = record (world pending [] disk) { db = record (world pending [] disk).db { index = index } }

files_there : disk (codes "files") ≡ absent → ⊥
unfolding text_eq
files_there h = cc

disk-IsTree : IsTree disk
disk-IsTree p rest free = elim (Bool-cases (text_eq (p ++ b'/' ∷ rest) (codes "files"))) [
  | inl e ↦ absurd (
      ground (
        arith,
        slash_inside p rest,
        ap no_slash ((text_eq_iff (p ++ b'/' ∷ rest) (codes "files")).0 e),
      ))
  | inr e ↦ elim (Bool-cases (text_eq (p ++ b'/' ∷ rest) (codes "files/a"))) [
    | inr f ↦ rw (e, f) refl
    | inl f ↦
        (let same =
            before_slash p (codes "files") rest (codes "a") refl refl
              ((text_eq_iff (p ++ b'/' ∷ rest) (codes "files/a")).0 f) in
          absurd (files_there (ap disk (sym same) ∙ free)))
  ]
]

filed-IsFaithful : IsFaithful filed
unfolding shown text_eq
filed-IsFaithful healthy g active q =
    let first : 1 ≡ g = some_eq active in
    subst (λ n. node_view (disk (file_at q)) ≡ shown n index.entries q) first
      (ground (arith, text_eq_comm q (codes "a")))

move_file-IsFaithful_example : IsFaithful (move_file env who (codes "a") (codes "b") filed).1
move_file-IsFaithful_example =
    move_file-IsFaithful env who (codes "a") (codes "b") filed disk-IsTree filed-IsFaithful

make_directory-IsFaithful_example : IsFaithful (make_directory env who (codes "b") filed).1
make_directory-IsFaithful_example =
    make_directory-IsFaithful env who (codes "b") filed filed-IsFaithful

abbrev pub a : LogicalPath
a = record { value = codes "a" }

abbrev pub b : LogicalPath
b = record { value = codes "b" }

abbrev pub moved_disk : Disk
moved_disk = rename (codes "files/a") (codes "files/b") disk

abbrev pub moved_index : Index
moved_index = record index {
  entries =
      record entry {
        path = codes "b";
        name = codes "b";
        normalized_name = codes "b";
        normalized_path = codes "b";
      }
      ∷ [];
}

pub moved_volume : Manager.move a b disk ≡ ok moved_disk
unfolding Manager.move text_eq safe_source_info ensure_destination_available ensure_files_parent
    lstat root_name parent_path_of drop_last split join below
moved_volume = refl

pub index_moved :
    move_subtree env (codes "a") (codes "b") (codes "move-pending") index ≡ ok moved_index
unfolding move_subtree generation_for active_generation_for_repair metadata_in_generation text_eq
    require_parent require_absent parent_path_of drop_last split join below update_moved
    update_entries in_subtree moved_entry base_name last_component storable no_clash
index_moved = refl

move-Consistent_example : Consistent moved_disk moved_index
move-Consistent_example =
    move-Consistent env a b (codes "move-pending") disk moved_disk index moved_index disk-IsTree
      (filed-IsFaithful refl) moved_volume index_moved

trash_file-IsAccounted_example : IsAccounted (trash_file who (codes "a") (some (pad 16)) filed).1
trash_file-IsAccounted_example =
    trash_file-IsAccounted who (codes "a") (some (pad 16)) filed
      (λ bytes same. ap length (sym (some_eq same)) ∙ (unfold pad in refl)) filed-IsFaithful

abbrev hidden_index : Index
hidden_index = record index { entries = record entry { trash_entry_id = id } ∷ [] }

show_again-hide_subtree_example : show_again 1 id hidden_index ≡ ok index
unfolding text_eq
show_again-hide_subtree_example =
    show_again-hide_subtree 1 (codes "a") id index hidden_index
      (unfold hide_subtree update_entries in_subtree below in refl) refl
      (unfold no_clash in_subtree below text_eq in refl)

abbrev moved_world : World
moved_world = (move_file env who (codes "a") (codes "b") filed).1

move_file-moves_example :
    (s : LogicalPath) × (t : LogicalPath) × (parse_path (codes "a") false ≡ ok s)
    × (parse_path (codes "b") false ≡ ok t)
    × (is_owner who.role ≡ true)
    × (Manager.move s t filed.disk ≡ ok moved_world.disk)
    × (filed.db.index.unhealthy ≡ none)
    × ((i : Index) × (move_subtree env s.value t.value move_mutation_reason
            (record filed.db.index { unhealthy = some move_mutation_reason })
          ≡ ok i)
        × (moved_world.db.index ≡ record i { unhealthy = none }))
move_file-moves_example = move_file-moves env who (codes "a") (codes "b") filed {v = moved_world} (
    unfold move_file ◌>>=◌ parse_path split cons_head valid_string decode starts_with_slash
      valid_component has_control now fallible transact on_index begin_mutation change Manager.move
      safe_source_info ensure_destination_available ensure_files_parent lstat root_name
      parent_path_of drop_last join text_eq below after_move file_event move_subtree_with_audit
      move_subtree generation_for active_generation_for_repair metadata_in_generation require_parent
      require_absent update_moved update_entries in_subtree moved_entry base_name last_component
      storable no_clash append_in_transaction prepare_event validate_event valid_event_path
      encode_metadata known_outcome append_event file_event_at clear_health_reason after_move_booked
      safe_entry allowed_reason_code marshal_entries in
    refl)
