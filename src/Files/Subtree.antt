-- ===== src/Files/Subtree.antt =====
-- Moving and hiding a subtree of the index: the statements over
-- `logical_path = ? OR substr(logical_path, 1, length(?) + 1) = ? || '/'` of
-- server/internal/files/index_repository.go and sqlite_repository.go.
pub mod View
pub mod Restoring
pub mod Hiding
use swa_drive.Base.{
  ℕ, Bool, true, false, not, ◌&&◌, ◌||◌, Option, none, some, List, [], ◌∷◌, ◌++◌, Result, ok, err,
  conflict, fault, not_directory, index_inconsistent, ◌>>=◌, ◌>>◌, require, ◌==◌, if◌then◌else◌,
  all, any, drop, length, map,
}
use swa_drive.Base.Text.{Text, text_eq}
use swa_drive.Platform.{Platform}
use swa_drive.Storage.Disk.{below}
use swa_drive.Files.Index.{
  Index, Entry, directory, kind_eq, base_name, parent_path_of, metadata_in_generation,
  generation_for, storable,
}

-- The path itself or a path below it.
unfoldable pub in_subtree : Text → Text → Bool
in_subtree source path = elim (below source path) [ some _ ↦ true | none ↦ false ]

-- `generation_id = ? AND trash_entry_id IS NULL`
abbrev pub is_shown : ℕ → Entry → Bool
is_shown g e = e.generation_id == g && length e.trash_entry_id == 0

abbrev pub selected : ℕ → Text → Entry → Bool
selected g source e = is_shown g e && in_subtree source e.path

unfoldable pub update_entries : (Entry → Bool) → (Entry → Entry) → List Entry → List Entry
update_entries p f [] = []
update_entries p f (e ∷ es) = (if p e then f e else e) ∷ update_entries p f es

-- `file_entries_active_path_unique_idx`: no path of a row that changes is that of one that does not.
unfoldable pub no_clash : ℕ → (Entry → Bool) → (Entry → Entry) → List Entry → Bool
no_clash g p f es =
    all
      (λ e. not (p e) || not (any (λ o. is_shown g o && not (p o) && text_eq o.path (f e).path) es))
      es

module _ (env : Platform) where
  -- The `SET` of `MoveSubtreeWithAuditAndRepair`. `substr` counts characters, which is the same on a
  -- path that begins with the source.
  unfoldable pub moved_entry : (source destination : Text) → Entry → Entry
  moved_entry source destination e =
      let self = text_eq e.path source in
      let name = base_name destination in
      record e {
        path = if self then destination else destination ++ drop (length source) e.path;
        parent_path =
            if self
            then parent_path_of destination
            else if text_eq e.parent_path source
            then destination
            else destination ++ drop (length source) e.parent_path;
        name = if self then name else e.name;
        normalized_name = if self then env.to_lower name else e.normalized_name;
        normalized_path =
            if self
            then env.to_lower destination
            else env.to_lower destination ++ drop (length (env.to_lower source)) e.normalized_path;
      }

  unfoldable pub update_moved : ℕ → (source destination : Text) → Index → Result Index
  update_moved g source destination i =
      let moved = update_entries (selected g source) (moved_entry source destination) i.entries in
      if all storable moved
        && no_clash g (selected g source) (moved_entry source destination) i.entries
      then ok (record i { entries = moved })
      else err fault

  -- The parent of the destination is the root or an indexed directory.
  unfoldable pub require_parent : ℕ → Text → Index → Result (Unit {0})
  require_parent g destination i =
      let parent = parent_path_of destination in
      if text_eq parent [] then ok tt else (do
        e ← metadata_in_generation g parent i.entries
        require (kind_eq e.kind directory) not_directory)

  unfoldable pub require_absent : ℕ → Text → Index → Result (Unit {0})
  require_absent g path i = elim (metadata_in_generation g path i.entries) [
    | ok _ ↦ err conflict
    | err _ ↦ ok tt
  ]

  -- `MoveSubtreeWithAuditAndRepair` up to its audit event.
  unfoldable pub move_subtree : (source destination reason : Text) → Index → Result Index
  move_subtree source destination reason i = do
    g ← generation_for reason i
    metadata_in_generation g source i.entries
    require_parent g destination i
    require_absent g destination i
    update_moved g source destination i

-- `UPDATE file_entries SET trash_entry_id = ?` on a subtree; at least its root must be there.
unfoldable pub hide_subtree : ℕ → (path trash_id : Text) → Index → Result Index
hide_subtree g path trash_id i =
    if any (selected g path) i.entries
    then ok (record i {
      entries =
          update_entries (selected g path) (λ e. record e { trash_entry_id = trash_id }) i.entries;
    })
    else err index_inconsistent

-- `generation_id = ? AND trash_entry_id = ?`
abbrev pub is_hidden_by : ℕ → Text → Entry → Bool
is_hidden_by g trash_id e = e.generation_id == g && text_eq e.trash_entry_id trash_id

-- `UPDATE file_entries SET trash_entry_id = NULL`
unfoldable pub show_again : ℕ → Text → Index → Result Index
show_again g trash_id i =
    if any (is_hidden_by g trash_id) i.entries
    then (if no_clash g (is_hidden_by g trash_id) (λ e. e) i.entries
        then ok (record i {
          entries =
              update_entries (is_hidden_by g trash_id) (λ e. record e { trash_entry_id = [] })
                i.entries;
        })
        else err fault)
    else err index_inconsistent
