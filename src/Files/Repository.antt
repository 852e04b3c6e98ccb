-- ===== src/Files/Repository.antt =====
-- The transactions of package files: `SQLiteFileIndexRepository` (server/internal/files/
-- index_repository.go) and `SQLiteTrashRepository` (sqlite_repository.go). As in the repository of
-- uploads, a transaction answers with the new tables or with an error, and then nothing has changed.
pub mod Unsettled
use swa_drive.Base.{
  ℕ, suc, Bool, true, false, not, ◌&&◌, ◌||◌, Option, none, some, List, [], ◌∷◌, ◌++◌, Result, ok,
  err, not_found, fault, index_inconsistent, trash_entry_not_found, trash_state_error, ◌>>=◌, ◌>>◌,
  require, ltb, leb, ◌==◌, if◌then◌else◌, any, filter, length, take,
}
use swa_drive.Base.Text.{Text, codes, text_eq}
use swa_drive.Platform.{Platform}
use swa_drive.Audit.Event.{Event, append_in_transaction, stored_time}
use swa_drive.Database.{Db}
use swa_drive.Files.Index.{
  Index, Entry, active_generation, active_generation_for_repair, insert_active, clear_health_reason,
  metadata_in_generation, begin_mutation, clear_mutation, mark_unhealthy,
}
use swa_drive.Files.Subtree.{move_subtree, hide_subtree, show_again, is_hidden_by}
use swa_drive.Files.Trash.{
  TrashEntry, TrashState, trashing, trashed, restoring, find_trash, set_trash_state, delete_trash,
  trash_insertable, trash_state_eq,
}

-- A repair's reason is cleared; an empty one is no repair.
abbrev clear_repair : Text → Index → Index
clear_repair reason i = if length reason == 0 then i else clear_health_reason reason i

module _ (env : Platform) where
  unfoldable pub create_entry_with_audit : Entry → Event → (reason : Text) → ℕ → Db → Result Db
  create_entry_with_audit entry e reason now db = do
    index ← insert_active env entry reason db.index
    events ← append_in_transaction e now db.events
    ok (record db { index = clear_repair reason index; events = events })

  unfoldable pub move_subtree_with_audit :
      (source destination : Text) → Event → (reason : Text) → ℕ → Db → Result Db
  move_subtree_with_audit source destination e reason now db = do
    index ← move_subtree env source destination reason db.index
    events ← append_in_transaction e now db.events
    ok (record db { index = clear_repair reason index; events = events })

-- A change of the index alone.
unfoldable pub on_index : (Index → Result Index) → Db → Result Db
on_index f db = do index ← f db.index; ok (record db { index = index })

-- `requireTrashChange`
unfoldable pub require_trash_change : List TrashEntry × ℕ → Result (List TrashEntry)
require_trash_change (rows, n) = if n == 0 then err trash_state_error else ok rows

-- `INSERT … SELECT` from a healthy index that has the path; what did not match is then looked up.
unfoldable pub prepare_trash : TrashEntry → Db → Result Db
prepare_trash e db = do
  g ← active_generation db.index
  metadata_in_generation g e.original_path db.index.entries
  require (trash_insertable e db.trash) fault
  ok (record db {
    trash =
        record e {
          trashed_at = stored_time e.trashed_at;
          state = trashing;
          updated_at = stored_time e.updated_at;
        }
        ∷ db.trash;
  })

unfoldable pub abort_trash : ℕ → Text → Db → Result Db
abort_trash user id db = do
  rows ← require_trash_change (delete_trash user id trashing db.trash)
  ok (record db { trash = rows })

-- `trashHealthReason` and `restoreHealthReason`
unfoldable pub trash_health_reason : Text → Text
trash_health_reason id = codes "trash:" ++ id

unfoldable pub restore_health_reason : Text → Text
restore_health_reason id = codes "restore:" ++ id

unfoldable pub commit_trash_with_audit : ℕ → Text → (updated : ℕ) → Event → ℕ → Db → Result Db
commit_trash_with_audit user id updated e now db = do
  entry ← elim (find_trash user id trashing db.trash) [
    | none ↦ err trash_state_error
    | some f ↦ ok f
  ]
  g ← active_generation_for_repair (trash_health_reason id) db.index
  index ← hide_subtree g entry.original_path id db.index
  rows ←
      require_trash_change (set_trash_state user id trashing trashed (stored_time updated) db.trash)
  events ← append_in_transaction e now db.events
  ok (record db {
    index = clear_health_reason (trash_health_reason id) index;
    trash = rows;
    events = events;
  })

-- The new tables, and the entry as the service goes on with it.
unfoldable pub begin_restore : ℕ → Text → (updated : ℕ) → Db → Result (TrashEntry × Db)
begin_restore user id updated db = do
  g ← active_generation db.index
  entry ← elim (find_trash user id trashed db.trash) [
    | none ↦ err trash_entry_not_found
    | some f ↦ ok f
  ]
  require (any (is_hidden_by g id) db.index.entries) index_inconsistent
  rows ←
      require_trash_change
        (set_trash_state user id trashed restoring (stored_time updated) db.trash)
  ok (record entry { state = restoring; updated_at = updated }, record db { trash = rows })

unfoldable pub rollback_restore : ℕ → Text → (updated : ℕ) → Db → Result Db
rollback_restore user id updated db = do
  rows ←
      require_trash_change
        (set_trash_state user id restoring trashed (stored_time updated) db.trash)
  ok (record db { trash = rows })

unfoldable pub finish_restore_with_audit : ℕ → Text → Event → ℕ → Db → Result Db
finish_restore_with_audit user id e now db = do
  g ← active_generation_for_repair (restore_health_reason id) db.index
  index ← show_again g id db.index
  rows ← require_trash_change (delete_trash user id restoring db.trash)
  events ← append_in_transaction e now db.events
  ok (record db {
    index = clear_health_reason (restore_health_reason id) index;
    trash = rows;
    events = events;
  })
