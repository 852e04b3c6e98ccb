-- ===== src/Storage/Repair.antt =====
-- What compensation and reconciliation ask of the volume: `RemoveEmptyDirectory` and `TrashState` of
-- server/internal/storage/storage.go.
use swa_drive.Base.{
  Bool, true, false, not, ◌&&◌, [], Result, ok, err, invalid_path, not_found, not_regular_file,
  symlink, fault, ◌>>=◌, ◌>>◌, require,
}
use swa_drive.Base.Text.{Text, text_eq}
use swa_drive.Storage.Path.{LogicalPath, valid_internal_name}
use swa_drive.Storage.Disk.{Disk, regular, folder, link, special, present, absent, broken, put_node}
use swa_drive.Storage.Manager.{in_files, in_trash}

-- `Remove`. That a directory is not empty is one of the ways in which a call can fail by a fault.
unfoldable pub remove_empty_directory : LogicalPath → Disk → Result Disk
remove_empty_directory p d = do
  require (not (text_eq p.value [])) invalid_path
  elim (d (in_files p)) [
    | present n ↦ ok (put_node (in_files p) absent d)
    | absent ↦ err not_found
    | broken ↦ err fault
  ]

unfoldable pub regular_or_directory_exists : Text → Disk → Result Bool
regular_or_directory_exists name d = elim (d name) [
  | absent ↦ ok false
  | broken ↦ err fault
  | present n ↦ elim n [
    | regular b t ↦ ok true
    | folder ↦ ok true
    | link ↦ err symlink
    | special ↦ err not_regular_file
  ]
]

unfoldable pub trash_state : Text → LogicalPath → Disk → Result (Bool × Bool)
trash_state name destination d = do
  require (valid_internal_name name && not (text_eq destination.value [])) invalid_path
  in_the_trash ← regular_or_directory_exists (in_trash name) d
  back ← regular_or_directory_exists (in_files destination) d
  ok (in_the_trash, back)
