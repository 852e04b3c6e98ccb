-- ===== src/Storage/Manager.antt =====
-- `Manager` of server/internal/storage/storage.go: the part files, the published files and the trash
-- below one storage root. Modes, `fsync` and free space aside, each method is its source's guards and
-- calls in order.
pub mod Publication
use swa_drive.Base.{
  ℕ, ◌≡◌, Bool, true, false, not, ◌&&◌, ◌||◌, Option, none, some, List, [], ◌∷◌, ◌++◌, Result, ok,
  err, ◌+◌, ◌-◌, ◌*◌, ◌/◌, ◌^◌, invalid_path, conflict, not_found, not_directory, not_regular_file,
  symlink, insufficient_space, fault, ◌>>=◌, ◌>>◌, require, ltb, leb, ◌==◌, if◌then◌else◌, length,
}
use swa_drive.Base.Text.{Text, codes, text_eq}
use swa_drive.Storage.Path.{LogicalPath, root_name, valid_internal_name}
use swa_drive.Storage.Disk.{
  Node, regular, folder, link, special, Lookup, present, absent, broken, Disk, put_node, rename,
  below,
}
use swa_drive.Files.Index.{parent_path_of}

abbrev pub in_files : LogicalPath → Text
in_files p = codes "files/" ++ root_name p

abbrev pub in_uploads : Text → Text
in_uploads name = codes "uploads/" ++ name

abbrev pub in_trash : Text → Text
in_trash name = codes "trash/" ++ name

-- `Lstat`, with its error as `mapFilesystemError` gives it.
unfoldable pub lstat : Text → Disk → Result Node
lstat name d = elim (d name) [ present n ↦ ok n | absent ↦ err not_found | broken ↦ err fault ]

unfoldable pub ensure_destination_available : LogicalPath → Disk → Result (Unit {0})
ensure_destination_available p d = elim (d (in_files p)) [
  | present n ↦ err conflict
  | absent ↦ ok tt
  | broken ↦ err fault
]

-- The parent of a top-level path is the files root itself.
abbrev parent_in_files : LogicalPath → Text
parent_in_files p =
    let parent = parent_path_of (root_name p) in
    if text_eq parent [] then codes "files" else codes "files/" ++ parent

unfoldable pub ensure_files_parent : LogicalPath → Disk → Result (Unit {0})
ensure_files_parent p d = do
  n ← lstat (parent_in_files p) d
  elim n [
    | folder ↦ ok tt
    | link ↦ err symlink
    | regular _ _ ↦ err not_directory
    | special ↦ err not_directory
  ]

-- `safeSourceInfo`
unfoldable pub safe_source_info : LogicalPath → Disk → Result Node
safe_source_info p d = do
  require (not (text_eq p.value [])) invalid_path
  n ← lstat (in_files p) d
  elim n [
    | regular b t ↦ ok (regular b t)
    | folder ↦ ok folder
    | link ↦ err symlink
    | special ↦ err not_regular_file
  ]

unfoldable pub create_directory : LogicalPath → Disk → Result Disk
create_directory p d = do
  require (not (text_eq p.value [])) conflict
  ensure_destination_available p d
  ensure_files_parent p d
  ok (put_node (in_files p) (present folder) d)

unfoldable pub move : LogicalPath → LogicalPath → Disk → Result Disk
move source destination d = do
  require
      (not (
        text_eq source.value []
        || text_eq destination.value []
        || text_eq source.value destination.value))
      invalid_path
  safe_source_info source d
  ensure_destination_available destination d
  ensure_files_parent destination d
  -- A directory cannot be moved below itself (`EINVAL`).
  elim (below (in_files source) (in_files destination)) [
    | some _ ↦ err fault
    | none ↦ ok (rename (in_files source) (in_files destination) d)
  ]

unfoldable pub move_to_trash : LogicalPath → Text → Disk → Result Disk
move_to_trash source name d = do
  require (not (text_eq source.value []) && valid_internal_name name) invalid_path
  safe_source_info source d
  elim (d (in_trash name)) [
    | present n ↦ err conflict
    | absent ↦ ok (rename (in_files source) (in_trash name) d)
    | broken ↦ err fault
  ]

unfoldable pub restore_from_trash : Text → LogicalPath → Disk → Result Disk
restore_from_trash name destination d = do
  require (valid_internal_name name && not (text_eq destination.value [])) invalid_path
  n ← lstat (in_trash name) d
  elim n [
    | link ↦ err symlink
    | _ ↦ do
      ensure_destination_available destination d
      ensure_files_parent destination d
      ok (rename (in_trash name) (in_files destination) d)
  ]

-- `OpenDownload`: the bytes and the modification time of a regular file.
unfoldable pub open_download : LogicalPath → Disk → Result (Text × ℕ)
open_download p d = do
  n ← safe_source_info p d
  elim n [ regular b t ↦ ok (b, t) | _ ↦ err not_regular_file ]

unfoldable pub prepare_upload : LogicalPath → Disk → Result (Unit {0})
prepare_upload p d = do ensure_destination_available p d; ensure_files_parent p d

-- `O_CREATE|O_EXCL`
unfoldable pub create_part : Text → ℕ → Disk → Result Disk
create_part name now d = do
  require (valid_internal_name name) invalid_path
  elim (d (in_uploads name)) [
    | present n ↦ err conflict
    | absent ↦ ok (put_node (in_uploads name) (present (regular [] now)) d)
    | broken ↦ err fault
  ]

-- `OpenPart`, for reading and writing: a directory cannot be opened so, and no part is a link.
unfoldable pub open_part : Text → Disk → Result Text
open_part name d = do
  require (valid_internal_name name) invalid_path
  n ← lstat (in_uploads name) d
  elim n [ regular b t ↦ ok b | _ ↦ err fault ]

unfoldable pub remove_part : Text → Disk → Result Disk
remove_part name d = do
  require (valid_internal_name name) invalid_path
  elim (d (in_uploads name)) [
    | present n ↦ ok (put_node (in_uploads name) absent d)
    | absent ↦ ok d
    | broken ↦ err fault
  ]

-- `PartInfo`: the bytes, whose number is the size, and the modification time.
unfoldable pub part_info : Text → Disk → Result (Text × ℕ)
part_info name d = do
  require (valid_internal_name name) invalid_path
  n ← lstat (in_uploads name) d
  elim n [ regular b t ↦ ok (b, t) | _ ↦ err not_regular_file ]

unfoldable pub finalize_part : Text → LogicalPath → Disk → Result Disk
finalize_part name destination d = do
  require (valid_internal_name name && not (text_eq destination.value [])) invalid_path
  part_info name d
  ensure_destination_available destination d
  ensure_files_parent destination d
  ok (rename (in_uploads name) (in_files destination) d)

pub record PublicationState : Type 0 where
  pub part_exists : Bool
  pub destination_exists : Bool
  pub destination_size : ℕ
  pub destination_modified_at : ℕ

-- A regular file, nothing, or an error.
unfoldable pub regular_or_absent : Text → Disk → Result (Option (Text × ℕ))
regular_or_absent name d = elim (d name) [
  | absent ↦ ok none
  | broken ↦ err fault
  | present n ↦ elim n [
    | regular b t ↦ ok (some (b, t))
    | link ↦ err symlink
    | _ ↦ err not_regular_file
  ]
]

unfoldable pub finalization_state : Text → LogicalPath → Disk → Result PublicationState
finalization_state name destination d = do
  require (valid_internal_name name && not (text_eq destination.value [])) invalid_path
  part ← regular_or_absent (in_uploads name) d
  file ← regular_or_absent (in_files destination) d
  ok (record {
    part_exists = elim part [ none ↦ false | some _ ↦ true ];
    destination_exists = elim file [ none ↦ false | some _ ↦ true ];
    destination_size = elim file [ none ↦ 0 | some (b, t) ↦ length b ];
    destination_modified_at = elim file [ none ↦ 0 | some (b, t) ↦ t ];
  })

abbrev pub max_uint64 : ℕ
max_uint64 = 18446744073709551615

-- `CheckAvailable` on what `statfs` reports: the block size and the free blocks.
unfoldable pub check_available : ℕ → ℕ → ℕ → ℕ → Result (Unit {0})
check_available block_size blocks required reserve =
    let full = not (block_size == 0) && ltb (max_uint64 / block_size) blocks in
    let available = if full then max_uint64 else blocks * block_size in
    if ltb available required || ltb (available - required) reserve
    then err insufficient_space
    else ok tt
