-- ===== src/Files/Service/Downloads.antt =====
-- Reading: `Metadata`, `OpenDownload` and `ListTrash` of server/internal/files/service.go.
use swa_drive.Base.{
  ℕ, Bool, true, false, ◌&&◌, ◌||◌, List, [], ◌∷◌, Result, ok, err, Error, owner_required,
  download_busy, index_inconsistent, not_found, not_regular_file, symlink, invalid_search, joined,
  errors_is, ltb, ◌==◌, ◌/◌, if◌then◌else◌, length, take, filter,
}
use swa_drive.Base.Text.{Text, codes, text_eq}
use swa_drive.Base.Int.{ℤ, pos, negsuc}
use swa_drive.Base.Order.{text_le}
use swa_drive.Storage.Path.{LogicalPath, parse_path}
use swa_drive.Storage.Manager.{open_download}
use swa_drive.Audit.Event.{second}
use swa_drive.Auth.Model.{Identity, is_owner}
use swa_drive.Database.{Db}
use swa_drive.Files.Index.{
  Entry, file, directory, kind_eq, active_generation, metadata_in_generation, mark_unhealthy,
}
use swa_drive.Files.Trash.{TrashEntry, trashed, trash_state_eq}
use swa_drive.Files.Repository.{on_index}
use swa_drive.Files.Service.{file_event}
use swa_drive.World.{
  M, ◌>>=◌, ◌>>◌, lift, pure, raise, raise_joined, attempt, gets, guard, now, fallible, query,
  inspect, transact,
}
use swa_drive.World.Audit.{record_event}

-- `repository.index.CheckHealthy`
unfoldable pub check_healthy : Db → Result (Unit {0})
check_healthy db = elim (active_generation db.index) [ ok g ↦ ok tt | err f ↦ err f ]

-- `repository.index.Metadata`
unfoldable pub indexed_metadata : Text → Db → Result Entry
indexed_metadata path db = elim (active_generation db.index) [
  | err f ↦ err f
  | ok g ↦ metadata_in_generation g path db.index.entries
]

-- What `Metadata` answers for the root; times are those of the Unix epoch.
abbrev pub root_entry : Entry
root_entry = record {
  generation_id = 0;
  path = [];
  parent_path = [];
  name = [];
  normalized_name = [];
  normalized_path = [];
  kind = directory;
  size = 0;
  modified_at = 0;
  indexed_at = 0;
  trash_entry_id = [];
  whole_sha256 = [];
}

unfoldable pub metadata : Identity → Text → M Entry
metadata who value = do
  guard (is_owner who.role) owner_required
  path ← lift (parse_path value true)
  (if text_eq path.value []
      then query check_healthy >> pure root_entry
      else query (indexed_metadata path.value))

unfoldable pub mark_index : Text → M (Unit {0})
mark_index reason = do t ← now; transact (λ _. on_index (mark_unhealthy reason))

abbrev pub is_missing : Error → Bool
is_missing not_found = true
is_missing symlink = true
is_missing not_regular_file = true
is_missing _ = false

-- The bytes of the file and its entry. The slot that the download keeps until it is closed is not
-- part of the state.
unfoldable pub check_download :
    Identity → LogicalPath → Entry → Result (Text × ℕ) → M (Text × Entry)
check_download who path entry (err f) =
    if errors_is is_missing f
    then raise_joined (joined index_inconsistent f) (mark_index (codes "download-open"))
    else raise f
check_download who path entry (ok (content, modified_at)) =
    if length content == entry.size && modified_at / second == entry.modified_at / second
    then (do
      e ← file_event who (codes "files.download_requested") (codes "file") [] path.value [] []
      record_event e
      pure (content, entry))
    else raise_joined index_inconsistent (mark_index (codes "download-metadata"))

-- `OpenDownload`
unfoldable pub download_file : Identity → Text → M (Text × Entry)
download_file who value = do
  guard (is_owner who.role) owner_required
  w ← gets (λ w. w)
  guard (ltb w.downloading w.download_admissions) download_busy
  fallible
  path ← lift (parse_path value false)
  entry ← query (indexed_metadata path.value)
  guard (kind_eq entry.kind file) not_regular_file
  opened ← attempt (inspect (open_download path))
  check_download who path entry opened

-- `ORDER BY trashed_at DESC, id DESC`
unfoldable pub insert_latest : TrashEntry → List TrashEntry → List TrashEntry
insert_latest e [] = e ∷ []
insert_latest e (f ∷ fs) =
    let rest = insert_latest e fs in
    if ltb f.trashed_at e.trashed_at || e.trashed_at == f.trashed_at && text_le f.id e.id
    then e ∷ f ∷ fs
    else f ∷ rest

unfoldable pub sort_latest : List TrashEntry → List TrashEntry
sort_latest [] = []
sort_latest (e ∷ es) = insert_latest e (sort_latest es)

unfoldable pub list_trash_rows : ℕ → ℕ → Db → List TrashEntry
list_trash_rows user limit db =
    take limit
      (sort_latest (filter (λ e. e.user_id == user && trash_state_eq e.state trashed) db.trash))

-- The limit of a listing: 0 means the default.
unfoldable pub checked_limit : (default maximum : ℕ) → ℤ → Result ℕ
checked_limit default maximum (negsuc n) = err invalid_search
checked_limit default maximum (pos n) =
    if n == 0 then ok default else if ltb maximum n then err invalid_search else ok n

unfoldable pub list_trash : Identity → ℤ → M (List TrashEntry)
list_trash who limit_value = do
  guard (is_owner who.role) owner_required
  limit ← lift (checked_limit 100 200 limit_value)
  query (λ db. ok (list_trash_rows who.user_id limit db))
