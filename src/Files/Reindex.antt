-- ===== src/Files/Reindex.antt =====
-- Rebuilding the file index from the volume (server/internal/files/reindex.go): a new generation of the
-- index is filled and activated, and the rows of the old ones are removed in batches.
pub mod Tables
pub mod Statuses
pub mod Generations
pub mod Cleanup
pub mod Activation
use swa_drive.Base.{
  ℕ, zero, suc, ◌+◌, ◌-◌, ◌≡◌, Bool, true, false, not, ◌&&◌, ◌||◌, Option, none, some, List, [],
  ◌∷◌, ◌++◌, Result, ok, err, Error, fault, joined, index_inconsistent, reconciliation, require,
  ltb, leb, ◌==◌, if◌then◌else◌, all, any, filter, length, map, take,
}
use swa_drive.Base.Order.{text_le, text_lt}
use swa_drive.Base.Text.{Text, text_eq}
use swa_drive.Audit.Event.{stored_time}
use swa_drive.Database.{Db}
use swa_drive.Files.Index.{
  Index, Entry, Generation, GenerationStatus, building, active, obsolete, Kind, file, directory,
  kind_eq, new_entry, validate_entry, insert_entry,
}
use swa_drive.Files.Trash.{TrashEntry, is_unsettled}
use swa_drive.Platform.{Platform}
use swa_drive.Storage.Disk.{Disk}
use swa_drive.Storage.Path.{parse_path}
use swa_drive.World.{
  World, M, ◌>>=◌, ◌>>◌, lift, pure, raise, gets, guard, now, fallible, query, transact,
  transact_with,
}
use swa_drive.Files.Reindex.Tables.{
  reindex_batch_size, reindex_cleanup_batch_size, reindex_trash_batch_size, start_generation,
  insert_generation_batch, activate_generation, cleanup_obsolete_batch, list_trash_for_reindex,
}

-- `storage.ReindexEntry`
pub record ReindexEntry : Type 0 where
  pub relative_path : Text
  pub is_directory : Bool
  pub size : ℕ
  pub modified_at : ℕ

-- The interface `ReindexStorage`: what a walk hands to its visitor on a volume, and the error that it
-- ends with if the visitor never fails.
pub record ReindexStorage : Type 0 where
  pub walk_files : Disk → List ReindexEntry × Option Error
  pub walk_trash : (trash_name : Text) → Disk → List ReindexEntry × Option Error

-- `ReindexProgress`
pub record Progress : Type 0 where
  pub generation_id : ℕ
  pub indexed : ℕ
  pub obsolete_rows : ℕ

-- The variables `batch` and `state.Indexed` that the closures of `Rebuild` share.
pub record Filling : Type 0 where
  pub batch : List Entry
  pub indexed : ℕ

abbrev pub kind_of : ReindexEntry → Kind
kind_of item = if item.is_directory then directory else file

-- The path below which a walk through the trash counts.
unfoldable pub path_below : (base relative : Text) → Text
path_below base relative =
    if length relative == 0
    then base
    else if length base == 0
    then relative
    else base ++ (b'/' ∷ relative)

module _ (env : Platform) (id : ℕ) where
  unfoldable pub flush : Filling → M Filling
  flush s = if length s.batch == 0 then pure s else (do
    transact (λ _. insert_generation_batch env id s.batch)
    pure (record { batch = []; indexed = s.indexed + length s.batch }))

  unfoldable pub append_entry : (path trash_id : Text) → ReindexEntry → Filling → M Filling
  append_entry path trash_id item s = do
    parsed ← lift (parse_path path false)
    t ← now
    entry ← lift (new_entry env parsed (kind_of item) item.size item.modified_at t [])
    let grown = record s { batch = s.batch ++ (record entry { trash_entry_id = trash_id } ∷ []) }
    if length grown.batch == reindex_batch_size then flush grown else pure grown

  unfoldable pub visit_all : (base trash_id : Text) → List ReindexEntry → Filling → M Filling
  visit_all base trash_id [] s = pure s
  visit_all base trash_id (item ∷ items) s = do
    next ← append_entry (path_below base item.relative_path) trash_id item s
    visit_all base trash_id items next

  abbrev pub walk : (base trash_id : Text) → List ReindexEntry × Option Error → Filling → M Filling
  walk base trash_id (items, end) s = do
    next ← visit_all base trash_id items s
    elim end [ none ↦ pure next | some e ↦ raise e ]

module _ (env : Platform) (id : ℕ) (storage : ReindexStorage) where
  -- A page of the trash, and the id that the next one begins after.
  unfoldable pub rebuild_trash_page : List TrashEntry → Text → Filling → M (Text × Filling)
  rebuild_trash_page [] after_id s = pure (after_id, s)
  rebuild_trash_page (e ∷ es) after_id s = do
    guard (not (is_unsettled e)) reconciliation
    w ← gets (λ w. w)
    next ← walk env id e.original_path e.id (storage.walk_trash e.trash_name w.disk) s
    rebuild_trash_page es e.id next

  -- `rebuildTrash`, for as many pages as given.
  unfoldable pub rebuild_trash : ℕ → Text → Filling → M (Option Filling)
  rebuild_trash zero after_id s = pure none
  rebuild_trash (suc pages) after_id s = do
    entries ← query (λ db. ok (list_trash_for_reindex after_id reindex_trash_batch_size db))
    (last, next) ← rebuild_trash_page entries after_id s
    if ltb (length entries) reindex_trash_batch_size
        then pure (some next)
        else rebuild_trash pages last next

-- The last loop of `Rebuild`, for as many rounds as given: how many rows went.
unfoldable pub cleanup : ℕ → ℕ → M (Option ℕ)
cleanup zero removed = pure none
cleanup (suc rounds) removed = do
  deleted ← transact_with (cleanup_obsolete_batch reindex_cleanup_batch_size)
  elim deleted [
    | zero ↦ pure (some removed)
    | suc n ↦ do fallible; cleanup rounds (removed + suc n)
  ]

abbrev pub with_rows : Progress → Option ℕ → Option Progress
with_rows p none = none
with_rows p (some n) = some (record p { obsolete_rows = n })

-- `Rebuild` from where the walks are over.
unfoldable pub activate_filled : Platform → (rounds id : ℕ) → Option Filling → M (Option Progress)
activate_filled env rounds id none = pure none
activate_filled env rounds id (some s) = do
  last ← flush env id s
  t ← now
  transact (λ _. activate_generation id last.indexed t)
  removed ← cleanup rounds 0
  let progress : Progress = record { generation_id = id; indexed = last.indexed; obsolete_rows = 0 }
  pure (with_rows progress removed)

-- `Rebuild` without the calls of `progress`, which only print.
unfoldable pub rebuild : Platform → ReindexStorage → (pages rounds : ℕ) → M (Option Progress)
rebuild env storage pages rounds = do
  t ← now
  generation ← transact_with (start_generation t)
  w ← gets (λ w. w)
  active_part ←
      walk env generation.id [] [] (storage.walk_files w.disk) (record { batch = []; indexed = 0 })
  filled ← rebuild_trash env generation.id storage pages [] active_part
  activate_filled env rounds generation.id filled
