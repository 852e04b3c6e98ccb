-- ===== src/Files/Reindex/Tables.antt =====
-- The transactions of a rebuild on the generations of the index and their entries
-- (server/internal/files/reindex.go). The rows of `file_entries` stand in the order of their ids, the
-- newest first.
use swa_drive.Base.{
  ℕ, suc, ◌-◌, Bool, true, false, not, ◌&&◌, ◌||◌, Option, none, some, List, [], ◌∷◌, Result, ok,
  err, fault, joined, index_inconsistent, ◌>>=◌, ◌>>◌, require, ltb, leb, ◌==◌, if◌then◌else◌, any,
  filter, length, map, take,
}
use swa_drive.Base.Order.{text_le, text_lt}
use swa_drive.Base.Text.{Text, text_eq}
use swa_drive.Audit.Event.{stored_time}
use swa_drive.Database.{Db}
use swa_drive.Files.Index.{
  Index, Entry, Generation, GenerationStatus, building, active, obsolete, directory, kind_eq,
  validate_entry, insert_entry,
}
use swa_drive.Files.Trash.{TrashEntry}
use swa_drive.Platform.{Platform}

abbrev pub reindex_batch_size : ℕ
reindex_batch_size = 100

abbrev pub reindex_cleanup_batch_size : ℕ
reindex_cleanup_batch_size = 500

abbrev pub reindex_trash_batch_size : ℕ
reindex_trash_batch_size = 100

abbrev pub building_status : GenerationStatus → Bool
building_status building = true
building_status active = false
building_status obsolete = false

abbrev pub current_status : GenerationStatus → Bool
current_status building = false
current_status active = true
current_status obsolete = false

abbrev pub obsolete_status : GenerationStatus → Bool
obsolete_status building = false
obsolete_status active = false
obsolete_status obsolete = true

abbrev pub is_building : Generation → Bool
is_building g = building_status g.status

abbrev pub is_current : Generation → Bool
is_current g = current_status g.status

abbrev pub is_obsolete : Generation → Bool
is_obsolete g = obsolete_status g.status

unfoldable pub largest_generation : List Generation → ℕ
largest_generation [] = 0
largest_generation (g ∷ gs) =
    let rest = largest_generation gs in if ltb rest g.id then g.id else rest

unfoldable pub interrupt : ℕ → Generation → Generation
interrupt time g =
    if is_building g then record g { status = obsolete; completed_at = some time } else g

unfoldable pub start_generation : ℕ → Db → Result (Generation × Db)
start_generation started_at db =
    let rows = map (interrupt (stored_time started_at)) db.generations in
    let id = suc (largest_generation rows) in
    let made : Generation = record {
      id = id;
      status = building;
      started_at = started_at;
      completed_at = none;
    } in
    let stored : Generation = record made { started_at = stored_time started_at } in
    ok (made, record db { generations = stored ∷ rows })

unfoldable pub find_generation : ℕ → List Generation → Option Generation
find_generation id [] = none
find_generation id (g ∷ gs) =
    let rest = find_generation id gs in if g.id == id then some g else rest

-- `SELECT status FROM file_index_generations WHERE id = ?` and the test on it.
unfoldable pub require_building : ℕ → Db → Result (Unit {0})
require_building id db = elim (find_generation id db.generations) [
  | none ↦ err (joined index_inconsistent fault)
  | some g ↦ require (is_building g) index_inconsistent
]

-- The unique index on the paths of a generation that are not in the trash.
unfoldable pub is_path_taken : Entry → List Entry → Bool
is_path_taken e es =
    length e.trash_entry_id == 0
    && any
        (λ f.
          f.generation_id == e.generation_id
          && text_eq f.path e.path
          && length f.trash_entry_id == 0)
        es

-- The loop of `InsertGenerationBatch`.
unfoldable pub insert_entries : Platform → ℕ → List Entry → Index → Result Index
insert_entries env id [] i = ok i
insert_entries env id (e ∷ es) i = do
  validate_entry env e
  let row = record e { generation_id = id }
  require (not (is_path_taken row i.entries)) fault
  grown ← insert_entry row i
  insert_entries env id es grown

unfoldable pub insert_generation_batch : Platform → ℕ → List Entry → Db → Result Db
insert_generation_batch env id entries db = do
  require (leb 1 (length entries) && leb (length entries) reindex_batch_size) fault
  require_building id db
  index ← insert_entries env id entries db.index
  ok (record db { index = index })

-- An entry outside of the trash whose parent is no indexed directory of the generation.
unfoldable pub is_orphaned : ℕ → List Entry → Entry → Bool
is_orphaned id es e =
    e.generation_id == id
    && length e.trash_entry_id == 0
    && not (length e.parent_path == 0)
    && not (
        any
          (λ p.
            p.generation_id == id
            && text_eq p.path e.parent_path
            && kind_eq p.kind directory
            && length p.trash_entry_id == 0)
          es)

-- The two updates of the generations.
unfoldable pub switch_status : (id time : ℕ) → Generation → Generation
switch_status id time g =
    if is_current g
    then record g { status = obsolete }
    else if g.id == id && is_building g
    then record g { status = active; completed_at = some time }
    else g

unfoldable pub activate_generation : (id expected completed_at : ℕ) → Db → Result Db
activate_generation id expected completed_at db = do
  require_building id db
  require (length (filter (λ e. e.generation_id == id) db.index.entries) == expected)
      index_inconsistent
  require (not (any (is_orphaned id db.index.entries) db.index.entries)) index_inconsistent
  ok (record db {
    generations = map (switch_status id (stored_time completed_at)) db.generations;
    index = record db.index { active_generation = some id; unhealthy = none };
  })

unfoldable pub in_obsolete : List Generation → Entry → Bool
in_obsolete gs e = any (λ g. g.id == e.generation_id && is_obsolete g) gs

-- The oldest rows that pass the test, at most as many as given: how many more could have gone, and the
-- rows that stay.
unfoldable pub drop_oldest : (Entry → Bool) → ℕ → List Entry → ℕ × List Entry
drop_oldest p limit [] = (limit, [])
drop_oldest p limit (e ∷ es) =
    let (spare, kept) = drop_oldest p limit es in
    if p e && leb 1 spare then (spare - 1, kept) else (spare, e ∷ kept)

abbrev pub is_used : List Entry → Generation → Bool
is_used es g = any (λ e. e.generation_id == g.id) es

unfoldable pub cleanup_obsolete_batch : ℕ → Db → Result (ℕ × Db)
cleanup_obsolete_batch limit db = do
  require (leb 1 limit && leb limit reindex_cleanup_batch_size) fault
  let (spare, kept) = drop_oldest (in_obsolete db.generations) limit db.index.entries
  ok (
    limit - spare,
    record db {
      index = record db.index { entries = kept };
      generations = filter (λ g. not (is_obsolete g) || is_used kept g) db.generations;
    },
  )

-- `ORDER BY id`
unfoldable pub insert_by_id : TrashEntry → List TrashEntry → List TrashEntry
insert_by_id e [] = e ∷ []
insert_by_id e (f ∷ fs) =
    let rest = insert_by_id e fs in if text_le e.id f.id then e ∷ f ∷ fs else f ∷ rest

unfoldable pub sort_by_id : List TrashEntry → List TrashEntry
sort_by_id [] = []
sort_by_id (e ∷ es) = insert_by_id e (sort_by_id es)

unfoldable pub list_trash_for_reindex : (after_id : Text) → ℕ → Db → List TrashEntry
list_trash_for_reindex after_id limit db =
    take limit (sort_by_id (filter (λ e. text_lt after_id e.id) db.trash))
