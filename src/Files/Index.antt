-- ===== src/Files/Index.antt =====
-- The file metadata index (server/internal/files/index.go and index_repository.go): its health, its
-- active generation, and the entries of that generation.
use swa_drive.Base.{
  ℕ, Bool, true, false, not, ◌&&◌, ◌||◌, Option, none, some, List, [], ◌∷◌, Result, ok, err,
  invalid_path, fault, not_found, conflict, not_directory, index_inconsistent, ◌>>=◌, ◌>>◌, require,
  leb, ◌==◌, if◌then◌else◌, length,
}
use swa_drive.Base.Text.{Text, codes, text_eq, split, join}
use swa_drive.Audit.Event.{stored_time}
use swa_drive.Platform.{Platform}
use swa_drive.Storage.Path.{LogicalPath, parse_path, maximum_path_bytes, maximum_component_bytes}

pub data Kind : Type 0 where
  file directory : Kind

abbrev pub kind_eq : Kind → Kind → Bool
kind_eq file file = true
kind_eq directory directory = true
kind_eq _ _ = false

-- A row of `file_entries`; an empty `trash_entry_id` is NULL.
pub record Entry : Type 0 where
  pub generation_id : ℕ
  pub path : Text
  pub parent_path : Text
  pub name : Text
  pub normalized_name : Text
  pub normalized_path : Text
  pub kind : Kind
  pub size : ℕ
  pub modified_at : ℕ
  pub indexed_at : ℕ
  pub trash_entry_id : Text
  pub whole_sha256 : Text

-- `file_index_state` with the generation that it points to, where that one is active. `unhealthy` is
-- the reason, or `none` while the index is healthy.
pub record Index : Type 0 where
  pub active_generation : Option ℕ
  pub unhealthy : Option Text
  pub entries : List Entry

pub data GenerationStatus : Type 0 where
  building active obsolete : GenerationStatus

-- A row of `file_index_generations`.
pub record Generation : Type 0 where
  pub id : ℕ
  pub status : GenerationStatus
  pub started_at : ℕ
  pub completed_at : Option ℕ

unfoldable pub last_component : List Text → Text
last_component [] = codes "."
last_component (c ∷ []) = c
last_component (c ∷ d ∷ cs) = last_component (d ∷ cs)

unfoldable pub drop_last : List Text → List Text
drop_last [] = []
drop_last (c ∷ []) = []
drop_last (c ∷ d ∷ cs) = c ∷ drop_last (d ∷ cs)

-- `path.Base` and, with `.` read as the root, `path.Dir`, on a path that `ParsePath` accepts.
unfoldable pub base_name : Text → Text
unfolding last_component split
base_name v = last_component (split b'/' v)

unfoldable pub parent_path_of : Text → Text
unfolding drop_last split join
parent_path_of v = join b'/' (drop_last (split b'/' v))

-- The checks of `NewEntry` and `validateEntry` on a checksum: there is none, or it has 32 bytes.
abbrev pub checksum_size_ok : Text → Bool
checksum_size_ok s = length s == 0 || length s == 32

module _ (env : Platform) where
  -- `NewEntry`, with the fields of an entry that is not in the trash.
  unfoldable pub new_entry : LogicalPath → Kind → ℕ → ℕ → ℕ → Text → Result Entry
  new_entry p kind size modified_at indexed_at sha = do
    require (not (text_eq p.value []) && checksum_size_ok sha) invalid_path
    let name = base_name p.value
    let normalized_name = env.to_lower name
    let normalized_path = env.to_lower p.value
    require
        (leb (length normalized_name) maximum_component_bytes
          && leb (length normalized_path) maximum_path_bytes)
        invalid_path
    ok (record {
      generation_id = 0;
      path = p.value;
      parent_path = parent_path_of p.value;
      name = name;
      normalized_name = normalized_name;
      normalized_path = normalized_path;
      kind = kind;
      size = size;
      modified_at = modified_at;
      indexed_at = indexed_at;
      trash_entry_id = [];
      whole_sha256 = sha;
    })

  unfoldable pub validate_entry : Entry → Result (Unit {0})
  validate_entry e = do
    p ← elim (parse_path e.path false) [ ok p ↦ ok p | err _ ↦ err invalid_path ]
    require
        (text_eq p.value e.path
          && text_eq e.parent_path (parent_path_of e.path)
          && text_eq e.name (base_name e.path)
          && text_eq e.normalized_name (env.to_lower e.name)
          && text_eq e.normalized_path (env.to_lower e.path)
          && checksum_size_ok e.whole_sha256
          && (length e.trash_entry_id == 0
              || leb 16 (length e.trash_entry_id) && leb (length e.trash_entry_id) 128))
        invalid_path

-- `SELECT … WHERE generation_id = ? AND logical_path = ? AND trash_entry_id IS NULL`
unfoldable pub metadata_in_generation : ℕ → Text → List Entry → Result Entry
metadata_in_generation g p [] = err not_found
metadata_in_generation g p (e ∷ es) =
    if e.generation_id == g && text_eq e.path p && length e.trash_entry_id == 0
    then ok e
    else metadata_in_generation g p es

unfoldable pub active_generation : Index → Result ℕ
active_generation i = elim i.active_generation [
  | none ↦ err index_inconsistent
  | some g ↦ elim i.unhealthy [ none ↦ ok g | some _ ↦ err index_inconsistent ]
]

unfoldable pub active_generation_for_repair : Text → Index → Result ℕ
active_generation_for_repair reason i = elim i.active_generation [
  | none ↦ err index_inconsistent
  | some g ↦ elim i.unhealthy [
    | none ↦ ok g
    | some r ↦ if text_eq r reason then ok g else err index_inconsistent
  ]
]

-- A destination is free: nothing is indexed there, and its parent is an indexed directory.
unfoldable pub require_available_in_generation : ℕ → Text → Index → Result (Unit {0})
require_available_in_generation g p i = elim (metadata_in_generation g p i.entries) [
  | ok _ ↦ err conflict
  | err _ ↦
      (let parent = parent_path_of p in
        if text_eq parent [] then ok tt else (do
          e ← metadata_in_generation g parent i.entries
          require (kind_eq e.kind directory) not_directory))
]

unfoldable pub require_available_active_path : Text → Index → Result (Unit {0})
require_available_active_path p i = do
  g ← active_generation i
  require_available_in_generation g p i

-- The checks of `file_entries`.
unfoldable pub storable : Entry → Bool
storable e =
    leb 1 (length e.path)
    && leb (length e.path) 4096
    && leb (length e.parent_path) 4096
    && leb 1 (length e.name)
    && leb (length e.name) 255
    && leb 1 (length e.normalized_name)
    && leb (length e.normalized_name) 255
    && leb 1 (length e.normalized_path)
    && leb (length e.normalized_path) 4096
    && (length e.trash_entry_id == 0
        || leb 16 (length e.trash_entry_id) && leb (length e.trash_entry_id) 128)
    && checksum_size_ok e.whole_sha256

-- `insertEntry`: times in seconds.
unfoldable pub insert_entry : Entry → Index → Result Index
insert_entry e i = do
  require (storable e) fault
  ok (record i {
    entries =
        record e { modified_at = stored_time e.modified_at; indexed_at = stored_time e.indexed_at }
        ∷ i.entries;
  })

-- An empty reason is no repair.
unfoldable pub generation_for : Text → Index → Result ℕ
generation_for reason i =
    if length reason == 0 then active_generation i else active_generation_for_repair reason i

module _ (env : Platform) where
  unfoldable pub confirm_active : Entry → Text → Index → Result Index
  confirm_active e reason i = do
    validate_entry env e
    g ← generation_for reason i
    elim (metadata_in_generation g e.path i.entries) [
      | ok old ↦ do require (kind_eq old.kind e.kind && old.size == e.size) index_inconsistent; ok i
      | err _ ↦ do
        require_available_in_generation g e.path i
        insert_entry (record e { generation_id = g }) i
    ]

  unfoldable pub insert_active : Entry → Text → Index → Result Index
  insert_active e reason i = do
    validate_entry env e
    g ← generation_for reason i
    require_available_in_generation g e.path i
    insert_entry (record e { generation_id = g }) i

-- `BeginMutation`: a healthy index gets the mutation's reason.
unfoldable pub begin_mutation : Text → Index → Result Index
begin_mutation reason i = do
  require (leb 1 (length reason) && leb (length reason) 256) index_inconsistent
  elim i.active_generation [
    | none ↦ err index_inconsistent
    | some g ↦ elim i.unhealthy [
      | none ↦ ok (record i { unhealthy = some reason })
      | some r ↦ err index_inconsistent
    ]
  ]

unfoldable pub clear_mutation : Text → Index → Result Index
clear_mutation reason i = elim i.unhealthy [
  | none ↦ err index_inconsistent
  | some r ↦ if text_eq r reason then ok (record i { unhealthy = none }) else err index_inconsistent
]

unfoldable pub mark_unhealthy : Text → Index → Result Index
mark_unhealthy reason i = do
  require (leb 1 (length reason) && leb (length reason) 256) index_inconsistent
  ok (record i {
    unhealthy = some (elim i.unhealthy [
      | none ↦ reason
      | some r ↦ if text_eq r reason then reason else codes "multiple"
    ]);
  })

unfoldable pub clear_health_reason : Text → Index → Index
clear_health_reason reason i = record i {
  unhealthy = elim i.unhealthy [ none ↦ none | some r ↦ if text_eq r reason then none else some r ];
}
