-- ===== src/Files/Pages.antt =====
-- Reading the index page by page: `List` and `Search` of server/internal/files/index_repository.go and
-- service.go, and the cursors of index.go.
pub mod Order
pub mod Paging
pub mod Cursors
use swa_drive.Base.{
  ℕ, zero, suc, ◌+◌, Bool, true, false, not, ◌&&◌, ◌||◌, Option, none, some, List, [], ◌∷◌, Result,
  ok, err, owner_required, invalid_page_cursor, invalid_search, not_directory, ◌>>=◌, ◌>>◌, require,
  ltb, leb, ◌==◌, if◌then◌else◌, length, take, filter,
}
use swa_drive.Base.Text.{Text, codes, text_eq}
use swa_drive.Base.Int.{ℤ}
use swa_drive.Base.Order.{text_lt}
use swa_drive.Platform.{Platform}
use swa_drive.Storage.Path.{LogicalPath, parse_path}
use swa_drive.Auth.Model.{Identity, is_owner}
use swa_drive.Database.{Db}
use swa_drive.Files.Index.{
  Entry, directory, kind_eq, base_name, active_generation, metadata_in_generation,
}
use swa_drive.Files.Subtree.{is_shown}
use swa_drive.Files.Service.Downloads.{checked_limit}

-- `indexCursor`
pub record Cursor : Type 0 where
  pub mode : Text
  pub scope : Text
  pub primary : Text
  pub secondary : Text
  pub tertiary : Text

-- What is not this repository's code: base64 and JSON, strict about unknown fields and trailing data,
-- and `strings.TrimSpace`.
pub record Codec : Type 0 where
  pub encode_base64 : Text → Text
  pub decode_base64 : Text → Option Text
  pub marshal : Cursor → Text
  pub unmarshal : Text → Option Cursor
  pub trim_space : Text → Text

pub record Page : Type 0 where
  pub entries : List Entry
  pub next_cursor : Text

abbrev pub maximum_cursor_bytes : ℕ
maximum_cursor_bytes = 12288

abbrev pub maximum_search_query_bytes : ℕ
maximum_search_query_bytes = 256

abbrev pub list_mode : Text
list_mode = codes "list"

abbrev pub search_mode : Text
search_mode = codes "search"

-- `ORDER BY normalized_name, name, logical_path`
unfoldable pub listed_before : Entry → Entry → Bool
listed_before a b =
    text_lt a.normalized_name b.normalized_name
    || text_eq a.normalized_name b.normalized_name && text_lt a.name b.name
    || text_eq a.normalized_name b.normalized_name && text_eq a.name b.name && text_lt a.path b.path

-- `ORDER BY normalized_path, logical_path`
unfoldable pub found_before : Entry → Entry → Bool
found_before a b =
    text_lt a.normalized_path b.normalized_path
    || text_eq a.normalized_path b.normalized_path && text_lt a.path b.path

-- The rows in an order.
unfoldable pub insert_in_order : (Entry → Entry → Bool) → Entry → List Entry → List Entry
insert_in_order before e [] = e ∷ []
insert_in_order before e (f ∷ fs) =
    let rest = insert_in_order before e fs in if before e f then e ∷ f ∷ fs else f ∷ rest

unfoldable pub in_order : (Entry → Entry → Bool) → List Entry → List Entry
in_order before [] = []
in_order before (e ∷ es) = insert_in_order before e (in_order before es)

-- The condition that `List` puts on the rows after the cursor's.
unfoldable pub after_listed : Cursor → Entry → Bool
after_listed c e =
    length c.primary == 0
    || text_lt c.primary e.normalized_name
    || text_eq c.primary e.normalized_name && text_lt c.secondary e.name
    || text_eq c.primary e.normalized_name
      && text_eq c.secondary e.name
      && text_lt c.tertiary e.path

unfoldable pub after_found : Cursor → Entry → Bool
after_found c e =
    length c.primary == 0
    || text_lt c.primary e.normalized_path
    || text_eq c.primary e.normalized_path && text_lt c.secondary e.path

-- `instr(s, t) > 0`
unfoldable pub starts_with : Text → Text → Bool
starts_with [] s = true
starts_with (x ∷ t) [] = false
starts_with (x ∷ t) (y ∷ s) = x == y && starts_with t s

unfoldable pub contains : Text → Text → Bool
contains t [] = starts_with t []
contains t (y ∷ s) = starts_with t (y ∷ s) || contains t s

-- All rows of a directory, in order.
unfoldable pub children : ℕ → Text → List Entry → List Entry
children g parent es =
    in_order listed_before (filter (λ e. is_shown g e && text_eq e.parent_path parent) es)

unfoldable pub matches : ℕ → Text → List Entry → List Entry
matches g text es = in_order found_before (
    filter
      (λ e. is_shown g e && (contains text e.normalized_name || contains text e.normalized_path))
      es)

-- The directory that is listed is the root or an indexed directory.
unfoldable pub require_listed : ℕ → Text → List Entry → Result (Unit {0})
require_listed g parent es = if text_eq parent [] then ok tt else (do
  e ← metadata_in_generation g parent es
  require (kind_eq e.kind directory) not_directory)

-- `repository.List`
unfoldable pub list_index : Text → ℕ → Cursor → Db → Result (List Entry)
list_index parent limit c db = do
  g ← active_generation db.index
  require_listed g parent db.index.entries
  ok (take limit (filter (after_listed c) (children g parent db.index.entries)))

-- `repository.Search`
unfoldable pub search_index : Text → ℕ → Cursor → Db → Result (List Entry)
search_index text limit c db = do
  g ← active_generation db.index
  ok (take limit (filter (after_found c) (matches g text db.index.entries)))

unfoldable pub last_entry : Entry → List Entry → Entry
last_entry e [] = e
last_entry e (f ∷ fs) = last_entry f fs

abbrev pub list_cursor : Text → Entry → Cursor
list_cursor path e = record {
  mode = list_mode;
  scope = path;
  primary = e.normalized_name;
  secondary = e.name;
  tertiary = e.path;
}

abbrev pub search_cursor : Text → Entry → Cursor
search_cursor text e = record {
  mode = search_mode;
  scope = text;
  primary = e.normalized_path;
  secondary = e.path;
  tertiary = [];
}

module _ (env : Platform) (codec : Codec) where
  unfoldable pub encode_cursor : Cursor → Text
  encode_cursor c = codec.encode_base64 (codec.marshal c)

  -- The checks on a cursor that was read, for either mode.
  unfoldable pub check_cursor : (mode scope : Text) → Cursor → Result Cursor
  check_cursor mode scope c = do
    require (text_eq c.mode mode && text_eq c.scope scope) invalid_page_cursor
    require (not (length c.primary == 0 || length c.secondary == 0)) invalid_page_cursor
    (if text_eq mode list_mode
        then elim (parse_path c.tertiary false) [
          | err _ ↦ err invalid_page_cursor
          | ok p ↦
              require
                (text_eq (base_name p.value) c.secondary
                  && text_eq (env.to_lower c.secondary) c.primary)
                invalid_page_cursor
        ]
        else if text_eq mode search_mode
        then elim (parse_path c.secondary false) [
          | err _ ↦ err invalid_page_cursor
          | ok p ↦
              require (text_eq (env.to_lower p.value) c.primary && length c.tertiary == 0)
                invalid_page_cursor
        ]
        else err invalid_page_cursor)
    ok c

  -- `decodeCursor`
  unfoldable pub decode_cursor : (value mode scope : Text) → Result Cursor
  decode_cursor value mode scope =
      if length value == 0
      then ok (record { mode = mode; scope = scope; primary = []; secondary = []; tertiary = [] })
      else (do
        require (leb (length value) maximum_cursor_bytes) invalid_page_cursor
        decoded ← elim (codec.decode_base64 value) [
          | none ↦ err invalid_page_cursor
          | some d ↦ ok d
        ]
        require (leb (length decoded) maximum_cursor_bytes) invalid_page_cursor
        c ← elim (codec.unmarshal decoded) [ none ↦ err invalid_page_cursor | some c ↦ ok c ]
        check_cursor mode scope c)

  -- One row more than the page holds was read: the page and the cursor of its last entry, if there is
  -- more.
  unfoldable pub page_of : (Entry → Cursor) → ℕ → List Entry → Page
  page_of cursor limit [] = record { entries = []; next_cursor = [] }
  page_of cursor limit (e ∷ es) =
      if ltb limit (length (e ∷ es))
      then elim (take limit (e ∷ es)) [
        | [] ↦ record { entries = []; next_cursor = [] }
        | f ∷ fs ↦ record {
          entries = f ∷ fs;
          next_cursor = encode_cursor (cursor (last_entry f fs));
        }
      ]
      else record { entries = e ∷ es; next_cursor = [] }

  -- What `List` and `Search` do with a valid request, up to the query.
  unfoldable pub list_request :
      Identity → (path : Text) → ℤ → (cursor : Text) → Result (LogicalPath × ℕ × Cursor)
  list_request who value limit_value cursor_value = do
    require (is_owner who.role) owner_required
    path ← parse_path value true
    limit ← checked_limit 100 500 limit_value
    c ← decode_cursor cursor_value list_mode path.value
    ok (path, limit, c)

  unfoldable pub search_request :
      Identity → (text : Text) → ℤ → (cursor : Text) → Result (Text × ℕ × Cursor)
  search_request who value limit_value cursor_value = do
    require (is_owner who.role) owner_required
    let text = codec.trim_space value
    require (leb 1 (length text) && leb (length text) maximum_search_query_bytes) invalid_search
    limit ← checked_limit 50 200 limit_value
    c ← decode_cursor cursor_value search_mode (env.to_lower text)
    ok (env.to_lower text, limit, c)
