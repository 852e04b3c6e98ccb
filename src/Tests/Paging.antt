-- ===== src/Tests/Paging.antt =====
-- Two files at the top: the page after the first one, and its cursor.
use swa_drive.Base.{◌≡◌, refl, none, some, Option, List, [], ◌∷◌, ok}
use swa_drive.Base.Text.{Text, codes, text_eq, split, cons_head, join}
use swa_drive.Base.Order.{text_lt}
use swa_drive.Storage.Path.{parse_path, valid_component, has_control, starts_with_slash}
use swa_drive.Storage.Utf8.{valid_string, decode}
use swa_drive.Database.{Db}
use swa_drive.Files.Index.{
  Entry, file, validate_entry, base_name, last_component, parent_path_of, drop_last,
  active_generation,
}
use swa_drive.Files.Pages.{
  Codec, Cursor, list_mode, list_cursor, encode_cursor, decode_cursor, list_index, children,
  in_order, insert_in_order, listed_before, after_listed, require_listed,
}
use swa_drive.Files.Pages.Paging.{distinct, list_index-continues}
use swa_drive.Files.Pages.Cursors.{decode_cursor-encode_cursor}
use swa_drive.Tests.Samples.{env}
use swa_drive.Tests.Filing.{filed}

abbrev named : Text → Entry
named name = record {
  generation_id = 1;
  path = name;
  parent_path = [];
  name = name;
  normalized_name = name;
  normalized_path = name;
  kind = file;
  size = 3;
  modified_at = 7;
  indexed_at = 7;
  trash_entry_id = [];
  whole_sha256 = [];
}

abbrev x1 : Entry
x1 = named (codes "x1")

abbrev y1 : Entry
y1 = named (codes "y1")

abbrev two_files : Db
two_files = record filed.db { index = record filed.db.index { entries = y1 ∷ x1 ∷ [] } }

abbrev start : Cursor
start = record { mode = list_mode; scope = []; primary = []; secondary = []; tertiary = [] }

list_index-continues_example : list_index [] 1 (list_cursor [] x1) two_files ≡ ok (y1 ∷ [])
list_index-continues_example =
    list_index-continues 1 [] 0 1 x1 (y1 ∷ []) start two_files {page = x1 ∷ []}
      (unfold active_generation in refl)
      (unfold active_generation list_index require_listed children in_order insert_in_order
          listed_before text_lt text_eq after_listed in
        refl)
      (unfold distinct text_eq in refl) refl
      (unfold children in_order insert_in_order listed_before text_lt text_eq in refl)

-- A stand-in for base64 and JSON: fields apart by a zero byte, which no path has.
abbrev read_cursor : List Text → Option Cursor
read_cursor (m ∷ q ∷ p ∷ s ∷ t ∷ []) =
    some (record { mode = m; scope = q; primary = p; secondary = s; tertiary = t })
read_cursor _ = none

abbrev codec : Codec
codec = record {
  encode_base64 = λ s. s;
  decode_base64 = λ s. some s;
  marshal = λ c. join 0 (c.mode ∷ c.scope ∷ c.primary ∷ c.secondary ∷ c.tertiary ∷ []);
  unmarshal = λ s. read_cursor (split 0 s);
  trim_space = λ s. s;
}

decode_cursor-encode_cursor_example :
    decode_cursor env codec (encode_cursor env codec (list_cursor [] x1)) list_mode []
    ≡ ok (list_cursor [] x1)
decode_cursor-encode_cursor_example =
    decode_cursor-encode_cursor env codec [] x1 refl (unfold join split cons_head in refl)
      (unfold encode_cursor join in refl) (unfold encode_cursor join in refl) (unfold join in refl)
      (unfold validate_entry parse_path text_eq split cons_head valid_string decode
          starts_with_slash valid_component has_control base_name last_component parent_path_of
          drop_last join in
        refl)
      refl
