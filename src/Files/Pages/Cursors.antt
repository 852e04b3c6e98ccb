-- ===== src/Files/Pages/Cursors.antt =====
-- The cursor of an entry reads back (server/internal/files/index.go).
use swa_drive.Base.{
  ◌≡◌, refl, sym, ap, ◌∙◌, true, false, ◌||◌, some, ok, arith, inl, inr, Result-cases, length, leb,
  ◌==◌,
}
use swa_drive.Base.Text.{Text, text_eq, text_eq_iff, text_eq_refl}
use swa_drive.Platform.{Platform}
use swa_drive.Storage.Path.{LogicalPath, parse_path}
use swa_drive.Files.Index.{Entry, validate_entry, base_name}
use swa_drive.Files.Pages.{
  Codec, list_cursor, encode_cursor, decode_cursor, check_cursor, list_mode, maximum_cursor_bytes,
}

-- What `validateEntry` says of the names of an entry.
validate_entry-inv :
    (env : Platform) (e : Entry)
    → validate_entry env e ≡ ok tt
    → (p : LogicalPath) × (parse_path e.path false ≡ ok p)
      × (text_eq p.value e.path ≡ true)
      × (text_eq e.name (base_name e.path) ≡ true)
      × (text_eq e.normalized_name (env.to_lower e.name) ≡ true)
unfolding validate_entry
validate_entry-inv env e h = elim (Result-cases (parse_path e.path false)) [
  | inr (f, s) ↦ absurd (ground arith)
  | inl (p, s) ↦ (p, s, ground arith, ground arith, ground arith)
]

module _ (env : Platform) (codec : Codec) (path : Text) (e : Entry) where
  check_cursor-list :
      validate_entry env e ≡ ok tt
      → (length e.normalized_name == 0) || (length e.name == 0) ≡ false
      → check_cursor env codec list_mode path (list_cursor path e) ≡ ok (list_cursor path e)
  unfolding check_cursor
  check_cursor-list valid named =
      let (p, parsed, whole, name, lower) = validate_entry-inv env e valid in
      let base : text_eq (base_name p.value) e.name ≡ true =
        (text_eq_iff (base_name p.value) e.name).1 (
          ap base_name ((text_eq_iff p.value e.path).0 whole)
          ∙ sym ((text_eq_iff e.name (base_name e.path)).0 name)) in
      let lowered : text_eq (env.to_lower e.name) e.normalized_name ≡ true =
        (text_eq_iff (env.to_lower e.name) e.normalized_name).1
          (sym ((text_eq_iff e.normalized_name (env.to_lower e.name)).0 lower)) in
      rw (text_eq_refl path, named, text_eq_refl list_mode, parsed, base, lowered) refl

-- The cursor that a page ends with is read as what it was written from: for an entry that `validateEntry`
-- accepts and whose names are not empty, if base64 and JSON read back what they wrote, and if neither
-- text of the cursor is longer than 12 KiB.
pub decode_cursor-encode_cursor :
    (env : Platform) (codec : Codec) (path : Text) (e : Entry)
    → codec.decode_base64 (codec.encode_base64 (codec.marshal (list_cursor path e)))
      ≡ some (codec.marshal (list_cursor path e))
    → codec.unmarshal (codec.marshal (list_cursor path e)) ≡ some (list_cursor path e)
    → (length (encode_cursor env codec (list_cursor path e)) == 0) ≡ false
    → leb (length (encode_cursor env codec (list_cursor path e))) maximum_cursor_bytes ≡ true
    → leb (length (codec.marshal (list_cursor path e))) maximum_cursor_bytes ≡ true
    → validate_entry env e ≡ ok tt
    → (length e.normalized_name == 0) || (length e.name == 0) ≡ false
    → decode_cursor env codec (encode_cursor env codec (list_cursor path e)) list_mode path
      ≡ ok (list_cursor path e)
unfolding decode_cursor encode_cursor
decode_cursor-encode_cursor env codec path e base64 json some_text fits decoded_fits valid named =
    rw (some_text, fits, base64, decoded_fits, json)
      (check_cursor-list env codec path e valid named)
