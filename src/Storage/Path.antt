-- ===== src/Storage/Path.antt =====
-- Logical paths and internal names (server/internal/storage/path.go).
pub mod Containment
use swa_drive.Base.{
  ℕ, ◌≡◌, refl, Bool, true, false, not, ◌&&◌, ◌||◌, Option, none, some, List, [], ◌∷◌, Result, ok,
  err, invalid_path, ltb, leb, ◌==◌, if◌then◌else◌, all, any, length,
}
use swa_drive.Base.Text.{Text, codes, text_eq, split}
use swa_drive.Storage.Utf8.{decode, valid_string, is_control}

abbrev pub maximum_path_bytes : ℕ
maximum_path_bytes = 4096

abbrev pub maximum_component_bytes : ℕ
maximum_component_bytes = 255

abbrev pub maximum_path_depth : ℕ
maximum_path_depth = 128

-- `type Path struct { value string }`
pub record LogicalPath : Type 0 where
  pub value : Text

-- `strings.HasPrefix(value, "/")`
unfoldable pub starts_with_slash : Text → Bool
starts_with_slash [] = false
starts_with_slash (b ∷ bs) = b == b'/'

-- The loop `for _, character := range component`. It is reached with valid UTF-8 only, of which
-- every component is valid too.
unfoldable pub has_control : Text → Bool
unfolding is_control decode
has_control c = elim (decode c) [ none ↦ false | some rs ↦ any (λ r. r == 0 || is_control r) rs ]

-- One round of the loop over the components.
unfoldable pub valid_component : Text → Bool
valid_component c = not (
    text_eq c []
    || text_eq c (codes ".")
    || text_eq c (codes "..")
    || ltb maximum_component_bytes (length c)
    || has_control c)

unfoldable pub parse_path : Text → Bool → Result LogicalPath
parse_path value allow_root =
    if text_eq value []
    then (if allow_root then ok (record { value = [] }) else err invalid_path)
    else if ltb maximum_path_bytes (length value)
        || not (valid_string value)
        || starts_with_slash value
        || any (λ b. b == 0x5c) value
    then err invalid_path
    else (let components = split b'/' value in
        if ltb maximum_path_depth (length components)
        then err invalid_path
        else if all valid_component components
        then ok (record { value = value })
        else err invalid_path)

-- `Path.rootName`
unfoldable pub root_name : LogicalPath → Text
unfolding text_eq
root_name path = if text_eq path.value [] then codes "." else path.value

unfoldable pub valid_internal_character : ℕ → Bool
valid_internal_character b =
    leb b'a' b && leb b b'z' || leb b'0' b && leb b b'9' || b == b'-' || b == b'_' || b == b'.'

unfoldable pub valid_internal_name : Text → Bool
unfolding text_eq valid_internal_character
valid_internal_name name =
    not (
      text_eq name []
      || text_eq name (codes ".")
      || text_eq name (codes "..")
      || ltb 256 (length name))
    && all valid_internal_character name

parse_nested : parse_path (codes "a/b.txt") false ≡ ok (record { value = codes "a/b.txt" })
unfolding parse_path text_eq split valid_string starts_with_slash valid_component has_control
parse_nested = refl

parse_dots : parse_path (codes "a/../b") false ≡ err invalid_path
unfolding parse_path text_eq split valid_string starts_with_slash valid_component has_control
parse_dots = refl
