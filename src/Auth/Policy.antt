-- ===== src/Auth/Policy.antt =====
-- What a user name, a password and a client's name may be (server/internal/auth/policy.go).
use swa_drive.Base.{
  ℕ, List, none, some, Bool, true, not, ◌&&◌, ◌||◌, [], ◌∷◌, Result, ok, invalid_username,
  invalid_password, invalid_client_name, ◌>>◌, require, ltb, leb, ◌==◌, any, length,
}
use swa_drive.Base.Text.{Text}
use swa_drive.Platform.{Platform}
use swa_drive.Storage.Utf8.{decode, valid_string}
use swa_drive.Auth.Library.{Library}

abbrev pub minimum_username_length : ℕ
minimum_username_length = 1

abbrev pub maximum_username_length : ℕ
maximum_username_length = 64

abbrev pub minimum_password_runes : ℕ
minimum_password_runes = 12

abbrev pub maximum_password_bytes : ℕ
maximum_password_bytes = 1024

abbrev pub maximum_client_name_bytes : ℕ
maximum_client_name_bytes = 256

unfoldable pub is_alphanumeric : ℕ → Bool
is_alphanumeric c = leb b'a' c && leb c b'z' || leb b'0' c && leb c b'9'

-- A byte that may stand inside of a name.
unfoldable pub is_inner : ℕ → Bool
unfolding is_alphanumeric
is_inner c = is_alphanumeric c || c == b'.' || c == b'_' || c == b'-'

-- The loop after its first round: inner bytes, and a last one that is alphanumeric.
unfoldable pub valid_rest : Text → Bool
valid_rest [] = true
valid_rest (c ∷ []) = is_alphanumeric c
valid_rest (c ∷ d ∷ cs) = is_inner c && valid_rest (d ∷ cs)

unfoldable pub valid_username : Text → Bool
valid_username [] = true
valid_username (c ∷ cs) = is_alphanumeric c && valid_rest cs

-- What `range` yields, for a text of valid UTF-8.
unfoldable pub runes : Text → List ℕ
runes s = elim (decode s) [ none ↦ [] | some rs ↦ rs ]

-- `utf8.RuneCountInString`, for a text of valid UTF-8.
abbrev pub rune_count : Text → ℕ
rune_count s = length (runes s)

-- The test in the loop over the runes of a client's name.
unfoldable pub is_low_control : ℕ → Bool
is_low_control c = ltb c 0x20 || c == 0x7f

module _ (env : Platform) (lib : Library) where
  unfoldable pub canonicalize_username : Text → Result Text
  canonicalize_username username = do
    let canonical = env.to_lower (lib.trim_space username)
    require
        (leb minimum_username_length (length canonical)
          && leb (length canonical) maximum_username_length)
        invalid_username
    require (valid_username canonical) invalid_username
    ok canonical

unfoldable pub validate_new_password : Text → Result (Unit {0})
validate_new_password password =
    require
      (valid_string password
        && leb (length password) maximum_password_bytes
        && leb minimum_password_runes (rune_count password))
      invalid_password

unfoldable pub validate_login_password : Text → Result (Unit {0})
validate_login_password password =
    require
      (valid_string password
        && not (length password == 0)
        && leb (length password) maximum_password_bytes)
      invalid_password

unfoldable pub canonicalize_client_name : Library → Text → Result Text
canonicalize_client_name lib client_name = do
  let canonical = lib.trim_space client_name
  require
      (not (length canonical == 0)
        && leb (length canonical) maximum_client_name_bytes
        && valid_string canonical)
      invalid_client_name
  require (not (any is_low_control (runes canonical))) invalid_client_name
  ok canonical
