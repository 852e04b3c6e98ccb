-- ===== src/Auth/Token.antt =====
-- The bearer token of a session and the hash that is stored of it
-- (server/internal/auth/session_token.go).
use swa_drive.Base.{
  ℕ, Option, none, some, Result, ok, err, fault, invalid_session_token, ◌==◌, if◌then◌else◌, length,
}
use swa_drive.Base.Text.{Text}
use swa_drive.Platform.{Platform}
use swa_drive.Auth.Library.{Library}

abbrev pub session_token_byte_length : ℕ
session_token_byte_length = 32

-- `HashSessionToken`
unfoldable pub hash_session_token : Platform → Text → Text
hash_session_token env token = env.sha256_sum token

module _ (env : Platform) (lib : Library) where
  -- `GenerateSessionToken` on what `rand.Read` gives, if it gives something: the token and its hash.
  unfoldable pub generate_session_token : Option Text → Result (Text × Text)
  generate_session_token none = err fault
  generate_session_token (some random_bytes) =
      ok (lib.encode_url random_bytes, hash_session_token env (lib.encode_url random_bytes))

-- The token is kept as it was sent.
unfoldable pub parse_session_token : Library → Text → Result Text
parse_session_token lib value = elim (lib.decode_url value) [
  | none ↦ err invalid_session_token
  | some decoded ↦
      if length decoded == session_token_byte_length then ok value else err invalid_session_token
]
