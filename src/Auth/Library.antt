-- ===== src/Auth/Library.antt =====
-- What package auth takes from outside its own code: `strings.TrimSpace`, base64 without padding (`RawURLEncoding` for tokens, `RawStdEncoding` for
-- password hashes, both strict), and `argon2.IDKey`, as parameters.
use swa_drive.Base.{ℕ, Option}
use swa_drive.Base.Text.{Text}

pub record Library : Type 0 where
  pub trim_space : Text → Text
  pub encode_url : Text → Text
  pub decode_url : Text → Option Text
  pub encode_std : Text → Text
  pub decode_std : Text → Option Text
  pub id_key : (password salt : Text) (iterations memory parallelism key_length : ℕ) → Text
