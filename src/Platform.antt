-- ===== src/Platform.antt =====
-- What the server takes from outside its own code: SHA-256 (`crypto/sha256`) and the Unicode lower
-- case (`strings.ToLower`), as parameters.
use swa_drive.Base.{◌≡◌, length}
use swa_drive.Base.Text.{Text}

pub record Platform : Type 0 where
  pub sha256_sum : Text → Text
  pub to_lower : Text → Text
  -- `sha256.Size`
  pub sha256_size : (s : Text) → length (sha256_sum s) ≡ 32
