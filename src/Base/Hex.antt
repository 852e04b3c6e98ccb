-- ===== src/Base/Hex.antt =====
-- Hexadecimal digits, as `encoding/hex` reads and writes them.
use Prim.Native.Nat.{ℕ, ◌+◌, ◌/◌, ◌%◌}
use mathlib.Core.Bool.{Bool, ◌&&◌, ◌||◌}
use mathlib.Core.List.{[], ◌∷◌}
use swa_drive.Base.Checks.{ltb, leb, if◌then◌else◌}
use swa_drive.Base.Text.{Text}

unfoldable pub is_hex_digit : ℕ → Bool
is_hex_digit b = leb b'0' b && leb b b'9' || leb b'a' b && leb b b'f' || leb b'A' b && leb b b'F'

abbrev hex_digit : ℕ → ℕ
hex_digit n = if ltb n 10 then b'0' + n else 0x57 + n

-- `hex.EncodeToString`
unfoldable pub encode_hex : Text → Text
encode_hex [] = []
encode_hex (b ∷ bs) = hex_digit (b / 16) ∷ hex_digit (b % 16) ∷ encode_hex bs
