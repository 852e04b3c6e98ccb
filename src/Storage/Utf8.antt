-- ===== src/Storage/Utf8.antt =====
-- `unicode/utf8` and `unicode.IsControl`, as server/internal/storage/path.go and
-- server/internal/auth/policy.go call them.
use swa_drive.Base.{
  ℕ, ◌+◌, ◌-◌, ◌*◌, ◌≡◌, refl, Bool, true, false, ◌&&◌, ◌||◌, Option, none, some, List, [], ◌∷◌,
  ltb, leb, ◌==◌, if◌then◌else◌,
}
use swa_drive.Base.Text.{Text}

-- Inside a character: how many bytes are still to come, the range that the next one must lie in,
-- and the value so far. Between characters `need` is 0.
pub record Partial : Type 0 where
  pub need : ℕ
  pub low : ℕ
  pub high : ℕ
  pub value : ℕ

abbrev pub between : Partial
between = record { need = 0; low = 0x80; high = 0xbf; value = 0 }

abbrev lead : ℕ → ℕ → ℕ → ℕ → Option (Option ℕ × Partial)
lead need low high value =
    some (none, record { need = need; low = low; high = high; value = value })

-- The first byte of a character. Overlong forms, surrogates and values past 0x10ffff are cut off
-- by the range of the second byte.
unfoldable pub first_byte : ℕ → Option (Option ℕ × Partial)
first_byte b =
    if ltb b 0x80
    then some (some b, between)
    else if ltb b 0xc2
    then none
    else if ltb b 0xe0
    then lead 1 0x80 0xbf (b - 0xc0)
    else if b == 0xe0
    then lead 2 0xa0 0xbf 0
    else if b == 0xed
    then lead 2 0x80 0x9f 0xd
    else if ltb b 0xf0
    then lead 2 0x80 0xbf (b - 0xe0)
    else if b == 0xf0
    then lead 3 0x90 0xbf 0
    else if ltb b 0xf4
    then lead 3 0x80 0xbf (b - 0xf0)
    else if b == 0xf4
    then lead 3 0x80 0x8f 4
    else none

unfoldable pub next_byte : Partial → ℕ → Option (Option ℕ × Partial)
next_byte p b =
    let value = p.value * 64 + (b - 0x80) in
    if leb p.low b && leb b p.high
    then (if p.need == 1 then some (some value, between) else lead (p.need - 1) 0x80 0xbf value)
    else none

abbrev emit : Option ℕ → Option (List ℕ) → Option (List ℕ)
emit none rs = rs
emit (some r) none = none
emit (some r) (some rs) = some (r ∷ rs)

unfoldable pub decode_from : Partial → Text → Option (List ℕ)
unfolding first_byte next_byte
decode_from p [] = if p.need == 0 then some [] else none
decode_from p (b ∷ bs) = elim (if p.need == 0 then first_byte b else next_byte p b) [
  | none ↦ none
  | some (r, q) ↦ emit r (decode_from q bs)
]

-- The characters that `range` yields, or `none` where the text is not valid UTF-8.
unfoldable pub decode : Text → Option (List ℕ)
unfolding decode_from
decode s = decode_from between s

unfoldable pub valid_string : Text → Bool
unfolding decode
valid_string s = elim (decode s) [ none ↦ false | some _ ↦ true ]

-- `unicode.IsControl`: the category Cc.
unfoldable pub is_control : ℕ → Bool
is_control r = ltb r 0x20 || leb 0x7f r && leb r 0x9f

decode_two :
    decode (0x41 ∷ 0xc3 ∷ 0xa9 ∷ 0xe2 ∷ 0x82 ∷ 0xac ∷ []) ≡ some (0x41 ∷ 0xe9 ∷ 0x20ac ∷ [])
unfolding decode
decode_two = refl

decode_surrogate : decode (0xed ∷ 0xa0 ∷ 0x80 ∷ []) ≡ none
unfolding decode
decode_surrogate = refl
