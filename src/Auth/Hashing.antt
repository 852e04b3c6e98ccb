-- ===== src/Auth/Hashing.antt =====
-- A password is verified by the hash that was made of it.
use swa_drive.Base.{
  ℕ, ◌+◌, ◌*◌, ◌/◌, ◌≡◌, ◌<◌, refl, ap, ◌∙◌, true, false, some, [], ◌∷◌, ◌++◌, ok, ◌==◌, any,
  length, length-append, arith,
}
use swa_drive.Base.Text.{Text, codes, split, cons_head, text_eq, text_eq_refl}
use swa_drive.Auth.Library.{Library}
use swa_drive.Auth.Password.{
  ParsedHash, default_password_parameters, format_password_hash, parse_password_hash, parse_parts,
  supported_version, parse_parameter_fields, with_lengths, hash_password, verify_password,
  derive_key, validate_password_parameters, cut_prefix, parse_uint, digits_value, cut, field_value,
  parse_fields,
}
use swa_drive.Auth.Repository.{digits}
use swa_drive.World.{World, fallible, ◌>>=◌}

-- What the encoder and the key derivation promise.
pub record IsSound (lib : Library) : Type 0 where
  pub decodes : (b : Text) → lib.decode_std (lib.encode_std b) ≡ some b
  -- the alphabet has no `$`
  pub no_dollar : (b : Text) → any (λ c. c == b'$') (lib.encode_std b) ≡ false
  -- `EncodedLen`
  pub encoded_length : (b : Text) → length (lib.encode_std b) ≡ (length b * 8 + 5) / 6
  pub key_size :
      (password salt : Text) (i m p n : ℕ) → length (lib.id_key password salt i m p n) ≡ n

module _ (sep : ℕ) where
  split-whole : (a : Text) → any (λ c. c == sep) a ≡ false → split sep a ≡ a ∷ []
  unfolding split cons_head
  split-whole [] h = refl
  split-whole (c ∷ cs) h = ground (arith, split-whole cs)

  split-at :
      (a t : Text) → any (λ c. c == sep) a ≡ false → split sep (a ++ (sep ∷ t)) ≡ a ∷ split sep t
  unfolding split cons_head
  split-at [] t h = ground arith
  split-at (c ∷ cs) t h = ground (arith, split-at cs t)

abbrev version_part : Text
version_part = codes "v=19"

abbrev fields_part : Text
fields_part = codes "m=65536,t=3,p=2"

format_default :
    (lib : Library) (salt derived : Text)
    → format_password_hash lib default_password_parameters salt derived
      ≡ b'$' ∷ codes "argon2id"
        ++ (b'$' ∷ version_part
            ++ (b'$' ∷ fields_part
                ++ (b'$' ∷ lib.encode_std salt ++ (b'$' ∷ lib.encode_std derived))))
format_default lib salt derived = unfold format_password_hash digits in refl

split-format :
    (lib : Library) (salt derived : Text)
    → IsSound lib
    → split b'$' (format_password_hash lib default_password_parameters salt derived)
      ≡ []
        ∷ codes "argon2id"
        ∷ version_part
        ∷ fields_part
        ∷ lib.encode_std salt
        ∷ lib.encode_std derived
        ∷ []
split-format lib salt derived sound =
    let salt_part = sound.no_dollar salt in
    let derived_part = sound.no_dollar derived in
    ap (split b'$') (format_default lib salt derived)
    ∙ split-at b'$' [] _ refl
    ∙ ap (◌∷◌ []) (
        split-at b'$' (codes "argon2id") _ refl
        ∙ ap (◌∷◌ (codes "argon2id")) (
            split-at b'$' version_part _ refl
            ∙ ap (◌∷◌ version_part) (
                split-at b'$' fields_part _ refl
                ∙ ap (◌∷◌ fields_part) (
                    split-at b'$' (lib.encode_std salt) (lib.encode_std derived) salt_part
                    ∙ ap (◌∷◌ (lib.encode_std salt))
                        (split-whole b'$' (lib.encode_std derived) derived_part)))))

abbrev parsed : (salt derived : Text) (salt_length key_length : ℕ) → ParsedHash
parsed salt derived m n = record {
  parameters = record default_password_parameters { salt_length = m; key_length = n };
  salt = salt;
  derived = derived;
}

parse_parts-default :
    (lib : Library) (salt derived : Text)
    → IsSound lib
    → length salt ≡ 16
    → length derived ≡ 32
    → parse_parts lib (
        []
        ∷ codes "argon2id"
        ∷ version_part
        ∷ fields_part
        ∷ lib.encode_std salt
        ∷ lib.encode_std derived
        ∷ [])
      ≡ ok (record { parameters = default_password_parameters; salt = salt; derived = derived })
unfolding parse_parts supported_version parse_parameter_fields with_lengths
    validate_password_parameters cut_prefix parse_uint digits_value cut field_value parse_fields
    split text_eq cons_head
parse_parts-default lib salt derived sound k l =
    rw (sound.decodes salt, sound.decodes derived, k, l)
      (ap (λ n. ok (parsed salt derived n (length derived))) k
        ∙ ap (λ n. ok (parsed salt derived 16 n)) l)

format-length :
    (lib : Library) (salt derived : Text)
    → IsSound lib
    → length salt ≡ 16
    → length derived ≡ 32
    → length (format_password_hash lib default_password_parameters salt derived) ≡ 97
format-length lib salt derived sound k l =
    let a = sound.encoded_length salt in
    let b = sound.encoded_length derived in
    let joined = length-append (lib.encode_std salt) (b'$' ∷ lib.encode_std derived) in
    ap length (format_default lib salt derived) ∙ omega (arith, a, b, joined, k, l)

parse_password_hash-format :
    (lib : Library) (salt derived : Text)
    → IsSound lib
    → length salt ≡ 16
    → length derived ≡ 32
    → parse_password_hash lib (format_password_hash lib default_password_parameters salt derived)
      ≡ ok (parsed salt derived 16 32)
unfolding parse_password_hash
parse_password_hash-format lib salt derived sound k l =
    let size = format-length lib salt derived sound k l in
    let parts =
      ap (parse_parts lib) (split-format lib salt derived sound)
      ∙ parse_parts-default lib salt derived sound k l in
    ground (arith, size, parts)

-- What `Hash` made.
hash_password-ok :
    (lib : Library) (salt password : Text) (w : World) {encoded : Text} {v : World}
    → hash_password lib (some salt) password w ≡ (ok encoded, v)
    → encoded
      ≡ format_password_hash lib default_password_parameters salt
          (lib.id_key password salt 3 65536 2 32)
unfolding hash_password derive_key fallible ◌>>=◌ validate_password_parameters
hash_password-ok lib salt password w h = ground arith

-- A password is verified by every hash that was made of it, with a salt of 16 bytes, at any later time
-- where the derivations of others leave an admission and the request is not cancelled.
pub verify_password-hash_password :
    (lib : Library) (salt password : Text) (w x : World) {encoded : Text} {v : World}
    → IsSound lib
    → length salt ≡ 16
    → hash_password lib (some salt) password w ≡ (ok encoded, v)
    → x.password_work < x.password_admissions
    → x.faults ≡ []
    → verify_password lib password encoded x ≡ (ok true, x)
unfolding verify_password derive_key fallible ◌>>=◌
verify_password-hash_password lib salt password w x {encoded = encoded} sound k made free clear =
    let key = lib.id_key password salt 3 65536 2 32 in
    let size : length key ≡ 32 = sound.key_size password salt 3 65536 2 32 in
    let parse : parse_password_hash lib encoded ≡ ok (parsed salt key 16 32) =
      ap (parse_password_hash lib) (hash_password-ok lib salt password w made)
      ∙ parse_password_hash-format lib salt key sound k size in
    let same = text_eq_refl key in ground arith
