-- ===== src/Auth/Password.antt =====
-- Argon2id password hashes in their PHC form, and the bound on how many are worked on at once
-- (server/internal/auth/password.go).
use swa_drive.Base.{
  ℕ, ◌+◌, ◌*◌, ◌-◌, ◌^◌, Bool, false, not, ◌&&◌, ◌||◌, Option, none, some, List, [], ◌∷◌, ◌++◌,
  Result, ok, err, fault, invalid_password_hash, argon2_busy, require, ltb, leb, ◌==◌,
  if◌then◌else◌, all, length,
}
use swa_drive.Base.Text.{Text, codes, text_eq, split}
use swa_drive.Auth.Library.{Library}
use swa_drive.Auth.Repository.{format_int}
use swa_drive.World.{M, ◌>>=◌, ◌>>◌, lift, pure, gets, guard, fallible}

abbrev pub password_hash_algorithm : Text
password_hash_algorithm = codes "argon2id"

-- `argon2.Version`
abbrev pub argon2_version : ℕ
argon2_version = 19

abbrev pub max_encoded_hash_length : ℕ
max_encoded_hash_length = 512

pub record PasswordParameters : Type 0 where
  pub memory_kib : ℕ
  pub iterations : ℕ
  pub parallelism : ℕ
  pub salt_length : ℕ
  pub key_length : ℕ

abbrev pub default_password_parameters : PasswordParameters
default_password_parameters = record {
  memory_kib = 65536;
  iterations = 3;
  parallelism = 2;
  salt_length = 16;
  key_length = 32;
}

unfoldable pub validate_password_parameters : PasswordParameters → Result (Unit {0})
validate_password_parameters p =
    require
      (leb 8192 p.memory_kib
        && leb p.memory_kib 262144
        && leb 1 p.iterations
        && leb p.iterations 10
        && leb 1 p.parallelism
        && leb p.parallelism 16
        && leb (8 * p.parallelism) p.memory_kib
        && leb 16 p.salt_length
        && leb p.salt_length 64
        && leb 16 p.key_length
        && leb p.key_length 64)
      invalid_password_hash

-- `strconv.ParseUint(s, 10, 32)`
abbrev pub is_digit : ℕ → Bool
is_digit c = leb b'0' c && leb c b'9'

unfoldable pub digits_value : ℕ → Text → ℕ
digits_value n [] = n
digits_value n (c ∷ cs) = digits_value (n * 10 + (c - b'0')) cs

unfoldable pub parse_uint : Text → Option ℕ
parse_uint s =
    if not (length s == 0) && all is_digit s && ltb (digits_value 0 s) (2 ^ 32)
    then some (digits_value 0 s)
    else none

-- `strings.CutPrefix(s, prefix)`
unfoldable pub cut_prefix : Text → Text → Option Text
cut_prefix s [] = some s
cut_prefix [] (p ∷ ps) = none
cut_prefix (c ∷ cs) (p ∷ ps) = let rest = cut_prefix cs ps in if c == p then rest else none

-- `strings.Cut(s, sep)` for a separator of one byte.
unfoldable pub cut : Text → ℕ → Option (Text × Text)
cut [] sep = none
cut (c ∷ cs) sep =
    let rest = cut cs sep in
    if c == sep then some ([], cs) else elim rest [ none ↦ none | some (a, b) ↦ some ((c ∷ a), b) ]

unfoldable pub field_value : Text → List (Text × ℕ) → Option ℕ
field_value name [] = none
field_value name ((n, v) ∷ fields) =
    let rest = field_value name fields in if text_eq n name then some v else rest

-- The loop over the fields, with the map of those read so far.
unfoldable pub parse_fields : List Text → List (Text × ℕ) → Option (List (Text × ℕ))
parse_fields [] values = some values
parse_fields (field ∷ fields) values = elim (cut field b'=') [
  | none ↦ none
  | some (name, value_text) ↦
      if length name == 0 || length value_text == 0 then none else elim (field_value name values) [
        | some v ↦ none
        | none ↦ elim (parse_uint value_text) [
          | none ↦ none
          | some v ↦ parse_fields fields ((name, v) ∷ values)
        ]
      ]
]

-- The salt and the key have no length yet.
abbrev pub parameters_of : Option ℕ → Option ℕ → Option ℕ → Option PasswordParameters
parameters_of (some m) (some t) (some p) =
    if ltb 255 p
    then none
    else some (record {
      memory_kib = m;
      iterations = t;
      parallelism = p;
      salt_length = 0;
      key_length = 0;
    })
parameters_of m t p = none

unfoldable pub parse_parameter_fields : Text → Option PasswordParameters
parse_parameter_fields encoded =
    let fields = split b',' encoded in
    if length fields == 3
    then elim (parse_fields fields []) [
      | none ↦ none
      | some values ↦
          parameters_of (field_value (codes "m") values) (field_value (codes "t") values)
            (field_value (codes "p") values)
    ]
    else none

unfoldable pub supported_version : Text → Bool
supported_version part = elim (cut_prefix part (codes "v=")) [
  | none ↦ false
  | some version_text ↦ elim (parse_uint version_text) [
    | none ↦ false
    | some v ↦ v == argon2_version
  ]
]

pub record ParsedHash : Type 0 where
  pub parameters : PasswordParameters
  pub salt : Text
  pub derived : Text

unfoldable pub with_lengths :
    Option PasswordParameters → Option Text → Option Text → Result ParsedHash
with_lengths (some p) (some salt) (some derived) =
    let sized = record p { salt_length = length salt; key_length = length derived } in
    elim (validate_password_parameters sized) [
      | err e ↦ err e
      | ok u ↦ ok (record { parameters = sized; salt = salt; derived = derived })
    ]
with_lengths p salt derived = err invalid_password_hash

unfoldable pub parse_parts : Library → List Text → Result ParsedHash
parse_parts lib (empty ∷ algorithm ∷ version ∷ fields ∷ salt ∷ derived ∷ []) =
    if length empty == 0 && text_eq algorithm password_hash_algorithm && supported_version version
    then with_lengths (parse_parameter_fields fields) (lib.decode_std salt) (lib.decode_std derived)
    else err invalid_password_hash
parse_parts lib parts = err invalid_password_hash

unfoldable pub parse_password_hash : Library → Text → Result ParsedHash
parse_password_hash lib encoded =
    if length encoded == 0 || ltb max_encoded_hash_length (length encoded)
    then err invalid_password_hash
    else parse_parts lib (split b'$' encoded)

-- `fmt.Sprintf("$%s$v=%d$m=%d,t=%d,p=%d$%s$%s", …)`
unfoldable pub format_password_hash : Library → PasswordParameters → (salt derived : Text) → Text
format_password_hash lib p salt derived =
    b'$' ∷ password_hash_algorithm
    ++ codes "$v="
    ++ format_int argon2_version
    ++ codes "$m="
    ++ format_int p.memory_kib
    ++ codes ",t="
    ++ format_int p.iterations
    ++ codes ",p="
    ++ format_int p.parallelism
    ++ (b'$' ∷ lib.encode_std salt ++ (b'$' ∷ lib.encode_std derived))

-- An admission or an error at once; then a slot, unless the request ends first.
unfoldable pub derive_key : Library → (password salt : Text) → PasswordParameters → M Text
derive_key lib password salt p = do
  w ← gets (λ w. w)
  guard (ltb w.password_work w.password_admissions) argon2_busy
  fallible
  pure (lib.id_key password salt p.iterations p.memory_kib p.parallelism p.key_length)

-- `random` is what the reader of randomness gives for the salt, if it gives something.
unfoldable pub hash_password : Library → Option Text → Text → M Text
hash_password lib random password = do
  let p = default_password_parameters
  lift (validate_password_parameters p)
  salt ← lift (elim random [ none ↦ err fault | some salt ↦ ok salt ])
  derived ← derive_key lib password salt p
  pure (format_password_hash lib p salt derived)

unfoldable pub verify_password : Library → (password encoded : Text) → M Bool
verify_password lib password encoded = do
  parsed ← lift (parse_password_hash lib encoded)
  actual ← derive_key lib password parsed.salt parsed.parameters
  pure (text_eq actual parsed.derived)
