-- ===== src/Auth/Repository/Tables.antt =====
-- The tables of users and sessions: keys, look-ups and the constraints on new rows
-- (server/internal/database/migrations/0001_auth.sql).
use swa_drive.Base.{
  ℕ, zero, suc, ◌+◌, Bool, true, not, ◌&&◌, Option, none, some, List, [], ◌∷◌, Result, ok, err,
  user_not_found, ltb, leb, ◌==◌, if◌then◌else◌, any, length, map, ◌/◌, ◌%◌,
}
use swa_drive.Base.Text.{Text, text_eq}
use swa_drive.Auth.Policy.{rune_count}
use swa_drive.Auth.Model.{UserCredential, SessionRow}
use swa_drive.Database.{Db}

-- `strconv.FormatInt(n, 10)` for a number of at most 20 digits.
unfoldable pub digits : ℕ → ℕ → Text → Text
digits zero n acc = acc
digits (suc fuel) n acc =
    let digit = b'0' + n % 10 in
    let rest = digits fuel (n / 10) (digit ∷ acc) in if n / 10 == 0 then digit ∷ acc else rest

abbrev pub format_int : ℕ → Text
format_int n = digits 20 n []

unfoldable pub first_where : {A : Type 0} → (A → Bool) → List A → Option A
first_where p [] = none
first_where p (x ∷ xs) = let rest = first_where p xs in if p x then some x else rest

unfoldable pub largest : List ℕ → ℕ
largest [] = 0
largest (n ∷ ns) = let rest = largest ns in if ltb rest n then n else rest

-- The key of a row that is inserted without one.
abbrev pub next_id : List ℕ → ℕ
next_id ids = suc (largest ids)

-- The collation NOCASE: letters of ASCII compare as their small ones.
unfoldable pub fold_case : ℕ → ℕ
fold_case c = if leb b'A' c && leb c b'Z' then c + 32 else c

abbrev pub same_name : Text → Text → Bool
same_name a b = text_eq (map fold_case a) (map fold_case b)

-- Neither the first byte nor the last one is a space, so that `trim` leaves the text as it is.
unfoldable pub ends_trimmed : Text → Bool
ends_trimmed [] = true
ends_trimmed (c ∷ []) = not (c == b' ')
ends_trimmed (c ∷ d ∷ cs) = ends_trimmed (d ∷ cs)

unfoldable pub is_trimmed : Text → Bool
is_trimmed [] = true
is_trimmed (c ∷ cs) = not (c == b' ') && ends_trimmed (c ∷ cs)

abbrev pub user_ids : List UserCredential → List ℕ
user_ids users = map (λ c. c.user.id) users

abbrev pub session_ids : List SessionRow → List ℕ
session_ids rows = map (λ r. r.session.id) rows

unfoldable pub find_credential_by_username : Text → Db → Result UserCredential
find_credential_by_username username db =
    elim (first_where (λ c. same_name c.user.username username) db.users) [
      | none ↦ err user_not_found
      | some c ↦ ok c
    ]

-- The constraints of `users` on a new row.
unfoldable pub user_insertable : UserCredential → List UserCredential → Bool
user_insertable c users =
    leb 1 (rune_count c.user.username)
    && leb (rune_count c.user.username) 128
    && is_trimmed c.user.username
    && not (length c.password_hash == 0)
    && not (any (λ d. same_name d.user.username c.user.username) users)

-- The constraints of `sessions` on a new row.
unfoldable pub session_insertable : SessionRow → Db → Bool
session_insertable row db =
    length row.token_hash == 32
    && not (any (λ r. text_eq r.token_hash row.token_hash) db.sessions)
    && any (λ c. c.user.id == row.session.user_id) db.users
    && leb 1 (rune_count row.session.client_name)
    && leb (rune_count row.session.client_name) 256
    && is_trimmed row.session.client_name
    && ltb row.session.created_at row.session.expires_at
