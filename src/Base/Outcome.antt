-- ===== src/Base/Outcome.antt =====
-- The errors of the server's packages as one type, and results that carry them.
use Prim.Native.Nat.{ℕ}
use mathlib.Core.Path.{◌≡◌, refl}
use mathlib.Core.Logic.{◌⊎◌, inl, inr}
use mathlib.Core.Bool.{Bool, true, false, ◌||◌}

-- The sentinel errors (`var Err… = errors.New(…)`), by package. `fault` stands for every error of
-- the database driver, the operating system or a cancelled context that no sentinel names.
pub data Error : Type 0 where
  -- package files and package auth
  owner_required index_inconsistent trash_entry_not_found trash_state_error : Error
  reconciliation download_busy invalid_page_cursor invalid_search : Error
  invalid_username invalid_password invalid_client_name : Error
  invalid_credentials unauthorized user_not_found session_not_found owner_exists : Error
  session_limit invalid_session_token invalid_password_hash argon2_busy : Error
  -- `RateLimitError`, with how long to wait
  rate_limited : ℕ → Error
  -- package storage
  invalid_path not_found conflict not_directory not_regular_file symlink insufficient_space : Error
  unavailable : Error
  -- package uploads
  upload_not_found invalid_upload upload_state chunk_length chunk_not_found : Error
  checksum_mismatch chunk_conflict missing_chunks upload_limit upload_busy : Error
  finalization_reconciliation orphan_part_scan_limit : Error
  -- package audit
  invalid_event unsafe_metadata invalid_list owner_role_needed persistence : Error
  fault : Error
  -- `errors.Join` and wrapping by `%w` of two errors
  joined : Error → Error → Error

pub data Result (A : Type 0) : Type 0 where
  ok : A → Result A
  err : Error → Result A

pub Result-cases :
    {A : Type 0} (r : Result A) → ((a : A) × (r ≡ ok a)) ⊎ ((e : Error) × (r ≡ err e))
Result-cases (ok a) = inl (a, refl)
Result-cases (err e) = inr (e, refl)

abbrev pub is_ok : {A : Type 0} → Result A → Bool
is_ok (ok a) = true
is_ok (err e) = false

infixl 5 ◌>>=◌ ◌>>◌
abbrev pub ◌>>=◌ : {X Y : Type 0} (r : Result X) (next : X → Result Y) → Result Y
err e >>= next = err e
ok x >>= next = next x

abbrev pub ◌>>◌ : {X Y : Type 0} (r : Result X) (next : Result Y) → Result Y
r >> next = r >>= (λ x. next)

-- `if !condition { return err }`
abbrev pub require : Bool → Error → Result (Unit {0})
require true e = ok tt
require false e = err e

-- `errors.Join(err, other)`, where `other` may be nil.
abbrev pub errors_join : {A : Type 0} → Error → Result A → Error
errors_join e (ok _) = e
errors_join e (err f) = joined e f

-- `errors.Is(err, target)` for a sentinel `target`, by its test.
abbrev pub errors_is : (Error → Bool) → Error → Bool
errors_is p (joined e f) = errors_is p e || errors_is p f
errors_is p e = p e

pub >>=-eq_ok :
    {X Y : Type 0} (r : Result X) (next : X → Result Y) {y : Y} (h : (r >>= next) ≡ ok y)
    → (x : X) × (r ≡ ok x) × (next x ≡ ok y)
>>=-eq_ok (err e) next h = cc
>>=-eq_ok (ok x) next h = (x, refl, h)
