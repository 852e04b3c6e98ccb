-- ===== src/Tests/Ended.antt =====
-- The end of a session, by its user and by a reset of the owner's credentials.
use swa_drive.Base.{◌≡◌, ◌≢◌, refl, some, List, [], ◌∷◌, ok, arith}
use swa_drive.Base.Text.{Text, codes, text_eq}
use swa_drive.Audit.Event.{
  outcome_success, append_in_transaction, prepare_event, validate_event, known_outcome,
  valid_event_path, encode_metadata, append_event,
}
use swa_drive.Auth.Model.{SessionRow, Identity, owner}
use swa_drive.Auth.Password.{
  hash_password, derive_key, validate_password_parameters, format_password_hash,
}
use swa_drive.Auth.Policy.{
  canonicalize_username, valid_username, valid_rest, is_inner, is_alphanumeric,
  validate_new_password,
}
use swa_drive.Auth.Repository.{
  first_where, revoke_session_with_audit, reset_owner_credentials_with_audit, revoke_row, revoke_id,
  digits, fold_case, set_password, session_row,
}
use swa_drive.Auth.Repository.Transactions.{Operation, opens, sees, run_all}
use swa_drive.Auth.Repository.History.{IsLimited, run_all-IsLimited}
use swa_drive.Auth.Revocation.{logout-final, reset_owner_credentials-final}
use swa_drive.Auth.Service.{
  authenticate, logout, reset_owner_credentials, session_event, plain_event,
}
use swa_drive.Storage.Disk.{pad}
use swa_drive.Storage.Utf8.{valid_string, decode, decode_from, first_byte, next_byte}
use swa_drive.Auth.Policy.{runes}
use swa_drive.World.{World, now, transact_timed, fallible, ◌>>=◌}
use swa_drive.Uploads.Model.{pending}
use swa_drive.Tests.Access.{lib, shifted}
use swa_drive.Tests.Samples.{env, world, volume}
use swa_drive.Tests.Sessions.{ada, session, drawn, salt, granted}

abbrev token : Text
token = shifted drawn

abbrev row : SessionRow
row = session_row session (env.sha256_sum token)

abbrev logged_in : World
logged_in = record (world pending [] volume) {
  db = record (world pending [] volume).db { users = ada ∷ []; sessions = row ∷ [] };
}

abbrev who : Identity
who = record { user_id = 1; role = owner; session_id = 1; request_id = codes "r"; remote_ip = [] }

abbrev later : List Operation
later =
    sees 1 7000000000 6000000000
    ∷ opens 1 (codes "another hash, of thirty-two bytes") (codes "cli") 8000000000 9000000000
        (plain_event 8000000000 (codes "auth.login_success") outcome_success [] []) 0
    ∷ []

abbrev logged_out : World
logged_out = (logout who logged_in).1

logs_out : logout who logged_in ≡ (ok tt, logged_out)
logs_out =
    unfold logout now transact_timed revoke_session_with_audit first_where session_event digits
      append_in_transaction prepare_event validate_event known_outcome text_eq valid_event_path
      encode_metadata append_event revoke_id ◌>>=◌ fallible in
    refl

logout-final_example :
    authenticate env lib token
      (codes "s")
      []
      (record logged_out { db = run_all later logged_out.db })
    ≢ (ok granted, logged_in)
logout-final_example =
    logout-final env lib who token (codes "s") [] row later logged_in
      (record logged_out { db = run_all later logged_out.db }) (unfold first_where text_eq in refl)
      (unfold first_where in refl) logs_out refl granted logged_in

abbrev reset : World
reset =
    (reset_owner_credentials env lib (some salt) (codes "ada") (codes "a new password") logged_in).1

resets :
    reset_owner_credentials env lib (some salt) (codes "ada") (codes "a new password") logged_in
    ≡ (ok ((record ada.user { updated_at = 5000000000 }, 1)), reset)
resets =
    unfold reset_owner_credentials canonicalize_username valid_username valid_rest is_inner
      is_alphanumeric validate_new_password runes valid_string decode decode_from first_byte
      next_byte hash_password derive_key validate_password_parameters format_password_hash now
      transact_timed reset_owner_credentials_with_audit first_where fold_case digits
      append_in_transaction prepare_event validate_event known_outcome text_eq valid_event_path
      encode_metadata append_event revoke_row set_password ◌>>=◌ fallible pad in
    refl

reset_owner_credentials-final_example :
    authenticate env lib token (codes "s") [] (record reset { db = run_all later reset.db })
    ≢ (ok granted, logged_in)
reset_owner_credentials-final_example =
    reset_owner_credentials-final env lib (some salt) (codes "ada") (codes "a new password") token
      (codes "s") [] row later logged_in (record reset { db = run_all later reset.db })
      (unfold first_where text_eq in refl) resets refl refl granted logged_in

run_all-IsLimited_example : IsLimited 8000000000 (run_all later (world pending [] volume).db)
run_all-IsLimited_example =
    run_all-IsLimited 0 later (world pending [] volume).db (omega arith, (omega arith, tt))
      (λ user. omega arith)
