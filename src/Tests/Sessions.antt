-- ===== src/Tests/Sessions.antt =====
-- A login, the requests that its token authenticates, and its end.
use swa_drive.Base.{ℕ, ◌+◌, ◌≡◌, ◌≤◌, refl, ap, true, none, some, [], ◌∷◌, ok, arith}
use swa_drive.Base.Text.{Text, codes, text_eq, split, cons_head}
use swa_drive.Audit.Event.{
  append_in_transaction, prepare_event, validate_event, known_outcome, valid_event_path,
  encode_metadata, append_event,
}
use swa_drive.Auth.Authentication.{IsGranted, authenticate-IsGranted}
use swa_drive.Auth.Hashing.{verify_password-hash_password}
use swa_drive.Auth.Login.{IsStarted}
use swa_drive.Auth.Login.Admission.{IsAdmitted, login-IsAdmitted}
use swa_drive.Auth.Login.Returning.{authenticate-login}
use swa_drive.Auth.Model.{UserCredential, Session, Authenticated, owner, session_lifetime}
use swa_drive.Auth.Password.{
  default_password_parameters, derive_key, validate_password_parameters, format_password_hash,
  hash_password, verify_password, parse_password_hash, parse_parts, supported_version, cut_prefix,
  parse_uint, digits_value, parse_parameter_fields, parse_fields, cut, field_value, with_lengths,
}
use swa_drive.Auth.Repository.{
  first_where, find_credential_by_username, fold_case, create_session_with_audit,
  session_insertable, is_active_session, largest, is_trimmed, ends_trimmed, digits,
  find_authenticated_session, update_last_seen, seen_row,
}
use swa_drive.Auth.Service.{
  LoginInput, LoginResult, login, authenticate, try_login, enabled_credential, enabled_only,
  decide_login, start_session, unauthorized_if_missing, touch_session,
}
use swa_drive.Auth.Token.{parse_session_token, generate_session_token, hash_session_token}
use swa_drive.World.{World, fallible, ◌>>=◌, now, query, transact_timed, transact}
use swa_drive.Storage.Disk.{pad}
use swa_drive.Storage.Utf8.{valid_string, decode, decode_from, first_byte, next_byte}
use swa_drive.Auth.Policy.{runes}
use swa_drive.Uploads.Model.{pending}
use swa_drive.Auth.Policy.{
  canonicalize_client_name, is_low_control, canonicalize_username, valid_username, valid_rest,
  is_inner, is_alphanumeric, validate_login_password,
}
use swa_drive.Auth.Limiter.{check, cleanup_if_due, lookup, clear, delete}
use swa_drive.Tests.Access.{lib, sound, shifted, unshifted-shifted}
use swa_drive.Tests.Samples.{env, world, volume}

abbrev secret : Text
secret = codes "correct horse battery"

abbrev pub salt : Text
salt = codes "0123456789abcdef"

abbrev pub drawn : Text
drawn = codes "ABCDEFGHIJKLMNOPQRSTUVWXYZabcdef"

-- What a hash of the password needs: an admission and a salt.
verify_password-hash_password_example :
    verify_password lib secret
      (format_password_hash lib default_password_parameters salt
        (lib.id_key secret salt 3 65536 2 32))
      (world pending [] volume)
    ≡ (ok true, world pending [] volume)
verify_password-hash_password_example =
    verify_password-hash_password lib salt secret (world pending [] volume)
      (world pending [] volume) {v = world pending [] volume} sound refl
      (unfold hash_password derive_key validate_password_parameters fallible ◌>>=◌ pad in refl)
      (omega arith) refl

abbrev pub ada : UserCredential
ada = record {
  user = record {
    id = 1;
    username = codes "ada";
    role = owner;
    created_at = 0;
    updated_at = 0;
    disabled_at = none;
  };
  password_hash =
      format_password_hash lib default_password_parameters salt
        (lib.id_key secret salt 3 65536 2 32);
}

abbrev input : LoginInput
input = record {
  username = codes "ada";
  password = secret;
  client_name = codes "cli";
  remote_ip = codes "100.64.0.1";
  request_id = codes "r";
}

abbrev start : World
start = record (world pending [] volume) {
  db = record (world pending [] volume).db { users = ada ∷ [] };
}

abbrev pub session : Session
session = record {
  id = 1;
  user_id = 1;
  client_name = codes "cli";
  created_at = 5000000000;
  expires_at = 5000000000 + session_lifetime;
  revoked_at = none;
  last_seen_at = 5000000000;
}

abbrev answer : LoginResult
answer = record { token = shifted drawn; user = ada.user; session = session }

abbrev after : World
after = (login env lib [] (0, 0) (some drawn) input start).1

logs_in : login env lib [] (0, 0) (some drawn) input start ≡ (ok answer, after)
logs_in =
    unfold login canonicalize_client_name is_low_control runes valid_string decode decode_from
      first_byte next_byte canonicalize_username valid_username valid_rest is_inner is_alphanumeric
      now check cleanup_if_due lookup try_login validate_login_password enabled_credential
      find_credential_by_username first_where fold_case text_eq enabled_only verify_password
      parse_password_hash split cons_head parse_parts supported_version cut_prefix parse_uint
      digits_value parse_parameter_fields parse_fields cut field_value with_lengths
      validate_password_parameters derive_key decide_login start_session clear delete
      generate_session_token hash_session_token transact_timed create_session_with_audit
      session_insertable is_active_session largest is_trimmed ends_trimmed append_in_transaction
      prepare_event validate_event known_outcome valid_event_path encode_metadata append_event
      digits ◌>>=◌ fallible query format_password_hash pad in
    refl

login-IsAdmitted_example :
    (t : ℕ) × (c : UserCredential) × IsAdmitted env lib input t start c
    × IsStarted env lib (some drawn) c.user t start.db after.db answer
login-IsAdmitted_example = login-IsAdmitted env lib [] (0, 0) (some drawn) input start logs_in

-- A day later.
abbrev later : World
later = record start { db = after.db; clock = 86405000000000 }

authenticate-login_example :
    (a : Authenticated) × (y : World) × (authenticate env lib answer.token (codes "s") [] later
      ≡ (ok a, y))
    × (a.user ≡ answer.user)
    × (a.session.id ≡ answer.session.id)
authenticate-login_example =
    authenticate-login env lib (λ b. ap some (unshifted-shifted b)) [] (0, 0) drawn (codes "s") []
      input start later refl (refl, tt) logs_in refl refl refl (omega arith) (omega arith)

abbrev pub granted : Authenticated
granted = record {
  user = ada.user;
  session = record session { expires_at = 2592005000000000; last_seen_at = 86405000000000 };
  request_id = codes "s";
  remote_ip = [];
}

abbrev seen : World
seen = (authenticate env lib answer.token (codes "s") [] later).1

is_granted : authenticate env lib answer.token (codes "s") [] later ≡ (ok granted, seen)
is_granted =
    unfold authenticate parse_session_token hash_session_token find_authenticated_session
      unauthorized_if_missing touch_session update_last_seen seen_row transact login
      canonicalize_client_name is_low_control runes valid_string decode decode_from first_byte
      next_byte canonicalize_username valid_username valid_rest is_inner is_alphanumeric now check
      cleanup_if_due lookup try_login validate_login_password enabled_credential
      find_credential_by_username first_where fold_case text_eq enabled_only verify_password
      parse_password_hash split cons_head parse_parts supported_version cut_prefix parse_uint
      digits_value parse_parameter_fields parse_fields cut field_value with_lengths
      validate_password_parameters derive_key decide_login start_session clear delete
      generate_session_token transact_timed create_session_with_audit session_insertable
      is_active_session largest is_trimmed ends_trimmed append_in_transaction prepare_event
      validate_event known_outcome valid_event_path encode_metadata append_event digits ◌>>=◌
      fallible query format_password_hash pad in
    refl

authenticate-IsGranted_example :
    (t : ℕ) × (86405000000000 ≤ t)
    × (parse_session_token lib answer.token ≡ ok answer.token)
    × IsGranted (env.sha256_sum answer.token) later.db t granted
authenticate-IsGranted_example =
    authenticate-IsGranted env lib answer.token (codes "s") [] later is_granted
