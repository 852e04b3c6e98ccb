-- ===== src/Auth/Login/Returning.antt =====
-- The token of a login authenticates its user.
use swa_drive.Base.{
  ℕ, ◌-◌, ◌≡◌, ◌≤◌, ◌<◌, refl, sym, ap, subst, ◌∙◌, false, some, [], ◌∷◌, ok, ◌==◌, some_eq, length,
}
use swa_drive.Base.Text.{Text}
use swa_drive.Platform.{Platform}
use swa_drive.Audit.Event.{stored_time}
use swa_drive.Auth.Library.{Library}
use swa_drive.Auth.Login.Admission.{login-IsAdmitted}
use swa_drive.Auth.Model.{Authenticated, last_seen_write_interval}
use swa_drive.Auth.Repository.{first_where, session_row, same_name}
use swa_drive.Auth.Service.{LoginInput, LoginResult, login, authenticate, is_refused}
use swa_drive.Auth.Token.{parse_session_token}
use swa_drive.World.{World}
use swa_drive.Auth.Login.Running.{
  authenticate-runs, IsKeyed, first_where-id, update_last_seen-ok, stored_time-le,
  find_authenticated_session-first, find_credential_by_username-first, parse_session_token-encoded,
  not_refused,
}

module _ (env : Platform) (lib : Library)
    (decoded : (bytes : Text) → lib.decode_url (lib.encode_url bytes) ≡ some bytes) where
  -- The token of a login authenticates the user who logged in, for the session that the login made: in
  -- every world with the tables that the login left, from the login's time until the stored end of the
  -- session, where no call fails and no time passes. (32 bytes were drawn for the token, base64 decodes
  -- what it encoded, and no two users have one id.)
  pub authenticate-login :
      (dummy_hash : Text) (choices : ℕ × ℕ) (drawn request_id remote_ip : Text) (input : LoginInput)
      (w x : World) {r : LoginResult} {v : World}
      → length drawn ≡ 32
      → IsKeyed w.db.users
      → login env lib dummy_hash choices (some drawn) input w ≡ (ok r, v)
      → x.db ≡ v.db
      → x.faults ≡ []
      → x.delays ≡ []
      → r.session.created_at ≤ x.clock
      → x.clock < stored_time r.session.expires_at
      → (a : Authenticated) × (y : World) × (authenticate env lib r.token request_id remote_ip x
          ≡ (ok a, y))
        × (a.user ≡ r.user)
        × (a.session.id ≡ r.session.id)
  authenticate-login dummy_hash choices drawn request_id remote_ip input w x {r = r} {v = v} size
        keyed logged_in same clear steady late early =
      let (t, c, who, made) =
        login-IsAdmitted env lib dummy_hash choices (some drawn) input w logged_in in
      let row = session_row r.session (env.sha256_sum r.token) in
      let users : x.db.users ≡ w.db.users = ap (λ d. d.users) same ∙ made.same_users in
      let by_id =
        first_where-id (λ d. same_name d.user.username who.name) w.db.users keyed
          (find_credential_by_username-first who.name w.db who.known) in
      let its_user : first_where (λ d. d.user.id == row.session.user_id) x.db.users ≡ some c =
        ap (λ i. first_where (λ d. d.user.id == i) x.db.users) made.owner_id
        ∙ ap (first_where (λ d. d.user.id == c.user.id)) users
        ∙ by_id in
      let rows : x.db.sessions ≡ row ∷ w.db.sessions = ap (λ d. d.sessions) same ∙ made.stored in
      let found =
        find_authenticated_session-first (env.sha256_sum r.token) row w.db.sessions c x.db rows refl
          its_user in
      let touch =
        update_last_seen-ok row w.db.sessions x.clock (x.clock - last_seen_write_interval) x.db rows
          made.numbered (stored_time-le late) in
      let token : drawn ≡ made.drawn = some_eq made.was_drawn in
      let its_token : r.token ≡ lib.encode_url drawn =
        made.its_token ∙ ap lib.encode_url (sym token) in
      let form =
        subst (λ z. parse_session_token lib z ≡ ok z) (sym its_token)
          (parse_session_token-encoded lib drawn (decoded drawn) size) in
      let accepted : is_refused (record { user = c.user; session = row.session }) x.clock ≡ false =
        not_refused c row x.clock made.live who.enabled early in
      let (a, y, ran, user, session) =
        authenticate-runs env lib r.token request_id remote_ip x
          (record { user = c.user; session = row.session }) clear steady form found accepted
          touch in
      (a, y, ran, user ∙ sym made.its_user, session)
