-- ===== src/Auth/Login/Admission.antt =====
-- Whose login succeeds, and what it leaves: `Login` as a whole.
use swa_drive.Base.{
  ℕ, ◌≡◌, refl, sym, ap, subst, ◌∙◌, Bool, true, false, not, Option, some, none, Result, ok, err,
  arith,
}
use swa_drive.Base.Text.{Text}
use swa_drive.Platform.{Platform}
use swa_drive.Auth.Library.{Library}
use swa_drive.Auth.Limiter.{LoginLimiter, check}
use swa_drive.Auth.Model.{UserCredential}
use swa_drive.Auth.Password.{verify_password}
use swa_drive.Auth.Policy.{canonicalize_username, validate_login_password}
use swa_drive.Auth.Repository.{find_credential_by_username}
use swa_drive.Auth.Service.{
  LoginInput, LoginResult, login, try_login, decide_login, start_session, limiter_name,
  limiter_check, enabled_credential, or_dummy,
}
use swa_drive.World.{World, M, now, ◌>>=◌}
use swa_drive.World.Laws.{bind-ok, lifted-ok, checked-ok, now-same}
use swa_drive.World.Ends.{step_same}
use swa_drive.Auth.Login.{
  fail_login-ne_ok, IsPasswordOf, verify_password-IsPasswordOf, enabled_credential-ok, IsStarted,
  start_session-IsStarted,
}

-- Whose login it was: a name in its canonical form, of a user who is not disabled and whose password
-- this is, where the limiter does not block the name and the address.
pub record IsAdmitted (env : Platform) (lib : Library) (input : LoginInput) (t : ℕ) (w : World)
    (c : UserCredential) : Type 0 where
  pub name : Text
  pub canonical : canonicalize_username env lib input.username ≡ ok name
  pub known : find_credential_by_username name w.db ≡ ok c
  pub enabled : c.user.disabled_at ≡ none
  pub right_password : IsPasswordOf lib input.password c.password_hash
  pub not_blocked : (check name input.remote_ip t w.limiter).0.1 ≡ false

abbrev branch : {A : Type 0} → Result (Unit {0}) → M A → M A → M A
branch checked bad good = elim checked [ err e ↦ bad | ok u ↦ good ]

good_branch :
    {A : Type 0} (checked : Result (Unit {0})) (bad good : M A) (w : World) {a : A} {v : World}
    → (bad w ≡ (ok a, v) → ⊥)
    → branch checked bad good w ≡ (ok a, v)
    → good w ≡ (ok a, v)
good_branch (ok u) bad good w never h = h
good_branch (err e) bad good w never h = absurd (never h)

now-limiter : (w : World) → (now w).1.limiter ≡ w.limiter
unfolding now
now-limiter w = ground arith

validated_login :
    (env : Platform) (lib : Library) (dummy_hash : Text) (choices : ℕ × ℕ) (random : Option Text)
    (canonical : Result Text) (name client_name : Text) (input : LoginInput) (t : ℕ) (w : World)
    {r : LoginResult} {v : World}
    → try_login env lib dummy_hash choices random canonical name client_name input t w ≡ (ok r, v)
    → (enabled_credential canonical >>= (λ found.
          verify_password lib input.password (or_dummy dummy_hash found) >>= (λ correct.
            decide_login env lib choices random found correct name client_name input t)))
        w
      ≡ (ok r, v)
unfolding try_login
validated_login env lib dummy_hash choices random canonical name client_name input t w h =
    good_branch (validate_login_password input.password) _ _ w
      (fail_login-ne_ok choices name input t w) h

decide_login-ok :
    (env : Platform) (lib : Library) (choices : ℕ × ℕ) (random : Option Text)
    (found : Option UserCredential) (correct : Bool) (name client_name : Text) (input : LoginInput)
    (t : ℕ) (w : World) {r : LoginResult} {v : World}
    → decide_login env lib choices random found correct name client_name input t w ≡ (ok r, v)
    → (c : UserCredential) × (found ≡ some c)
      × (correct ≡ true)
      × (start_session env lib random c name client_name input t w ≡ (ok r, v))
unfolding decide_login
decide_login-ok env lib choices random none correct name client_name input t w h =
    absurd (fail_login-ne_ok choices name input t w h)
decide_login-ok env lib choices random (some c) false name client_name input t w h =
    absurd (fail_login-ne_ok choices name input t w h)
decide_login-ok env lib choices random (some c) true name client_name input t w h =
    (c, refl, refl, h)

limiter_check-free :
    (name remote_ip : Text) (t : ℕ) (l : LoginLimiter) (key : Text) (w : World) {retry_after : ℕ}
    {blocked : Bool} {v : World}
    → key ≡ name
    → w.limiter ≡ l
    → not blocked ≡ true
    → limiter_check key remote_ip t w ≡ (ok (retry_after, blocked), v)
    → (check name remote_ip t l).0.1 ≡ false
limiter_check-free name remote_ip t l key w e f free h =
    let same : (check key remote_ip t w.limiter).0.1 ≡ false = ground arith in
    subst (λ k. (check k remote_ip t l).0.1 ≡ false) e
      (subst (λ z. (check key remote_ip t z).0.1 ≡ false) f same)

module _ (env : Platform) (lib : Library) where
  -- A login that succeeds is that of a user who exists and is not disabled, with the canonical form of
  -- the name and with the password of the stored hash, while neither the account nor the address is
  -- blocked. It leaves one new session of this user beside the old ones, with the hash of the token of
  -- the answer, which ends 30 days after the login.
  pub login-IsAdmitted :
      (dummy_hash : Text) (choices : ℕ × ℕ) (random : Option Text) (input : LoginInput) (w : World)
      {r : LoginResult} {v : World}
      → login env lib dummy_hash choices random input w ≡ (ok r, v)
      → (t : ℕ) × (c : UserCredential) × IsAdmitted env lib input t w c
        × IsStarted env lib random c.user t w.db v.db r
  unfolding login
  login-IsAdmitted dummy_hash choices random input w {r = r} {v = v} h =
      let canonical = canonicalize_username env lib input.username in
      let (client_name, _, h1) = lifted-ok _ _ w h in
      let (t, w1, looked, h2) = bind-ok _ _ w h1 in
      let ((retry_after, blocked), w2, checked, h3) = bind-ok _ _ w1 h2 in
      let (free, h4) = checked-ok _ _ _ w2 h3 in
      let h5 =
        validated_login env lib dummy_hash choices random canonical
          (limiter_name env lib input.username canonical) client_name input t w2 h4 in
      let (found, w3, credential, h6) = bind-ok _ _ w2 h5 in
      let (correct, w4, verified, h7) = bind-ok _ _ w3 h6 in
      let (c, is_c, is_correct, started) =
        decide_login-ok env lib choices random found correct _ client_name input t w4 h7 in
      let (name, is_name, known, enabled, same3) =
        enabled_credential-ok canonical w2 (credential ∙ ap (λ z. (ok z, w3)) is_c) in
      let (right, same4) =
        verify_password-IsPasswordOf lib input.password (or_dummy dummy_hash found) w3
          (verified ∙ ap (λ z. (ok z, w4)) is_correct) in
      let same1 = (step_same now w (now-same w) looked).0 in
      let same2 : w2.db ≡ w.db = ap (λ z. z.1.db) (sym checked) ∙ same1 in
      let limiter_same : w1.limiter ≡ w.limiter =
        ap (λ z. z.1.limiter) (sym looked) ∙ now-limiter w in
      let same_name : limiter_name env lib input.username canonical ≡ name =
        ap (limiter_name env lib input.username) is_name in
      (
        t,
        c,
        record {
          name = name;
          canonical = is_name;
          known = ap (find_credential_by_username name) (sym same2) ∙ known;
          enabled = enabled;
          right_password =
              subst (λ z. IsPasswordOf lib input.password (or_dummy dummy_hash z)) is_c right;
          not_blocked =
              limiter_check-free name input.remote_ip t w.limiter _ w1 same_name limiter_same free
                checked;
        },
        subst (λ d. IsStarted env lib random c.user t d v.db r) (same4 ∙ same3 ∙ same2)
            (start_session-IsStarted env lib random c _ client_name input t w4 started),
      )
