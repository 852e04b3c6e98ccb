-- ===== src/Auth/Authentication.antt =====
-- Whom a token authenticates, and who is refused.
use swa_drive.Base.{
  ℕ, ◌≡◌, ◌≤◌, ◌<◌, sym, ap, subst, ◌∙◌, true, not, some, none, Result, ok, err, unauthorized, ◌==◌,
  arith, inl, inr, Option-cases,
}
use swa_drive.Base.Text.{Text, text_eq}
use swa_drive.Platform.{Platform}
use swa_drive.Auth.Library.{Library}
use swa_drive.Auth.Model.{SessionRow, UserCredential, AuthenticatedSession, Authenticated}
use swa_drive.Auth.Repository.{first_where, find_authenticated_session}
use swa_drive.Auth.Service.{authenticate, touch_session, is_refused, unauthorized_if_missing}
use swa_drive.Auth.Token.{parse_session_token, hash_session_token}
use swa_drive.Database.{Db}
use swa_drive.World.{World, now, query, fallible, ◌>>=◌}
use swa_drive.World.Laws.{bind-ok, lifted-ok, attempt_lem, checked-ok, query-ok}

now-later : (w : World) {t : ℕ} {v : World} → now w ≡ (ok t, v) → w.clock ≤ t
unfolding now
now-later w h = ground arith

-- The row of the token, its user, and why the session counts at the time `t`.
pub record IsGranted (hash : Text) (db : Db) (t : ℕ) (a : Authenticated) : Type 0 where
  pub row : SessionRow
  pub credential : UserCredential
  pub found : first_where (λ r. text_eq r.token_hash hash) db.sessions ≡ some row
  pub its_user : first_where (λ c. c.user.id == row.session.user_id) db.users ≡ some credential
  pub not_revoked : row.session.revoked_at ≡ none
  pub not_over : t < row.session.expires_at
  pub enabled : credential.user.disabled_at ≡ none
  pub same_user : a.user ≡ credential.user
  pub same_session : a.session.id ≡ row.session.id

find_authenticated_session-ok :
    (hash : Text) (db : Db) {a : AuthenticatedSession}
    → find_authenticated_session hash db ≡ ok a
    → (row : SessionRow) × (c : UserCredential) × (first_where
          (λ r. text_eq r.token_hash hash)
          db.sessions
        ≡ some row)
      × (first_where (λ c. c.user.id == row.session.user_id) db.users ≡ some c)
      × (a.user ≡ c.user)
      × (a.session ≡ row.session)
unfolding find_authenticated_session
find_authenticated_session-ok hash db h =
    elim (Option-cases (first_where (λ r. text_eq r.token_hash hash) db.sessions)) [
      | inl m ↦ absurd (ground arith)
      | inr (row, m) ↦
          elim (Option-cases (first_where (λ c. c.user.id == row.session.user_id) db.users)) [
            | inl g ↦ absurd (ground arith)
            | inr (c, g) ↦ (row, c, m, g, ground arith, ground arith)
          ]
    ]

touch_session-ok :
    (a : AuthenticatedSession) (t : ℕ) (w : World) {b : AuthenticatedSession} {v : World}
    → touch_session a t w ≡ (ok b, v)
    → (b.user ≡ a.user) × (b.session.id ≡ a.session.id)
unfolding touch_session ◌>>=◌
touch_session-ok a t w h = ground arith

unauthorized_if_missing-ok :
    (r : Result AuthenticatedSession) {a : AuthenticatedSession}
    → unauthorized_if_missing r ≡ ok a
    → r ≡ ok a
unfolding unauthorized_if_missing
unauthorized_if_missing-ok (ok b) h = h
unauthorized_if_missing-ok (err e) h = absurd (ground arith)

query-clock : {A : Type 0} (f : Db → Result A) (w : World) → (query f w).1.clock ≡ w.clock
unfolding query fallible ◌>>=◌
query-clock f w = ground arith

pub ok-answer :
    {A : Type 0} {x y : A} {w v : World} → ◌≡◌ {A = Result A × World} (ok x, w) (ok y, v) → y ≡ x
ok-answer h = cc

accepted-reasons :
    (a : AuthenticatedSession) (t : ℕ)
    → not (is_refused a t) ≡ true
    → (a.session.revoked_at ≡ none) × (t < a.session.expires_at) × (a.user.disabled_at ≡ none)
accepted-reasons a t h = elim (Option-cases a.session.revoked_at) [
  | inr (u, e) ↦ absurd (ground arith)
  | inl e ↦ elim (Option-cases a.user.disabled_at) [
    | inr (u, g) ↦ absurd (ground arith)
    | inl g ↦ (e, ground arith, g)
  ]
]

parsed-same :
    (lib : Library) (token : Text) {value : Text}
    → (elim (parse_session_token lib token) [ ok v ↦ ok v | err e ↦ err unauthorized ]) ≡ ok value
    → (parse_session_token lib token ≡ ok token) × (value ≡ token)
unfolding parse_session_token
parsed-same lib token h = elim (Option-cases (lib.decode_url token)) [
  | inl e ↦ absurd (ground arith)
  | inr (d, e) ↦ (ground arith, ground arith)
]

module _ (env : Platform) (lib : Library) where
  -- A token that is accepted has the form of one, and its hash is that of a session of an existing user
  -- who is not disabled. At a time no earlier than the call the session is neither revoked nor over; the
  -- answer names this user and this session.
  pub authenticate-IsGranted :
      (token request_id remote_ip : Text) (w : World) {a : Authenticated} {v : World}
      → authenticate env lib token request_id remote_ip w ≡ (ok a, v)
      → (t : ℕ) × (w.clock ≤ t)
        × (parse_session_token lib token ≡ ok token)
        × IsGranted (env.sha256_sum token) w.db t a
  unfolding authenticate hash_session_token
  authenticate-IsGranted token request_id remote_ip w h =
      let (value, parsed, h1) = lifted-ok _ _ w h in
      let (its_form, same) = parsed-same lib token parsed in
      let (r, w1, asked, h2) = bind-ok _ _ w h1 in
      let (found, known, h3) = lifted-ok _ _ w1 h2 in
      let (t, w2, looked, h4) = bind-ok _ _ w1 h3 in
      let (accepted, h5) = checked-ok _ _ _ w2 h4 in
      let (b, w3, touched, h6) = bind-ok _ _ w2 h5 in
      let asked' =
        attempt_lem (query (find_authenticated_session (env.sha256_sum value))) w asked
        ∙ ap (λ z. (z, w1)) (unauthorized_if_missing-ok r known) in
      let (in_tables, _, _) =
        query-ok (find_authenticated_session (env.sha256_sum value)) w asked' in
      let (row, c, row_found, user_found, user, session) =
        find_authenticated_session-ok (env.sha256_sum value) w.db in_tables in
      let (live, early, enabled) = accepted-reasons found t accepted in
      let (same_user, same_id) = touch_session-ok found t w2 touched in
      let clock =
        ap (λ z. z.1.clock) (sym asked')
        ∙ query-clock (find_authenticated_session (env.sha256_sum value)) w in
      (
        t,
        subst (λ k. k ≤ t) clock (now-later w1 looked),
        its_form,
        record {
          row = row;
          credential = c;
          found =
              subst
                (λ z.
                  first_where (λ r. text_eq r.token_hash (env.sha256_sum z)) w.db.sessions
                  ≡ some row)
                same row_found;
          its_user = user_found;
          not_revoked = ap (λ z. z.revoked_at) (sym session) ∙ live;
          not_over = subst (λ z. t < z.expires_at) session early;
          enabled = ap (λ z. z.disabled_at) (sym user) ∙ enabled;
          same_user = ap (λ z. z.user) (ok-answer h6) ∙ same_user ∙ user;
          same_session = ap (λ z. z.session.id) (ok-answer h6) ∙ same_id ∙ ap (λ z. z.id) session;
        },
      )
