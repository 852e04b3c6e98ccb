-- ===== src/Auth/Repository/Rows.antt =====
-- Looking up and counting rows of the tables of users and sessions.
use swa_drive.Base.{
  ℕ, ◌≡◌, ◌≤◌, refl, ap, ◌∙◌, Bool, true, false, not, none, some, List, [], ◌∷◌, map, any, filter,
  length, arith, inl, inr, Bool-cases,
}
use swa_drive.Base.Text.{Text, text_eq, text_eq_iff}
use swa_drive.Auth.Model.{Session, SessionRow}
use swa_drive.Auth.Repository.{
  first_where, is_active_session, active_sessions, revoke_row, revoke_id, seen_row,
}

module _ {A : Type 0} (p : A → Bool) where
  -- What is found passes the test.
  pub first_where-passes : (xs : List A) {x : A} → first_where p xs ≡ some x → p x ≡ true
  unfolding first_where
  first_where-passes [] h = cc
  first_where-passes (y ∷ ys) h = elim (Bool-cases (p y)) [
    | inl e ↦ ground arith
    | inr e ↦ first_where-passes ys (ground arith)
  ]

  pub first_where-map :
      (f : A → A) (xs : List A) {x : A}
      → ((y : A) → p (f y) ≡ p y)
      → first_where p xs ≡ some x
      → first_where p (map f xs) ≡ some (f x)
  unfolding first_where
  first_where-map f [] same h = cc
  first_where-map f (y ∷ ys) same h = elim (Bool-cases (p y)) [
    | inl e ↦ rw (same y, e) (ap some (ground arith))
    | inr e ↦ rw (same y, e) (first_where-map f ys same (ground arith))
  ]

  -- Whatever holds of every row after it is changed holds of what is found.
  pub first_where-all :
      (f : A → A) (xs : List A) {x : A} → first_where p (map f xs) ≡ some x → (y : A) × (x ≡ f y)
  unfolding first_where
  first_where-all f [] h = cc
  first_where-all f (y ∷ ys) h = elim (Bool-cases (p (f y))) [
    | inl e ↦ (y, ground arith)
    | inr e ↦ first_where-all f ys (ground arith)
  ]

  pub first_where-any : (xs : List A) {x : A} → first_where p xs ≡ some x → any p xs ≡ true
  unfolding first_where
  first_where-any [] h = cc
  first_where-any (y ∷ ys) {x = x} h = elim (Bool-cases (p y)) [
    | inl e ↦ rw e refl
    | inr e ↦ rw e (first_where-any ys {x = x} (ground arith))
  ]

-- Fewer rows pass a narrower test, also when the rows are changed.
pub filter-map-le :
    {A : Type 0} (p q : A → Bool) (f : A → A) (xs : List A)
    → ((x : A) → q (f x) ≡ true → p x ≡ true)
    → length (filter q (map f xs)) ≤ length (filter p xs)
filter-map-le p q f [] h = omega arith
filter-map-le p q f (x ∷ xs) h =
    let ih = filter-map-le p q f xs h in
    elim (Bool-cases (q (f x))) [
      | inl e ↦ rw (e, h x e) (omega (arith, ih))
      | inr e ↦ elim (Bool-cases (p x)) [
        | inl g ↦ rw (e, g) (omega (arith, ih))
        | inr g ↦ rw (e, g) ih
      ]
    ]

abbrev pub is_revoked : Session → Bool
is_revoked s = elim s.revoked_at [ none ↦ false | some t ↦ true ]

-- A change of rows that keeps whose session it is, its token and its end, and keeps a revocation.
pub record IsConservative (f : SessionRow → SessionRow) : Type 0 where
  pub same_token : (r : SessionRow) → (f r).token_hash ≡ r.token_hash
  pub same_user : (r : SessionRow) → (f r).session.user_id ≡ r.session.user_id
  pub same_end : (r : SessionRow) → (f r).session.expires_at ≡ r.session.expires_at
  pub kept_revoked :
      (r : SessionRow) → is_revoked r.session ≡ true → is_revoked (f r).session ≡ true

pub revoke_row-IsConservative : (user time : ℕ) → IsConservative (revoke_row user time)
unfolding revoke_row
revoke_row-IsConservative user time = record {
  same_token = λ r. ground arith;
  same_user = λ r. ground arith;
  same_end = λ r. ground arith;
  kept_revoked = λ r h. ground arith;
}

pub revoke_id-IsConservative : (id time : ℕ) → IsConservative (revoke_id id time)
unfolding revoke_id
revoke_id-IsConservative id time = record {
  same_token = λ r. ground arith;
  same_user = λ r. ground arith;
  same_end = λ r. ground arith;
  kept_revoked = λ r h. ground arith;
}

pub seen_row-IsConservative : (id seen before : ℕ) → IsConservative (seen_row id seen before)
unfolding seen_row
seen_row-IsConservative id seen before = record {
  same_token = λ r. ground arith;
  same_user = λ r. ground arith;
  same_end = λ r. ground arith;
  kept_revoked = λ r h. ground arith;
}

is_active_session-conservative :
    {f : SessionRow → SessionRow} (c : IsConservative f) (user t : ℕ) (r : SessionRow)
    → is_active_session user t (f r) ≡ true
    → is_active_session user t r ≡ true
unfolding is_active_session
is_active_session-conservative c user t r h =
    ground (arith, c.same_user r, c.same_end r, c.kept_revoked r)

pub active_sessions-map :
    {f : SessionRow → SessionRow} (c : IsConservative f) (user t : ℕ) (rows : List SessionRow)
    → active_sessions user t (map f rows) ≤ active_sessions user t rows
active_sessions-map {f = f} c user t rows =
    filter-map-le (is_active_session user t) (is_active_session user t) f rows
      (is_active_session-conservative c user t)

is_active_session-earlier :
    (user : ℕ) {s t : ℕ} (r : SessionRow)
    → s ≤ t
    → is_active_session user t r ≡ true
    → is_active_session user s r ≡ true
unfolding is_active_session
is_active_session-earlier user r h k = ground arith

pub map-id : {A : Type 0} (xs : List A) → map (λ x. x) xs ≡ xs
map-id [] = refl
map-id (x ∷ xs) = ap (◌∷◌ x) (map-id xs)

pub active_sessions-later :
    (user : ℕ) {s t : ℕ} (rows : List SessionRow)
    → s ≤ t
    → active_sessions user t rows ≤ active_sessions user s rows
active_sessions-later user {s = s} {t = t} rows h =
    let fewer =
      filter-map-le (is_active_session user s) (is_active_session user t) (λ r. r) rows
        (λ r. is_active_session-earlier user r h) in
    omega (arith, fewer, ap (λ l. length (filter (is_active_session user t) l)) (map-id rows))

-- The row of a token that is not the new row's.
pub first_where-other :
    (h : Text) (row : SessionRow) (rows : List SessionRow) {old : SessionRow}
    → not (any (λ r. text_eq r.token_hash row.token_hash) rows) ≡ true
    → first_where (λ r. text_eq r.token_hash h) rows ≡ some old
    → first_where (λ r. text_eq r.token_hash h) (row ∷ rows) ≡ some old
unfolding first_where
first_where-other h row rows {old = old} fresh found =
    elim (Bool-cases (text_eq row.token_hash h)) [
      | inr e ↦ rw e found
      | inl e ↦
          (let same : row.token_hash ≡ h = (text_eq_iff row.token_hash h).0 e in
            let there = first_where-any (λ r. text_eq r.token_hash h) rows found in
            let there' : any (λ r. text_eq r.token_hash row.token_hash) rows ≡ true =
              ap (λ t. any (λ r. text_eq r.token_hash t) rows) same ∙ there in
            absurd (ground arith))
    ]
