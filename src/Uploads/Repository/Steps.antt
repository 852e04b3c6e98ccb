-- ===== src/Uploads/Repository/Steps.antt =====
-- Steps of a row and of all rows that an update changes.
use swa_drive.Base.{
  ℕ, ◌≡◌, refl, Bool, true, false, ◌||◌, some, List, [], ◌∷◌, if◌then◌else◌, arith, Bool-cases,
  &&-eq_true, inl, inr, any, sym, subst, some_eq, ◌∙◌,
}
use swa_drive.Base.Text.{Text, text_eq, text_eq_iff}
use swa_drive.Uploads.Model.{
  Upload, Status, pending, finalizing, completed, cancelled, expired, status_eq,
}
use swa_drive.Uploads.Repository.{
  find_row, owns, update_where, upload_row, insertable, unfinished, set_status, set_checked,
  set_updated,
}

-- Which status may follow which.
abbrev pub allowed : Status → Status → Bool
allowed pending pending = true
allowed pending finalizing = true
allowed pending cancelled = true
allowed pending expired = true
allowed finalizing finalizing = true
allowed finalizing pending = true
allowed finalizing completed = true
allowed completed completed = true
allowed cancelled cancelled = true
allowed expired expired = true
allowed _ _ = false

-- One call's effect on a row: its status moves as allowed, and what identifies the upload and its
-- bytes stays.
pub record RowStep (u v : Upload) : Type 0 where
  pub id : v.id ≡ u.id
  pub user : v.user_id ≡ u.user_id
  pub target : v.target_path ≡ u.target_path
  pub part : v.part_name ≡ u.part_name
  pub size : v.total_size ≡ u.total_size
  pub chunk_size : v.chunk_size ≡ u.chunk_size
  pub count : v.total_chunks ≡ u.total_chunks
  pub deadline : v.expires_at ≡ u.expires_at
  pub moves : allowed u.status v.status ≡ true

allowed_refl : (s : Status) → allowed s s ≡ true
allowed_refl pending = refl
allowed_refl finalizing = refl
allowed_refl completed = refl
allowed_refl cancelled = refl
allowed_refl expired = refl

pub RowStep-refl : (u : Upload) → RowStep u u
RowStep-refl u = record {
  id = refl;
  user = refl;
  target = refl;
  part = refl;
  size = refl;
  chunk_size = refl;
  count = refl;
  deadline = refl;
  moves = allowed_refl u.status;
}

owns-RowStep : (user : ℕ) (id : Text) {u v : Upload} → RowStep u v → owns user id v ≡ owns user id u
owns-RowStep user id s = rw (s.id, s.user)

find_row-head :
    (user : ℕ) (id : Text) (u : Upload) (us : List Upload)
    → owns user id u ≡ true
    → find_row user id (u ∷ us) ≡ some u
unfolding find_row
find_row-head user id u us h = rw h

pub find_row-tail :
    (user : ℕ) (id : Text) (u : Upload) (us : List Upload)
    → owns user id u ≡ false
    → find_row user id (u ∷ us) ≡ find_row user id us
unfolding find_row
find_row-tail user id u us h = rw h

-- An update of some rows, each within `RowStep`, is a step of every row that can be found.
module _ (p : Upload → Bool) (f : Upload → Upload)
    (step : (u : Upload) → p u ≡ true → RowStep u (f u)) where
  stepped : (x : Upload) → RowStep x (if p x then f x else x)
  stepped x = elim (Bool-cases (p x)) [
    | inl yes_p ↦ rw yes_p (step x yes_p)
    | inr no_p ↦ rw no_p (RowStep-refl x)
  ]

  update_where-cons :
      (x : Upload) (xs : List Upload)
      → (update_where p f (x ∷ xs)).0 ≡ (if p x then f x else x) ∷ (update_where p f xs).0
  unfolding update_where
  update_where-cons x xs = ground arith

  pub find_row-update_where :
      (user : ℕ) (id : Text) (rows : List Upload) {u : Upload}
      → find_row user id rows ≡ some u
      → (v : Upload) × (find_row user id (update_where p f rows).0 ≡ some v) × RowStep u v
  find_row-update_where user id [] h = absurd (unfold find_row in (cc))
  find_row-update_where user id (x ∷ xs) {u} h =
      let y = if p x then f x else x in
      let same = owns-RowStep user id (stepped x) in
      elim (Bool-cases (owns user id x)) [
        | inl mine ↦ (
          y,
          rw (update_where-cons x xs) (find_row-head user id y _ (same ∙ mine)),
          subst (λ z. RowStep z y) (some_eq (sym (find_row-head user id x xs mine) ∙ h))
              (stepped x),
        )
        | inr other ↦
            (let (v, found, s) =
                find_row-update_where user id xs (sym (find_row-tail user id x xs other) ∙ h) in
              (
                v,
                rw (update_where-cons x xs) (find_row-tail user id y _ (same ∙ other) ∙ found),
                s,
              ))
      ]

status_eq_lem : (s t : Status) → status_eq s t ≡ true → s ≡ t
status_eq_lem pending t h = ground arith
status_eq_lem finalizing t h = ground arith
status_eq_lem completed t h = ground arith
status_eq_lem cancelled t h = ground arith
status_eq_lem expired t h = ground arith

pub set_checked-RowStep :
    (from to : Status) (sha : Text) (now : ℕ) (u : Upload)
    → allowed from to ≡ true
    → status_eq u.status from ≡ true
    → RowStep u (set_checked to sha now u)
set_checked-RowStep from to sha now u a e = record {
  id = refl;
  user = refl;
  target = refl;
  part = refl;
  size = refl;
  chunk_size = refl;
  count = refl;
  deadline = refl;
  moves = subst (λ s. allowed s to ≡ true) (sym (status_eq_lem _ from e)) a;
}

pub set_updated-RowStep : (now : ℕ) (u : Upload) → RowStep u (set_updated now u)
set_updated-RowStep now u = record {
  id = refl;
  user = refl;
  target = refl;
  part = refl;
  size = refl;
  chunk_size = refl;
  count = refl;
  deadline = refl;
  moves = allowed_refl u.status;
}

pub set_status-RowStep :
    (from to : Status) (now : ℕ) (u : Upload)
    → allowed from to ≡ true
    → status_eq u.status from ≡ true
    → RowStep u (set_status to now u)
set_status-RowStep from to now u a e = record {
  id = refl;
  user = refl;
  target = refl;
  part = refl;
  size = refl;
  chunk_size = refl;
  count = refl;
  deadline = refl;
  moves = subst (λ s. allowed s to ≡ true) (sym (status_eq_lem _ from e)) a;
}

pub prepared : (again : Bool) → allowed (if again then finalizing else pending) finalizing ≡ true
prepared true = refl
prepared false = refl

pub finish-Steps :
    (who : ℕ) (it : Text) (to : Status) (now : ℕ) (late : Bool) (rows : List Upload)
    → allowed pending to ≡ true
    → (user : ℕ) (id : Text) {u : Upload} → find_row user id rows ≡ some u
    → (v : Upload) × (find_row user id
          (update_where (unfinished who it late now) (set_status to now) rows).0
        ≡ some v)
      × RowStep u v
finish-Steps who it to now late rows a user id h =
    find_row-update_where (unfinished who it late now) (set_status to now)
      (λ x e. set_status-RowStep pending to now x a (&&-eq_true _ _ (&&-eq_true _ _ e).0).1) user id
      rows h

-- A new row has an id of its own, so it hides no other row.
fresh_id :
    (new part : Text) (user : ℕ) (id : Text) (rows : List Upload) {u : Upload}
    → find_row user id rows ≡ some u
    → any (λ v. text_eq v.id new || text_eq v.part_name part) rows ≡ false
    → text_eq new id ≡ false
unfolding find_row
fresh_id new part user id [] h n = cc
fresh_id new part user id (x ∷ xs) {u} h n = ground (
  arith,
  fresh_id new part user id xs {u = u},
  text_eq_iff new id,
  text_eq_iff x.id id,
  text_eq_iff x.id new,
)

pub hidden :
    (w : Upload) (rows : List Upload) (user : ℕ) (id : Text) {u : Upload}
    → find_row user id rows ≡ some u
    → insertable w rows ≡ true
    → owns user id (upload_row w) ≡ false
unfolding insertable upload_row
hidden w rows user id {u} h fresh = ground (arith, fresh_id w.id w.part_name user id rows {u = u} h)
