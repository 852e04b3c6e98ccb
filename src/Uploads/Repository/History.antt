-- ===== src/Uploads/Repository/History.antt =====
-- Histories of calls: an upload that has ended stays as it ended.
use swa_drive.Base.{
  ℕ, ◌≡◌, refl, Bool, true, some, List, [], ◌∷◌, ok, err, arith, inl, inr, Result-cases, ◌∙◌, ◌||◌,
}
use swa_drive.Base.Text.{Text}
use swa_drive.Platform.{Platform}
use swa_drive.Uploads.Model.{
  Upload, Status, pending, finalizing, completed, cancelled, expired, status_eq,
}
use swa_drive.Uploads.Repository.{Db, find_row}
use swa_drive.Uploads.Repository.Calls.{Call, apply, run}
use swa_drive.Uploads.Repository.Lifecycle.{apply-RowStep}
use swa_drive.Uploads.Repository.Steps.{allowed}

-- Completed, cancelled and expired uploads have ended.
abbrev pub ended : Status → Bool
ended s = status_eq s completed || status_eq s cancelled || status_eq s expired

ended-allowed : (s t : Status) → ended s ≡ true → allowed s t ≡ true → t ≡ s
ended-allowed pending t e a = ground arith
ended-allowed finalizing t e a = ground arith
ended-allowed completed t e a = ground arith
ended-allowed cancelled t e a = ground arith
ended-allowed expired t e a = ground arith

after : Platform → Call → ℕ → Db → Db
after env c now db = elim (apply env c now db) [ ok db' ↦ db' | err _ ↦ db ]

after-ended :
    (env : Platform) (c : Call) (now : ℕ) (db : Db) (user : ℕ) (id : Text) (u : Upload)
    → find_row user id db.uploads ≡ some u
    → ended u.status ≡ true
    → (v : Upload) × (find_row user id (after env c now db).uploads ≡ some v)
      × (v.status ≡ u.status)
      × (v.part_name ≡ u.part_name)
      × (v.target_path ≡ u.target_path)
unfolding after
after-ended env c now db user id u h e = elim (Result-cases (apply env c now db)) [
  | inl (db', a) ↦
      (let (v, found, s) = apply-RowStep env c now db db' user id u h a in
        rw (a, after) (v, found, ended-allowed u.status v.status e s.moves, s.part, s.target))
  | inr (f, a) ↦ rw (a, after) (u, h, refl, refl, refl)
]

-- Whatever calls follow, in any order and at any times, a completed, cancelled or expired upload
-- keeps its row, its status, its part name and its path.
pub run-ended :
    (env : Platform) (cs : List (ℕ × Call)) (db : Db) (user : ℕ) (id : Text) (u : Upload)
    → find_row user id db.uploads ≡ some u
    → ended u.status ≡ true
    → (v : Upload) × (find_row user id (run env cs db).uploads ≡ some v)
      × (v.status ≡ u.status)
      × (v.part_name ≡ u.part_name)
      × (v.target_path ≡ u.target_path)
unfolding run after
run-ended env [] db user id u h e = (u, h, refl, refl, refl)
run-ended env ((now, c) ∷ cs) db user id u h e =
    let (v, found, status, part, target) = after-ended env c now db user id u h e in
    let (w, found', status', part', target') =
      run-ended env cs (after env c now db) user id v found (rw status e) in
    (w, found', status' ∙ status, part' ∙ part, target' ∙ target)
