-- ===== src/Files/Trash.antt =====
-- The rows of the trash (server/internal/files/service.go and sqlite_repository.go).
use swa_drive.Base.{
  ℕ, suc, Bool, true, false, ◌&&◌, ◌||◌, Option, none, some, List, [], ◌∷◌, leb, ◌==◌,
  if◌then◌else◌, length, any, not,
}
use swa_drive.Base.Text.{Text, text_eq}

pub data TrashState : Type 0 where
  trashing trashed restoring : TrashState

abbrev pub trash_state_eq : TrashState → TrashState → Bool
trash_state_eq trashing trashing = true
trash_state_eq trashed trashed = true
trash_state_eq restoring restoring = true
trash_state_eq _ _ = false

pub record TrashEntry : Type 0 where
  pub id : Text
  pub user_id : ℕ
  pub original_path : Text
  pub trash_name : Text
  pub trashed_at : ℕ
  pub state : TrashState
  pub updated_at : ℕ

-- Left half way between the volume and the tables.
abbrev pub is_unsettled : TrashEntry → Bool
is_unsettled e = not (trash_state_eq e.state trashed)

-- `WHERE id = ? AND user_id = ? AND state = ?`
abbrev pub trash_in_state : ℕ → Text → TrashState → TrashEntry → Bool
trash_in_state user id s e = text_eq e.id id && e.user_id == user && trash_state_eq e.state s

-- `SELECT … WHERE id = ? AND user_id = ? AND state = ?`
unfoldable pub find_trash : ℕ → Text → TrashState → List TrashEntry → Option TrashEntry
find_trash user id s [] = none
find_trash user id s (e ∷ es) =
    if trash_in_state user id s e then some e else find_trash user id s es

-- `UPDATE` or `DELETE` of the rows in a state: the new rows, and how many changed.
unfoldable pub set_trash_state :
    ℕ → Text → (from to : TrashState) → ℕ → List TrashEntry → List TrashEntry × ℕ
set_trash_state user id from to t [] = ([], 0)
set_trash_state user id from to t (e ∷ es) =
    let (rest, n) = set_trash_state user id from to t es in
    if trash_in_state user id from e
    then (record e { state = to; updated_at = t } ∷ rest, suc n)
    else (e ∷ rest, n)

unfoldable pub delete_trash : ℕ → Text → TrashState → List TrashEntry → List TrashEntry × ℕ
delete_trash user id s [] = ([], 0)
delete_trash user id s (e ∷ es) =
    let (rest, n) = delete_trash user id s es in
    if trash_in_state user id s e then (rest, suc n) else (e ∷ rest, n)

-- The keys and the checks of `trash_entries`.
unfoldable pub trash_insertable : TrashEntry → List TrashEntry → Bool
trash_insertable e rows =
    not (any (λ f. text_eq f.id e.id || text_eq f.trash_name e.trash_name) rows)
    && leb 16 (length e.id)
    && leb (length e.id) 128
    && leb 1 (length e.original_path)
    && leb (length e.original_path) 4096
    && leb 1 (length e.trash_name)
    && leb (length e.trash_name) 256
