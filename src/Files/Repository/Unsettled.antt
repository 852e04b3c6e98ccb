-- ===== src/Files/Repository/Unsettled.antt =====
-- The rows of the trash that wait for a reconciliation, and what each transaction takes from them
-- (server/internal/files/sqlite_repository.go).
use swa_drive.Base.{ℕ, ◌≡◌, refl, ap, ◌∙◌, Bool, not, List, [], ◌∷◌, ok, arith, filter}
use swa_drive.Base.Text.{Text}
use swa_drive.Audit.Event.{Event, stored_time}
use swa_drive.Database.{Db}
use swa_drive.Files.Trash.{
  TrashEntry, TrashState, trashing, trashed, restoring, trash_in_state, is_unsettled,
  set_trash_state, delete_trash,
}
use swa_drive.Files.Repository.{
  require_trash_change, abort_trash, commit_trash_with_audit, rollback_restore,
  finish_restore_with_audit,
}

-- The rows that wait for a reconciliation.
unfoldable pub unsettled : Db → List TrashEntry
unsettled db = filter is_unsettled db.trash

unfoldable pub without : (TrashEntry → Bool) → List TrashEntry → List TrashEntry
without p xs = filter (λ r. not (p r)) xs

set_trash_state-unsettled :
    (user : ℕ) (id : Text) (from : TrashState) (t : ℕ) (rows : List TrashEntry)
    → filter is_unsettled (set_trash_state user id from trashed t rows).0
      ≡ without (trash_in_state user id from) (filter is_unsettled rows)
unfolding set_trash_state without
set_trash_state-unsettled user id from t [] = refl
set_trash_state-unsettled user id from t (e ∷ es) =
    ground (arith, set_trash_state-unsettled user id from t es)

delete_trash-unsettled :
    (user : ℕ) (id : Text) (s : TrashState) (rows : List TrashEntry)
    → filter is_unsettled (delete_trash user id s rows).0
      ≡ without (trash_in_state user id s) (filter is_unsettled rows)
unfolding delete_trash without
delete_trash-unsettled user id s [] = refl
delete_trash-unsettled user id s (e ∷ es) = ground (arith, delete_trash-unsettled user id s es)

pub require_trash_change-ok :
    (r : List TrashEntry × ℕ) (rows : List TrashEntry)
    → require_trash_change r ≡ ok rows
    → rows ≡ r.0
unfolding require_trash_change
require_trash_change-ok (rs, n) rows h = ground arith

pub abort_trash-unsettled :
    (user : ℕ) (id : Text) (db db' : Db)
    → abort_trash user id db ≡ ok db'
    → unsettled db' ≡ without (trash_in_state user id trashing) (unsettled db)
unfolding abort_trash unsettled
abort_trash-unsettled user id db db' h =
    let changed : require_trash_change (delete_trash user id trashing db.trash) ≡ ok db'.trash =
      ground arith in
    ap (filter is_unsettled) (require_trash_change-ok _ db'.trash changed)
    ∙ delete_trash-unsettled user id trashing db.trash

pub rollback_restore-unsettled :
    (user : ℕ) (id : Text) (t : ℕ) (db db' : Db)
    → rollback_restore user id t db ≡ ok db'
    → unsettled db' ≡ without (trash_in_state user id restoring) (unsettled db)
unfolding rollback_restore unsettled
rollback_restore-unsettled user id t db db' h =
    let changed : require_trash_change
          (set_trash_state user id restoring trashed (stored_time t) db.trash)
        ≡ ok db'.trash =
      ground arith in
    ap (filter is_unsettled) (require_trash_change-ok _ db'.trash changed)
    ∙ set_trash_state-unsettled user id restoring (stored_time t) db.trash

pub commit_trash-unsettled :
    (user : ℕ) (id : Text) (updated t : ℕ) (e : Event) (db db' : Db)
    → commit_trash_with_audit user id updated e t db ≡ ok db'
    → unsettled db' ≡ without (trash_in_state user id trashing) (unsettled db)
unfolding commit_trash_with_audit unsettled
commit_trash-unsettled user id updated t e db db' h =
    let changed : require_trash_change
          (set_trash_state user id trashing trashed (stored_time updated) db.trash)
        ≡ ok db'.trash =
      ground arith in
    ap (filter is_unsettled) (require_trash_change-ok _ db'.trash changed)
    ∙ set_trash_state-unsettled user id trashing (stored_time updated) db.trash

pub finish_restore-unsettled :
    (user : ℕ) (id : Text) (t : ℕ) (e : Event) (db db' : Db)
    → finish_restore_with_audit user id e t db ≡ ok db'
    → unsettled db' ≡ without (trash_in_state user id restoring) (unsettled db)
unfolding finish_restore_with_audit unsettled
finish_restore-unsettled user id t e db db' h =
    let changed : require_trash_change (delete_trash user id restoring db.trash) ≡ ok db'.trash =
      ground arith in
    ap (filter is_unsettled) (require_trash_change-ok _ db'.trash changed)
    ∙ delete_trash-unsettled user id restoring db.trash
