-- ===== src/Files/Service/Trashing.antt =====
-- Trash, restore and their reconciliation: `Trash`, `Restore`, `ReconcileTrash` and
-- `HasPendingReconciliation` of server/internal/files/service.go.
use swa_drive.Base.{
  ℕ, zero, suc, Bool, true, false, not, ◌&&◌, ◌||◌, Option, none, some, List, [], ◌∷◌, Result, ok,
  err, owner_required, trash_entry_not_found, reconciliation, joined, ltb, ◌==◌, if◌then◌else◌,
  length, take, filter,
}
use swa_drive.Base.Text.{Text, codes}
use swa_drive.Base.Order.{text_le}
use swa_drive.Storage.Path.{LogicalPath, parse_path}
use swa_drive.Storage.Manager.{move_to_trash, restore_from_trash}
use swa_drive.Storage.Repair.{trash_state}
use swa_drive.Audit.Event.{Event, outcome_success}
use swa_drive.Auth.Model.{Identity, is_owner}
use swa_drive.Database.{Db}
use swa_drive.Files.Index.{mark_unhealthy}
use swa_drive.Files.Trash.{
  TrashEntry, TrashState, trashing, trashed, restoring, is_unsettled, trash_state_eq,
}
use swa_drive.Files.Repository.{
  on_index, prepare_trash, abort_trash, commit_trash_with_audit, begin_restore, rollback_restore,
  finish_restore_with_audit, trash_health_reason, restore_health_reason,
}
use swa_drive.Files.Service.{file_event, random_id, valid_resource_id}
use swa_drive.World.{
  M, ◌>>=◌, ◌>>◌, lift, pure, raise, raise_joined, attempt, guard, now, fallible, query, inspect,
  transact, transact_with, change,
}

unfoldable pub mark_index_unhealthy_for : Text → M (Unit {0})
mark_index_unhealthy_for reason = do t ← now; transact (λ _. on_index (mark_unhealthy reason))

unfoldable pub after_commit : TrashEntry → Result (Unit {0}) → M TrashEntry
after_commit entry (ok _) = pure (record entry { state = trashed })
after_commit entry (err f) =
    raise_joined f (mark_index_unhealthy_for (trash_health_reason entry.id))

unfoldable pub after_trashing : Identity → TrashEntry → Result (Unit {0}) → M TrashEntry
after_trashing who entry (err f) =
    raise_joined f (transact (λ _. abort_trash entry.user_id entry.id))
after_trashing who entry (ok _) = do
  e ←
      file_event who (codes "files.trashed") (codes "trash_entry") entry.id entry.original_path []
        []
  committed ←
      attempt (transact (λ t. commit_trash_with_audit entry.user_id entry.id entry.updated_at e t))
  after_commit entry committed

-- `Trash`; `random` is what `rand.Read` gives.
unfoldable pub trash_file : Identity → Text → Option Text → M TrashEntry
trash_file who value random = do
  guard (is_owner who.role) owner_required
  path ← lift (parse_path value false)
  id ← lift (random_id random)
  t ← now
  u ← now
  let entry : TrashEntry = record {
    id = id;
    user_id = who.user_id;
    original_path = path.value;
    trash_name = id;
    trashed_at = t;
    state = trashing;
    updated_at = u;
  }
  transact (λ _. prepare_trash entry)
  moved ← attempt (change (move_to_trash path id))
  after_trashing who entry moved

unfoldable pub after_finish : TrashEntry → Result (Unit {0}) → M (Unit {0})
after_finish entry (ok _) = pure tt
after_finish entry (err f) =
    raise_joined f (mark_index_unhealthy_for (restore_health_reason entry.id))

unfoldable pub after_restoring : Identity → Text → ℕ → TrashEntry → Result (Unit {0}) → M (Unit {0})
after_restoring who id t entry (err f) =
    raise_joined f (transact (λ _. rollback_restore who.user_id id t))
after_restoring who id t entry (ok _) = do
  e ←
      file_event who (codes "files.restored") (codes "trash_entry") entry.id entry.original_path []
        []
  finished ← attempt (transact (finish_restore_with_audit who.user_id id e))
  after_finish entry finished

unfoldable pub restore_file : Identity → Text → M (Unit {0})
restore_file who id = do
  guard (is_owner who.role) owner_required
  guard (valid_resource_id id) trash_entry_not_found
  t ← now
  entry ← transact_with (begin_restore who.user_id id t)
  destination ← lift (parse_path entry.original_path false)
  moved ← attempt (change (restore_from_trash entry.trash_name destination))
  after_restoring who id t entry moved

-- `reconciliationEvent`
unfoldable pub reconciliation_event : TrashEntry → ℕ → Event
reconciliation_event entry t = record {
  occurred_at = t;
  actor_user_id = some entry.user_id;
  actor_session_id = none;
  event_type =
      if trash_state_eq entry.state restoring
      then codes "files.restored"
      else codes "files.trashed";
  outcome = outcome_success;
  resource_type = codes "trash_entry";
  resource_id = entry.id;
  resource_path = entry.original_path;
  destination_path = [];
  request_id = [];
  remote_ip = [];
  metadata = (codes "reason_code", codes "reconciled") ∷ [];
}

-- The switch of `reconcileTrashEntry` on the entry's state, and on whether the trash and the original
-- path hold something.
unfoldable pub settle_trash : TrashEntry → ℕ → TrashState → (in_trash back : Bool) → M (Unit {0})
settle_trash entry t trashing true false =
    transact (commit_trash_with_audit entry.user_id entry.id t (reconciliation_event entry t))
settle_trash entry t trashing false true = transact (λ _. abort_trash entry.user_id entry.id)
settle_trash entry t restoring false true =
    transact (finish_restore_with_audit entry.user_id entry.id (reconciliation_event entry t))
settle_trash entry t restoring true false =
    transact (λ _. rollback_restore entry.user_id entry.id t)
settle_trash entry t _ _ _ = raise reconciliation

unfoldable pub reconcile_trash_parsed : TrashEntry → Result LogicalPath → M (Unit {0})
reconcile_trash_parsed entry (err f) = raise (joined reconciliation f)
reconcile_trash_parsed entry (ok destination) = do
  (in_the_trash, back) ← inspect (trash_state entry.trash_name destination)
  t ← now
  settle_trash entry t entry.state in_the_trash back

unfoldable pub reconcile_trash_entry : TrashEntry → M (Unit {0})
reconcile_trash_entry entry = do
  fallible
  reconcile_trash_parsed entry (parse_path entry.original_path false)

-- `ORDER BY updated_at, id`
unfoldable pub insert_trash : TrashEntry → List TrashEntry → List TrashEntry
insert_trash e [] = e ∷ []
insert_trash e (f ∷ fs) =
    let rest = insert_trash e fs in
    if ltb e.updated_at f.updated_at || e.updated_at == f.updated_at && text_le e.id f.id
    then e ∷ f ∷ fs
    else f ∷ rest

unfoldable pub sort_trash : List TrashEntry → List TrashEntry
sort_trash [] = []
sort_trash (e ∷ es) = insert_trash e (sort_trash es)

unfoldable pub list_reconciliation : ℕ → Db → List TrashEntry
list_reconciliation limit db = take limit (sort_trash (filter is_unsettled db.trash))

unfoldable pub reconcile_trash_page : List TrashEntry → ℕ → M ℕ
reconcile_trash_page [] done = pure done
reconcile_trash_page (e ∷ es) done = reconcile_trash_entry e >> reconcile_trash_page es (suc done)

-- `ReconcileTrash`: pages of 100, at most 1000 entries, so at most 10 rounds.
unfoldable pub reconcile_trash_rounds : ℕ → ℕ → M ℕ
reconcile_trash_rounds zero done = do
  remaining ← query (λ db. ok (list_reconciliation 1 db))
  guard (length remaining == 0) reconciliation
  pure done
reconcile_trash_rounds (suc rounds) done = do
  entries ← query (λ db. ok (list_reconciliation 100 db))
  done' ← reconcile_trash_page entries done
  (if ltb (length entries) 100 then pure done' else λ w. reconcile_trash_rounds rounds done' w)

unfoldable pub reconcile_trash : M ℕ
reconcile_trash = reconcile_trash_rounds 10 0

unfoldable pub has_pending_reconciliation : M Bool
has_pending_reconciliation = do
  entries ← query (λ db. ok (list_reconciliation 1 db))
  pure (not (length entries == 0))
