-- ===== src/Tests/Settled.antt =====
-- A file that was moved to the trash and not booked: its reconciliation.
use swa_drive.Base.{◌≡◌, refl, [], ◌∷◌, if◌then◌else◌}
use swa_drive.Base.Text.{codes, text_eq, split, cons_head}
use swa_drive.Storage.Path.{
  parse_path, valid_component, has_control, starts_with_slash, root_name, valid_internal_name,
}
use swa_drive.Storage.Utf8.{valid_string, decode}
use swa_drive.Storage.Disk.{Disk, present, absent, folder, regular, below}
use swa_drive.Storage.Repair.{trash_state, regular_or_directory_exists}
use swa_drive.Audit.Event.{
  prepare_event, validate_event, valid_event_path, encode_metadata, known_outcome, append_event,
  safe_entry, allowed_reason_code, marshal_entries, append_in_transaction,
}
use swa_drive.Files.Index.{active_generation_for_repair, clear_health_reason}
use swa_drive.Files.Trash.{TrashEntry, trashing, find_trash, set_trash_state}
use swa_drive.Files.Subtree.{hide_subtree, in_subtree, update_entries}
use swa_drive.Files.Repository.{commit_trash_with_audit, trash_health_reason, require_trash_change}
use swa_drive.Files.Service.Trashing.{
  reconcile_trash, reconcile_trash_rounds, reconcile_trash_page, reconcile_trash_entry,
  reconcile_trash_parsed, settle_trash, list_reconciliation, sort_trash, insert_trash,
  reconciliation_event,
}
use swa_drive.Files.Repository.Unsettled.{unsettled}
use swa_drive.Files.Service.Settling.{reconcile_trash-unsettled}
use swa_drive.World.{World, ◌>>=◌, query, inspect, transact, fallible, now}
use swa_drive.Tests.Samples.{bytes, id}
use swa_drive.Tests.Filing.{filed}

abbrev row : TrashEntry
row = record {
  id = id;
  user_id = 1;
  original_path = codes "a";
  trash_name = id;
  trashed_at = 1;
  state = trashing;
  updated_at = 1;
}

abbrev trashed_disk : Disk
trashed_disk name =
    if text_eq name (codes "files")
    then present folder
    else if text_eq name (codes "trash/0123456789abcdef0123456789abcdef")
    then present (regular bytes 7)
    else absent

abbrev half_way : World
half_way = record filed { disk = trashed_disk; db = record filed.db { trash = row ∷ [] } }

abbrev settled : World
settled = (reconcile_trash half_way).1

reconcile_trash-unsettled_example : unsettled settled.db ≡ []
reconcile_trash-unsettled_example = reconcile_trash-unsettled half_way {m = 1} {v = settled} (
    unfold reconcile_trash reconcile_trash_rounds ◌>>=◌ query fallible list_reconciliation
      sort_trash insert_trash reconcile_trash_page reconcile_trash_entry reconcile_trash_parsed
      parse_path split cons_head valid_string decode starts_with_slash valid_component has_control
      inspect trash_state regular_or_directory_exists valid_internal_name text_eq root_name now
      settle_trash transact commit_trash_with_audit find_trash active_generation_for_repair
      trash_health_reason hide_subtree in_subtree below update_entries set_trash_state
      require_trash_change append_in_transaction prepare_event validate_event valid_event_path
      encode_metadata known_outcome append_event reconciliation_event clear_health_reason safe_entry
      allowed_reason_code marshal_entries in
    refl)
