-- ===== src/Tests/Progress.antt =====
-- The one file can be moved.
use swa_drive.Base.{ℕ, ◌≡◌, refl, some, List, [], ok}
use swa_drive.Base.Text.{codes, text_eq, split, cons_head, join}
use swa_drive.Storage.Path.{parse_path, valid_component, has_control, starts_with_slash}
use swa_drive.Storage.Utf8.{valid_string, decode}
use swa_drive.Audit.Event.{
  StoredEvent, append_in_transaction, prepare_event, validate_event, valid_event_path,
  encode_metadata, known_outcome, append_event, safe_entry, allowed_reason_code, marshal_entries,
}
use swa_drive.Files.Index.{
  generation_for, active_generation_for_repair, metadata_in_generation, parent_path_of, drop_last,
  base_name, last_component, storable,
}
use swa_drive.Storage.Disk.{below}
use swa_drive.Files.Subtree.{
  move_subtree, update_moved, update_entries, in_subtree, moved_entry, require_parent,
  require_absent, no_clash,
}
use swa_drive.Files.Service.{move_file, file_event_at, move_mutation_reason}
use swa_drive.Files.Progress.{move_file-succeeds}
use swa_drive.World.{World}
use swa_drive.Tests.Samples.{env, who}
use swa_drive.Tests.Filing.{filed, a, b, moved_disk, moved_index, moved_volume}

event_taken :
    (at now : ℕ)
    → (events : List StoredEvent) × (append_in_transaction
          (file_event_at who (codes "files.moved") (codes "file") [] (codes "a") (codes "b") [] at)
          now
          []
        ≡ ok events)
unfolding append_in_transaction prepare_event validate_event valid_event_path encode_metadata
    known_outcome append_event safe_entry allowed_reason_code marshal_entries file_event_at
    parse_path text_eq split cons_head valid_string decode starts_with_slash valid_component
    has_control
event_taken at now = (_, refl)

move_file-succeeds_example :
    (v : World) × (move_file env who (codes "a") (codes "b") filed ≡ (ok tt, v))
move_file-succeeds_example =
    move_file-succeeds env who (codes "a") (codes "b") filed {s = a} {t = b} {g = 1}
      {disk = moved_disk} {i = record moved_index { unhealthy = some move_mutation_reason }} refl
      refl
      (unfold parse_path text_eq split cons_head valid_string decode starts_with_slash
          valid_component has_control in
        refl)
      (unfold parse_path text_eq split cons_head valid_string decode starts_with_slash
          valid_component has_control in
        refl)
      refl refl moved_volume
      (unfold move_subtree generation_for active_generation_for_repair metadata_in_generation
          text_eq require_parent require_absent parent_path_of drop_last split join below
          update_moved update_entries in_subtree moved_entry base_name last_component storable
          no_clash in
        refl)
      event_taken
