-- ===== src/Tests/Volume.antt =====
-- Paths and publications on a small volume.
use swa_drive.Base.{ℕ, ◌≡◌, refl, true, false, length, ok}
use swa_drive.Base.Text.{Text, codes, text_eq, split, join}
use swa_drive.Storage.Path.{
  LogicalPath, parse_path, valid_component, has_control, starts_with_slash, root_name,
  valid_internal_name,
}
use swa_drive.Storage.Path.Containment.{parse_path-resolve, resolve}
use swa_drive.Storage.Utf8.{valid_string}
use swa_drive.Storage.Disk.{Disk, regular, present, absent, below, rename}
use swa_drive.Storage.Manager.{
  in_files, in_uploads, part_info, finalize_part, finalization_state, lstat,
  ensure_destination_available, ensure_files_parent,
}
use swa_drive.Storage.Manager.Publication.{
  finalize_part-publishes, finalization_state-finalize_part,
}
use swa_drive.Files.Index.{parent_path_of}
use swa_drive.Tests.Samples.{volume}

abbrev nested : LogicalPath
nested = record { value = codes "a/b.txt" }

parse_nested : parse_path (codes "a/b.txt") false ≡ ok nested
unfolding parse_path text_eq split valid_string starts_with_slash valid_component has_control
parse_nested = refl

parse_path-resolve_example :
    (codes "a/b.txt" ≡ codes "a/b.txt")
    × (join b'/' (resolve (split b'/' (codes "a/b.txt"))) ≡ codes "a/b.txt")
parse_path-resolve_example = parse_path-resolve (codes "a/b.txt") false nested parse_nested

abbrev target : LogicalPath
target = record { value = codes "a.txt" }

abbrev published : Disk
published = rename (codes "uploads/p.part") (codes "files/a.txt") volume

publish_part : finalize_part (codes "p.part") target volume ≡ ok published
unfolding finalize_part part_info lstat ensure_destination_available ensure_files_parent
    valid_internal_name text_eq parent_path_of root_name
publish_part = refl

finalize_part-publishes_example :
    (info : Text × ℕ) × (part_info (codes "p.part") volume ≡ ok info)
    × (volume (in_files target) ≡ absent)
    × (published (in_files target) ≡ present (regular info.0 info.1))
    × (published (in_uploads (codes "p.part")) ≡ absent)
    × (published (codes "files") ≡ volume (codes "files"))
finalize_part-publishes_example =
    finalize_part-publishes (codes "p.part") target volume published (codes "files") publish_part
      (unfold below root_name text_eq in refl) (unfold below in refl)

finalization_state-finalize_part_example :
    (info : Text × ℕ) × (part_info (codes "p.part") volume ≡ ok info)
    × (finalization_state (codes "p.part") target published
        ≡ ok (record {
          part_exists = false;
          destination_exists = true;
          destination_size = length info.0;
          destination_modified_at = info.1;
        }))
finalization_state-finalize_part_example =
    finalization_state-finalize_part (codes "p.part") target volume published publish_part
