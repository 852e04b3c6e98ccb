-- ===== src/Tests/Serving.antt =====
-- The one file is downloaded.
use swa_drive.Base.{ℕ, ◌≡◌, refl, true, false, ◌&&◌, ok, ltb, ◌==◌, ◌/◌, length}
use swa_drive.Base.Text.{codes, text_eq, split, cons_head}
use swa_drive.Storage.Path.{
  LogicalPath, parse_path, valid_component, has_control, starts_with_slash, root_name,
}
use swa_drive.Storage.Utf8.{valid_string, decode}
use swa_drive.Storage.Manager.{open_download, safe_source_info, lstat}
use swa_drive.Audit.Event.{
  second, prepare_event, validate_event, valid_event_path, encode_metadata, known_outcome,
  append_event, safe_entry, allowed_reason_code, marshal_entries,
}
use swa_drive.Auth.Model.{is_owner}
use swa_drive.Files.Index.{file, kind_eq, active_generation, metadata_in_generation}
use swa_drive.Files.Service.{file_event, file_event_at}
use swa_drive.Files.Service.Downloads.{download_file, check_download, indexed_metadata}
use swa_drive.Files.Served.{LogsOnly, download_file-serves}
use swa_drive.World.{World, ◌>>=◌, fallible, query, inspect, transact, now}
use swa_drive.World.Audit.{record_event}
use swa_drive.Tests.Samples.{bytes, who}
use swa_drive.Tests.Filing.{filed, entry}

abbrev served : World
served = (download_file who (codes "a") filed).1

download_file-serves_example :
    (p : LogicalPath) × (m : ℕ) × (is_owner who.role ≡ true)
    × (ltb filed.downloading filed.download_admissions ≡ true)
    × (parse_path (codes "a") false ≡ ok p)
    × (indexed_metadata p.value filed.db ≡ ok entry)
    × (kind_eq entry.kind file ≡ true)
    × (open_download p filed.disk ≡ ok (bytes, m))
    × ((length bytes == entry.size && m / second == entry.modified_at / second) ≡ true)
    × LogsOnly filed served
download_file-serves_example =
    download_file-serves who (codes "a") filed {content = bytes} {entry = entry} {v = served} (
      unfold download_file ◌>>=◌ fallible parse_path text_eq split cons_head valid_string decode
        starts_with_slash valid_component has_control query indexed_metadata active_generation
        metadata_in_generation inspect open_download safe_source_info lstat root_name check_download
        file_event file_event_at now record_event transact prepare_event validate_event
        valid_event_path encode_metadata known_outcome append_event safe_entry allowed_reason_code
        marshal_entries in
      refl)
