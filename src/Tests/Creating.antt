-- ===== src/Tests/Creating.antt =====
-- A new upload beside one that is there.
use swa_drive.Base.{◌≤◌, ◌≡◌, refl, arith, some, []}
use swa_drive.Base.Text.{Text, codes, text_eq, split, cons_head, join}
use swa_drive.Base.Int.{pos}
use swa_drive.Storage.Path.{
  parse_path, valid_component, has_control, starts_with_slash, root_name, valid_internal_name,
}
use swa_drive.Storage.Utf8.{valid_string, decode}
use swa_drive.Storage.Manager.{
  prepare_upload, create_part, ensure_destination_available, ensure_files_parent, lstat,
  check_available,
}
use swa_drive.Files.Index.{
  parent_path_of, drop_last, require_available_active_path, active_generation,
  require_available_in_generation, metadata_in_generation,
}
use swa_drive.Audit.Event.{
  prepare_event, validate_event, valid_event_path, encode_metadata, known_outcome, append_event,
  append_in_transaction,
}
use swa_drive.Uploads.Model.{Upload, CreateInput, pending}
use swa_drive.Uploads.Chunks.{total_chunks, allowed_chunk_size}
use swa_drive.Uploads.Chunks.Tiling.{IsPlanned}
use swa_drive.Uploads.Repository.{
  find_row, upload_row, create_with_audit, active_uploads, insertable,
}
use swa_drive.World.{World, ◌>>=◌, inspect, transact, change, fallible, now}
use swa_drive.Uploads.Service.{event, event_at, new_upload_id, encode_hex}
use swa_drive.Uploads.Service.Transfer.{create, plan, check_space, store_upload, after_storing}
use swa_drive.Uploads.Service.Transfer.Creation.{create-IsPlanned}
use swa_drive.Tests.Samples.{volume, world, who}

abbrev input : CreateInput
input = record {
  target_path = codes "b.txt";
  total_size = pos 5;
  chunk_size = pos 0;
  whole_sha256 = [];
}

abbrev random : Text
random = codes "\0\0\0\0\0\0\0\0\0\0\0\0\0\0\0\0"

abbrev before : World
before = world pending [] volume

abbrev after : World
after = (create who input (some random) before).1

abbrev new_upload : Upload
new_upload = record {
  id = codes "00000000000000000000000000000000";
  user_id = 1;
  target_path = codes "b.txt";
  part_name = codes "00000000000000000000000000000000.part";
  total_size = 5;
  chunk_size = 4194304;
  total_chunks = 1;
  whole_sha256 = [];
  status = pending;
  created_at = 5000000000;
  updated_at = 5000000000;
  expires_at = 86405000000000;
  received_chunks = 0;
  received_bytes = 0;
}

create-IsPlanned_example :
    IsPlanned new_upload
    × (new_upload.total_size ≡ 5)
    × (1 ≤ 1000000)
    × (new_upload.status ≡ pending)
    × (find_row 1 (codes "00000000000000000000000000000000") after.db.uploads
        ≡ some (upload_row new_upload))
create-IsPlanned_example =
    create-IsPlanned who input (some random) 5 before {u = new_upload} {v = after} refl
      (omega arith)
      (unfold create ◌>>=◌ parse_path text_eq split cons_head valid_string decode starts_with_slash
          valid_component has_control plan total_chunks allowed_chunk_size check_space fallible
          check_available inspect prepare_upload ensure_destination_available ensure_files_parent
          parent_path_of drop_last join root_name lstat new_upload_id encode_hex change create_part
          valid_internal_name now event event_at store_upload transact create_with_audit
          require_available_active_path active_generation require_available_in_generation
          metadata_in_generation active_uploads insertable append_in_transaction prepare_event
          validate_event valid_event_path encode_metadata known_outcome append_event after_storing
          upload_row in
        refl)
