-- ===== src/Tests/Publishing.antt =====
-- Storing the last chunk, publishing the file, and a name that cannot be booked.
use swa_drive.Base.{
  ℕ, zero, suc, ◌≡◌, refl, false, [], ◌∷◌, ◌++◌, arith, length, take, drop, ok, err, if◌then◌else◌,
  ◌==◌, chunk_not_found,
}
use swa_drive.Base.{length-append}
use swa_drive.Base.Text.{Text, codes, text_eq, split, cons_head}
use swa_drive.Platform.{Platform}
use swa_drive.Storage.Path.{
  LogicalPath, parse_path, valid_component, has_control, starts_with_slash, root_name,
  valid_internal_name,
}
use swa_drive.Storage.Disk.{rename, below, Disk, present, regular, write_at, pad, put_node}
use swa_drive.Storage.Disk.Writing.{length-take, length-pad}
use swa_drive.Storage.Manager.{
  open_part, lstat, part_info, finalize_part, ensure_destination_available, ensure_files_parent,
  check_available,
}
use swa_drive.Storage.Utf8.{valid_string, decode}
use swa_drive.Files.Index.{
  base_name, parent_path_of, new_entry, validate_entry, confirm_active, generation_for,
  insert_entry, storable, active_generation_for_repair, metadata_in_generation,
  require_available_in_generation, clear_health_reason,
}
use swa_drive.Audit.Event.{
  prepare_event, validate_event, valid_event_path, encode_metadata, known_outcome, append_event,
  append_in_transaction,
}
use swa_drive.Uploads.Model.{Upload, Chunk, pending, completed}
use swa_drive.Uploads.Chunks.{chunk_bounds}
use swa_drive.Uploads.Chunks.Tiling.{IsPlanned}
use swa_drive.Uploads.Repository.{
  find, find_row, find_chunk, validate_chunks, with_progress, chunks_of, sort_by_index,
  insert_by_index, validate_from, chunk_matches, update_where, require_changed, sum_sizes,
  record_chunk, chunk_insertable, prepare_finalization, complete_with_audit, upload_health_reason,
}
use swa_drive.World.{World, ◌>>=◌, query, inspect, transact, change, fallible, now}
use swa_drive.Uploads.Service.{event, event_at, valid_upload_id, is_hex_digit}
use swa_drive.Uploads.Service.Transfer.{
  Body, put_found, store_chunk, compare_sums, check_body, check_space, write_part,
}
use swa_drive.Uploads.Service.Transfer.Storing.{put_found-stores}
use swa_drive.Uploads.Service.Completion.{
  verify_and_sync_part, hash_section, complete, complete_found, publish, publish_measured,
  verify_then_publish, after_verification, publish_part, after_rename, after_booking,
  complete_published,
}
use swa_drive.Uploads.Service.Completion.Publication.{IsPublished}
use swa_drive.Uploads.Service.Completion.Request.{complete-IsPublished}
use swa_drive.Storage.Manager.{in_files, in_uploads}
use swa_drive.Tests.Samples.{env, bytes, digest, id, upload, chunk, volume, world, who, planned}

abbrev body : Body
body = record { content = bytes; failing = false }

-- An empty part, as `Create` leaves it.
abbrev empty_part : Disk
empty_part = put_node (codes "uploads/p.part") (present (regular [] 1)) volume

abbrev created : World
created = world pending [] empty_part

abbrev stored_chunk : World
stored_chunk =
    (put_found env who id (upload pending) 0 0 3 body digest (err chunk_not_found) created).1

put_found-stores_example :
    (length bytes ≡ 3)
    × (env.sha256_sum bytes ≡ digest)
    × (false ≡ false)
    × ((old stored : Text) × (open_part (codes "p.part") empty_part ≡ ok old)
        × (open_part (codes "p.part") stored_chunk.disk ≡ ok stored)
        × (stored ≡ write_at old 0 bytes)
        × (take 3 (drop 0 stored) ≡ bytes))
    × ((c : Chunk) × (find_chunk id 0 stored_chunk.db ≡ ok c)
        × (c.offset ≡ 0)
        × (c.size ≡ 3)
        × (c.sha256 ≡ digest))
put_found-stores_example =
    put_found-stores env who id (upload pending) 0 0 3 body digest created
      {r = record {
        upload = record (upload pending) {
          updated_at = 5000000000;
          received_chunks = 1;
          received_bytes = 3;
        };
        idempotent = false;
      }}
      {v = stored_chunk}
      (unfold put_found ◌>>=◌ check_space fallible check_available inspect open_part lstat
          valid_internal_name text_eq put_node change write_part write_at pad check_body
          compare_sums store_chunk now transact record_chunk chunk_insertable update_where query
          find find_row with_progress chunks_of sum_sizes in
        refl)

abbrev ready : World
ready = world pending (chunk ∷ []) volume

abbrev done : World
done = (complete env who id ready).1

abbrev row : Upload
row = record (upload pending) { received_chunks = 1; received_bytes = 3 }

IsPlanned-row : IsPlanned row
IsPlanned-row =
    let p = planned pending in
    record { chunk_pos = p.chunk_pos; total_int64 = p.total_int64; count = p.count }

complete-IsPublished_example :
    (p : LogicalPath) × (parse_path (codes "a.txt") false ≡ ok p) × IsPublished env row p ready done
complete-IsPublished_example =
    complete-IsPublished env who id row ready
      {r = record row { status = completed; updated_at = 5000000000 }} {v = done}
      (unfold find find_row text_eq with_progress chunks_of sum_sizes in refl) refl IsPlanned-row
      (unfold complete valid_upload_id is_hex_digit ◌>>=◌ query find find_row text_eq with_progress
          chunks_of sum_sizes fallible complete_found parse_path split cons_head valid_string decode
          starts_with_slash valid_component has_control publish validate_chunks validate_from
          sort_by_index insert_by_index chunk_matches chunk_bounds inspect part_info
          valid_internal_name lstat publish_measured verify_then_publish verify_and_sync_part
          open_part hash_section pad after_verification now transact prepare_finalization
          update_where require_changed publish_part change finalize_part
          ensure_destination_available ensure_files_parent parent_path_of root_name after_rename
          complete_published new_entry base_name event event_at complete_with_audit confirm_active
          generation_for insert_entry storable validate_entry active_generation_for_repair
          metadata_in_generation require_available_in_generation upload_health_reason
          append_in_transaction prepare_event validate_event valid_event_path encode_metadata
          known_outcome append_event clear_health_reason after_booking in
        refl)

-- A lower case that grows: U+023A has two bytes in UTF-8, its lower case U+2C65 has three.
abbrev lower : Text → Text
lower [] = []
lower (b ∷ bs) =
    if b == 0xc8
    then 0xe2 ∷ 0xb1 ∷ lower bs
    else if b == 0xba
    then 0xa5 ∷ lower bs
    else b ∷ lower bs

abbrev growing : Platform
growing = record {
  sha256_sum = λ s. take 32 (s ++ pad 32);
  to_lower = lower;
  sha256_size =
      λ s. omega (arith, length-take 32 (s ++ pad 32), length-append s (pad 32), length-pad 32);
}

abbrev repeated : ℕ → Text
repeated zero = []
repeated (suc n) = 0xc8 ∷ 0xba ∷ repeated n

abbrev overlong : Upload
overlong = record row { target_path = repeated 90 }

abbrev waiting : World
waiting = record ready {
  db = record ready.db { uploads = record (upload pending) { target_path = repeated 90 } ∷ [] };
}

-- The file of that upload is published all the same.
overlong_published :
    (complete growing who id waiting).1.disk (in_files (record { value = repeated 90 }))
    ≡ waiting.disk (in_uploads (codes "p.part"))
overlong_published =
    (unfold complete valid_upload_id is_hex_digit ◌>>=◌ query find find_row text_eq with_progress
        chunks_of sum_sizes fallible complete_found parse_path split cons_head valid_string decode
        starts_with_slash valid_component has_control publish validate_chunks validate_from
        sort_by_index insert_by_index chunk_matches chunk_bounds inspect part_info
        valid_internal_name lstat publish_measured verify_then_publish verify_and_sync_part
        open_part hash_section pad after_verification now transact prepare_finalization update_where
        require_changed publish_part change finalize_part ensure_destination_available
        ensure_files_parent parent_path_of root_name after_rename complete_published new_entry
        base_name event event_at complete_with_audit confirm_active generation_for insert_entry
        storable validate_entry active_generation_for_repair metadata_in_generation
        require_available_in_generation upload_health_reason append_in_transaction prepare_event
        validate_event valid_event_path encode_metadata known_outcome append_event
        clear_health_reason after_booking rename below in
      refl)
