-- ===== src/Tests/Samples.antt =====
-- An upload of three bytes, the world around it, and a stand-in for the hash: the first 32 bytes.
use swa_drive.Base.{refl, true, false, none, some, List, [], ◌∷◌, ◌++◌, arith, take}
use swa_drive.Base.{length-append}
use swa_drive.Base.Text.{Text, codes, text_eq}
use swa_drive.Platform.{Platform}
use swa_drive.Storage.Disk.{Disk, regular, folder, present, absent, pad}
use swa_drive.Storage.Disk.Writing.{length-take, length-pad}
use swa_drive.Uploads.Model.{Upload, Chunk, Status}
use swa_drive.Uploads.Chunks.{total_chunks}
use swa_drive.Uploads.Chunks.Tiling.{IsPlanned}
use swa_drive.Uploads.Repository.{Db}
use swa_drive.Files.Index.{active}
use swa_drive.World.{World}
use swa_drive.Uploads.Service.{Identity, owner}

abbrev pub env : Platform
env = record {
  sha256_sum = λ s. take 32 (s ++ pad 32);
  to_lower = λ s. s;
  sha256_size =
      λ s. omega (arith, length-take 32 (s ++ pad 32), length-append s (pad 32), length-pad 32);
}

abbrev pub bytes : Text
bytes = codes "abc"

abbrev pub digest : Text
digest = codes "abc" ++ codes "\0\0\0\0\0\0\0\0\0\0\0\0\0\0\0\0\0\0\0\0\0\0\0\0\0\0\0\0\0"

abbrev pub id : Text
id = codes "0123456789abcdef0123456789abcdef"

abbrev pub upload : Status → Upload
upload s = record {
  id = id;
  user_id = 1;
  target_path = codes "a.txt";
  part_name = codes "p.part";
  total_size = 3;
  chunk_size = 1048576;
  total_chunks = 1;
  whole_sha256 = digest;
  status = s;
  created_at = 0;
  updated_at = 0;
  expires_at = 86400000000000;
  received_chunks = 0;
  received_bytes = 0;
}

abbrev pub chunk : Chunk
chunk = record { upload_id = id; index = 0; offset = 0; size = 3; sha256 = digest; received_at = 0 }

-- The files' directory and one part.
abbrev pub volume : Disk
volume name = elim (text_eq name (codes "files")) [
  | true ↦ present folder
  | false ↦ elim (text_eq name (codes "uploads/p.part")) [
    | true ↦ present (regular bytes 7)
    | false ↦ absent
  ]
]

abbrev pub database : Status → List Chunk → Db
database s cs = record {
  uploads = upload s ∷ [];
  chunks = cs;
  index = record { active_generation = some 1; unhealthy = none; entries = [] };
  trash = [];
  events = [];
  generations = record { id = 1; status = active; started_at = 0; completed_at = some 0 } ∷ [];
  users = [];
  sessions = [];
}

abbrev pub world : Status → List Chunk → Disk → World
world s cs d = record {
  db = database s cs;
  disk = d;
  clock = 5000000000;
  delays = [];
  faults = [];
  block_size = 4096;
  free_blocks = 1000000;
  admitted = 0;
  admissions = 4;
  downloading = 0;
  download_admissions = 128;
  reserve = 1000;
  limiter = record { account_entries = []; ip_entries = []; max_entries = 4096; last_cleanup = 0 };
  password_work = 0;
  password_admissions = 16;
}

abbrev pub who : Identity
who = record { user_id = 1; role = owner; session_id = 1; request_id = codes "r"; remote_ip = [] }

pub planned : (s : Status) → IsPlanned (upload s)
planned s = record {
  chunk_pos = omega arith;
  total_int64 = omega arith;
  count = unfold total_chunks in refl;
}
