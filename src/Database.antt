-- ===== src/Database.antt =====
-- The database: the tables of uploads, of the file index and its
-- generations, of the trash, of audit events, of users and
-- of sessions
-- (server/internal/database/migrations).
use swa_drive.Base.{List}
use swa_drive.Auth.Model.{UserCredential, SessionRow}
use swa_drive.Audit.Event.{StoredEvent}
use swa_drive.Files.Index.{Index, Generation}
use swa_drive.Files.Trash.{TrashEntry}
use swa_drive.Uploads.Model.{Upload, Chunk}

-- Rows of `uploads` keep `received_chunks` and `received_bytes` at 0: they are no columns.
pub record Db : Type 0 where
  pub uploads : List Upload
  pub chunks : List Chunk
  pub index : Index
  pub trash : List TrashEntry
  pub events : List StoredEvent
  pub generations : List Generation
  pub users : List UserCredential
  pub sessions : List SessionRow
