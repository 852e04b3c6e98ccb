-- ===== src/Uploads/Service/Completion/Health.antt =====
-- What the steps of a completion do to the index.
use swa_drive.Base.{ℕ, ◌≡◌, refl, ap, none, List, Result, ok, arith}
use swa_drive.Base.Text.{Text}
use swa_drive.Platform.{Platform}
use swa_drive.Storage.Disk.{Disk}
use swa_drive.Files.Index.{Index, clear_health_reason}
use swa_drive.Audit.Event.{Event}
use swa_drive.Uploads.Model.{Upload, Status}
use swa_drive.Uploads.Repository.{Db, prepare_finalization, reset_finalizing, upload_health_reason}
use swa_drive.World.{World, inspect}
use swa_drive.World.Audit.{record_event}
use swa_drive.World.Laws.{inspect-same}
use swa_drive.World.Frame.{
  Keeps, bind-Keeps, db_view, now-Keeps, fallible-Keeps, query-Keeps, transact-Keeps,
}
use swa_drive.Uploads.Service.{Identity, event, record_security_failure}
use swa_drive.Uploads.Service.Completion.{verify_and_sync_part}

abbrev pub table_index : Db → Index
table_index db = db.index

abbrev pub index_view : World → Index
index_view = db_view table_index

pub event-index :
    (who : Identity) (id target kind outcome : Text) (md : List (Text × Text))
    → Keeps index_view (event who id target kind outcome md)
unfolding event
event-index who id target kind outcome md =
    bind-Keeps index_view _ _ (now-Keeps table_index) (λ t w. refl)

record_event-index : (e : Event) → Keeps index_view (record_event e)
unfolding record_event
record_event-index e = transact-Keeps table_index _ λ t db db' h. ground arith

pub security-index :
    (who : Identity) (id code : Text) → Keeps index_view (record_security_failure who id code)
unfolding record_security_failure
security-index who id code =
    bind-Keeps index_view _ _ (query-Keeps table_index _)
      λ u. bind-Keeps index_view _ _ (event-index who _ _ _ _ _) record_event-index

pub inspect-index : {A : Type 0} (f : Disk → Result A) → Keeps index_view (inspect f)
inspect-index f w = ap (λ z. z.index) (inspect-same f w).0

pub verify-index : (env : Platform) (u : Upload) → Keeps index_view (verify_and_sync_part env u)
unfolding verify_and_sync_part
verify-index env u = bind-Keeps index_view _ _ (inspect-index _) λ content.
    bind-Keeps index_view _ _ (query-Keeps table_index _) λ hashed.
      bind-Keeps index_view _ _ (λ w. refl)
        λ _. bind-Keeps index_view _ _ (fallible-Keeps table_index) (λ _ w. refl)

pub prepare-index :
    (user : ℕ) (id : Text) (from : Status) (sum : Text) (t : ℕ) (db : Db) {db' : Db}
    → prepare_finalization user id from sum t db ≡ ok db'
    → db'.index ≡ db.index
unfolding prepare_finalization
prepare-index user id from sum t db h = ground arith

pub reset-index :
    (user : ℕ) (id : Text) (t : ℕ) (db : Db) {db' : Db}
    → reset_finalizing user id t db ≡ ok db'
    → db'.index ≡ clear_health_reason (upload_health_reason id) db.index
unfolding reset_finalizing
reset-index user id t db h = ground arith

pub clear-healthy : (r : Text) (i : Index) → i.unhealthy ≡ none → clear_health_reason r i ≡ i
unfolding clear_health_reason
clear-healthy r i h = ground (arith, h)
