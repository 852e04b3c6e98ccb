-- ===== src/Files/Service.antt =====
-- The file service (server/internal/files/service.go): what its methods share, `CreateDirectory` and
-- `Move`. A change of the volume is announced in the index first, which is unhealthy until the change
-- is booked or undone.
pub mod Trashing
pub mod Settling
pub mod Downloads
pub mod Listing
use swa_drive.Base.{
  ℕ, Bool, true, false, not, ◌&&◌, ◌||◌, Option, none, some, List, [], ◌∷◌, ◌++◌, Result, ok, err,
  Error, owner_required, index_inconsistent, fault, joined, ◌==◌, if◌then◌else◌, length, all,
}
use swa_drive.Base.Text.{Text, codes, text_eq}
use swa_drive.Base.Hex.{encode_hex, is_hex_digit}
use swa_drive.Platform.{Platform}
use swa_drive.Storage.Path.{LogicalPath, parse_path}
use swa_drive.Storage.Disk.{Disk}
use swa_drive.Storage.Manager
use swa_drive.Storage.Manager.{create_directory}
use swa_drive.Storage.Repair.{remove_empty_directory}
use swa_drive.Audit.Event.{Event, outcome_success}
use swa_drive.Auth.Model.{Identity, is_owner}
use swa_drive.Files.Index.{
  Entry, file, directory, new_entry, begin_mutation, clear_mutation, mark_unhealthy,
}
use swa_drive.Files.Repository.{on_index, create_entry_with_audit, move_subtree_with_audit}
use swa_drive.World.{
  World, M, ◌>>=◌, ◌>>◌, lift, pure, raise, raise_joined, attempt, guard, now, fallible, transact,
  change,
}

abbrev pub mkdir_mutation_reason : Text
mkdir_mutation_reason = codes "mkdir-pending"

abbrev pub move_mutation_reason : Text
move_mutation_reason = codes "move-pending"

unfoldable pub file_event_at :
    Identity
    → (event_type resource_type id path destination : Text) → List (Text × Text)
    → ℕ
    → Event
file_event_at who event_type resource_type id path destination metadata t = record {
  occurred_at = t;
  actor_user_id = some who.user_id;
  actor_session_id = some who.session_id;
  event_type = event_type;
  outcome = outcome_success;
  resource_type = resource_type;
  resource_id = id;
  resource_path = path;
  destination_path = destination;
  request_id = who.request_id;
  remote_ip = who.remote_ip;
  metadata = metadata;
}

-- `service.event`
unfoldable pub file_event :
    Identity → (event_type resource_type id path destination : Text) → List (Text × Text) → M Event
file_event who event_type resource_type id path destination metadata = do
  t ← now
  pure (file_event_at who event_type resource_type id path destination metadata t)

-- `randomID` on the 16 bytes that `rand.Read` gives, if it gives them.
unfoldable pub random_id : Option Text → Result Text
random_id none = err fault
random_id (some bytes) = ok (encode_hex bytes)

unfoldable pub valid_resource_id : Text → Bool
valid_resource_id id = length id == 32 && all is_hex_digit id

unfoldable pub clear_intent : Text → M (Unit {0})
clear_intent reason = do t ← now; transact (λ _. on_index (clear_mutation reason))

unfoldable pub after_clearing : {A : Type 0} → Error → Result (Unit {0}) → M A
after_clearing e (ok _) = raise e
after_clearing e (err f) = raise (joined (joined index_inconsistent e) f)

-- `abortMutation`
unfoldable pub abort_mutation : {A : Type 0} → Text → Error → M A
abort_mutation reason e = do cleared ← attempt (clear_intent reason); after_clearing e cleared

unfoldable pub after_undoing : {A : Type 0} → Text → Error → Result (Unit {0}) → M A
after_undoing reason e (ok _) = abort_mutation reason e
after_undoing reason e (err f) = raise (joined (joined index_inconsistent e) f)

-- A change of the volume that could not be booked is taken back, and then the intent.
unfoldable pub compensate : {A : Type 0} → M (Unit {0}) → Text → Error → M A
compensate undo reason e = do undone ← attempt undo; after_undoing reason e undone

module _ (env : Platform) where
  unfoldable pub after_creation_booked : LogicalPath → Entry → Result (Unit {0}) → M Entry
  after_creation_booked path entry (ok _) = pure entry
  after_creation_booked path entry (err f) =
      compensate (change (remove_empty_directory path)) mkdir_mutation_reason f

  -- The directory is there; its entry may still be refused.
  unfoldable pub book_directory : Identity → LogicalPath → Result Entry → M Entry
  book_directory who path (err f) =
      compensate (change (remove_empty_directory path)) mkdir_mutation_reason f
  book_directory who path (ok entry) = do
    e ← file_event who (codes "files.folder_created") (codes "folder") [] path.value [] []
    booked ← attempt (transact (create_entry_with_audit env entry e mkdir_mutation_reason))
    after_creation_booked path entry booked

  unfoldable pub after_creation : Identity → LogicalPath → ℕ → Result (Unit {0}) → M Entry
  after_creation who path t (err f) = abort_mutation mkdir_mutation_reason f
  after_creation who path t (ok _) = book_directory who path (new_entry env path directory 0 t t [])

  -- `CreateDirectory`; `fallible` is the look at the request's context.
  unfoldable pub make_directory : Identity → Text → M Entry
  make_directory who value = do
    guard (is_owner who.role) owner_required
    path ← lift (parse_path value false)
    t ← now
    transact (λ _. on_index (begin_mutation mkdir_mutation_reason))
    created ← attempt (fallible >> change (create_directory path))
    after_creation who path t created

  unfoldable pub after_move_booked :
      (source destination : LogicalPath) → Result (Unit {0}) → M (Unit {0})
  after_move_booked source destination (ok _) = pure tt
  after_move_booked source destination (err f) =
      compensate (change (Manager.move destination source)) move_mutation_reason f

  unfoldable pub after_move :
      Identity → (source destination : LogicalPath) → Result (Unit {0}) → M (Unit {0})
  after_move who source destination (err f) = abort_mutation move_mutation_reason f
  after_move who source destination (ok _) = do
    e ← file_event who (codes "files.moved") (codes "file") [] source.value destination.value []
    booked ← attempt (
        transact
          (move_subtree_with_audit env source.value destination.value e move_mutation_reason))
    after_move_booked source destination booked

  unfoldable pub move_file : Identity → (source destination : Text) → M (Unit {0})
  move_file who source_value destination_value = do
    guard (is_owner who.role) owner_required
    source ← lift (parse_path source_value false)
    destination ← lift (parse_path destination_value false)
    t ← now
    transact (λ _. on_index (begin_mutation move_mutation_reason))
    moved ← attempt (fallible >> change (Manager.move source destination))
    after_move who source destination moved
