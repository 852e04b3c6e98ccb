-- ===== src/Audit/Event.antt =====
-- Audit events, their validation and the append-only table (server/internal/audit/audit.go and
-- sqlite_repository.go). A Go map is a list of entries with distinct keys.
use swa_drive.Base.{
  ℕ, suc, ◌*◌, ◌/◌, Bool, true, false, ◌&&◌, ◌||◌, Option, List, [], ◌∷◌, ◌++◌, Result, ok, err,
  invalid_event, unsafe_metadata, ◌>>=◌, ◌>>◌, require, leb, ◌==◌, if◌then◌else◌, all, any, length,
}
use swa_drive.Base.Text.{Text, codes, text_eq}
use swa_drive.Storage.Path.{parse_path}

pub record Event : Type 0 where
  pub occurred_at : ℕ
  pub actor_user_id : Option ℕ
  pub actor_session_id : Option ℕ
  pub event_type : Text
  pub outcome : Text
  pub resource_type : Text
  pub resource_id : Text
  pub resource_path : Text
  pub destination_path : Text
  pub request_id : Text
  pub remote_ip : Text
  pub metadata : List (Text × Text)

-- A row of `audit_events`.
pub record StoredEvent : Type 0 where
  pub id : ℕ
  pub event : Event
  pub metadata_json : Text

abbrev pub outcome_success : Text
outcome_success = codes "success"

abbrev pub outcome_failure : Text
outcome_failure = codes "failure"

abbrev pub outcome_denied : Text
outcome_denied = codes "denied"

unfoldable pub known_outcome : Text → Bool
known_outcome o = text_eq o outcome_success || text_eq o outcome_failure || text_eq o outcome_denied

unfoldable pub allowed_reason_code : Text → Bool
unfolding text_eq
allowed_reason_code v = any (text_eq v) (
    codes "account_rate_limit"
    ∷ codes "chunk_checksum"
    ∷ codes "chunk_length"
    ∷ codes "chunk_retry_conflict"
    ∷ codes "expired"
    ∷ codes "ip_rate_limit"
    ∷ codes "part_size"
    ∷ codes "reconciled"
    ∷ codes "whole_file_integrity"
    ∷ [])

-- One round of the loop over the resource path and the destination path.
unfoldable pub valid_event_path : Text → Bool
valid_event_path p = text_eq p [] || (elim (parse_path p false) [ ok _ ↦ true | err _ ↦ false ])

unfoldable pub validate_event : Event → Result (Unit {0})
validate_event e = do
  require (leb 1 (length e.event_type) && leb (length e.event_type) 128) invalid_event
  require (known_outcome e.outcome) invalid_event
  require
      (leb (length e.resource_type) 64
        && leb (length e.resource_id) 256
        && leb (length e.request_id) 128
        && leb (length e.remote_ip) 64)
      invalid_event
  require (valid_event_path e.resource_path && valid_event_path e.destination_path) invalid_event

abbrev quoted : Text → Text
quoted s = b'"' ∷ s ++ b'"' ∷ []

-- `json.Marshal` of a map whose keys and values need no escape, as the loop before it ensures.
unfoldable pub marshal_entries : List (Text × Text) → Text
marshal_entries [] = []
marshal_entries ((k, v) ∷ []) = quoted k ++ (b':' ∷ quoted v)
marshal_entries ((k, v) ∷ e ∷ es) =
    quoted k ++ (b':' ∷ quoted v ++ (b',' ∷ marshal_entries (e ∷ es)))

unfoldable pub safe_entry : Text × Text → Bool
safe_entry (k, v) = text_eq k (codes "reason_code") && allowed_reason_code v && leb (length v) 256

unfoldable pub encode_metadata : List (Text × Text) → Result Text
encode_metadata [] = ok []
encode_metadata (e ∷ es) = do
  require (leb (length (e ∷ es)) 16) unsafe_metadata
  require (all safe_entry (e ∷ es)) unsafe_metadata
  let encoded = b'{' ∷ marshal_entries (e ∷ es) ++ b'}' ∷ []
  require (leb (length encoded) 4096) unsafe_metadata
  ok encoded

-- Time 0 is Go's zero time. `now` is the clock's answer where the event carries no time.
unfoldable pub prepare_event : Event → ℕ → Result (Event × Text)
prepare_event e now = do
  validate_event e
  json ← encode_metadata e.metadata
  ok ((if e.occurred_at == 0 then record e { occurred_at = now } else e), json)

abbrev pub second : ℕ
second = 1000000000

-- A time as it comes back from a column of Unix seconds.
abbrev pub stored_time : ℕ → ℕ
stored_time t = t / second * second

-- `INSERT INTO audit_events`: the table only grows, so the next id is one past its length.
unfoldable pub append_event : Event → Text → List StoredEvent → List StoredEvent
append_event e json rows =
    record {
      id = suc (length rows);
      event = record e { occurred_at = stored_time e.occurred_at };
      metadata_json = json;
    }
    ∷ rows

-- `AppendInTransaction`, newest row first.
unfoldable pub append_in_transaction : Event → ℕ → List StoredEvent → Result (List StoredEvent)
append_in_transaction e now rows = do
  (prepared, json) ← prepare_event e now
  ok (append_event prepared json rows)
