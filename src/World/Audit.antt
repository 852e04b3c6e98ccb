-- ===== src/World/Audit.antt =====
-- Recording an audit event outside of another transaction (server/internal/audit/audit.go).
use swa_drive.Base.{ok, err}
use swa_drive.Audit.Event.{Event, prepare_event, append_event}
use swa_drive.World.{M, transact}

-- `audit.Service.Record`, whose error is joined with `ErrPersistence`; here the sentinel alone.
unfoldable pub record_event : Event → M (Unit {0})
record_event e = transact (λ t db. elim (prepare_event e t) [
  | err f ↦ err f
  | ok (prepared, json) ↦ ok (record db { events = append_event prepared json db.events })
])
