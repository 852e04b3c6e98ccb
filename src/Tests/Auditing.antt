-- ===== src/Tests/Auditing.antt =====
-- The first two pages of an audit log of three events.
use swa_drive.Base.{ℕ, ◌++◌, ◌≡◌, refl, none, List, [], ◌∷◌}
use swa_drive.Base.Int.{pos}
use swa_drive.Base.Text.{Text, codes, text_eq}
use swa_drive.Audit.Event.{Event, StoredEvent, append_event, stored_time}
use swa_drive.Audit.Listing.{
  ListFilter, is_selected, is_actor, insert_newest, sort_newest, list_events, page_of_events,
}
use swa_drive.Audit.Listing.Order.{append_all}
use swa_drive.Audit.Listing.Paging.{page_from, page_from-continues}

abbrev named : Text → Event
named kind = record {
  occurred_at = 7;
  actor_user_id = none;
  actor_session_id = none;
  event_type = kind;
  outcome = codes "success";
  resource_type = [];
  resource_id = [];
  resource_path = [];
  destination_path = [];
  request_id = [];
  remote_ip = [];
  metadata = [];
}

abbrev logged : List (Event × Text)
logged =
    (named (codes "out"), [])
    ∷ (named (codes "in"), [])
    ∷ (named (codes "out"), [])
    ∷ (named (codes "out"), [])
    ∷ []

abbrev only_out : ListFilter
only_out = record {
  event_type = codes "out";
  actor_user_id = none;
  outcome = [];
  before_id = pos 0;
  limit = pos 1;
}

abbrev stored : ℕ → StoredEvent
stored n = record {
  id = n;
  event = record (named (codes "out")) { occurred_at = stored_time 7 };
  metadata_json = [];
}

page_from-continues_example :
    (page_from only_out 1 0 (append_all logged)).events
      ++ (page_from only_out 1
          (page_from only_out 1 0 (append_all logged)).next_cursor
          (append_all logged)).events
    ≡ stored 4 ∷ stored 2 ∷ []
unfolding append_all append_event is_selected is_actor text_eq
page_from-continues_example =
    page_from-continues only_out 0 0 logged
      (unfold list_events page_of_events insert_newest sort_newest in refl)
