-- ===== src/Audit/Listing.antt =====
-- Reading the audit log page by page (`List` of server/internal/audit/audit.go and
-- sqlite_repository.go).
pub mod Order
pub mod Paging
use swa_drive.Base.{
  ℕ, suc, ◌+◌, Bool, true, false, not, ◌&&◌, ◌||◌, Option, none, some, List, [], ◌∷◌, Result, ok,
  err, owner_role_needed, invalid_list, ltb, leb, ◌==◌, if◌then◌else◌, filter, length, take,
}
use swa_drive.Base.Int.{ℤ, pos, negsuc}
use swa_drive.Base.Text.{Text, text_eq}
use swa_drive.Audit.Event.{StoredEvent, known_outcome}
use swa_drive.Auth.Model.{Role, is_owner}
use swa_drive.Database.{Db}
use swa_drive.World.{M, ◌>>=◌, ◌>>◌, guard, query, pure, raise}

abbrev pub default_page_size : ℕ
default_page_size = 50

abbrev pub maximum_page_size : ℕ
maximum_page_size = 200

-- An empty text is no condition, and neither is the number 0 as `before_id`.
pub record ListFilter : Type 0 where
  pub event_type : Text
  pub actor_user_id : Option ℤ
  pub outcome : Text
  pub before_id : ℤ
  pub limit : ℤ

pub record AuditPage : Type 0 where
  pub events : List StoredEvent
  pub next_cursor : ℕ

unfoldable pub is_actor : Option ℤ → StoredEvent → Bool
is_actor none e = true
is_actor (some (pos id)) e = elim e.event.actor_user_id [ none ↦ false | some a ↦ a == id ]
is_actor (some (negsuc n)) e = false

-- The `WHERE` of the statement, but for the last condition.
unfoldable pub is_selected : ListFilter → StoredEvent → Bool
is_selected f e =
    (length f.event_type == 0 || text_eq e.event.event_type f.event_type)
    && is_actor f.actor_user_id e
    && (length f.outcome == 0 || text_eq e.event.outcome f.outcome)

abbrev pub is_before : ℕ → StoredEvent → Bool
is_before before e = before == 0 || ltb e.id before

-- `ORDER BY id DESC`
unfoldable pub insert_newest : StoredEvent → List StoredEvent → List StoredEvent
insert_newest e [] = e ∷ []
insert_newest e (f ∷ fs) =
    let rest = insert_newest e fs in if ltb f.id e.id then e ∷ f ∷ fs else f ∷ rest

unfoldable pub sort_newest : List StoredEvent → List StoredEvent
sort_newest [] = []
sort_newest (e ∷ es) = insert_newest e (sort_newest es)

-- The repository's `List`, for a `BeforeID` that is not negative.
unfoldable pub list_events : ListFilter → (before limit : ℕ) → List StoredEvent → List StoredEvent
list_events f before limit rows =
    take limit (sort_newest (filter (λ e. is_selected f e && is_before before e) rows))

abbrev pub last_id : List StoredEvent → ℕ
last_id [] = 0
last_id (e ∷ []) = e.id
last_id (e ∷ f ∷ fs) = last_id (f ∷ fs)

-- One more event than asked for tells that there is a next page.
unfoldable pub page_of_events : ℕ → List StoredEvent → AuditPage
page_of_events limit events =
    if ltb limit (length events)
    then record { events = take limit events; next_cursor = last_id (take limit events) }
    else record { events = events; next_cursor = 0 }

abbrev is_positive : ℤ → Bool
is_positive (pos n) = not (n == 0)
is_positive (negsuc n) = false

-- The limit and the position that `List` goes on with.
unfoldable pub checked_page : ListFilter → Option (ℕ × ℕ)
checked_page f = elim f.limit [
  | negsuc n ↦ none
  | pos asked ↦ elim f.before_id [
    | negsuc n ↦ none
    | pos before ↦
        (let limit = if asked == 0 then default_page_size else asked in
          if leb limit maximum_page_size then some (limit, before) else none)
  ]
]

unfoldable pub checked_filter : ListFilter → Bool
checked_filter f =
    (length f.outcome == 0 || known_outcome f.outcome)
    && leb (length f.event_type) 128
    && (elim f.actor_user_id [ none ↦ true | some id ↦ is_positive id ])

unfoldable pub list_audit : Role → ListFilter → M AuditPage
list_audit role f = do
  guard (is_owner role) owner_role_needed
  elim (checked_page f) [
    | none ↦ raise invalid_list
    | some (limit, before) ↦ do
      guard (checked_filter f) invalid_list
      events ← query (λ db. ok (list_events f before (suc limit) db.events))
      pure (page_of_events limit events)
  ]
