-- ===== src/Audit/Listing/Paging.antt =====
-- One page of the audit log after the other.
use swa_drive.Base.{
  ℕ, zero, suc, ◌+◌, ◌≡◌, ◌≤◌, ◌<◌, refl, sym, ap, subst, ◌∙◌, true, not, ◌&&◌, ◌||◌, List, [], ◌∷◌,
  ◌++◌, ltb, ◌==◌, filter, length, take, drop, arith, inl, inr, Bool-cases, take-add,
}
use swa_drive.Base.Text.{Text}
use swa_drive.Audit.Event.{Event, StoredEvent}
use swa_drive.Audit.Listing.{
  ListFilter, AuditPage, is_selected, is_before, list_events, last_id, page_of_events,
}
use swa_drive.Audit.Listing.Order.{
  IsDescending, filter-IsDescending, sort_newest-IsDescending, all-drop, older-drop, filter-filter,
  filter_alike, filter-passes, IsDescending-positive, append_all, append_all-IsDescending,
}

-- The last event of a page that is not the last one.
last_id-take :
    (m : ℕ) (es : List StoredEvent)
    → suc m < length es
    → (x : StoredEvent) × (rest : List StoredEvent) × (drop m es ≡ x ∷ rest)
      × (drop (suc m) es ≡ rest)
      × (last_id (take (suc m) es) ≡ x.id)
last_id-take m [] h = absurd (omega arith)
last_id-take zero (e ∷ es) h = (e, es, refl, refl, refl)
last_id-take (suc m) (e ∷ []) h = absurd (omega arith)
last_id-take (suc m) (e ∷ f ∷ fs) h =
    let (x, rest, a, b, c) = last_id-take m (f ∷ fs) (omega arith) in (x, rest, a, b, c)

abbrev pub rows_before : ListFilter → ℕ → List StoredEvent → List StoredEvent
rows_before f before es = filter (λ e. is_selected f e && is_before before e) es

list_events-take :
    (f : ListFilter) (before limit : ℕ) (es : List StoredEvent)
    → IsDescending es
    → list_events f before limit es ≡ take limit (rows_before f before es)
unfolding list_events
list_events-take f before limit es d = ap (take limit) (
    sort_newest-IsDescending (rows_before f before es)
      (filter-IsDescending (λ e. is_selected f e && is_before before e) es d))

take-take : (n : ℕ) (es : List StoredEvent) → take n (take (suc n) es) ≡ take n es
take-take zero es = refl
take-take (suc n) [] = refl
take-take (suc n) (e ∷ es) = ap (◌∷◌ e) (take-take n es)

take_short :
    (n : ℕ) (es : List StoredEvent) → length (take (suc n) es) ≤ n → take (suc n) es ≡ take n es
take_short zero [] h = refl
take_short (suc n) [] h = refl
take_short zero (e ∷ es) h = absurd (omega arith)
take_short (suc n) (e ∷ es) h = ap (◌∷◌ e) (take_short n es (omega arith))

page_of_events-take :
    (n : ℕ) (es : List StoredEvent) → (page_of_events n (take (suc n) es)).events ≡ take n es
unfolding page_of_events
page_of_events-take n es = elim (Bool-cases (ltb n (length (take (suc n) es)))) [
  | inl h ↦ rw h (take-take n es)
  | inr h ↦ rw h (take_short n es (ground arith))
]

length_full : (n : ℕ) (es : List StoredEvent) → n < length (take (suc n) es) → n < length es
length_full n [] h = absurd (omega arith)
length_full zero (e ∷ es) h = omega arith
length_full (suc n) (e ∷ es) h = let rest = length_full n es (omega arith) in omega arith

page_of_events-next :
    (n : ℕ) (es : List StoredEvent)
    → not ((page_of_events n (take (suc n) es)).next_cursor == 0) ≡ true
    → (n < length es) × ((page_of_events n (take (suc n) es)).next_cursor ≡ last_id (take n es))
unfolding page_of_events
page_of_events-next n es h = elim (Bool-cases (ltb n (length (take (suc n) es)))) [
  | inr k ↦ absurd (ground arith)
  | inl k ↦ (length_full n es (ground arith), rw k (ap last_id (take-take n es)))
]

-- Below an event of the listing, the older events of the listing are all there are.
rows_before-older :
    (f : ListFilter) (before id : ℕ) (es : List StoredEvent)
    → not (id == 0) ≡ true
    → (before == 0 || ltb id before) ≡ true
    → rows_before f id es ≡ filter (λ e. ltb e.id id) (rows_before f before es)
rows_before-older f before id es h k =
    filter_alike _ _ es (λ e. ground arith)
    ∙ sym (filter-filter (λ e. ltb e.id id) (λ e. is_selected f e && is_before before e) es)

-- The page of `limit` events that `List` answers from a position on.
abbrev pub page_from : ListFilter → (limit before : ℕ) → List StoredEvent → AuditPage
page_from f limit before es = page_of_events limit (list_events f before (suc limit) es)

page_from-take :
    (f : ListFilter) (limit before : ℕ) (es : List StoredEvent)
    → IsDescending es
    → (page_from f limit before es).events ≡ take limit (rows_before f before es)
page_from-take f limit before es d =
    ap (λ l. (page_of_events limit l).events) (list_events-take f before (suc limit) es d)
    ∙ page_of_events-take limit (rows_before f before es)

-- The next cursor is an event of the listing, and below it the rest of the listing follows.
page_from-next :
    (f : ListFilter) (m before : ℕ) (es : List StoredEvent)
    → IsDescending es
    → not ((page_from f (suc m) before es).next_cursor == 0) ≡ true
    → rows_before f (page_from f (suc m) before es).next_cursor es
      ≡ drop (suc m) (rows_before f before es)
page_from-next f m before es d h =
    let rows = rows_before f before es in
    let sorted = filter-IsDescending (λ e. is_selected f e && is_before before e) es d in
    let listed = list_events-take f before (suc (suc m)) es d in
    let (longer, cursor) =
      page_of_events-next (suc m) rows
        (subst (λ l. not ((page_of_events (suc m) l).next_cursor == 0) ≡ true) listed h) in
    let (x, rest, at, after, last) = last_id-take m rows longer in
    let chosen =
      all-drop (λ e. is_selected f e && is_before before e) m rows x rest
        (filter-passes (λ e. is_selected f e && is_before before e) es) at in
    let positive =
      all-drop (λ e. not (e.id == 0)) m rows x rest (IsDescending-positive rows sorted) at in
    let next : (page_from f (suc m) before es).next_cursor ≡ x.id =
      ap (λ l. (page_of_events (suc m) l).next_cursor) listed ∙ cursor ∙ last in
    ap (λ id. rows_before f id es) next
    ∙ rows_before-older f before x.id es positive (ground arith)
    ∙ older-drop m rows x rest sorted at
    ∙ sym after

-- Whatever was appended to the log, a page with a next cursor and the page from that
-- cursor on are together the first rows that the filter selects: none is left out and none
-- is repeated.
pub page_from-continues :
    (f : ListFilter) (m before : ℕ) (appended : List (Event × Text))
    → not ((page_from f (suc m) before (append_all appended)).next_cursor == 0) ≡ true
    → (page_from f (suc m) before (append_all appended)).events
        ++ (page_from f
            (suc m)
            (page_from f (suc m) before (append_all appended)).next_cursor
            (append_all appended)).events
      ≡ take (suc m + suc m) (rows_before f before (append_all appended))
page_from-continues f m before appended h =
    let es = append_all appended in
    let d = append_all-IsDescending appended in
    rw
      (
        page_from-take f (suc m) before es d,
        page_from-take f (suc m) (page_from f (suc m) before es).next_cursor es d,
        page_from-next f m before es d h,
      )
      (take-add (suc m) (suc m) (rows_before f before es))
