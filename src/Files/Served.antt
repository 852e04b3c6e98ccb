-- ===== src/Files/Served.antt =====
-- What `OpenDownload` serves.
use swa_drive.Base.{
  Bool, Result-cases, List, [], ◌∷◌, ℕ, ◌≡◌, refl, sym, ap, ◌∙◌, true, false, ◌&&◌, Result, ok, err,
  arith, inl, inr, ltb, ◌==◌, ◌/◌, length, owner_required, download_busy, not_regular_file,
  errors_is, joined, index_inconsistent,
}
use swa_drive.Base.Text.{Text, codes}
use swa_drive.Storage.Path.{LogicalPath, parse_path}
use swa_drive.Storage.Manager.{open_download}
use swa_drive.Audit.Event.{Event, second}
use swa_drive.Auth.Model.{Identity, is_owner}
use swa_drive.Files.Index.{Entry, file, kind_eq}
use swa_drive.Files.Service.{file_event}
use swa_drive.Files.Service.Downloads.{
  download_file, check_download, indexed_metadata, is_missing, mark_index,
}
use swa_drive.Storage.Disk.{Disk}
use swa_drive.Database.{Db}
use swa_drive.World.Frame.{Keeps, bind-Keeps}
use swa_drive.World.{
  World, M, ◌>>=◌, now, transact, pure, fallible, query, inspect, attempt, raise, raise_joined,
}
use swa_drive.World.Audit.{record_event}
use swa_drive.World.Ends.{step_same}
use swa_drive.World.Laws.{
  gets_rest, if_taken, bind-ok, checked-ok, lifted-ok, fallible-same, query-ok, inspect-same,
  inspect-ok, attempt_lem, raise_joined-ne_ok,
}

-- The whole world, with the audit log emptied, at the start of the clock and past all faults.
abbrev pub unlogged : World → World
unlogged w = record w { db = record w.db { events = [] }; clock = 0; delays = []; faults = [] }

-- Nothing but the audit log changed: no other table, not the volume, not the limiter, no admission.
-- What calls use up, the time and the coming faults, is put aside.
abbrev pub LogsOnly : World → World → Type 0
LogsOnly w v = unlogged v ≡ unlogged w

fallible-unlogged : Keeps unlogged fallible
unfolding fallible
fallible-unlogged w = from w.faults refl
  where
    from : (fs : List Bool) → w.faults ≡ fs → unlogged (fallible w).1 ≡ unlogged w
    from [] e = rw e
    from (f ∷ fs) e = rw e

now-unlogged : Keeps unlogged now
unfolding now
now-unlogged w = from w.delays refl
  where
    from : (ds : List ℕ) → w.delays ≡ ds → unlogged (now w).1 ≡ unlogged w
    from [] e = rw e
    from (d ∷ ds) e = rw e

query-unlogged : {A : Type 0} (f : Db → Result A) → Keeps unlogged (query f)
unfolding query ◌>>=◌
query-unlogged f w = ground (arith, fallible-unlogged w)

inspect-unlogged : {A : Type 0} (f : Disk → Result A) → Keeps unlogged (inspect f)
unfolding inspect ◌>>=◌
inspect-unlogged f w = ground (arith, fallible-unlogged w)

event-unlogged :
    (who : Identity) (kind t i p d : Text) (m : List (Text × Text))
    → Keeps unlogged (file_event who kind t i p d m)
unfolding file_event
event-unlogged who kind t i p d m = bind-Keeps unlogged now _ now-unlogged (λ t w. refl)

transact-unlogged :
    (f : ℕ → Db → Result Db)
    → ((t : ℕ) (db db' : Db)
        → f t db ≡ ok db'
        → record db' { events = [] } ≡ record db { events = [] })
    → Keeps unlogged (transact f)
unfolding transact ◌>>=◌
transact-unlogged f k w = elim (Result-cases (fallible w).0) [
  | inr (h, e) ↦ rw (e, transact, ◌>>=◌) (fallible-unlogged w)
  | inl (_, e) ↦ elim (Result-cases (f (fallible w).1.clock (fallible w).1.db)) [
    | inr (h, g) ↦ rw (e, transact, ◌>>=◌, g) (fallible-unlogged w)
    | inl (db', g) ↦
        rw (e, transact, ◌>>=◌, g)
          (ap (λ z. record (unlogged (fallible w).1) { db = z }) (k _ _ db' g)
            ∙ fallible-unlogged w)
  ]
]

record_event-unlogged : (e : Event) → Keeps unlogged (record_event e)
unfolding record_event
record_event-unlogged e = transact-unlogged _ λ t db db' h. ground arith

step_logs :
    {A : Type 0} (m : M A) (w : World) {r : Result A} {v : World}
    → Keeps unlogged m
    → m w ≡ (r, v)
    → LogsOnly w v
step_logs m w k h = ap (λ z. unlogged z.1) (sym h) ∙ k w

pair_same :
    {w v : World} {a b : Text} {c d : Entry}
    → pure {A = Text × Entry} (a, c) w ≡ (ok (b, d), v)
    → (a ≡ b) × (c ≡ d) × (w ≡ v)
pair_same h = (ground arith, ground arith, ap (λ z. z.1) h)

check_download-ok :
    (who : Identity) (p : LogicalPath) (entry e : Entry) (r : Result (Text × ℕ)) (w : World)
    {content : Text} {v : World}
    → check_download who p entry r w ≡ (ok (content, e), v)
    → (m : ℕ) × (r ≡ ok (content, m))
      × (e ≡ entry)
      × ((length content == entry.size && m / second == entry.modified_at / second) ≡ true)
      × LogsOnly w v
unfolding check_download
check_download-ok who p entry e (err f) w h =
    absurd (elim (if_taken (errors_is is_missing f) _ (raise f) w h) [
      | inl (_, k) ↦
          raise_joined-ne_ok (joined index_inconsistent f) (mark_index (codes "download-open")) w k
      | inr (_, k) ↦ ground arith
    ])
check_download-ok who p entry e (ok (bytes, m)) w h =
    elim (if_taken (length bytes == entry.size && m / second == entry.modified_at / second) _
      (raise_joined index_inconsistent (mark_index (codes "download-metadata"))) w h) [
        | inr (_, k) ↦
            absurd
              (raise_joined-ne_ok index_inconsistent (mark_index (codes "download-metadata")) w k)
        | inl (same, k) ↦
            (let (event, w1, noted, rest) = bind-ok (file_event who _ _ _ _ _ _) _ w k in
              let (_, w2, recorded, last) = bind-ok (record_event event) _ w1 rest in
              let (content_same, entry_same, world_same) = pair_same last in
              (
                m,
                ap (λ z. ok (z, m)) content_same,
                sym entry_same,
                ap (λ z. length z == entry.size && m / second == entry.modified_at / second)
                      (sym content_same)
                    ∙ same,
                ap unlogged (sym world_same)
                    ∙ step_logs (record_event event) w1 (record_event-unlogged event) recorded
                    ∙ step_logs (file_event who _ _ _ _ _ _) w (event-unlogged who _ _ _ _ _ _)
                        noted,
              ))
      ]

-- A download that is served was an owner's, found a free admission, and names a file that the index
-- shows. What is served are the bytes at the path on the volume, as many as the index says and modified
-- in the second that the index says. Nothing but the audit log has changed, the clock and the coming
-- faults aside.
pub download_file-serves :
    (who : Identity) (value : Text) (w : World) {content : Text} {entry : Entry} {v : World}
    → download_file who value w ≡ (ok (content, entry), v)
    → (p : LogicalPath) × (m : ℕ) × (is_owner who.role ≡ true)
      × (ltb w.downloading w.download_admissions ≡ true)
      × (parse_path value false ≡ ok p)
      × (indexed_metadata p.value w.db ≡ ok entry)
      × (kind_eq entry.kind file ≡ true)
      × (open_download p w.disk ≡ ok (content, m))
      × ((length content == entry.size && m / second == entry.modified_at / second) ≡ true)
      × LogsOnly w v
unfolding download_file
download_file-serves who value w {content = content} {entry = e} {v = v} h =
    let (owner, h1) = checked-ok (is_owner who.role) owner_required _ w h in
    let (room, h2) =
      checked-ok (ltb w.downloading w.download_admissions) download_busy _ w
        (gets_rest (λ u. u) _ w h1) in
    let (_, w1, looked, h3) = bind-ok fallible _ w h2 in
    let (p, parsed, h4) = lifted-ok (parse_path value false) _ w1 h3 in
    let (entry, w2, found, h5) = bind-ok (query (indexed_metadata p.value)) _ w1 h4 in
    let (is_file, h6) = checked-ok (kind_eq entry.kind file) not_regular_file _ w2 h5 in
    let (opened, w3, tried, h7) = bind-ok (attempt (inspect (open_download p))) _ w2 h6 in
    let (m, read, the_same, sizes, only) = check_download-ok who p entry e opened w3 h7 in
    let (db1, disk1) = step_same fallible w (fallible-same w) looked in
    let (read_entry, db2, disk2) = query-ok (indexed_metadata p.value) w1 found in
    let (db3, disk3) =
      step_same (inspect (open_download p)) w2 (inspect-same (open_download p) w2)
        (attempt_lem (inspect (open_download p)) w2 tried) in
    let (now_read, _, _) =
      inspect-ok (open_download p) w2
        (attempt_lem (inspect (open_download p)) w2 tried ∙ ap (λ z. (z, w3)) read) in
    (
      p,
      m,
      owner,
      room,
      parsed,
      ap (indexed_metadata p.value) (sym db1) ∙ read_entry ∙ ap ok (sym the_same),
      ap (λ z. kind_eq z.kind file) the_same ∙ is_file,
      ap (open_download p) (sym (disk2 ∙ disk1)) ∙ now_read,
      ap (λ z. length content == z.size && m / second == z.modified_at / second) the_same ∙ sizes,
      only
          ∙ step_logs (inspect (open_download p)) w2 (inspect-unlogged (open_download p))
              (attempt_lem (inspect (open_download p)) w2 tried)
          ∙ step_logs (query (indexed_metadata p.value)) w1
              (query-unlogged (indexed_metadata p.value)) found
          ∙ step_logs fallible w fallible-unlogged looked,
    )
