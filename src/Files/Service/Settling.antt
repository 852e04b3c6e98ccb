-- ===== src/Files/Service/Settling.antt =====
-- `ReconcileTrash` leaves nothing to reconcile.
use swa_drive.Base.{
  ℕ, zero, suc, ◌≡◌, refl, sym, ap, ◌∙◌, Bool, true, false, ◌||◌, List, [], ◌∷◌, Result, ok, err,
  reconciliation, arith, inl, inr, ltb, ◌==◌, length, take, any,
}
use swa_drive.Base.Text.{text_eq_refl}
use swa_drive.Storage.Path.{LogicalPath, parse_path}
use swa_drive.Storage.Repair.{trash_state}
use swa_drive.Files.Trash.{
  TrashEntry, TrashState, trashing, trashed, restoring, trash_state_eq, trash_in_state,
}
use swa_drive.Files.Repository.{
  abort_trash, commit_trash_with_audit, rollback_restore, finish_restore_with_audit,
}
use swa_drive.Files.Repository.Unsettled.{
  unsettled, without, abort_trash-unsettled, rollback_restore-unsettled, commit_trash-unsettled,
  finish_restore-unsettled,
}
use swa_drive.Files.Service.Trashing.{
  settle_trash, reconcile_trash_parsed, reconcile_trash_entry, reconcile_trash_page,
  reconcile_trash_rounds, reconcile_trash, reconciliation_event, list_reconciliation, sort_trash,
  insert_trash,
}
use swa_drive.World.{World, fallible, query, inspect, now, pure, guard}
use swa_drive.World.Ends.{step_same}
use swa_drive.World.Laws.{
  if_taken, bind-ok, fallible-same, now-same, transact-ok, query-ok, inspect-ok, guard-ok,
}

-- The row that an entry was read from.
abbrev same_row : TrashEntry → TrashEntry → Bool
same_row e r = trash_in_state e.user_id e.id e.state r

-- What one settlement does to the rows that wait: exactly those of its entry are gone.
settle_trash-unsettled :
    (e : TrashEntry) (t : ℕ) (s : TrashState) (a b : Bool) (w : World) {v : World}
    → settle_trash e t s a b w ≡ (ok tt, v)
    → unsettled v.db ≡ without (trash_in_state e.user_id e.id s) (unsettled w.db)
unfolding settle_trash
settle_trash-unsettled e t trashing true false w {v = v} h =
    let (n, done, _) =
      transact-ok (commit_trash_with_audit e.user_id e.id t (reconciliation_event e t)) w h in
    commit_trash-unsettled e.user_id e.id t n (reconciliation_event e t) w.db v.db done
settle_trash-unsettled e t trashing false true w {v = v} h =
    let (n, done, _) = transact-ok (λ _. abort_trash e.user_id e.id) w h in
    abort_trash-unsettled e.user_id e.id w.db v.db done
settle_trash-unsettled e t restoring false true w {v = v} h =
    let (n, done, _) =
      transact-ok (finish_restore_with_audit e.user_id e.id (reconciliation_event e t)) w h in
    finish_restore-unsettled e.user_id e.id n (reconciliation_event e t) w.db v.db done
settle_trash-unsettled e t restoring true false w {v = v} h =
    let (n, done, _) = transact-ok (λ _. rollback_restore e.user_id e.id t) w h in
    rollback_restore-unsettled e.user_id e.id t w.db v.db done
settle_trash-unsettled e t trashing true true w h = cc
settle_trash-unsettled e t trashing false false w h = cc
settle_trash-unsettled e t restoring true true w h = cc
settle_trash-unsettled e t restoring false false w h = cc
settle_trash-unsettled e t trashed true true w h = cc
settle_trash-unsettled e t trashed true false w h = cc
settle_trash-unsettled e t trashed false true w h = cc
settle_trash-unsettled e t trashed false false w h = cc

reconcile_parsed-unsettled :
    (e : TrashEntry) (r : Result LogicalPath) (w : World) {v : World}
    → reconcile_trash_parsed e r w ≡ (ok tt, v)
    → unsettled v.db ≡ without (same_row e) (unsettled w.db)
unfolding reconcile_trash_parsed
reconcile_parsed-unsettled e (err f) w h = cc
reconcile_parsed-unsettled e (ok p) w {v = v} h =
    let ((a, b), w1, looked, rest) = bind-ok (inspect (trash_state e.trash_name p)) _ w h in
    let (t, w2, timed, settled) = bind-ok now _ w1 rest in
    let (_, same1, _) = inspect-ok (trash_state e.trash_name p) w looked in
    let (same2, _) = step_same now w1 (now-same w1) timed in
    settle_trash-unsettled e t e.state a b w2 settled
    ∙ ap (λ d. without (same_row e) (unsettled d)) (same2 ∙ same1)

reconcile_entry-unsettled :
    (e : TrashEntry) (w : World) {v : World}
    → reconcile_trash_entry e w ≡ (ok tt, v)
    → unsettled v.db ≡ without (same_row e) (unsettled w.db)
unfolding reconcile_trash_entry
reconcile_entry-unsettled e w {v = v} h =
    let (_, w1, looked, rest) = bind-ok fallible _ w h in
    let (same, _) = step_same fallible w (fallible-same w) looked in
    reconcile_parsed-unsettled e (parse_path e.original_path false) w1 rest
    ∙ ap (λ d. without (same_row e) (unsettled d)) same

-- A page takes out the rows of all its entries.
without-any :
    (e : TrashEntry) (es xs : List TrashEntry)
    → without (λ r. any (λ o. same_row o r) es) (without (same_row e) xs)
      ≡ without (λ r. any (λ o. same_row o r) (e ∷ es)) xs
unfolding without
without-any e es [] = refl
without-any e es (x ∷ xs) = ground (arith, without-any e es xs)

without_none : (xs : List TrashEntry) → without (λ _. false) xs ≡ xs
unfolding without
without_none [] = refl
without_none (x ∷ xs) = ap (λ z. x ∷ z) (without_none xs)

reconcile_page-unsettled :
    (es : List TrashEntry) (n : ℕ) (w : World) {m : ℕ} {v : World}
    → reconcile_trash_page es n w ≡ (ok m, v)
    → unsettled v.db ≡ without (λ r. any (λ o. same_row o r) es) (unsettled w.db)
unfolding reconcile_trash_page
reconcile_page-unsettled [] n w h =
    ap (λ z. unsettled z.1.db) (sym h) ∙ sym (without_none (unsettled w.db))
reconcile_page-unsettled (e ∷ es) n w {v = v} h =
    let (_, w1, first, rest) = bind-ok (reconcile_trash_entry e) _ w h in
    reconcile_page-unsettled es (suc n) w1 rest
    ∙ ap (without (λ r. any (λ o. same_row o r) es)) (reconcile_entry-unsettled e w first)
    ∙ without-any e es (unsettled w.db)

of_ok : {A : Type 0} {a b : A} → ok a ≡ ok b → a ≡ b
of_ok h = cc

-- A list cut short was whole.
take-short : {A : Type 0} (n : ℕ) (xs : List A) → ltb (length (take n xs)) n ≡ true → take n xs ≡ xs
take-short zero xs h = absurd (ground arith)
take-short (suc n) [] h = refl
take-short (suc n) (x ∷ xs) h = ap (λ z. x ∷ z) (take-short n xs (ground arith))

any-insert :
    (p : TrashEntry → Bool) (e : TrashEntry) (xs : List TrashEntry)
    → any p (insert_trash e xs) ≡ (p e || any p xs)
unfolding insert_trash
any-insert p e [] = refl
any-insert p e (x ∷ xs) = ground (arith, any-insert p e xs)

any-sort : (p : TrashEntry → Bool) (xs : List TrashEntry) → any p (sort_trash xs) ≡ any p xs
unfolding sort_trash
any-sort p [] = refl
any-sort p (x ∷ xs) = any-insert p x (sort_trash xs) ∙ ap (λ b. p x || b) (any-sort p xs)

state_eq_refl : (s : TrashState) → trash_state_eq s s ≡ true
state_eq_refl trashing = refl
state_eq_refl trashed = refl
state_eq_refl restoring = refl

same_row_refl : (e : TrashEntry) → same_row e e ≡ true
same_row_refl e = ground (arith, text_eq_refl e.id, state_eq_refl e.state)

insert_trash-cons :
    (e : TrashEntry) (xs : List TrashEntry) → length (take 1 (insert_trash e xs)) ≡ 1
unfolding insert_trash
insert_trash-cons e [] = refl
insert_trash-cons e (x ∷ xs) = ground arith

nothing_left : (xs : List TrashEntry) → (length (take 1 (sort_trash xs)) == 0) ≡ true → xs ≡ []
unfolding sort_trash
nothing_left [] h = refl
nothing_left (x ∷ xs) h = absurd (ground (arith, insert_trash-cons x (sort_trash xs)))

-- Rows that are all covered are all gone.
without-covered :
    (zs xs : List TrashEntry)
    → ((p : TrashEntry → Bool) → any p xs ≡ true → any p zs ≡ true)
    → without (λ r. any (λ o. same_row o r) zs) xs ≡ []
unfolding without
without-covered zs [] covers = refl
without-covered zs (x ∷ xs) covers =
    let found : any (λ o. same_row o x) zs ≡ true =
      covers (λ o. same_row o x) (ground (arith, same_row_refl x)) in
    let later = without-covered zs xs (λ p h. covers p (ground arith)) in rw found later

reconcile_rounds-unsettled :
    (rounds n : ℕ) (w : World) {m : ℕ} {v : World}
    → reconcile_trash_rounds rounds n w ≡ (ok m, v)
    → unsettled v.db ≡ []
unfolding reconcile_trash_rounds list_reconciliation unsettled
reconcile_rounds-unsettled zero n w {v = v} h =
    let (remaining, w1, asked, rest) =
      bind-ok (query (λ db. ok (list_reconciliation 1 db))) _ w h in
    let (answer, same, _) = query-ok (λ db. ok (list_reconciliation 1 db)) w asked in
    let (_, w2, checked, last) = bind-ok (guard (length remaining == 0) reconciliation) _ w1 rest in
    let (empty, same2) = guard-ok (length remaining == 0) reconciliation w1 checked in
    let none_left : (length (take 1 (sort_trash (unsettled w.db))) == 0) ≡ true =
      ap (λ z. length z == 0) (of_ok answer) ∙ empty in
    ap (λ z. unsettled z.1.db) (sym last)
    ∙ ap (λ z. unsettled z.db) same2
    ∙ ap unsettled same
    ∙ nothing_left (unsettled w.db) none_left
reconcile_rounds-unsettled (suc rounds) n w {m = total} {v = v} h =
    let (entries, w1, asked, rest) =
      bind-ok (query (λ db. ok (list_reconciliation 100 db))) _ w h in
    let (answer, same, _) = query-ok (λ db. ok (list_reconciliation 100 db)) w asked in
    let (m, w2, paged, last) = bind-ok (reconcile_trash_page entries n) _ w1 rest in
    elim (if_taken (ltb (length entries) 100) (pure m) (λ u. reconcile_trash_rounds rounds m u) w2
      last) [
        | inr (full, again) ↦ reconcile_rounds-unsettled rounds m w2 {m = total} {v = v} again
        | inl (short, over) ↦
            (let all_there : sort_trash (unsettled w.db) ≡ entries =
                sym (
                  take-short 100 (sort_trash (unsettled w.db))
                    (ap (λ z. ltb (length z) 100) (of_ok answer) ∙ short))
                ∙ of_ok answer in
              let ended : v ≡ w2 = ap (λ z. z.1) (sym over) in
              ap (λ z. unsettled z.db) ended
              ∙ reconcile_page-unsettled entries n w1 paged
              ∙ ap (λ z. without (λ r. any (λ o. same_row o r) entries) (unsettled z)) same
              ∙ without-covered entries (unsettled w.db)
                  (λ p found. ap (any p) (sym all_there) ∙ any-sort p (unsettled w.db) ∙ found))
      ]

-- When `ReconcileTrash` succeeds, no row of the trash is left half way: it says so only after it has
-- settled every one, however many there were and in however many pages it read them.
pub reconcile_trash-unsettled :
    (w : World) {m : ℕ} {v : World} → reconcile_trash w ≡ (ok m, v) → unsettled v.db ≡ []
unfolding reconcile_trash
reconcile_trash-unsettled w h = reconcile_rounds-unsettled 10 0 w h
