-- ===== src/Files/Reindex/Generations.antt =====
-- What a rebuild leaves alone until it activates its generation, and what an activation needs.
use swa_drive.Base.{
  ℕ, suc, ◌≡◌, refl, ap, ◌∙◌, true, false, not, ◌&&◌, ◌||◌, List, [], ◌∷◌, Result, ok, err, leb,
  ◌==◌, any, filter, length, map, arith, inl, inr, Bool-cases, Result-cases,
}
use swa_drive.Audit.Event.{stored_time}
use swa_drive.Database.{Db}
use swa_drive.Platform.{Platform}
use swa_drive.Files.Index.{Entry, Generation}
use swa_drive.Files.Reindex.Cleanup.{drop_oldest-other}
use swa_drive.Files.Reindex.Tables.{
  is_obsolete, interrupt, largest_generation, start_generation, require_building, insert_entries,
  insert_generation_batch, in_obsolete, drop_oldest, cleanup_obsolete_batch, is_used,
}
use swa_drive.Files.Reindex.Statuses.{
  any-interrupt, all-interrupt, any_bound, building_other, insert_entries-keeps, current_kept,
  or_left, filter-IsCurrent, current_apart, IsCurrent,
}

-- The transactions of a rebuild other than the activation.
pub data Step : Type 0 where
  starts : ℕ → Step
  inserts : ℕ → List Entry → Step
  cleans : ℕ → Step

abbrev pub after_start : Result (Generation × Db) → Db → Db
after_start (ok (g, db')) db = db'
after_start (err e) db = db

abbrev pub after_insert : Result Db → Db → Db
after_insert (ok db') db = db'
after_insert (err e) db = db

abbrev pub after_clean : Result (ℕ × Db) → Db → Db
after_clean (ok (n, db')) db = db'
after_clean (err e) db = db

abbrev pub run_step : Platform → Step → Db → Db
run_step env (starts t) db = after_start (start_generation t db) db
run_step env (inserts id es) db = after_insert (insert_generation_batch env id es db) db
run_step env (cleans limit) db = after_clean (cleanup_obsolete_batch limit db) db

abbrev pub run_steps : Platform → List Step → Db → Db
run_steps env [] db = db
run_steps env (s ∷ ss) db = run_steps env ss (run_step env s db)

-- The index is shown as before: the same generation, as healthy, with the same rows.
pub record IsShownAs (g : ℕ) (db db' : Db) : Type 0 where
  pub same_generation : db'.index.active_generation ≡ db.index.active_generation
  pub same_health : db'.index.unhealthy ≡ db.index.unhealthy
  pub same_rows :
      filter (λ e. e.generation_id == g) db'.index.entries
      ≡ filter (λ e. e.generation_id == g) db.index.entries
  pub still_current : IsCurrent g db'.generations

start-IsShownAs :
    (g t : ℕ) (db : Db)
    → IsCurrent g db.generations
    → IsShownAs g db (after_start (start_generation t db) db)
unfolding start_generation
start-IsShownAs g t db (there, current) =
    let rows = map (interrupt (stored_time t)) db.generations in
    let there' : any (λ r. r.id == g) rows ≡ true =
      any-interrupt g (stored_time t) db.generations ∙ there in
    let bound = any_bound g rows there' in
    let new : (suc (largest_generation rows) == g) ≡ false = ground arith in
    record {
      same_generation = refl;
      same_health = refl;
      same_rows = refl;
      still_current =
          (rw new there', rw new (all-interrupt g (stored_time t) db.generations current));
    }

unchanged : (g : ℕ) (db : Db) → IsCurrent g db.generations → IsShownAs g db db
unchanged g db c = record {
  same_generation = refl;
  same_health = refl;
  same_rows = refl;
  still_current = c;
}

insert-IsShownAs :
    (env : Platform) (g id : ℕ) (es : List Entry) (db : Db)
    → IsCurrent g db.generations
    → IsShownAs g db (after_insert (insert_generation_batch env id es db) db)
unfolding insert_generation_batch
insert-IsShownAs env g id es db c = elim (Bool-cases (leb 1 (length es) && leb (length es) 100)) [
  | inr e ↦ rw e (unchanged g db c)
  | inl e ↦ elim (Result-cases (require_building id db)) [
    | inr (f, bad) ↦ rw (e, bad) (unchanged g db c)
    | inl (u, built) ↦ elim (Result-cases (insert_entries env id es db.index)) [
      | inr (f, bad) ↦ rw (e, built, bad) (unchanged g db c)
      | inl (index, added) ↦
          (let far = building_other g id db c built in
            let (a, b, rows) = insert_entries-keeps env g id es db.index far added in
            rw (e, built, added)
              (record {
                same_generation = a;
                same_health = b;
                same_rows = rows;
                still_current = c;
              }))
    ]
  ]
]

clean-IsShownAs :
    (g limit : ℕ) (db : Db)
    → IsCurrent g db.generations
    → IsShownAs g db (after_clean (cleanup_obsolete_batch limit db) db)
unfolding cleanup_obsolete_batch
clean-IsShownAs g limit db c = elim (Bool-cases (leb 1 limit && leb limit 500)) [
  | inr e ↦ rw e (unchanged g db c)
  | inl e ↦
      (let kept = (drop_oldest (in_obsolete db.generations) limit db.index.entries).1 in
        rw e (record {
          same_generation = refl;
          same_health = refl;
          same_rows =
              drop_oldest-other (in_obsolete db.generations) limit (λ x. x.generation_id == g)
                db.index.entries (λ x h. current_apart g db.generations x c.1 h);
          still_current =
              filter-IsCurrent g (λ r. not (is_obsolete r) || is_used kept r) db.generations
                (λ r now. or_left (is_used kept r) (ap not (current_kept r.status now))) c;
        }))
]

step-IsShownAs :
    (env : Platform) (g : ℕ) (s : Step) (db : Db)
    → IsCurrent g db.generations
    → IsShownAs g db (run_step env s db)
step-IsShownAs env g (starts t) db c = start-IsShownAs g t db c
step-IsShownAs env g (inserts id es) db c = insert-IsShownAs env g id es db c
step-IsShownAs env g (cleans limit) db c = clean-IsShownAs g limit db c

-- Whatever generations are started, filled and cleaned up, in any order and whether it succeeds or
-- fails, the index is shown as before where its generation exists and is active: it stays the active one
-- and as healthy as it was, with the same rows.
pub run_steps-IsShownAs :
    (env : Platform) (g : ℕ) (ss : List Step) (db : Db)
    → IsCurrent g db.generations
    → IsShownAs g db (run_steps env ss db)
run_steps-IsShownAs env g [] db c = unchanged g db c
run_steps-IsShownAs env g (s ∷ ss) db c =
    let first = step-IsShownAs env g s db c in
    let rest = run_steps-IsShownAs env g ss (run_step env s db) first.still_current in
    record {
      same_generation = rest.same_generation ∙ first.same_generation;
      same_health = rest.same_health ∙ first.same_health;
      same_rows = rest.same_rows ∙ first.same_rows;
      still_current = rest.still_current;
    }
