-- ===== src/Files/Reindex/Activation.antt =====
-- What an activation needs and what it does.
use swa_drive.Base.{
  ℕ, ◌≡◌, refl, true, false, not, ◌&&◌, ◌||◌, some, List, [], ◌∷◌, ok, ◌==◌, any, all, filter,
  length, map, arith, inl, inr, Bool-cases, Result-cases, Option-cases,
}
use swa_drive.Audit.Event.{stored_time}
use swa_drive.Database.{Db}
use swa_drive.Files.Index.{building, Generation, active_generation}
use swa_drive.Files.Reindex.Statuses.{status-cases}
use swa_drive.Files.Reindex.Tables.{
  activate_generation, find_generation, is_building, is_current, is_orphaned, require_building,
  switch_status,
}

-- The one active generation.
abbrev pub IsOnlyActive : ℕ → List Generation → Type 0
IsOnlyActive id gs =
    (any (λ r. r.id == id && is_current r) gs ≡ true)
    × (all (λ r. not (is_current r) || r.id == id) gs ≡ true)

switched :
    (id t : ℕ) (r : Generation)
    → (not (is_current (switch_status id t r)) || (switch_status id t r).id == id) ≡ true
unfolding switch_status
switched id t r = ground arith

all-switch_status :
    (id t : ℕ) (gs : List Generation)
    → all (λ r. not (is_current r) || r.id == id) (map (switch_status id t) gs) ≡ true
all-switch_status id t [] = refl
all-switch_status id t (r ∷ rs) =
    let ih = all-switch_status id t rs in let head = switched id t r in ground arith

switched_on :
    (id t : ℕ) (r : Generation)
    → (r.id == id) ≡ true
    → is_building r ≡ true
    → ((switch_status id t r).id == id && is_current (switch_status id t r)) ≡ true
unfolding switch_status
switched_on id t r same built = elim (status-cases r.status) [
  | inl (a, b) ↦ ground arith
  | inr a ↦ absurd (ground arith)
]

any-switch_status :
    (id t : ℕ) (gs : List Generation) {r : Generation}
    → find_generation id gs ≡ some r
    → is_building r ≡ true
    → any (λ x. x.id == id && is_current x) (map (switch_status id t) gs) ≡ true
unfolding find_generation
any-switch_status id t [] h built = absurd (ground arith)
any-switch_status id t (x ∷ xs) {r = r} h built = elim (Bool-cases (x.id == id)) [
  | inl same ↦
      (let built' : is_building x ≡ true = ground arith in
        let head = switched_on id t x same built' in ground arith)
  | inr far ↦ (let ih = any-switch_status id t xs {r = r} (ground arith) built in ground arith)
]

is_building-building : (r : Generation) → is_building r ≡ true → r.status ≡ building
is_building-building r h = ground arith

require_building-ok :
    (id : ℕ) (db : Db) {u : Unit {0}}
    → require_building id db ≡ ok u
    → (r : Generation) × (find_generation id db.generations ≡ some r) × (is_building r ≡ true)
unfolding require_building
require_building-ok id db h = elim (Option-cases (find_generation id db.generations)) [
  | inl e ↦ absurd (ground arith)
  | inr (r, e) ↦ (r, e, ground arith)
]

-- An activation that succeeds was of a generation whose row was in building, with exactly the expected
-- number of rows in the index, none of them outside of the trash below anything but an indexed directory of the same generation. The
-- index is then healthy, this generation is its active one and no other is, and no row changed.
pub activate_generation-IsOnlyActive :
    (id expected t : ℕ) (db : Db) {db' : Db}
    → activate_generation id expected t db ≡ ok db'
    → (r : Generation) × (find_generation id db.generations ≡ some r)
      × (r.status ≡ building)
      × (length (filter (λ e. e.generation_id == id) db.index.entries) ≡ expected)
      × (any (is_orphaned id db.index.entries) db.index.entries ≡ false)
      × (active_generation db'.index ≡ ok id)
      × IsOnlyActive id db'.generations
      × (db'.index.entries ≡ db.index.entries)
unfolding activate_generation active_generation
activate_generation-IsOnlyActive id expected t db h = elim (Result-cases (require_building id db)) [
  | inr (f, bad) ↦ absurd (ground arith)
  | inl (u, built) ↦
      (let (r, found, is_built) = require_building-ok id db built in
        let on = any-switch_status id (stored_time t) db.generations found is_built in
        let off = all-switch_status id (stored_time t) db.generations in
        (
          r,
          found,
          is_building-building r is_built,
          ground arith,
          ground arith,
          ground arith,
          (ground arith, ground arith),
          ground arith,
        ))
]
