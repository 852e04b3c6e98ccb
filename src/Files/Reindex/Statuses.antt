-- ===== src/Files/Reindex/Statuses.antt =====
-- The generation that is active, through the changes of a rebuild.
use swa_drive.Base.{
  ℕ, ◌≡◌, ◌≤◌, refl, ◌∙◌, Bool, true, false, not, ◌||◌, some, List, [], ◌∷◌, ok, ◌==◌, any, all,
  filter, map, arith, inl, inr, Bool-cases, Option-cases, Result-cases, ◌⊎◌,
}
use swa_drive.Database.{Db}
use swa_drive.Platform.{Platform}
use swa_drive.Files.Index.{
  Index, Entry, Generation, GenerationStatus, building, active, obsolete, insert_entry,
  validate_entry,
}
use swa_drive.Files.Reindex.Tables.{
  building_status, current_status, obsolete_status, is_path_taken, is_building, is_current,
  interrupt, largest_generation, find_generation, require_building, insert_entries, in_obsolete,
}

-- The generation `g` exists, and it is active.
abbrev pub IsCurrent : ℕ → List Generation → Type 0
IsCurrent g gs =
    (any (λ r. r.id == g) gs ≡ true) × (all (λ r. not (r.id == g) || is_current r) gs ≡ true)

pub any-interrupt :
    (g t : ℕ) (gs : List Generation)
    → any (λ r. r.id == g) (map (interrupt t) gs) ≡ any (λ r. r.id == g) gs
unfolding interrupt
any-interrupt g t [] = refl
any-interrupt g t (r ∷ rs) = ground (arith, any-interrupt g t rs)

-- What is building is not active.
pub status-cases :
    (s : GenerationStatus)
    → ((building_status s ≡ true) × (current_status s ≡ false)) ⊎ (building_status s ≡ false)
status-cases building = inl (refl, refl)
status-cases active = inr refl
status-cases obsolete = inr refl

head-interrupt :
    (g t : ℕ) (r : Generation)
    → (not (r.id == g) || is_current r) ≡ true
    → (not ((interrupt t r).id == g) || is_current (interrupt t r)) ≡ true
unfolding interrupt
head-interrupt g t r h = elim (status-cases r.status) [
  | inl e ↦ ground arith
  | inr e ↦ ground arith
]

pub all-interrupt :
    (g t : ℕ) (gs : List Generation)
    → all (λ r. not (r.id == g) || is_current r) gs ≡ true
    → all (λ r. not (r.id == g) || is_current r) (map (interrupt t) gs) ≡ true
unfolding interrupt
all-interrupt g t [] h = refl
all-interrupt g t (r ∷ rs) h =
    let ih = all-interrupt g t rs (ground arith) in
    ground (arith, ih, head-interrupt g t r (ground arith))

pub any_bound :
    (g : ℕ) (gs : List Generation) → any (λ r. r.id == g) gs ≡ true → g ≤ largest_generation gs
unfolding largest_generation
any_bound g [] h = absurd (ground arith)
any_bound g (r ∷ rs) h = elim (Bool-cases (r.id == g)) [
  | inl e ↦ ground arith
  | inr e ↦ (let ih = any_bound g rs (ground arith) in ground arith)
]

found_current :
    (g id : ℕ) (gs : List Generation) {r : Generation}
    → (id == g) ≡ true
    → find_generation id gs ≡ some r
    → all (λ x. not (x.id == g) || is_current x) gs ≡ true
    → is_current r ≡ true
unfolding find_generation
found_current g id [] same h current = absurd (ground arith)
found_current g id (x ∷ xs) {r = r} same h current = elim (Bool-cases (x.id == id)) [
  | inl e ↦ ground arith
  | inr e ↦ found_current g id xs {r = r} same (ground arith) (ground arith)
]

-- A generation that is being built is another one.
pub building_other :
    (g id : ℕ) (db : Db)
    → IsCurrent g db.generations
    → require_building id db ≡ ok tt
    → (id == g) ≡ false
unfolding require_building
building_other g id db (there, current) h =
    elim (Option-cases (find_generation id db.generations)) [
      | inl e ↦ absurd (ground arith)
      | inr (r, e) ↦ elim (Bool-cases (id == g)) [
        | inr far ↦ far
        | inl same ↦
            (let now = found_current g id db.generations same e current in
              let built : is_building r ≡ true = ground arith in
              elim (status-cases r.status) [
                | inl (a, b) ↦ absurd (ground arith)
                | inr a ↦ absurd (ground arith)
              ])
      ]
    ]

insert_entry-keeps :
    (g : ℕ) (e : Entry) (i : Index) {i' : Index}
    → (e.generation_id == g) ≡ false
    → insert_entry e i ≡ ok i'
    → (i'.active_generation ≡ i.active_generation)
      × (i'.unhealthy ≡ i.unhealthy)
      × (filter (λ f. f.generation_id == g) i'.entries
          ≡ filter (λ f. f.generation_id == g) i.entries)
unfolding insert_entry
insert_entry-keeps g e i far h = (ground arith, ground arith, ground arith)

pub insert_entries-keeps :
    (env : Platform) (g id : ℕ) (es : List Entry) (i : Index) {i' : Index}
    → (id == g) ≡ false
    → insert_entries env id es i ≡ ok i'
    → (i'.active_generation ≡ i.active_generation)
      × (i'.unhealthy ≡ i.unhealthy)
      × (filter (λ e. e.generation_id == g) i'.entries
          ≡ filter (λ e. e.generation_id == g) i.entries)
unfolding insert_entries insert_entry
insert_entries-keeps env g id [] i far h = ground arith
insert_entries-keeps env g id (e ∷ es) i {i' = i'} far h =
    let row : Entry = record e { generation_id = id } in
    elim (Result-cases (validate_entry env e)) [
      | inr (f, bad) ↦ absurd (ground arith)
      | inl (u, valid) ↦ elim (Bool-cases (is_path_taken row i.entries)) [
        | inl taken ↦ absurd (ground arith)
        | inr free ↦ elim (Result-cases (insert_entry row i)) [
          | inr (f, bad) ↦ absurd (ground arith)
          | inl (grown, added) ↦
              (let later : insert_entries env id es grown ≡ ok i' = ground arith in
                let (a, b, c) = insert_entries-keeps env g id es grown far later in
                let (d, f, k) = insert_entry-keeps g row i far added in (a ∙ d, b ∙ f, c ∙ k))
        ]
      ]
    ]

pub current_kept : (s : GenerationStatus) → current_status s ≡ true → obsolete_status s ≡ false
current_kept building h = refl
current_kept active h = refl
current_kept obsolete h = absurd (cc)

pub or_left : {a : Bool} (b : Bool) → a ≡ true → a || b ≡ true
or_left b h = ground arith

filter-all :
    (g : ℕ) (p : Generation → Bool) (gs : List Generation)
    → all (λ r. not (r.id == g) || is_current r) gs ≡ true
    → all (λ r. not (r.id == g) || is_current r) (filter p gs) ≡ true
filter-all g p [] h = refl
filter-all g p (r ∷ rs) h = let ih = filter-all g p rs (ground arith) in ground arith

filter-there :
    (g : ℕ) (p : Generation → Bool) (gs : List Generation)
    → ((r : Generation) → is_current r ≡ true → p r ≡ true)
    → any (λ r. r.id == g) gs ≡ true
    → all (λ r. not (r.id == g) || is_current r) gs ≡ true
    → any (λ r. r.id == g) (filter p gs) ≡ true
filter-there g p [] spares there current = there
filter-there g p (r ∷ rs) spares there current = elim (Bool-cases (r.id == g)) [
  | inl same ↦ (let stays = spares r (ground arith) in rw (stays, same) refl)
  | inr far ↦
      (let ih = filter-there g p rs spares (ground arith) (ground arith) in
        elim (Bool-cases (p r)) [ inl k ↦ rw (k, far) ih | inr k ↦ rw k ih ])
]

-- A removal that spares every active generation.
pub filter-IsCurrent :
    (g : ℕ) (p : Generation → Bool) (gs : List Generation)
    → ((r : Generation) → is_current r ≡ true → p r ≡ true)
    → IsCurrent g gs
    → IsCurrent g (filter p gs)
filter-IsCurrent g p gs spares (there, current) =
    (filter-there g p gs spares there current, filter-all g p gs current)

pub current_apart :
    (g : ℕ) (gs : List Generation) (e : Entry)
    → all (λ r. not (r.id == g) || is_current r) gs ≡ true
    → (e.generation_id == g) ≡ true
    → in_obsolete gs e ≡ false
unfolding in_obsolete
current_apart g [] e current h = refl
current_apart g (r ∷ rs) e current h =
    let ih = current_apart g rs e (ground arith) h in
    elim (Bool-cases (r.id == e.generation_id)) [
      | inr far ↦ rw far ih
      | inl same ↦
          (let now : current_status r.status ≡ true = ground arith in
            rw (same, current_kept r.status now) ih)
    ]
