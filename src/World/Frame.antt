-- ===== src/World/Frame.antt =====
-- What a method leaves as it was, whatever its result: a rule for each way to build one.
use swa_drive.Base.{ℕ, ◌≡◌, ap, ◌∙◌, Result, ok, inl, inr, Result-cases}
use swa_drive.Storage.Disk.{Disk}
use swa_drive.Uploads.Repository.{Db}
use swa_drive.World.{World, M, ◌>>=◌, query, transact, inspect, now, fallible, change}
use swa_drive.World.Laws.{now-same, query-same, transact-disk, inspect-same, fallible-same}

-- `view` of the world is the same after `m`.
abbrev pub Keeps : {X A : Type 0} → (World → X) → M A → Type 0
Keeps view m = (w : World) → view (m w).1 ≡ view w

module _ {X : Type 0} (view : World → X) {A : Type 0} where
  pub bind-Keeps :
      {B : Type 0} (m : M A) (f : A → M B)
      → Keeps view m
      → ((a : A) → Keeps view (f a))
      → Keeps view (m >>= f)
  unfolding ◌>>=◌
  bind-Keeps m f k l w = elim (Result-cases (m w).0) [
    | inl (a, e) ↦ rw (e, ◌>>=◌) (l a (m w).1 ∙ k w)
    | inr (f, e) ↦ rw (e, ◌>>=◌) (k w)
  ]

abbrev pub disk_of : World → Disk
disk_of w = w.disk

pub now-disk : Keeps disk_of now
now-disk w = (now-same w).1

pub fallible-disk : Keeps disk_of fallible
fallible-disk w = (fallible-same w).1

pub query-disk : {A : Type 0} (f : Db → Result A) → Keeps disk_of (query f)
query-disk f w = (query-same f w).1

pub inspect-disk : {A : Type 0} (f : Disk → Result A) → Keeps disk_of (inspect f)
inspect-disk f w = (inspect-same f w).1

pub transact_frame : (f : ℕ → Db → Result Db) → Keeps disk_of (transact f)
transact_frame f w = transact-disk f w

-- A transaction that keeps a view of the tables keeps it in the world.
module _ {X : Type 0} (view : Db → X) where
  abbrev pub db_view : World → X
  db_view w = view w.db

  pub now-Keeps : Keeps db_view now
  now-Keeps w = ap view (now-same w).0

  pub fallible-Keeps : Keeps db_view fallible
  fallible-Keeps w = ap view (fallible-same w).0

  pub query-Keeps : {A : Type 0} (f : Db → Result A) → Keeps db_view (query f)
  query-Keeps f w = ap view (query-same f w).0

  pub transact-Keeps :
      (f : ℕ → Db → Result Db)
      → ((t : ℕ) (db db' : Db) → f t db ≡ ok db' → view db' ≡ view db)
      → Keeps db_view (transact f)
  unfolding transact ◌>>=◌
  transact-Keeps f k w = elim (Result-cases (fallible w).0) [
    | inl (_, e) ↦ elim (Result-cases (f (fallible w).1.clock (fallible w).1.db)) [
      | inl (db', g) ↦ rw (e, transact, ◌>>=◌, g) (k _ _ db' g ∙ ap view (fallible-same w).0)
      | inr (h, g) ↦ rw (e, transact, ◌>>=◌, g) (ap view (fallible-same w).0)
    ]
    | inr (h, e) ↦ rw (e, transact, ◌>>=◌) (ap view (fallible-same w).0)
  ]

-- The same for a view of the volume and a change of it.
pub change-Keeps :
    {X : Type 0} (view : Disk → X) (f : Disk → Result Disk)
    → ((d d' : Disk) → f d ≡ ok d' → view d' ≡ view d)
    → Keeps (λ w. view w.disk) (change f)
unfolding change ◌>>=◌
change-Keeps view f k w = elim (Result-cases (fallible w).0) [
  | inl (_, e) ↦ elim (Result-cases (f (fallible w).1.disk)) [
    | inl (d', g) ↦ rw (e, change, ◌>>=◌, g) (k _ d' g ∙ ap view (fallible-same w).1)
    | inr (h, g) ↦ rw (e, change, ◌>>=◌, g) (ap view (fallible-same w).1)
  ]
  | inr (h, e) ↦ rw (e, change, ◌>>=◌) (ap view (fallible-same w).1)
]

-- A rest that may rely on what the first step did.
pub bind_view :
    {X A B : Type 0} (view : World → X) (x : X) (m : M A) (f : A → M B) (w : World)
    → view (m w).1 ≡ x
    → ((a : A) (v : World) → m w ≡ (ok a, v) → view (f a v).1 ≡ x)
    → view ((m >>= f) w).1 ≡ x
unfolding ◌>>=◌
bind_view {A = A} view x m f w k l = elim (Result-cases (m w).0) [
  | inl (a, e) ↦ rw (e, ◌>>=◌) (l a (m w).1 (ap (λ (z : Result A). (z, (m w).1)) e))
  | inr (g, e) ↦ rw (e, ◌>>=◌) k
]
