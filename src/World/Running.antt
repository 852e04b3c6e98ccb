-- ===== src/World/Running.antt =====
-- Steps that run without a fault.
use swa_drive.Base.{ℕ, ◌+◌, ◌≡◌, refl, ap, ◌∙◌, List, [], ◌∷◌, Result, ok, err}
use swa_drive.Storage.Disk.{Disk}
use swa_drive.Database.{Db}
use swa_drive.World.{
  World, M, ◌>>=◌, ◌>>◌, attempt, now, fallible, query, transact, transact_with, change,
}

-- A step that ends in a value, in a world with the given tables and volume and no fault to come.
abbrev pub Runs : {A : Type 0} → M A → World → A → Db → Disk → Type 0
Runs m w a db disk =
    (v : World) × (m w ≡ (ok a, v)) × (v.db ≡ db) × (v.disk ≡ disk) × (v.faults ≡ [])

abbrev go_on : {A B : Type 0} → (A → M B) → Result A × World → Result B × World
go_on f z = elim z.0 [ ok a ↦ f a z.1 | err e ↦ (err e, z.1) ]

-- A step whose value is known, and its rest.
pub bind_value :
    {A B : Type 0} (m : M A) (f : A → M B) (w : World) {a : A} {v : World} {r : Result B × World}
    → m w ≡ (ok a, v)
    → f a v ≡ r
    → (m >>= f) w ≡ r
unfolding ◌>>=◌
bind_value m f w h k = ap (go_on f) h ∙ k

now_after :
    (w : World) (ds : List ℕ) → w.faults ≡ [] → w.delays ≡ ds → (t : ℕ) × Runs now w t w.db w.disk
unfolding now
now_after w [] h k = (w.clock, (w, rw k refl, refl, refl, h))
now_after w (d ∷ ds) h k =
    (w.clock + d, (record w { clock = w.clock + d; delays = ds }, rw k refl, refl, refl, h))

pub now-Runs : (w : World) → w.faults ≡ [] → (t : ℕ) × Runs now w t w.db w.disk
now-Runs w h = now_after w w.delays h refl

pub transact-Runs :
    (f : ℕ → Db → Result Db) (w : World) {db : Db}
    → w.faults ≡ []
    → f w.clock w.db ≡ ok db
    → Runs (transact f) w tt db w.disk
unfolding transact fallible ◌>>=◌
transact-Runs f w {db = db} h k = (record w { db = db }, rw (h, k) refl, refl, refl, h)

pub query-runs :
    {A : Type 0} (f : Db → Result A) (w : World) {a : A}
    → w.faults ≡ []
    → f w.db ≡ ok a
    → query f w ≡ (ok a, w)
unfolding query fallible ◌>>=◌
query-runs f w h k = rw (h, k) refl

pub transact_with-runs :
    {A : Type 0} (f : Db → Result (A × Db)) (w : World) {a : A} {db : Db}
    → w.faults ≡ []
    → f w.db ≡ ok (a, db)
    → transact_with f w ≡ (ok a, record w { db = db })
unfolding transact_with fallible ◌>>=◌
transact_with-runs f w h k = rw (h, k) refl

pub fallible-runs : (w : World) → w.faults ≡ [] → fallible w ≡ (ok tt, w)
unfolding fallible
fallible-runs w h = rw h refl

-- A look at the clock, where no time passes before it.
pub now-runs : (w : World) → w.delays ≡ [] → now w ≡ (ok w.clock, w)
unfolding now
now-runs w h = rw h refl

pub change-Runs :
    (f : Disk → Result Disk) (w : World) {disk : Disk}
    → w.faults ≡ []
    → f w.disk ≡ ok disk
    → Runs (fallible >> change f) w tt w.db disk
unfolding change fallible ◌>>=◌
change-Runs f w {disk = disk} h k = (record w { disk = disk }, rw (h, k) refl, refl, refl, h)

pub attempt-Runs :
    {A : Type 0} (m : M A) (w : World) {a : A} {db : Db} {disk : Disk}
    → Runs m w a db disk
    → Runs (attempt m) w (ok a) db disk
attempt-Runs m w (v, h, rest1, rest2, rest3) = (v, ap (λ z. (ok z.0, z.1)) h, rest1, rest2, rest3)
