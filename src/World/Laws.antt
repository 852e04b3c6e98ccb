-- ===== src/World/Laws.antt =====
-- What the steps of the monad leave alone, and what a step that succeeded did.
use swa_drive.Base.{
  ℕ, ◌≡◌, refl, ap, Bool, true, false, Result, ok, err, ◌⊎◌, if◌then◌else◌, Error, fault, arith,
  inl, inr, Result-cases,
}
use swa_drive.Storage.Disk.{Disk}
use swa_drive.Uploads.Repository.{Db}
use swa_drive.World.{
  World, M, gets, ◌>>=◌, now, fallible, query, transact, transact_timed, inspect, change,
  raise_joined, guard, attempt, lift,
}

bind_from :
    {A B : Type 0} (f : A → M B) (r : Result A × World) {b : B} {w' : World}
    → ((λ w. r) >>= f) r.1 ≡ (ok b, w')
    → (a : A) × (v : World) × (r ≡ (ok a, v)) × (f a v ≡ (ok b, w'))
unfolding ◌>>=◌
bind_from f (ok a, v) h = (a, v, refl, h)
bind_from f (err e, v) h = cc

-- A step and its rest both succeeded.
pub bind-ok :
    {A B : Type 0} (m : M A) (f : A → M B) (w : World) {b : B} {w' : World}
    → (m >>= f) w ≡ (ok b, w')
    → (a : A) × (v : World) × (m w ≡ (ok a, v)) × (f a v ≡ (ok b, w'))
unfolding ◌>>=◌
bind-ok m f w h = bind_from f (m w) h

pub guard-ok :
    (b : Bool) (e : Error) (w : World) {v : World} → guard b e w ≡ (ok tt, v) → (b ≡ true) × (v ≡ w)
guard-ok b e w h = ground arith

pub fallible-same : (w : World) → ((fallible w).1.db ≡ w.db) × ((fallible w).1.disk ≡ w.disk)
unfolding fallible
fallible-same w = ground arith

pub now-same : (w : World) → ((now w).1.db ≡ w.db) × ((now w).1.disk ≡ w.disk)
unfolding now
now-same w = ground arith

pub query-same :
    {A : Type 0} (f : Db → Result A) (w : World)
    → ((query f w).1.db ≡ w.db) × ((query f w).1.disk ≡ w.disk)
unfolding query ◌>>=◌
query-same f w = ground (arith, fallible-same w)

pub inspect-same :
    {A : Type 0} (f : Disk → Result A) (w : World)
    → ((inspect f w).1.db ≡ w.db) × ((inspect f w).1.disk ≡ w.disk)
unfolding inspect ◌>>=◌
inspect-same f w = ground (arith, fallible-same w)

pub transact-disk : (f : ℕ → Db → Result Db) (w : World) → (transact f w).1.disk ≡ w.disk
unfolding transact ◌>>=◌
transact-disk f w = ground (arith, fallible-same w)

pub change-db : (f : Disk → Result Disk) (w : World) → (change f w).1.db ≡ w.db
unfolding change ◌>>=◌
change-db f w = ground (arith, fallible-same w)

pub query-ok :
    {A : Type 0} (f : Db → Result A) (w : World) {a : A} {v : World}
    → query f w ≡ (ok a, v)
    → (f w.db ≡ ok a) × (v.db ≡ w.db) × (v.disk ≡ w.disk)
unfolding query ◌>>=◌
query-ok f w h = ground (arith, fallible-same w)

pub inspect-ok :
    {A : Type 0} (f : Disk → Result A) (w : World) {a : A} {v : World}
    → inspect f w ≡ (ok a, v)
    → (f w.disk ≡ ok a) × (v.db ≡ w.db) × (v.disk ≡ w.disk)
unfolding inspect ◌>>=◌
inspect-ok f w h = ground (arith, fallible-same w)

pub change-ok :
    (f : Disk → Result Disk) (w : World) {v : World}
    → change f w ≡ (ok tt, v)
    → (f w.disk ≡ ok v.disk) × (v.db ≡ w.db)
unfolding change ◌>>=◌
change-ok f w h = ground (arith, fallible-same w)

pub transact-ok :
    (f : ℕ → Db → Result Db) (w : World) {v : World}
    → transact f w ≡ (ok tt, v)
    → (t : ℕ) × (f t w.db ≡ ok v.db) × (v.disk ≡ w.disk)
unfolding transact ◌>>=◌
transact-ok f w h =
    ((fallible w).1.clock, ground (arith, fallible-same w), ground (arith, fallible-same w))

pub transact_timed-ok :
    {A : Type 0} (f : ℕ → Db → Result (A × Db)) (w : World) {a : A} {v : World}
    → transact_timed f w ≡ (ok a, v)
    → (t : ℕ) × (f t w.db ≡ ok (a, v.db))
unfolding transact_timed ◌>>=◌
transact_timed-ok f w h = ((fallible w).1.clock, ground (arith, fallible-same w))

-- The same, handed on.
pub after_bind :
    {A B P : Type 0} (m : M A) (f : A → M B) (w : World) {b : B} {w' : World}
    → (m >>= f) w ≡ (ok b, w')
    → ((a : A) (v : World) → m w ≡ (ok a, v) → f a v ≡ (ok b, w') → P)
    → P
after_bind m f w h k = let (a, v, first, rest) = bind-ok m f w h in k a v first rest

pub attempt_lem :
    {A : Type 0} (m : M A) (w : World) {r : Result A} {v : World}
    → attempt m w ≡ (ok r, v)
    → m w ≡ (r, v)
attempt_lem m w h = ground arith

-- A value that was lifted or returned, and the world as it was.
pub lift-ok :
    {A : Type 0} (r : Result A) (w : World) {a : A} {v : World}
    → lift r w ≡ (ok a, v)
    → (r ≡ ok a) × (v ≡ w)
lift-ok r w h = (ground arith, ground arith)

pub raise_joined-ne_ok :
    {A B : Type 0} (e : Error) (m : M A) (w : World) {b : B} {v : World}
    → raise_joined e m w ≡ (ok b, v)
    → ⊥
raise_joined-ne_ok e m w h = cc

-- A call that could only fail by a fault.
pub query-fault :
    {A : Type 0} (f : Db → Result A) (w : World) {a : A} {e : Error} {v : World}
    → f w.db ≡ ok a
    → query f w ≡ (err e, v)
    → e ≡ fault
unfolding query ◌>>=◌ fallible
query-fault f w g h = ground arith

-- A transaction or a change of the volume that failed did nothing.
pub transact-err :
    (f : ℕ → Db → Result Db) (w : World) {e : Error} {v : World}
    → transact f w ≡ (err e, v)
    → (v.db ≡ w.db) × (v.disk ≡ w.disk)
unfolding transact ◌>>=◌
transact-err f w h = ground (arith, fallible-same w)

pub change-err :
    (f : Disk → Result Disk) (w : World) {e : Error} {v : World}
    → change f w ≡ (err e, v)
    → (v.db ≡ w.db) × (v.disk ≡ w.disk)
unfolding change ◌>>=◌
change-err f w h = ground (arith, fallible-same w)

-- What holds after a step and its rest: after the step that failed, or after the rest.
pub bind_end :
    {A B : Type 0} (P : World → Type 0) (m : M A) (f : A → M B) (w : World)
    → ((e : Error) (v : World) → m w ≡ (err e, v) → P v)
    → ((a : A) (v : World) → m w ≡ (ok a, v) → P (f a v).1)
    → P ((m >>= f) w).1
unfolding ◌>>=◌
bind_end {A = A} P m f w k l = elim (Result-cases (m w).0) [
  | inl (a, e) ↦ rw (e, ◌>>=◌) (l a (m w).1 (ap (λ (z : Result A). (z, (m w).1)) e))
  | inr (g, e) ↦ rw (e, ◌>>=◌) (k g (m w).1 (ap (λ (z : Result A). (z, (m w).1)) e))
]

-- A check or a value first: the rest ran in the same world.
pub checked-ok :
    {A : Type 0} (b : Bool) (e : Error) (f : Unit {0} → M A) (w : World) {r : A} {v : World}
    → (guard b e >>= f) w ≡ (ok r, v)
    → (b ≡ true) × (f tt w ≡ (ok r, v))
unfolding ◌>>=◌
checked-ok true e f w h = (refl, h)
checked-ok false e f w h = cc

pub lifted-ok :
    {A B : Type 0} (r : Result A) (f : A → M B) (w : World) {b : B} {v : World}
    → (lift r >>= f) w ≡ (ok b, v)
    → (a : A) × (r ≡ ok a) × (f a w ≡ (ok b, v))
unfolding ◌>>=◌
lifted-ok (ok a) f w h = (a, refl, h)
lifted-ok (err e) f w h = cc

-- Which branch ran.
pub if_taken :
    {A : Type 0} (b : Bool) (x y : M A) (w : World) {r : Result A × World}
    → (if b then x else y) w ≡ r
    → ((b ≡ true) × (x w ≡ r)) ⊎ ((b ≡ false) × (y w ≡ r))
if_taken true x y w h = inl (refl, h)
if_taken false x y w h = inr (refl, h)

pub gets_rest :
    {A B : Type 0} (g : World → A) (f : A → M B) (w : World) {r : Result B × World}
    → (gets g >>= f) w ≡ r
    → f (g w) w ≡ r
unfolding ◌>>=◌
gets_rest g f w h = h
