-- ===== src/World.antt =====
-- What a request runs in: the database, the volume, the clock and what the environment decides; and
-- the monad of the service's methods. What was written before an error stays written.
pub mod Laws
pub mod Ends
pub mod Running
pub mod Frame
pub mod Audit
use swa_drive.Base.{
  ℕ, ◌+◌, ◌≡◌, Bool, true, false, List, [], ◌∷◌, Result, ok, err, Error, fault, if◌then◌else◌,
  errors_join,
}
use swa_drive.Storage.Disk.{Disk}
use swa_drive.Auth.Limiter.{LoginLimiter}
use swa_drive.Database.{Db}

-- `faults` says of each coming call of the database or of the volume whether it fails with an error of
-- the driver, of the system or of a cancelled context, before it has any effect; `delays` what passes
-- before each coming look at the clock. Past their ends nothing fails and no time passes.
pub record World : Type 0 where
  pub db : Db
  pub disk : Disk
  pub clock : ℕ
  pub delays : List ℕ
  pub faults : List Bool
  -- `statfs`: block size and free blocks
  pub block_size : ℕ
  pub free_blocks : ℕ
  -- chunk requests of others that hold an admission, and how many there are
  pub admitted : ℕ
  pub admissions : ℕ
  -- downloads of others that hold an admission, and how many there are
  pub downloading : ℕ
  pub download_admissions : ℕ
  -- the service's `reserve`
  pub reserve : ℕ
  pub limiter : LoginLimiter
  -- password derivations of others that hold an admission, and how many there are
  pub password_work : ℕ
  pub password_admissions : ℕ

abbrev pub M : Type 0 → Type 0
M A = World → Result A × World

infixl 5 ◌>>=◌ ◌>>◌
unfoldable pub ◌>>=◌ : {A B : Type 0} → M A → (A → M B) → M B
◌>>=◌ m f w = let (r, w') = m w in elim r [ ok a ↦ f a w' | err e ↦ (err e, w') ]

abbrev pub ◌>>◌ : {A B : Type 0} → M A → M B → M B
m >> k = m >>= λ _. k

module _ {A : Type 0} where
  abbrev pub lift : Result A → M A
  lift r w = (r, w)

  abbrev pub pure : A → M A
  pure a w = (ok a, w)

  abbrev pub raise : Error → M A
  raise e w = (err e, w)

  -- The result as a value, for code that goes on after an error.
  abbrev pub attempt : M A → M (Result A)
  attempt m w = let (r, w') = m w in (ok r, w')

abbrev pub gets : {A : Type 0} → (World → A) → M A
gets f w = (ok (f w), w)

abbrev pub guard : Bool → Error → M (Unit {0})
guard b e w = (if b then ok tt else err e, w)

-- `return …, errors.Join(e, other)`
abbrev pub raise_joined : {A B : Type 0} → Error → M A → M B
raise_joined e m w = let (r, w') = m w in (err (errors_join e r), w')

-- `service.now().UTC()`
unfoldable pub now : M ℕ
now w = elim w.delays [
  | [] ↦ (ok w.clock, w)
  | d ∷ ds ↦ (ok (w.clock + d), record w { clock = w.clock + d; delays = ds })
]

-- One call of the environment: it takes the next fault.
unfoldable pub fallible : M (Unit {0})
fallible w = elim w.faults [
  | [] ↦ (ok tt, w)
  | f ∷ fs ↦ (if f then err fault else ok tt, record w { faults = fs })
]

unfoldable pub query : {A : Type 0} → (Db → Result A) → M A
query f = do fallible; w ← gets (λ w. w); lift (f w.db)

-- A transaction. The clock is for an audit event that carries no time.
unfoldable pub transact : (ℕ → Db → Result Db) → M (Unit {0})
transact f = do
  fallible
  w ← gets (λ w. w)
  db ← lift (f w.clock w.db)
  λ w'. (ok tt, record w' { db = db })

-- A transaction that also answers.
unfoldable pub transact_with : {A : Type 0} → (Db → Result (A × Db)) → M A
transact_with f = do
  fallible
  w ← gets (λ w. w)
  (a, db) ← lift (f w.db)
  λ w'. (ok a, record w' { db = db })

-- The same with the clock.
unfoldable pub transact_timed : {A : Type 0} → (ℕ → Db → Result (A × Db)) → M A
transact_timed f = do
  fallible
  w ← gets (λ w. w)
  (a, db) ← lift (f w.clock w.db)
  λ w'. (ok a, record w' { db = db })

unfoldable pub inspect : {A : Type 0} → (Disk → Result A) → M A
inspect f = do fallible; w ← gets (λ w. w); lift (f w.disk)

unfoldable pub change : (Disk → Result Disk) → M (Unit {0})
change f = do
  fallible
  w ← gets (λ w. w)
  disk ← lift (f w.disk)
  λ w'. (ok tt, record w' { disk = disk })
