-- ===== src/World/Ends.antt =====
-- Where a method can end: for what must hold of the last world, the cases of each kind of first step.
use swa_drive.Base.{
  ℕ, ◌≡◌, sym, ap, arith, ◌∙◌, Result, ok, err, Error, Bool, true, Bool-cases, inl, inr,
  Result-cases,
}
use swa_drive.Storage.Disk.{Disk}
use swa_drive.Database.{Db}
use swa_drive.World.{World, M, ◌>>=◌, ◌>>◌, attempt, now, guard, lift, fallible, transact, change}
use swa_drive.World.Laws.{
  bind_end, bind-ok, now-same, fallible-same, transact-ok, transact-err, change-ok, change-err,
}

-- The tables and the volume are the same.
abbrev pub SameState : World → World → Type 0
SameState w v = (v.db ≡ w.db) × (v.disk ≡ w.disk)

pub step_same :
    {A : Type 0} (m : M A) (w : World) {r : Result A} {v : World}
    → SameState w (m w).1
    → m w ≡ (r, v)
    → SameState w v
step_same m w (a, b) s = (ap (λ z. z.1.db) (sym s) ∙ a, ap (λ z. z.1.disk) (sym s) ∙ b)

pub now-ne_err : (w : World) {e : Error} {v : World} → now w ≡ (err e, v) → ⊥
unfolding now
now-ne_err w h = ground arith

-- The look at the request's context before a change of the volume.
pub fallible-change-ok :
    (f : Disk → Result Disk) (w : World) {v : World}
    → (fallible >> change f) w ≡ (ok tt, v)
    → (f w.disk ≡ ok v.disk) × (v.db ≡ w.db)
fallible-change-ok f w h =
    let (u, v0, first, rest) = bind-ok fallible (λ _. change f) w h in
    let (a, b) = step_same fallible w (fallible-same w) first in
    let (c, d) = change-ok f v0 rest in (ap f (sym b) ∙ c, d ∙ a)

pub fallible-change-err :
    (f : Disk → Result Disk) (w : World) {e : Error} {v : World}
    → (fallible >> change f) w ≡ (err e, v)
    → SameState w v
unfolding ◌>>=◌
fallible-change-err f w {e = e} {v = v} h = elim (Result-cases (fallible w).0) [
  | inr (g, s) ↦ ground (arith, fallible-same w)
  | inl (u, s) ↦
      (let later : change f (fallible w).1 ≡ (err e, v) = ground arith in
        let (a, b) = change-err f (fallible w).1 later in
        let (c, d) = fallible-same w in (a ∙ c, b ∙ d))
]

module _ (P : World → Type 0) (w : World) where
  pub transact_last :
      (f : ℕ → Db → Result Db)
      → ((v : World) → SameState w v → P v)
      → ((t : ℕ) (v : World) → f t w.db ≡ ok v.db → v.disk ≡ w.disk → P v)
      → P (transact f w).1
  transact_last f k l = elim (Result-cases (transact f w).0) [
    | inr (e, s) ↦ k (transact f w).1 (transact-err f w (ap (λ z. (z, (transact f w).1)) s))
    | inl (u, s) ↦
        (let (t, a, b) = transact-ok f w (ap (λ z. (z, (transact f w).1)) s) in
          l t (transact f w).1 a b)
  ]

module _ (P : World → Type 0) {B : Type 0} (w : World) where
  pub now_end :
      (f : ℕ → M B) → ((t : ℕ) (v : World) → SameState w v → P (f t v).1) → P ((now >>= f) w).1
  now_end f k =
      bind_end P now f w (λ e v s. absurd (now-ne_err w s))
        (λ t v s. k t v (step_same now w (now-same w) s))

  pub transact_end :
      (f : ℕ → Db → Result Db) (g : Unit {0} → M B)
      → ((v : World) → SameState w v → P v)
      → ((t : ℕ) (v : World) → f t w.db ≡ ok v.db → v.disk ≡ w.disk → P (g tt v).1)
      → P ((transact f >>= g) w).1
  transact_end f g k l =
      bind_end P (transact f) g w (λ e v s. k v (transact-err f w s))
        (λ u v s. let (t, a, b) = transact-ok f w s in l t v a b)

  attempt_end :
      {A : Type 0} (m : M A) (g : Result A → M B)
      → ((e : Error) (v : World) → m w ≡ (err e, v) → P (g (err e) v).1)
      → ((a : A) (v : World) → m w ≡ (ok a, v) → P (g (ok a) v).1)
      → P ((attempt m >>= g) w).1
  unfolding ◌>>=◌
  attempt_end {A = A} m g k l = elim (Result-cases (m w).0) [
    | inr (e, s) ↦ rw s (k e (m w).1 (ap (λ (z : Result A). (z, (m w).1)) s))
    | inl (a, s) ↦ rw s (l a (m w).1 (ap (λ (z : Result A). (z, (m w).1)) s))
  ]

  pub attempt_transact_end :
      (f : ℕ → Db → Result Db) (g : Result (Unit {0}) → M B)
      → ((e : Error) (v : World) → SameState w v → P (g (err e) v).1)
      → ((t : ℕ) (v : World) → f t w.db ≡ ok v.db → v.disk ≡ w.disk → P (g (ok tt) v).1)
      → P ((attempt (transact f) >>= g) w).1
  attempt_transact_end f g k l =
      attempt_end (transact f) g (λ e v s. k e v (transact-err f w s))
        (λ u v s. let (t, a, b) = transact-ok f w s in l t v a b)

  pub attempt_change_end :
      (f : Disk → Result Disk) (g : Result (Unit {0}) → M B)
      → ((e : Error) (v : World) → SameState w v → P (g (err e) v).1)
      → ((v : World) → f w.disk ≡ ok v.disk → v.db ≡ w.db → P (g (ok tt) v).1)
      → P ((attempt (change f) >>= g) w).1
  attempt_change_end f g k l =
      attempt_end (change f) g (λ e v s. k e v (change-err f w s))
        (λ u v s. let (a, b) = change-ok f w s in l v a b)

  pub attempt_fallible_change_end :
      (f : Disk → Result Disk) (g : Result (Unit {0}) → M B)
      → ((e : Error) (v : World) → SameState w v → P (g (err e) v).1)
      → ((v : World) → f w.disk ≡ ok v.disk → v.db ≡ w.db → P (g (ok tt) v).1)
      → P ((attempt (fallible >> change f) >>= g) w).1
  attempt_fallible_change_end f g k l =
      attempt_end (fallible >> change f) g (λ e v s. k e v (fallible-change-err f w s))
        (λ u v s. let (a, b) = fallible-change-ok f w s in l v a b)

  pub guard_end :
      (b : Bool) (e : Error) (f : Unit {0} → M B)
      → P w
      → (b ≡ true → P (f tt w).1)
      → P ((guard b e >>= f) w).1
  unfolding ◌>>=◌
  guard_end b e f k l = elim (Bool-cases b) [ inl t ↦ rw t (l t) | inr t ↦ rw t k ]

  pub lift_end :
      {A : Type 0} (r : Result A) (f : A → M B)
      → P w
      → ((a : A) → r ≡ ok a → P (f a w).1)
      → P ((lift r >>= f) w).1
  unfolding ◌>>=◌
  lift_end r f k l = elim (Result-cases r) [ inl (a, t) ↦ rw t (l a t) | inr (e, t) ↦ rw t k ]
