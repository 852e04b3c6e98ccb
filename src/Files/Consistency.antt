-- ===== src/Files/Consistency.antt =====
-- `CreateDirectory` and `Move` fail closed: however they end, an index that calls itself healthy agrees
-- with the volume.
pub mod Moving
pub mod Creating
pub mod Accounting
pub mod Trashing
use swa_drive.Base.{
  ℕ, ◌≡◌, refl, sym, ap, ◌∙◌, subst, Bool, true, false, Option, none, some, List, [], ◌∷◌, ◌++◌,
  Result, ok, err, Error, arith, inl, inr, ◌⊎◌, Bool-cases, Result-cases, Option-cases,
}
use swa_drive.Base.Text.{Text, text_eq}
use swa_drive.Platform.{Platform}
use swa_drive.Storage.Path.{LogicalPath, parse_path}
use swa_drive.Storage.Disk.{Disk, absent, below, rename}
use swa_drive.Storage.Manager
use swa_drive.Audit.Event.{Event, append_in_transaction}
use swa_drive.Auth.Model.{Identity}
use swa_drive.Database.{Db}
use swa_drive.Files.Index.{Index, begin_mutation, clear_mutation, clear_health_reason}
use swa_drive.Files.Repository.{on_index, move_subtree_with_audit}
use swa_drive.Files.Agreement.{
  node_view, rename-files, IsTree, Consistent, file_at, move-Consistent, move-inv, free_below,
}
use swa_drive.Files.Subtree.View.{shown, below-eq, below-append}
use swa_drive.Files.Service.{
  move_file, after_move, after_move_booked, abort_mutation, after_clearing, clear_intent,
  compensate, after_undoing, move_mutation_reason, file_event,
}
use swa_drive.World.{
  World, M, fallible, ◌>>=◌, ◌>>◌, lift, pure, raise, attempt, guard, now, fallible, transact,
  change,
}
use swa_drive.World.Ends.{
  SameState, step_same, now_end, transact_last, transact_end, attempt_transact_end,
  attempt_change_end, attempt_fallible_change_end,
}
use swa_drive.World.Laws.{bind_end, now-same}

-- A healthy index agrees with the volume.
abbrev pub IsFaithful : World → Type 0
IsFaithful w = w.db.index.unhealthy ≡ none → Consistent w.disk w.db.index

-- The index is marked with the reason of a mutation.
abbrev pub IsMarked : Text → World → Type 0
IsMarked reason w = w.db.index.unhealthy ≡ some reason

pub marked-IsFaithful : (reason : Text) (w : World) → IsMarked reason w → IsFaithful w
marked-IsFaithful reason w m h = absurd (ground arith)

clear_mutation-inv :
    (reason : Text) (i i' : Index)
    → clear_mutation reason i ≡ ok i'
    → (i'.entries ≡ i.entries) × (i'.active_generation ≡ i.active_generation)
unfolding clear_mutation
clear_mutation-inv reason i i' h = ground arith

pub begin_mutation-inv :
    (reason : Text) (i i' : Index)
    → begin_mutation reason i ≡ ok i'
    → (i'.entries ≡ i.entries)
      × (i'.active_generation ≡ i.active_generation)
      × (i.unhealthy ≡ none)
      × (i'.unhealthy ≡ some reason)
unfolding begin_mutation
begin_mutation-inv reason i i' h = ground arith

pub on_index-inv :
    (f : Index → Result Index) (db db' : Db) → on_index f db ≡ ok db' → f db.index ≡ ok db'.index
unfolding on_index
on_index-inv f db db' h = ground arith

-- It is the kinds and sizes under the files' directory that count.
pub Consistent-at :
    (d d' : Disk) (i i' : Index)
    → ((q : Text) → d' (file_at q) ≡ d (file_at q))
    → i'.entries ≡ i.entries
    → i'.active_generation ≡ i.active_generation
    → Consistent d i
    → Consistent d' i'
Consistent-at d d' i i' a b c h g active q =
    ap node_view (a q) ∙ h g (sym c ∙ active) q ∙ ap (λ z. shown g z q) (sym b)

pub IsFaithful-same : (w v : World) → v.db ≡ w.db → v.disk ≡ w.disk → IsFaithful w → IsFaithful v
IsFaithful-same w v a b h healthy =
    Consistent-at w.disk v.disk w.db.index v.db.index (λ q. ap (λ z. z (file_at q)) b)
      (ap (λ z. z.index.entries) a) (ap (λ z. z.index.active_generation) a)
      (h (ap (λ z. z.index.unhealthy) (sym a) ∙ healthy))

-- Moving there and back.
pub rename-back :
    (s t q : Text) (d : Disk)
    → IsTree d
    → d (file_at t) ≡ absent
    → rename (file_at t) (file_at s) (rename (file_at s) (file_at t) d) (file_at q) ≡ d (file_at q)
rename-back s t q d tree free = elim (Option-cases (below s q)) [
  | inl off ↦ elim (Option-cases (below t q)) [
    | inl out ↦
        rw (rename-files t s q (rename (file_at s) (file_at t) d), off, out)
          (rename-files s t q d ∙ (rw (out, off) refl))
    | inr (r, b) ↦
        rw (rename-files t s q (rename (file_at s) (file_at t) d), off, b)
          (let same = below-eq t q r b in
            sym (
              ap (λ z. d (file_at z)) same
              ∙ free_below d t r tree free (ap (below t) (sym same) ∙ b)))
  ]
  | inr (r, moved) ↦
      rw (rename-files t s q (rename (file_at s) (file_at t) d), moved)
        (rename-files s t (t ++ r) d
          ∙ (rw (below-append s q t r moved)
              (ap (λ z. d (file_at z)) (sym (below-eq s q r moved)))))
]

-- The intent is cleared, or stays where it could not be.
clear_intent-IsFaithful :
    (reason : Text) (w : World)
    → Consistent w.disk w.db.index
    → IsMarked reason w
    → IsFaithful (clear_intent reason w).1
unfolding clear_intent
clear_intent-IsFaithful reason w h marked = now_end IsFaithful w _ λ t v same.
    let here = IsFaithful-same w v same.0 same.1 (marked-IsFaithful reason w marked) in
    transact_last IsFaithful v _ (λ u k. IsFaithful-same v u k.0 k.1 here)
      (λ n u done kept.
        let (a, b) =
          clear_mutation-inv reason v.db.index u.db.index
            (on_index-inv (clear_mutation reason) v.db u.db done) in
        λ _.
          Consistent-at w.disk u.disk w.db.index u.db.index
            (λ q. ap (λ z. z (file_at q)) (kept ∙ same.1)) (a ∙ ap (λ z. z.index.entries) same.0)
            (b ∙ ap (λ z. z.index.active_generation) same.0) h)

after_clearing-same :
    (A : Type 0) (e : Error) (r : Result (Unit {0})) (w : World)
    → (after_clearing {A = A} e r w).1 ≡ w
unfolding after_clearing
after_clearing-same A e (ok u) w = refl
after_clearing-same A e (err f) w = refl

pub abort_mutation-IsFaithful :
    (A : Type 0) (reason : Text) (e : Error) (w : World)
    → Consistent w.disk w.db.index
    → IsMarked reason w
    → IsFaithful (abort_mutation {A = A} reason e w).1
unfolding abort_mutation ◌>>=◌
abort_mutation-IsFaithful A reason e w h marked =
    subst IsFaithful
      (sym (after_clearing-same A e (clear_intent reason w).0 (clear_intent reason w).1))
      (clear_intent-IsFaithful reason w h marked)

-- Taking a change back: where that failed the index stays marked, and where it succeeded the volume is
-- as the index still says.
pub compensate-IsFaithful :
    (A : Type 0) (f : Disk → Result Disk) (reason : Text) (e : Error) (w : World)
    → IsMarked reason w
    → ((d : Disk) → f w.disk ≡ ok d → Consistent d w.db.index)
    → IsFaithful (compensate {A = A} (change f) reason e w).1
unfolding compensate after_undoing
compensate-IsFaithful A f reason e w marked back =
    attempt_change_end IsFaithful w f (after_undoing {A = A} reason e)
      (λ g v same. marked-IsFaithful reason v (ap (λ z. z.index.unhealthy) same.0 ∙ marked))
      (λ v undone same.
        abort_mutation-IsFaithful A reason e v
          (Consistent-at v.disk v.disk w.db.index v.db.index (λ q. refl)
            (ap (λ z. z.index.entries) same) (ap (λ z. z.index.active_generation) same)
            (back v.disk undone))
          (ap (λ z. z.index.unhealthy) same ∙ marked))

module _ (who : Identity) (event_type resource_type id path destination : Text)
    (metadata : List (Text × Text)) where
  abbrev the_event : M Event
  the_event = file_event who event_type resource_type id path destination metadata

  pub the_event-same : (w : World) → SameState w (the_event w).1
  unfolding file_event ◌>>=◌
  the_event-same w = ground (arith, now-same w)

  the_event-ne_err : (w : World) {e : Error} {v : World} → the_event w ≡ (err e, v) → ⊥
  unfolding file_event ◌>>=◌ now
  the_event-ne_err w h = ground arith

  -- Looking at the clock for an event changes nothing.
  pub file_event_end :
      (P : World → Type 0) {B : Type 0} (w : World) (g : Event → M B)
      → ((e : Event) (v : World) → SameState w v → P (g e v).1)
      → P ((the_event >>= g) w).1
  file_event_end P w g k =
      bind_end P the_event g w (λ e v s. absurd (the_event-ne_err w s))
        (λ e v s. k e v (step_same the_event w (the_event-same w) s))

-- A change of the volume that is announced first: it is enough to look at what follows the change.
pub announced_end :
    (A : Type 0) (reason : Text) (f : Disk → Result Disk) (g : ℕ → Result (Unit {0}) → M A)
    (w : World)
    → IsFaithful w
    → ((t : ℕ) (e : Error) (v : World)
        → Consistent v.disk v.db.index
        → IsMarked reason v
        → IsFaithful (g t (err e) v).1)
    → ((t : ℕ) (v : World)
        → f w.disk ≡ ok v.disk
        → Consistent w.disk v.db.index
        → IsMarked reason v
        → IsFaithful (g t (ok tt) v).1)
    → IsFaithful
        ((now >>= λ t. transact (λ _. on_index (begin_mutation reason)) >>= λ _.
            (attempt (fallible >> change f) >>= g t))
          w).1
announced_end A reason f g w before failed changed = now_end IsFaithful w _ λ t v same.
    transact_end IsFaithful v (λ _. on_index (begin_mutation reason)) _
      (λ u k. IsFaithful-same w u (k.0 ∙ same.0) (k.1 ∙ same.1) before)
      (λ n u begun kept.
        let (entries, generation, healthy, marked) =
          begin_mutation-inv reason v.db.index u.db.index
            (on_index-inv (begin_mutation reason) v.db u.db begun) in
        let here : Consistent w.disk w.db.index =
          before (ap (λ z. z.index.unhealthy) (sym same.0) ∙ healthy) in
        let there : Consistent w.disk u.db.index =
          Consistent-at w.disk w.disk w.db.index u.db.index (λ q. refl)
            (entries ∙ ap (λ z. z.index.entries) same.0)
            (generation ∙ ap (λ z. z.index.active_generation) same.0) here in
        let at_hand = sym (kept ∙ same.1) in
        attempt_fallible_change_end IsFaithful u f (g t)
          (λ e z k.
            failed t e z
              (Consistent-at w.disk z.disk u.db.index z.db.index
                (λ q. ap (λ d. d (file_at q)) (k.1 ∙ kept ∙ same.1)) (ap (λ b. b.index.entries) k.0)
                (ap (λ b. b.index.active_generation) k.0) there)
              (ap (λ b. b.index.unhealthy) k.0 ∙ marked))
          (λ z done k.
            changed t z (ap f at_hand ∙ done)
              (Consistent-at w.disk w.disk u.db.index z.db.index (λ q. refl)
                (ap (λ b. b.index.entries) k) (ap (λ b. b.index.active_generation) k) there)
              (ap (λ b. b.index.unhealthy) k ∙ marked)))
