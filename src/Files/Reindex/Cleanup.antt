-- ===== src/Files/Reindex/Cleanup.antt =====
-- The removal of old generations comes to an end, and removes their rows alone.
use swa_drive.Base.{
  ℕ, zero, suc, ◌+◌, ◌-◌, ◌≡◌, ◌<◌, refl, ap, subst, ◌∙◌, Bool, true, false, not, ◌&&◌, ◌||◌,
  Option, some, List, [], ◌∷◌, ok, leb, ◌==◌, any, filter, length, arith, inl, inr, Bool-cases, All,
  ◌⊎◌,
}
use swa_drive.Database.{Db}
use swa_drive.Files.Index.{Entry, Generation}
use swa_drive.Files.Reindex.{cleanup}
use swa_drive.Files.Reindex.Tables.{
  drop_oldest, in_obsolete, cleanup_obsolete_batch, is_obsolete, is_used,
  reindex_cleanup_batch_size,
}
use swa_drive.World.{World, M, transact_with, fallible, pure, ◌>>◌}
use swa_drive.World.Running.{bind_value, transact_with-runs, fallible-runs}

module _ (p : Entry → Bool) (limit : ℕ) where
  pub drop_oldest-spare :
      (es : List Entry) → (drop_oldest p limit es).0 ≡ limit - length (filter p es)
  unfolding drop_oldest
  drop_oldest-spare [] = omega arith
  drop_oldest-spare (e ∷ es) = ground (arith, drop_oldest-spare es)

  pub drop_oldest-left :
      (es : List Entry)
      → length (filter p (drop_oldest p limit es).1) ≡ length (filter p es) - limit
  unfolding drop_oldest
  drop_oldest-left [] = omega arith
  drop_oldest-left (e ∷ es) = ground (arith, drop_oldest-spare es, drop_oldest-left es)

  -- Rows that the test does not touch stay, in their order.
  pub drop_oldest-other :
      (q : Entry → Bool) (es : List Entry)
      → ((e : Entry) → q e ≡ true → p e ≡ false)
      → filter q (drop_oldest p limit es).1 ≡ filter q es
  unfolding drop_oldest
  drop_oldest-other q [] apart = refl
  drop_oldest-other q (e ∷ es) apart =
      let ih = drop_oldest-other q es apart in
      elim (Bool-cases (q e)) [
        | inl h ↦ rw (apart e h, h) (ap (◌∷◌ e) ih)
        | inr h ↦ elim (Bool-cases (p e && leb 1 (drop_oldest p limit es).0)) [
          | inl k ↦ rw (k, h) ih
          | inr k ↦ rw (k, h) ih
        ]
      ]

abbrev used_at : List Entry → ℕ → Bool
used_at es n = any (λ e. e.generation_id == n) es

every_used :
    (es kept : List Entry)
    → ((n : ℕ) → used_at es n ≡ true → used_at kept n ≡ true)
    → All (λ e. used_at kept e.generation_id ≡ true) es
every_used [] kept within = tt
every_used (e ∷ es) kept within =
    (within e.generation_id (ground arith), every_used es kept (λ n h. within n (ground arith)))

-- A generation with a row that stays is not removed.
in_obsolete-filter :
    (gs : List Generation) (kept : List Entry) (e : Entry)
    → used_at kept e.generation_id ≡ true
    → in_obsolete (filter (λ g. not (is_obsolete g) || is_used kept g) gs) e ≡ in_obsolete gs e
unfolding in_obsolete
in_obsolete-filter [] kept e used = refl
in_obsolete-filter (g ∷ gs) kept e used =
    let ih = in_obsolete-filter gs kept e used in
    elim (Bool-cases (g.id == e.generation_id && is_obsolete g)) [
      | inl h ↦
          (let same : e.generation_id ≡ g.id = ground arith in
            let stays : is_used kept g ≡ true = subst (λ n. used_at kept n ≡ true) same used in
            let both : (not (is_obsolete g) || is_used kept g) ≡ true = ground arith in
            rw (both, h) refl)
      | inr h ↦ elim (Bool-cases (not (is_obsolete g) || is_used kept g)) [
        | inl k ↦ rw (k, h) ih
        | inr k ↦ rw (k, h) ih
      ]
    ]

filter_same :
    (p q : Entry → Bool) (es : List Entry) → All (λ e. p e ≡ q e) es → filter p es ≡ filter q es
filter_same p q [] same = refl
filter_same p q (e ∷ es) (h, hs) = rw (h, filter_same p q es hs) refl

every_same :
    (gs : List Generation) (kept es : List Entry)
    → All (λ e. used_at kept e.generation_id ≡ true) es
    → All
        (λ e.
          in_obsolete (filter (λ g. not (is_obsolete g) || is_used kept g) gs) e ≡ in_obsolete gs e)
        es
every_same gs kept [] used = tt
every_same gs kept (e ∷ es) (used, rest) =
    (in_obsolete-filter gs kept e used, every_same gs kept es rest)

every_not :
    (p q : Entry → Bool) (es : List Entry)
    → All (λ e. p e ≡ q e) es
    → All (λ e. not (p e) ≡ not (q e)) es
every_not p q [] same = tt
every_not p q (e ∷ es) (h, hs) = (ap not h, every_not p q es hs)

-- The rows of generations that are obsolete, and all the others.
abbrev pub obsolete_rows : Db → List Entry
obsolete_rows db = filter (in_obsolete db.generations) db.index.entries

abbrev pub other_rows : Db → List Entry
other_rows db = filter (λ e. not (in_obsolete db.generations e)) db.index.entries

abbrev after_batch : Db → Db
after_batch db =
    let kept = (drop_oldest (in_obsolete db.generations) 500 db.index.entries).1 in
    record db {
      index = record db.index { entries = kept };
      generations = filter (λ g. not (is_obsolete g) || is_used kept g) db.generations;
    }

cleanup_obsolete_batch-ok :
    (db : Db)
    → cleanup_obsolete_batch reindex_cleanup_batch_size db
      ≡ ok (500 - (500 - length (obsolete_rows db)), after_batch db)
unfolding cleanup_obsolete_batch
cleanup_obsolete_batch-ok db =
    let spare = drop_oldest-spare (in_obsolete db.generations) 500 db.index.entries in
    ap (λ n. ok (500 - n, after_batch db)) spare

after_batch-rows :
    (db : Db)
    → (length (obsolete_rows (after_batch db)) ≡ length (obsolete_rows db) - 500)
      × (other_rows (after_batch db) ≡ other_rows db)
after_batch-rows db =
    let p = in_obsolete db.generations in
    let kept = (drop_oldest p 500 db.index.entries).1 in
    let used = every_used kept kept (λ n h. h) in
    let same = every_same db.generations kept kept used in
    let left = drop_oldest-left p 500 db.index.entries in
    let apart = drop_oldest-other p 500 (λ e. not (p e)) db.index.entries (λ e h. ground arith) in
    (
      ap length (filter_same _ p kept same) ∙ left,
      filter_same _ (λ e. not (p e)) kept (every_not _ p kept same) ∙ apart,
    )

suc-cases : (n : ℕ) → (n ≡ 0) ⊎ ((m : ℕ) × (n ≡ suc m))
suc-cases zero = inl refl
suc-cases (suc m) = inr (m, refl)

no_rows : (es : List Entry) → length es ≡ 0 → es ≡ []
no_rows [] h = refl
no_rows (e ∷ es) h = absurd (omega arith)

-- What a round does after its batch.
abbrev round_end : (rounds removed : ℕ) → ℕ → M (Option ℕ)
round_end rounds removed deleted = elim deleted [
  | zero ↦ pure (some removed)
  | suc n ↦ do fallible; cleanup rounds (removed + suc n)
]

-- The loop that removes the rows of old generations comes to its end, in no more rounds than there are
-- such rows and one, where no call fails. It has counted them all, none is left, and the rows of the
-- other generations are as they were.
pub cleanup-ends :
    (rounds removed : ℕ) (w : World)
    → w.faults ≡ []
    → length (obsolete_rows w.db) < rounds
    → (v : World) × (cleanup rounds removed w
        ≡ (ok (some (removed + length (obsolete_rows w.db))), v))
      × (obsolete_rows v.db ≡ [])
      × (other_rows v.db ≡ other_rows w.db)
unfolding cleanup
cleanup-ends zero removed w clear few = absurd (omega arith)
cleanup-ends (suc rounds) removed w clear few =
    let n = length (obsolete_rows w.db) in
    let next : World = record w { db = after_batch w.db } in
    let ran =
      transact_with-runs (cleanup_obsolete_batch reindex_cleanup_batch_size) w clear
        (cleanup_obsolete_batch-ok w.db) in
    let (fewer, others) = after_batch-rows w.db in
    elim (suc-cases (500 - (500 - n))) [
      | inl none_left ↦ (
        next,
        bind_value (transact_with (cleanup_obsolete_batch reindex_cleanup_batch_size))
            (round_end rounds removed) w (ran ∙ ap (λ k. (ok k, next)) none_left)
            (ap (λ k. (ok (some k), next)) (omega arith)),
        no_rows (obsolete_rows next.db) (omega (arith, fewer)),
        others,
      )
      | inr (m, some_left) ↦
          (let (v, rest, gone, same) =
              cleanup-ends rounds (removed + suc m) next clear (omega (arith, fewer)) in
            (
              v,
              bind_value (transact_with (cleanup_obsolete_batch reindex_cleanup_batch_size))
                  (round_end rounds removed) w (ran ∙ ap (λ k. (ok k, next)) some_left)
                  (bind_value fallible (λ _. cleanup rounds (removed + suc m)) next
                    (fallible-runs next clear)
                    (rest ∙ ap (λ k. (ok (some k), v)) (omega (arith, fewer)))),
              gone,
              same ∙ others,
            ))
    ]
