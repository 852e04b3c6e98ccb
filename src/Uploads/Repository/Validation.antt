-- ===== src/Uploads/Repository/Validation.antt =====
-- What the rows of an upload's chunks satisfy once `ValidateChunks` has let them through.
use swa_drive.Base.{
  ℕ, suc, ◌+◌, ◌<◌, ◌≡◌, refl, true, false, List, [], ◌∷◌, Result, ok, arith, inl, inr, Bool-cases,
  Result-cases, length, ◌==◌, subst, ◌⊎◌, >>=-eq_ok,
}
use swa_drive.Base.Int.{pos}
use swa_drive.Uploads.Model.{Upload, Chunk}
use swa_drive.Uploads.Chunks.{chunk_bounds}
use swa_drive.Uploads.Chunks.Tiling.{
  IsPlanned, bytes_below, bytes_below-suc, bytes_below_zero, bytes_below-total, chunk_bounds-ok,
  chunk_bounds-tiles,
}
use swa_drive.Uploads.Repository.{
  Db, chunk_matches, validate_from, validate_chunks, sum_sizes, chunks_of, sort_by_index,
  insert_by_index, with_progress,
}

-- A row at its place: its offset is where the rows before it end, and the next one begins behind it.
pub record Fits (u : Upload) (i : ℕ) (c : Chunk) : Type 0 where
  pub inside : i < u.total_chunks
  pub index : c.index ≡ i
  pub offset : c.offset ≡ bytes_below u i
  pub next : bytes_below u (suc i) ≡ bytes_below u i + c.size

pub chunk_matches-Fits :
    (u : Upload) (i : ℕ) (c : Chunk) → IsPlanned u → chunk_matches u i c ≡ true → Fits u i c
unfolding chunk_matches
chunk_matches-Fits u i c p h = elim (Result-cases (chunk_bounds u (pos i))) [
  | inl ((offset, size), e) ↦
      (let (j, same, inside, exact) = chunk_bounds-ok u (pos i) offset size p e in
        let here : i < u.total_chunks = ground arith in
        let (_, _, before, _, _, _) = chunk_bounds-tiles u i p here in
        record {
          inside = here;
          index = ground arith;
          offset = ground arith;
          next = ground (arith, bytes_below-suc u i offset size e);
        })
  | inr (f, e) ↦ absurd (ground arith)
]

-- A rule for the loop: what holds before the first row and is kept by every row that fits holds at the
-- end, and then all chunks are there.
module _ {A : Type 0} (u : Upload) (visit : Chunk → A → Result A) (p : IsPlanned u)
    (P : ℕ → A → Type 0)
    (keep : (i : ℕ) (c : Chunk) (a b : A)
      → Fits u i c
      → P i a
      → visit c a ≡ ok b
      → P (suc i) b) where
  pub validate_from-inv :
      (i : ℕ) (cs : List Chunk) (a b : A)
      → P i a
      → validate_from u visit i cs a ≡ ok b
      → P u.total_chunks b
  unfolding validate_from
  validate_from-inv i [] a b start h = finish (Bool-cases (i == u.total_chunks))
    where
      finish : ((i == u.total_chunks) ≡ true) ⊎ ((i == u.total_chunks) ≡ false) → P u.total_chunks b
      finish (inl e) = subst (λ k. P k b) (ground arith) (subst (P i) (ground arith) start)
      finish (inr e) = absurd (ground arith)
  validate_from-inv i (c ∷ cs) a b start h = elim (Bool-cases (chunk_matches u i c)) [
    | inl fits ↦
        (let (next, visited, rest) =
            >>=-eq_ok (visit c a) (λ z. validate_from u visit (suc i) cs z) (ground arith) in
          validate_from-inv (suc i) cs next b
            (keep i c a next (chunk_matches-Fits u i c p fits) start visited) rest)
    | inr misfit ↦ absurd (ground arith)
  ]

  pub validate_from-sum :
      (i : ℕ) (cs : List Chunk) (a b : A)
      → validate_from u visit i cs a ≡ ok b
      → (bytes_below u i + sum_sizes cs ≡ u.total_size) × (i + length cs ≡ u.total_chunks)
  unfolding validate_from sum_sizes
  validate_from-sum i [] a b h =
      let last : i ≡ u.total_chunks = ground arith in
      (rw last (omega (arith, bytes_below-total u p)), omega arith)
  validate_from-sum i (c ∷ cs) a b h = elim (Bool-cases (chunk_matches u i c)) [
    | inl fits ↦
        (let (next, visited, rest) =
            >>=-eq_ok (visit c a) (λ z. validate_from u visit (suc i) cs z) (ground arith) in
          let fit = chunk_matches-Fits u i c p fits in
          let (bytes, count) = validate_from-sum (suc i) cs next b rest in
          (omega (arith, fit.next), omega arith))
    | inr misfit ↦ absurd (ground arith)
  ]

sum_sizes-insert :
    (c : Chunk) (cs : List Chunk) → sum_sizes (insert_by_index c cs) ≡ c.size + sum_sizes cs
unfolding sum_sizes insert_by_index
sum_sizes-insert c [] = refl
sum_sizes-insert c (d ∷ ds) = ground (arith, sum_sizes-insert c ds)

sum_sizes-sort : (cs : List Chunk) → sum_sizes (sort_by_index cs) ≡ sum_sizes cs
unfolding sum_sizes sort_by_index
sum_sizes-sort [] = refl
sum_sizes-sort (c ∷ cs) = omega (arith, sum_sizes-insert c (sort_by_index cs), sum_sizes-sort cs)

length-insert : (c : Chunk) (cs : List Chunk) → length (insert_by_index c cs) ≡ suc (length cs)
unfolding insert_by_index
length-insert c [] = refl
length-insert c (d ∷ ds) = ground (arith, length-insert c ds)

length-sort : (cs : List Chunk) → length (sort_by_index cs) ≡ length cs
unfolding sort_by_index
length-sort [] = refl
length-sort (c ∷ cs) = omega (arith, length-insert c (sort_by_index cs), length-sort cs)

-- Where `ValidateChunks` finds nothing missing, whatever its callback does, the progress that `Find`
-- reports is full: every chunk was received, and together they have the upload's size.
pub validate_chunks-progress :
    {A : Type 0} (u : Upload) (visit : Chunk → A → Result A) (db : Db) (a b : A)
    → IsPlanned u
    → validate_chunks u visit db a ≡ ok b
    → ((with_progress db.chunks u).received_chunks ≡ u.total_chunks)
      × ((with_progress db.chunks u).received_bytes ≡ u.total_size)
unfolding validate_chunks with_progress
validate_chunks-progress u visit db a b p h =
    let own = chunks_of u.id db.chunks in
    let (bytes, count) =
      validate_from-sum u visit p (λ _ _. Unit {0}) (λ _ _ _ _ _ _ _. tt) 0 (sort_by_index own) a b
        h in
    (omega (arith, length-sort own), omega (arith, sum_sizes-sort own, bytes_below_zero u))
