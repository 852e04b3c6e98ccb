-- ===== src/Uploads/Chunks/Tiling.antt =====
-- The chunks of an upload tile its bytes: none overlap, none is missing, and no offset wraps.
use swa_drive.Base.{
  ℕ, zero, suc, ◌+◌, ◌-◌, ◌*◌, ◌/◌, ◌^◌, ◌≤◌, ◌<◌, ◌≡◌, refl, inl, inr, ok, err, invalid_upload,
  ltb, arith, min, Bool-cases, ltb→lt,
}
use native.Mathlib.Nat.{mod-eq_of_lt}
use swa_drive.Base.Int.{ℤ, pos, negsuc}
use swa_drive.Uploads.Model.{Upload}
use swa_drive.Uploads.Chunks.{max_int64, total_chunks, chunk_bounds}

-- What `Create` stores: a positive chunk size, a total that is an `int64`, and their chunk count.
pub record IsPlanned (u : Upload) : Type 0 where
  pub chunk_pos : 0 < u.chunk_size
  pub total_int64 : u.total_size ≤ max_int64
  pub count : u.total_chunks ≡ total_chunks u.total_size u.chunk_size

-- The chunk count is the total divided by the chunk size, rounded up.
total_chunks-ceil :
    (t c : ℕ) → 0 < c → (t ≤ total_chunks t c * c) × ((total_chunks t c) * c < t + c)
unfolding total_chunks
total_chunks-ceil t c h = (grind arith, grind arith)

below_count : (t c i : ℕ) → 0 < c → i < total_chunks t c → i * c < t
below_count t c i h lt = grind (arith, total_chunks-ceil t c h)

above_count : (t c i : ℕ) → 0 < c → total_chunks t c ≤ i → t ≤ i * c
above_count t c i h le = grind (arith, total_chunks-ceil t c h)

-- The guard `index > math.MaxInt64/ChunkSize` of `chunkBounds` never refuses a chunk of a plan.
no_overflow : (m c i : ℕ) → 0 < c → i * c < m → i ≤ m / c
no_overflow m c i h lt = grind arith

-- The chunk at `i` of a plan: it begins at `i * chunk_size`, without wrapping, and ends at the next
-- chunk or at the end of the upload.
pub chunk_bounds-planned :
    (u : Upload) (i : ℕ)
    → IsPlanned u
    → i < u.total_chunks
    → chunk_bounds u (pos i)
      ≡ ok (i * u.chunk_size, min u.chunk_size (u.total_size - i * u.chunk_size))
unfolding chunk_bounds
chunk_bounds-planned u i p lt =
    let inside = below_count u.total_size u.chunk_size i p.chunk_pos (omega (arith, p.count)) in
    let fits = no_overflow max_int64 u.chunk_size i p.chunk_pos (omega (arith, p.total_int64)) in
    let exact = mod-eq_of_lt {n = i * u.chunk_size} {m = 2 ^ 64} (omega (arith, p.total_int64)) in
    rw exact (ground (arith, inside, fits))

chunk_bounds-outside :
    (u : Upload) (i : ℕ) → u.total_chunks ≤ i → chunk_bounds u (pos i) ≡ err invalid_upload
unfolding chunk_bounds
chunk_bounds-outside u i le = ground arith

-- The sizes that `chunkBounds` gives for the chunks before `k`, added up.
pub bytes_below : Upload → ℕ → ℕ
bytes_below u zero = 0
bytes_below u (suc k) =
    bytes_below u k + (elim (chunk_bounds u (pos k)) [ ok (offset, size) ↦ size | err _ ↦ 0 ])

pub bytes_below_zero : (u : Upload) → bytes_below u 0 ≡ 0
unfolding bytes_below
bytes_below_zero u = refl

pub bytes_below-suc :
    (u : Upload) (k offset size : ℕ)
    → chunk_bounds u (pos k) ≡ ok (offset, size)
    → bytes_below u (suc k) ≡ bytes_below u k + size
unfolding bytes_below
bytes_below-suc u k offset size e = rw e

bytes_below-min :
    (u : Upload) (k : ℕ)
    → IsPlanned u
    → k ≤ u.total_chunks
    → bytes_below u k ≡ min (k * u.chunk_size) u.total_size
unfolding bytes_below
bytes_below-min u zero p le = omega arith
bytes_below-min u (suc k) p le =
    rw (chunk_bounds-planned u k p le, bytes_below-min u k p (omega arith))
      (grind (arith, below_count u.total_size u.chunk_size k p.chunk_pos (omega (arith, p.count))))

-- In an upload that `Create` stored, every index below the chunk count has a chunk: it begins where
-- the chunks before it end, holds at least one byte and at most the chunk size, ends within the
-- upload, and its offset is the exact product, not a wrapped one.
pub chunk_bounds-tiles :
    (u : Upload) (i : ℕ)
    → IsPlanned u
    → i < u.total_chunks
    → (size : ℕ) × (chunk_bounds u (pos i) ≡ ok (i * u.chunk_size, size))
      × (bytes_below u i ≡ i * u.chunk_size)
      × (1 ≤ size)
      × (size ≤ u.chunk_size)
      × (i * u.chunk_size + size ≤ u.total_size)
chunk_bounds-tiles u i p lt =
    let inside = below_count u.total_size u.chunk_size i p.chunk_pos (omega (arith, p.count)) in
    (
      min u.chunk_size (u.total_size - i * u.chunk_size),
      chunk_bounds-planned u i p lt,
      omega (arith, bytes_below-min u i p (omega arith)),
      omega (arith, p.chunk_pos),
      omega arith,
      omega arith,
    )

-- Together the chunks of an upload hold exactly its bytes.
pub bytes_below-total : (u : Upload) → IsPlanned u → bytes_below u u.total_chunks ≡ u.total_size
bytes_below-total u p =
    let reach =
      above_count u.total_size u.chunk_size u.total_chunks p.chunk_pos (omega (arith, p.count)) in
    omega (arith, bytes_below-min u u.total_chunks p (omega arith))

-- Only an index below the chunk count has a chunk: what `chunkBounds` lets through is not negative,
-- is below the chunk count, and comes with the exact offset.
pub chunk_bounds-ok :
    (u : Upload) (z : ℤ) (offset size : ℕ)
    → IsPlanned u
    → chunk_bounds u z ≡ ok (offset, size)
    → (i : ℕ) × (z ≡ pos i) × (i < u.total_chunks) × (offset ≡ i * u.chunk_size)
chunk_bounds-ok u (negsuc n) offset size p h = absurd (unfold chunk_bounds in (cc))
chunk_bounds-ok u (pos i) offset size p h = elim (Bool-cases (ltb i u.total_chunks)) [
  | inl lt ↦ (i, refl, ltb→lt i u.total_chunks lt, ground (arith, chunk_bounds-planned u i p))
  | inr ge ↦ absurd (ground (arith, chunk_bounds-outside u i))
]
