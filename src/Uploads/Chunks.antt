-- ===== src/Uploads/Chunks.antt =====
-- The fixed-size chunks of an upload: `totalChunks`, `chunkBounds` and `allowedChunkSize` of
-- server/internal/uploads/service.go.
pub mod Tiling
use swa_drive.Base.{
  ℕ, ◌+◌, ◌-◌, ◌*◌, ◌/◌, ◌%◌, ◌^◌, ◌≡◌, refl, Bool, true, false, ◌||◌, Result, ok, err,
  invalid_upload, ltb, leb, ◌==◌, if◌then◌else◌,
}
use swa_drive.Base.Int.{ℤ, pos, negsuc}
use swa_drive.Uploads.Model.{Upload, mebibyte}

-- `math.MaxInt64`
abbrev pub max_int64 : ℕ
max_int64 = 9223372036854775807

-- The arguments are not negative where `Create` calls it.
unfoldable pub total_chunks : ℕ → ℕ → ℕ
total_chunks total_size chunk_size =
    if total_size == 0 || chunk_size == 0
    then 0
    else if total_size % chunk_size == 0
    then total_size / chunk_size
    else total_size / chunk_size + 1

-- The product is that of `int64`, which wraps.
unfoldable pub chunk_bounds : Upload → ℤ → Result (ℕ × ℕ)
chunk_bounds u (negsuc n) = err invalid_upload
chunk_bounds u (pos i) =
    if leb u.total_chunks i || u.chunk_size == 0 || ltb (max_int64 / u.chunk_size) i
    then err invalid_upload
    else (let offset = i * u.chunk_size % 2 ^ 64 in
        let remaining = u.total_size - offset in
        if remaining == 0
        then err invalid_upload
        else ok (offset, (if ltb remaining u.chunk_size then remaining else u.chunk_size)))

unfoldable pub allowed_chunk_size : ℤ → Bool
allowed_chunk_size (negsuc n) = false
allowed_chunk_size (pos c) =
    c == mebibyte
    || c == 2 * mebibyte
    || c == 4 * mebibyte
    || c == 8 * mebibyte
    || c == 16 * mebibyte
