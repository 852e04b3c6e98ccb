-- ===== src/Base/Int.antt =====
-- Signed numbers as they arrive in a request: an `int64` is not negative, or it is.
use Prim.Native.Nat.{ℕ}

-- `negsuc n` is -(n + 1).
pub data ℤ : Type 0 where
  pos : ℕ → ℤ
  negsuc : ℕ → ℤ
