-- ===== src/Base/Integers.antt =====
-- Go's signed numbers, where a negative one can come in.
use Prim.Native.Nat.{ℕ}

-- `negsuc n` is -(n + 1).
pub data ℤ : Type 0 where
  pos negsuc : ℕ → ℤ
