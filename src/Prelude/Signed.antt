-- ===== src/Prelude/Signed.antt =====
-- Signed machine integers, with native numbers inside.
use Prim.Native.Nat.{ℕ}

-- A signed number: `pos n` is n, and `negsuc n` is -1 - n.
pub data ℤ : Type 0 where
  pos negsuc : ℕ → ℤ
