-- ===== src/Prelude/Integers.antt =====
-- Whole numbers over the native naturals.
use Prim.Native.Nat.{ℕ}

pub data ℤ : Type 0 where
  pos : ℕ → ℤ
  -- `negsuc n` is below zero by n + 1.
  negsuc : ℕ → ℤ
