-- ===== src/Prelude/Numbers.antt =====
-- Signed integers over the native numbers, and floating-point numbers by their bits.
use Prim.Native.Nat.{ℕ}

-- `negsuc n` is -(n + 1).
pub data ℤ : Type 0 where
  pos negsuc : ℕ → ℤ

-- An `f64` is its 64 bits.
abbrev pub F64 : Type 0
F64 = ℕ
