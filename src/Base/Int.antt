-- ===== src/Base/Int.antt =====
-- C's `int` results, as far as the kernel tests them: a sign and a size.
use Prim.Native.Nat.{ℕ}
use mathlib.Core.Bool.{Bool, true, false}

-- `negsuc n` is -(n + 1).
pub data ℤ : Type 0 where
  pos : ℕ → ℤ
  negsuc : ℕ → ℤ

-- `x >= 0`
abbrev pub nonneg : ℤ → Bool
nonneg (pos _) = true
nonneg (negsuc _) = false
