-- ===== src/Prelude/Int.antt =====
-- Signed integers over the native numbers; `negsuc n` is -(n + 1).
use ai_channel.Prelude.Tests.{leb}
use Prim.Native.Nat.{ℕ}
use mathlib.Core.Bool.{Bool, true}

pub data ℤ : Type 0 where
  pos : ℕ → ℤ
  negsuc : ℕ → ℤ

-- `a <= b` for a natural number `b`
abbrev pub at_most : ℤ → ℕ → Bool
at_most (pos n) b = leb n b
at_most (negsuc n) b = true
