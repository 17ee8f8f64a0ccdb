-- ===== src/Common/Ints.antt =====
-- Go's signed `int` and `time.Duration`, where the sign matters.
use Prim.Native.Nat.{ℕ}
use devengine.Common.Tests.{ltb, if◌then◌else◌}

-- `negsuc n` is -(n + 1).
pub data ℤ : Type 0 where
  pos : ℕ → ℤ
  negsuc : ℕ → ℤ

-- `if v > 0 { return v }; return fallback`
abbrev pub positive_or : ℤ → ℕ → ℕ
positive_or (pos n) fallback = if ltb 0 n then n else fallback
positive_or (negsuc n) fallback = fallback
