-- ===== src/Base/Int.antt =====
-- Signed integers. An `int64` is one in range.
use Prim.Native.Nat.{ℕ, ◌≤◌}

-- `negsuc n` is -(n + 1).
pub data ℤ : Type 0 where
  pos : ℕ → ℤ
  negsuc : ℕ → ℤ

abbrev pub int64_max : ℕ
int64_max = 9223372036854775807

-- The integers that an `int64` holds.
abbrev pub IsInt64 : ℤ → Type 0
IsInt64 (pos n) = n ≤ int64_max
IsInt64 (negsuc n) = n ≤ int64_max
