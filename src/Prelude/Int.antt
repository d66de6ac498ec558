-- ===== src/Prelude/Int.antt =====
-- Signed integers over the native numbers: the differences of two instants.
use Prim.Native.Nat.{ℕ, suc, ◌-◌, ◌/◌}
use for_visibility.Prelude.Tests.{leb, if◌then◌else◌}

-- `negsuc n` is -(n + 1).
pub data ℤ : Type 0 where
  pos : ℕ → ℤ
  negsuc : ℕ → ℤ

-- a - b, as an integer
unfoldable pub sub_ℕ : ℕ → ℕ → ℤ
sub_ℕ a b = if leb b a then pos (a - b) else negsuc (b - a - 1)

-- division by a positive number, rounded towards 0 as Go's `/`
unfoldable pub quot_ℤ : ℤ → ℕ → ℤ
quot_ℤ (pos n) k = pos (n / k)
quot_ℤ (negsuc n) k = sub_ℕ 0 (suc n / k)
