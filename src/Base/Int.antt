-- ===== src/Base/Int.antt =====
-- Signed integers over the native numbers, under the library's names.
use psprism.Base.Tests.{leb, if◌then◌else◌}
use Prim.Native.Nat.{ℕ, suc, ◌+◌, ◌-◌}

-- `negsuc n` is -(n + 1).
pub data ℤ : Type 0 where
  pos : ℕ → ℤ
  negsuc : ℕ → ℤ

-- a - b, as an integer.
abbrev pub sub_ℕ : ℕ → ℕ → ℤ
sub_ℕ a b = if leb b a then pos (a - b) else negsuc (b - a - 1)

-- a + d for a number a and an integer d.
abbrev pub add_ℕ : ℕ → ℤ → ℤ
add_ℕ a (pos d) = pos (a + d)
add_ℕ a (negsuc m) = sub_ℕ a (suc m)
