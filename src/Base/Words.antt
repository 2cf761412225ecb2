-- ===== src/Base/Words.antt =====
-- Sums and differences of 64-bit words, which wrap, and signed numbers.
use Prim.Native.Nat.{ℕ, ◌+◌, ◌-◌, ◌%◌, ◌^◌}

abbrev pub add64 : ℕ → ℕ → ℕ
add64 a b = (a + b) % 2 ^ 64

abbrev pub sub64 : ℕ → ℕ → ℕ
sub64 a b = (a + 2 ^ 64 - b) % 2 ^ 64

pub data ℤ : Type 0 where
  pos negsuc : ℕ → ℤ
