-- ===== src/Prelude/Words.antt =====
-- UINT64 and UINTN: unsigned words of 64 bits.
use Prim.Native.Nat.{ℕ, ◌+◌, ◌-◌, ◌%◌}

-- 2 ^ 64
abbrev pub u64_mod : ℕ
u64_mod = 0x1_0000_0000_0000_0000

-- a - b, which wraps around below 0.
abbrev pub sub_64 : ℕ → ℕ → ℕ
sub_64 a b = (a + u64_mod - b) % u64_mod
