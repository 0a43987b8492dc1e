-- ===== src/Base/Words.antt =====
-- The fixed-width integers of C. A value of w bits is a number below 2 ^ w; a signed one is kept
-- as its bit pattern (two's complement).
use Prim.Native.Nat.{ℕ, ◌+◌, ◌-◌, ◌%◌, ◌^◌}
use mathlib.Core.Bool.{Bool}
use generic_ebpf.Base.Tests.{ltb, leb, if◌then◌else◌}

abbrev pub u16 : ℕ → ℕ
u16 n = n % 2 ^ 16

abbrev pub u32 : ℕ → ℕ
u32 n = n % 2 ^ 32

abbrev pub u64 : ℕ → ℕ
u64 n = n % 2 ^ 64

-- `a - b` in w-bit arithmetic; 2 ^ w is added first since `-` on ℕ stops at 0.
abbrev pub sub32 : ℕ → ℕ → ℕ
sub32 a b = u32 (a + (2 ^ 32 - u32 b))

abbrev pub sub64 : ℕ → ℕ → ℕ
sub64 a b = u64 (a + (2 ^ 64 - u64 b))

-- The conversion of an `int16_t` or an `int32_t`, given as a bit pattern, to 32 or 64 bits.
abbrev pub sext16_32 : ℕ → ℕ
sext16_32 n = if ltb n (2 ^ 15) then n else n + (2 ^ 32 - 2 ^ 16)

abbrev pub sext16_64 : ℕ → ℕ
sext16_64 n = if ltb n (2 ^ 15) then n else n + (2 ^ 64 - 2 ^ 16)

abbrev pub sext32_64 : ℕ → ℕ
sext32_64 n = if ltb n (2 ^ 31) then n else n + (2 ^ 64 - 2 ^ 32)

-- `(int64_t)a < (int64_t)b` and `<=` on patterns: adding 2 ^ 63 turns the signed order into the
-- unsigned one.
abbrev pub biased64 : ℕ → ℕ
biased64 a = u64 (a + 2 ^ 63)

abbrev pub slt64 : ℕ → ℕ → Bool
slt64 a b = ltb (biased64 a) (biased64 b)

abbrev pub sle64 : ℕ → ℕ → Bool
sle64 a b = leb (biased64 a) (biased64 b)
