-- ===== src/Util.antt =====
-- sys/dev/ebpf/ebpf_util.h: rounding sizes up, in 32 bits.
pub mod PowerOfTwo
use generic_ebpf.Base.{ℕ, ◌+◌, ◌*◌, ◌/◌, ◌^◌, bit_or, u32, sub32}

-- `ebpf_roundup` of a `uint32_t` to a multiple of `y`
unfoldable pub ebpf_roundup : ℕ → ℕ → ℕ
ebpf_roundup x y = u32 (u32 (x + sub32 y 1) / y * y)

-- `n |= n >> s`
unfoldable pub smear : ℕ → ℕ → ℕ
smear s n = bit_or n (n / 2 ^ s)

unfoldable pub ebpf_roundup_pow_of_two : ℕ → ℕ
unfolding smear
ebpf_roundup_pow_of_two n = u32 (smear 16 (smear 8 (smear 4 (smear 2 (smear 1 (sub32 n 1))))) + 1)
