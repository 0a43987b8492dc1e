-- ===== src/Vm/Alu.antt =====
-- What single instructions compute, against what their names say.
use generic_ebpf.Base.{
  ℕ, ◌+◌, ◌/◌, ◌^◌, ◌<◌, ◌≤◌, ◌≡◌, ◌⊎◌, ◌↔◌, arith, true, some, u64, sle64, slt64, lt→ltb,
}
use native.Mathlib.Nat.{pow-le-pow_right}
use generic_ebpf.Isa.{mov, arsh, jsgt, jsge, jslt, jsle}
use generic_ebpf.Vm.{alu64_value, taken}

-- EBPF_OP_MOV64 moves its operand only into a register that holds 0.
pub mov64_iff : (d s : ℕ) → d < 2 ^ 64 → s < 2 ^ 64 → (alu64_value mov d s ≡ some s) ↔ (d ≡ 0)
unfolding alu64_value
mov64_iff d s h g = (λ e. mov64_zero e, λ e. ground arith)
  where
    mov64_zero : some (u64 (d + s)) ≡ some s → d ≡ 0
    mov64_zero e = ground arith

-- EBPF_OP_ARSH64 makes a non-negative number of a negative one, at every count but 0.
pub arsh64_positive :
    (d s : ℕ)
    → 2 ^ 63 ≤ d
    → d < 2 ^ 64
    → 0 < s
    → s < 64
    → (v : ℕ) × (alu64_value arsh d s ≡ some v) × (v < 2 ^ 63)
unfolding alu64_value
arsh64_positive d s low high pos count =
    let two : 2 ≤ 2 ^ s = pow-le-pow_right (omega arith) pos in
    (d / 2 ^ s, rw (lt→ltb s 64 count), grind arith)

-- The number that a 64-bit pattern stands for is negative.
abbrev pub IsNegative : ℕ → Type 0
IsNegative a = 2 ^ 63 ≤ a

-- `a` stands for a smaller signed number than `b`: their signs differ, and `a` is the negative
-- one, or they agree and the patterns are in order.
abbrev pub SignedLt : ℕ → ℕ → Type 0
SignedLt a b =
    (IsNegative a × (b < 2 ^ 63))
    ⊎ ((a < b) × ((IsNegative a × IsNegative b) ⊎ ((a < 2 ^ 63) × (b < 2 ^ 63))))

slt64_iff : (a b : ℕ) → a < 2 ^ 64 → b < 2 ^ 64 → (slt64 a b ≡ true) ↔ SignedLt a b
slt64_iff a b h g = (λ e. ground arith, λ e. ground arith)

sle64_iff : (a b : ℕ) → a < 2 ^ 64 → b < 2 ^ 64 → (sle64 a b ≡ true) ↔ (¬ SignedLt b a)
sle64_iff a b h g = (λ e l. ground arith, λ e. not_lt e)
  where
    not_lt : ¬ SignedLt b a → sle64 a b ≡ true
    not_lt e = ground arith

-- The signed jumps compare the numbers that the two patterns stand for in two's complement.
pub taken_signed :
    (a b : ℕ)
    → a < 2 ^ 64
    → b < 2 ^ 64
    → ((taken jslt a b ≡ true) ↔ SignedLt a b)
      × ((taken jsgt a b ≡ true) ↔ SignedLt b a)
      × ((taken jsle a b ≡ true) ↔ (¬ SignedLt b a))
      × ((taken jsge a b ≡ true) ↔ (¬ SignedLt a b))
unfolding taken
taken_signed a b h g = (slt64_iff a b h g, slt64_iff b a g h, sle64_iff a b h g, sle64_iff b a g h)
