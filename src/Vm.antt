-- ===== src/Vm.antt =====
-- sys/dev/ebpf/ebpf_interpreter.c: `ebpf_prog_run`. This file has the machine and the value that
-- each class of instructions computes; `Vm.Step` has the loop.
-- Undefined behaviour of C (a division by zero, a shift by the width or more, a register or an
-- instruction outside of its array, an access to memory that is not mapped) is `none` or `fault`.
pub mod Step
pub mod Narrow
pub mod Alu
pub mod Fetch
pub mod Flow
pub mod Halt
pub mod Visits
pub mod Load
use generic_ebpf.Base.{
  ℕ, zero, suc, ◌+◌, ◌-◌, ◌*◌, ◌/◌, ◌%◌, ◌^◌, ◌<◌, ◌≡◌, Bool, not, ◌||◌, Option, none, some, List,
  [], ◌∷◌, ◌==◌, ltb, leb, bit_and, bit_or, bit_xor, u16, u32, u64, sub32, sub64, sext16_32,
  sext16_64, sext32_64, slt64, sle64, if◌then◌else◌, get_elem?, set, ◌>>=◌,
}
use generic_ebpf.Isa.{
  Inst, Src, imm, reg, AluOp, add, sub, mul, div, or, and, lsh, rsh, modulo, xor, mov, arsh, JmpOp,
  jeq, jgt, jge, jset, jne, jlt, jle, jsgt, jsge, jslt, jsle, Size, byte, half, word, double,
}

-- The byte at each address of the process, `none` where nothing is mapped.
abbrev pub Memory : Type 0
Memory = ℕ → Option ℕ

-- What the interpreter takes from its host: the byte-order macros `htole16` … `htobe64`, at the
-- width in bits, which give a number of that width, and the helper functions of the environment's
-- configuration (`none` for a NULL pointer), which may read and write memory.
pub record Host : Type 0 where
  pub htole : ℕ → ℕ → ℕ
  pub htobe : ℕ → ℕ → ℕ
  pub htole_fits : (w x : ℕ) → htole w x < 2 ^ w
  pub htobe_fits : (w x : ℕ) → htobe w x < 2 ^ w
  pub helper_types : List (Option (ℕ → ℕ → ℕ → ℕ → ℕ → Memory → Option (ℕ × Memory)))

-- The local variables of `ebpf_prog_run`. `inst` is the index in the program of the instruction
-- that was fetched last.
pub record State : Type 0 where
  pub pc : ℕ
  pub inst : ℕ
  pub reg_file : List ℕ
  pub memory : Memory

-- The effect of one round of the loop.
pub data Outcome : Type 0 where
  next : State → Outcome
  exited : ℕ → Outcome
  invalid fault : Outcome

-- Memory, the least significant byte first. A store wants its bytes mapped.
unfoldable pub load : ℕ → Memory → ℕ → Option ℕ
load zero m a = some 0
load (suc n) m a = m a >>= λ b. load n m (a + 1) >>= λ r. some (b % 256 + 256 * r)

unfoldable pub put_byte : Memory → ℕ → ℕ → Memory
put_byte m a v = λ q. if a == q then some (v % 256) else m q

unfoldable pub store : ℕ → Memory → ℕ → ℕ → Option Memory
unfolding put_byte
store zero m a v = some m
store (suc n) m a v = m a >>= λ b. store n (put_byte m a v) (a + 1) (v / 256)

unfoldable pub width : Size → ℕ
width byte = 1
width half = 2
width word = 4
width double = 8

-- The second operand: `(uint32_t)` of a register or of `imm`, and the 64-bit one, where `imm` is
-- sign-extended.
unfoldable pub operand32 : Inst → List ℕ → Src → Option ℕ
operand32 i regs reg = get_elem? regs i.src >>= λ s. some (u32 s)
operand32 i regs imm = some (u32 i.imm)

unfoldable pub operand64 : Inst → List ℕ → Src → Option ℕ
operand64 i regs reg = get_elem? regs i.src
operand64 i regs imm = some (sext32_64 i.imm)

-- `EBPF_OP_ADD_REG` … `EBPF_OP_ARSH_IMM` at `d`, the low half of the destination, and `s`.
unfoldable pub alu32 : AluOp → ℕ → ℕ → Option ℕ
alu32 add d s = some (u32 (d + s))
alu32 sub d s = some (sub32 d s)
alu32 mul d s = some (u32 (d * s))
alu32 div d s = if s == 0 then none else some (d / s)
alu32 or d s = some (bit_or d s)
alu32 and d s = some (bit_and d s)
alu32 lsh d s = if ltb s 32 then some (u32 (d * 2 ^ s)) else none
alu32 rsh d s = if ltb s 32 then some (d / 2 ^ s) else none
alu32 modulo d s = if s == 0 then none else some (d % s)
alu32 xor d s = some (bit_xor d s)
alu32 mov d s = some s
alu32 arsh d s = if ltb s 32 then some (d / 2 ^ s) else none

-- `EBPF_OP_ADD64_REG` … `EBPF_OP_ARSH64_IMM`. The code of `EBPF_OP_MOV64_*` adds.
unfoldable pub alu64_value : AluOp → ℕ → ℕ → Option ℕ
alu64_value add d s = some (u64 (d + s))
alu64_value sub d s = some (sub64 d s)
alu64_value mul d s = some (u64 (d * s))
alu64_value div d s = if s == 0 then none else some (d / s)
alu64_value or d s = some (bit_or d s)
alu64_value and d s = some (bit_and d s)
alu64_value lsh d s = if ltb s 64 then some (u64 (d * 2 ^ s)) else none
alu64_value rsh d s = if ltb s 64 then some (d / 2 ^ s) else none
alu64_value modulo d s = if s == 0 then none else some (d % s)
alu64_value xor d s = some (bit_xor d s)
alu64_value mov d s = some (u64 (d + s))
alu64_value arsh d s = if ltb s 64 then some (d / 2 ^ s) else none

-- `EBPF_OP_LE` and `EBPF_OP_BE` convert at these widths, and ignore any other.
unfoldable pub swaps : ℕ → Bool
swaps w = w == 16 || w == 32 || w == 64

unfoldable pub swapped : (ℕ → ℕ → ℕ) → ℕ → ℕ → ℕ
swapped hto w x = if w == 16 then hto 16 (u16 x) else if w == 32 then hto 32 (u32 x) else hto 64 x

-- The condition of a jump on `d` and `s`.
unfoldable pub taken : JmpOp → ℕ → ℕ → Bool
taken jeq d s = d == s
taken jgt d s = ltb s d
taken jge d s = leb s d
taken jset d s = not (bit_and d s == 0)
taken jne d s = not (d == s)
taken jlt d s = ltb d s
taken jle d s = leb d s
taken jsgt d s = slt64 s d
taken jsge d s = sle64 s d
taken jslt d s = slt64 d s
taken jsle d s = sle64 d s
