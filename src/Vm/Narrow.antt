-- ===== src/Vm/Narrow.antt =====
-- The 32-bit instructions clear the upper half of the register that they write.
use mathlib.Core.Path.{subst}
use mathlib.Core.Option.{some-injective}
use generic_ebpf.Base.{
  ℕ, ◌^◌, ◌<◌, ◌≡◌, ◌≢◌, refl, arith, some, u32, get_elem?, get_elem?-lt, get_elem?-set_self,
  get_elem?-set_ne, bind-eq-some,
}
use generic_ebpf.Base.Bits.{or-lt, and-lt, xor-lt}
use generic_ebpf.Isa.{Inst, Src, imm, reg, AluOp, add, or, and, xor}
use generic_ebpf.Vm.{State, operand32, alu32}
use generic_ebpf.Vm.Step.{set_reg, exec_alu}

-- A 32-bit operation gives a 32-bit number.
alu32-lt : (o : AluOp) (d x v : ℕ) → d < 2 ^ 32 → x < 2 ^ 32 → alu32 o d x ≡ some v → v < 2 ^ 32
unfolding alu32
alu32-lt add d x v h g e = ground arith
alu32-lt or d x v h g e = ground (arith, or-lt 32 d x h g)
alu32-lt and d x v h g e = ground (arith, and-lt 32 d x h g)
alu32-lt xor d x v h g e = ground (arith, xor-lt 32 d x h g)
alu32-lt _ d x v h g e = ground arith

operand32-lt :
    (i : Inst) (s : State) (src : Src) (x : ℕ) → operand32 i s.reg_file src ≡ some x → x < 2 ^ 32
unfolding operand32
operand32-lt i s imm x h = ground arith
operand32-lt i s reg x h = ground arith

-- A register was written with a number of 32 bits, and nothing else was changed.
pub record Narrow (s : State) (dst : ℕ) (s' : State) : Type 0 where
  pub written : (v : ℕ) × (get_elem? s'.reg_file dst ≡ some v) × (v < 2 ^ 32)
  pub others : (r : ℕ) → dst ≢ r → get_elem? s'.reg_file r ≡ get_elem? s.reg_file r
  pub pc : s'.pc ≡ s.pc
  pub inst : s'.inst ≡ s.inst
  pub memory : s'.memory ≡ s.memory

set_reg-Narrow : (s s' : State) (r v : ℕ) → v < 2 ^ 32 → set_reg s r v ≡ some s' → Narrow s r s'
unfolding set_reg
set_reg-Narrow s s' r v small h =
    let (old, e, q) = bind-eq-some (get_elem? s.reg_file r) _ h in
    subst (Narrow s r) (some-injective _ _ q) (record {
      written = (v, get_elem?-set_self s.reg_file r v (get_elem?-lt s.reg_file r e), small);
      others = λ k ne. get_elem?-set_ne s.reg_file r k v ne;
      pc = refl;
      inst = refl;
      memory = refl;
    })

-- A 32-bit arithmetic instruction that is executed, whatever the registers held before, leaves a
-- number below 2 ^ 32 in its destination, and the other registers, the memory, the program counter
-- and the instruction pointer as they were.
pub exec_alu-Narrow :
    (o : AluOp) (src : Src) (i : Inst) (s s' : State)
    → exec_alu o src i s ≡ some s'
    → Narrow s i.dst s'
unfolding exec_alu
exec_alu-Narrow o src i s s' h =
    let (d, _, h₁) = bind-eq-some (get_elem? s.reg_file i.dst) _ h in
    let (x, e, h₂) = bind-eq-some (operand32 i s.reg_file src) _ h₁ in
    let (v, f, h₃) = bind-eq-some (alu32 o (u32 d) x) _ h₂ in
    set_reg-Narrow s s' i.dst v (alu32-lt o (u32 d) x v (omega arith) (operand32-lt i s src x e) f)
      h₃
