-- ===== src/Vm/Step.antt =====
-- The loop of `ebpf_prog_run` (sys/dev/ebpf/ebpf_interpreter.c): the cases of the `switch`, one
-- round, and the whole run.
use generic_ebpf.Base.{
  ℕ, zero, suc, ◌+◌, ◌*◌, ◌^◌, Option, none, some, List, bit_or, u32, u64, sub32, sub64, sext16_32,
  sext16_64, sext32_64, if◌then◌else◌, get_elem?, set, ◌>>=◌,
}
use generic_ebpf.Isa.{
  Inst, Src, AluOp, JmpOp, Size, Op, alu, alu64, neg, neg64, to_le, to_be, ja, call, exit, lddw,
  jmp, ldx, st, stx, decode,
}
use generic_ebpf.Vm.{
  Memory, Host, State, Outcome, next, exited, invalid, fault, load, store, width, operand32,
  operand64, alu32, alu64_value, swaps, swapped, taken,
}

-- An effect that may be undefined.
abbrev pub or_fault : Option State → Outcome
or_fault none = fault
or_fault (some s) = next s

-- `reg[r] = v`, out of the array if `r` is 11 or more.
unfoldable pub set_reg : State → ℕ → ℕ → Option State
set_reg s r v = get_elem? s.reg_file r >>= λ _. some (record s { reg_file = set s.reg_file r v })

-- `pc += inst->offset`
unfoldable pub jump : Inst → State → State
jump i s = record s { pc = u32 (s.pc + sext16_32 i.offset) }

unfoldable pub exec_alu : AluOp → Src → Inst → State → Option State
unfolding operand32 alu32 set_reg
exec_alu o src i s = get_elem? s.reg_file i.dst >>= λ d.
    operand32 i s.reg_file src >>= λ x. alu32 o (u32 d) x >>= λ v. set_reg s i.dst v

unfoldable pub exec_alu64 : AluOp → Src → Inst → State → Option State
unfolding operand64 alu64_value set_reg
exec_alu64 o src i s = get_elem? s.reg_file i.dst >>= λ d.
    operand64 i s.reg_file src >>= λ x. alu64_value o d x >>= λ v. set_reg s i.dst v

unfoldable pub exec_jmp : JmpOp → Src → Inst → State → Option State
unfolding operand64 taken jump
exec_jmp o src i s = get_elem? s.reg_file i.dst >>= λ d.
    operand64 i s.reg_file src >>= λ x. some (if taken o d x then jump i s else s)

-- `*(…)(uintptr_t)(reg[r] + inst->offset)`
unfoldable pub address : ℕ → Inst → State → Option ℕ
address r i s = get_elem? s.reg_file r >>= λ a. some (u64 (a + sext16_64 i.offset))

unfoldable pub exec_ldx : Size → Inst → State → Option State
unfolding address load width set_reg
exec_ldx z i s = address i.src i s >>= λ a. load (width z) s.memory a >>= λ v. set_reg s i.dst v

-- A store keeps the low bytes of the value. `(uint64_t)inst->imm` is sign-extended.
unfoldable pub exec_st : Size → Inst → State → Option State
unfolding address store width
exec_st z i s = address i.dst i s >>= λ a.
    store (width z) s.memory a (sext32_64 i.imm) >>= λ m. some (record s { memory = m })

unfoldable pub exec_stx : Size → Inst → State → Option State
unfolding address store width
exec_stx z i s = address i.dst i s >>= λ a. get_elem? s.reg_file i.src >>= λ v.
    store (width z) s.memory a v >>= λ m. some (record s { memory = m })

-- `(uint32_t)inst->imm | ((uint64_t)((inst + 1)->imm) << 32)`
unfoldable pub wide_imm : Inst → Inst → ℕ
wide_imm i j = bit_or (u32 i.imm) (u64 (sext32_64 j.imm * 2 ^ 32))

unfoldable pub exec_lddw : List Inst → Inst → State → Option State
unfolding wide_imm set_reg
exec_lddw prog i s = get_elem? prog (s.inst + 1) >>= λ j.
    set_reg s i.dst (wide_imm i j) >>= λ s'. some (record s' { pc = u32 (s'.pc + 1) })

-- `inst = inst + pc++`: the pointer moves on from where it was.
unfoldable pub fetch : State → State
fetch s = record s { inst = s.inst + s.pc; pc = u32 (s.pc + 1) }

module _ (host : Host) where
  open host use {htole, htobe, helper_types}

  unfoldable pub exec_call : Inst → State → Option State
  unfolding set_reg
  exec_call i s = get_elem? helper_types i.imm >>= λ p. p >>= λ fn. get_elem? s.reg_file 1 >>= λ r₁.
      get_elem? s.reg_file 2 >>= λ r₂. get_elem? s.reg_file 3 >>= λ r₃.
      get_elem? s.reg_file 4 >>= λ r₄. get_elem? s.reg_file 5 >>= λ r₅.
      fn r₁ r₂ r₃ r₄ r₅ s.memory >>= λ a. set_reg (record s { memory = a.1 }) 0 (u64 a.0)

  unfoldable pub exec_swap : (ℕ → ℕ → ℕ) → Inst → State → Option State
  unfolding swaps swapped set_reg
  exec_swap hto i s =
      if swaps i.imm
      then (get_elem? s.reg_file i.dst >>= λ d. set_reg s i.dst (swapped hto i.imm d))
      else some s

  -- The `switch`.
  unfoldable pub exec : List Inst → Op → Inst → State → Outcome
  unfolding exec_alu exec_alu64 exec_jmp exec_ldx exec_st exec_stx exec_lddw exec_call exec_swap
      jump set_reg
  exec prog (alu o src) i s = or_fault (exec_alu o src i s)
  exec prog (alu64 o src) i s = or_fault (exec_alu64 o src i s)
  exec prog neg i s = or_fault (set_reg s i.dst (sub32 0 i.imm))
  exec prog neg64 i s =
      or_fault (get_elem? s.reg_file i.dst >>= λ d. set_reg s i.dst (sub64 d (sext32_64 i.imm)))
  exec prog to_le i s = or_fault (exec_swap htole i s)
  exec prog to_be i s = or_fault (exec_swap htobe i s)
  exec prog ja i s = next (jump i s)
  exec prog (jmp o src) i s = or_fault (exec_jmp o src i s)
  exec prog call i s = or_fault (exec_call i s)
  exec prog exit i s = elim (get_elem? s.reg_file 0) [ none ↦ fault | some r ↦ exited r ]
  exec prog lddw i s = or_fault (exec_lddw prog i s)
  exec prog (ldx z) i s = or_fault (exec_ldx z i s)
  exec prog (st z) i s = or_fault (exec_st z i s)
  exec prog (stx z) i s = or_fault (exec_stx z i s)

  -- The `default` case reports the instruction and fails an assertion.
  unfoldable pub dispatch : List Inst → Inst → State → Outcome
  unfolding exec
  dispatch prog i s = elim (decode i.opcode) [ none ↦ invalid | some o ↦ exec prog o i s ]

  -- One round of the loop.
  unfoldable pub step : List Inst → State → Outcome
  unfolding fetch dispatch
  step prog s =
      let s' = fetch s in
      elim (get_elem? prog s'.inst) [ none ↦ fault | some i ↦ dispatch prog i s' ]

  -- `while (true)` for at most `fuel` rounds; `none` if it is not over by then.
  unfoldable pub run_from : ℕ → List Inst → State → Option Outcome
  unfolding step
  run_from zero prog s = none
  run_from (suc fuel) prog s = elim (step prog s) [
    | next s' ↦ run_from fuel prog s'
    | exited r ↦ some (exited r)
    | invalid ↦ some invalid
    | fault ↦ some fault
  ]

  -- `reg` and `stack` are not initialised: `garbage` is what the eleven registers hold, and the
  -- 512 bytes from the address `stack` on are some part of the memory.
  abbrev pub start : ℕ → ℕ → List ℕ → Memory → State
  start ctx stack garbage m = record {
    pc = 0;
    inst = 0;
    reg_file = set (set garbage 1 (u64 ctx)) 10 (u64 (stack + 512));
    memory = m;
  }

  unfoldable pub ebpf_prog_run : ℕ → ℕ → ℕ → List ℕ → Memory → List Inst → Option Outcome
  unfolding run_from
  ebpf_prog_run fuel ctx stack garbage m prog = run_from fuel prog (start ctx stack garbage m)
