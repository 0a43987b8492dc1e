-- ===== src/Vm/Flow.antt =====
-- What each instruction does to the program counter and to the instruction pointer.
use mathlib.Core.Option.{some-injective}
use mathlib.Core.Path.{subst}
use generic_ebpf.Base.{
  ℕ, ◌+◌, ◌≡◌, refl, sym, ◌∙◌, ap, Bool, true, false, some, List, get_elem?, set, bind-eq-some, u32,
  u64, sub32, sub64, sext32_64, inl, inr, Bool-cases, if◌then◌else◌,
}
use generic_ebpf.Isa.{
  Inst, Src, AluOp, Size, Op, alu, alu64, neg, neg64, to_le, to_be, ja, call, exit, lddw, jmp, ldx,
  st, stx,
}
use generic_ebpf.Vm.{
  Host, State, next, Memory, load, store, width, operand32, operand64, alu32, alu64_value, swaps,
  swapped,
}
use generic_ebpf.Vm.Fetch.{exit_stops, or_fault-next}
use generic_ebpf.Vm.Step.{
  set_reg, address, exec_alu, exec_alu64, exec_ldx, exec_st, exec_stx, wide_imm, exec_lddw,
  exec_call, exec_swap, exec,
}

-- The instructions that add `offset` to the program counter.
unfoldable pub is_jump : Op → Bool
is_jump ja = true
is_jump (jmp o src) = true
is_jump _ = false

unfoldable pub is_lddw : Op → Bool
is_lddw lddw = true
is_lddw _ = false

-- Neither the program counter nor the instruction pointer moved.
pub record Keeps (s s' : State) : Type 0 where
  pub pc : s'.pc ≡ s.pc
  pub inst : s'.inst ≡ s.inst

set_reg-Keeps : (s s' : State) (r v : ℕ) → set_reg s r v ≡ some s' → Keeps s s'
unfolding set_reg
set_reg-Keeps s s' r v h =
    let (_, _, q) =
      bind-eq-some (get_elem? s.reg_file r) (λ _. some (record s { reg_file = set s.reg_file r v }))
        h in
    subst (Keeps s) (some-injective _ _ q) (record { pc = refl; inst = refl })

memory-Keeps : (s : State) (m : Memory) → Keeps s (record s { memory = m })
memory-Keeps s m = record { pc = refl; inst = refl }

module _ (i : Inst) (s s' : State) where
  exec_alu-Keeps : (o : AluOp) (src : Src) → exec_alu o src i s ≡ some s' → Keeps s s'
  unfolding exec_alu
  exec_alu-Keeps o src h =
      let (d, _, h₁) = bind-eq-some (get_elem? s.reg_file i.dst) _ h in
      let (x, _, h₂) = bind-eq-some (operand32 i s.reg_file src) _ h₁ in
      let (v, _, h₃) = bind-eq-some (alu32 o (u32 d) x) _ h₂ in set_reg-Keeps s s' i.dst v h₃

  exec_alu64-Keeps : (o : AluOp) (src : Src) → exec_alu64 o src i s ≡ some s' → Keeps s s'
  unfolding exec_alu64
  exec_alu64-Keeps o src h =
      let (d, _, h₁) = bind-eq-some (get_elem? s.reg_file i.dst) _ h in
      let (x, _, h₂) = bind-eq-some (operand64 i s.reg_file src) _ h₁ in
      let (v, _, h₃) = bind-eq-some (alu64_value o d x) _ h₂ in set_reg-Keeps s s' i.dst v h₃

  exec_ldx-Keeps : (z : Size) → exec_ldx z i s ≡ some s' → Keeps s s'
  unfolding exec_ldx
  exec_ldx-Keeps z h =
      let (a, _, h₁) = bind-eq-some (address i.src i s) _ h in
      let (v, _, h₂) = bind-eq-some (load (width z) s.memory a) _ h₁ in
      set_reg-Keeps s s' i.dst v h₂

  exec_st-Keeps : (z : Size) → exec_st z i s ≡ some s' → Keeps s s'
  unfolding exec_st
  exec_st-Keeps z h =
      let (a, _, h₁) = bind-eq-some (address i.dst i s) _ h in
      let (m, _, h₂) = bind-eq-some (store (width z) s.memory a (sext32_64 i.imm)) _ h₁ in
      subst (Keeps s) (some-injective _ _ h₂) (memory-Keeps s m)

  exec_stx-Keeps : (z : Size) → exec_stx z i s ≡ some s' → Keeps s s'
  unfolding exec_stx
  exec_stx-Keeps z h =
      let (a, _, h₁) = bind-eq-some (address i.dst i s) _ h in
      let (v, _, h₂) = bind-eq-some (get_elem? s.reg_file i.src) _ h₁ in
      let (m, _, h₃) = bind-eq-some (store (width z) s.memory a v) _ h₂ in
      subst (Keeps s) (some-injective _ _ h₃) (memory-Keeps s m)

  exec_lddw_moves :
      (prog : List Inst)
      → exec_lddw prog i s ≡ some s'
      → (s'.pc ≡ u32 (s.pc + 1)) × (s'.inst ≡ s.inst)
  unfolding exec_lddw
  exec_lddw_moves prog h =
      let (j, _, h₁) = bind-eq-some (get_elem? prog (s.inst + 1)) _ h in
      let (t, e, h₂) = bind-eq-some (set_reg s i.dst (wide_imm i j)) _ h₁ in
      let k = set_reg-Keeps s t i.dst (wide_imm i j) e in
      let q = some-injective _ _ h₂ in
      (
        sym (ap (λ (r : State). r.pc) q) ∙ ap (λ (n : ℕ). u32 (n + 1)) k.pc,
        sym (ap (λ (r : State). r.inst) q) ∙ k.inst,
      )

  exec_swap-Keeps : (host : Host) (hto : ℕ → ℕ → ℕ) → exec_swap host hto i s ≡ some s' → Keeps s s'
  unfolding exec_swap
  exec_swap-Keeps host hto h = elim (Bool-cases (swaps i.imm)) [
    | inl t ↦
        let (d, _, h₁) =
          bind-eq-some (get_elem? s.reg_file i.dst) (λ d. set_reg s i.dst (swapped hto i.imm d))
            (rw t at h) in
        set_reg-Keeps s s' i.dst (swapped hto i.imm d) h₁
    | inr t ↦ subst (Keeps s) (some-injective _ _ (rw t at h)) (record { pc = refl; inst = refl })
  ]

  exec_call-Keeps : (host : Host) → exec_call host i s ≡ some s' → Keeps s s'
  unfolding exec_call
  exec_call-Keeps host h =
      let (p, _, h₁) = bind-eq-some (get_elem? host.helper_types i.imm) _ h in
      let (fn, _, h₂) = bind-eq-some p _ h₁ in
      let (r₁, _, h₃) = bind-eq-some (get_elem? s.reg_file 1) _ h₂ in
      let (r₂, _, h₄) = bind-eq-some (get_elem? s.reg_file 2) _ h₃ in
      let (r₃, _, h₅) = bind-eq-some (get_elem? s.reg_file 3) _ h₄ in
      let (r₄, _, h₆) = bind-eq-some (get_elem? s.reg_file 4) _ h₅ in
      let (r₅, _, h₇) = bind-eq-some (get_elem? s.reg_file 5) _ h₆ in
      let (a, _, h₈) = bind-eq-some (fn r₁ r₂ r₃ r₄ r₅ s.memory) _ h₇ in
      let k = set_reg-Keeps (record s { memory = a.1 }) s' 0 (u64 a.0) h₈ in
      record { pc = k.pc; inst = k.inst }

-- An instruction that is no jump leaves the instruction pointer, and steps the program counter
-- over the second half of an `EBPF_OP_LDDW` only.
pub exec_flow :
    (host : Host) (prog : List Inst) (o : Op) (i : Inst) (s s' : State)
    → is_jump o ≡ false
    → exec host prog o i s ≡ next s'
    → (s'.inst ≡ s.inst) × (s'.pc ≡ (if is_lddw o then u32 (s.pc + 1) else s.pc))
unfolding exec is_jump is_lddw
exec_flow host prog (alu o src) i s s' n h =
    let k = exec_alu-Keeps i s s' o src (or_fault-next _ s' h) in (k.inst, k.pc)
exec_flow host prog (alu64 o src) i s s' n h =
    let k = exec_alu64-Keeps i s s' o src (or_fault-next _ s' h) in (k.inst, k.pc)
exec_flow host prog neg i s s' n h =
    let k = set_reg-Keeps s s' i.dst (sub32 0 i.imm) (or_fault-next _ s' h) in (k.inst, k.pc)
exec_flow host prog neg64 i s s' n h =
    let (d, _, h₁) = bind-eq-some (get_elem? s.reg_file i.dst) _ (or_fault-next _ s' h) in
    let k = set_reg-Keeps s s' i.dst (sub64 d (sext32_64 i.imm)) h₁ in (k.inst, k.pc)
exec_flow host prog to_le i s s' n h =
    let k = exec_swap-Keeps i s s' host host.htole (or_fault-next _ s' h) in (k.inst, k.pc)
exec_flow host prog to_be i s s' n h =
    let k = exec_swap-Keeps i s s' host host.htobe (or_fault-next _ s' h) in (k.inst, k.pc)
exec_flow host prog ja i s s' n h = absurd (cc)
exec_flow host prog (jmp o src) i s s' n h = absurd (cc)
exec_flow host prog call i s s' n h =
    let k = exec_call-Keeps i s s' host (or_fault-next _ s' h) in (k.inst, k.pc)
exec_flow host prog exit i s s' n h = absurd (exit_stops (get_elem? s.reg_file 0) s' h)
exec_flow host prog lddw i s s' n h =
    let k = exec_lddw_moves i s s' prog (or_fault-next _ s' h) in (k.1, k.0)
exec_flow host prog (ldx z) i s s' n h =
    let k = exec_ldx-Keeps i s s' z (or_fault-next _ s' h) in (k.inst, k.pc)
exec_flow host prog (st z) i s s' n h =
    let k = exec_st-Keeps i s s' z (or_fault-next _ s' h) in (k.inst, k.pc)
exec_flow host prog (stx z) i s s' n h =
    let k = exec_stx-Keeps i s s' z (or_fault-next _ s' h) in (k.inst, k.pc)
