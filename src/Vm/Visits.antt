-- ===== src/Vm/Visits.antt =====
-- The instructions that a straight run visits.
use generic_ebpf.Base.{
  ℕ, zero, suc, ◌+◌, ◌*◌, ◌^◌, ◌<◌, ◌≡◌, refl, ◌∙◌, ap, arith, false, some, List, get_elem?, u32,
  if◌then◌else◌,
}
use generic_ebpf.Isa.{Inst, Op, decode}
use generic_ebpf.Vm.{Host, Memory, State, next}
use generic_ebpf.Vm.Step.{fetch, step, start}
use generic_ebpf.Vm.Fetch.{step-next}
use generic_ebpf.Vm.Flow.{is_jump, is_lddw, exec_flow}

-- Each instruction of the program that is an instruction at all is neither a jump nor the wide
-- load.
abbrev pub IsStraight : List Inst → Type 0
IsStraight prog =
    (k : ℕ) (i : Inst) (o : Op)
    → get_elem? prog k ≡ some i
    → decode i.opcode ≡ some o
    → (is_jump o ≡ false) × (is_lddw o ≡ false)

-- `n` rounds of the loop lead from the state `s` to another.
pub data Rounds (host : Host) (prog : List Inst) (s : State) : ℕ → State → Type 0 where
  here : Rounds host prog s zero s
  more :
      {n : ℕ} {t u : State}
      → Rounds host prog s n t
      → step host prog t ≡ next u
      → Rounds host prog s (suc n) u

module _ (host : Host) (prog : List Inst) (straight : IsStraight prog) where
  round :
      (t u : State) → step host prog t ≡ next u → (u.inst ≡ t.inst + t.pc) × (u.pc ≡ u32 (t.pc + 1))
  unfolding fetch
  round t u h =
      let (i, o, e, d, run) = step-next host prog t u h in
      let (jumps, wide) = straight _ i o e d in
      let (at, pc) = exec_flow host prog o i (fetch t) u jumps run in
      (at, pc ∙ ap (λ b. if b then u32 (u32 (t.pc + 1) + 1) else u32 (t.pc + 1)) wide)

  from_zero :
      {s₀ s : State} {n : ℕ}
      → s₀.pc ≡ 0
      → s₀.inst ≡ 0
      → n < 2 ^ 32
      → Rounds host prog s₀ n s
      → (s.pc ≡ n) × (2 * (s.inst + s.pc) ≡ n * (n + 1))
  from_zero p q small here = omega arith
  from_zero p q small (more {n} {t} {u} r e) =
      let (pc, twice) = from_zero p q (omega arith) r in
      let (at, pc') = round t u e in (omega arith, omega arith)

  -- After `n` rounds over a straight program the next round fetches the instruction of index
  -- n * (n + 1) / 2: the `n`-th triangular number, and not `n`.
  pub Rounds-triangular :
      (ctx stack : ℕ) (garbage : List ℕ) (m : Memory) (n : ℕ) (s : State)
      → n < 2 ^ 32
      → Rounds host prog (start host ctx stack garbage m) n s
      → (s.pc ≡ n) × (2 * (s.inst + s.pc) ≡ n * (n + 1))
  Rounds-triangular ctx stack garbage m n s small r = from_zero refl refl small r
