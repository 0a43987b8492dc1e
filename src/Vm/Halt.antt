-- ===== src/Vm/Halt.antt =====
-- Runs that meet no jump.
use generic_ebpf.Base.{
  ℕ, zero, suc, ◌+◌, ◌*◌, ◌^◌, ◌<◌, ◌≤◌, ◌≡◌, ◌≢◌, refl, arith, Bool, true, false, some, List,
  length, get_elem?, get_elem?-lt, u32, if◌then◌else◌, ◌⊎◌, inl, inr,
}
use generic_ebpf.Isa.{Inst, Op, decode}
use generic_ebpf.Vm.{Host, Memory, State, Outcome, next, exited, invalid, fault}
use generic_ebpf.Vm.Step.{fetch, step, run_from, start, ebpf_prog_run}
use generic_ebpf.Vm.Fetch.{step-next}
use generic_ebpf.Vm.Flow.{is_jump, is_lddw, exec_flow}

-- No instruction of the program is one of the jumps.
abbrev pub IsJumpFree : List Inst → Type 0
IsJumpFree prog =
    (k : ℕ) (i : Inst) (o : Op)
    → get_elem? prog k ≡ some i
    → decode i.opcode ≡ some o
    → is_jump o ≡ false

module _ (host : Host) (prog : List Inst) where
  -- One round over an instruction that is no jump.
  step_flow :
      (s s' : State)
      → IsJumpFree prog
      → step host prog s ≡ next s'
      → (s.inst + s.pc < length prog)
        × (s'.inst ≡ s.inst + s.pc)
        × ((s'.pc ≡ u32 (s.pc + 1)) ⊎ (s'.pc ≡ u32 (u32 (s.pc + 1) + 1)))
  unfolding fetch
  step_flow s s' free h =
      let (i, o, e, d, run) = step-next host prog s s' h in
      let (at, pc) = exec_flow host prog o i (fetch s) s' (free _ i o e d) run in
      (get_elem?-lt prog (s.inst + s.pc) e, at, either (is_lddw o) pc)
    where
      either :
          (b : Bool)
          → s'.pc ≡ (if b then u32 (u32 (s.pc + 1) + 1) else u32 (s.pc + 1))
          → (s'.pc ≡ u32 (s.pc + 1)) ⊎ (s'.pc ≡ u32 (u32 (s.pc + 1) + 1))
      either true e = inr e
      either false e = inl e

  -- The run goes on behind a round only with a program counter that has grown, so the instruction
  -- pointer leaves the program in the end.
  module _ (free : IsJumpFree prog) (short : length prog ≤ 2 ^ 30) where
    abbrev Ends : ℕ → State → Type 0
    Ends fuel s =
        (r : Outcome) × (run_from host fuel prog s ≡ some r) × ((s' : State) → r ≢ next s')

    -- One round more.
    ends_after :
        (fuel : ℕ) (s : State) (o : Outcome)
        → step host prog s ≡ o
        → ((s' : State) → step host prog s ≡ next s' → Ends fuel s')
        → Ends (suc fuel) s
    unfolding run_from
    ends_after fuel s (next s') e rest =
        let (r, run, ended) = rest s' e in (r, rw (run_from, e) run, ended)
    ends_after fuel s (exited v) e rest = (exited v, rw (run_from, e) refl, λ s' h. cc)
    ends_after fuel s invalid e rest = (invalid, rw (run_from, e) refl, λ s' h. cc)
    ends_after fuel s fault e rest = (fault, rw (run_from, e) refl, λ s' h. cc)

    run_ends :
        (fuel : ℕ) (s : State)
        → 0 < s.pc
        → s.pc ≤ 2 * s.inst + 2
        → length prog < fuel + (s.inst + s.pc)
        → 0 < fuel
        → Ends fuel s
    run_ends zero s pos low enough some_fuel = absurd (omega arith)
    run_ends (suc fuel) s pos low enough some_fuel =
        ends_after fuel s (step host prog s) refl λ s' e.
          let (inside, at, pc) = step_flow s s' free e in
          run_ends fuel s' (omega arith) (omega arith) (omega arith) (omega arith)

    -- A program of at most 2 ^ 30 instructions and no jump comes to an exit or an error within
    -- `length prog + 2` rounds, whatever the context, the memory and the contents of the registers.
    pub ebpf_prog_run_ends :
        (ctx stack : ℕ) (garbage : List ℕ) (m : Memory)
        → (r : Outcome) × (ebpf_prog_run host (length prog + 2) ctx stack garbage m prog ≡ some r)
          × ((s' : State) → r ≢ next s')
    unfolding ebpf_prog_run
    ebpf_prog_run_ends ctx stack garbage m =
        let s = start host ctx stack garbage m in
        let (r, run, ended) = ends_after (length prog + 1) s (step host prog s) refl λ s' e.
          let (inside, at, pc) = step_flow s s' free e in
          run_ends (length prog + 1) s' (omega arith) (omega arith) (omega arith) (omega arith) in
        (r, rw two_more run, ended)
      where
        two_more : length prog + 2 ≡ suc (length prog + 1)
        two_more = omega arith
