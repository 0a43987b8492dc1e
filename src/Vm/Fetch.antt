-- ===== src/Vm/Fetch.antt =====
-- Which instruction each round fetches.
use generic_ebpf.Base.{ℕ, ◌+◌, ◌≡◌, refl, Option, some, none, List, get_elem?}
use generic_ebpf.Isa.{Inst, Op, decode}
use generic_ebpf.Vm.{Host, State, Outcome, next, exited, invalid, fault}
use generic_ebpf.Vm.Step.{or_fault, exec, fetch, dispatch, step}

-- An exit does not go on, and what may be undefined goes on only where it is defined.
pub exit_stops :
    (o : Option ℕ) (s' : State)
    → ◌≡◌ {A = Outcome} (elim o [ none ↦ fault | some r ↦ exited r ]) (next s')
    → ⊥
exit_stops none s' h = cc
exit_stops (some r) s' h = cc

pub or_fault-next : (o : Option State) (s' : State) → or_fault o ≡ next s' → o ≡ some s'
or_fault-next none s' h = absurd (cc)
or_fault-next (some s) s' h = cc

module _ (host : Host) (prog : List Inst) (s s' : State) where
  decoded :
      (o : Option Op) (i : Inst)
      → ◌≡◌ {A = Outcome}
          (elim o [ none ↦ invalid | some p ↦ exec host prog p i (fetch s) ])
          (next s')
      → (p : Op) × (o ≡ some p) × (exec host prog p i (fetch s) ≡ next s')
  decoded none i h = absurd (cc)
  decoded (some p) i h = (p, refl, h)

  fetched :
      (o : Option Inst)
      → ◌≡◌ {A = Outcome}
          (elim o [ none ↦ fault | some i ↦ dispatch host prog i (fetch s) ])
          (next s')
      → (i : Inst) × (o ≡ some i) × (dispatch host prog i (fetch s) ≡ next s')
  fetched none h = absurd (cc)
  fetched (some i) h = (i, refl, h)

  -- A round that goes on has fetched an instruction, decoded it and executed it.
  pub step-next :
      step host prog s ≡ next s'
      → (i : Inst) × (o : Op) × (get_elem? prog (s.inst + s.pc) ≡ some i)
        × (decode i.opcode ≡ some o)
        × (exec host prog o i (fetch s) ≡ next s')
  step-next h =
      let (i, e, h₁) = fetched (get_elem? prog (s.inst + s.pc)) (unfold step in h) in
      let (o, f, h₂) = decoded (decode i.opcode) i (unfold dispatch in h₁) in (i, o, e, f, h₂)
