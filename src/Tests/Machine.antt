-- ===== src/Tests/Machine.antt =====
-- Instructions and programs of the machine.
use mathlib.Core.Option.{some-injective}
use mathlib.Core.Path.{subst}
use native.Mathlib.Nat.{one-le-pow}
use generic_ebpf.Base.{
  ℕ, zero, suc, ◌+◌, ◌-◌, ◌*◌, ◌^◌, ◌%◌, ◌<◌, ◌≡◌, ◌≢◌, ◌↔◌, refl, sym, ◌∙◌, arith, true, false,
  if◌then◌else◌, some, List, [], ◌∷◌, get_elem?, set, replicate, u32,
}
use generic_ebpf.Isa.{
  Inst, imm, exit, add, mov, arsh, alu64, byte, decode, opcode_of, jslt, jsgt, jsle, jsge,
}
use generic_ebpf.Isa.Codes.{decode_iff}
use generic_ebpf.Vm.{Memory, Host, State, Outcome, next, alu64_value, taken, put_byte, width}
use generic_ebpf.Vm.Step.{
  exec, step, start, ebpf_prog_run, fetch, exec_alu, exec_stx, exec_ldx, address, set_reg,
}
use generic_ebpf.Vm.Flow.{is_jump, is_lddw, exec_flow}
use generic_ebpf.Vm.Narrow.{Narrow, exec_alu-Narrow}
use generic_ebpf.Base.{ap}
use generic_ebpf.Vm.Halt.{IsJumpFree, ebpf_prog_run_ends}
use generic_ebpf.Vm.Visits.{IsStraight, here, more, Rounds-triangular}
use generic_ebpf.Vm.Load.{exec_ldx-exec_stx}
use generic_ebpf.Vm.Alu.{SignedLt, mov64_iff, arsh64_positive, taken_signed}

cut_fits : (w x : ℕ) → x % 2 ^ w < 2 ^ w
cut_fits w x = let pos : 0 < 2 ^ w = one-le-pow w 2 (omega arith) in omega arith

-- a little-endian host without helpers, as far as the runs below need it
abbrev host : Host
host = record {
  htole = λ w x. x % 2 ^ w;
  htobe = λ w x. x % 2 ^ w;
  htole_fits = cut_fits;
  htobe_fits = cut_fits;
  helper_types = [];
}

-- r0 += 5, twice
abbrev plus_five : Inst
plus_five = record { opcode = 0x07; dst = 0; src = 0; offset = 0; imm = 5 }

abbrev prog : List Inst
prog = plus_five ∷ plus_five ∷ []

abbrev memory : Memory
memory = λ a. some 0

abbrev s₀ : State
s₀ = start host 1 4096 (replicate 11 0) memory

abbrev s₁ : State
s₁ = record { pc = 1; inst = 0; reg_file = set s₀.reg_file 0 5; memory = memory }

two_cases : (P : Inst → Type 0) → P plus_five → (k : ℕ) (i : Inst) → get_elem? prog k ≡ some i → P i
two_cases P p zero i e = subst P (some-injective _ _ e) p
two_cases P p (suc zero) i e = subst P (some-injective _ _ e) p
two_cases P p (suc (suc k)) i e = absurd (cc)

first_round : step host prog s₀ ≡ next s₁
unfolding step decode
first_round = refl

-- a register of more than 32 bits
abbrev high : State
high = record s₀ { reg_file = set s₀.reg_file 0 (2 ^ 40 + 7) }

abbrev summed : State
summed = record high { reg_file = set high.reg_file 0 12 }

sum_runs : exec_alu add imm plus_five high ≡ some summed
unfolding exec_alu
sum_runs = refl

exec_alu-Narrow_example : Narrow high 0 summed
exec_alu-Narrow_example = exec_alu-Narrow add imm plus_five high summed sum_runs

-- what the opcode of the program's instructions decodes to
decoded : decode 0x07 ≡ some (alu64 add imm)
unfolding decode
decoded = refl

-- r0 += 5, then the exit
abbrev stop : Inst
stop = record { opcode = 0x95; dst = 0; src = 0; offset = 0; imm = 0 }

abbrev stopping : List Inst
stopping = plus_five ∷ stop ∷ []

stop_decoded : decode 0x95 ≡ some exit
unfolding decode
stop_decoded = refl

stopping-IsJumpFree : IsJumpFree stopping
unfolding is_jump
stopping-IsJumpFree zero i o e d =
    let same = some-injective _ _ e in
    rw (sym (some-injective _ _ (sym decoded ∙ ap (λ j. decode j.opcode) same ∙ d))) refl
stopping-IsJumpFree (suc zero) i o e d =
    let same = some-injective _ _ e in
    rw (sym (some-injective _ _ (sym stop_decoded ∙ ap (λ j. decode j.opcode) same ∙ d))) refl
stopping-IsJumpFree (suc (suc k)) i o e d = absurd (cc)

ebpf_prog_run_ends_example :
    (r : Outcome) × (ebpf_prog_run host 4 1 4096 (replicate 11 0) memory stopping ≡ some r)
    × ((s : State) → r ≢ next s)
ebpf_prog_run_ends_example =
    ebpf_prog_run_ends host stopping stopping-IsJumpFree (omega arith) 1 4096 (replicate 11 0)
      memory

prog-IsStraight : IsStraight prog
unfolding is_jump is_lddw
prog-IsStraight k i o e =
    two_cases (λ j. decode j.opcode ≡ some o → (is_jump o ≡ false) × (is_lddw o ≡ false))
      (λ d. rw (sym (some-injective _ _ (sym decoded ∙ d))) (refl, refl)) k i e

Rounds-triangular_example : (s₁.pc ≡ 1) × (2 * (s₁.inst + s₁.pc) ≡ 2)
Rounds-triangular_example =
    Rounds-triangular host prog prog-IsStraight 1 4096 (replicate 11 0) memory 1 s₁ (omega arith)
      (more here first_round)

decode_iff_example : (decode 0x07 ≡ some (alu64 add imm)) ↔ (opcode_of (alu64 add imm) ≡ 0x07)
decode_iff_example = decode_iff 0x07 (alu64 add imm)

executed : exec host prog (alu64 add imm) plus_five (fetch s₀) ≡ next s₁
unfolding exec fetch
executed = refl

no_jump : is_jump (alu64 add imm) ≡ false
unfolding is_jump
no_jump = refl

exec_flow_example :
    (s₁.inst ≡ (fetch s₀).inst)
    × (s₁.pc ≡ (if is_lddw (alu64 add imm) then u32 ((fetch s₀).pc + 1) else (fetch s₀).pc))
exec_flow_example = exec_flow host prog (alu64 add imm) plus_five (fetch s₀) s₁ no_jump executed

mov64_iff_example : (alu64_value mov 3 4 ≡ some 4) ↔ (◌≡◌ {A = ℕ} 3 0)
mov64_iff_example = mov64_iff 3 4 (omega arith) (omega arith)

arsh64_positive_example : (v : ℕ) × (alu64_value arsh (2 ^ 63) 1 ≡ some v) × (v < 2 ^ 63)
arsh64_positive_example =
    arsh64_positive (2 ^ 63) 1 (omega arith) (omega arith) (omega arith) (omega arith)

taken_signed_example :
    ((taken jslt (2 ^ 64 - 1) 1 ≡ true) ↔ SignedLt (2 ^ 64 - 1) 1)
    × ((taken jsgt (2 ^ 64 - 1) 1 ≡ true) ↔ SignedLt 1 (2 ^ 64 - 1))
    × ((taken jsle (2 ^ 64 - 1) 1 ≡ true) ↔ (¬ SignedLt 1 (2 ^ 64 - 1)))
    × ((taken jsge (2 ^ 64 - 1) 1 ≡ true) ↔ (¬ SignedLt (2 ^ 64 - 1) 1))
taken_signed_example = taken_signed (2 ^ 64 - 1) 1 (omega arith) (omega arith)

-- *(u8 *)(r2 + 64) = r1, then r3 = *(u8 *)(r2 + 64)
abbrev put : Inst
put = record { opcode = 0x73; dst = 2; src = 1; offset = 64; imm = 0 }

abbrev get : Inst
get = record { opcode = 0x71; dst = 3; src = 2; offset = 64; imm = 0 }

abbrev written : State
written = record s₀ { memory = put_byte memory 64 1 }

put_runs : exec_stx byte put s₀ ≡ some written
unfolding exec_stx
put_runs = refl

same_address : address get.src get written ≡ address put.dst put s₀
unfolding address
same_address = refl

exec_ldx-exec_stx_example : exec_ldx byte get written ≡ set_reg written 3 (1 % 256 ^ width byte)
exec_ldx-exec_stx_example = exec_ldx-exec_stx byte put get s₀ written 1 refl put_runs same_address
