-- ===== src/Isa/Codes.antt =====
-- The opcodes of the instructions, and the table of the labels.
use generic_ebpf.Base.{ℕ, ◌≡◌, refl, arith, ◌↔◌, some, List, [], ◌∷◌}
use generic_ebpf.Isa.{
  Op, alu, alu64, jmp, ldx, st, stx, AluOp, add, JmpOp, jeq, Size, byte, imm, reg, opcode_of,
  find_label, labels, decode,
}

-- Every label is found under its own opcode.
decode-alu_imm : (o : AluOp) → decode (opcode_of (alu o imm)) ≡ some (alu o imm)
unfolding decode
decode-alu_imm add = refl
decode-alu_imm _ = refl

decode-alu_reg : (o : AluOp) → decode (opcode_of (alu o reg)) ≡ some (alu o reg)
unfolding decode
decode-alu_reg add = refl
decode-alu_reg _ = refl

decode-alu64_imm : (o : AluOp) → decode (opcode_of (alu64 o imm)) ≡ some (alu64 o imm)
unfolding decode
decode-alu64_imm add = refl
decode-alu64_imm _ = refl

decode-alu64_reg : (o : AluOp) → decode (opcode_of (alu64 o reg)) ≡ some (alu64 o reg)
unfolding decode
decode-alu64_reg add = refl
decode-alu64_reg _ = refl

decode-jmp_imm : (o : JmpOp) → decode (opcode_of (jmp o imm)) ≡ some (jmp o imm)
unfolding decode
decode-jmp_imm jeq = refl
decode-jmp_imm _ = refl

decode-jmp_reg : (o : JmpOp) → decode (opcode_of (jmp o reg)) ≡ some (jmp o reg)
unfolding decode
decode-jmp_reg jeq = refl
decode-jmp_reg _ = refl

decode-ldx : (z : Size) → decode (opcode_of (ldx z)) ≡ some (ldx z)
unfolding decode
decode-ldx byte = refl
decode-ldx _ = refl

decode-st : (z : Size) → decode (opcode_of (st z)) ≡ some (st z)
unfolding decode
decode-st byte = refl
decode-st _ = refl

decode-stx : (z : Size) → decode (opcode_of (stx z)) ≡ some (stx z)
unfolding decode
decode-stx byte = refl
decode-stx _ = refl

decode-opcode_of : (o : Op) → decode (opcode_of o) ≡ some o
unfolding decode
decode-opcode_of (alu o imm) = decode-alu_imm o
decode-opcode_of (alu o reg) = decode-alu_reg o
decode-opcode_of (alu64 o imm) = decode-alu64_imm o
decode-opcode_of (alu64 o reg) = decode-alu64_reg o
decode-opcode_of (jmp o imm) = decode-jmp_imm o
decode-opcode_of (jmp o reg) = decode-jmp_reg o
decode-opcode_of (ldx z) = decode-ldx z
decode-opcode_of (st z) = decode-st z
decode-opcode_of (stx z) = decode-stx z
decode-opcode_of _ = refl

opcode_of-find_label : (n : ℕ) (os : List Op) (o : Op) → find_label n os ≡ some o → opcode_of o ≡ n
unfolding find_label
opcode_of-find_label n [] o h = cc
opcode_of-find_label n (p ∷ os) o h = ground (arith, opcode_of-find_label n os o)

-- The `switch` takes a case exactly at that case's opcode: no two of the labels collide, and each
-- opcode that is none of theirs goes to `default`.
pub decode_iff : (n : ℕ) (o : Op) → (decode n ≡ some o) ↔ (opcode_of o ≡ n)
decode_iff n o =
    (λ h. unfold decode in opcode_of-find_label n labels o h, λ h. rw (← h) (decode-opcode_of o))
