-- ===== src/Isa.antt =====
-- sys/sys/ebpf_vm_isa.h: instructions and their opcodes.
pub mod Codes
use generic_ebpf.Base.{
  ℕ, Option, none, some, List, [], ◌∷◌, ◌++◌, map, bit_or, ◌/◌, ◌^◌, u32, ◌==◌, if◌then◌else◌,
}

-- `struct ebpf_inst`. `offset` and `imm` are the bit patterns of an `int16_t` and an `int32_t`.
pub record Inst : Type 0 where
  pub opcode : ℕ
  pub dst : ℕ
  pub src : ℕ
  pub offset : ℕ
  pub imm : ℕ

-- EBPF_SRC_IMM and EBPF_SRC_REG
pub data Src : Type 0 where
  imm reg : Src

-- The ALU operations that have both forms; `modulo` is EBPF_MOD.
pub data AluOp : Type 0 where
  add sub mul div or and lsh rsh modulo xor mov arsh : AluOp

-- The conditional jumps.
pub data JmpOp : Type 0 where
  jeq jgt jge jset jne jlt jle jsgt jsge jslt jsle : JmpOp

pub data Size : Type 0 where
  byte half word double : Size

-- The opcodes EBPF_OP_*: `alu o s` and `alu64 o s` are the ALU and ALU64 classes, `to_le` and
-- `to_be` are EBPF_OP_LE and EBPF_OP_BE.
pub data Op : Type 0 where
  alu alu64 : AluOp → Src → Op
  neg neg64 to_le to_be ja call exit lddw : Op
  jmp : JmpOp → Src → Op
  ldx st stx : Size → Op

pub src_code : Src → ℕ
src_code imm = 0x00
src_code reg = 0x08

pub alu_code : AluOp → ℕ
alu_code add = 0x00
alu_code sub = 0x10
alu_code mul = 0x20
alu_code div = 0x30
alu_code or = 0x40
alu_code and = 0x50
alu_code lsh = 0x60
alu_code rsh = 0x70
alu_code modulo = 0x90
alu_code xor = 0xa0
alu_code mov = 0xb0
alu_code arsh = 0xc0

pub jmp_code : JmpOp → ℕ
jmp_code jeq = 0x10
jmp_code jgt = 0x20
jmp_code jge = 0x30
jmp_code jset = 0x40
jmp_code jne = 0x50
jmp_code jlt = 0xa0
jmp_code jle = 0xb0
jmp_code jsgt = 0x60
jmp_code jsge = 0x70
jmp_code jslt = 0xc0
jmp_code jsle = 0xd0

pub size_code : Size → ℕ
size_code word = 0x00
size_code half = 0x08
size_code byte = 0x10
size_code double = 0x18

-- EBPF_CLS_*, EBPF_MODE_* and the operation codes that stand alone
abbrev pub cls_ld : ℕ
cls_ld = 0x00

abbrev pub cls_ldx : ℕ
cls_ldx = 0x01

abbrev pub cls_st : ℕ
cls_st = 0x02

abbrev pub cls_stx : ℕ
cls_stx = 0x03

abbrev pub cls_alu : ℕ
cls_alu = 0x04

abbrev pub cls_jmp : ℕ
cls_jmp = 0x05

abbrev pub cls_alu64 : ℕ
cls_alu64 = 0x07

abbrev pub mode_imm : ℕ
mode_imm = 0x00

abbrev pub mode_mem : ℕ
mode_mem = 0x60

-- The value of the macro EBPF_OP_* of an opcode.
unfoldable pub opcode_of : Op → ℕ
unfolding src_code alu_code jmp_code size_code
opcode_of (alu o s) = bit_or (bit_or cls_alu (src_code s)) (alu_code o)
opcode_of (alu64 o s) = bit_or (bit_or cls_alu64 (src_code s)) (alu_code o)
opcode_of neg = bit_or cls_alu 0x80
opcode_of neg64 = bit_or cls_alu64 0x80
opcode_of to_le = bit_or (bit_or cls_alu 0x00) 0xd0
opcode_of to_be = bit_or (bit_or cls_alu 0x08) 0xd0
opcode_of ja = bit_or cls_jmp 0x00
opcode_of call = bit_or cls_jmp 0x80
opcode_of exit = bit_or cls_jmp 0x90
opcode_of lddw = bit_or (bit_or cls_ld mode_imm) (size_code double)
opcode_of (jmp o s) = bit_or (bit_or cls_jmp (src_code s)) (jmp_code o)
opcode_of (ldx z) = bit_or (bit_or cls_ldx mode_mem) (size_code z)
opcode_of (st z) = bit_or (bit_or cls_st mode_mem) (size_code z)
opcode_of (stx z) = bit_or (bit_or cls_stx mode_mem) (size_code z)

abbrev alu_ops : List AluOp
alu_ops = add ∷ sub ∷ mul ∷ div ∷ or ∷ and ∷ lsh ∷ rsh ∷ modulo ∷ xor ∷ mov ∷ arsh ∷ []

abbrev jmp_ops : List JmpOp
jmp_ops = jeq ∷ jgt ∷ jge ∷ jset ∷ jne ∷ jlt ∷ jle ∷ jsgt ∷ jsge ∷ jslt ∷ jsle ∷ []

abbrev sizes : List Size
sizes = byte ∷ half ∷ word ∷ double ∷ []

-- The labels of the `switch` in sys/dev/ebpf/ebpf_interpreter.c.
abbrev pub labels : List Op
labels =
    map (λ o. alu o imm) alu_ops
    ++ (map (λ o. alu o reg) alu_ops
        ++ (map (λ o. alu64 o imm) alu_ops
            ++ (map (λ o. alu64 o reg) alu_ops
                ++ (map (λ o. jmp o imm) jmp_ops
                    ++ (map (λ o. jmp o reg) jmp_ops
                        ++ (map ldx sizes
                            ++ (map st sizes
                                ++ (map stx sizes
                                    ++ (neg ∷ neg64 ∷ to_le ∷ to_be ∷ ja ∷ call ∷ exit ∷ lddw
                                        ∷ [])))))))))

-- The first label with this opcode.
pub find_label : ℕ → List Op → Option Op
find_label n [] = none
find_label n (o ∷ os) = if opcode_of o == n then some o else find_label n os

-- The case that the `switch` takes; `none` is its `default`.
unfoldable pub decode : ℕ → Option Op
unfolding find_label opcode_of
decode n = find_label n labels
