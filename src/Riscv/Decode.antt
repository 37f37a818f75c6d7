-- ===== src/Riscv/Decode.antt =====
-- The 32-bit instructions and the choice by length: common/src/riscv/decode.rs,
-- `decode_uncompressed` and `decode`. Each inner match on funct3 and funct7 is a definition.
pub mod Encode
pub mod Word
pub mod RoundTrip
pub mod Jumps
use vanadium.Prelude.{ℕ, bit_and, not, ◌==◌, if◌then◌else◌}
use vanadium.Word.{u16}
use vanadium.Riscv.Op.{Op}
use vanadium.Riscv.Field.{rd, rs1, rs2, b_imm, i_imm, j_imm, s_imm, u_imm}
use vanadium.Riscv.Compressed.{decode_compressed}

abbrev r_type : (ℕ → ℕ → ℕ → Op) → ℕ → Op
r_type op inst = op (rd inst) (rs1 inst) (rs2 inst)

abbrev i_type : (ℕ → ℕ → ℕ → Op) → ℕ → Op
i_type op inst = op (rd inst) (rs1 inst) (i_imm inst)

abbrev b_type : (ℕ → ℕ → ℕ → Op) → ℕ → Op
b_type op inst = op (rs1 inst) (rs2 inst) (b_imm inst)

abbrev s_type : (ℕ → ℕ → ℕ → Op) → ℕ → Op
s_type op inst = op (rs1 inst) (rs2 inst) (s_imm inst)

abbrev funct3 : ℕ → ℕ
funct3 inst = bit_and inst 0x0000707f

abbrev funct7 : ℕ → ℕ
funct7 inst = bit_and inst 0xfe00707f

abbrev funct5 : ℕ → ℕ
funct5 inst = bit_and inst 0xf800707f

pub decode_branch : ℕ → Op
decode_branch inst =
    if funct3 inst == 0x00000063
    then b_type Op.beq inst
    else if funct3 inst == 0x00001063
    then b_type Op.bne inst
    else if funct3 inst == 0x00004063
    then b_type Op.blt inst
    else if funct3 inst == 0x00005063
    then b_type Op.bge inst
    else if funct3 inst == 0x00006063
    then b_type Op.bltu inst
    else if funct3 inst == 0x00007063
    then b_type Op.bgeu inst
    else Op.unknown

pub decode_load : ℕ → Op
decode_load inst =
    if funct3 inst == 0x00000003
    then i_type Op.lb inst
    else if funct3 inst == 0x00001003
    then i_type Op.lh inst
    else if funct3 inst == 0x00002003
    then i_type Op.lw inst
    else if funct3 inst == 0x00004003
    then i_type Op.lbu inst
    else if funct3 inst == 0x00005003
    then i_type Op.lhu inst
    else Op.unknown

pub decode_store : ℕ → Op
decode_store inst =
    if funct3 inst == 0x00000023
    then s_type Op.sb inst
    else if funct3 inst == 0x00001023
    then s_type Op.sh inst
    else if funct3 inst == 0x00002023
    then s_type Op.sw inst
    else Op.unknown

pub decode_immediate : ℕ → Op
decode_immediate inst =
    if funct3 inst == 0x00000013
    then i_type Op.addi inst
    else if funct3 inst == 0x00002013
    then i_type Op.slti inst
    else if funct3 inst == 0x00003013
    then i_type Op.sltiu inst
    else if funct3 inst == 0x00004013
    then i_type Op.xori inst
    else if funct3 inst == 0x00006013
    then i_type Op.ori inst
    else if funct3 inst == 0x00007013
    then i_type Op.andi inst
    else if funct3 inst == 0x00001013
    then (if funct7 inst == 0x00001013 then i_type Op.slli inst else Op.unknown)
    else if funct3 inst == 0x00005013
    then (if funct7 inst == 0x00005013
        then i_type Op.srli inst
        else if funct7 inst == 0x40005013
        then i_type Op.srai inst
        else Op.unknown)
    else Op.unknown

pub decode_register : ℕ → Op
decode_register inst =
    if funct7 inst == 0x00000033
    then r_type Op.add inst
    else if funct7 inst == 0x40000033
    then r_type Op.sub inst
    else if funct7 inst == 0x00001033
    then r_type Op.sll inst
    else if funct7 inst == 0x00002033
    then r_type Op.slt inst
    else if funct7 inst == 0x00003033
    then r_type Op.sltu inst
    else if funct7 inst == 0x00004033
    then r_type Op.xor inst
    else if funct7 inst == 0x00005033
    then r_type Op.srl inst
    else if funct7 inst == 0x40005033
    then r_type Op.sra inst
    else if funct7 inst == 0x00006033
    then r_type Op.or inst
    else if funct7 inst == 0x00007033
    then r_type Op.and inst
    else if funct7 inst == 0x02000033
    then r_type Op.mul inst
    else if funct7 inst == 0x02001033
    then r_type Op.mulh inst
    else if funct7 inst == 0x02002033
    then r_type Op.mulhsu inst
    else if funct7 inst == 0x02003033
    then r_type Op.mulhu inst
    else if funct7 inst == 0x02004033
    then r_type Op.div inst
    else if funct7 inst == 0x02005033
    then r_type Op.divu inst
    else if funct7 inst == 0x02006033
    then r_type Op.rem inst
    else if funct7 inst == 0x02007033
    then r_type Op.remu inst
    else Op.unknown

pub decode_atomic : ℕ → Op
decode_atomic inst =
    if funct3 inst == 0x0000202f
    then (if funct5 inst == 0x1000202f
        then (if rs2 inst == 0 then Op.lr_w (rd inst) (rs1 inst) else Op.unknown)
        else if funct5 inst == 0x1800202f
        then r_type Op.sc_w inst
        else if funct5 inst == 0x0800202f
        then r_type Op.amoswap_w inst
        else if funct5 inst == 0x0000202f
        then r_type Op.amoadd_w inst
        else if funct5 inst == 0x2000202f
        then r_type Op.amoxor_w inst
        else if funct5 inst == 0x6000202f
        then r_type Op.amoand_w inst
        else if funct5 inst == 0x4000202f
        then r_type Op.amoor_w inst
        else if funct5 inst == 0x8000202f
        then r_type Op.amomin_w inst
        else if funct5 inst == 0xa000202f
        then r_type Op.amomax_w inst
        else if funct5 inst == 0xc000202f
        then r_type Op.amominu_w inst
        else if funct5 inst == 0xe000202f
        then r_type Op.amomaxu_w inst
        else Op.unknown)
    else Op.unknown

pub decode_system : ℕ → Op
decode_system inst =
    if bit_and inst 0xffffffff == 0x00000073
    then Op.ecall
    else if bit_and inst 0xffffffff == 0x00100073
    then Op.break
    else Op.unknown

pub decode_uncompressed : ℕ → Op
decode_uncompressed inst =
    let opcode = bit_and inst 0x0000007f in
    if opcode == 0x00000037
    then Op.lui (rd inst) (u_imm inst)
    else if opcode == 0x00000017
    then Op.auipc (rd inst) (u_imm inst)
    else if opcode == 0x0000006f
    then Op.jal (rd inst) (j_imm inst)
    else if opcode == 0x00000067
    then (if funct3 inst == 0x00000067 then i_type Op.jalr inst else Op.unknown)
    else if opcode == 0x00000063
    then decode_branch inst
    else if opcode == 0x00000003
    then decode_load inst
    else if opcode == 0x00000023
    then decode_store inst
    else if opcode == 0x00000013
    then decode_immediate inst
    else if opcode == 0x00000033
    then decode_register inst
    else if opcode == 0x0000002f
    then decode_atomic inst
    else if opcode == 0x0000000f
    then (if funct3 inst == 0x0000000f then Op.fence else Op.unknown)
    else if opcode == 0x00000073
    then decode_system inst
    else Op.unknown

-- The instruction and its length in bytes.
pub decode : ℕ → Op × ℕ
decode inst =
    if not (bit_and inst 0x3 == 0x3)
    then (decode_compressed (u16 inst), 2)
    else (decode_uncompressed inst, 4)
