-- ===== src/Riscv/Decode/Encode.antt =====
-- The 32-bit formats of the RISC-V manual (RV32IMA), written from the other side: the word that
-- stands for an instruction. The decoder is held against this.
use vanadium.Prelude.{ℕ, ◌+◌, ◌*◌, ◌%◌, ◌^◌, ◌≤◌, ◌<◌, ◌≡◌}
use vanadium.Word.{IsU32}
use vanadium.Riscv.Op.{Op}
use vanadium.Riscv.Field.Layout.{bits, sign_extend}

-- funct7 | rs2 | rs1 | funct3 | rd | opcode
pub record Fields : Type 0 where
  pub funct7 : ℕ
  pub rs2 : ℕ
  pub rs1 : ℕ
  pub funct3 : ℕ
  pub rd : ℕ
  pub opcode : ℕ

abbrev pub word : Fields → ℕ
word f =
    f.funct7 * 2 ^ 25
    + f.rs2 * 2 ^ 20
    + f.rs1 * 2 ^ 15
    + f.funct3 * 2 ^ 12
    + f.rd * 2 ^ 7
    + f.opcode

abbrev layout : ℕ → ℕ → ℕ → ℕ → ℕ → ℕ → Fields
layout f7 r2 r1 f3 d code = record {
  funct7 = f7;
  rs2 = r2;
  rs1 = r1;
  funct3 = f3;
  rd = d;
  opcode = code;
}

abbrev format_i : ℕ → ℕ → ℕ → ℕ → ℕ → Fields
format_i f3 code rd rs1 imm = layout (bits 5 7 imm) (bits 0 5 imm) rs1 f3 rd code

abbrev format_s : ℕ → ℕ → ℕ → ℕ → Fields
format_s f3 rs1 rs2 imm = layout (bits 5 7 imm) rs2 rs1 f3 (bits 0 5 imm) 0x23

abbrev format_b : ℕ → ℕ → ℕ → ℕ → Fields
format_b f3 rs1 rs2 imm =
    layout (bits 12 1 imm * 2 ^ 6 + bits 5 6 imm) rs2 rs1 f3 (bits 1 4 imm * 2 + bits 11 1 imm) 0x63

abbrev format_u : ℕ → ℕ → ℕ → Fields
format_u code rd imm =
    layout (bits 25 7 imm) (bits 20 5 imm) (bits 15 5 imm) (bits 12 3 imm) rd code

abbrev format_j : ℕ → ℕ → Fields
format_j rd imm =
    layout (bits 20 1 imm * 2 ^ 6 + bits 5 6 imm) (bits 1 4 imm * 2 + bits 11 1 imm) (bits 15 5 imm)
      (bits 12 3 imm) rd 0x6f

abbrev format_r : ℕ → ℕ → ℕ → ℕ → ℕ → Fields
format_r f7 f3 rd rs1 rs2 = layout f7 rs2 rs1 f3 rd 0x33

-- The atomics are written with the bits aq and rl clear.
abbrev format_a : ℕ → ℕ → ℕ → ℕ → Fields
format_a f5 rd rs1 rs2 = layout (f5 * 4) rs2 rs1 2 rd 0x2f

unfoldable pub fields : Op → Fields
fields Op.unknown = layout 0 0 0 0 0 0
fields (Op.add rd rs1 rs2) = format_r 0 0 rd rs1 rs2
fields (Op.sub rd rs1 rs2) = format_r 0x20 0 rd rs1 rs2
fields (Op.sll rd rs1 rs2) = format_r 0 1 rd rs1 rs2
fields (Op.slt rd rs1 rs2) = format_r 0 2 rd rs1 rs2
fields (Op.sltu rd rs1 rs2) = format_r 0 3 rd rs1 rs2
fields (Op.xor rd rs1 rs2) = format_r 0 4 rd rs1 rs2
fields (Op.srl rd rs1 rs2) = format_r 0 5 rd rs1 rs2
fields (Op.sra rd rs1 rs2) = format_r 0x20 5 rd rs1 rs2
fields (Op.or rd rs1 rs2) = format_r 0 6 rd rs1 rs2
fields (Op.and rd rs1 rs2) = format_r 0 7 rd rs1 rs2
fields (Op.mul rd rs1 rs2) = format_r 1 0 rd rs1 rs2
fields (Op.mulh rd rs1 rs2) = format_r 1 1 rd rs1 rs2
fields (Op.mulhsu rd rs1 rs2) = format_r 1 2 rd rs1 rs2
fields (Op.mulhu rd rs1 rs2) = format_r 1 3 rd rs1 rs2
fields (Op.div rd rs1 rs2) = format_r 1 4 rd rs1 rs2
fields (Op.divu rd rs1 rs2) = format_r 1 5 rd rs1 rs2
fields (Op.rem rd rs1 rs2) = format_r 1 6 rd rs1 rs2
fields (Op.remu rd rs1 rs2) = format_r 1 7 rd rs1 rs2
fields (Op.addi rd rs1 imm) = format_i 0 0x13 rd rs1 imm
fields (Op.andi rd rs1 imm) = format_i 7 0x13 rd rs1 imm
fields (Op.auipc rd imm) = format_u 0x17 rd imm
fields (Op.beq rs1 rs2 imm) = format_b 0 rs1 rs2 imm
fields (Op.bne rs1 rs2 imm) = format_b 1 rs1 rs2 imm
fields (Op.blt rs1 rs2 imm) = format_b 4 rs1 rs2 imm
fields (Op.bge rs1 rs2 imm) = format_b 5 rs1 rs2 imm
fields (Op.bltu rs1 rs2 imm) = format_b 6 rs1 rs2 imm
fields (Op.bgeu rs1 rs2 imm) = format_b 7 rs1 rs2 imm
fields (Op.jal rd imm) = format_j rd imm
fields (Op.jalr rd rs1 imm) = format_i 0 0x67 rd rs1 imm
fields (Op.lb rd rs1 imm) = format_i 0 0x03 rd rs1 imm
fields (Op.lh rd rs1 imm) = format_i 1 0x03 rd rs1 imm
fields (Op.lw rd rs1 imm) = format_i 2 0x03 rd rs1 imm
fields (Op.lbu rd rs1 imm) = format_i 4 0x03 rd rs1 imm
fields (Op.lhu rd rs1 imm) = format_i 5 0x03 rd rs1 imm
fields (Op.lui rd imm) = format_u 0x37 rd imm
fields (Op.ori rd rs1 imm) = format_i 6 0x13 rd rs1 imm
fields (Op.sb rs1 rs2 imm) = format_s 0 rs1 rs2 imm
fields (Op.sh rs1 rs2 imm) = format_s 1 rs1 rs2 imm
fields (Op.sw rs1 rs2 imm) = format_s 2 rs1 rs2 imm
fields (Op.slli rd rs1 imm) = format_i 1 0x13 rd rs1 imm
fields (Op.slti rd rs1 imm) = format_i 2 0x13 rd rs1 imm
fields (Op.sltiu rd rs1 imm) = format_i 3 0x13 rd rs1 imm
fields (Op.srli rd rs1 imm) = format_i 5 0x13 rd rs1 imm
fields (Op.srai rd rs1 imm) = format_i 5 0x13 rd rs1 imm
fields (Op.xori rd rs1 imm) = format_i 4 0x13 rd rs1 imm
fields (Op.lr_w rd rs1) = format_a 2 rd rs1 0
fields (Op.sc_w rd rs1 rs2) = format_a 3 rd rs1 rs2
fields (Op.amoswap_w rd rs1 rs2) = format_a 1 rd rs1 rs2
fields (Op.amoadd_w rd rs1 rs2) = format_a 0 rd rs1 rs2
fields (Op.amoxor_w rd rs1 rs2) = format_a 4 rd rs1 rs2
fields (Op.amoand_w rd rs1 rs2) = format_a 12 rd rs1 rs2
fields (Op.amoor_w rd rs1 rs2) = format_a 8 rd rs1 rs2
fields (Op.amomin_w rd rs1 rs2) = format_a 16 rd rs1 rs2
fields (Op.amomax_w rd rs1 rs2) = format_a 20 rd rs1 rs2
fields (Op.amominu_w rd rs1 rs2) = format_a 24 rd rs1 rs2
fields (Op.amomaxu_w rd rs1 rs2) = format_a 28 rd rs1 rs2
fields Op.fence = layout 0 0 0 0 0 0x0f
fields Op.ecall = layout 0 0 0 0 0 0x73
fields Op.break = layout 0 1 0 0 0 0x73

unfoldable pub encode : Op → ℕ
encode op = word (fields op)

-- The immediates that a format of `w` bits holds.
abbrev pub IsSigned : ℕ → ℕ → Type 0
IsSigned w imm = sign_extend w (imm % 2 ^ w) ≡ imm

abbrev pub IsEven : ℕ → Type 0
IsEven n = n % 2 ≡ 0

abbrev Registers : ℕ → ℕ → ℕ → Type 0
Registers rd rs1 rs2 = (rd < 32) × (rs1 < 32) × (rs2 < 32)

abbrev Imm : ℕ → ℕ → ℕ → Type 0
Imm rd rs1 imm = (rd < 32) × (rs1 < 32) × IsSigned 12 imm

abbrev Branch : ℕ → ℕ → ℕ → Type 0
Branch rs1 rs2 imm = (rs1 < 32) × (rs2 < 32) × IsSigned 13 imm × IsEven imm

abbrev Shift : ℕ → ℕ → ℕ → ℕ → Type 0
Shift base rd rs1 imm = (rd < 32) × (rs1 < 32) × (base ≤ imm) × (imm < base + 32)

abbrev Upper : ℕ → ℕ → Type 0
Upper rd imm = (rd < 32) × IsU32 imm × (imm % 2 ^ 12 ≡ 0)

-- The instructions that have a 32-bit word: registers below 32, and immediates that fit.
abbrev pub IsEncodable : Op → Type 0
IsEncodable Op.unknown = ⊥
IsEncodable (Op.addi rd rs1 imm) = Imm rd rs1 imm
IsEncodable (Op.andi rd rs1 imm) = Imm rd rs1 imm
IsEncodable (Op.auipc rd imm) = Upper rd imm
IsEncodable (Op.beq rs1 rs2 imm) = Branch rs1 rs2 imm
IsEncodable (Op.bne rs1 rs2 imm) = Branch rs1 rs2 imm
IsEncodable (Op.blt rs1 rs2 imm) = Branch rs1 rs2 imm
IsEncodable (Op.bge rs1 rs2 imm) = Branch rs1 rs2 imm
IsEncodable (Op.bltu rs1 rs2 imm) = Branch rs1 rs2 imm
IsEncodable (Op.bgeu rs1 rs2 imm) = Branch rs1 rs2 imm
IsEncodable (Op.jal rd imm) = (rd < 32) × IsSigned 21 imm × IsEven imm
IsEncodable (Op.jalr rd rs1 imm) = Imm rd rs1 imm
IsEncodable (Op.lb rd rs1 imm) = Imm rd rs1 imm
IsEncodable (Op.lh rd rs1 imm) = Imm rd rs1 imm
IsEncodable (Op.lw rd rs1 imm) = Imm rd rs1 imm
IsEncodable (Op.lbu rd rs1 imm) = Imm rd rs1 imm
IsEncodable (Op.lhu rd rs1 imm) = Imm rd rs1 imm
IsEncodable (Op.lui rd imm) = Upper rd imm
IsEncodable (Op.ori rd rs1 imm) = Imm rd rs1 imm
IsEncodable (Op.sb rs1 rs2 imm) = Imm rs1 rs2 imm
IsEncodable (Op.sh rs1 rs2 imm) = Imm rs1 rs2 imm
IsEncodable (Op.sw rs1 rs2 imm) = Imm rs1 rs2 imm
IsEncodable (Op.slli rd rs1 imm) = Shift 0 rd rs1 imm
IsEncodable (Op.slti rd rs1 imm) = Imm rd rs1 imm
IsEncodable (Op.sltiu rd rs1 imm) = Imm rd rs1 imm
IsEncodable (Op.srli rd rs1 imm) = Shift 0 rd rs1 imm
IsEncodable (Op.srai rd rs1 imm) = Shift 0x400 rd rs1 imm
IsEncodable (Op.xori rd rs1 imm) = Imm rd rs1 imm
IsEncodable (Op.lr_w rd rs1) = (rd < 32) × (rs1 < 32)
IsEncodable Op.fence = Unit {0}
IsEncodable Op.ecall = Unit {0}
IsEncodable Op.break = Unit {0}
IsEncodable (Op.add rd rs1 rs2) = Registers rd rs1 rs2
IsEncodable (Op.sub rd rs1 rs2) = Registers rd rs1 rs2
IsEncodable (Op.sll rd rs1 rs2) = Registers rd rs1 rs2
IsEncodable (Op.slt rd rs1 rs2) = Registers rd rs1 rs2
IsEncodable (Op.sltu rd rs1 rs2) = Registers rd rs1 rs2
IsEncodable (Op.xor rd rs1 rs2) = Registers rd rs1 rs2
IsEncodable (Op.srl rd rs1 rs2) = Registers rd rs1 rs2
IsEncodable (Op.sra rd rs1 rs2) = Registers rd rs1 rs2
IsEncodable (Op.or rd rs1 rs2) = Registers rd rs1 rs2
IsEncodable (Op.and rd rs1 rs2) = Registers rd rs1 rs2
IsEncodable (Op.mul rd rs1 rs2) = Registers rd rs1 rs2
IsEncodable (Op.mulh rd rs1 rs2) = Registers rd rs1 rs2
IsEncodable (Op.mulhsu rd rs1 rs2) = Registers rd rs1 rs2
IsEncodable (Op.mulhu rd rs1 rs2) = Registers rd rs1 rs2
IsEncodable (Op.div rd rs1 rs2) = Registers rd rs1 rs2
IsEncodable (Op.divu rd rs1 rs2) = Registers rd rs1 rs2
IsEncodable (Op.rem rd rs1 rs2) = Registers rd rs1 rs2
IsEncodable (Op.remu rd rs1 rs2) = Registers rd rs1 rs2
IsEncodable (Op.sc_w rd rs1 rs2) = Registers rd rs1 rs2
IsEncodable (Op.amoswap_w rd rs1 rs2) = Registers rd rs1 rs2
IsEncodable (Op.amoadd_w rd rs1 rs2) = Registers rd rs1 rs2
IsEncodable (Op.amoxor_w rd rs1 rs2) = Registers rd rs1 rs2
IsEncodable (Op.amoand_w rd rs1 rs2) = Registers rd rs1 rs2
IsEncodable (Op.amoor_w rd rs1 rs2) = Registers rd rs1 rs2
IsEncodable (Op.amomin_w rd rs1 rs2) = Registers rd rs1 rs2
IsEncodable (Op.amomax_w rd rs1 rs2) = Registers rd rs1 rs2
IsEncodable (Op.amominu_w rd rs1 rs2) = Registers rd rs1 rs2
IsEncodable (Op.amomaxu_w rd rs1 rs2) = Registers rd rs1 rs2
