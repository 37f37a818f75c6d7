-- ===== src/Riscv/Op.antt =====
-- common/src/riscv/op.rs. A register is its number, and an i32 immediate its 32-bit pattern.
use vanadium.Prelude.{ℕ}

pub data Op : Type 0 where
  unknown : Op
  add sub sll slt sltu xor srl sra or and : (rd rs1 rs2 : ℕ) → Op
  mul mulh mulhsu mulhu div divu rem remu : (rd rs1 rs2 : ℕ) → Op
  addi andi : (rd rs1 imm : ℕ) → Op
  auipc : (rd imm : ℕ) → Op
  beq bne blt bge bltu bgeu : (rs1 rs2 imm : ℕ) → Op
  jal : (rd imm : ℕ) → Op
  jalr lb lh lw lbu lhu : (rd rs1 imm : ℕ) → Op
  lui : (rd imm : ℕ) → Op
  ori : (rd rs1 imm : ℕ) → Op
  sb sh sw : (rs1 rs2 imm : ℕ) → Op
  slli slti sltiu srli srai xori : (rd rs1 imm : ℕ) → Op
  lr_w : (rd rs1 : ℕ) → Op
  sc_w amoswap_w amoadd_w amoxor_w amoand_w amoor_w : (rd rs1 rs2 : ℕ) → Op
  amomin_w amomax_w amominu_w amomaxu_w : (rd rs1 rs2 : ℕ) → Op
  fence ecall break : Op
