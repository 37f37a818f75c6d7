-- ===== src/Riscv/Field.antt =====
-- The fields of a 32-bit instruction word: common/src/riscv/decode.rs, `rd` to `u_imm`.
pub mod Layout
use vanadium.Prelude.{ℕ, bit_and, bit_or}
use vanadium.Word.{u8, shl32, shr32, sar32}

pub rd : ℕ → ℕ
rd inst = u8 (bit_and (shr32 inst 7) 0b11111)

pub rs1 : ℕ → ℕ
rs1 inst = u8 (bit_and (shr32 inst 15) 0b11111)

pub rs2 : ℕ → ℕ
rs2 inst = u8 (bit_and (shr32 inst 20) 0b11111)

pub b_imm : ℕ → ℕ
b_imm inst =
    bit_or
      (bit_or
        (bit_or (sar32 (bit_and inst 0b10000000_00000000_00000000_00000000) 19)
          (shl32 (bit_and inst 0b00000000_00000000_00000000_10000000) 4))
        (sar32 (bit_and inst 0b01111110_00000000_00000000_00000000) 20))
      (sar32 (bit_and inst 0b00000000_00000000_00001111_00000000) 7)

pub i_imm : ℕ → ℕ
i_imm inst = sar32 inst 20

pub j_imm : ℕ → ℕ
j_imm inst =
    bit_or
      (bit_or
        (bit_or (sar32 (bit_and inst 0b10000000_00000000_00000000_00000000) 11)
          (sar32 (bit_and inst 0b00000000_00001111_11110000_00000000) 0))
        (sar32 (bit_and inst 0b00000000_00010000_00000000_00000000) 9))
      (sar32 (bit_and inst 0b01111111_11100000_00000000_00000000) 20)

pub s_imm : ℕ → ℕ
s_imm inst =
    bit_or (sar32 (bit_and inst 0b11111110_00000000_00000000_00000000) 20)
      (sar32 (bit_and inst 0b00000000_00000000_00001111_10000000) 7)

pub u_imm : ℕ → ℕ
u_imm inst = bit_and inst 0xfffff000
