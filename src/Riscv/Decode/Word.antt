-- ===== src/Riscv/Decode/Word.antt =====
-- What the decoder's masks read in a word that was put together from fields.
use vanadium.Prelude.{ℕ, ◌+◌, ◌*◌, ◌/◌, ◌%◌, ◌^◌, ◌<◌, ◌≡◌, bit_and, arith}
use vanadium.Word.Masks.{mask_low}
use vanadium.Riscv.Field.{rd, rs1, rs2, b_imm, i_imm, j_imm, s_imm, u_imm}
use vanadium.Riscv.Field.Layout
use vanadium.Riscv.Field.Layout.{sign_extend}
use vanadium.Riscv.Decode.Encode.{Fields, word}

pub record AreInRange (f : Fields) : Type 0 where
  pub funct7_fits : f.funct7 < 2 ^ 7
  pub rs2_fits : f.rs2 < 32
  pub rs1_fits : f.rs1 < 32
  pub funct3_fits : f.funct3 < 8
  pub rd_fits : f.rd < 32
  pub opcode_fits : f.opcode < 2 ^ 7

pub record HasFields (w : ℕ) (f : Fields) : Type 0 where
  pub long : bit_and w 0x3 ≡ f.opcode % 4
  pub opcode_is : bit_and w 0x7f ≡ f.opcode
  pub funct3_is : bit_and w 0x707f ≡ f.funct3 * 2 ^ 12 + f.opcode
  pub funct7_is : bit_and w 0xfe00707f ≡ f.funct7 * 2 ^ 25 + f.funct3 * 2 ^ 12 + f.opcode
  pub funct5_is : bit_and w 0xf800707f ≡ f.funct7 / 4 * 2 ^ 27 + f.funct3 * 2 ^ 12 + f.opcode
  pub whole : bit_and w 0xffffffff ≡ word f
  pub rd_is : rd w ≡ f.rd
  pub rs1_is : rs1 w ≡ f.rs1
  pub rs2_is : rs2 w ≡ f.rs2
  pub i_imm_is : i_imm w ≡ sign_extend 12 (f.funct7 * 2 ^ 5 + f.rs2)
  pub s_imm_is : s_imm w ≡ sign_extend 12 (f.funct7 * 2 ^ 5 + f.rd)
  pub b_imm_is :
      b_imm w
      ≡ sign_extend 13
          (f.funct7 / 2 ^ 6 * 2 ^ 12 + f.rd % 2 * 2 ^ 11 + f.funct7 % 2 ^ 6 * 2 ^ 5 + f.rd / 2 * 2)
  pub u_imm_is : u_imm w ≡ f.funct7 * 2 ^ 25 + f.rs2 * 2 ^ 20 + f.rs1 * 2 ^ 15 + f.funct3 * 2 ^ 12
  pub j_imm_is :
      j_imm w
      ≡ sign_extend 21 (
          f.funct7 / 2 ^ 6 * 2 ^ 20
          + (f.rs1 * 8 + f.funct3) * 2 ^ 12
          + f.rs2 % 2 * 2 ^ 11
          + f.funct7 % 2 ^ 6 * 2 ^ 5
          + f.rs2 / 2 * 2)

pub word-HasFields : (f : Fields) → AreInRange f → HasFields (word f) f
word-HasFields f r =
    let w = word f in
    record {
      long = omega (arith, mask_low 2 w);
      opcode_is = omega (arith, Layout.opcode-bits w);
      funct3_is = omega (arith, Layout.funct3-bits w);
      funct7_is = omega (arith, Layout.funct7-bits w (omega arith));
      funct5_is = omega (arith, Layout.funct5-bits w (omega arith));
      whole = omega (arith, mask_low 32 w);
      rd_is = omega (arith, Layout.rd-bits w);
      rs1_is = omega (arith, Layout.rs1-bits w);
      rs2_is = omega (arith, Layout.rs2-bits w);
      i_imm_is = ground (arith, Layout.i_imm-bits w (omega arith));
      s_imm_is = ground (arith, Layout.s_imm-bits w (omega arith));
      b_imm_is = ground (arith, Layout.b_imm-bits w (omega arith));
      u_imm_is = omega (arith, Layout.u_imm-bits w (omega arith));
      j_imm_is = ground (arith, Layout.j_imm-bits w (omega arith));
    }
