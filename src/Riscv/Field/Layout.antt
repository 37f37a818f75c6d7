-- ===== src/Riscv/Field/Layout.antt =====
-- Where a 32-bit instruction word keeps its fields, as quotients and remainders.
use vanadium.Prelude.{ℕ, ◌+◌, ◌-◌, ◌*◌, ◌/◌, ◌%◌, ◌^◌, bit_and, ltb, if◌then◌else◌}
use vanadium.Prelude.{◌≡◌, arith}
use vanadium.Word.{IsU32}
use vanadium.Word.Masks.{mask_low, mask_field, mask_join, or_disjoint}
use vanadium.Riscv.Field.{rd, rs1, rs2, b_imm, i_imm, j_imm, s_imm, u_imm}

-- The bits from `lo` on, `width` of them.
abbrev pub bits : ℕ → ℕ → ℕ → ℕ
bits lo width inst = inst / 2 ^ lo % 2 ^ width

module _ (inst : ℕ) where
  pub rd-bits : rd inst ≡ bits 7 5 inst
  unfolding rd
  rd-bits = omega (arith, mask_low 5 (inst / 2 ^ 7))

  pub rs1-bits : rs1 inst ≡ bits 15 5 inst
  unfolding rs1
  rs1-bits = omega (arith, mask_low 5 (inst / 2 ^ 15))

  pub rs2-bits : rs2 inst ≡ bits 20 5 inst
  unfolding rs2
  rs2-bits = omega (arith, mask_low 5 (inst / 2 ^ 20))

  pub opcode-bits : bit_and inst 0x7f ≡ bits 0 7 inst
  opcode-bits = omega (arith, mask_low 7 inst)

  pub funct3-bits : bit_and inst 0x707f ≡ bits 12 3 inst * 2 ^ 12 + bits 0 7 inst
  funct3-bits = omega (
    arith,
    mask_join 7 inst 0xe0 0x7f (omega arith),
    mask_low 7 (inst % 2 ^ 7),
    mask_field 3 5 (inst / 2 ^ 7),
  )

  pub funct7-bits :
      IsU32 inst
      → bit_and inst 0xfe00707f ≡ bits 25 7 inst * 2 ^ 25 + bits 12 3 inst * 2 ^ 12 + bits 0 7 inst
  funct7-bits h = omega (
    arith,
    mask_join 15 inst 0x1fc00 0x707f (omega arith),
    mask_join 7 (inst % 2 ^ 15) 0xe0 0x7f (omega arith),
    mask_low 7 (inst % 2 ^ 15 % 2 ^ 7),
    mask_field 3 5 (inst % 2 ^ 15 / 2 ^ 7),
    mask_field 7 10 (inst / 2 ^ 15),
  )

  pub funct5-bits :
      IsU32 inst
      → bit_and inst 0xf800707f ≡ bits 27 5 inst * 2 ^ 27 + bits 12 3 inst * 2 ^ 12 + bits 0 7 inst
  funct5-bits h = omega (
    arith,
    mask_join 15 inst 0x1f000 0x707f (omega arith),
    mask_join 7 (inst % 2 ^ 15) 0xe0 0x7f (omega arith),
    mask_low 7 (inst % 2 ^ 15 % 2 ^ 7),
    mask_field 3 5 (inst % 2 ^ 15 / 2 ^ 7),
    mask_field 5 12 (inst / 2 ^ 15),
  )

-- A field of `w` bits as a 32-bit pattern: its top bit is repeated above.
abbrev pub sign_extend : ℕ → ℕ → ℕ
sign_extend w x = if ltb x (2 ^ w / 2) then x else x + 2 ^ 32 - 2 ^ w

module _ (inst : ℕ) (h : IsU32 inst) where
  pub i_imm-bits : i_imm inst ≡ sign_extend 12 (bits 20 12 inst)
  unfolding i_imm
  i_imm-bits = ground arith

  pub u_imm-bits : u_imm inst ≡ bits 12 20 inst * 2 ^ 12
  unfolding u_imm
  u_imm-bits = omega (arith, mask_field 20 12 inst)

  pub s_imm-bits : s_imm inst ≡ sign_extend 12 (bits 25 7 inst * 2 ^ 5 + bits 7 5 inst)
  unfolding s_imm
  s_imm-bits = ground (
    arith,
    mask_field 7 25 inst,
    mask_field 5 7 inst,
    or_disjoint 5 (bits 31 1 inst * (2 ^ 27 - 2 ^ 7) + bits 25 7 inst) (bits 7 5 inst),
  )

  -- The masks and shifts of b_imm give the sign extension of the thirteen-bit branch offset of the
  -- manual: bits 31, 7, 30 to 25 and 11 to 8 of the 32-bit word, and a zero.
  pub b_imm-bits :
      b_imm inst
      ≡ sign_extend 13 (
          bits 31 1 inst * 2 ^ 12
          + bits 7 1 inst * 2 ^ 11
          + bits 25 6 inst * 2 ^ 5
          + bits 8 4 inst * 2)
  unfolding b_imm
  b_imm-bits = ground (
    arith,
    mask_field 1 31 inst,
    mask_field 1 7 inst,
    mask_field 6 25 inst,
    mask_field 4 8 inst,
    or_disjoint 12 (bits 31 1 inst * (2 ^ 20 - 1)) (bits 7 1 inst * 2 ^ 11),
    or_disjoint 11 (bits 31 1 inst * (2 ^ 21 - 2) + bits 7 1 inst) (bits 25 6 inst * 2 ^ 5),
    or_disjoint 5 (bits 31 1 inst * (2 ^ 27 - 2 ^ 7) + bits 7 1 inst * 2 ^ 6 + bits 25 6 inst)
        (bits 8 4 inst * 2),
  )

  -- The masks and shifts of j_imm give the sign extension of the 21-bit jump offset of the manual:
  -- bits 31, 19 to 12, 20 and 30 to 21 of the 32-bit word, and a zero.
  pub j_imm-bits :
      j_imm inst
      ≡ sign_extend 21 (
          bits 31 1 inst * 2 ^ 20
          + bits 12 8 inst * 2 ^ 12
          + bits 20 1 inst * 2 ^ 11
          + bits 21 10 inst * 2)
  unfolding j_imm
  j_imm-bits = ground (
    arith,
    mask_field 1 31 inst,
    mask_field 8 12 inst,
    mask_field 1 20 inst,
    mask_field 10 21 inst,
    or_disjoint 20 (bits 31 1 inst * (2 ^ 12 - 1)) (bits 12 8 inst * 2 ^ 12),
    or_disjoint 12 (bits 31 1 inst * (2 ^ 20 - 2 ^ 8) + bits 12 8 inst) (bits 20 1 inst * 2 ^ 11),
    or_disjoint 11 (bits 31 1 inst * (2 ^ 21 - 2 ^ 9) + bits 12 8 inst * 2 + bits 20 1 inst)
        (bits 21 10 inst * 2),
  )
