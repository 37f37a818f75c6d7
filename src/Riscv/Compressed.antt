-- ===== src/Riscv/Compressed.antt =====
-- The 16-bit instructions: common/src/riscv/decode.rs, module `rv32c`.
pub mod Even
use vanadium.Prelude.{ℕ, ◌+◌, bit_and, bit_or, ◌==◌, if◌then◌else◌}
use vanadium.Word.{u8, u16, shl32, shr32, sar32}
use vanadium.Riscv.Op.{Op}

pub c_rd : ℕ → ℕ
c_rd inst = u8 (bit_and (shr32 inst 7) 0b11111)

pub c_rds : ℕ → ℕ
c_rds inst = 8 + u8 (bit_and (shr32 inst 2) 0b111)

pub c_rs1 : ℕ → ℕ
c_rs1 inst = u8 (bit_and (shr32 inst 7) 0b11111)

pub c_rs2 : ℕ → ℕ
c_rs2 inst = u8 (bit_and (shr32 inst 2) 0b11111)

pub c_rs1s : ℕ → ℕ
c_rs1s inst = 8 + u8 (bit_and (shr32 inst 7) 0b111)

pub c_rs2s : ℕ → ℕ
c_rs2s inst = 8 + u8 (bit_and (shr32 inst 2) 0b111)

pub c_funct3 : ℕ → ℕ
c_funct3 inst = u16 (bit_and (shr32 inst 13) 0b111)

pub ci_imm : ℕ → ℕ
ci_imm inst =
    bit_or (sar32 (shl32 (bit_and inst 0b00010000_00000000) 19) 26)
      (sar32 (bit_and inst 0b00000000_01111100) 2)

pub ci_addi16sp_imm : ℕ → ℕ
ci_addi16sp_imm inst =
    bit_or
      (bit_or
        (bit_or
          (bit_or (sar32 (shl32 (bit_and inst 0b00010000_00000000) 19) 22)
            (shl32 (bit_and inst 0b00000000_00011000) 4))
          (shl32 (bit_and inst 0b00000000_00100000) 1))
        (shl32 (bit_and inst 0b00000000_00000100) 3))
      (sar32 (bit_and inst 0b00000000_01000000) 2)

pub ci_lwsp_imm : ℕ → ℕ
ci_lwsp_imm inst =
    bit_or
      (bit_or (shl32 (bit_and inst 0b00000000_00001100) 4)
        (sar32 (bit_and inst 0b00010000_00000000) 7))
      (sar32 (bit_and inst 0b00000000_01110000) 2)

pub css_swsp_imm : ℕ → ℕ
css_swsp_imm inst =
    bit_or (sar32 (bit_and inst 0b00000001_10000000) 1) (sar32 (bit_and inst 0b00011110_00000000) 7)

pub ciw_addi4spn_imm : ℕ → ℕ
ciw_addi4spn_imm inst =
    bit_or
      (bit_or
        (bit_or (shr32 (bit_and inst 0b00011000_00000000) 7)
          (shr32 (bit_and inst 0b00000111_10000000) 1))
        (shr32 (bit_and inst 0b00000000_01000000) 4))
      (shr32 (bit_and inst 0b00000000_00100000) 2)

pub cl_lw_offset : ℕ → ℕ
cl_lw_offset inst =
    bit_or
      (bit_or (shl32 (bit_and inst 0b00000000_00100000) 1)
        (sar32 (bit_and inst 0b00011100_00000000) 7))
      (sar32 (bit_and inst 0b00000000_01000000) 4)

pub cs_sw_offset : ℕ → ℕ
cs_sw_offset inst = cl_lw_offset inst

pub cb_imm : ℕ → ℕ
cb_imm inst =
    bit_or
      (bit_or
        (bit_or
          (bit_or (sar32 (shl32 (bit_and inst 0b00010000_00000000) 19) 23)
            (shl32 (bit_and inst 0b00000000_01100000) 1))
          (shl32 (bit_and inst 0b00000000_00000100) 3))
        (sar32 (bit_and inst 0b00001100_00000000) 7))
      (sar32 (bit_and inst 0b00000000_00011000) 2)

pub cj_imm : ℕ → ℕ
cj_imm inst =
    bit_or
      (bit_or
        (bit_or
          (bit_or
            (bit_or
              (bit_or
                (bit_or (sar32 (shl32 (bit_and inst 0b00010000_00000000) 19) 20)
                  (shl32 (bit_and inst 0b00000001_00000000) 2))
                (sar32 (bit_and inst 0b00000110_00000000) 1))
              (shl32 (bit_and inst 0b00000000_01000000) 1))
            (sar32 (bit_and inst 0b00000000_10000000) 1))
          (shl32 (bit_and inst 0b00000000_00000100) 3))
        (sar32 (bit_and inst 0b00001000_00000000) 7))
      (sar32 (bit_and inst 0b00000000_00111000) 2)

-- The match of quadrant 0, 1 and 2, and the matches inside them that have a name in the manual.
unfoldable pub quadrant_0 : ℕ → Op
quadrant_0 inst =
    if c_funct3 inst == 0b000
    then (let imm = ciw_addi4spn_imm inst in
        if imm == 0 then Op.unknown else Op.addi (c_rds inst) 2 imm)
    else if c_funct3 inst == 0b010
    then Op.lw (c_rds inst) (c_rs1s inst) (cl_lw_offset inst)
    else if c_funct3 inst == 0b110
    then Op.sw (c_rs1s inst) (c_rs2s inst) (cs_sw_offset inst)
    else Op.unknown

unfoldable pub misc_lui : ℕ → Op
misc_lui inst =
    if c_rd inst == 2
    then (let imm = ci_addi16sp_imm inst in if imm == 0 then Op.unknown else Op.addi 2 2 imm)
    else Op.lui (c_rd inst) (shl32 (ci_imm inst) 12)

-- The two last arms of `(inst >> 5) & 0b11` cannot be reached by another value.
unfoldable pub misc_register : ℕ → Op
misc_register inst =
    let funct = bit_and (shr32 inst 5) 0b11 in
    if funct == 0b00
    then Op.sub (c_rs1s inst) (c_rs1s inst) (c_rs2s inst)
    else if funct == 0b01
    then Op.xor (c_rs1s inst) (c_rs1s inst) (c_rs2s inst)
    else if funct == 0b10
    then Op.or (c_rs1s inst) (c_rs1s inst) (c_rs2s inst)
    else Op.and (c_rs1s inst) (c_rs1s inst) (c_rs2s inst)

unfoldable pub misc_alu : ℕ → Op
misc_alu inst =
    let funct = bit_and (shr32 inst 10) 0b11 in
    if funct == 0b00
    then Op.srli (c_rs1s inst) (c_rs1s inst) (bit_and (ci_imm inst) 31)
    else if funct == 0b01
    then Op.srai (c_rs1s inst) (c_rs1s inst) (bit_and (ci_imm inst) 31)
    else if funct == 0b10
    then Op.andi (c_rs1s inst) (c_rs1s inst) (ci_imm inst)
    else if bit_and inst 0x1000 == 0
    then misc_register inst
    else Op.unknown

unfoldable pub quadrant_1 : ℕ → Op
quadrant_1 inst =
    if c_funct3 inst == 0b000
    then Op.addi (c_rd inst) (c_rd inst) (ci_imm inst)
    else if c_funct3 inst == 0b001
    then Op.jal 1 (cj_imm inst)
    else if c_funct3 inst == 0b010
    then Op.addi (c_rd inst) 0 (ci_imm inst)
    else if c_funct3 inst == 0b011
    then misc_lui inst
    else if c_funct3 inst == 0b100
    then misc_alu inst
    else if c_funct3 inst == 0b101
    then Op.jal 0 (cj_imm inst)
    else if c_funct3 inst == 0b110
    then Op.beq (c_rs1s inst) 0 (cb_imm inst)
    else if c_funct3 inst == 0b111
    then Op.bne (c_rs1s inst) 0 (cb_imm inst)
    else Op.unknown

unfoldable pub jump_or_move : ℕ → Op
jump_or_move inst =
    if bit_and (shr32 inst 12) 1 == 0
    then (if c_rs2 inst == 0
        then (if c_rs1 inst == 0 then Op.unknown else Op.jalr 0 (c_rs1 inst) 0)
        else Op.add (c_rd inst) 0 (c_rs2 inst))
    else (if c_rs2 inst == 0
        then (if c_rs1 inst == 0 then Op.break else Op.jalr 1 (c_rs1 inst) 0)
        else Op.add (c_rd inst) (c_rd inst) (c_rs2 inst))

unfoldable pub quadrant_2 : ℕ → Op
quadrant_2 inst =
    if c_funct3 inst == 0b000
    then (if c_rd inst == 0
        then Op.unknown
        else Op.slli (c_rd inst) (c_rd inst) (bit_and (ci_imm inst) 31))
    else if c_funct3 inst == 0b010
    then (if c_rd inst == 0 then Op.unknown else Op.lw (c_rd inst) 2 (ci_lwsp_imm inst))
    else if c_funct3 inst == 0b100
    then jump_or_move inst
    else if c_funct3 inst == 0b110
    then Op.sw 2 (c_rs2 inst) (css_swsp_imm inst)
    else Op.unknown

unfoldable pub decode_compressed : ℕ → Op
decode_compressed inst =
    if bit_and inst 0b11 == 0b00
    then quadrant_0 inst
    else if bit_and inst 0b11 == 0b01
    then quadrant_1 inst
    else if bit_and inst 0b11 == 0b10
    then quadrant_2 inst
    else Op.unknown
