-- ===== src/Riscv/Decode/RoundTrip.antt =====
-- The decoder against the instruction formats: every 32-bit instruction decodes to itself.
use vanadium.Prelude.{◌≡◌, arith}
use vanadium.Riscv.Op.{Op}
use vanadium.Riscv.Decode.{decode, decode_uncompressed, decode_register, decode_immediate}
use vanadium.Riscv.Decode.{decode_branch, decode_load, decode_store, decode_atomic, decode_system}
use vanadium.Riscv.Decode.Encode.{fields, encode, IsEncodable}
use vanadium.Riscv.Decode.Word.{AreInRange, HasFields, word-HasFields}

fields-AreInRange : (op : Op) → IsEncodable op → AreInRange (fields op)
unfolding fields
fields-AreInRange Op.unknown h = absurd h
fields-AreInRange _ h = omega arith

encode-HasFields : (op : Op) → IsEncodable op → HasFields (encode op) (fields op)
unfolding encode
encode-HasFields op h = word-HasFields (fields op) (fields-AreInRange op h)

-- The decoder inverts the encoding of the RV32IMA instructions: a word laid out by the formats of
-- the manual, from an instruction with operands in range, is decoded to that instruction and four
-- bytes.
pub decode-encode : (op : Op) → IsEncodable op → decode (encode op) ≡ (op, 4)
unfolding decode decode_uncompressed decode_register decode_immediate decode_branch decode_load
    decode_store decode_atomic decode_system fields
decode-encode Op.unknown h = absurd h
decode-encode op h =
    let f = encode-HasFields op h in
    simp
      (
        f.long, f.opcode_is, f.funct3_is, f.funct7_is, f.funct5_is, f.whole, f.rd_is, f.rs1_is,
        f.rs2_is, f.i_imm_is, f.s_imm_is, f.b_imm_is, f.u_imm_is, f.j_imm_is,
      )
      (ground arith)
