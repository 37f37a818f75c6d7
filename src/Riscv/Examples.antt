-- ===== src/Riscv/Examples.antt =====
-- The decoder at concrete instructions.
use vanadium.Prelude.{◌≡◌, ◌%◌, ◌*◌, ◌^◌, ◌+◌, arith}
use vanadium.Riscv.Op.{Op}
use vanadium.Riscv.Field.{b_imm, j_imm}
use vanadium.Riscv.Field.Layout.{bits, sign_extend, b_imm-bits, j_imm-bits}
use vanadium.Riscv.Decode.{decode}
use vanadium.Riscv.Decode.Encode.{encode}
use vanadium.Riscv.Decode.RoundTrip.{decode-encode}
use vanadium.Riscv.Decode.Jumps.{HasEvenOffset, decode-HasEvenOffset}

-- add x1, x2, x3
decode-encode_example : decode (encode (Op.add 1 2 3)) ≡ (Op.add 1 2 3, 4)
decode-encode_example = decode-encode (Op.add 1 2 3) (omega arith, omega arith, omega arith)

-- jal x0, 0
decode-HasEvenOffset_example : HasEvenOffset (decode 0x6f).0 × ((decode 0x6f).1 % 2 ≡ 0)
decode-HasEvenOffset_example = decode-HasEvenOffset 0x6f (omega arith)

-- beq x0, x0, -4
b_imm-bits_example :
    b_imm 0xfe000ee3
    ≡ sign_extend 13 (
        bits 31 1 0xfe000ee3 * 2 ^ 12
        + bits 7 1 0xfe000ee3 * 2 ^ 11
        + bits 25 6 0xfe000ee3 * 2 ^ 5
        + bits 8 4 0xfe000ee3 * 2)
b_imm-bits_example = b_imm-bits 0xfe000ee3 (omega arith)

-- jal x0, -4
j_imm-bits_example :
    j_imm 0xffdff06f
    ≡ sign_extend 21 (
        bits 31 1 0xffdff06f * 2 ^ 20
        + bits 12 8 0xffdff06f * 2 ^ 12
        + bits 20 1 0xffdff06f * 2 ^ 11
        + bits 21 10 0xffdff06f * 2)
j_imm-bits_example = j_imm-bits 0xffdff06f (omega arith)
