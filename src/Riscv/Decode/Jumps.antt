-- ===== src/Riscv/Decode/Jumps.antt =====
-- The offsets of JAL and of the conditional branches in common/src/riscv/decode.rs.
use vanadium.Prelude.{
  ℕ, ◌%◌, ◌≡◌, ◌==◌, bit_and, refl, inl, inr, Bool, Bool-cases, true, false, if◌then◌else◌, arith,
}
use vanadium.Word.{IsU32, u16}
use vanadium.Riscv.Op.{Op}
use vanadium.Riscv.Field.{b_imm, j_imm}
use vanadium.Riscv.Field.Layout.{b_imm-bits, j_imm-bits}
use vanadium.Riscv.Compressed.{decode_compressed, quadrant_0, quadrant_1, quadrant_2}
use vanadium.Riscv.Compressed.{misc_lui, misc_alu, misc_register, jump_or_move}
use vanadium.Riscv.Compressed.Even.{cb_imm_even, cj_imm_even}
use vanadium.Riscv.Decode.{decode, decode_uncompressed, decode_register, decode_immediate}
use vanadium.Riscv.Decode.{decode_branch, decode_load, decode_store, decode_atomic, decode_system}

abbrev pub EvenOffset : Op → Type 0
EvenOffset (Op.beq rs1 rs2 imm) = imm % 2 ≡ 0
EvenOffset (Op.bne rs1 rs2 imm) = imm % 2 ≡ 0
EvenOffset (Op.blt rs1 rs2 imm) = imm % 2 ≡ 0
EvenOffset (Op.bge rs1 rs2 imm) = imm % 2 ≡ 0
EvenOffset (Op.bltu rs1 rs2 imm) = imm % 2 ≡ 0
EvenOffset (Op.bgeu rs1 rs2 imm) = imm % 2 ≡ 0
EvenOffset (Op.jal rd imm) = imm % 2 ≡ 0
EvenOffset op = Unit

pub record HasEvenOffset (op : Op) : Type 0 where
  pub at : EvenOffset op

HasEvenOffset-if :
    (b : Bool) (x y : Op) → HasEvenOffset x → HasEvenOffset y → HasEvenOffset (if b then x else y)
HasEvenOffset-if true x y hx hy = hx
HasEvenOffset-if false x y hx hy = hy

ruleset rules = (HasEvenOffset-if, tt)

module _ (inst : ℕ) where
  quadrant_0-HasEvenOffset : HasEvenOffset (quadrant_0 inst)
  unfolding quadrant_0
  quadrant_0-HasEvenOffset = search rules depth 30

  misc_lui-HasEvenOffset : HasEvenOffset (misc_lui inst)
  unfolding misc_lui
  misc_lui-HasEvenOffset = search rules depth 30

  misc_register-HasEvenOffset : HasEvenOffset (misc_register inst)
  unfolding misc_register
  misc_register-HasEvenOffset = search rules depth 30

  misc_alu-HasEvenOffset : HasEvenOffset (misc_alu inst)
  unfolding misc_alu
  misc_alu-HasEvenOffset = search (rules, misc_register-HasEvenOffset) depth 30

  quadrant_1-HasEvenOffset : HasEvenOffset (quadrant_1 inst)
  unfolding quadrant_1
  quadrant_1-HasEvenOffset =
      search (rules, misc_lui-HasEvenOffset, misc_alu-HasEvenOffset, cb_imm_even, cj_imm_even) depth
        30

  jump_or_move-HasEvenOffset : HasEvenOffset (jump_or_move inst)
  unfolding jump_or_move
  jump_or_move-HasEvenOffset = search rules depth 30

  quadrant_2-HasEvenOffset : HasEvenOffset (quadrant_2 inst)
  unfolding quadrant_2
  quadrant_2-HasEvenOffset = search (rules, jump_or_move-HasEvenOffset) depth 30

  decode_compressed-HasEvenOffset : HasEvenOffset (decode_compressed inst)
  unfolding decode_compressed
  decode_compressed-HasEvenOffset =
      search (rules, quadrant_0-HasEvenOffset, quadrant_1-HasEvenOffset, quadrant_2-HasEvenOffset)
        depth 30

  decode_load-HasEvenOffset : HasEvenOffset (decode_load inst)
  unfolding decode_load
  decode_load-HasEvenOffset = search rules depth 30

  decode_store-HasEvenOffset : HasEvenOffset (decode_store inst)
  unfolding decode_store
  decode_store-HasEvenOffset = search rules depth 30

  decode_immediate-HasEvenOffset : HasEvenOffset (decode_immediate inst)
  unfolding decode_immediate
  decode_immediate-HasEvenOffset = search rules depth 30

  decode_register-HasEvenOffset : HasEvenOffset (decode_register inst)
  unfolding decode_register
  decode_register-HasEvenOffset = search rules depth 30

  decode_atomic-HasEvenOffset : HasEvenOffset (decode_atomic inst)
  unfolding decode_atomic
  decode_atomic-HasEvenOffset = search rules depth 30

  decode_system-HasEvenOffset : HasEvenOffset (decode_system inst)
  unfolding decode_system
  decode_system-HasEvenOffset = search rules depth 30

  module _ (h : IsU32 inst) where
    b_imm_even : b_imm inst % 2 ≡ 0
    b_imm_even = ground (arith, b_imm-bits inst h)

    j_imm_even : j_imm inst % 2 ≡ 0
    j_imm_even = ground (arith, j_imm-bits inst h)

    decode_branch-HasEvenOffset : HasEvenOffset (decode_branch inst)
    unfolding decode_branch
    decode_branch-HasEvenOffset = search (rules, b_imm_even) depth 30

    decode_uncompressed-HasEvenOffset : HasEvenOffset (decode_uncompressed inst)
    unfolding decode_uncompressed
    decode_uncompressed-HasEvenOffset =
        search
          (
            rules, j_imm_even, decode_branch-HasEvenOffset, decode_load-HasEvenOffset,
            decode_store-HasEvenOffset, decode_immediate-HasEvenOffset,
            decode_register-HasEvenOffset, decode_atomic-HasEvenOffset, decode_system-HasEvenOffset,
          )
          depth 40

-- Whatever 32-bit word is decoded, compressed or not, the offset of JAL and of a conditional branch
-- is even, and so is the length of the instruction. The offset of JALR, which may be odd, is left
-- open.
pub decode-HasEvenOffset :
    (inst : ℕ) → IsU32 inst → HasEvenOffset (decode inst).0 × ((decode inst).1 % 2 ≡ 0)
unfolding decode
decode-HasEvenOffset inst h = elim (Bool-cases (bit_and inst 0x3 == 0x3)) [
  | inl e ↦ rw e (decode_uncompressed-HasEvenOffset inst h, refl)
  | inr e ↦ rw e (decode_compressed-HasEvenOffset (u16 inst), refl)
]
