-- ===== src/Riscv/Compressed/Even.antt =====
-- The jump offsets of the 16-bit instructions are even.
use vanadium.Prelude.{ℕ, ◌%◌, ◌≡◌, arith}
use vanadium.Word.Bits.{bit_or_even}
use vanadium.Word.Masks.{mask_field}
use vanadium.Riscv.Compressed.{cb_imm, cj_imm}

module _ (inst : ℕ) where
  pub cb_imm_even : cb_imm inst % 2 ≡ 0
  unfolding cb_imm
  cb_imm_even =
      bit_or_even _ _
        (bit_or_even _ _
          (bit_or_even _ _ (bit_or_even _ _ (ground (arith, mask_field 1 12 inst)) (omega arith))
            (omega arith))
          (ground (arith, mask_field 2 10 inst)))
        (ground (arith, mask_field 2 3 inst))

  pub cj_imm_even : cj_imm inst % 2 ≡ 0
  unfolding cj_imm
  cj_imm_even =
      bit_or_even _ _
        (bit_or_even _ _
          (bit_or_even _ _
            (bit_or_even _ _
              (bit_or_even _ _
                (bit_or_even _ _
                  (bit_or_even _ _ (ground (arith, mask_field 1 12 inst)) (omega arith))
                  (ground (arith, mask_field 2 9 inst)))
                (omega arith))
              (ground (arith, mask_field 1 7 inst)))
            (omega arith))
          (ground (arith, mask_field 1 11 inst)))
        (ground (arith, mask_field 3 3 inst))
