-- ===== src/Vm/Arm/Reservation.antt =====
-- The reservation that LR.W takes and SC.W needs.
use vanadium.Prelude.{ℕ, ◌+◌, ◌<◌, ◌≡◌, refl, ap, ◌∙◌, bit_and}
use vanadium.Prelude.{none, some, ok}
use vanadium.Vm.Memory.{PagedMemory}
use vanadium.Vm.Cpu.{Access, reg, set_reg, invalidate, write}
use vanadium.Vm.Cpu.Invalidate.{invalidate-touching, write-reservation}
use vanadium.Vm.Arm.{
  State, continue_with, check_aligned, is_reserved, store_if_reserved, store_conditional,
  clear_reservation,
}

module _ (P : PagedMemory) (E : Type 0) where
  store_conditional_without :
      (size rd rs1 rs2 : ℕ) (cpu : State P E)
      → bit_and (reg cpu rs1) 3 ≡ 0
      → cpu.reservation_addr ≡ none
      → store_conditional P E size rd rs1 rs2 cpu
        ≡ (ok size, record (set_reg rd 1 cpu) { reservation_addr = none })
  unfolding store_conditional check_aligned store_if_reserved continue_with is_reserved
      clear_reservation
  store_conditional_without size rd rs1 rs2 cpu aligned gone = rw (aligned, gone) refl

  -- After a successful store that touches a byte of the reserved word, SC.W at an aligned address
  -- fails: it returns the length of the instruction, puts 1 into its destination, changes nothing
  -- else of the CPU and leaves no reservation.
  pub store_conditional-write :
      (width : ℕ) (access : ℕ → ℕ → Access P E (Unit {0})) (address value res size rd rs1 rs2 : ℕ)
      (cpu : State P E)
      → cpu.reservation_addr ≡ some res
      → address < res + 4
      → res < address + width
      → 0 < width
      → (write P E width access address value cpu).0 ≡ ok tt
      → let after = (write P E width access address value cpu).1 in
        bit_and (reg after rs1) 3 ≡ 0
        → store_conditional P E size rd rs1 rs2 after
          ≡ (ok size, record (set_reg rd 1 after) { reservation_addr = none })
  store_conditional-write width access address value res size rd rs1 rs2 cpu reserved below above
        positive e aligned =
      let after = (write P E width access address value cpu).1 in
      let gone : after.reservation_addr ≡ none =
        write-reservation P E width access address value cpu e
        ∙ ap (invalidate width address) reserved
        ∙ invalidate-touching width address res below above positive in
      store_conditional_without size rd rs1 rs2 after aligned gone
