-- ===== src/Vm/Arm.antt =====
-- The shapes of the arms of `Cpu::execute` in common/src/vm.rs: what a class of instructions does with
-- its operands.
pub mod Effect
pub mod Reservation
use vanadium.Prelude.{ℕ, false, ◌==◌, Bool, not, bit_and, if◌then◌else◌, String}
use vanadium.Prelude.{Option, none, some, Outcome, ok, err, panic}
use vanadium.Word.{u8, u16, wrapping_add}
use vanadium.Vm.Error.{CpuError}
use vanadium.Vm.Memory.{PagedMemory}
use vanadium.Vm.Cpu.{
  Cpu, Exec, reg, set_reg, read_u8, read_u16, read_u32, write_u8, write_u16, write_u32,
}

module _ (P : PagedMemory) (E : Type 0) where
  abbrev pub State : Type 0
  State = Cpu P.Memory

  -- `?`: a step goes on from a value, and ends at an error.
  pub continue_with :
      {A B : Type 0}
      → (A → Exec P E B)
      → Outcome (CpuError E) A × State
      → Outcome (CpuError E) B × State
  continue_with f (ok a, cpu) = f a cpu
  continue_with f (err e, cpu) = (err e, cpu)
  continue_with f (panic, cpu) = (panic, cpu)

  infixl 5 ◌>>=◌ ◌>>◌
  abbrev pub ◌>>=◌ : {A B : Type 0} → Exec P E A → (A → Exec P E B) → Exec P E B
  ◌>>=◌ m f cpu = continue_with f (m cpu)

  abbrev pub ◌>>◌ : {B : Type 0} → Exec P E (Unit {0}) → Exec P E B → Exec P E B
  m >> k = m >>= λ _. k

  abbrev pure : {A : Type 0} → A → Exec P E A
  pure a cpu = (ok a, cpu)

  abbrev get : ℕ → Exec P E ℕ
  get i cpu = (ok (reg cpu i), cpu)

  abbrev put : ℕ → ℕ → Exec P E (Unit {0})
  put i v cpu = (ok tt, set_reg i v cpu)

  -- `if addr & mask != 0 { return Err(message) }`
  pub check_aligned : ℕ → ℕ → String → Exec P E (Unit {0})
  check_aligned mask addr message cpu =
      if not (bit_and addr mask == 0)
      then (err (CpuError.generic_error message), cpu)
      else (ok tt, cpu)

  -- The shapes of the arms. Each returns the increment of the program counter, which is the size of
  -- the instruction unless it jumps.
  module _ (size : ℕ) where
    unfoldable pub binary : (ℕ → ℕ → ℕ) → ℕ → ℕ → ℕ → Exec P E ℕ
    binary f rd rs1 rs2 cpu = (ok size, set_reg rd (f (reg cpu rs1) (reg cpu rs2)) cpu)

    pub immediate : (ℕ → ℕ → ℕ) → ℕ → ℕ → ℕ → Exec P E ℕ
    immediate f rd rs1 imm cpu = (ok size, set_reg rd (f (reg cpu rs1) imm) cpu)

    pub branch : (ℕ → ℕ → Bool) → ℕ → ℕ → ℕ → Exec P E ℕ
    branch test rs1 rs2 imm cpu = (ok (if test (reg cpu rs1) (reg cpu rs2) then imm else size), cpu)

    pub auipc : ℕ → ℕ → Exec P E ℕ
    auipc rd imm cpu = (ok size, set_reg rd (wrapping_add cpu.pc imm) cpu)

    pub lui : ℕ → ℕ → Exec P E ℕ
    lui rd imm cpu = (ok size, set_reg rd imm cpu)

    -- One hart, and no speculation: nothing to do.
    pub fence : Exec P E ℕ
    fence = pure size

    pub jal : ℕ → ℕ → Exec P E ℕ
    jal rd imm cpu = (ok imm, set_reg rd (wrapping_add cpu.pc size) cpu)

    pub jalr : ℕ → ℕ → ℕ → Exec P E ℕ
    jalr rd rs1 imm cpu =
        let new_pc = bit_and (wrapping_add (reg cpu rs1) imm) 0xfffffffe in
        (ok 0, record (set_reg rd (wrapping_add cpu.pc size) cpu) { pc = new_pc })

    pub load_u8 : (ℕ → ℕ) → ℕ → ℕ → ℕ → Exec P E ℕ
    load_u8 extend rd rs1 imm = do
      base ← get rs1
      value ← read_u8 P E (wrapping_add base imm)
      put rd (extend value)
      pure size

    pub load_u16 : (ℕ → ℕ) → ℕ → ℕ → ℕ → Exec P E ℕ
    load_u16 extend rd rs1 imm = do
      base ← get rs1
      check_aligned 1 (wrapping_add base imm) "Unaligned 16-bit read"
      value ← read_u16 P E (wrapping_add base imm)
      put rd (extend value)
      pure size

    pub load_u32 : ℕ → ℕ → ℕ → Exec P E ℕ
    load_u32 rd rs1 imm = do
      base ← get rs1
      check_aligned 3 (wrapping_add base imm) "Unaligned 32-bit read"
      value ← read_u32 P E (wrapping_add base imm)
      put rd value
      pure size

    pub store_u8 : ℕ → ℕ → ℕ → Exec P E ℕ
    store_u8 rs1 rs2 imm = do
      base ← get rs1
      value ← get rs2
      write_u8 P E (wrapping_add base imm) (u8 value)
      pure size

    pub store_u16 : ℕ → ℕ → ℕ → Exec P E ℕ
    store_u16 rs1 rs2 imm = do
      base ← get rs1
      check_aligned 1 (wrapping_add base imm) "Unaligned 16-bit write"
      value ← get rs2
      write_u16 P E (wrapping_add base imm) (u16 value)
      pure size

    pub store_u32 : ℕ → ℕ → ℕ → Exec P E ℕ
    store_u32 rs1 rs2 imm = do
      base ← get rs1
      check_aligned 3 (wrapping_add base imm) "Unaligned 32-bit write"
      value ← get rs2
      write_u32 P E (wrapping_add base imm) value
      pure size

    pub reserve : ℕ → Exec P E (Unit {0})
    reserve addr cpu = (ok tt, record cpu { reservation_addr = some addr })

    pub clear_reservation : Exec P E (Unit {0})
    clear_reservation cpu = (ok tt, record cpu { reservation_addr = none })

    pub is_reserved : ℕ → Option ℕ → Bool
    is_reserved addr none = false
    is_reserved addr (some res) = res == addr

    pub load_reserved : ℕ → ℕ → Exec P E ℕ
    load_reserved rd rs1 = do
      addr ← get rs1
      check_aligned 3 addr "Unaligned LR.W address"
      value ← read_u32 P E addr
      put rd value
      reserve addr
      pure size

    -- The two branches of SC.W.
    pub store_if_reserved : ℕ → ℕ → ℕ → Exec P E (Unit {0})
    store_if_reserved rd addr value cpu =
        if is_reserved addr cpu.reservation_addr
        then (do write_u32 P E addr value; put rd 0) cpu
        else put rd 1 cpu

    pub store_conditional : ℕ → ℕ → ℕ → Exec P E ℕ
    store_conditional rd rs1 rs2 = do
      addr ← get rs1
      check_aligned 3 addr "Unaligned SC.W address"
      value ← get rs2
      store_if_reserved rd addr value
      clear_reservation
      pure size

    -- Read, combine with the second register, write, and return the old value.
    pub amo : String → (ℕ → ℕ → ℕ) → ℕ → ℕ → ℕ → Exec P E ℕ
    amo message f rd rs1 rs2 = do
      addr ← get rs1
      check_aligned 3 addr message
      old ← read_u32 P E addr
      value ← get rs2
      write_u32 P E addr (f old value)
      put rd old
      pure size
