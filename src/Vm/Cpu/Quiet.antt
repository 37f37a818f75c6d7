-- ===== src/Vm/Cpu/Quiet.antt =====
-- What a memory access leaves alone in the CPU: the registers and the program counter always, and
-- the reservation too unless it is a store that succeeds.
use vanadium.Prelude.{ℕ, ◌≡◌, Outcome, ok, err, panic, arith}
use vanadium.Vm.Memory.{PagedMemory}
use vanadium.Vm.Cpu.{Cpu, Access, read, write, after_store, on_stack, on_data, on_code}

-- `c` has the registers and the program counter of `c0`.
pub record HasRegisters {M : Type 0} (c0 c : Cpu M) : Type 0 where
  pub same_regs : c.regs ≡ c0.regs
  pub same_pc : c.pc ≡ c0.pc

pub record IsUntouched {M : Type 0} (c0 c : Cpu M) : Type 0 where
  pub registers : HasRegisters c0 c
  pub same_reservation : c.reservation_addr ≡ c0.reservation_addr

-- The result of a step that touches the reservation only if it succeeds.
abbrev pub IsStore : {M F A : Type 0} → Cpu M → Outcome F A × Cpu M → Type 0
IsStore c0 (ok a, c) = HasRegisters c0 c
IsStore c0 (err e, c) = IsUntouched c0 c
IsStore c0 (panic, c) = IsUntouched c0 c

module _ (P : PagedMemory) (E : Type 0) (c0 c : Cpu P.Memory) (u : IsUntouched c0 c) where
  module _ {A : Type 0} (access : ℕ → Access P E A) (a : ℕ) where
    pub read-IsUntouched : IsUntouched c0 (read P E access a c).1
    unfolding read on_stack on_data on_code
    read-IsUntouched = ground arith

  pub write-IsStore :
      (width : ℕ) (access : ℕ → ℕ → Access P E (Unit {0})) (a v : ℕ)
      → IsStore c0 (write P E width access a v c)
  unfolding write after_store on_stack on_data
  write-IsStore width access a v = ground arith
