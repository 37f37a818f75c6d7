-- ===== src/Vm/Arm/Effect.antt =====
-- What an arm does to the registers and the program counter, whatever it returns.
use vanadium.Prelude.{
  ℕ, some, ◌≡◌, ◌%◌, refl, Outcome, ok, err, panic, arith, length, length-set, String, Bool,
  Bool-cases, inl, inr, ap, ◌∙◌,
}
use vanadium.Word.{wrapping_add, IsU32}
use vanadium.Word.Masks.{mask_field}
use vanadium.Vm.Error.{CpuError}
use vanadium.Vm.Memory.{PagedMemory}
use vanadium.Vm.Cpu.{
  Cpu, Exec, reg, set_reg, read_u8, read_u16, read_u32, write_u8, write_u16, write_u32,
}
use vanadium.Vm.Cpu.Quiet.{HasRegisters, IsUntouched, IsStore, read-IsUntouched, write-IsStore}
use vanadium.Vm.Arm.{
  State, continue_with, check_aligned, binary, immediate, branch, auipc, lui, fence, jal, jalr,
  load_u8, load_u16, load_u32, store_u8, store_u16, store_u32, reserve, clear_reservation,
  load_reserved, store_if_reserved, is_reserved, store_conditional, amo,
}

-- On success as many registers as before, and an even program counter with an even increment; on
-- an error the CPU as it was, but for its memory.
abbrev pub IsDone : {M F : Type 0} → Cpu M → Outcome F ℕ × Cpu M → Type 0
IsDone c0 (ok inc, c) =
    (length c.regs ≡ length c0.regs) × (c.pc % 2 ≡ 0) × IsU32 c.pc × (inc % 2 ≡ 0)
IsDone c0 (err e, c) = IsUntouched c0 c
IsDone c0 (panic, c) = IsUntouched c0 c

pub record Ends {M F : Type 0} (c0 : Cpu M) (r : Outcome F ℕ × Cpu M) : Type 0 where
  pub at : IsDone c0 r

module _ (P : PagedMemory) (E : Type 0) (c0 : State P E) where
  Ends-value :
      {A : Type 0} (f : A → Exec P E ℕ) (a : A) (c : State P E)
      → Ends c0 (f a c)
      → Ends c0 (continue_with P E f (ok a, c))
  unfolding continue_with
  Ends-value f a c k = k

  Ends-quiet :
      {A : Type 0} (f : A → Exec P E ℕ) (r : Outcome (CpuError E) A × State P E)
      → IsUntouched c0 r.1
      → ((a : A) (c : State P E) → IsUntouched c0 c → Ends c0 (f a c))
      → Ends c0 (continue_with P E f r)
  unfolding continue_with
  Ends-quiet f (ok a, c) u k = k a c u
  Ends-quiet f (err e, c) u k = record { at = u }
  Ends-quiet f (panic, c) u k = record { at = u }

  Ends-store :
      {A : Type 0} (f : A → Exec P E ℕ) (r : Outcome (CpuError E) A × State P E)
      → IsStore c0 r
      → ((a : A) (c : State P E) → HasRegisters c0 c → Ends c0 (f a c))
      → Ends c0 (continue_with P E f r)
  unfolding continue_with
  Ends-store f (ok a, c) u k = k a c u
  Ends-store f (err e, c) u k = record { at = u }
  Ends-store f (panic, c) u k = record { at = u }

  pub untouched : IsUntouched c0 c0
  untouched = record {
    registers = record { same_regs = refl; same_pc = refl };
    same_reservation = refl;
  }

  untouched_registers : (c : State P E) → IsUntouched c0 c → HasRegisters c0 c
  untouched_registers c u = u.registers

  check-IsUntouched :
      (mask addr : ℕ) (message : String) (c : State P E)
      → IsUntouched c0 c
      → IsUntouched c0 (check_aligned P E mask addr message c).1
  unfolding check_aligned
  check-IsUntouched mask addr message c u = ground arith

  module _ (size : ℕ) (even : c0.pc % 2 ≡ 0) (fits : IsU32 c0.pc) (even_size : size % 2 ≡ 0) where
    Ends-put :
        (c : State P E) (rd v : ℕ)
        → HasRegisters c0 c
        → Ends {F = CpuError E} c0 (ok size, set_reg rd v c)
    Ends-put c rd v h = record {
      at = ground (arith, length-set c.regs rd v, length-set c0.regs rd v);
    }

    Ends-stored : (c : State P E) → HasRegisters c0 c → Ends {F = CpuError E} c0 (ok size, c)
    Ends-stored c h = record { at = ground arith }

    Ends-reserved :
        (c : State P E) (rd v addr : ℕ)
        → HasRegisters c0 c
        → Ends {F = CpuError E} c0
            (ok size, record (set_reg rd v c) { reservation_addr = some addr })
    Ends-reserved c rd v addr h = record { at = (Ends-put c rd v h).at }

    ruleset effects = (
      Ends-value, Ends-quiet, Ends-store, Ends-put, Ends-stored, Ends-reserved, untouched,
      untouched_registers, check-IsUntouched, read-IsUntouched, write-IsStore,
    )

    pub load_u8-Ends :
        (extend : ℕ → ℕ) (rd rs1 imm : ℕ) → Ends c0 (load_u8 P E size extend rd rs1 imm c0)
    unfolding load_u8 read_u8
    load_u8-Ends extend rd rs1 imm = search effects depth 12

    pub load_u16-Ends :
        (extend : ℕ → ℕ) (rd rs1 imm : ℕ) → Ends c0 (load_u16 P E size extend rd rs1 imm c0)
    unfolding load_u16 read_u16
    load_u16-Ends extend rd rs1 imm = search effects depth 12

    pub load_u32-Ends : (rd rs1 imm : ℕ) → Ends c0 (load_u32 P E size rd rs1 imm c0)
    unfolding load_u32 read_u32
    load_u32-Ends rd rs1 imm = search effects depth 12

    pub store_u8-Ends : (rs1 rs2 imm : ℕ) → Ends c0 (store_u8 P E size rs1 rs2 imm c0)
    unfolding store_u8 write_u8
    store_u8-Ends rs1 rs2 imm = search effects depth 12

    pub store_u16-Ends : (rs1 rs2 imm : ℕ) → Ends c0 (store_u16 P E size rs1 rs2 imm c0)
    unfolding store_u16 write_u16
    store_u16-Ends rs1 rs2 imm = search effects depth 12

    pub store_u32-Ends : (rs1 rs2 imm : ℕ) → Ends c0 (store_u32 P E size rs1 rs2 imm c0)
    unfolding store_u32 write_u32
    store_u32-Ends rs1 rs2 imm = search effects depth 12

    pub amo-Ends :
        (message : String) (f : ℕ → ℕ → ℕ) (rd rs1 rs2 : ℕ)
        → Ends c0 (amo P E size message f rd rs1 rs2 c0)
    unfolding amo read_u32 write_u32
    amo-Ends message f rd rs1 rs2 = search effects depth 12

    pub load_reserved-Ends : (rd rs1 : ℕ) → Ends c0 (load_reserved P E size rd rs1 c0)
    unfolding load_reserved read_u32 reserve
    load_reserved-Ends rd rs1 = search effects depth 12

    pub binary-Ends : (f : ℕ → ℕ → ℕ) (rd rs1 rs2 : ℕ) → Ends c0 (binary P E size f rd rs1 rs2 c0)
    unfolding binary
    binary-Ends f rd rs1 rs2 = search effects depth 12

    pub immediate-Ends :
        (f : ℕ → ℕ → ℕ) (rd rs1 imm : ℕ) → Ends c0 (immediate P E size f rd rs1 imm c0)
    unfolding immediate
    immediate-Ends f rd rs1 imm = search effects depth 12

    pub auipc-Ends : (rd imm : ℕ) → Ends c0 (auipc P E size rd imm c0)
    unfolding auipc
    auipc-Ends rd imm = search effects depth 12

    pub lui-Ends : (rd imm : ℕ) → Ends c0 (lui P E size rd imm c0)
    unfolding lui
    lui-Ends rd imm = search effects depth 12

    pub fence-Ends : Ends c0 (fence P E size c0)
    unfolding fence
    fence-Ends = search effects

    pub branch-Ends :
        (test : ℕ → ℕ → Bool) (rs1 rs2 imm : ℕ)
        → imm % 2 ≡ 0
        → Ends c0 (branch P E size test rs1 rs2 imm c0)
    unfolding branch
    branch-Ends test rs1 rs2 imm h = record { at = ground arith }

    pub jal-Ends : (rd imm : ℕ) → imm % 2 ≡ 0 → Ends c0 (jal P E size rd imm c0)
    unfolding jal
    jal-Ends rd imm h = record { at = (length-set c0.regs rd _, even, fits, h) }

    pub jalr-Ends : (rd rs1 imm : ℕ) → Ends c0 (jalr P E size rd rs1 imm c0)
    unfolding jalr
    jalr-Ends rd rs1 imm =
        let target = wrapping_add (reg c0 rs1) imm in
        record {
          at = (
            length-set c0.regs rd _,
            omega (arith, mask_field 31 1 target),
            omega (arith, mask_field 31 1 target),
            omega arith,
          );
        }

    -- SC.W puts its answer into a register before it gives the reservation up.
    abbrev IsAnswer : Outcome (CpuError E) (Unit {0}) × State P E → Type 0
    IsAnswer (ok u, c) = (length c.regs ≡ length c0.regs) × (c.pc ≡ c0.pc)
    IsAnswer (err e, c) = IsUntouched c0 c
    IsAnswer (panic, c) = IsUntouched c0 c

    answered :
        (rd v : ℕ) (r : Outcome (CpuError E) (Unit {0}) × State P E)
        → IsStore c0 r
        → IsAnswer (continue_with P E (λ u c. (ok tt, set_reg rd v c)) r)
    unfolding continue_with
    answered rd v (ok u, c) h = (length-set c.regs rd v ∙ ap length h.same_regs, h.same_pc)
    answered rd v (err e, c) h = h
    answered rd v (panic, c) h = h

    store_if_reserved-IsAnswer :
        (rd addr value : ℕ) (c : State P E)
        → IsUntouched c0 c
        → IsAnswer (store_if_reserved P E size rd addr value c)
    unfolding store_if_reserved write_u32 continue_with
    store_if_reserved-IsAnswer rd addr value c u =
        elim (Bool-cases (is_reserved P E size addr c.reservation_addr)) [
          | inl b ↦ rw b (answered rd 0 _ (write-IsStore P E c0 c u 4 _ addr value))
          | inr b ↦ rw b (answered rd 1 (ok tt, c) u.registers)
        ]

    Ends-answer :
        (f : Unit {0} → Exec P E ℕ) (r : Outcome (CpuError E) (Unit {0}) × State P E)
        → IsAnswer r
        → ((a : Unit {0}) (c : State P E)
            → length c.regs ≡ length c0.regs
            → c.pc ≡ c0.pc
            → Ends c0 (f a c))
        → Ends c0 (continue_with P E f r)
    unfolding continue_with
    Ends-answer f (ok a, c) u k = k a c u.0 u.1
    Ends-answer f (err e, c) u k = record { at = u }
    Ends-answer f (panic, c) u k = record { at = u }

    Ends-cleared :
        (c : State P E)
        → length c.regs ≡ length c0.regs
        → c.pc ≡ c0.pc
        → Ends {F = CpuError E} c0 (ok size, c)
    Ends-cleared c e q = record { at = ground arith }

    pub store_conditional-Ends :
        (rd rs1 rs2 : ℕ) → Ends c0 (store_conditional P E size rd rs1 rs2 c0)
    unfolding store_conditional clear_reservation
    store_conditional-Ends rd rs1 rs2 =
        search (effects, Ends-answer, store_if_reserved-IsAnswer, Ends-cleared) depth 12
