-- ===== src/Vm/Cpu.antt =====
-- The CPU and its access to the three segments: `Cpu` of common/src/vm.rs.
pub mod Quiet
pub mod Invalidate
pub mod Code
mod Examples
use vanadium.Prelude.{ℕ, ◌-◌, ◌%◌, ◌==◌, ltb, not, ◌&&◌, bit_and, bit_or, if◌then◌else◌}
use vanadium.Prelude.{
  List, Option, none, some, Outcome, ok, err, panic, map_err, get_or, set, replicate,
}
use vanadium.Word.{wrapping_add, shl32}
use vanadium.Vm.Error.{MemoryError, CpuError, address_out_of_bounds}
use vanadium.Vm.Memory.{PagedMemory}
use vanadium.Vm.Segment.{MemorySegment, Segment, contains}
use vanadium.Vm.Segment

pub record Cpu (M : Type 0) : Type 0 where
  pub pc : ℕ
  pub regs : List ℕ
  pub code_seg : MemorySegment M
  pub data_seg : MemorySegment M
  pub stack_seg : MemorySegment M
  pub reservation_addr : Option ℕ

pub new : {M : Type 0} → ℕ → MemorySegment M → MemorySegment M → MemorySegment M → Cpu M
new entrypoint code_seg data_seg stack_seg = record {
  pc = entrypoint;
  regs = replicate 32 0;
  code_seg = code_seg;
  data_seg = data_seg;
  stack_seg = stack_seg;
  reservation_addr = none;
}

-- `self.regs[i]`: the decoder gives registers below 32 only.
abbrev pub reg : {M : Type 0} → Cpu M → ℕ → ℕ
reg cpu i = get_or cpu.regs i 0

abbrev pub set_reg : {M : Type 0} → ℕ → ℕ → Cpu M → Cpu M
set_reg i v cpu = record cpu { regs = set cpu.regs i v }

-- A store of `width` bytes that touches the reserved word takes the reservation away;
-- `saturating_sub` is the subtraction of the natural numbers.
pub invalidate : ℕ → ℕ → Option ℕ → Option ℕ
invalidate width address none = none
invalidate width address (some res) =
    if ltb (address - res) 4 && ltb (res - address) width then none else some res

module _ (P : PagedMemory) (E : Type 0) where
  -- A step that may fail, over the CPU.
  abbrev pub Exec : Type 0 → Type 0
  Exec A = Cpu P.Memory → Outcome (CpuError E) A × Cpu P.Memory

  abbrev pub Access : Type 0 → Type 0
  Access A = Segment P → Outcome MemoryError A × Segment P

  pub on_stack : {A : Type 0} → Access A → Exec A
  on_stack access cpu =
      let (r, seg) = access cpu.stack_seg in
      (map_err CpuError.memory_error r, record cpu { stack_seg = seg })

  pub on_data : {A : Type 0} → Access A → Exec A
  on_data access cpu =
      let (r, seg) = access cpu.data_seg in
      (map_err CpuError.memory_error r, record cpu { data_seg = seg })

  pub on_code : {A : Type 0} → Access A → Exec A
  on_code access cpu =
      let (r, seg) = access cpu.code_seg in
      (map_err CpuError.memory_error r, record cpu { code_seg = seg })

  -- The segment that contains an address is read: the stack, the data, or the code.
  pub read : {A : Type 0} → (ℕ → Access A) → ℕ → Exec A
  read access address cpu =
      if contains cpu.stack_seg address
      then on_stack (access address) cpu
      else if contains cpu.data_seg address
      then on_data (access address) cpu
      else if contains cpu.code_seg address
      then on_code (access address) cpu
      else (err (CpuError.memory_error address_out_of_bounds), cpu)

  unfoldable pub read_u8 : ℕ → Exec ℕ
  read_u8 = read (Segment.read_u8 P)

  unfoldable pub read_u16 : ℕ → Exec ℕ
  read_u16 = read (Segment.read_u16 P)

  unfoldable pub read_u32 : ℕ → Exec ℕ
  read_u32 = read (Segment.read_u32 P)

  -- What follows a store that has returned normally; `?` ends an unsuccessful one before.
  pub after_store :
      ℕ
      → ℕ
      → Outcome (CpuError E) (Unit {0}) × Cpu P.Memory
      → Outcome (CpuError E) (Unit {0}) × Cpu P.Memory
  after_store width address (ok u, cpu) =
      (ok u, record cpu { reservation_addr = invalidate width address cpu.reservation_addr })
  after_store width address (err e, cpu) = (err e, cpu)
  after_store width address (panic, cpu) = (panic, cpu)

  -- Only the stack and the data can be written.
  pub write : ℕ → (ℕ → ℕ → Access (Unit {0})) → ℕ → ℕ → Exec (Unit {0})
  write width access address value cpu =
      if contains cpu.stack_seg address
      then after_store width address (on_stack (access address value) cpu)
      else if contains cpu.data_seg address
      then after_store width address (on_data (access address value) cpu)
      else (err (CpuError.memory_error address_out_of_bounds), cpu)

  unfoldable pub write_u8 : ℕ → ℕ → Exec (Unit {0})
  write_u8 = write 1 (Segment.write_u8 P)

  unfoldable pub write_u16 : ℕ → ℕ → Exec (Unit {0})
  write_u16 = write 2 (Segment.write_u16 P)

  unfoldable pub write_u32 : ℕ → ℕ → Exec (Unit {0})
  write_u32 = write 4 (Segment.write_u32 P)

  -- u32::from(inst_hi) << 16 | u32::from(inst_lo)
  pub join_halves : ℕ → Outcome (CpuError E) ℕ → Outcome (CpuError E) ℕ
  join_halves inst_lo (ok inst_hi) = ok (bit_or (shl32 inst_hi 16) inst_lo)
  join_halves inst_lo (err e) = err e
  join_halves inst_lo panic = panic

  -- A compressed instruction has no second half.
  pub fetch_second : Outcome (CpuError E) ℕ × Cpu P.Memory → Outcome (CpuError E) ℕ × Cpu P.Memory
  fetch_second (ok inst_lo, cpu) =
      if not (bit_and inst_lo 0b11 == 0b11)
      then (join_halves inst_lo (ok 0), cpu)
      else (let (r, cpu') = on_code (Segment.read_u16 P (wrapping_add cpu.pc 2)) cpu in
          (join_halves inst_lo r, cpu'))
  fetch_second (err e, cpu) = (err e, cpu)
  fetch_second (panic, cpu) = (panic, cpu)

  pub fetch_instruction : Exec ℕ
  fetch_instruction cpu =
      if cpu.pc % 4 == 0 && contains cpu.code_seg (wrapping_add cpu.pc 3)
      then on_code (Segment.read_u32 P cpu.pc) cpu
      else fetch_second (on_code (Segment.read_u16 P cpu.pc) cpu)
