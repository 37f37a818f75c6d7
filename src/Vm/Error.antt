-- ===== src/Vm/Error.antt =====
-- The errors of common/src/vm.rs.
use vanadium.Prelude.{String}

pub data MemoryError : Type 0 where
  page_not_found address_out_of_bounds unaligned_address : MemoryError
  zero_size start_address_not_aligned overflow : MemoryError
  generic_error : String → MemoryError

pub data CpuError (E : Type 0) : Type 0 where
  ecall_error : E → CpuError E
  memory_error : MemoryError → CpuError E
  generic_error : String → CpuError E
