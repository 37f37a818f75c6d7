-- ===== src/Vm/Cpu/Examples.antt =====
-- A reservation at 0x2004, in the data of a CPU with one page for each segment.
use vanadium.Prelude.{ℕ, ◌≡◌, refl, bit_and, none, some, ok, arith, replicate}
use vanadium.Vm.Memory.{vec_memory, new_vec_memory}
use vanadium.Vm.Segment.{Segment, contains}
use vanadium.Vm.Cpu.{Access, reg, set_reg, write, after_store, on_data}
use vanadium.Vm.Memory.Vec.{vec_memory-IsPagedMemory, new_vec_memory-IsGood}
use vanadium.Vm.Segment.{write_u32}
use vanadium.Vm.Cpu.Code.{HasCode, write-HasCode}
use vanadium.Vm.Cpu.Invalidate.{Fate, byte, width_of, store_of, store_of-Fate}
use vanadium.Vm.Arm.{State, store_conditional}
use vanadium.Vm.Arm.Reservation.{store_conditional-write}

abbrev page_at : ℕ → Segment vec_memory
unfolding vec_memory
page_at start = record { start_address = start; size = 0x100; paged_memory = new_vec_memory 1 }

abbrev cpu : State vec_memory (Unit {0})
cpu = record {
  pc = 0x1000;
  regs = replicate 32 0;
  code_seg = page_at 0x1000;
  data_seg = page_at 0x2000;
  stack_seg = page_at 0x3000;
  reservation_addr = some 0x2004;
}

-- A byte store to the last byte of the reserved word.
store_of-Fate_example :
    Fate vec_memory
      (Unit {0})
      (width_of byte)
      0x2007
      0x2004
      (store_of vec_memory (Unit {0}) byte 0x2007 9 cpu)
store_of-Fate_example = store_of-Fate vec_memory (Unit {0}) byte 0x2007 9 0x2004 cpu refl

-- A store that finds its bytes as they should be.
abbrev same_bytes : ℕ → ℕ → Access vec_memory (Unit {0}) (Unit {0})
same_bytes a v seg = (ok tt, seg)

abbrev stored : State vec_memory (Unit {0})
stored = (write vec_memory (Unit {0}) 1 same_bytes 0x2007 0 cpu).1

stored_returns : (write vec_memory (Unit {0}) 1 same_bytes 0x2007 0 cpu).0 ≡ ok tt
unfolding write contains after_store on_data page_at
stored_returns = refl

stored_aligned : bit_and (reg stored 5) 3 ≡ 0
unfolding write contains after_store on_data page_at
stored_aligned = refl

store_conditional-write_example :
    store_conditional vec_memory (Unit {0}) 4 6 5 7 stored
    ≡ (ok 4, record (set_reg 6 1 stored) { reservation_addr = none })
store_conditional-write_example =
    store_conditional-write vec_memory (Unit {0}) 1 same_bytes 0x2007 0 0x2004 4 6 5 7 cpu refl
      (omega arith) (omega arith) (omega arith) stored_returns stored_aligned

code_unchanged : HasCode vec_memory-IsPagedMemory cpu cpu
unfolding vec_memory page_at
code_unchanged = record {
  at = record {
    same_start = refl;
    same_size = refl;
    good = new_vec_memory-IsGood 1;
    same_pages = λ i. refl;
  };
}

write-HasCode_example :
    HasCode vec_memory-IsPagedMemory cpu
      (write vec_memory (Unit {0}) 4 (write_u32 vec_memory) 0x2004 7 cpu).1
write-HasCode_example =
    write-HasCode vec_memory-IsPagedMemory (Unit {0}) cpu 4 (write_u32 vec_memory) 0x2004 7 cpu
      code_unchanged
