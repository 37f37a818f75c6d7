-- ===== src/Vm/Segment/Examples.antt =====
-- A segment of one page, at address 0x1000.
use vanadium.Prelude.{◌≡◌, refl, some, ok, arith}
use vanadium.Vm.Memory.{vec_memory, new_vec_memory, page_start}
use vanadium.Vm.Memory.Vec.{vec_memory-IsPagedMemory, new_vec_memory-IsGood, vec_memory-IsAvailable}
use vanadium.Vm.Segment.{Segment, write_u8, write_u16, write_u32, read_u8, read_u16, read_u32}
use vanadium.Vm.Segment.{
  is_outside, load, store, store_page, page_u8, page_u16, page_u32, page_with_u8, page_with_u16,
  page_with_u32,
}
use vanadium.Vm.Segment.View.{byte_at}
use vanadium.Vm.Segment.PageBytes.{value_32, with_32}
use vanadium.Vm.Segment.Access.{read_u32-value}
use vanadium.Vm.Segment.Writes.{HasBytes, write_u32-HasBytes}
use vanadium.Vm.Segment.RoundTrip.{read_u32-write_u32}

abbrev segment : Segment vec_memory
unfolding vec_memory
segment = record { start_address = 0x1000; size = 0x100; paged_memory = new_vec_memory 1 }

segment_good : vec_memory-IsPagedMemory.IsGood (segment.paged_memory)
unfolding vec_memory
segment_good = new_vec_memory-IsGood 1

write_returns : (write_u32 vec_memory 0x1004 0x12345678 segment).0 ≡ ok tt
unfolding vec_memory new_vec_memory write_u32 is_outside store store_page page_with_u32 page_start
write_returns = refl

abbrev after_write : Segment vec_memory
after_write = (write_u32 vec_memory 0x1004 0x12345678 segment).1

read_u32-write_u32_example : (read_u32 vec_memory 0x1004 after_write).0 ≡ ok 0x12345678
unfolding vec_memory
read_u32-write_u32_example =
    read_u32-write_u32 vec_memory-IsPagedMemory segment 0x1004 0x12345678 segment_good (omega arith)
      (omega arith) write_returns (vec_memory-IsAvailable (after_write.paged_memory))

write_u32-HasBytes_example :
    HasBytes vec_memory-IsPagedMemory segment
      (with_32 0x1004 0x12345678 (byte_at vec_memory-IsPagedMemory segment))
      after_write
write_u32-HasBytes_example =
    write_u32-HasBytes vec_memory-IsPagedMemory segment 0x1004 0x12345678 segment_good (omega arith)
      write_returns

write_u16_returns : (write_u16 vec_memory 0x1006 0xabcd segment).0 ≡ ok tt
unfolding vec_memory new_vec_memory write_u16 is_outside store store_page page_with_u16 page_start
write_u16_returns = refl

write_u8_returns : (write_u8 vec_memory 0x10ff 0x7f segment).0 ≡ ok tt
unfolding vec_memory new_vec_memory write_u8 is_outside store store_page page_with_u8 page_start
write_u8_returns = refl

read_u32_returns : (read_u32 vec_memory 0x1010 segment).0 ≡ ok 0
unfolding vec_memory new_vec_memory read_u32 is_outside load page_u32 page_start
read_u32_returns = refl

read_u32-value_example : value_32 (byte_at vec_memory-IsPagedMemory segment) 0x1010 ≡ some 0
read_u32-value_example =
    read_u32-value vec_memory-IsPagedMemory segment 0x1010 0 segment_good (omega arith)
      read_u32_returns

read_u16_returns : (read_u16 vec_memory 0x1012 segment).0 ≡ ok 0
unfolding vec_memory new_vec_memory read_u16 is_outside load page_u16 page_start
read_u16_returns = refl

read_u8_returns : (read_u8 vec_memory 0x1013 segment).0 ≡ ok 0
unfolding vec_memory new_vec_memory read_u8 is_outside load page_u8 page_start
read_u8_returns = refl
