-- ===== src/Vm/Segment/Buffer.antt =====
-- Buffers that may cross pages: `read_buffer` and `write_buffer` of common/src/vm.rs.
use vanadium.Prelude.{
  ℕ, zero, suc, ◌+◌, ◌-◌, ◌/◌, ◌%◌, ltb, ◌||◌, min, if◌then◌else◌, List, ◌++◌, length, take, drop,
}
use vanadium.Prelude.{Option, none, some, Outcome, ok, err, panic}
use vanadium.Word.{wrapping_add}
use vanadium.Vm.Error.{MemoryError, address_out_of_bounds, overflow}
use vanadium.Vm.Memory.{PagedMemory, page_size}
use vanadium.Vm.Segment.{Segment, relative_address, checked_add}

-- `xs[i..i + ys.len()].copy_from_slice(ys)`
pub copy_to : List ℕ → ℕ → List ℕ → List ℕ
copy_to xs i ys = take i xs ++ ys ++ drop (i + length ys) xs

-- `xs[i..i + n]`
pub slice : List ℕ → ℕ → ℕ → List ℕ
slice xs i n = take n (drop i xs)

module _ (P : PagedMemory) where
  abbrev page_index : Segment P → ℕ → ℕ
  page_index seg address = relative_address seg address / page_size

  abbrev page_offset : Segment P → ℕ → ℕ
  page_offset seg address = relative_address seg address % page_size

  -- How many bytes a turn copies: up to the end of the page, or of the buffer.
  pub bytes_in_page : Segment P → ℕ → ℕ → ℕ
  bytes_in_page seg address left = min (page_size - page_offset seg address) left

  -- The guards of both operations.
  pub outside_buffer : Segment P → ℕ → ℕ → Option MemoryError
  outside_buffer seg address len = elim (checked_add address len) [
    | none ↦ some overflow
    | some end_address ↦
        if ltb address seg.start_address
          || ltb (wrapping_add seg.start_address seg.size) end_address
        then some address_out_of_bounds
        else none
  ]

  -- The loop of `read_buffer`. A turn copies at least one byte, so that as many turns as the buffer
  -- has bytes are enough.
  pub read_turns :
      ℕ → ℕ → ℕ → List ℕ → Segment P → Outcome MemoryError (Unit {0}) × List ℕ × Segment P
  read_turns zero address bytes_read buffer seg =
      if ltb bytes_read (length buffer) then (panic, buffer, seg) else (ok tt, buffer, seg)
  read_turns (suc turns) address bytes_read buffer seg =
      let n = bytes_in_page seg address (length buffer - bytes_read) in
      let (found, memory) = P.get_page seg.paged_memory (page_index seg address) in
      let fetched = record seg { paged_memory = memory } in
      let offset = page_offset seg address in
      if ltb bytes_read (length buffer)
      then elim found [
        | ok page ↦
            read_turns turns (wrapping_add address n) (bytes_read + n)
              (copy_to buffer bytes_read (slice page offset n)) fetched
        | err e ↦ (err e, buffer, fetched)
        | panic ↦ (panic, buffer, fetched)
      ]
      else (ok tt, buffer, seg)

  pub read_buffer : ℕ → List ℕ → Segment P → Outcome MemoryError (Unit {0}) × List ℕ × Segment P
  read_buffer address buffer seg = elim (outside_buffer seg address (length buffer)) [
    | some e ↦ (err e, buffer, seg)
    | none ↦ read_turns (length buffer) address 0 buffer seg
  ]

  -- The loop of `write_buffer`.
  pub write_turns : ℕ → ℕ → ℕ → List ℕ → Segment P → Outcome MemoryError (Unit {0}) × Segment P
  write_turns zero address bytes_written buffer seg =
      if ltb bytes_written (length buffer) then (panic, seg) else (ok tt, seg)
  write_turns (suc turns) address bytes_written buffer seg =
      let n = bytes_in_page seg address (length buffer - bytes_written) in
      let i = page_index seg address in
      let (found, memory) = P.get_page seg.paged_memory i in
      let offset = page_offset seg address in
      if ltb bytes_written (length buffer)
      then elim found [
        | ok page ↦
            write_turns turns (wrapping_add address n) (bytes_written + n) buffer (record seg {
              paged_memory =
                  P.put_page memory i (copy_to page offset (slice buffer bytes_written n));
            })
        | err e ↦ (err e, record seg { paged_memory = memory })
        | panic ↦ (panic, record seg { paged_memory = memory })
      ]
      else (ok tt, seg)

  pub write_buffer : ℕ → List ℕ → Segment P → Outcome MemoryError (Unit {0}) × Segment P
  write_buffer address buffer seg = elim (outside_buffer seg address (length buffer)) [
    | some e ↦ (err e, seg)
    | none ↦ write_turns (length buffer) address 0 buffer seg
  ]
