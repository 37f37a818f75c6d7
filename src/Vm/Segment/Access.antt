-- ===== src/Vm/Segment/Access.antt =====
-- Reads and writes of a segment, against the bytes that it stands for.
use vanadium.Prelude.{ℕ, ◌+◌, ◌/◌, ◌%◌, ◌^◌, ◌≤◌, ◌<◌, if◌then◌else◌, ◌≡◌, refl, ap, ap₂, ◌∙◌}
use vanadium.Prelude.{Bool, true, false, Option, some, Outcome, ok, get_elem?, arith}
use vanadium.Word.{IsU32}
use vanadium.Vm.Error.{MemoryError}
use vanadium.Vm.Memory.{Page, PagedMemory, page_size}
use vanadium.Vm.Memory.Laws.{IsPagedMemory, page_start_lem}
use vanadium.Vm.Segment.{Segment, relative_address, is_outside, load}
use vanadium.Vm.Segment.{read_u8, read_u16, read_u32, page_u8, page_u16, page_u32}
use vanadium.Vm.Segment.View.{byte_at, page_byte, HasSameBytes, load-eq-ok, load-HasSameBytes}
use vanadium.Vm.Segment.PageBytes.{
  value_8, value_16, value_32, page_u8-value, page_u16-value, page_u32-value,
}

module _ {P : PagedMemory} (L : IsPagedMemory P) (seg : Segment P) (a : ℕ) where
  -- Near an address, in the same page, the bytes are those of the page.
  byte_near :
      (k b o : ℕ) (page : Page)
      → seg.start_address ≤ a
      → L.view seg.paged_memory (relative_address seg a / page_size) ≡ some page
      → b < 2 ^ 32
      → relative_address seg a % page_size + k < page_size
      → b ≡ a + k
      → o ≡ relative_address seg a % page_size + k
      → byte_at L seg b ≡ get_elem? page o
  unfolding byte_at
  byte_near k b o page lo found fits near eb eo =
      ap₂ (λ (i j : ℕ). page_byte (L.view seg.paged_memory i) j)
        (omega (arith, page_start_lem seg.start_address (omega arith)))
        (omega (arith, page_start_lem seg.start_address (omega arith)))
      ∙ ap (λ (w : Option Page). page_byte w o) found

  aligned_offset :
      seg.start_address ≤ a
      → IsU32 a
      → (a % 4 ≡ 0 → relative_address seg a % page_size % 4 ≡ 0)
        × (a % 2 ≡ 0 → relative_address seg a % page_size % 2 ≡ 0)
  aligned_offset lo fits = (
    λ h. omega (arith, page_start_lem seg.start_address (omega arith)),
    λ h. omega (arith, page_start_lem seg.start_address (omega arith)),
  )

  module _ (v : ℕ) where
    read_u8-guards :
        (read_u8 P a seg).0 ≡ ok v → (seg.start_address ≤ a) × ((load P page_u8 a seg).0 ≡ ok v)
    unfolding read_u8 is_outside
    read_u8-guards e = ground arith

    read_u16-guards :
        (read_u16 P a seg).0 ≡ ok v
        → (seg.start_address ≤ a) × (a % 2 ≡ 0) × ((load P page_u16 a seg).0 ≡ ok v)
    unfolding read_u16 is_outside
    read_u16-guards e = ground arith

    read_u32-guards :
        (read_u32 P a seg).0 ≡ ok v
        → (seg.start_address ≤ a) × (a % 4 ≡ 0) × ((load P page_u32 a seg).0 ≡ ok v)
    unfolding read_u32 is_outside
    read_u32-guards e = ground arith

    module _ (good : L.IsGood seg.paged_memory) (fits : IsU32 a) where
      -- An 8-bit read at a 32-bit address that returns a value returns the byte that the pages hold
      -- for that address.
      pub read_u8-value : (read_u8 P a seg).0 ≡ ok v → value_8 (byte_at L seg) a ≡ some v
      read_u8-value e =
          let (lo, loaded) = read_u8-guards e in
          let (page, found, value) = load-eq-ok L page_u8 a seg v good loaded in
          let o = relative_address seg a % page_size in
          rw (byte_near 0 a o page lo found fits (omega arith) (omega arith) (omega arith))
            (page_u8-value page o v value)

      -- A 16-bit read at a 32-bit address that returns a value returns the little-endian value of
      -- the two bytes that the pages hold from that address on.
      pub read_u16-value : (read_u16 P a seg).0 ≡ ok v → value_16 (byte_at L seg) a ≡ some v
      read_u16-value e =
          let (lo, aligned, loaded) = read_u16-guards e in
          let (page, found, value) = load-eq-ok L page_u16 a seg v good loaded in
          let o = relative_address seg a % page_size in
          let even = (aligned_offset lo fits).1 aligned in
          rw
            (
              byte_near 0 a o page lo found fits (omega arith) (omega arith) (omega arith),
              byte_near 1 (a + 1) (o + 1) page lo found (omega arith) (omega arith) refl refl,
            )
            (page_u16-value page o v value)

      -- A 32-bit read at a 32-bit address that returns a value returns the little-endian value of
      -- the four bytes that the pages hold from that address on.
      pub read_u32-value : (read_u32 P a seg).0 ≡ ok v → value_32 (byte_at L seg) a ≡ some v
      read_u32-value e =
          let (lo, aligned, loaded) = read_u32-guards e in
          let (page, found, value) = load-eq-ok L page_u32 a seg v good loaded in
          let o = relative_address seg a % page_size in
          let four = (aligned_offset lo fits).0 aligned in
          rw
            (
              byte_near 0 a o page lo found fits (omega arith) (omega arith) (omega arith),
              byte_near 1 (a + 1) (o + 1) page lo found (omega arith) (omega arith) refl refl,
              byte_near 2 (a + 2) (o + 2) page lo found (omega arith) (omega arith) refl refl,
              byte_near 3 (a + 3) (o + 3) page lo found (omega arith) (omega arith) refl refl,
            )
            (page_u32-value page o v value)

-- Whatever it returns, a read leaves the segment with the bytes that it had.
module _ {P : PagedMemory} (L : IsPagedMemory P) (seg : Segment P) (a : ℕ)
    (good : L.IsGood seg.paged_memory) where
  same : HasSameBytes L seg seg
  same = record { same_start = refl; same_size = refl; good = good; same_pages = λ i. refl }

  if_keeps :
      {A : Type 0} (b : Bool) (r t : Outcome MemoryError A × Segment P)
      → HasSameBytes L seg r.1
      → HasSameBytes L seg t.1
      → HasSameBytes L seg (if b then r else t).1
  if_keeps true r t hr ht = hr
  if_keeps false r t hr ht = ht

  pub read_u8-HasSameBytes : HasSameBytes L seg (read_u8 P a seg).1
  unfolding read_u8
  read_u8-HasSameBytes = search (if_keeps, same, load-HasSameBytes L page_u8 a seg good)

  pub read_u16-HasSameBytes : HasSameBytes L seg (read_u16 P a seg).1
  unfolding read_u16
  read_u16-HasSameBytes = search (if_keeps, same, load-HasSameBytes L page_u16 a seg good)

  -- A 32-bit read, whatever it returns, leaves every byte of the segment as it was.
  pub read_u32-HasSameBytes : HasSameBytes L seg (read_u32 P a seg).1
  unfolding read_u32
  read_u32-HasSameBytes = search (if_keeps, same, load-HasSameBytes L page_u32 a seg good)
