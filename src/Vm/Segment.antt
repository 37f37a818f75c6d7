-- ===== src/Vm/Segment.antt =====
-- A contiguous region over a paged memory: `MemorySegment` of common/src/vm.rs. The arithmetic on
-- addresses is that of a release build, where it wraps.
pub mod View
pub mod PageBytes
pub mod Access
pub mod Writes
mod Examples
pub mod Buffer
pub mod RoundTrip
use vanadium.Prelude.{
  ℕ, zero, suc, ◌+◌, ◌-◌, ◌*◌, ◌/◌, ◌%◌, ◌^◌, ◌==◌, ltb, leb, not, ◌||◌, ◌&&◌, Bool,
}
use vanadium.Prelude.{List, [], ◌∷◌, ◌++◌, Option, none, some, Outcome, ok, err, panic, and_then}
use vanadium.Prelude.{if◌then◌else◌, true, false, get_elem?, set, length}
use vanadium.Word.{u8, shr32, wrapping_add, wrapping_sub}
use vanadium.Vm.Error.{
  MemoryError, address_out_of_bounds, unaligned_address, zero_size, start_address_not_aligned,
  overflow,
}
use vanadium.Vm.Memory.{Page, PagedMemory, page_size, page_start}

pub record MemorySegment (M : Type 0) : Type 0 where
  pub start_address : ℕ
  pub size : ℕ
  pub paged_memory : M

-- u32::checked_add
abbrev pub checked_add : ℕ → ℕ → Option ℕ
checked_add a b = if ltb (a + b) (2 ^ 32) then some (a + b) else none

abbrev pub is_none {ℓ} : {A : Type ℓ} → Option A → Bool
is_none none = true
is_none (some a) = false

pub new : {M : Type 0} → ℕ → ℕ → M → Outcome MemoryError (MemorySegment M)
new start_address size paged_memory =
    if size == 0
    then err zero_size
    else if not (start_address % 2 == 0)
    then err start_address_not_aligned
    else if is_none (checked_add start_address (size - 1))
    then err overflow
    else ok (record { start_address = start_address; size = size; paged_memory = paged_memory })

unfoldable pub contains : {M : Type 0} → MemorySegment M → ℕ → Bool
contains seg address =
    leb seg.start_address address && ltb address (wrapping_add seg.start_address seg.size)

-- The first guard of an access of `width` bytes.
pub is_outside : {M : Type 0} → MemorySegment M → ℕ → ℕ → Bool
is_outside seg address width =
    ltb address seg.start_address
    || ltb (wrapping_sub (wrapping_add seg.start_address seg.size) width) address

abbrev pub relative_address : {M : Type 0} → MemorySegment M → ℕ → ℕ
relative_address seg address = wrapping_sub address (page_start seg.start_address)

-- `page.data[i]`, which panics beyond the page.
abbrev pub byte : Page → ℕ → Outcome MemoryError ℕ
byte page i = elim (get_elem? page i) [ none ↦ panic | some b ↦ ok b ]

abbrev pub put_byte : ℕ → ℕ → Page → Outcome MemoryError Page
put_byte i v page = if ltb i (length page) then ok (set page i v) else panic

-- What is read from a page at an offset.
pub page_u8 : ℕ → Page → Outcome MemoryError ℕ
page_u8 offset page = byte page offset

pub page_u16 : ℕ → Page → Outcome MemoryError ℕ
page_u16 offset page =
    and_then (byte page offset) λ b0. and_then (byte page (offset + 1)) λ b1. ok (b0 + b1 * 2 ^ 8)

pub page_u32 : ℕ → Page → Outcome MemoryError ℕ
page_u32 offset page = and_then (byte page offset) λ b0. and_then (byte page (offset + 1)) λ b1.
    and_then (byte page (offset + 2))
      λ b2. and_then (byte page (offset + 3)) λ b3. ok (b0 + b1 * 2 ^ 8 + b2 * 2 ^ 16 + b3 * 2 ^ 24)

-- What is written to a page at an offset.
pub page_with_u8 : ℕ → ℕ → Page → Outcome MemoryError Page
page_with_u8 value offset page = put_byte offset value page

pub page_with_u16 : ℕ → ℕ → Page → Outcome MemoryError Page
page_with_u16 value offset page =
    and_then (put_byte offset (u8 value) page) λ p. put_byte (offset + 1) (u8 (shr32 value 8)) p

pub page_with_u32 : ℕ → ℕ → Page → Outcome MemoryError Page
page_with_u32 value offset page = and_then (put_byte offset (u8 value) page) λ p.
    and_then (put_byte (offset + 1) (u8 (shr32 value 8)) p) λ q.
      and_then (put_byte (offset + 2) (u8 (shr32 value 16)) q)
        λ r. put_byte (offset + 3) (u8 (shr32 value 24)) r

module _ (P : PagedMemory) where
  abbrev pub Segment : Type 0
  Segment = MemorySegment P.Memory

  -- Fetch the page of an address, and read at the offset of the address.
  pub load :
      {A : Type 0}
      → (ℕ → Page → Outcome MemoryError A)
      → ℕ
      → Segment
      → Outcome MemoryError A × Segment
  load read address seg =
      let page_index = relative_address seg address / page_size in
      let offset = relative_address seg address % page_size in
      let (page, memory) = P.get_page seg.paged_memory page_index in
      (and_then page (read offset), record seg { paged_memory = memory })

  -- Fetch the page of an address, and write at the offset of the address.
  pub store_page :
      ℕ → Outcome MemoryError Page → P.Memory → Segment → Outcome MemoryError (Unit {0}) × Segment
  store_page page_index (ok page) memory seg =
      (ok tt, record seg { paged_memory = P.put_page memory page_index page })
  store_page page_index (err e) memory seg = (err e, record seg { paged_memory = memory })
  store_page page_index panic memory seg = (panic, record seg { paged_memory = memory })

  pub store :
      (ℕ → Page → Outcome MemoryError Page) → ℕ → Segment → Outcome MemoryError (Unit {0}) × Segment
  store write address seg =
      let page_index = relative_address seg address / page_size in
      let offset = relative_address seg address % page_size in
      let (page, memory) = P.get_page seg.paged_memory page_index in
      store_page page_index (and_then page (write offset)) memory seg

  pub read_u8 : ℕ → Segment → Outcome MemoryError ℕ × Segment
  read_u8 address seg =
      if is_outside seg address 1
      then (err address_out_of_bounds, seg)
      else load page_u8 address seg

  pub read_u16 : ℕ → Segment → Outcome MemoryError ℕ × Segment
  read_u16 address seg =
      if is_outside seg address 2
      then (err address_out_of_bounds, seg)
      else if not (address % 2 == 0)
      then (err unaligned_address, seg)
      else load page_u16 address seg

  pub read_u32 : ℕ → Segment → Outcome MemoryError ℕ × Segment
  read_u32 address seg =
      if is_outside seg address 4
      then (err address_out_of_bounds, seg)
      else if not (address % 4 == 0)
      then (err unaligned_address, seg)
      else load page_u32 address seg

  pub write_u8 : ℕ → ℕ → Segment → Outcome MemoryError (Unit {0}) × Segment
  write_u8 address value seg =
      if is_outside seg address 1
      then (err address_out_of_bounds, seg)
      else store (page_with_u8 value) address seg

  pub write_u16 : ℕ → ℕ → Segment → Outcome MemoryError (Unit {0}) × Segment
  write_u16 address value seg =
      if is_outside seg address 2
      then (err address_out_of_bounds, seg)
      else if not (address % 2 == 0)
      then (err unaligned_address, seg)
      else store (page_with_u16 value) address seg

  pub write_u32 : ℕ → ℕ → Segment → Outcome MemoryError (Unit {0}) × Segment
  write_u32 address value seg =
      if is_outside seg address 4
      then (err address_out_of_bounds, seg)
      else if not (address % 4 == 0)
      then (err unaligned_address, seg)
      else store (page_with_u32 value) address seg
