-- ===== src/Vm/Segment/RoundTrip.antt =====
-- Writing a word to a segment of common/src/vm.rs, and reading it.
use vanadium.Prelude.{ℕ, ◌+◌, ◌*◌, ◌/◌, ◌%◌, ◌^◌, ◌≤◌, ◌<◌, ==_refl, false, ◌≡◌, refl, ap, ap₂, ◌∙◌}
use vanadium.Prelude.{Option, none, some, Outcome, ok, get_or, get_elem?-eq-get_or, length, arith}
use vanadium.Word.{IsU32, u8}
use vanadium.Vm.Error.{MemoryError}
use vanadium.Vm.Memory.{Page, PagedMemory, page_size}
use vanadium.Vm.Memory.Laws.{IsPagedMemory, IsAvailable, page_start_lem}
use vanadium.Vm.Segment.{
  MemorySegment, Segment, relative_address, is_outside, load, read_u32, write_u32, page_u32,
}
use vanadium.Vm.Segment.View.{byte_at, page_byte}
use vanadium.Vm.Segment.PageBytes.{value_32, with_32, below_rest}
use vanadium.Vm.Segment.Access.{read_u32-value}
use vanadium.Vm.Segment.Writes.{HasBytes, write_u32-HasBytes}

value_32-with_32 : (f : ℕ → Option ℕ) (a v : ℕ) → IsU32 v → value_32 (with_32 a v f) a ≡ some v
value_32-with_32 f a v h = ground arith

page_of : (o : Option Page) (i b : ℕ) → page_byte o i ≡ some b → (page : Page) × (o ≡ some page)
page_of none i b e = cc
page_of (some page) i b e = (page, refl)

abbrev word_at : Page → ℕ → ℕ
word_at page o =
    get_or page o 0
    + get_or page (o + 1) 0 * 2 ^ 8
    + get_or page (o + 2) 0 * 2 ^ 16
    + get_or page (o + 3) 0 * 2 ^ 24

page_u32-returns : (page : Page) (o : ℕ) → o + 3 < length page → (w : ℕ) × (page_u32 o page ≡ ok w)
unfolding page_u32
page_u32-returns page o h =
    let b0 = get_elem?-eq-get_or page o 0 (omega arith) in
    let b1 = get_elem?-eq-get_or page (o + 1) 0 (omega arith) in
    let b2 = get_elem?-eq-get_or page (o + 2) 0 (omega arith) in
    let b3 = get_elem?-eq-get_or page (o + 3) 0 (omega arith) in
    (word_at page o, ground (arith, b0, b1, b2, b3))

module _ {P : PagedMemory} (L : IsPagedMemory P) (seg : Segment P) (a : ℕ) where
  load-available :
      {A : Type 0} (read : ℕ → Page → Outcome MemoryError A) (page : Page)
      → IsAvailable P L seg.paged_memory
      → L.view seg.paged_memory (relative_address seg a / page_size) ≡ some page
      → (load P read a seg).0 ≡ read (relative_address seg a % page_size) page
  unfolding load
  load-available read page h e = rw (h _ page e) refl

  write_u32-inside :
      (v : ℕ)
      → (write_u32 P a v seg).0 ≡ ok tt
      → (is_outside seg a 4 ≡ false) × (seg.start_address ≤ a) × (a % 4 ≡ 0)
  unfolding write_u32 is_outside
  write_u32-inside v e = ground arith

  read_u32-load :
      is_outside seg a 4 ≡ false → a % 4 ≡ 0 → (read_u32 P a seg).0 ≡ (load P page_u32 a seg).0
  unfolding read_u32
  read_u32-load inside aligned = rw (inside, aligned) refl

  -- A read inside the segment, of pages that can be had, returns a value.
  read_u32-returns :
      (b : ℕ)
      → IsAvailable P L seg.paged_memory
      → L.IsGood seg.paged_memory
      → IsU32 a
      → seg.start_address ≤ a
      → is_outside seg a 4 ≡ false
      → a % 4 ≡ 0
      → byte_at L seg a ≡ some b
      → (w : ℕ) × ((read_u32 P a seg).0 ≡ ok w)
  unfolding byte_at
  read_u32-returns b available good fits lo inside aligned e =
      let o = relative_address seg a % page_size in
      let (page, found) =
        page_of (L.view seg.paged_memory (relative_address seg a / page_size)) o b e in
      let near : o + 3 < page_size =
        omega (arith, page_start_lem seg.start_address (omega arith)) in
      let size =
        (L.view-IsPage seg.paged_memory (relative_address seg a / page_size) page good
          found).size in
      let (w, read) = page_u32-returns page o (omega (arith, near, size)) in
      (w, read_u32-load inside aligned ∙ load-available page_u32 page available found ∙ read)

is_outside-same :
    {M : Type 0} (s t : MemorySegment M) (a width : ℕ)
    → t.start_address ≡ s.start_address
    → t.size ≡ s.size
    → is_outside t a width ≡ is_outside s a width
unfolding is_outside
is_outside-same s t a width e f = rw (e, f) refl

module _ {P : PagedMemory} (L : IsPagedMemory P) (seg : Segment P) (a v : ℕ) where
  abbrev pub written : Segment P
  written = (write_u32 P a v seg).1

  module _ (good : L.IsGood seg.paged_memory) (fits : IsU32 a) (fits_v : IsU32 v)
      (e : (write_u32 P a v seg).0 ≡ ok tt) where
    bytes_written : HasBytes L seg (with_32 a v (byte_at L seg)) written
    bytes_written = write_u32-HasBytes L seg a v good fits e

    inside_segment : (is_outside seg a 4 ≡ false) × (seg.start_address ≤ a) × (a % 4 ≡ 0)
    inside_segment = write_u32-inside L seg a v e

    word_written : value_32 (byte_at L written) a ≡ some v
    word_written =
        let b = bytes_written in
        let inside = inside_segment in
        ap₂ below_rest (b.bytes a (inside.1) fits) (
          ap₂ below_rest (b.bytes (a + 1) (omega (arith, inside.1)) (omega (arith, inside.2))) (
            ap₂ below_rest (b.bytes (a + 2) (omega (arith, inside.1)) (omega (arith, inside.2)))
              (b.bytes (a + 3) (omega (arith, inside.1)) (omega (arith, inside.2)))))
        ∙ value_32-with_32 (byte_at L seg) a v fits_v

    same_word : (w : ℕ) → (read_u32 P a written).0 ≡ ok w → w ≡ v
    same_word w r =
        let value = read_u32-value L written a w (bytes_written.good) fits r in
        cc (value, word_written)

    with_32_here : with_32 a v (byte_at L seg) a ≡ some (u8 v)
    with_32_here = rw (==_refl a) refl

  -- After a successful write of a 32-bit word at a 32-bit address of a segment over a lawful
  -- memory, a read at that address returns the word, if the pages of the memory can then be had.
  pub read_u32-write_u32 :
      L.IsGood seg.paged_memory
      → IsU32 a
      → IsU32 v
      → (write_u32 P a v seg).0 ≡ ok tt
      → IsAvailable P L written.paged_memory
      → (read_u32 P a written).0 ≡ ok v
  read_u32-write_u32 good fits fits_v e available =
      let b = bytes_written good fits fits_v e in
      let (inside, lo, aligned) = inside_segment good fits fits_v e in
      let (w, r) =
        read_u32-returns L written a (u8 v) available b.good fits (rw (b.same_start) lo)
          (is_outside-same seg written a 4 b.same_start b.same_size ∙ inside) aligned
          (b.bytes a lo fits ∙ with_32_here good fits fits_v e) in
      r ∙ ap ok (same_word good fits fits_v e w r)
