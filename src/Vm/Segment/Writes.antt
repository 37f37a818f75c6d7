-- ===== src/Vm/Segment/Writes.antt =====
-- Writes of a segment, against the bytes that it stands for.
use vanadium.Prelude.{ℕ, ◌+◌, ◌/◌, ◌%◌, ◌^◌, ◌≤◌, ◌<◌, ◌==◌, if◌then◌else◌, ◌≡◌, refl}
use vanadium.Prelude.{
  true, false, Bool-cases, inl, inr, Option, Outcome, ok, get_elem?, arith, ==→eq,
}
use vanadium.Word.{IsU32}
use vanadium.Vm.Error.{MemoryError}
use vanadium.Vm.Memory.{Page, PagedMemory, page_size}
use vanadium.Vm.Memory.Laws.{IsPagedMemory, page_start_lem}
use vanadium.Vm.Segment.{MemorySegment, Segment, relative_address, is_outside, store}
use vanadium.Vm.Segment.{write_u8, write_u16, write_u32, page_with_u8, page_with_u16, page_with_u32}
use vanadium.Vm.Segment.View.{byte_at, Stores, store-Stores}
use vanadium.Vm.Segment.PageBytes.{
  with_8, with_16, with_32, page_with_u8-bytes, page_with_u16-bytes, page_with_u32-bytes,
}

abbrev index : {M : Type 0} → MemorySegment M → ℕ → ℕ
index seg y = relative_address seg y / page_size

abbrev offset : {M : Type 0} → MemorySegment M → ℕ → ℕ
offset seg y = relative_address seg y % page_size

module _ {M : Type 0} (seg : MemorySegment M) (a x : ℕ) (lo : seg.start_address ≤ a)
    (fits : IsU32 a) (x_lo : seg.start_address ≤ x) (x_fits : IsU32 x) where
  -- In one page, equal offsets are equal addresses.
  same_page :
      (k b o : ℕ)
      → b ≡ a + k
      → o ≡ offset seg a + k
      → (index seg a == index seg x) ≡ true
      → k < 4
      → o < page_size
      → (b == x) ≡ (o == offset seg x)
  same_page k b o eb eo e h near = ground (arith, page_start_lem seg.start_address)

  -- An address just above another one, and whose offset is in the page, is in the same page.
  other_page :
      (k b : ℕ)
      → b ≡ a + k
      → (index seg a == index seg x) ≡ false
      → k < 4
      → offset seg a + k < page_size
      → (b == x) ≡ false
  other_page k b eb e h near = ground (arith, page_start_lem seg.start_address)

module _ {P : PagedMemory} (L : IsPagedMemory P) (seg : Segment P) (a x : ℕ) where
  -- Where a write has put a page, in terms of the address asked for.
  stored_byte :
      {write : ℕ → Page → Outcome MemoryError Page} {t : Segment P} (s : Stores L write a seg t)
      → byte_at L t x
        ≡ (if index seg a == index seg x then get_elem? s.page (offset seg x) else byte_at L seg x)
  unfolding byte_at
  stored_byte s =
      rw (s.same_start, s.pages)
        (elim (Bool-cases (index seg a == index seg x)) [ inl e ↦ rw e | inr e ↦ rw e ])

  old_byte :
      {write : ℕ → Page → Outcome MemoryError Page} {t : Segment P} (s : Stores L write a seg t)
      → (index seg a == index seg x) ≡ true
      → byte_at L seg x ≡ get_elem? s.old (offset seg x)
  unfolding byte_at
  old_byte s e = rw (← ==→eq _ _ e, s.found)

-- `t` is `seg` with the bytes `f`.
pub record HasBytes {P : PagedMemory} (L : IsPagedMemory P) (seg : Segment P) (f : ℕ → Option ℕ)
    (t : Segment P) : Type 0 where
  pub same_start : t.start_address ≡ seg.start_address
  pub same_size : t.size ≡ seg.size
  pub good : L.IsGood t.paged_memory
  pub bytes : (x : ℕ) → seg.start_address ≤ x → IsU32 x → byte_at L t x ≡ f x

module _ {P : PagedMemory} (L : IsPagedMemory P) (seg : Segment P) (a v : ℕ) where
  write_u8-guards :
      (write_u8 P a v seg).0 ≡ ok tt
      → (seg.start_address ≤ a)
        × ((store P (page_with_u8 v) a seg).0 ≡ ok tt)
        × (store P (page_with_u8 v) a seg ≡ write_u8 P a v seg)
  unfolding write_u8 is_outside
  write_u8-guards e = ground arith

  write_u16-guards :
      (write_u16 P a v seg).0 ≡ ok tt
      → (seg.start_address ≤ a)
        × (a % 2 ≡ 0)
        × ((store P (page_with_u16 v) a seg).0 ≡ ok tt)
        × (store P (page_with_u16 v) a seg ≡ write_u16 P a v seg)
  unfolding write_u16 is_outside
  write_u16-guards e = ground arith

  write_u32-guards :
      (write_u32 P a v seg).0 ≡ ok tt
      → (seg.start_address ≤ a)
        × (a % 4 ≡ 0)
        × ((store P (page_with_u32 v) a seg).0 ≡ ok tt)
        × (store P (page_with_u32 v) a seg ≡ write_u32 P a v seg)
  unfolding write_u32 is_outside
  write_u32-guards e = ground arith

  module _ (good : L.IsGood seg.paged_memory) (fits : IsU32 a) where
    Stores-u32 :
        {t : Segment P} (s : Stores L (page_with_u32 v) a seg t)
        → seg.start_address ≤ a
        → a % 4 ≡ 0
        → HasBytes L seg (with_32 a v (byte_at L seg)) t
    Stores-u32 s lo aligned =
        let made = page_with_u32-bytes v _ s.old s.page s.written in
        let start = page_start_lem seg.start_address (omega arith) in
        let near : offset seg a + 3 < page_size = omega arith in
        record {
          same_start = s.same_start;
          same_size = s.same_size;
          good = s.good (made.0 (L.view-IsPage _ _ s.old good s.found));
          bytes = λ x x_lo x_fits. elim (Bool-cases (index seg a == index seg x)) [
            | inl e ↦
                let here = same_page seg a x lo fits x_lo x_fits in
                rw (
                  stored_byte L seg a x s,
                  e,
                  made.1 (offset seg x),
                  old_byte L seg a x s e,
                  here 0 a (offset seg a) (omega arith) (omega arith) e (omega arith) (omega arith),
                  here 1 (a + 1) _ refl refl e (omega arith) (omega arith),
                  here 2 (a + 2) _ refl refl e (omega arith) (omega arith),
                  here 3 (a + 3) _ refl refl e (omega arith) (omega arith),
                )
            | inr e ↦
                let away = other_page seg a x lo fits x_lo x_fits in
                rw (
                  stored_byte L seg a x s,
                  e,
                  away 0 a (omega arith) e (omega arith) (omega arith),
                  away 1 (a + 1) refl e (omega arith) (omega arith),
                  away 2 (a + 2) refl e (omega arith) (omega arith),
                  away 3 (a + 3) refl e (omega arith) (omega arith),
                )
          ];
        }

    -- A write of a word at a 32-bit address that succeeds leaves a segment in which four bytes from
    -- the address are those of the word, lowest first, and every other byte is what it was.
    pub write_u32-HasBytes :
        (write_u32 P a v seg).0 ≡ ok tt
        → HasBytes L seg (with_32 a v (byte_at L seg)) (write_u32 P a v seg).1
    write_u32-HasBytes e =
        let (lo, aligned, stored, same) = write_u32-guards e in
        rw (← same) (Stores-u32 (store-Stores L (page_with_u32 v) a seg good stored) lo aligned)

    Stores-u16 :
        {t : Segment P} (s : Stores L (page_with_u16 v) a seg t)
        → seg.start_address ≤ a
        → a % 2 ≡ 0
        → HasBytes L seg (with_16 a v (byte_at L seg)) t
    Stores-u16 s lo aligned =
        let made = page_with_u16-bytes v _ s.old s.page s.written in
        let start = page_start_lem seg.start_address (omega arith) in
        let near : offset seg a + 1 < page_size = omega arith in
        record {
          same_start = s.same_start;
          same_size = s.same_size;
          good = s.good (made.0 (L.view-IsPage _ _ s.old good s.found));
          bytes = λ x x_lo x_fits. elim (Bool-cases (index seg a == index seg x)) [
            | inl e ↦
                let here = same_page seg a x lo fits x_lo x_fits in
                rw (
                  stored_byte L seg a x s,
                  e,
                  made.1 (offset seg x),
                  old_byte L seg a x s e,
                  here 0 a (offset seg a) (omega arith) (omega arith) e (omega arith) (omega arith),
                  here 1 (a + 1) _ refl refl e (omega arith) (omega arith),
                )
            | inr e ↦
                let away = other_page seg a x lo fits x_lo x_fits in
                rw (
                  stored_byte L seg a x s,
                  e,
                  away 0 a (omega arith) e (omega arith) (omega arith),
                  away 1 (a + 1) refl e (omega arith) (omega arith),
                )
          ];
        }

    -- A write of a halfword at a 32-bit address that succeeds leaves a segment in which two bytes
    -- from the address are its low bytes, lowest first, and every other byte is what it was.
    pub write_u16-HasBytes :
        (write_u16 P a v seg).0 ≡ ok tt
        → HasBytes L seg (with_16 a v (byte_at L seg)) (write_u16 P a v seg).1
    write_u16-HasBytes e =
        let (lo, aligned, stored, same) = write_u16-guards e in
        rw (← same) (Stores-u16 (store-Stores L (page_with_u16 v) a seg good stored) lo aligned)

    Stores-u8 :
        {t : Segment P} (s : Stores L (page_with_u8 v) a seg t)
        → seg.start_address ≤ a
        → v < 2 ^ 8
        → HasBytes L seg (with_8 a v (byte_at L seg)) t
    Stores-u8 s lo hv =
        let made = page_with_u8-bytes v _ s.old s.page hv s.written in
        let start = page_start_lem seg.start_address (omega arith) in
        let near : offset seg a + 0 < page_size = omega arith in
        record {
          same_start = s.same_start;
          same_size = s.same_size;
          good = s.good (made.0 (L.view-IsPage _ _ s.old good s.found));
          bytes = λ x x_lo x_fits. elim (Bool-cases (index seg a == index seg x)) [
            | inl e ↦
                let here = same_page seg a x lo fits x_lo x_fits in
                rw (
                  stored_byte L seg a x s,
                  e,
                  made.1 (offset seg x),
                  old_byte L seg a x s e,
                  here 0 a (offset seg a) (omega arith) (omega arith) e (omega arith) (omega arith),
                )
            | inr e ↦
                let away = other_page seg a x lo fits x_lo x_fits in
                rw
                  (stored_byte L seg a x s, e, away 0 a (omega arith) e (omega arith) (omega arith))
          ];
        }

    -- A write of a byte at a 32-bit address that succeeds leaves a segment in which the byte at the
    -- address is that byte, and every other byte is what it was.
    pub write_u8-HasBytes :
        v < 2 ^ 8
        → (write_u8 P a v seg).0 ≡ ok tt
        → HasBytes L seg (with_8 a v (byte_at L seg)) (write_u8 P a v seg).1
    write_u8-HasBytes hv e =
        let (lo, stored, same) = write_u8-guards e in
        rw (← same) (Stores-u8 (store-Stores L (page_with_u8 v) a seg good stored) lo hv)
