-- ===== src/Vm/Segment/View.antt =====
-- The bytes that a segment stands for, and what `load` and `store` do to them.
use vanadium.Prelude.{ℕ, ◌+◌, ◌/◌, ◌%◌, ◌^◌, ◌<◌, ◌==◌, if◌then◌else◌, ◌≡◌, refl}
use vanadium.Prelude.{
  Option, none, some, Outcome, ok, err, panic, and_then, and_then-eq-ok, get_elem?,
}
use vanadium.Vm.Error.{MemoryError}
use vanadium.Vm.Memory.{Page, PagedMemory, page_size}
use vanadium.Vm.Memory.Laws.{IsPagedMemory, IsPage}
use vanadium.Vm.Segment.{Segment, relative_address, load, store, store_page}

abbrev pub page_byte : Option Page → ℕ → Option ℕ
page_byte none offset = none
page_byte (some page) offset = get_elem? page offset

module _ {P : PagedMemory} (L : IsPagedMemory P) where
  -- The byte that the pages hold for an address.
  unfoldable pub byte_at : Segment P → ℕ → Option ℕ
  byte_at seg a =
      page_byte (L.view seg.paged_memory (relative_address seg a / page_size))
        (relative_address seg a % page_size)

  -- A segment whose end does not wrap round, over a good memory.
  pub record IsValid (seg : Segment P) : Type 0 where
    pub end_fits : seg.start_address + seg.size < 2 ^ 32
    pub not_empty : 0 < seg.size
    pub good : L.IsGood seg.paged_memory

  -- The two have the same place and the same bytes.
  pub record HasSameBytes (s t : Segment P) : Type 0 where
    pub same_start : t.start_address ≡ s.start_address
    pub same_size : t.size ≡ s.size
    pub good : L.IsGood t.paged_memory
    pub same_pages : (i : ℕ) → L.view t.paged_memory i ≡ L.view s.paged_memory i

  abbrev get_page_of : Segment P → ℕ → Outcome MemoryError Page × P.Memory
  get_page_of seg a = P.get_page seg.paged_memory (relative_address seg a / page_size)

  module _ {A : Type 0} (read : ℕ → Page → Outcome MemoryError A) (a : ℕ) (seg : Segment P) where
    pub load-HasSameBytes : L.IsGood seg.paged_memory → HasSameBytes seg (load P read a seg).1
    unfolding load
    load-HasSameBytes h = record {
      same_start = refl;
      same_size = refl;
      good = L.get_page-IsGood _ _ h;
      same_pages = λ i. L.view-get_page _ _ i h;
    }

    pub load-eq-ok :
        (v : A)
        → L.IsGood seg.paged_memory
        → (load P read a seg).0 ≡ ok v
        → (page : Page) × (L.view seg.paged_memory (relative_address seg a / page_size) ≡ some page)
          × (read (relative_address seg a % page_size) page ≡ ok v)
    unfolding load
    load-eq-ok v h e =
        let (page, found, value) = and_then-eq-ok (get_page_of seg a).0 _ e in
        (page, L.get_page-eq-view _ _ page h found, value)

  -- What a successful store has done: it has put the page that `write` makes of the old one.
  pub record Stores (write : ℕ → Page → Outcome MemoryError Page) (a : ℕ) (seg t : Segment P)
      : Type 0 where
    pub old : Page
    pub page : Page
    pub found : L.view seg.paged_memory (relative_address seg a / page_size) ≡ some old
    pub written : write (relative_address seg a % page_size) old ≡ ok page
    pub same_start : t.start_address ≡ seg.start_address
    pub same_size : t.size ≡ seg.size
    pub pages :
        (j : ℕ)
        → L.view t.paged_memory j ≡ (
            if relative_address seg a / page_size == j
            then some page
            else L.view seg.paged_memory j)
    pub good : IsPage page → L.IsGood t.paged_memory

  module _ (write : ℕ → Page → Outcome MemoryError Page) (a : ℕ) (seg : Segment P)
      (h : L.IsGood seg.paged_memory) where
    pub store-Stores : (store P write a seg).0 ≡ ok tt → Stores write a seg (store P write a seg).1
    unfolding store
    store-Stores e = go _ refl e
      where
        go :
            (w : Outcome MemoryError Page)
            → and_then (get_page_of seg a).0 (write (relative_address seg a % page_size)) ≡ w
            → (store_page P (relative_address seg a / page_size) w (get_page_of seg a).1 seg).0
              ≡ ok tt
            → Stores write a seg
                (store_page P (relative_address seg a / page_size) w (get_page_of seg a).1 seg).1
        go (ok page) q e =
            unfold store_page in
            let (old, found, written) = and_then-eq-ok (get_page_of seg a).0 _ q in
            record {
              old = old;
              page = page;
              found = L.get_page-eq-view _ _ old h found;
              written = written;
              same_start = refl;
              same_size = refl;
              pages = λ j. L.view-put_page _ _ j old page h found;
              good = λ hp. L.put_page-IsGood _ _ old page h found hp;
            }
        go (err x) q e = unfold store_page in cc
        go panic q e = unfold store_page in cc
