-- ===== src/Vm/Memory.antt =====
-- Memory in pages: `Page`, `PagedMemory` and `VecMemory` of common/src/vm.rs, and `page_start` of
-- common/src/constants.rs.
pub mod Laws
pub mod Vec
use vanadium.Prelude.{ℕ, zero, suc, List, [], ◌∷◌, ◌++◌, Option, none, some, Outcome, ok, err}
use vanadium.Prelude.{bit_and, get_elem?, set, replicate}
use vanadium.Vm.Error.{MemoryError, page_not_found}

abbrev pub page_size : ℕ
page_size = 256

-- address & !(PAGE_SIZE - 1)
unfoldable pub page_start : ℕ → ℕ
page_start address = bit_and address 0xffffff00

-- `[u8; PAGE_SIZE]`: the laws of a memory say that its pages have that many bytes.
abbrev pub Page : Type 0
Page = List ℕ

-- The trait. `get_page` returns a mutable reference, so it is two operations here: the page that is
-- read through the reference, and `put_page`, which leaves a page where the reference points.
pub record PagedMemory : Type 1 where
  pub Memory : Type 0
  pub get_page : Memory → ℕ → Outcome MemoryError Page × Memory
  pub put_page : Memory → ℕ → Page → Memory

pub record VecMemory : Type 0 where
  pub pages : List Page

abbrev or_page_not_found : Option Page → Outcome MemoryError Page
or_page_not_found none = err page_not_found
or_page_not_found (some page) = ok page

pub get_page : VecMemory → ℕ → Outcome MemoryError Page × VecMemory
get_page m page_index = (or_page_not_found (get_elem? m.pages page_index), m)

pub put_page : VecMemory → ℕ → Page → VecMemory
put_page m page_index page = record { pages = set m.pages page_index page }

pub push_pages : ℕ → List Page → List Page
push_pages zero pages = pages
push_pages (suc n) pages = push_pages n (pages ++ (replicate page_size 0 ∷ []))

unfoldable pub new_vec_memory : ℕ → VecMemory
unfolding push_pages
new_vec_memory n_pages = record { pages = push_pages n_pages [] }

unfoldable pub vec_memory : PagedMemory
unfolding get_page put_page
vec_memory = record { Memory = VecMemory; get_page = get_page; put_page = put_page }
