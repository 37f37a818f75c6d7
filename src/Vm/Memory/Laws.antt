-- ===== src/Vm/Memory/Laws.antt =====
-- What a client of a paged memory of common/src/vm.rs relies on.
use vanadium.Prelude.{ℕ, Option, some, ok, panic, ◌≢◌}
use vanadium.Prelude.{◌≡◌, ◌*◌, ◌/◌, arith, length, All, if◌then◌else◌, ◌==◌}
use vanadium.Word.{IsU8, IsU32}
use vanadium.Word.Masks.{mask_field}
use vanadium.Vm.Memory.{Page, PagedMemory, page_size, page_start}

pub page_start_lem : (a : ℕ) → IsU32 a → page_start a ≡ a / page_size * page_size
unfolding page_start
page_start_lem a h = omega (arith, mask_field 24 8 a)

-- A page of 256 bytes.
pub record IsPage (page : Page) : Type 0 where
  pub size : length page ≡ page_size
  pub bytes : All IsU8 page

-- The pages that a memory stands for, whatever it does to hold them: a page that is handed out is
-- the page that it stands for, asking for one changes none of them, and storing one changes no other.
pub record IsPagedMemory (P : PagedMemory) : Type 1 where
  pub IsGood : P.Memory → Type 0
  pub view : P.Memory → ℕ → Option Page
  pub view-IsPage :
      (m : P.Memory) (i : ℕ) (page : Page) → IsGood m → view m i ≡ some page → IsPage page
  pub get_page-IsGood : (m : P.Memory) (i : ℕ) → IsGood m → IsGood (P.get_page m i).1
  pub view-get_page : (m : P.Memory) (i j : ℕ) → IsGood m → view (P.get_page m i).1 j ≡ view m j
  pub get_page-eq-view :
      (m : P.Memory) (i : ℕ) (page : Page)
      → IsGood m
      → (P.get_page m i).0 ≡ ok page
      → view m i ≡ some page
  pub get_page-ne-panic : (m : P.Memory) (i : ℕ) → IsGood m → (P.get_page m i).0 ≢ panic
  pub put_page-IsGood :
      (m : P.Memory) (i : ℕ) (old page : Page)
      → IsGood m
      → (P.get_page m i).0 ≡ ok old
      → IsPage page
      → IsGood (P.put_page (P.get_page m i).1 i page)
  pub view-put_page :
      (m : P.Memory) (i j : ℕ) (old page : Page)
      → IsGood m
      → (P.get_page m i).0 ≡ ok old
      → view (P.put_page (P.get_page m i).1 i page) j ≡ (if i == j then some page else view m j)

-- A memory whose every page can be had, which one that asks a host for pages is not.
abbrev pub IsAvailable : (P : PagedMemory) → IsPagedMemory P → P.Memory → Type 0
IsAvailable P L m = (i : ℕ) (page : Page) → L.view m i ≡ some page → (P.get_page m i).0 ≡ ok page
