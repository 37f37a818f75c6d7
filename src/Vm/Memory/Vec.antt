-- ===== src/Vm/Memory/Vec.antt =====
-- `VecMemory` is a paged memory: its pages are its list.
use vanadium.Prelude.{
  ℕ, zero, suc, List, [], ◌∷◌, ◌++◌, Option, none, some, ok, panic, subst, ◌≢◌, ◌≡◌, refl, arith,
}
use vanadium.Prelude.{
  get_elem?, get_elem?-set, get_elem?-lt, replicate, length-replicate, All, All-set, All-replicate,
}
use mathlib.Core.Option.{some-injective}
use vanadium.Word.{IsU8}
use vanadium.Vm.Memory.{
  Page, VecMemory, vec_memory, new_vec_memory, push_pages, page_size, or_page_not_found,
}
use vanadium.Vm.Memory.Laws.{IsPage, IsPagedMemory, IsAvailable}

abbrev pub AllPages : VecMemory → Type 0
AllPages m = All IsPage m.pages

All-get_elem? {ℓ κ} :
    {A : Type ℓ} (P : A → Type κ) (xs : List A) (i : ℕ) (a : A)
    → All P xs
    → get_elem? xs i ≡ some a
    → P a
All-get_elem? P [] i a h e = cc
All-get_elem? P (x ∷ xs) zero a h e = subst P (some-injective _ _ e) h.0
All-get_elem? P (x ∷ xs) (suc i) a h e = All-get_elem? P xs i a h.1 e

found_page : (o : Option Page) (page : Page) → or_page_not_found o ≡ ok page → o ≡ some page
found_page none page e = cc
found_page (some p) page e = cc

found_or_error : (o : Option Page) → or_page_not_found o ≢ panic
found_or_error none e = cc
found_or_error (some p) e = cc

pub vec_memory-IsPagedMemory : IsPagedMemory vec_memory
unfolding vec_memory
vec_memory-IsPagedMemory = record {
  IsGood = AllPages;
  view = λ m i. get_elem? m.pages i;
  view-IsPage = λ m i page h e. All-get_elem? IsPage m.pages i page h e;
  get_page-IsGood = λ m i h. h;
  view-get_page = λ m i j h. refl;
  get_page-eq-view = λ m i page h e. found_page (get_elem? m.pages i) page e;
  get_page-ne-panic = λ m i h e. found_or_error (get_elem? m.pages i) e;
  put_page-IsGood = λ m i old page h e hp. All-set IsPage m.pages i page h hp;
  view-put_page = λ m i j old page h e.
      get_elem?-set m.pages i j page
        (get_elem?-lt m.pages i old (found_page (get_elem? m.pages i) old e));
}

-- The pages of `VecMemory::new(n)` are `n` pages of zeros, and each of its pages can be had.
push_pages-All : (n : ℕ) (pages : List Page) → All IsPage pages → All IsPage (push_pages n pages)
unfolding push_pages
push_pages-All zero pages h = h
push_pages-All (suc n) pages h = push_pages-All n _ (All-snoc pages h)
  where
    All-snoc : (xs : List Page) → All IsPage xs → All IsPage (xs ++ (replicate page_size 0 ∷ []))
    All-snoc [] h = (
      record {
        size = length-replicate {A = ℕ} 256 0;
        bytes = All-replicate IsU8 256 0 (omega arith);
      },
      tt,
    )
    All-snoc (x ∷ xs) h = (h.0, All-snoc xs h.1)

pub new_vec_memory-AllPages : (n : ℕ) → AllPages (new_vec_memory n)
unfolding new_vec_memory
new_vec_memory-AllPages n = push_pages-All n [] tt

pub vec_memory-IsAvailable :
    (m : VecMemory) → unfold vec_memory in IsAvailable vec_memory vec_memory-IsPagedMemory m
unfolding vec_memory vec_memory-IsPagedMemory
vec_memory-IsAvailable m i page e = rw e

pub new_vec_memory-IsGood :
    (n : ℕ) → unfold vec_memory in vec_memory-IsPagedMemory.IsGood (new_vec_memory n)
unfolding vec_memory vec_memory-IsPagedMemory
new_vec_memory-IsGood n = new_vec_memory-AllPages n
