-- ===== src/Client/Memory/Pages/Page.antt =====
-- One page of `MemorySegment::new` of client-sdk/src/memory.rs.
use vanadium.Prelude.{
  ℕ, zero, suc, ◌+◌, ◌-◌, ◌%◌, ◌^◌, ◌<◌, ◌≤◌, ◌≡◌, refl, sym, ap, ◌∙◌, arith, leb, min, true,
}
use vanadium.Prelude.{List, [], ◌∷◌, ◌++◌, length, take, drop, replicate, ok}
use vanadium.Word.{wrapping_add, wrapping_sub}
use vanadium.Vm.Memory.{page_start}
use vanadium.Vm.Memory.Laws.{page_start_lem}
use vanadium.Client.Memory.{slice_checked, padded_page}

-- The bytes of a list from one place to another.
abbrev pub between : List ℕ → ℕ → ℕ → List ℕ
between bytes from to = take (to - from) (drop from bytes)

pub padded_page-eq :
    (start end current : ℕ) (bytes : List ℕ)
    → start ≤ current
    → current < end
    → end ≡ start + length bytes
    → end + 256 ≤ 2 ^ 32
    → let first = current - current % 256 in
      let last = min (first + 256) end in
      padded_page start end bytes current
      ≡ ok (
          replicate (current % 256) 0
          ++ (between bytes (current - start) (last - start) ++ replicate (first + 256 - last) 0))
unfolding padded_page slice_checked
padded_page-eq start end current bytes from before whole room =
    let first = current - current % 256 in
    let last = min (first + 256) end in
    let ps : page_start current ≡ first = page_start_lem current (omega arith) ∙ omega arith in
    let e0 : wrapping_add first 256 ≡ first + 256 = omega arith in
    let e1 : wrapping_sub current start ≡ current - start = omega arith in
    let e2 : wrapping_sub last start ≡ last - start = omega arith in
    let e3 : wrapping_sub current first ≡ current % 256 = omega arith in
    let e4 : wrapping_sub (first + 256) last ≡ first + 256 - last = omega arith in
    let e5 : leb (current - start) (last - start) ≡ true = ground arith in
    let e6 : leb (last - start) (length bytes) ≡ true = ground arith in
    rw (ps, e0, e1, e2, e3, e4, e5, e6) refl

pub nil_of_length : (xs : List ℕ) → length xs ≡ 0 → [] ≡ xs
nil_of_length [] h = refl
nil_of_length (x ∷ xs) h = absurd (omega arith)

drop-nil : (n : ℕ) → ◌≡◌ {A = List ℕ} (drop n []) []
drop-nil zero = refl
drop-nil (suc n) = refl

pub drop-drop : (n k m : ℕ) (xs : List ℕ) → m ≡ k + n → drop n (drop k xs) ≡ drop m xs
drop-drop n zero m xs e = ap (λ j. drop j xs) (omega arith)
drop-drop n (suc k) m [] e = drop-nil n ∙ sym (drop-nil m)
drop-drop n (suc k) zero (x ∷ xs) e = absurd (omega arith)
drop-drop n (suc k) (suc m) (x ∷ xs) e = drop-drop n k m xs (omega arith)
