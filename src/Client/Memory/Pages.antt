-- ===== src/Client/Memory/Pages.antt =====
-- The pages that `MemorySegment::new` of client-sdk/src/memory.rs makes of the bytes of a segment.
mod Page
use vanadium.Prelude.{
  ℕ, zero, suc, ◌+◌, ◌-◌, ◌%◌, ◌^◌, ◌<◌, ◌≤◌, ◌≡◌, refl, sym, ap, ap₂, ◌∙◌, arith, leb, leb→le, min,
  Bool-cases, true, inl, inr,
}
use vanadium.Prelude.{
  List, [], ◌∷◌, ◌++◌, map, append_assoc, append-nil, length, length-append, length-take,
  length-drop, length-replicate, take-append-drop, All, take, drop, replicate, none, Outcome, ok,
  and_then,
}
use vanadium.Word.{wrapping_add, wrapping_sub}
use vanadium.Message.{flatten}
use vanadium.Message.Bytes.{take_all}
use vanadium.Accumulator.{AccumulatorError}
use vanadium.Vm.Memory.{page_start}
use vanadium.Vm.Memory.Laws.{page_start_lem}
use vanadium.Client.Memory.{get_serialized_page, slice_checked, padded_page, serialized_pages}
use vanadium.Client.Memory.Pages.Page.{between, padded_page-eq, nil_of_length, drop-drop}

-- The pages from an address on: they hold zeros up to it, the bytes from there on, and zeros.
pub record HasPages (start end : ℕ) (bytes : List ℕ) (current : ℕ)
    (result : Outcome AccumulatorError (List (List ℕ))) : Type 0 where
  pub pages : List (List ℕ)
  pub sizes : All (λ p. length p ≡ 256) pages
  pub made : result ≡ ok (map (λ p. get_serialized_page p none) pages)
  pub pad : ℕ
  pub held :
      flatten pages
      ≡ replicate (current % 256) 0 ++ (drop (current - start) bytes ++ replicate pad 0)
  pub short : pad < 256
  pub ended : end ≤ current → pad ≡ 0

-- The content of the page of an address, and what the pages after it hold.
module _ (start end current : ℕ) (bytes : List ℕ) (from : start ≤ current) (before : current < end)
    (whole : end ≡ start + length bytes) where
  abbrev first : ℕ
  first = current - current % 256

  abbrev last : ℕ
  last = min (first + 256) end

  abbrev content : List ℕ
  content = between bytes (current - start) (last - start)

  abbrev zeros : List ℕ
  zeros = replicate (first + 256 - last) 0

  abbrev rest : List ℕ
  rest = drop (current - start) bytes

  page_size : length (replicate (current % 256) 0 ++ (content ++ zeros)) ≡ 256
  page_size = omega (
    arith,
    length-append (replicate (current % 256) 0) (content ++ zeros),
    length-append content zeros,
    length-replicate {A = ℕ} (current % 256) 0,
    length-replicate {A = ℕ} (first + 256 - last) 0,
    length-take (last - start - (current - start)) rest,
    length-drop (current - start) bytes,
  )

  -- A page that is full, and the bytes that follow.
  full_page :
      (pad : List ℕ)
      → first + 256 ≤ end
      → (content ++ zeros) ++ (drop (first + 256 - start) bytes ++ pad) ≡ rest ++ pad
  full_page pad fits =
      let n = last - start - (current - start) in
      let none_left : first + 256 - last ≡ 0 = omega arith in
      let no_zeros : zeros ≡ [] = ap (λ j. replicate j 0) none_left in
      let later = drop-drop n (current - start) (first + 256 - start) bytes (omega arith) in
      ap (λ z. (content ++ z) ++ (drop (first + 256 - start) bytes ++ pad)) no_zeros
      ∙ ap (λ c. c ++ (drop (first + 256 - start) bytes ++ pad)) (append-nil content)
      ∙ ap (λ d. content ++ (d ++ pad)) (sym later)
      ∙ sym (append_assoc content (drop n rest) pad)
      ∙ ap (λ b. b ++ pad) (take-append-drop n rest)

  -- The last page.
  last_page : end < first + 256 → content ++ zeros ≡ rest ++ replicate (first + 256 - end) 0
  last_page ends =
      ap₂ ◌++◌
        (take_all rest (last - start - (current - start))
          (omega (arith, length-drop (current - start) bytes)))
        (ap (λ j. replicate j 0) (omega arith))

  abbrev page : List ℕ
  page = replicate (current % 256) 0 ++ (content ++ zeros)

  following : List ℕ → List ℕ
  following pad = replicate ((first + 256) % 256) 0 ++ (drop (first + 256 - start) bytes ++ pad)

  held_full :
      (pad : List ℕ)
      → first + 256 ≤ end
      → page ++ following pad ≡ replicate (current % 256) 0 ++ (rest ++ pad)
  unfolding following
  held_full pad fits =
      let whole_pages : (first + 256) % 256 ≡ 0 = omega arith in
      ap (λ k. page ++ (replicate k 0 ++ (drop (first + 256 - start) bytes ++ pad))) whole_pages
      ∙ append_assoc (replicate (current % 256) 0) (content ++ zeros) _
      ∙ ap (λ c. replicate (current % 256) 0 ++ c) (full_page pad fits)

  held_last :
      end < first + 256
      → page ++ following []
        ≡ replicate (current % 256) 0 ++ (rest ++ replicate (first + 256 - end) 0)
  unfolding following
  held_last ends =
      let left = drop (first + 256 - start) bytes in
      let none_follow : [] ≡ replicate ((first + 256) % 256) 0 ++ (left ++ []) =
        nil_of_length (replicate ((first + 256) % 256) 0 ++ (left ++ [])) (
          omega (
            arith,
            length-append (replicate ((first + 256) % 256) 0) (left ++ []),
            length-append left [],
            length-replicate {A = ℕ} ((first + 256) % 256) 0,
            length-drop (first + 256 - start) bytes,
          )) in
      ap (λ f. page ++ f) (sym none_follow)
      ∙ append-nil page
      ∙ ap (λ c. replicate (current % 256) 0 ++ c) (last_page ends)

  next_pages :
      (result : Outcome AccumulatorError (List (List ℕ)))
      → HasPages start end bytes (first + 256) result
      → HasPages start end bytes current
          (and_then result λ pages. ok (get_serialized_page page none ∷ pages))
  unfolding flatten following
  next_pages result q = elim (Bool-cases (leb (first + 256) end)) [
    | inl e ↦ record {
      pages = page ∷ q.pages;
      sizes = (page_size, q.sizes);
      made = rw (q.made) refl;
      pad = q.pad;
      held =
          ap (λ f. page ++ f) q.held ∙ held_full (replicate q.pad 0) (leb→le (first + 256) end e);
      short = q.short;
      ended = λ over. absurd (omega arith);
    }
    | inr e ↦
        let ends : end < first + 256 = ground arith in
        let no_pad : q.pad ≡ 0 = q.ended (omega arith) in
        record {
          pages = page ∷ q.pages;
          sizes = (page_size, q.sizes);
          made = rw (q.made) refl;
          pad = first + 256 - end;
          held =
              ap (λ f. page ++ f) q.held
              ∙ ap (λ k. page ++ following (replicate k 0)) no_pad
              ∙ held_last ends;
          short = omega arith;
          ended = λ over. absurd (omega arith);
        }
  ]

no_pages :
    (start end current : ℕ) (bytes : List ℕ)
    → end ≡ start + length bytes
    → end ≤ current
    → current % 256 ≡ 0
    → HasPages start end bytes current (ok [])
unfolding flatten
no_pages start end current bytes whole over z =
    let left = drop (current - start) bytes in
    record {
      pages = [];
      sizes = tt;
      made = refl;
      pad = 0;
      held = nil_of_length (replicate (current % 256) 0 ++ (left ++ [])) (
          omega (
            arith,
            z,
            length-append (replicate (current % 256) 0) (left ++ []),
            length-append left [],
            length-replicate {A = ℕ} (current % 256) 0,
            length-drop (current - start) bytes,
          ));
      short = omega arith;
      ended = λ q. refl;
    }

-- The pages that `new` makes, with a turn more than there are bytes left.
pub serialized_pages_lem :
    (turns start end current : ℕ) (bytes : List ℕ)
    → start ≤ current
    → end ≡ start + length bytes
    → end + 256 ≤ 2 ^ 32
    → current ≤ end + 256
    → (end ≤ current → current % 256 ≡ 0)
    → end - current < turns
    → HasPages start end bytes current (serialized_pages turns start end bytes current)
unfolding serialized_pages
serialized_pages_lem zero start end current bytes from whole room near aligned enough =
    absurd (omega arith)
serialized_pages_lem (suc turns) start end current bytes from whole room near aligned enough =
    elim (Bool-cases (leb end current)) [
      | inl e ↦
          let over : end ≤ current = leb→le end current e in
          rw e (no_pages start end current bytes whole over (aligned over))
      | inr e ↦
          let before : current < end = ground arith in
          let first = current - current % 256 in
          let next : wrapping_add (page_start current) 256 ≡ first + 256 =
            ap (λ p. wrapping_add p 256) (page_start_lem current (omega arith)) ∙ omega arith in
          let later =
            serialized_pages_lem turns start end (first + 256) bytes (omega arith) whole room
              (omega arith) (λ over. omega arith) (omega arith) in
          rw (e, next, padded_page-eq start end current bytes from before whole room)
            (next_pages start end current bytes from before whole _ later)
    ]

-- For the bytes of a segment that ends at least 256 bytes below 2^32, and that are some or start at
-- a page: the loop of new makes pages of 256 bytes each, serialized as not encrypted, which one
-- after the other hold zeros from the start of the first page to the start of the segment, then the
-- bytes, and then less than 256 zeros.
pub serialized_pages-HasPages :
    (start : ℕ) (bytes : List ℕ)
    → start + length bytes + 256 ≤ 2 ^ 32
    → (length bytes ≡ 0 → start % 256 ≡ 0)
    → HasPages start
        (start + length bytes)
        bytes
        start
        (serialized_pages (suc (length bytes)) start (start + length bytes) bytes start)
serialized_pages-HasPages start bytes room aligned =
    serialized_pages_lem (suc (length bytes)) start (start + length bytes) start bytes (omega arith)
      refl room (omega arith) (λ over. aligned (omega arith)) (omega arith)
