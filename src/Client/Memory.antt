-- ===== src/Client/Memory.antt =====
-- `MemorySegment` of client-sdk/src/memory.rs: the pages of a part of the memory of a V-App, in an
-- accumulator. The hasher is a parameter.
pub mod Pages
use vanadium.Prelude.{ℕ, zero, suc, ◌-◌, ◌==◌, leb, min, not, ◌&&◌, if◌then◌else◌}
use vanadium.Prelude.{
  List, [], ◌∷◌, ◌++◌, length, take, drop, replicate, Option, none, some, Outcome, ok, err, panic,
  and_then, map_err,
}
use vanadium.Word.{wrapping_add, wrapping_sub}
use vanadium.Accumulator.{
  AccumulatorError, HashOutput, MerkleAccumulator, get, prove, update, root, new,
}
use vanadium.Vm.Error.{MemoryError}
use vanadium.Vm.Memory.{page_start}
use vanadium.Paging.Outsourced.{next_power}

pub get_serialized_page : List ℕ → Option (List ℕ) → List ℕ
get_serialized_page bytes none = replicate 13 0 ++ bytes
get_serialized_page bytes (some nonce) = 1 ∷ (nonce ++ bytes)

pub data MemorySegmentError : Type 0 where
  page_not_found : MemorySegmentError
  invalid_page_size : MemorySegmentError
  memory_error : MemoryError → MemorySegmentError
  accumulator_error : AccumulatorError → MemorySegmentError

pub record MemorySegment : Type 0 where
  pub content : MerkleAccumulator

-- `data[from..to]`, which panics if it is not within the data.
pub slice_checked : List ℕ → ℕ → ℕ → Outcome AccumulatorError (List ℕ)
slice_checked bytes from to =
    if leb from to && leb to (length bytes) then ok (take (to - from) (drop from bytes)) else panic

-- The page that `current_addr` is in, with the bytes from there on that are not beyond `end`.
pub padded_page : ℕ → ℕ → List ℕ → ℕ → Outcome AccumulatorError (List ℕ)
padded_page start end bytes current_addr =
    let page_start_addr = page_start current_addr in
    let page_end_addr = wrapping_add page_start_addr 256 in
    let content_end_addr = min page_end_addr end in
    and_then
      (slice_checked bytes (wrapping_sub current_addr start) (wrapping_sub content_end_addr start))
      λ content. ok (
        replicate (wrapping_sub current_addr page_start_addr) 0
        ++ (content ++ replicate (wrapping_sub page_end_addr content_end_addr) 0))

-- The loop of `new` over the pages. A turn copies at least a byte, so that as many turns are enough
-- as there are bytes, and one to end.
pub serialized_pages : ℕ → ℕ → ℕ → List ℕ → ℕ → Outcome AccumulatorError (List (List ℕ))
serialized_pages zero start end bytes current_addr = panic
serialized_pages (suc turns) start end bytes current_addr =
    let next = wrapping_add (page_start current_addr) 256 in
    let rest = serialized_pages turns start end bytes next in
    if leb end current_addr
    then ok []
    else and_then (padded_page start end bytes current_addr)
        λ page_content. and_then rest λ pages. ok (get_serialized_page page_content none ∷ pages)

-- A `usize` of the host has 64 bits.
abbrev pub target_len : ℕ → Outcome AccumulatorError ℕ
target_len n = elim (next_power 64 1 n) [ none ↦ panic | some len ↦ ok len ]

abbrev pub empty_page : List ℕ
empty_page = get_serialized_page (replicate 256 0) none

module _ (digest : List ℕ → HashOutput) where
  pub new_segment : ℕ → List ℕ → Outcome AccumulatorError MemorySegment
  new_segment start bytes =
      let end = wrapping_add start (length bytes) in
      and_then (serialized_pages (suc (length bytes)) start end bytes start) λ pages.
        and_then (target_len (length pages)) λ len.
          and_then (new digest 32 (pages ++ replicate (len - length pages) empty_page))
            λ content. ok (record { content = content })

  unfoldable pub store_page :
      ℕ
      → List ℕ
      → MemorySegment
      → Outcome MemorySegmentError (List HashOutput × HashOutput) × MemorySegment
  store_page page_index content s =
      let (stored, ma) = update digest page_index content s.content in
      if not (length content == 269)
      then (err invalid_page_size, s)
      else (map_err accumulator_error stored, record { content = ma })

unfoldable pub get_page : MemorySegment → ℕ → Outcome MemorySegmentError (List ℕ × List HashOutput)
get_page s page_index = elim (get s.content page_index) [
  | none ↦ err page_not_found
  | some content ↦
      and_then (map_err accumulator_error (prove s.content page_index)) λ proof. ok (content, proof)
]

pub get_content_root : MemorySegment → HashOutput
get_content_root s = root s.content
