-- ===== src/Vm/Segment/PageBytes.antt =====
-- The little-endian words inside one page.
use vanadium.Prelude.{ℕ, ◌+◌, ◌*◌, ◌/◌, ◌^◌, ◌<◌, ◌==◌, if◌then◌else◌, ◌≡◌, subst, ◌∙◌}
use vanadium.Prelude.{Option, none, some, ok, and_then-eq-ok, arith}
use vanadium.Prelude.{get_elem?, get_elem?-set, length, set, length-set, All-set}
use vanadium.Word.{IsU8, u8}
use vanadium.Vm.Memory.{Page}
use vanadium.Vm.Memory.Laws.{IsPage}
use vanadium.Vm.Segment.{
  put_byte, page_u8, page_u16, page_u32, page_with_u8, page_with_u16, page_with_u32,
}

-- A byte below the rest of a little-endian value.
abbrev pub below_rest : Option ℕ → Option ℕ → Option ℕ
below_rest (some b) (some rest) = some (b + 256 * rest)
below_rest (some b) none = none
below_rest none rest = none

-- The little-endian value of one, two or four bytes from index `i` on.
module _ (f : ℕ → Option ℕ) (i : ℕ) where
  abbrev pub value_8 : Option ℕ
  value_8 = f i

  abbrev pub value_16 : Option ℕ
  value_16 = below_rest (f i) (f (i + 1))

  abbrev pub value_32 : Option ℕ
  value_32 = below_rest (f i) (below_rest (f (i + 1)) (below_rest (f (i + 2)) (f (i + 3))))

module _ (page : Page) (o v : ℕ) where
  pub page_u8-value : page_u8 o page ≡ ok v → value_8 (get_elem? page) o ≡ some v
  unfolding page_u8
  page_u8-value e = ground arith

  pub page_u16-value : page_u16 o page ≡ ok v → value_16 (get_elem? page) o ≡ some v
  unfolding page_u16
  page_u16-value e = ground arith

  pub page_u32-value : page_u32 o page ≡ ok v → value_32 (get_elem? page) o ≡ some v
  unfolding page_u32
  page_u32-value e = ground arith

put_byte_lem :
    (i v : ℕ) (old new : Page) → put_byte i v old ≡ ok new → (i < length old) × (set old i v ≡ new)
put_byte_lem i v old new e = ground arith

-- `n` bytes of `v` from index `i` on, lowest first, and elsewhere what `f` gives.
abbrev pub with_8 : ℕ → ℕ → (ℕ → Option ℕ) → ℕ → Option ℕ
with_8 i v f j = if i == j then some (u8 v) else f j

abbrev pub with_16 : ℕ → ℕ → (ℕ → Option ℕ) → ℕ → Option ℕ
with_16 i v f j = if i == j then some (u8 v) else if i + 1 == j then some (u8 (v / 2 ^ 8)) else f j

abbrev pub with_32 : ℕ → ℕ → (ℕ → Option ℕ) → ℕ → Option ℕ
with_32 i v f j =
    if i == j
    then some (u8 v)
    else if i + 1 == j
    then some (u8 (v / 2 ^ 8))
    else if i + 2 == j
    then some (u8 (v / 2 ^ 16))
    else if i + 3 == j
    then some (u8 (v / 2 ^ 24))
    else f j

put_byte-IsPage :
    (i v : ℕ) (old new : Page) → IsPage old → v < 2 ^ 8 → put_byte i v old ≡ ok new → IsPage new
put_byte-IsPage i v old new h hv e =
    subst IsPage (put_byte_lem i v old new e).1
      (record { size = length-set old i v ∙ h.size; bytes = All-set IsU8 old i v h.bytes hv })

put_byte-bytes :
    (i v : ℕ) (old new : Page) (j : ℕ)
    → put_byte i v old ≡ ok new
    → get_elem? new j ≡ (if i == j then some v else get_elem? old j)
put_byte-bytes i v old new j e =
    let (lt, q) = put_byte_lem i v old new e in rw (← q) (get_elem?-set old i j v lt)

module _ (v o : ℕ) (old new : Page) where
  pub page_with_u8-bytes :
      v < 2 ^ 8
      → page_with_u8 v o old ≡ ok new
      → (IsPage old → IsPage new) × ((j : ℕ) → get_elem? new j ≡ with_8 o v (get_elem? old) j)
  unfolding page_with_u8
  page_with_u8-bytes hv e =
      (λ h. put_byte-IsPage o v old new h hv e, λ j. ground (arith, put_byte-bytes o v old new j e))

  pub page_with_u16-bytes :
      page_with_u16 v o old ≡ ok new
      → (IsPage old → IsPage new) × ((j : ℕ) → get_elem? new j ≡ with_16 o v (get_elem? old) j)
  unfolding page_with_u16
  page_with_u16-bytes e =
      let (p, e0, e1) = and_then-eq-ok (put_byte o (u8 v) old) _ e in
      (
        λ h.
            put_byte-IsPage (o + 1) _ p new (put_byte-IsPage o _ old p h (omega arith) e0)
              (omega arith) e1,
        λ j. ground (arith, put_byte-bytes o _ old p j e0, put_byte-bytes (o + 1) _ p new j e1),
      )

  pub page_with_u32-bytes :
      page_with_u32 v o old ≡ ok new
      → (IsPage old → IsPage new) × ((j : ℕ) → get_elem? new j ≡ with_32 o v (get_elem? old) j)
  unfolding page_with_u32
  page_with_u32-bytes e =
      let (p, e0, f0) = and_then-eq-ok (put_byte o (u8 v) old) _ e in
      let (q, e1, f1) = and_then-eq-ok (put_byte (o + 1) _ p) _ f0 in
      let (r, e2, e3) = and_then-eq-ok (put_byte (o + 2) _ q) _ f1 in
      (
        λ h.
            put_byte-IsPage (o + 3) _ r new
              (put_byte-IsPage (o + 2) _ q r
                (put_byte-IsPage (o + 1) _ p q (put_byte-IsPage o _ old p h (omega arith) e0)
                  (omega arith) e1)
                (omega arith) e2)
              (omega arith) e3,
        λ j. ground (
          arith,
          put_byte-bytes o _ old p j e0,
          put_byte-bytes (o + 1) _ p q j e1,
          put_byte-bytes (o + 2) _ q r j e2,
          put_byte-bytes (o + 3) _ r new j e3,
        ),
      )
