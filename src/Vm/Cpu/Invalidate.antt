-- ===== src/Vm/Cpu/Invalidate.antt =====
-- What a store does to the reservation.
use vanadium.Prelude.{ℕ, ◌+◌, ◌-◌, ◌<◌, ◌≤◌, ◌≡◌, refl, ◌≢◌, ◌⊎◌, inl, inr, ap, ◌∙◌, arith}
use native.Mathlib.Decide.{dec_le}
use vanadium.Prelude.{none, some, ok, err, panic, Outcome}
use vanadium.Vm.Error.{CpuError}
use vanadium.Vm.Memory.{PagedMemory}
use vanadium.Vm.Cpu.{
  Cpu, Access, Exec, invalidate, write, write_u8, write_u16, write_u32, after_store, on_stack,
  on_data,
}

pub invalidate-touching :
    (width address res : ℕ)
    → address < res + 4
    → res < address + width
    → 0 < width
    → invalidate width address (some res) ≡ none
unfolding invalidate
invalidate-touching width address res a b positive = ground arith

invalidate-apart :
    (width address res : ℕ)
    → (res + 4 ≤ address) ⊎ (address + width ≤ res)
    → 0 < width
    → invalidate width address (some res) ≡ some res
unfolding invalidate
invalidate-apart width address res d positive = ground arith

-- A byte of the store is a byte of the reserved word.
pub record Touches (width address res : ℕ) : Type 0 where
  pub byte : ℕ
  pub word_byte : ℕ
  pub in_store : byte < width
  pub in_word : word_byte < 4
  pub same : address + byte ≡ res + word_byte

invalidate-Touches :
    (width address res : ℕ) → Touches width address res → invalidate width address (some res) ≡ none
invalidate-Touches width address res t =
    invalidate-touching width address res (omega (arith, t.in_store, t.in_word, t.same))
      (omega (arith, t.in_store, t.in_word, t.same)) (omega (arith, t.in_store))

not_Touches :
    (width address res : ℕ)
    → (res + 4 ≤ address) ⊎ (address + width ≤ res)
    → ¬ Touches width address res
not_Touches width address res (inl above) t = omega (arith, t.in_store, t.in_word, t.same)
not_Touches width address res (inr below) t = omega (arith, t.in_store, t.in_word, t.same)

-- Where no byte is shared, the store ends before the word or begins after it.
overlap_cases :
    (width address res : ℕ)
    → 0 < width
    → Touches width address res ⊎ ((res + 4 ≤ address) ⊎ (address + width ≤ res))
overlap_cases width address res positive = elim (dec_le (res + 4) address) [
  | yes above ↦ inr (inl above)
  | no near ↦ elim (dec_le (address + width) res) [
    | yes below ↦ inr (inr below)
    | no far ↦ inl (record {
      byte = res - address;
      word_byte = address - res;
      in_store = omega arith;
      in_word = omega arith;
      same = omega arith;
    })
  ]
]

-- The three stores of the CPU, and the bytes that each one writes.
pub data Store : Type 0 where
  byte half word : Store

pub width_of : Store → ℕ
width_of byte = 1
width_of half = 2
width_of word = 4

module _ (P : PagedMemory) (E : Type 0) where
  pub store_of : Store → ℕ → ℕ → Exec P E (Unit {0})
  store_of byte = write_u8 P E
  store_of half = write_u16 P E
  store_of word = write_u32 P E

  pub write-reservation :
      (width : ℕ) (access : ℕ → ℕ → Access P E (Unit {0})) (address value : ℕ) (cpu : Cpu P.Memory)
      → (write P E width access address value cpu).0 ≡ ok tt
      → (write P E width access address value cpu).1.reservation_addr
        ≡ invalidate width address cpu.reservation_addr
  unfolding write after_store on_stack on_data
  write-reservation width access address value cpu e = ground arith

  write-fails :
      (width : ℕ) (access : ℕ → ℕ → Access P E (Unit {0})) (address value : ℕ) (cpu : Cpu P.Memory)
      → (write P E width access address value cpu).0 ≢ ok tt
      → (write P E width access address value cpu).1.reservation_addr ≡ cpu.reservation_addr
  unfolding write after_store on_stack on_data
  write-fails width access address value cpu e = ground arith

  -- What becomes of a reservation, over the bytes that a store writes.
  pub data Fate (width address res : ℕ) (r : Outcome (CpuError E) (Unit {0}) × Cpu P.Memory)
      : Type 0 where
    taken :
        r.0 ≡ ok tt
        → Touches width address res
        → r.1.reservation_addr ≡ none
        → Fate width address res r
    left :
        r.0 ≡ ok tt
        → ¬ Touches width address res
        → r.1.reservation_addr ≡ some res
        → Fate width address res r
    failed : r.0 ≢ ok tt → r.1.reservation_addr ≡ some res → Fate width address res r

  succeeded : (r : Outcome (CpuError E) (Unit {0})) → (r ≡ ok tt) ⊎ (r ≢ ok tt)
  succeeded (ok u) = inl refl
  succeeded (err e) = inr (λ h. cc)
  succeeded panic = inr (λ h. cc)

  write-Fate :
      (width : ℕ) (access : ℕ → ℕ → Access P E (Unit {0})) (address value res : ℕ)
      (cpu : Cpu P.Memory)
      → 0 < width
      → cpu.reservation_addr ≡ some res
      → Fate width address res (write P E width access address value cpu)
  write-Fate width access address value res cpu positive reserved =
      elim (succeeded (write P E width access address value cpu).0) [
        | inr e ↦ failed e (write-fails width access address value cpu e ∙ reserved)
        | inl e ↦
            let after =
              write-reservation width access address value cpu e
              ∙ ap (invalidate width address) reserved in
            elim (overlap_cases width address res positive) [
              | inl t ↦ taken e t (after ∙ invalidate-Touches width address res t)
              | inr d ↦
                  left e (not_Touches width address res d)
                    (after ∙ invalidate-apart width address res d positive)
            ]
      ]

  -- Of a CPU with a reservation, a store of a byte, a halfword or a word that succeeds takes the
  -- reservation away if one of the bytes that it writes, which are one, two or four, is a byte of
  -- the reserved word, and leaves it as it is if none of them is; a store that does not succeed
  -- leaves it as it is.
  pub store_of-Fate :
      (store : Store) (address value res : ℕ) (cpu : Cpu P.Memory)
      → cpu.reservation_addr ≡ some res
      → Fate (width_of store) address res (store_of store address value cpu)
  unfolding store_of write_u8 write_u16 write_u32 width_of
  store_of-Fate byte address value res cpu reserved =
      write-Fate 1 _ address value res cpu (omega arith) reserved
  store_of-Fate half address value res cpu reserved =
      write-Fate 2 _ address value res cpu (omega arith) reserved
  store_of-Fate word address value res cpu reserved =
      write-Fate 4 _ address value res cpu (omega arith) reserved
