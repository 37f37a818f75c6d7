-- ===== src/Paging/Aes/Counter.antt =====
-- The counter block and the nonce of vm/src/aes.rs as numbers.
use vanadium.Prelude.{
  ℕ, suc, ◌+◌, ◌*◌, ◌%◌, ◌^◌, ◌<◌, ◌≡◌, ◌==◌, refl, sym, ap, ◌∙◌, arith, Bool, true, false,
  if◌then◌else◌,
}
use vanadium.Prelude.{List, [], ◌∷◌, length, Bool-cases, ==_of_ne, inl, inr, All, subst}
use native.Mathlib.Nat.{pow-suc, mod-eq_of_lt, mod_self}
use vanadium.Word.{IsU8}
use vanadium.Paging.Aes.{increment, increment_be_slice}

-- A counter as the number that it stands for.
abbrev pub counter_value : List ℕ → ℕ
counter_value [] = 0
counter_value (b ∷ counter) = b * 256 ^ length counter + counter_value counter

-- The bytes after an increment, and what is carried out of them.
abbrev carried : ℕ → Bool → ℕ
carried n b = if b then 256 ^ n else 0

abbrev with_carry : ℕ → List ℕ → Bool → List ℕ × Bool
with_carry b after carry =
    if carry then ((b + 1) % 256 ∷ after, (b + 1) % 256 == 0) else (b ∷ after, false)

record IsIncremented (counter after : List ℕ) (carry : Bool) : Type 0 where
  same_size : length after ≡ length counter
  value : counter_value after + carried (length counter) carry ≡ counter_value counter + 1
  below : counter_value after < 256 ^ length counter

add_mul : (b P : ℕ) → suc b * P ≡ b * P + P
add_mul b P = grind arith

byte_place : (b P v : ℕ) → b < 256 → v < P → b * P + v < 256 * P
byte_place b P v h l = grind arith

low_byte : (b P v : ℕ) → b < 255 → v < P → (b + 1) * P + v < 256 * P
low_byte b P v h l = grind arith

-- One more byte, with a place value that is known by a variable.
with_carry_lem :
    (b : ℕ) (counter after : List ℕ) (carry : Bool)
    → b < 256
    → IsIncremented counter after carry
    → IsIncremented (b ∷ counter) (with_carry b after carry).0 (with_carry b after carry).1
with_carry_lem b counter after true h i =
    let P = 256 ^ length counter in
    let place : (y : ℕ) → y * 256 ^ length after ≡ y * P = λ y. ap (λ n. y * 256 ^ n) i.same_size in
    elim (Bool-cases ((b + 1) % 256 == 0)) [
      | inl e ↦
          let last : b ≡ 255 = ground arith in
          subst
            (λ b.
              IsIncremented (b ∷ counter) (with_carry b after true).0 (with_carry b after true).1)
            (sym last)
            (record {
              same_size = ap suc i.same_size;
              value = omega (arith, pow-suc 256 (length counter), i.value);
              below = omega (arith, pow-suc 256 (length counter), i.below);
            })
      | inr e ↦
          let more : (b + 1) % 256 ≡ suc b = ground arith in
          subst (λ y. IsIncremented (b ∷ counter) (y ∷ after) (y == 0)) (sym more)
            (record {
              same_size = ap suc i.same_size;
              value = omega (
                arith,
                place (suc b),
                i.value,
                add_mul b P,
                ap (carried (suc (length counter))) (==_of_ne (suc b) 0 (omega arith)),
              );
              below = omega (
                arith,
                place (suc b),
                pow-suc 256 (length counter),
                add_mul b P,
                low_byte b P (counter_value after) (omega arith) i.below,
              );
            })
    ]
with_carry_lem b counter after false h i = record {
  same_size = ap suc i.same_size;
  value = omega (arith, ap (λ n. b * 256 ^ n) i.same_size, i.value);
  below = omega (
    arith,
    ap (λ n. b * 256 ^ n) i.same_size,
    pow-suc 256 (length counter),
    byte_place b (256 ^ length counter) (counter_value after) h i.below,
  );
}

increment_lem :
    (counter : List ℕ)
    → All IsU8 counter
    → IsIncremented counter (increment counter).0 (increment counter).1
unfolding increment
increment_lem [] h = record { same_size = refl; value = refl; below = omega arith }
increment_lem (b ∷ counter) h =
    with_carry_lem b counter (increment counter).0 (increment counter).1 h.0
      (increment_lem counter h.1)

value-lt : (counter : List ℕ) → All IsU8 counter → counter_value counter < 256 ^ length counter
value-lt [] h = omega arith
value-lt (b ∷ counter) h = omega (
  arith,
  pow-suc 256 (length counter),
  byte_place b (256 ^ length counter) (counter_value counter) h.0 (value-lt counter h.1),
)

by_carry :
    (carry : Bool) (P V v n : ℕ)
    → P ≡ 256 ^ n
    → v + carried n carry ≡ V + 1
    → v < P
    → V < P
    → v ≡ (V + 1) % P
by_carry true P V v n e s l m =
    let wraps : V + 1 ≡ P = omega arith in
    let zero_left : v ≡ 0 = omega arith in rw wraps (zero_left ∙ sym (mod_self P))
by_carry false P V v n e s l m = sym (mod-eq_of_lt (omega arith)) ∙ ap (λ t. t % P) (omega arith)

-- An increment of a counter of bytes adds one to its big-endian value, modulo 256 to the number of
-- its bytes.
pub increment_be_slice-value :
    (counter : List ℕ)
    → All IsU8 counter
    → counter_value (increment_be_slice counter)
      ≡ (counter_value counter + 1) % 256 ^ length counter
unfolding increment_be_slice
increment_be_slice-value counter h =
    let i = increment_lem counter h in
    by_carry (increment counter).1 (256 ^ length counter) (counter_value counter)
      (counter_value (increment counter).0) (length counter) refl i.value i.below
      (value-lt counter h)

length-with_carry :
    (b : ℕ) (after : List ℕ) (carry : Bool)
    → length (with_carry b after carry).0 ≡ suc (length after)
length-with_carry b after true = refl
length-with_carry b after false = refl

length-increment : (counter : List ℕ) → length (increment counter).0 ≡ length counter
unfolding increment
length-increment [] = refl
length-increment (b ∷ counter) =
    length-with_carry b (increment counter).0 (increment counter).1
    ∙ ap suc (length-increment counter)

pub length-increment_be_slice :
    (counter : List ℕ) → length (increment_be_slice counter) ≡ length counter
unfolding increment_be_slice
length-increment_be_slice counter = length-increment counter
