-- ===== src/Word/Bits.antt =====
-- Laws of `&`, `|` and `^` at variables, for every width: each splits at any bit position.
use Prim.Native.Nat.{digits, bitwise, differ, bit_and-bitwise, bit_or-bitwise, bit_xor-bitwise}
use native.Mathlib.Nat.{pow-suc, one-le-pow}
use vanadium.Prelude.{ℕ, zero, suc, ◌+◌, ◌-◌, ◌*◌, ◌/◌, ◌%◌, ◌^◌, ◌≤◌, ◌<◌, min, max}
use vanadium.Prelude.{bit_and, bit_or, bit_xor, ◌≡◌, refl, ap, arith}

-- The native operations recur on a count of digits; a larger count changes nothing.
module _ (z : ℕ → ℕ) (f : ℕ → ℕ → ℕ) where
  digits_end : (n b : ℕ) → digits z f n 0 b ≡ z b
  digits_end zero b = refl
  digits_end (suc n) b = refl

  digits_count : (n k a b : ℕ) → a ≤ n → digits z f (n + k) a b ≡ digits z f n a b
  digits_count n k zero b h = omega (arith, digits_end n b, digits_end (n + k) b)
  digits_count zero k (suc a) b h = absurd (omega arith)
  digits_count (suc n) k (suc a) b h =
      let shift : suc n + k ≡ suc (n + k) = omega arith in
      rw shift (rw (digits_count n k (suc a / 2) (b / 2) (omega arith)))

  lowest_digit :
      (a b : ℕ)
      → bitwise z f (suc a) b ≡ f (suc a % 2) (b % 2) + 2 * bitwise z f (suc a / 2) (b / 2)
  lowest_digit a b =
      let half = suc a / 2 in
      let rest : half + (a - half) ≡ a = omega arith in
      omega (arith, rw rest at (digits_count half (a - half) half (b / 2) (omega arith)))

-- What an operation does to the lowest digits is `d`, and above them it is the operation again.
abbrev pub Digitwise : (ℕ → ℕ → ℕ) → (ℕ → ℕ → ℕ) → Type 0
Digitwise op d = (a b : ℕ) → op a b ≡ op (a / 2) (b / 2) * 2 + d (a % 2) (b % 2)

pub bit_and_digit : Digitwise bit_and min
bit_and_digit zero b = simp bit_and-bitwise (omega arith)
bit_and_digit (suc a) b = simp bit_and-bitwise (omega (arith, lowest_digit (λ y. 0) min a b))

pub bit_xor_digit : Digitwise bit_xor differ
bit_xor_digit zero b = simp bit_xor-bitwise (omega arith)
bit_xor_digit (suc a) b = simp bit_xor-bitwise (omega (arith, lowest_digit (λ y. y) differ a b))

pub bit_or_digit : Digitwise bit_or max
bit_or_digit zero b = simp bit_or-bitwise (omega arith)
bit_or_digit (suc a) b = simp bit_or-bitwise (omega (arith, lowest_digit (λ y. y) max a b))

two_pow_suc : (q k : ℕ) → q * 2 ^ suc k ≡ 2 * (q * 2 ^ k)
two_pow_suc q k = omega (arith, ap (λ (t : ℕ). q * t) (pow-suc 2 k))

-- An operation that works digit by digit splits at every position `k`.
module _ (op d : ℕ → ℕ → ℕ) (digit : Digitwise op d) (origin : op 0 0 ≡ 0) where
  split_at :
      (k q r s t : ℕ)
      → r < 2 ^ k
      → t < 2 ^ k
      → op (q * 2 ^ k + r) (s * 2 ^ k + t) ≡ op q s * 2 ^ k + op r t
  split_at zero q r s t hr ht = ground (arith, origin)
  split_at (suc k) q r s t hr ht = ground (
    arith,
    digit (q * 2 ^ suc k + r) (s * 2 ^ suc k + t),
    digit r t,
    two_pow_suc q k,
    two_pow_suc s k,
    two_pow_suc (op q s) k,
    split_at k q (r / 2) s (t / 2) (omega (arith, pow-suc 2 k)) (omega (arith, pow-suc 2 k)),
  )

-- The masks and fields of the program: a pattern is its part above bit `k` and its part below.
pub bit_and_split :
    (k q r s t : ℕ)
    → r < 2 ^ k
    → t < 2 ^ k
    → bit_and (q * 2 ^ k + r) (s * 2 ^ k + t) ≡ bit_and q s * 2 ^ k + bit_and r t
bit_and_split = split_at bit_and min bit_and_digit refl

pub bit_or_split :
    (k q r s t : ℕ)
    → r < 2 ^ k
    → t < 2 ^ k
    → bit_or (q * 2 ^ k + r) (s * 2 ^ k + t) ≡ bit_or q s * 2 ^ k + bit_or r t
bit_or_split = split_at bit_or max bit_or_digit refl

pub bit_xor_split :
    (k q r s t : ℕ)
    → r < 2 ^ k
    → t < 2 ^ k
    → bit_xor (q * 2 ^ k + r) (s * 2 ^ k + t) ≡ bit_xor q s * 2 ^ k + bit_xor r t
bit_xor_split = split_at bit_xor differ bit_xor_digit refl

-- Bounds, by induction on the width.
module _ (op d : ℕ → ℕ → ℕ) (digit : Digitwise op d) (origin : op 0 0 ≡ 0)
    (bit : (a b : ℕ) → a < 2 → b < 2 → d a b < 2) where
  op-lt : (k a b : ℕ) → a < 2 ^ k → b < 2 ^ k → op a b < 2 ^ k
  op-lt zero a b ha hb = ground (arith, origin)
  op-lt (suc k) a b ha hb = ground (
    arith,
    digit a b,
    pow-suc 2 k,
    bit (a % 2) (b % 2),
    op-lt k (a / 2) (b / 2) (omega (arith, pow-suc 2 k)) (omega (arith, pow-suc 2 k)),
  )

differ-lt : (a b : ℕ) → a < 2 → b < 2 → differ a b < 2
differ-lt zero b ha hb = hb
differ-lt (suc zero) zero ha hb = omega arith
differ-lt (suc zero) (suc zero) ha hb = omega arith
differ-lt (suc zero) (suc (suc b)) ha hb = absurd (omega arith)
differ-lt (suc (suc a)) b ha hb = absurd (omega arith)

pub bit_and-lt : (k a b : ℕ) → a < 2 ^ k → b < 2 ^ k → bit_and a b < 2 ^ k
bit_and-lt = op-lt bit_and min bit_and_digit refl (λ a b ha hb. omega arith)

pub bit_or-lt : (k a b : ℕ) → a < 2 ^ k → b < 2 ^ k → bit_or a b < 2 ^ k
bit_or-lt = op-lt bit_or max bit_or_digit refl (λ a b ha hb. omega arith)

pub bit_xor-lt : (k a b : ℕ) → a < 2 ^ k → b < 2 ^ k → bit_xor a b < 2 ^ k
bit_xor-lt = op-lt bit_xor differ bit_xor_digit refl differ-lt

-- A full mask keeps the bits below it, and an empty one keeps none.
pub bit_and-zero : (k a : ℕ) → a < 2 ^ k → bit_and a 0 ≡ 0
bit_and-zero zero a h = ground arith
bit_and-zero (suc k) a h =
    ground (arith, bit_and_digit a 0, bit_and-zero k (a / 2) (omega (arith, pow-suc 2 k)))

pub bit_and_full : (k a : ℕ) → a < 2 ^ k → bit_and a (2 ^ k - 1) ≡ a
bit_and_full zero a h = ground arith
bit_and_full (suc k) a h = ground (
  arith,
  bit_and_digit a (2 ^ suc k - 1),
  pow-suc 2 k,
  one-le-pow k 2,
  bit_and_full k (a / 2) (omega (arith, pow-suc 2 k)),
)

pub bit_or-zero : (k a : ℕ) → a < 2 ^ k → bit_or a 0 ≡ a
bit_or-zero zero a h = ground arith
bit_or-zero (suc k) a h =
    ground (arith, bit_or_digit a 0, bit_or-zero k (a / 2) (omega (arith, pow-suc 2 k)))

pub zero-bit_or : (b : ℕ) → bit_or 0 b ≡ b
zero-bit_or b = simp bit_or-bitwise

-- `|` of even numbers is even.
pub bit_or_even : (a b : ℕ) → a % 2 ≡ 0 → b % 2 ≡ 0 → bit_or a b % 2 ≡ 0
bit_or_even a b ha hb = omega (arith, bit_or_digit a b)
