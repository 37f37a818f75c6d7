-- ===== src/Word/Masks.antt =====
-- A mask of adjacent ones selects a field, which is a quotient and a remainder; `|` of fields that
-- do not overlap is their sum.
use native.Mathlib.Nat.{one-le-pow, pow-suc, mod-lt, div-add-mod'}
use vanadium.Prelude.{ℕ, zero, suc, ◌+◌, ◌-◌, ◌*◌, ◌/◌, ◌%◌, ◌^◌, ◌<◌}
use vanadium.Prelude.{bit_and, bit_or, ◌≡◌, subst, arith}
use vanadium.Word.Bits.{bit_and_split, bit_or_split, bit_and-zero, bit_and_full, bit_or-zero}
use vanadium.Word.Bits.{zero-bit_or}

lt-two_pow : (a : ℕ) → a < 2 ^ a
lt-two_pow zero = omega arith
lt-two_pow (suc a) = omega (arith, lt-two_pow a, pow-suc 2 a)

pub and_nothing : (a : ℕ) → bit_and a 0 ≡ 0
and_nothing a = bit_and-zero a a (lt-two_pow a)

pub or_nothing : (a : ℕ) → bit_or a 0 ≡ a
or_nothing a = bit_or-zero a a (lt-two_pow a)

-- A mask with bits above and below position `k`.
pub mask_join :
    (k a m n : ℕ)
    → n < 2 ^ k
    → bit_and a (m * 2 ^ k + n) ≡ bit_and (a / 2 ^ k) m * 2 ^ k + bit_and (a % 2 ^ k) n
mask_join k a m n h =
    subst
      (λ (t : ℕ). bit_and t (m * 2 ^ k + n) ≡ bit_and (a / 2 ^ k) m * 2 ^ k + bit_and (a % 2 ^ k) n)
      (div-add-mod' a (2 ^ k))
      (bit_and_split k (a / 2 ^ k) (a % 2 ^ k) m n (mod-lt a (one-le-pow k 2 (omega arith))) h)

-- `a & (2^k - 1)`
pub mask_low : (k a : ℕ) → bit_and a (2 ^ k - 1) ≡ a % 2 ^ k
mask_low k a = ground (
  arith,
  mask_join k a 0 (2 ^ k - 1),
  one-le-pow k 2,
  and_nothing (a / 2 ^ k),
  bit_and_full k (a % 2 ^ k) (mod-lt a (one-le-pow k 2 (omega arith))),
)

-- `a & ((2^w - 1) << k)`
pub mask_field : (w k a : ℕ) → bit_and a ((2 ^ w - 1) * 2 ^ k) ≡ a / 2 ^ k % 2 ^ w * 2 ^ k
mask_field w k a = ground (
  arith,
  mask_join k a (2 ^ w - 1) 0,
  one-le-pow k 2,
  mask_low w (a / 2 ^ k),
  and_nothing (a % 2 ^ k),
)

pub or_disjoint : (k q r : ℕ) → r < 2 ^ k → bit_or (q * 2 ^ k) r ≡ q * 2 ^ k + r
or_disjoint k q r h =
    ground (arith, bit_or_split k q 0 0 r, one-le-pow k 2, or_nothing q, zero-bit_or r)
