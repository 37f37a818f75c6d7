-- ===== src/Vm/Alu/Division.antt =====
-- The divisions of common/src/vm.rs: DIV and REM on signed words, DIVU and REMU on unsigned ones.
use native.Mathlib.Nat.{div-add-mod', mod-lt, div-le_self, mod-le, mul-le-mul_left}
use native.Mathlib.Decide.{dec_lt}
use vanadium.Prelude.{
  ℕ, zero, suc, ◌+◌, ◌*◌, ◌-◌, ◌/◌, ◌%◌, ◌^◌, ◌<◌, ◌≤◌, ==_of_ne, ◌≡◌, ◌⊎◌, refl, sym, inl, inr,
  arith, Bool, true, false,
}
use vanadium.Word.{IsU32}
use vanadium.Vm.Alu.{
  div, rem, divu, remu, wrapping_div, wrapping_rem, is_negative, magnitude, negate_if, differ,
}

-- The quotient is negative where the signs differ. The one that no word holds, of -2^31 by -1, wraps
-- around.
abbrev pub QuotientSign : ℕ → ℕ → ℕ → ℕ → Type 0
QuotientSign a b q r =
    (q ≡ 0)
    ⊎ (is_negative q ≡ differ (is_negative a) (is_negative b))
    ⊎ ((a ≡ 2 ^ 31) × (b ≡ 2 ^ 32 - 1) × (q ≡ 2 ^ 31) × (r ≡ 0))

-- The quotient and the remainder of two signed words, by magnitudes and signs: the quotient is
-- rounded towards zero, and the remainder has the sign of the dividend.
pub record IsSignedQuotient (a b q r : ℕ) : Type 0 where
  pub magnitudes : magnitude a ≡ magnitude q * magnitude b + magnitude r
  pub small : magnitude r < magnitude b
  pub remainder_sign : (r ≡ 0) ⊎ (is_negative r ≡ is_negative a)
  pub quotient_sign : QuotientSign a b q r

pub record IsQuotient (a b q r : ℕ) : Type 0 where
  pub sum : a ≡ q * b + r
  pub small : r < b

-- What the manual asks of a divisor 0: all bits of the quotient are set, and the remainder is the
-- dividend.
pub record IsByZero (a b q r : ℕ) : Type 0 where
  pub divisor : b ≡ 0
  pub quotient : q ≡ 2 ^ 32 - 1
  pub remainder : r ≡ a

magnitude_bound : (a : ℕ) → IsU32 a → magnitude a ≤ 2 ^ 31
magnitude_bound a h = ground arith

magnitude_pos : (b : ℕ) → IsU32 b → 0 < b → 0 < magnitude b
magnitude_pos b u h = ground arith

magnitude-negate_if : (s : Bool) (n : ℕ) → n ≤ 2 ^ 31 → magnitude (negate_if s n) ≡ n
magnitude-negate_if true n h = ground arith
magnitude-negate_if false n h = ground arith

sign_of_remainder :
    (s : Bool) (n : ℕ) → n < 2 ^ 31 → (negate_if s n ≡ 0) ⊎ (is_negative (negate_if s n) ≡ s)
sign_of_remainder true zero h = inl refl
sign_of_remainder true (suc n) h = inr (ground arith)
sign_of_remainder false n h = inr (ground arith)

-- Only -2^31 by 1 and by -1 has a quotient of this magnitude.
extreme : (m d : ℕ) → m ≤ 2 ^ 31 → 0 < d → 2 ^ 31 ≤ m / d → (m ≡ 2 ^ 31) × (d ≡ 1)
extreme m d h k e =
    let parts = div-add-mod' m d in
    let once : m / d * 1 ≤ m / d * d = mul-le-mul_left (m / d) (omega arith) in
    elim (dec_lt 1 d) [
      | yes two ↦
          let twice : m / d * 2 ≤ m / d * d = mul-le-mul_left (m / d) (omega arith) in
          absurd (omega arith)
      | no small ↦ (omega arith, omega arith)
    ]

-- The words of magnitude 2^31 and 1.
magnitude_31 : (a : ℕ) → IsU32 a → magnitude a ≡ 2 ^ 31 → a ≡ 2 ^ 31
magnitude_31 a h e = ground arith

magnitude_1 : (b : ℕ) → IsU32 b → magnitude b ≡ 1 → (b ≡ 1) ⊎ (b ≡ 2 ^ 32 - 1)
magnitude_1 b h e = ground arith

extreme_sign :
    (a b : ℕ)
    → a ≡ 2 ^ 31
    → (b ≡ 1) ⊎ (b ≡ 2 ^ 32 - 1)
    → QuotientSign a b (wrapping_div a b) (wrapping_rem a b)
unfolding wrapping_div wrapping_rem
extreme_sign a b e (inl e') = rw (e, e') (inr (inl refl))
extreme_sign a b e (inr e') = rw (e, e') (inr (inr (refl, refl, refl, refl)))

sign_of_quotient :
    (a b : ℕ) → IsU32 a → IsU32 b → 0 < b → QuotientSign a b (wrapping_div a b) (wrapping_rem a b)
unfolding wrapping_div
sign_of_quotient a b ha hb h = elim (dec_lt (magnitude a / magnitude b) (2 ^ 31)) [
  | yes small ↦ by_sign (sign_of_remainder (differ (is_negative a) (is_negative b)) _ small)
  | no large ↦
      let (ea, eb) =
        extreme (magnitude a) (magnitude b) (magnitude_bound a ha) (magnitude_pos b hb h)
          (omega arith) in
      extreme_sign a b (magnitude_31 a ha ea) (magnitude_1 b hb eb)
]
  where
    by_sign :
        (wrapping_div a b ≡ 0)
          ⊎ (is_negative (wrapping_div a b) ≡ differ (is_negative a) (is_negative b))
        → QuotientSign a b (wrapping_div a b) (wrapping_rem a b)
    by_sign (inl e) = inl e
    by_sign (inr e) = inr (inl e)

signed_case :
    (a b : ℕ)
    → IsU32 a
    → IsU32 b
    → 0 < b
    → IsSignedQuotient a b (wrapping_div a b) (wrapping_rem a b)
unfolding wrapping_div wrapping_rem
signed_case a b ha hb h =
    let positive = magnitude_pos b hb h in
    let bound = magnitude_bound a ha in
    let q =
      magnitude-negate_if (differ (is_negative a) (is_negative b)) (magnitude a / magnitude b)
        (omega (arith, div-le_self (magnitude a) (magnitude b))) in
    let r =
      magnitude-negate_if (is_negative a) (magnitude a % magnitude b)
        (omega (arith, mod-le (magnitude a) (magnitude b))) in
    record {
      magnitudes = rw (q, r) (sym (div-add-mod' (magnitude a) (magnitude b)));
      small = rw r (mod-lt (magnitude a) positive);
      remainder_sign =
          sign_of_remainder (is_negative a) _
            (omega (arith, mod-lt (magnitude a) positive, magnitude_bound b hb));
      quotient_sign = sign_of_quotient a b ha hb h;
    }

-- For 32-bit words: DIV and REM, and DIVU and REMU, give for a divisor 0 the quotient with all bits
-- set and the dividend as remainder; for any other divisor, DIVU and REMU give the quotient and the
-- remainder, and DIV and REM those of the signed words, rounded towards zero, with a remainder of
-- the sign of the dividend, where only the quotient of -2^31 by -1 wraps around.
pub div-IsSignedQuotient :
    (a b : ℕ)
    → IsU32 a
    → IsU32 b
    → (IsByZero a b (div a b) (rem a b) ⊎ IsSignedQuotient a b (div a b) (rem a b))
      × (IsByZero a b (divu a b) (remu a b) ⊎ IsQuotient a b (divu a b) (remu a b))
unfolding div rem divu remu
div-IsSignedQuotient a b ha hb = elim (dec_lt 0 b) [
  | yes h ↦ rw (==_of_ne b 0 (omega arith)) (
    inr (signed_case a b ha hb h),
    inr (record { sum = sym (div-add-mod' a b); small = mod-lt a h }),
  )
  | no h ↦ by_zero b (omega arith)
]
  where
    by_zero :
        (b : ℕ)
        → b ≡ 0
        → (IsByZero a b (div a b) (rem a b) ⊎ IsSignedQuotient a b (div a b) (rem a b))
          × (IsByZero a b (divu a b) (remu a b) ⊎ IsQuotient a b (divu a b) (remu a b))
    by_zero b e = rw e (
      inl (record { divisor = refl; quotient = refl; remainder = refl }),
      inl (record { divisor = refl; quotient = refl; remainder = refl }),
    )
