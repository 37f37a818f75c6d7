-- ===== src/Vm/Alu/Unsigned.antt =====
-- Multiplication of unsigned words, by the instructions of common/src/vm.rs.
use native.Mathlib.Nat.{mul-le-mul_left, mul-lt-mul_of_pos_right}
use vanadium.Prelude.{ℕ, ◌+◌, ◌*◌, ◌^◌, ◌<◌, ◌≤◌, ◌≡◌, arith}
use vanadium.Word.{IsU32, wrapping_mul}
use vanadium.Vm.Alu.{mulhu}

product_bound : (a b n : ℕ) → a < n → b < n → a * b < n * n
product_bound a b n ha hb =
    let le : b ≤ n = omega arith in
    let positive : 0 < n = omega arith in
    omega (arith, mul-le-mul_left a le, mul-lt-mul_of_pos_right ha positive)

pub mulhu-wrapping_mul :
    (a b : ℕ) → IsU32 a → IsU32 b → mulhu a b * 2 ^ 32 + wrapping_mul a b ≡ a * b
unfolding mulhu
mulhu-wrapping_mul a b ha hb = omega (arith, product_bound a b (2 ^ 32) ha hb)
