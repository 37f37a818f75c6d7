-- ===== src/Vm/Alu.antt =====
-- The arithmetic of `Cpu::execute` in common/src/vm.rs, on 32-bit patterns.
pub mod Unsigned
pub mod Division
mod Examples
use vanadium.Prelude.{
  ℕ, ◌+◌, ◌-◌, ◌*◌, ◌/◌, ◌%◌, ◌^◌, Bool, ltb, leb, ◌==◌, not, bit_and, if◌then◌else◌,
}
use vanadium.Word.{u32, shl32, shr32, sar32, lt_signed}

abbrev as_u32 : Bool → ℕ
as_u32 b = if b then 1 else 0

pub sll : ℕ → ℕ → ℕ
sll a b = shl32 a (bit_and b 0x1f)

pub srl : ℕ → ℕ → ℕ
srl a b = shr32 a (bit_and b 0x1f)

pub sra : ℕ → ℕ → ℕ
sra a b = sar32 a (bit_and b 0x1f)

pub slt : ℕ → ℕ → ℕ
slt a b = as_u32 (lt_signed a b)

pub sltu : ℕ → ℕ → ℕ
sltu a b = as_u32 (ltb a b)

-- `a as i32 as i64` and `a as i32 as i64 as i128`, as patterns.
abbrev pub as_i64 : ℕ → ℕ
as_i64 a = if ltb a (2 ^ 31) then a else a + 2 ^ 64 - 2 ^ 32

abbrev pub as_i128 : ℕ → ℕ
as_i128 a = if ltb a (2 ^ 31) then a else a + 2 ^ 128 - 2 ^ 32

pub mulh : ℕ → ℕ → ℕ
mulh a b = u32 (as_i64 a * as_i64 b % 2 ^ 64 / 2 ^ 32)

pub mulhsu : ℕ → ℕ → ℕ
mulhsu a b = u32 (as_i128 a * b % 2 ^ 128 / 2 ^ 32)

pub mulhu : ℕ → ℕ → ℕ
mulhu a b = u32 (a * b / 2 ^ 32)

-- i32::wrapping_div and i32::wrapping_rem round towards zero: the magnitudes are divided, and the
-- signs put back.
abbrev pub is_negative : ℕ → Bool
is_negative a = leb (2 ^ 31) a

abbrev pub magnitude : ℕ → ℕ
magnitude a = if is_negative a then 2 ^ 32 - a else a

abbrev pub negate_if : Bool → ℕ → ℕ
negate_if s n = if s then (2 ^ 32 - n) % 2 ^ 32 else n

abbrev pub differ : Bool → Bool → Bool
differ s t = if s then not t else t

pub wrapping_div : ℕ → ℕ → ℕ
wrapping_div a b = negate_if (differ (is_negative a) (is_negative b)) (magnitude a / magnitude b)

pub wrapping_rem : ℕ → ℕ → ℕ
wrapping_rem a b = negate_if (is_negative a) (magnitude a % magnitude b)

pub div : ℕ → ℕ → ℕ
div a b = if b == 0 then 0xffffffff else wrapping_div a b

pub divu : ℕ → ℕ → ℕ
divu a b = if b == 0 then 0xffffffff else a / b

pub rem : ℕ → ℕ → ℕ
rem a b = if b == 0 then a else wrapping_rem a b

pub remu : ℕ → ℕ → ℕ
remu a b = if b == 0 then a else a % b

-- min and max of the AMO instructions.
pub min_signed : ℕ → ℕ → ℕ
min_signed a b = if lt_signed b a then b else a

pub max_signed : ℕ → ℕ → ℕ
max_signed a b = if lt_signed b a then a else b

pub min_unsigned : ℕ → ℕ → ℕ
min_unsigned a b = if ltb b a then b else a

pub max_unsigned : ℕ → ℕ → ℕ
max_unsigned a b = if ltb b a then a else b
