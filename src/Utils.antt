-- ===== src/Utils.antt =====
-- lib/common/include/utils_def.h: the field macros, alignment and powers of two, over 64-bit words.
-- A macro's register field is given by its shift and its width.
use tf_rmm.Common.{
  ℕ, ◌+◌, ◌-◌, ◌*◌, ◌/◌, ◌%◌, ◌^◌, Bool, ◌&&◌, not, ◌==◌, bit_and, bit_or, min, ltb, if◌then◌else◌,
}
pub mod Fields
pub mod Powers
pub mod Xor
pub mod Rounding

-- The values of an unsigned long.
abbrev pub u64_mod : ℕ
u64_mod = 2 ^ 64

-- ~0UL
abbrev pub ones64 : ℕ
ones64 = 2 ^ 64 - 1

-- ~x and x << s on an unsigned long.
abbrev pub not64 : ℕ → ℕ
not64 x = ones64 - x

abbrev pub shl64 : ℕ → ℕ → ℕ
shl64 x s = x * 2 ^ s % u64_mod

abbrev pub mask : ℕ → ℕ → ℕ
mask shift width = shl64 (ones64 / 2 ^ (64 - width)) shift

abbrev pub inplace : ℕ → ℕ → ℕ
inplace shift val = shl64 val shift

unfoldable pub extract : ℕ → ℕ → ℕ → ℕ
extract shift width reg = bit_and reg (mask shift width) / 2 ^ shift

unfoldable pub compose : ℕ → ℕ → ℕ → ℕ
compose shift width val = shl64 (bit_and val (ones64 / 2 ^ (64 - width))) shift

unfoldable pub round_up : ℕ → ℕ → ℕ
round_up value boundary = (bit_or ((value + (u64_mod - 1)) % u64_mod) (boundary - 1) + 1) % u64_mod

unfoldable pub round_down : ℕ → ℕ → ℕ
round_down value boundary = bit_and value (not64 (boundary - 1))

abbrev pub is_aligned : ℕ → ℕ → Bool
is_aligned size alignment = size % alignment == 0

unfoldable pub is_power_of_two : ℕ → Bool
is_power_of_two x = not (x == 0) && bit_and x (x - 1) == 0
