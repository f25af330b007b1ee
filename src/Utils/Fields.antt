-- ===== src/Utils/Fields.antt =====
-- What the field macros compute, as quotients and remainders.
use native.Mathlib.Nat.{mul-div_cancel}
use tf_rmm.Common.{
  ℕ, zero, suc, ◌+◌, ◌-◌, ◌*◌, ◌/◌, ◌%◌, ◌^◌, ◌<◌, ◌≤◌, ◌≡◌, arith, bit_and, bit_or,
}
use tf_rmm.Common.Bits.{
  and_field, and_complement, or_field, or_and_sum, and_shift, bit_or_step, zero-bit_or, half_bit_or,
  pow_two-pos,
}

pub mul-div_pow : (s x : ℕ) → x * 2 ^ s / 2 ^ s ≡ x
mul-div_pow s x = mul-div_cancel x (pow_two-pos s)

-- A masked and shifted word is a quotient's remainder.
pub extract_value : (s w x : ℕ) → bit_and x ((2 ^ w - 1) * 2 ^ s) / 2 ^ s ≡ x / 2 ^ s % 2 ^ w
extract_value s w x = rw (and_field s w x) (mul-div_pow s (x / 2 ^ s % 2 ^ w))

or_absorb_fuel : (n a b : ℕ) → a ≤ n → bit_or a (bit_or a b) ≡ bit_or a b
or_absorb_fuel zero zero b h = zero-bit_or (bit_or 0 b)
or_absorb_fuel zero (suc a) b h = absurd (omega arith)
or_absorb_fuel (suc n) zero b h = zero-bit_or (bit_or 0 b)
or_absorb_fuel (suc n) (suc a) b h =
    rw (bit_or_step (suc a) (bit_or (suc a) b), half_bit_or (suc a) b)
      (omega (arith, bit_or_step (suc a) b, or_absorb_fuel n (suc a / 2) (b / 2) (omega arith)))

-- `d |= d | x` is `d |= x`.
pub or_absorb : (a b : ℕ) → bit_or a (bit_or a b) ≡ bit_or a b
or_absorb a b = or_absorb_fuel a a b (omega arith)

-- A word with the digits of a field cleared.
pub clear_value :
    (s w d : ℕ)
    → d < 2 ^ 64
    → (2 ^ w - 1) * 2 ^ s < 2 ^ 64
    → bit_and d (2 ^ 64 - 1 - (2 ^ w - 1) * 2 ^ s) ≡ d - d / 2 ^ s % 2 ^ w * 2 ^ s
clear_value s w d h k = omega (arith, and_complement 64 d ((2 ^ w - 1) * 2 ^ s) k, and_field s w d)

-- A word with a field replaced; `clear` says that the field is empty once cleared.
pub replace_value :
    (s w d v : ℕ)
    → d < 2 ^ 64
    → (2 ^ w - 1) * 2 ^ s < 2 ^ 64
    → (d - d / 2 ^ s % 2 ^ w * 2 ^ s) / 2 ^ s % 2 ^ w ≡ 0
    → v < 2 ^ w
    → bit_or (bit_and d (2 ^ 64 - 1 - (2 ^ w - 1) * 2 ^ s)) (v * 2 ^ s)
      ≡ d - d / 2 ^ s % 2 ^ w * 2 ^ s + v * 2 ^ s
replace_value s w d v h k clear lt =
    rw (clear_value s w d h k) (or_field s w (d - d / 2 ^ s % 2 ^ w * 2 ^ s) v clear lt)

-- The digits below a shifted value are kept by `|`.
pub or_shift_low :
    (s y v : ℕ) → bit_or y (v * 2 ^ s) + bit_and (y / 2 ^ s) v * 2 ^ s ≡ y + v * 2 ^ s
or_shift_low s y v = omega (arith, or_and_sum y (v * 2 ^ s), and_shift s y v)
