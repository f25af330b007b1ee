-- ===== src/Utils/Xor.antt =====
-- A field replaced by `^`, as the state of a descriptor is: `d ^= (d & MASK(f)) ^ (v << shift)`.
use native.Mathlib.Nat.{mod-eq_of_lt, div-eq_of_lt, mod-eq-sub-div-mul, mod-lt}
use tf_rmm.Common.{ℕ, ◌-◌, ◌*◌, ◌/◌, ◌%◌, ◌^◌, ◌<◌, ◌≡◌, refl, arith, bit_and, bit_xor, ◌∙◌}
use tf_rmm.Common.Bits.{and_field, pow_two-pos}
use tf_rmm.Common.Xor.{bit_xor-div, bit_xor-mod, xor_undo, xor_zero}
use tf_rmm.Utils.Fields.{mul-div_pow}

mul-mod_pow : (s x : ℕ) → x * 2 ^ s % 2 ^ s ≡ 0
mul-mod_pow s x = mod-eq-sub-div-mul (x * 2 ^ s) (2 ^ s) ∙ rw (mul-div_pow s x) (omega arith)

mod-lt_pow : (w x : ℕ) → x % 2 ^ w < 2 ^ w
mod-lt_pow w x = mod-lt x (pow_two-pos w)

-- What is xored in: the old and the new value of the field, in place.
abbrev pub field_change : ℕ → ℕ → ℕ → ℕ → ℕ
field_change s w d v = bit_xor (bit_and d ((2 ^ w - 1) * 2 ^ s)) (v * 2 ^ s)

module _ (s w d v : ℕ) (small : v < 2 ^ w) where
  pub change-low : field_change s w d v % 2 ^ s ≡ 0
  change-low =
      rw
        (
          and_field s w d,
          bit_xor-mod s (d / 2 ^ s % 2 ^ w * 2 ^ s) (v * 2 ^ s),
          mul-mod_pow s (d / 2 ^ s % 2 ^ w),
          mul-mod_pow s v,
        )
        (xor_zero 0)

  pub change-high : field_change s w d v / 2 ^ s ≡ bit_xor (d / 2 ^ s % 2 ^ w) v
  change-high =
      rw
        (
          and_field s w d,
          bit_xor-div s (d / 2 ^ s % 2 ^ w * 2 ^ s) (v * 2 ^ s),
          mul-div_pow s (d / 2 ^ s % 2 ^ w),
          mul-div_pow s v,
        )
        refl

  -- What lies below the field is kept,
  pub replaced-below : bit_xor d (field_change s w d v) % 2 ^ s ≡ d % 2 ^ s
  replaced-below = rw (bit_xor-mod s d (field_change s w d v), change-low) (xor_zero (d % 2 ^ s))

  -- the field holds the new value,
  pub replaced-field : bit_xor d (field_change s w d v) / 2 ^ s % 2 ^ w ≡ v
  replaced-field =
      rw
        (
          bit_xor-div s d (field_change s w d v),
          change-high,
          bit_xor-mod w (d / 2 ^ s) (bit_xor (d / 2 ^ s % 2 ^ w) v),
          bit_xor-mod w (d / 2 ^ s % 2 ^ w) v,
          mod-eq_of_lt small,
          mod-eq_of_lt (mod-lt_pow w (d / 2 ^ s)),
        )
        (xor_undo (d / 2 ^ s % 2 ^ w) v)

  -- and what lies above it is kept.
  pub replaced-above : bit_xor d (field_change s w d v) / 2 ^ s / 2 ^ w ≡ d / 2 ^ s / 2 ^ w
  replaced-above =
      rw
        (
          bit_xor-div s d (field_change s w d v),
          change-high,
          bit_xor-div w (d / 2 ^ s) (bit_xor (d / 2 ^ s % 2 ^ w) v),
          bit_xor-div w (d / 2 ^ s % 2 ^ w) v,
          div-eq_of_lt small,
          div-eq_of_lt (mod-lt_pow w (d / 2 ^ s)),
          xor_zero 0,
        )
        (xor_zero (d / 2 ^ s / 2 ^ w))
