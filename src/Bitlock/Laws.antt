-- ===== src/Bitlock/Laws.antt =====
-- What the operations do to a lock in the top bit of a word: `b + 1` bits, the lock in bit `b`.
use native.Mathlib.Nat.{mod-eq_of_lt, div-lt_iff_lt-mul, div-eq_of_lt, le-div_iff_mul-le}
use tf_rmm.Common.{
  ℕ, suc, ◌+◌, ◌-◌, ◌*◌, ◌/◌, ◌%◌, ◌^◌, ◌<◌, ◌≤◌, ◌≡◌, refl, arith, true, false, ◌==◌, bit_and,
  bit_or, ap, ◌∙◌,
}
use tf_rmm.Common.Bits.{and_ones, and_shift, or_and_sum, pow-lt-pow, pow_two-suc, pow_two-pos}
use tf_rmm.Bitlock.{bit_mask, bitlock_try_acquire, bitlock_release}

module _ (b loc : ℕ) (word : loc < 2 ^ suc b) where
  mask_value : bit_mask (suc b) b ≡ 2 ^ b
  mask_value = mod-eq_of_lt (pow-lt-pow b (suc b) (omega arith))

  top-lt : loc / 2 ^ b < 2
  top-lt =
      (div-lt_iff_lt-mul {k = 2 ^ b} {x = loc} {y = 2} (pow_two-pos b)).1
        (omega (arith, pow_two-suc b))

  -- The lock bit under its mask.
  pub lock_bit : bit_and loc (2 ^ b) ≡ loc / 2 ^ b * 2 ^ b
  lock_bit =
      ap (bit_and loc) {x = 2 ^ b} {y = 1 * 2 ^ b} (omega arith)
      ∙ and_shift b loc 1
      ∙ ap (λ (t : ℕ). t * 2 ^ b) (and_ones 1 (loc / 2 ^ b) ∙ mod-eq_of_lt top-lt)

  top-held : 2 ^ b ≤ loc → loc / 2 ^ b ≡ 1
  top-held le = omega (
    arith,
    top-lt,
    (le-div_iff_mul-le {k = 2 ^ b} {x = 1} {y = loc} (pow_two-pos b)).1 (omega arith),
  )

  -- An attempt on a free lock takes it, and one on a lock that is held changes nothing.
  pub try_acquire-free : loc < 2 ^ b → bitlock_try_acquire (suc b) loc b ≡ (loc + 2 ^ b, true)
  unfolding bitlock_try_acquire
  try_acquire-free lt =
      let clear : bit_and loc (2 ^ b) ≡ 0 = rw (lock_bit, div-eq_of_lt lt) (omega arith) in
      let sum : bit_or loc (2 ^ b) ≡ loc + 2 ^ b = omega (arith, or_and_sum loc (2 ^ b)) in
      rw (mask_value, sum, clear) refl

  pub try_acquire-held : 2 ^ b ≤ loc → bitlock_try_acquire (suc b) loc b ≡ (loc, false)
  unfolding bitlock_try_acquire
  try_acquire-held le =
      let held : bit_and loc (2 ^ b) ≡ 2 ^ b = rw (lock_bit, top-held le) (omega arith) in
      let same : bit_or loc (2 ^ b) ≡ loc = omega (arith, or_and_sum loc (2 ^ b)) in
      let busy : (2 ^ b == 0) ≡ false = ground (arith, pow_two-pos b) in
      rw (mask_value, same, held, busy) refl

  -- A release leaves the bits below the lock.
  pub release-value : bitlock_release (suc b) loc b ≡ loc % 2 ^ b
  unfolding bitlock_release
  release-value =
      let rest : 2 ^ suc b - 1 - 2 ^ b ≡ 2 ^ b - 1 = omega (arith, pow_two-suc b) in
      rw (mask_value, rest) (and_ones b loc)
