-- ===== src/Atomics.antt =====
-- lib/arch/include/aarch64/atomics.h: the atomic operations on a word, as functions on its value that
-- also return what the source returns. `fake_bit_set` is the one of the host build,
-- lib/arch/include/fake_host/atomics.h.
use tf_rmm.Common.{
  ℕ, zero, suc, ◌-◌, ◌%◌, ◌^◌, ◌<◌, ◌≤◌, ◌≡◌, ◌≢◌, refl, arith, Bool, false, not, ◌==◌, ◌⊎◌, inl,
  inr, bit_and, bit_or,
}
use tf_rmm.Common.Bits.{
  bit, bit-bit_or, bit-bit_and, bit-pow_self, bit-pow_ne, bit-complement, bit-le-one, pow-lt-pow,
  and_pow, pow_two-pos, pow_two-suc,
}
use tf_rmm.Utils.{shl64, not64}

-- atomic_bit_set_acquire_release_64: the new word, and whether the bit was set before.
unfoldable pub bit_set : ℕ → ℕ → ℕ × Bool
bit_set loc i = let mask = shl64 1 i in (bit_or loc mask, not (bit_and loc mask == 0))

-- The same in the host build, whose `uint16_t old_val` keeps 16 bits of the masked word.
unfoldable pub fake_bit_set : ℕ → ℕ → ℕ × Bool
fake_bit_set loc i =
    let mask = shl64 1 i in
    let old_val = bit_and loc mask % 2 ^ 16 in (bit_or loc mask, not (old_val == 0))

-- atomic_bit_clear_release_64
unfoldable pub bit_clear : ℕ → ℕ → ℕ
bit_clear loc i = bit_and loc (not64 (shl64 1 i))

one_shifted : (i : ℕ) → i < 64 → shl64 1 i ≡ 2 ^ i
one_shifted i h = omega (arith, pow-lt-pow i 64 h)

pub bit_set_self : (w i : ℕ) → i < 64 → bit (bit_set w i).0 i ≡ 1
unfolding bit_set
bit_set_self w i h =
    rw (one_shifted i h, bit-bit_or w (2 ^ i) i, bit-pow_self i) (omega (arith, bit-le-one w i))

pub bit_set_ne : (w i j : ℕ) → i < 64 → j ≢ i → bit (bit_set w i).0 j ≡ bit w j
unfolding bit_set
bit_set_ne w i j h ne =
    rw (one_shifted i h, bit-bit_or w (2 ^ i) j, bit-pow_ne j i ne) (omega arith)

zero_or_one : (b : ℕ) → b ≤ 1 → (b ≡ 0) ⊎ (b ≡ 1)
zero_or_one b h = omega arith

pub bit_set_was : (w i : ℕ) → i < 64 → (bit_set w i).1 ≡ (bit w i == 1)
unfolding bit_set
bit_set_was w i h =
    rw (one_shifted i h, and_pow w i)
      (elim (zero_or_one (bit w i) (bit-le-one w i)) [
        | inl e ↦ rw e (ground (arith, pow_two-pos i))
        | inr e ↦ rw e (ground (arith, pow_two-pos i))
      ])

pub bit_clear_self : (w i : ℕ) → i < 64 → bit (bit_clear w i) i ≡ 0
unfolding bit_clear
bit_clear_self w i h =
    rw
      (
        one_shifted i h,
        bit-bit_and w (2 ^ 64 - 1 - 2 ^ i) i,
        bit-complement 64 (2 ^ i) i (pow-lt-pow i 64 h) h,
        bit-pow_self i,
      )
      (omega arith)

pub bit_clear_ne : (w i j : ℕ) → i < 64 → j < 64 → j ≢ i → bit (bit_clear w i) j ≡ bit w j
unfolding bit_clear
bit_clear_ne w i j h k ne =
    rw
      (
        one_shifted i h,
        bit-bit_and w (2 ^ 64 - 1 - 2 ^ i) j,
        bit-complement 64 (2 ^ i) j (pow-lt-pow i 64 h) k,
        bit-pow_ne j i ne,
      )
      (omega (arith, bit-le-one w j))

pow_truncated : (i : ℕ) → 16 ≤ i → 2 ^ i % 2 ^ 16 ≡ 0
pow_truncated zero h = absurd (omega arith)
pow_truncated (suc i) h = elim (cases i h) [
  | inl at ↦ rw at (omega arith)
  | inr above ↦ omega (arith, pow_truncated i above, pow_two-suc i)
]
  where
    cases : (i : ℕ) → 16 ≤ suc i → (i ≡ 15) ⊎ (16 ≤ i)
    cases i h = omega arith

-- In the host build, atomic_bit_set_acquire_release_64 sets the bit as the build for the target does,
-- and for bits 16 to 63 reports that it was clear before, whether it was or not.
pub fake_bit_set-high :
    (w i : ℕ)
    → 16 ≤ i
    → i < 64
    → ((fake_bit_set w i).0 ≡ (bit_set w i).0) × ((fake_bit_set w i).1 ≡ false)
unfolding fake_bit_set bit_set
fake_bit_set-high w i lo hi = (
  refl,
  rw (one_shifted i hi, and_pow w i)
      (elim (zero_or_one (bit w i) (bit-le-one w i)) [
        | inl clear ↦ rw clear (ground arith)
        | inr was ↦ rw was (ground (arith, pow_truncated i lo))
      ]),
)
