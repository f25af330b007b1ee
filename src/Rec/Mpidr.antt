-- ===== src/Rec/Mpidr.antt =====
-- runtime/include/rec.h: the conversions between MPIDR_EL1 and the MPIDR of a REC.
use tf_rmm.Common.{
  ℕ, zero, suc, ◌+◌, ◌-◌, ◌*◌, ◌/◌, ◌%◌, ◌^◌, ◌<◌, ◌≡◌, arith, ◌∙◌, bit_and, min, true, ==_iff,
}
use tf_rmm.Common.Bits.{
  zero-bit_and, bit_and_step, div-pow_suc, mod-pow_suc, pow_two-suc, and_ones, or_field, and_field,
  and_complement,
}
use tf_rmm.Rec.{low_affinities, rec_mpidr_is_valid, mpidr_to_rec_mpidr, rec_mpidr_to_mpidr}

-- The law for the lowest digit, below a digit.
low_step :
    (k x y : ℕ)
    → bit_and (x % 2 ^ suc k) (y % 2 ^ suc k)
      ≡ bit_and (x / 2 % 2 ^ k) (y / 2 % 2 ^ k) * 2 + min (x % 2) (y % 2)
low_step k x y =
    bit_and_step (x % 2 ^ suc k) (y % 2 ^ suc k)
    ∙ rw (half x, half y) (omega (arith, mod-pow_suc x k, mod-pow_suc y k))
  where
    half : (x : ℕ) → x % 2 ^ suc k / 2 ≡ x / 2 % 2 ^ k
    half x = omega (arith, mod-pow_suc x k)

twice : (p q : ℕ) → q ≡ 2 * p → (b : ℕ) → b * q ≡ b * p * 2
twice p q e b = grind (arith, e)

-- `&` above and below a digit.
and_split :
    (k x y : ℕ)
    → bit_and x y ≡ bit_and (x / 2 ^ k) (y / 2 ^ k) * 2 ^ k + bit_and (x % 2 ^ k) (y % 2 ^ k)
and_split zero x y = rw (one_div x, one_div y, one_mod x) (omega (arith, zero-bit_and (y % 2 ^ 0)))
  where
    one_div : (x : ℕ) → x / 2 ^ 0 ≡ x
    one_div x = omega arith

    one_mod : (x : ℕ) → x % 2 ^ 0 ≡ 0
    one_mod x = omega arith
and_split (suc k) x y =
    rw (div-pow_suc x k, div-pow_suc y k, twice (2 ^ k) (2 ^ suc k) (pow_two-suc k))
      (omega (arith, bit_and_step x y, and_split k (x / 2) (y / 2), low_step k x y))

-- The affinity fields 0 to 2, those that the two formats have in the same place.
low_value : (x : ℕ) → bit_and x low_affinities ≡ x / 2 ^ 8 % 2 ^ 16 * 2 ^ 8 + x % 2 ^ 4
low_value x =
    and_split 8 x low_affinities ∙ omega (arith, and_ones 16 (x / 2 ^ 8), and_ones 4 (x % 2 ^ 8))

pub to_rec_value :
    (m : ℕ)
    → mpidr_to_rec_mpidr m ≡ m / 2 ^ 8 % 2 ^ 16 * 2 ^ 8 + m % 2 ^ 4 + m / 2 ^ 32 % 2 ^ 8 * 2 ^ 24
unfolding mpidr_to_rec_mpidr
to_rec_value m =
    rw (low_value m, and_field 32 8 m, shifted (m / 2 ^ 32 % 2 ^ 8))
      (or_field 24 8 (m / 2 ^ 8 % 2 ^ 16 * 2 ^ 8 + m % 2 ^ 4) (m / 2 ^ 32 % 2 ^ 8) (omega arith)
        (omega arith))
  where
    shifted : (v : ℕ) → v * 2 ^ 32 / 2 ^ 8 ≡ v * 2 ^ 24
    shifted v = omega arith

pub from_rec_value :
    (r : ℕ)
    → rec_mpidr_to_mpidr r ≡ r / 2 ^ 8 % 2 ^ 16 * 2 ^ 8 + r % 2 ^ 4 + r / 2 ^ 24 % 2 ^ 8 * 2 ^ 32
unfolding rec_mpidr_to_mpidr
from_rec_value r =
    rw (low_value r, and_field 24 8 r, shifted (r / 2 ^ 24 % 2 ^ 8) (omega arith))
      (or_field 32 8 (r / 2 ^ 8 % 2 ^ 16 * 2 ^ 8 + r % 2 ^ 4) (r / 2 ^ 24 % 2 ^ 8) (omega arith)
        (omega arith))
  where
    shifted : (v : ℕ) → v < 2 ^ 8 → v * 2 ^ 24 * 2 ^ 8 % 2 ^ 64 ≡ v * 2 ^ 32
    shifted v h = omega arith

valid_mask : (x : ℕ) → bit_and x (2 ^ 32 - 1 - 15 * 2 ^ 4) ≡ x / 2 ^ 8 % 2 ^ 24 * 2 ^ 8 + x % 2 ^ 4
valid_mask x =
    and_split 8 x (2 ^ 32 - 1 - 15 * 2 ^ 4)
    ∙ omega (arith, and_ones 24 (x / 2 ^ 8), and_ones 4 (x % 2 ^ 8))

-- The MPIDR of a REC that the RMM accepts survives the conversion to MPIDR_EL1 and back, and the MPIDR
-- converted from any MPIDR_EL1 is one that the RMM accepts.
pub mpidr_roundtrip :
    (r m : ℕ)
    → r < 2 ^ 64
    → rec_mpidr_is_valid r ≡ true
    → (mpidr_to_rec_mpidr (rec_mpidr_to_mpidr r) ≡ r)
      × (rec_mpidr_is_valid (mpidr_to_rec_mpidr m) ≡ true)
unfolding rec_mpidr_is_valid
mpidr_roundtrip r m bound valid = (
  rw (to_rec_value (rec_mpidr_to_mpidr r), from_rec_value r)
      (omega (
        arith,
        valid_mask r,
        and_complement 64 r (2 ^ 32 - 1 - 15 * 2 ^ 4) (omega arith),
        (==_iff (bit_and r (2 ^ 64 - 1 - (2 ^ 32 - 1 - 15 * 2 ^ 4))) 0).0 valid,
      )),
  (==_iff (bit_and (mpidr_to_rec_mpidr m) (2 ^ 64 - 1 - (2 ^ 32 - 1 - 15 * 2 ^ 4))) 0).1 (
      omega (
        arith,
        valid_mask (mpidr_to_rec_mpidr m),
        to_rec_value m,
        and_complement 64 (mpidr_to_rec_mpidr m) (2 ^ 32 - 1 - 15 * 2 ^ 4) (omega arith),
      )),
)
