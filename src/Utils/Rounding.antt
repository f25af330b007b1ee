-- ===== src/Utils/Rounding.antt =====
-- What round_down and round_up compute, for a boundary that is a power of two.
use native.Mathlib.Nat.{mod-add-div', mod-lt}
use tf_rmm.Common.{ℕ, ◌+◌, ◌-◌, ◌*◌, ◌/◌, ◌%◌, ◌^◌, ◌<◌, ◌≡◌, arith}
use tf_rmm.Common.Bits.{and_ones, and_complement, or_and_sum, pow-lt-pow, pow_two-pos}
use tf_rmm.Utils.{round_up, round_down}

ones-lt : (k : ℕ) → k < 64 → 2 ^ k - 1 < 2 ^ 64
ones-lt k h = omega (arith, pow-lt-pow k 64 h)

pub round_down-value : (k x : ℕ) → k < 64 → x < 2 ^ 64 → round_down x (2 ^ k) ≡ x / 2 ^ k * 2 ^ k
unfolding round_down
round_down-value k x hk hx =
    omega
      (arith, and_complement 64 x (2 ^ k - 1) (ones-lt k hk), and_ones k x, mod-add-div' x (2 ^ k))

wrapped : (x : ℕ) → 0 < x → x < 2 ^ 64 → (x + (2 ^ 64 - 1)) % 2 ^ 64 ≡ x - 1
wrapped x h k = omega arith

-- A positive value is rounded up to the end of the block that its predecessor is in.
pub round_up-value :
    (k x : ℕ)
    → k < 64
    → 0 < x
    → x + 2 ^ k < 2 ^ 64
    → round_up x (2 ^ k) ≡ (x - 1) / 2 ^ k * 2 ^ k + 2 ^ k
unfolding round_up
round_up-value k x hk pos small = rw (wrapped x pos (omega arith)) (
    omega (
      arith,
      or_and_sum (x - 1) (2 ^ k - 1),
      and_ones k (x - 1),
      mod-add-div' (x - 1) (2 ^ k),
      pow_two-pos k,
      mod-lt (x - 1) (pow_two-pos k),
    ))
