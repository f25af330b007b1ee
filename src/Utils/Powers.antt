-- ===== src/Utils/Powers.antt =====
-- IS_POWER_OF_TWO holds of the powers of two, and of no other number.
use tf_rmm.Common.{
  ℕ, zero, suc, ◌-◌, ◌*◌, ◌/◌, ◌%◌, ◌^◌, ◌<◌, ◌≤◌, ◌≡◌, ◌↔◌, refl, arith, ◌∙◌, true, ap, bit_and,
  ℕ_discrete,
}
use tf_rmm.Common.Bits.{bit_and_step, pow_two-suc, pow_two-pos, bit_and-zero}
use tf_rmm.Utils.{is_power_of_two}

self_fuel : (n a : ℕ) → a ≤ n → bit_and a a ≡ a
self_fuel n zero h = bit_and-zero 0
self_fuel zero (suc a) h = absurd (omega arith)
self_fuel (suc n) (suc a) h =
    omega (arith, bit_and_step (suc a) (suc a), self_fuel n (suc a / 2) (omega arith))

half_pred_even : (y : ℕ) → y % 2 ≡ 0 → (y - 1) / 2 ≡ y / 2 - 1
half_pred_even y h = omega arith

half_pred_odd : (y : ℕ) → y % 2 ≡ 1 → (y - 1) / 2 ≡ y / 2
half_pred_odd y h = omega arith

step_even : (y : ℕ) → y % 2 ≡ 0 → bit_and y (y - 1) ≡ bit_and (y / 2) (y / 2 - 1) * 2
step_even y h = rw (bit_and_step y (y - 1), half_pred_even y h) (omega arith)

step_odd : (y : ℕ) → y % 2 ≡ 1 → bit_and y (y - 1) ≡ y / 2 * 2
step_odd y h =
    rw (bit_and_step y (y - 1), half_pred_odd y h)
      (omega (arith, self_fuel (y / 2) (y / 2) (omega arith)))

-- A number that shares no digit with its predecessor is a power of two.
power_of_disjoint : (n x : ℕ) → x ≤ n → 0 < x → bit_and x (x - 1) ≡ 0 → (k : ℕ) × (x ≡ 2 ^ k)
power_of_disjoint zero x h pos e = absurd (omega arith)
power_of_disjoint (suc n) x h pos e = elim (ℕ_discrete (x % 2) 0) [
  | yes even ↦
      let (k, p) =
        power_of_disjoint n (x / 2) (omega arith) (omega arith) (omega (arith, step_even x even)) in
      (suc k, omega (arith, p, pow_two-suc k, even))
  | no odd ↦ (0, omega (arith, step_odd x (omega arith)))
]

disjoint_of_power : (k : ℕ) → bit_and (2 ^ k) (2 ^ k - 1) ≡ 0
disjoint_of_power zero = refl
disjoint_of_power (suc k) =
    let half : 2 ^ suc k / 2 ≡ 2 ^ k = omega (arith, pow_two-suc k) in
    step_even (2 ^ suc k) (omega (arith, pow_two-suc k))
    ∙ rw half (ap (λ (t : ℕ). t * 2) (disjoint_of_power k))

-- IS_POWER_OF_TWO holds of a number exactly if it is two to some power.
pub is_power_of_two_iff : (x : ℕ) → (is_power_of_two x ≡ true) ↔ ((k : ℕ) × (x ≡ 2 ^ k))
unfolding is_power_of_two
is_power_of_two_iff x = (
  λ h. power_of_disjoint x x (omega arith) (ground arith) (ground arith),
  λ (k, p). rw p (ground (arith, disjoint_of_power k, pow_two-pos k)),
)
