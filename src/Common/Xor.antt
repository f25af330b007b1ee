-- ===== src/Common/Xor.antt =====
-- The laws of `^` at variables: its digits, shifts and remainders, and that it undoes itself.
use Prim.Native.Nat.{ℕ, zero, suc, ◌+◌, ◌*◌, ◌/◌, ◌%◌, ◌^◌, ◌≤◌, bit_xor, differ, bit_xor-bitwise}
use mathlib.Core.Path.{◌≡◌, refl, ap, ◌∙◌, sym}
use native.Mathlib.Omega.{arith}
use tf_rmm.Common.Bits.{digits-suc, div-pow_suc, mod-pow_suc}

differ_sum : (a b : ℕ) → a ≤ 1 → b ≤ 1 → differ a b ≡ (a + b) % 2
differ_sum zero zero h k = refl
differ_sum zero (suc zero) h k = refl
differ_sum (suc zero) zero h k = refl
differ_sum (suc zero) (suc zero) h k = refl
differ_sum zero (suc (suc b)) h k = absurd (omega arith)
differ_sum (suc zero) (suc (suc b)) h k = absurd (omega arith)
differ_sum (suc (suc a)) b h k = absurd (omega arith)

pub zero-bit_xor : (y : ℕ) → bit_xor 0 y ≡ y
zero-bit_xor y = bit_xor-bitwise 0 y

pub bit_xor_step : (x y : ℕ) → bit_xor x y ≡ bit_xor (x / 2) (y / 2) * 2 + (x % 2 + y % 2) % 2
bit_xor_step zero y = omega (arith, zero-bit_xor y, zero-bit_xor (y / 2))
bit_xor_step (suc x) y =
    bit_xor-bitwise (suc x) y
    ∙ digits-suc (λ y. y) differ x y
    ∙ ap (λ high. high * 2 + differ (suc x % 2) (y % 2)) (sym (bit_xor-bitwise (suc x / 2) (y / 2)))
    ∙ ap (λ low. bit_xor (suc x / 2) (y / 2) * 2 + low)
        (differ_sum (suc x % 2) (y % 2) (omega arith) (omega arith))

half_bit_xor : (a b : ℕ) → bit_xor a b / 2 ≡ bit_xor (a / 2) (b / 2)
half_bit_xor a b = omega (arith, bit_xor_step a b)

div_one : (x : ℕ) → x / 2 ^ 0 ≡ x
div_one x = omega arith

pub bit_xor-div : (k a b : ℕ) → bit_xor a b / 2 ^ k ≡ bit_xor (a / 2 ^ k) (b / 2 ^ k)
bit_xor-div zero a b = rw (div_one (bit_xor a b), div_one a, div_one b)
bit_xor-div (suc k) a b =
    rw (div-pow_suc (bit_xor a b) k, div-pow_suc a k, div-pow_suc b k, half_bit_xor a b)
      (bit_xor-div k (a / 2) (b / 2))

xor_low : (a b : ℕ) → bit_xor a b % 2 ≡ (a % 2 + b % 2) % 2
xor_low a b = omega (arith, bit_xor_step a b)

half_mod : (m x : ℕ) → (m * 2 + x % 2) / 2 ≡ m
half_mod m x = omega arith

low_mod : (m x : ℕ) → (m * 2 + x % 2) % 2 ≡ x % 2
low_mod m x = omega arith

pub bit_xor-mod : (k a b : ℕ) → bit_xor a b % 2 ^ k ≡ bit_xor (a % 2 ^ k) (b % 2 ^ k)
bit_xor-mod zero a b = omega (
  arith,
  zero-bit_xor 0,
  ap (λ (t : ℕ). bit_xor t (b % 1)) (one a),
  ap (λ (t : ℕ). bit_xor 0 t) (one b),
)
  where
    one : (x : ℕ) → x % 1 ≡ 0
    one x = omega arith
bit_xor-mod (suc k) a b =
    rw (mod-pow_suc (bit_xor a b) k, mod-pow_suc a k, mod-pow_suc b k)
      (rw
        (
          half_bit_xor a b,
          xor_low a b,
          bit_xor-mod k (a / 2) (b / 2),
          bit_xor_step (a / 2 % 2 ^ k * 2 + a % 2) (b / 2 % 2 ^ k * 2 + b % 2),
          half_mod (a / 2 % 2 ^ k) a,
          half_mod (b / 2 % 2 ^ k) b,
          low_mod (a / 2 % 2 ^ k) a,
          low_mod (b / 2 % 2 ^ k) b,
        )
        refl)

xor_undo_fuel : (n a b : ℕ) → a ≤ n → bit_xor a (bit_xor a b) ≡ b
xor_undo_fuel zero zero b h = zero-bit_xor (bit_xor 0 b) ∙ zero-bit_xor b
xor_undo_fuel zero (suc a) b h = absurd (omega arith)
xor_undo_fuel (suc n) zero b h = zero-bit_xor (bit_xor 0 b) ∙ zero-bit_xor b
xor_undo_fuel (suc n) (suc a) b h =
    rw (bit_xor_step (suc a) (bit_xor (suc a) b), half_bit_xor (suc a) b)
      (omega (arith, bit_xor_step (suc a) b, xor_undo_fuel n (suc a / 2) (b / 2) (omega arith)))

-- `a ^ (a ^ b)` is `b`.
pub xor_undo : (a b : ℕ) → bit_xor a (bit_xor a b) ≡ b
xor_undo a b = xor_undo_fuel a a b (omega arith)

xor_zero_fuel : (n a : ℕ) → a ≤ n → bit_xor a 0 ≡ a
xor_zero_fuel zero zero h = zero-bit_xor 0
xor_zero_fuel zero (suc a) h = absurd (omega arith)
xor_zero_fuel (suc n) zero h = zero-bit_xor 0
xor_zero_fuel (suc n) (suc a) h =
    omega (arith, bit_xor_step (suc a) 0, xor_zero_fuel n (suc a / 2) (omega arith))

pub xor_zero : (a : ℕ) → bit_xor a 0 ≡ a
xor_zero a = xor_zero_fuel a a (omega arith)
