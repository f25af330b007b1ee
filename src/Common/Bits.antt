-- ===== src/Common/Bits.antt =====
-- The laws of `&` and `|` at variables, from the digit recursion of the native operations: masks,
-- complements, disjoint fields and single bits.
use Prim.Native.Nat.{
  ℕ, zero, suc, ◌+◌, ◌-◌, ◌*◌, ◌/◌, ◌%◌, ◌^◌, ◌≤◌, ◌<◌, min, max, bit_and, bit_or, digits,
  bit_and-bitwise, bit_or-bitwise,
}
use mathlib.Core.Path.{◌≡◌, refl, ap, sym, ◌∙◌}
use mathlib.Core.Logic.{◌≢◌}
use native.Mathlib.Nat.{two-pow-succ, div-div-eq-div-mul, mod-eq-sub-mul-div, mul-div-le}
use native.Mathlib.Omega.{arith}

-- An operation digit by digit: how many digits are allowed for is of no matter once it is enough, so
-- that a number may stand for it, and its half for what is left after the lowest digit.
module _ (rest : ℕ → ℕ) (op : ℕ → ℕ → ℕ) where
  digits_none : (rounds y : ℕ) → digits rest op rounds zero y ≡ rest y
  digits_none zero y = refl
  digits_none (suc rounds) y = refl

  digits_agree : (r s x y : ℕ) → x ≤ r → x ≤ s → digits rest op r x y ≡ digits rest op s x y
  digits_agree r s zero y le le' = digits_none r y ∙ sym (digits_none s y)
  digits_agree zero s (suc x) y le le' = absurd (omega arith)
  digits_agree (suc r) zero (suc x) y le le' = absurd (omega arith)
  digits_agree (suc r) (suc s) (suc x) y le le' =
      ap (λ high. high * 2 + op (suc x % 2) (y % 2))
        (digits_agree r s (suc x / 2) (y / 2) (omega arith) (omega arith))

  pub digits-suc :
      (x y : ℕ)
      → digits rest op (suc x) (suc x) y
        ≡ digits rest op (suc x / 2) (suc x / 2) (y / 2) * 2 + op (suc x % 2) (y % 2)
  digits-suc x y =
      ap (λ high. high * 2 + op (suc x % 2) (y % 2))
        (digits_agree x (suc x / 2) (suc x / 2) (y / 2) (omega arith) (omega arith))

pub zero-bit_and : (y : ℕ) → bit_and 0 y ≡ 0
zero-bit_and y = bit_and-bitwise 0 y

pub zero-bit_or : (y : ℕ) → bit_or 0 y ≡ y
zero-bit_or y = bit_or-bitwise 0 y

pub bit_and_step : (x y : ℕ) → bit_and x y ≡ bit_and (x / 2) (y / 2) * 2 + min (x % 2) (y % 2)
bit_and_step zero y = omega (arith, zero-bit_and y, zero-bit_and (y / 2))
bit_and_step (suc x) y =
    bit_and-bitwise (suc x) y
    ∙ digits-suc (λ y. zero) min x y
    ∙ ap (λ high. high * 2 + min (suc x % 2) (y % 2)) (sym (bit_and-bitwise (suc x / 2) (y / 2)))

pub bit_or_step : (x y : ℕ) → bit_or x y ≡ bit_or (x / 2) (y / 2) * 2 + max (x % 2) (y % 2)
bit_or_step zero y = omega (arith, zero-bit_or y, zero-bit_or (y / 2))
bit_or_step (suc x) y =
    bit_or-bitwise (suc x) y
    ∙ digits-suc (λ y. y) max x y
    ∙ ap (λ high. high * 2 + max (suc x % 2) (y % 2)) (sym (bit_or-bitwise (suc x / 2) (y / 2)))

-- `|` and `&` together hold the digits of the two numbers.
or_and_fuel : (n a b : ℕ) → a ≤ n → bit_or a b + bit_and a b ≡ a + b
or_and_fuel zero zero b h = omega (arith, zero-bit_or b, zero-bit_and b)
or_and_fuel zero (suc a) b h = absurd (omega arith)
or_and_fuel (suc n) zero b h = omega (arith, zero-bit_or b, zero-bit_and b)
or_and_fuel (suc n) (suc a) b h = omega (
  arith,
  bit_or_step (suc a) b,
  bit_and_step (suc a) b,
  or_and_fuel n (suc a / 2) (b / 2) (omega arith),
)

pub or_and_sum : (a b : ℕ) → bit_or a b + bit_and a b ≡ a + b
or_and_sum a b = or_and_fuel a a b (omega arith)

-- Powers of two, and division by them a digit at a time.
pub pow_two-suc : (k : ℕ) → 2 ^ suc k ≡ 2 * 2 ^ k
pow_two-suc k = omega (arith, two-pow-succ k)

pub pow_two-pos : (k : ℕ) → 1 ≤ 2 ^ k
pow_two-pos zero = omega arith
pow_two-pos (suc k) = omega (arith, pow_two-suc k, pow_two-pos k)

pub div-pow_suc : (x k : ℕ) → x / 2 ^ suc k ≡ x / 2 / 2 ^ k
div-pow_suc x k = rw (pow_two-suc k, ← div-div-eq-div-mul x 2 (2 ^ k))

mod-pow_by_div : (x p : ℕ) → x % (2 * p) ≡ x / 2 % p * 2 + x % 2
mod-pow_by_div x p = omega (
  arith,
  mod-eq-sub-mul-div x (2 * p),
  mod-eq-sub-mul-div (x / 2) p,
  mul-div-le (x / 2) p,
  ap (λ (t : ℕ). p * t) (div-div-eq-div-mul x 2 p),
)

pub mod-pow_suc : (x k : ℕ) → x % 2 ^ suc k ≡ x / 2 % 2 ^ k * 2 + x % 2
mod-pow_suc x k = rw (pow_two-suc k) (mod-pow_by_div x (2 ^ k))

bit_and-le_fuel : (n a b : ℕ) → a ≤ n → bit_and a b ≤ b
bit_and-le_fuel zero zero b h = omega (arith, zero-bit_and b)
bit_and-le_fuel zero (suc a) b h = absurd (omega arith)
bit_and-le_fuel (suc n) zero b h = omega (arith, zero-bit_and b)
bit_and-le_fuel (suc n) (suc a) b h =
    omega (arith, bit_and_step (suc a) b, bit_and-le_fuel n (suc a / 2) (b / 2) (omega arith))

pub bit_and-le : (a b : ℕ) → bit_and a b ≤ b
bit_and-le a b = bit_and-le_fuel a a b (omega arith)

pub bit_and-zero : (a : ℕ) → bit_and a 0 ≡ 0
bit_and-zero a = omega (arith, bit_and-le a 0)

half_ones : (p : ℕ) → 1 ≤ p → (2 * p - 1) / 2 ≡ p - 1
half_ones p h = omega arith

-- A mask of ones from digit 0.
pub and_ones : (k x : ℕ) → bit_and x (2 ^ k - 1) ≡ x % 2 ^ k
and_ones zero x = omega (arith, bit_and-zero x)
and_ones (suc k) x =
    rw
      (
        mod-pow_suc x k,
        pow_two-suc k,
        bit_and_step x (2 * 2 ^ k - 1),
        half_ones (2 ^ k) (pow_two-pos k),
      )
      (omega (arith, and_ones k (x / 2), pow_two-pos k))

half_double : (v : ℕ) → 2 * v / 2 ≡ v
half_double v = omega arith

shift-suc : (v s : ℕ) → v * 2 ^ suc s ≡ 2 * (v * 2 ^ s)
shift-suc v s = omega (arith, ap (λ (t : ℕ). v * t) (pow_two-suc s))

mul-pow_zero : (v : ℕ) → v * 2 ^ 0 ≡ v
mul-pow_zero v = omega arith

div-pow_zero : (v : ℕ) → v / 2 ^ 0 ≡ v
div-pow_zero v = omega arith

-- A mask that is shifted left looks at the digits from there on.
pub and_shift : (s x v : ℕ) → bit_and x (v * 2 ^ s) ≡ bit_and (x / 2 ^ s) v * 2 ^ s
and_shift zero x v = rw (mul-pow_zero (bit_and (x / 2 ^ 0) v), mul-pow_zero v, div-pow_zero x)
and_shift (suc s) x v =
    rw (shift-suc v s, shift-suc (bit_and (x / 2 ^ suc s) v) s, div-pow_suc x s)
      (rw (bit_and_step x (2 * (v * 2 ^ s)), half_double (v * 2 ^ s), and_shift s (x / 2) v)
        (omega arith))

half_complement : (p m : ℕ) → m < 2 * p → (2 * p - 1 - m) / 2 ≡ p - 1 - m / 2
half_complement p m h = omega arith

-- The digits outside a mask and those inside it are all digits.
pub and_complement : (n x m : ℕ) → m < 2 ^ n → bit_and x (2 ^ n - 1 - m) + bit_and x m ≡ x % 2 ^ n
and_complement zero x m h = omega (arith, bit_and-le x (2 ^ 0 - 1 - m), bit_and-le x m)
and_complement (suc n) x m h =
    let lt : m < 2 * 2 ^ n = omega (arith, pow_two-suc n) in
    rw (mod-pow_suc x n, pow_two-suc n)
      (rw (bit_and_step x (2 * 2 ^ n - 1 - m), half_complement (2 ^ n) m lt, bit_and_step x m)
        (omega (arith, and_complement n (x / 2) (m / 2) (omega arith))))

-- Numbers with no digit in common.
pub low_disjoint : (w y v : ℕ) → y % 2 ^ w ≡ 0 → v < 2 ^ w → bit_and y v ≡ 0
low_disjoint zero y v h lt = omega (arith, bit_and-le y v)
low_disjoint (suc w) y v h lt = omega (
  arith,
  bit_and_step y v,
  mod-pow_suc y w,
  low_disjoint w (y / 2) (v / 2) (omega (arith, mod-pow_suc y w)) (omega (arith, pow_two-suc w)),
)

pub or_low : (w y v : ℕ) → y % 2 ^ w ≡ 0 → v < 2 ^ w → bit_or y v ≡ y + v
or_low w y v h lt = omega (arith, low_disjoint w y v h lt, or_and_sum y v)

-- A field of `w` digits from digit `s`: what `v << s` adds where the field is clear.
pub or_field :
    (s w y v : ℕ) → y / 2 ^ s % 2 ^ w ≡ 0 → v < 2 ^ w → bit_or y (v * 2 ^ s) ≡ y + v * 2 ^ s
or_field s w y v h lt = omega (
  arith,
  or_and_sum y (v * 2 ^ s),
  and_shift s y v,
  ap (λ (t : ℕ). t * 2 ^ s) (low_disjoint w (y / 2 ^ s) v h lt),
)

pub and_field : (s w x : ℕ) → bit_and x ((2 ^ w - 1) * 2 ^ s) ≡ x / 2 ^ s % 2 ^ w * 2 ^ s
and_field s w x = rw (and_shift s x (2 ^ w - 1), and_ones w (x / 2 ^ s))

-- Single digits.
pub bit : ℕ → ℕ → ℕ
bit x zero = x % 2
bit x (suc i) = bit (x / 2) i

pub bit-le-one : (x i : ℕ) → bit x i ≤ 1
unfolding bit
bit-le-one x zero = omega arith
bit-le-one x (suc i) = bit-le-one (x / 2) i

pub half_bit_or : (a b : ℕ) → bit_or a b / 2 ≡ bit_or (a / 2) (b / 2)
half_bit_or a b = omega (arith, bit_or_step a b)

pub half_bit_and : (a b : ℕ) → bit_and a b / 2 ≡ bit_and (a / 2) (b / 2)
half_bit_and a b = omega (arith, bit_and_step a b)

pub bit-bit_or : (a b i : ℕ) → bit (bit_or a b) i ≡ max (bit a i) (bit b i)
unfolding bit
bit-bit_or a b zero = omega (arith, bit_or_step a b)
bit-bit_or a b (suc i) = rw (half_bit_or a b) (bit-bit_or (a / 2) (b / 2) i)

pub bit-bit_and : (a b i : ℕ) → bit (bit_and a b) i ≡ min (bit a i) (bit b i)
unfolding bit
bit-bit_and a b zero = omega (arith, bit_and_step a b)
bit-bit_and a b (suc i) = rw (half_bit_and a b) (bit-bit_and (a / 2) (b / 2) i)

half_pow : (j : ℕ) → 2 ^ suc j / 2 ≡ 2 ^ j
half_pow j = omega (arith, pow_two-suc j)

zero-bit : (i : ℕ) → bit 0 i ≡ 0
unfolding bit
zero-bit zero = refl
zero-bit (suc i) = zero-bit i

pub bit-pow_self : (i : ℕ) → bit (2 ^ i) i ≡ 1
unfolding bit
bit-pow_self zero = refl
bit-pow_self (suc i) = rw (half_pow i) (bit-pow_self i)

pub bit-pow_ne : (i j : ℕ) → i ≢ j → bit (2 ^ j) i ≡ 0
unfolding bit
bit-pow_ne zero zero h = absurd (h refl)
bit-pow_ne zero (suc j) h = omega (arith, pow_two-suc j)
bit-pow_ne (suc i) zero h = zero-bit i
bit-pow_ne (suc i) (suc j) h = rw (half_pow j) (bit-pow_ne i j (λ e. h (ap suc e)))

pub bit-complement : (n m i : ℕ) → m < 2 ^ n → i < n → bit (2 ^ n - 1 - m) i ≡ 1 - bit m i
unfolding bit
bit-complement zero m i h lt = absurd (omega arith)
bit-complement (suc n) m zero h lt = omega (arith, pow_two-suc n)
bit-complement (suc n) m (suc i) h lt =
    let e : m < 2 * 2 ^ n = omega (arith, pow_two-suc n) in
    rw (pow_two-suc n)
      (rw (half_complement (2 ^ n) m e) (bit-complement n (m / 2) i (omega arith) (omega arith)))

pub bit_or-lt : (n a b : ℕ) → a < 2 ^ n → b < 2 ^ n → bit_or a b < 2 ^ n
bit_or-lt zero a b h k = omega (arith, or_and_sum a b)
bit_or-lt (suc n) a b h k = omega (
  arith,
  pow_two-suc n,
  bit_or_step a b,
  bit_or-lt n (a / 2) (b / 2) (omega (arith, pow_two-suc n)) (omega (arith, pow_two-suc n)),
)

pub pow-lt-pow : (i n : ℕ) → i < n → 2 ^ i < 2 ^ n
pow-lt-pow i zero h = absurd (omega arith)
pow-lt-pow zero (suc n) h = omega (arith, pow_two-suc n, pow_two-pos n)
pow-lt-pow (suc i) (suc n) h =
    omega (arith, pow_two-suc n, pow_two-suc i, pow-lt-pow i n (omega arith))

pub bit-value : (x i : ℕ) → bit x i ≡ x / 2 ^ i % 2
unfolding bit
bit-value x zero = omega arith
bit-value x (suc i) = rw (div-pow_suc x i) (bit-value (x / 2) i)

-- One digit under a mask.
pub and_pow : (x i : ℕ) → bit_and x (2 ^ i) ≡ bit x i * 2 ^ i
and_pow x i =
    let one : 1 * 2 ^ i ≡ 2 ^ i = omega arith in
    ap (bit_and x) (sym one) ∙ and_shift i x 1 ∙ rw (and_ones 1 (x / 2 ^ i), bit-value x i) refl
