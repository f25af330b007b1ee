-- ===== src/Granule/Fields.antt =====
-- lib/granule/include/granule.h: a descriptor as a lock, a state and a count. Every 16-bit word is
-- `pack` of the three, and each operation is described by what it does to them.
use native.Mathlib.Nat.{div-eq_of_lt}
use tf_rmm.Common.{
  ℕ, ◌+◌, ◌-◌, ◌*◌, ◌/◌, ◌%◌, ◌^◌, ◌<◌, ◌≤◌, ◌≡◌, ◌⊎◌, inl, inr, refl, arith, not, ◌&&◌, ◌==◌, leb,
  if◌then◌else◌, bit_xor, none, some,
}
use tf_rmm.Common.Bits.{and_ones}
use tf_rmm.Common.Xor.{bit_xor-div, zero-bit_xor}
use tf_rmm.Utils.{extract}
use tf_rmm.Utils.Fields.{extract_value}
use tf_rmm.Utils.Xor.{
  field_change, change-low, change-high, replaced-below, replaced-field, replaced-above,
}
use tf_rmm.Bitlock.{bitlock_acquire, bitlock_release}
use tf_rmm.Bitlock.Laws.{lock_bit, try_acquire-free, try_acquire-held, release-value}
use tf_rmm.Granule.{
  locked, refcount, state, get_state, set_state, refcount_inc, refcount_dec,
  atomic_granule_put_release,
}

abbrev pub pack : ℕ → ℕ → ℕ → ℕ
pack l s r = l * 2 ^ 15 + s * 2 ^ 10 + r

-- The digits of a state are enough for `width` digits, and those of a changed field too.
xor-lt : (n a b : ℕ) → a < 2 ^ n → b < 2 ^ n → bit_xor a b / 2 ^ n ≡ 0
xor-lt n a b h k = rw (bit_xor-div n a b, div-eq_of_lt h, div-eq_of_lt k) (zero-bit_xor 0)

-- The lock and the state of any word.
pub locked-word : (g : ℕ) → g < 2 ^ 16 → locked g ≡ (g / 2 ^ 15 == 1)
unfolding locked
locked-word g word = rw (lock_bit 15 g word) (ground arith)

pub state-word : (g : ℕ) → state g ≡ g / 2 ^ 10 % 32
unfolding state extract
state-word g = omega (arith, extract_value 10 5 g)

free_or_held : (l : ℕ) → l ≤ 1 → (l ≡ 0) ⊎ (l ≡ 1)
free_or_held l h = omega arith

module _ (l s r : ℕ) (hl : l ≤ 1) (hs : s < 32) (hr : r < 1024) where
  abbrev g : ℕ
  g = pack l s r

  pub locked-pack : locked g ≡ (l == 1)
  unfolding locked
  locked-pack = rw (lock_bit 15 g (omega arith)) (ground arith)

  pub refcount-pack : refcount g ≡ r
  unfolding refcount
  refcount-pack = omega (arith, and_ones 10 g)

  pub state-pack : state g ≡ s
  unfolding state extract
  state-pack = omega (arith, extract_value 10 5 g)

  pub get_state-pack : get_state g ≡ (if l == 1 then some s else none)
  unfolding get_state
  get_state-pack = rw (locked-pack, state-pack) refl

  -- A new state leaves the lock and the count.
  module _ (v : ℕ) (hv : v < 32) where
    change-small : field_change 10 5 g v % 2 ^ 16 ≡ field_change 10 5 g v
    change-small = omega (
      arith,
      change-low 10 5 g v hv,
      change-high 10 5 g v hv,
      xor-lt 5 (g / 2 ^ 10 % 2 ^ 5) v (omega arith) hv,
    )

    replaced : bit_xor g (field_change 10 5 g v) ≡ pack l v r
    replaced =
        omega (
          arith,
          replaced-below 10 5 g v hv,
          replaced-field 10 5 g v hv,
          replaced-above 10 5 g v hv,
        )

    pub set_state-pack : set_state g v ≡ (if l == 1 then some (pack l v r) else none)
    unfolding set_state
    set_state-pack = rw (locked-pack, change-small, replaced) refl

  pub acquire-pack : bitlock_acquire 16 g 15 ≡ (if l == 1 then none else some (pack 1 s r))
  unfolding bitlock_acquire
  acquire-pack = elim (free_or_held l hl) [
    | inl free ↦ rw (try_acquire-free 15 g (omega arith) (omega arith)) (ground arith)
    | inr held ↦ rw (try_acquire-held 15 g (omega arith) (omega arith)) (ground arith)
  ]

  pub release-pack : bitlock_release 16 g 15 ≡ pack 0 s r
  release-pack = omega (arith, release-value 15 g (omega arith))

  pub refcount_inc-pack :
      (n : ℕ)
      → refcount_inc g n ≡ (if l == 1 && leb (r + n) 1023 then some (pack l s (r + n)) else none)
  unfolding refcount_inc
  refcount_inc-pack n = rw (locked-pack, refcount-pack) (ground arith)

  pub refcount_dec-pack :
      (n : ℕ) → refcount_dec g n ≡ (if l == 1 && leb n r then some (pack l s (r - n)) else none)
  unfolding refcount_dec
  refcount_dec-pack n = rw (locked-pack, refcount-pack) (ground arith)

  pub put_release-pack :
      atomic_granule_put_release g ≡ (if not (r == 0) then some (pack l s (r - 1)) else none)
  unfolding atomic_granule_put_release
  put_release-pack = rw refcount-pack (ground arith)
