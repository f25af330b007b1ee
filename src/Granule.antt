-- ===== src/Granule.antt =====
-- lib/granule/include/granule.h and granule_types.h: the 16-bit descriptor of a granule, with its lock
-- in bit 15, its state in bits 14 to 10 and its reference count below. An operation that asserts
-- returns `none` where an assertion fails; a null pointer is no value of the model.
pub mod Fields
pub mod Spec
pub mod Refine
pub mod States
pub mod Contend
pub mod Order
mod Tests
use tf_rmm.Common.{
  ℕ, ◌+◌, ◌-◌, ◌*◌, ◌/◌, ◌%◌, ◌^◌, Bool, true, false, not, ◌&&◌, ◌||◌, ◌==◌, ltb, leb,
  if◌then◌else◌, ◌>>=◌, bit_and, bit_or, bit_xor, Option, none, some,
}
use tf_rmm.Utils.{mask, extract}
use tf_rmm.Bitlock.{bitlock_acquire, bitlock_release_16, bitlock_wait_while}
use tf_rmm.Granule.States.{
  granule_state_ns, granule_state_delegated, granule_state_rd, granule_state_rec,
  granule_state_rec_aux, granule_state_data, granule_state_rtt, granule_state_pdev,
  granule_state_pdev_aux, granule_state_vdev, granule_state_vdev_aux, granule_state_partial,
  granule_state_internal, granule_state_psmmu_st_l2, granule_state_rd_aux,
}

abbrev pub grn_lock_shift : ℕ
grn_lock_shift = 15

abbrev pub grn_lock_bit : ℕ
grn_lock_bit = 2 ^ grn_lock_shift

abbrev pub grn_state_shift : ℕ
grn_state_shift = 10

abbrev pub grn_state_width : ℕ
grn_state_width = 5

abbrev pub grn_refcount_width : ℕ
grn_refcount_width = 10

abbrev pub state_mask : ℕ
state_mask = mask grn_state_shift grn_state_width

abbrev pub refcount_mask : ℕ
refcount_mask = mask 0 grn_refcount_width

abbrev pub refcount_max : ℕ
refcount_max = 2 ^ grn_refcount_width - 1

-- GRANULE_SIZE / sizeof(uint64_t), GRANULE_SIZE / 64 and MAX_TOTAL_PLANES
abbrev pub rtt_refcount_max : ℕ
rtt_refcount_max = 2 ^ 12 / 8

abbrev pub psmmu_st_l2_refcount_max : ℕ
psmmu_st_l2_refcount_max = 2 ^ 12 / 64

abbrev pub max_total_planes : ℕ
max_total_planes = 4

unfoldable pub locked : ℕ → Bool
locked g = not (bit_and g grn_lock_bit == 0)

unfoldable pub refcount : ℕ → ℕ
refcount g = bit_and g refcount_mask

unfoldable pub state : ℕ → ℕ
state g = extract grn_state_shift grn_state_width g

-- Whether the assertions of `__granule_assert_unlocked_invariants` hold.
unfoldable pub unlocked_invariants : ℕ → ℕ → Bool
unlocked_invariants g st =
    if st == granule_state_ns
    then refcount g == 0
    else if st == granule_state_delegated
    then refcount g == 0
    else if st == granule_state_partial
    then refcount g == 0
    else if st == granule_state_rd
    then true
    else if st == granule_state_rec
    then leb (refcount g) 1
    else if st == granule_state_data
    then ltb (refcount g) max_total_planes
    else if st == granule_state_rtt
    then leb (refcount g) rtt_refcount_max
    else if st == granule_state_rec_aux
    then refcount g == 0
    else if st == granule_state_pdev
    then leb (refcount g) 1
    else if st == granule_state_pdev_aux
    then refcount g == 0
    else if st == granule_state_vdev
    then leb (refcount g) 1
    else if st == granule_state_vdev_aux
    then refcount g == 0
    else if st == granule_state_internal
    then refcount g == 0
    else if st == granule_state_psmmu_st_l2
    then leb (refcount g) psmmu_st_l2_refcount_max
    else if st == granule_state_rd_aux
    then refcount g == 0
    else false

-- granule_get_state
unfoldable pub get_state : ℕ → Option ℕ
get_state g = if locked g then some (state g) else none

-- __granule_set_state, with `val` kept to its 16 bits.
unfoldable pub set_state : ℕ → ℕ → Option ℕ
set_state g st =
    let val = bit_xor (bit_and g state_mask) (st * 2 ^ grn_state_shift) % 2 ^ 16 in
    if locked g then some (bit_xor g val) else none

-- granule_bitlock_wait: whether a wait that finds this word goes on.
unfoldable pub bitlock_wait : ℕ → ℕ → Bool
bitlock_wait g expected_state =
    bitlock_wait_while g (bit_or grn_lock_bit state_mask)
      (bit_or grn_lock_bit (expected_state * 2 ^ grn_state_shift) % 2 ^ 16)

-- An operation that may wait: it waits for another processor, or it has ended, with `none` for an
-- assertion that failed.
pub data Attempt (A : Type 0) : Type 0 where
  waits : Attempt A
  ended : Option A → Attempt A

-- The result of an operation that has ended without a failed assertion.
abbrev pub result_of : {A : Type 0} → Attempt A → Option A
result_of waits = none
result_of (ended r) = r

-- granule_lock, from the word that its attempt on the lock finds.
unfoldable pub lock : ℕ → ℕ → Attempt ℕ
lock found expected_state = elim (bitlock_acquire 16 found grn_lock_shift) [
  | none ↦ waits
  | some g ↦ ended (
      get_state g >>= λ st.
      if st == expected_state && unlocked_invariants g expected_state then some g else none)
]

-- granule_unlock
unfoldable pub unlock : ℕ → Option ℕ
unlock g = do
  st ← get_state g
  if unlocked_invariants g st then some (bitlock_release_16 g grn_lock_shift) else none

-- granule_unlock_transition
unfoldable pub unlock_transition : ℕ → ℕ → Option ℕ
unlock_transition g new_state = do
  st ← get_state g
  let allowed =
      not (new_state == granule_state_delegated)
      || st == granule_state_ns
      || st == granule_state_partial
  moved ← set_state g new_state
  if allowed then unlock moved else none

-- granule_unlock_transition_to_delegated, whose cache maintenance is left out.
unfoldable pub unlock_transition_to_delegated : ℕ → Option ℕ
unlock_transition_to_delegated g = do
  current_state ← get_state g
  moved ← set_state g granule_state_delegated
  if current_state == granule_state_delegated || current_state == granule_state_ns
      then none
      else unlock moved

-- granule_refcount_inc and granule_refcount_dec
unfoldable pub refcount_inc : ℕ → ℕ → Option ℕ
refcount_inc g val =
    if locked g && leb (refcount g + val) refcount_max then some ((g + val) % 2 ^ 16) else none

unfoldable pub refcount_dec : ℕ → ℕ → Option ℕ
refcount_dec g val =
    if locked g && leb val (refcount g) then some ((g + (2 ^ 16 - val) % 2 ^ 16) % 2 ^ 16) else none

-- atomic_granule_get, atomic_granule_put and atomic_granule_put_release
abbrev pub atomic_granule_get : ℕ → Option ℕ
atomic_granule_get g = refcount_inc g 1

abbrev pub atomic_granule_put : ℕ → Option ℕ
atomic_granule_put g = refcount_dec g 1

unfoldable pub atomic_granule_put_release : ℕ → Option ℕ
atomic_granule_put_release g =
    if not (refcount g == 0) then some ((g + (2 ^ 16 - 1)) % 2 ^ 16) else none
