-- ===== src/TrGranule.antt =====
-- lib/granule/src/tr_granule.c: how conventional memory's granules are selected by physical address and
-- locked. One processor's accesses are modelled, between which no tracking transition runs; where it
-- would wait for another to release a lock, or an assertion fails, nothing is returned.
pub mod Locks
pub mod Sets
pub mod Ranges
pub mod Published
pub mod Run
pub mod Longest
pub mod Gather
pub mod Together
mod Tests
use tf_rmm.Common.{
  ℕ, ◌+◌, ◌-◌, ◌*◌, ◌/◌, ◌%◌, ◌^◌, Bool, true, false, not, ◌&&◌, ◌||◌, ◌==◌, ltb, leb,
  if◌then◌else◌, ◌>>=◌, bit_and, Option, none, some, List, [], ◌∷◌, length, get_or,
}
use tf_rmm.Utils.{is_aligned, extract}
use tf_rmm.Bitlock.{bitlock_try_acquire_16, bitlock_release_16}
use tf_rmm.Status.{
  rmi_success, rmi_error_input, rmi_error_tracking, rmi_blocked, pack_return_code_level_addr,
}
use tf_rmm.Granule.{state, get_state, unlocked_invariants, unlock, unlock_transition}
use tf_rmm.Granule.Order.{TrGranuleSet, tr_granule_set_has_duplicate_addr, tr_sort_granules}
use tf_rmm.Tracking.{
  TrackingData, Region, conv, granule_size, uint64_max, tracking_region_find,
  tracking_region_fine_addr_to_idx,
}

-- trs_fine and trs_coarse
abbrev pub trs_fine : ℕ
trs_fine = 2

abbrev pub trs_coarse : ℕ
trs_coarse = 3

-- A struct granule: the coarse one of a region, or an entry of the array of fine ones.
pub data GranulePtr : Type 0 where
  coarse : ℕ → GranulePtr
  fine : ℕ → GranulePtr

-- The words of the granules.
abbrev pub Words : Type 0
Words = GranulePtr → ℕ

unfoldable pub same_granule : GranulePtr → GranulePtr → Bool
same_granule (coarse i) (coarse j) = i == j
same_granule (fine i) (fine j) = i == j
same_granule g h = false

unfoldable pub write_word : Words → GranulePtr → ℕ → Words
write_word m g w x = if same_granule g x then w else m x

-- The descriptor of a region.
unfoldable pub descriptor_of : TrackingData → ℕ → ℕ
descriptor_of tr idx = elim tr.tracking_regions [
  | none ↦ 0
  | some regions ↦ (get_or regions idx (record { coarse_granule = 0; descriptor = 0 })).descriptor
]

unfoldable pub tracking_region_get_state : ℕ → ℕ
tracking_region_get_state descriptor = extract 0 2 descriptor

unfoldable pub tracking_region_transition_pending : ℕ → Bool
tracking_region_transition_pending descriptor = not (bit_and descriptor (2 ^ 4) == 0)

unfoldable pub tr_tracking_size_valid : TrackingData → ℕ → Bool
tr_tracking_size_valid tr size = size == granule_size || size == tr.tracking_region_size

-- `none` where an assertion of the packing fails.
unfoldable pub tr_encode_lookup_result : ℕ → ℕ → Option ℕ
tr_encode_lookup_result ret addr =
    if ret == rmi_error_tracking
    then pack_return_code_level_addr rmi_error_tracking 0 addr
    else some ret

-- The result, and what `*tracking_size` receives.
unfoldable pub tr_active_tracking_size : TrackingData → ℕ → ℕ × ℕ
tr_active_tracking_size tr idx =
    let descriptor = descriptor_of tr idx in
    let st = tracking_region_get_state descriptor in
    if tracking_region_transition_pending descriptor
    then (rmi_blocked, 0)
    else if st == trs_fine
    then (rmi_success, granule_size)
    else if st == trs_coarse
    then (rmi_success, tr.tracking_region_size)
    else (rmi_error_tracking, 0)

-- The result, and what `*g` receives.
unfoldable pub tr_select_granule : TrackingData → ℕ → ℕ → ℕ → ℕ × Option GranulePtr
tr_select_granule tr region addr tracking_size =
    let descriptor = descriptor_of tr region in
    let idx = tracking_region_fine_addr_to_idx tr addr conv in
    if tracking_region_transition_pending descriptor
    then (rmi_blocked, none)
    else if tracking_size == tr.tracking_region_size
    then if not (tracking_region_get_state descriptor == trs_coarse)
      then (rmi_error_tracking, none)
      else (rmi_success, some (coarse region))
    else if not (tracking_region_get_state descriptor == trs_fine)
    then (rmi_error_tracking, none)
    else if idx == uint64_max
    then (rmi_error_input, none)
    else (rmi_success, some (fine idx))

-- granule_lock_on_state_match, without contention: whether the lock was taken.
unfoldable pub granule_lock_on_state_match : Words → GranulePtr → ℕ → Option (Bool × Words)
granule_lock_on_state_match m g expected_state =
    let (acquired, got) = bitlock_try_acquire_16 (m g) 15 in
    if not (state (m g) == expected_state) then some (false, m) else if not got then none else do
      st ← get_state acquired
      if not (st == expected_state)
          then some (false, write_word m g (bitlock_release_16 acquired 15))
          else if unlocked_invariants acquired expected_state
          then some (true, write_word m g acquired)
          else none

-- What a look-up that locks returns: the result, `*g`, and the words.
pub record Looked : Type 0 where
  pub ret : ℕ
  pub granule : Option GranulePtr
  pub words : Words

unfoldable pub lock_selected : Words → ℕ × Option GranulePtr → ℕ → Option Looked
lock_selected m (ret, none) expected_state = some (record { ret = ret; granule = none; words = m })
lock_selected m (ret, some g) expected_state = do
  locked ← granule_lock_on_state_match m g expected_state
  some (
      if locked.0
      then record { ret = ret; granule = some g; words = locked.1 }
      else record { ret = rmi_error_input; granule = none; words = locked.1 })

unfoldable pub tr_find_lock_granule_read_locked :
    TrackingData → Words → ℕ → ℕ → ℕ → ℕ → Option Looked
tr_find_lock_granule_read_locked tr m region addr tracking_size expected_state =
    lock_selected m (tr_select_granule tr region addr tracking_size) expected_state

unfoldable pub encode_looked : Looked → ℕ → Option Looked
encode_looked looked addr = do
  ret ← tr_encode_lookup_result looked.ret addr
  some (record looked { ret = ret })

unfoldable pub tr_find_lock_granule : TrackingData → Words → ℕ → ℕ → ℕ → Option Looked
tr_find_lock_granule tr m addr tracking_size expected_state =
    let refused : Looked = record { ret = rmi_error_input; granule = none; words = m } in
    if not (is_aligned addr granule_size) || not (tr_tracking_size_valid tr tracking_size)
    then some refused
    else elim (tracking_region_find tr addr conv) [
      | none ↦ some refused
      | some region ↦
          tr_find_lock_granule_read_locked tr m region addr tracking_size expected_state
          >>= λ looked. encode_looked looked addr
    ]

-- tr_lock_active_granule: also what `*tracking_size` receives.
unfoldable pub tr_lock_active_granule : TrackingData → Words → ℕ → ℕ → Option (Looked × ℕ)
tr_lock_active_granule tr m addr expected_state =
    let refused : Looked = record { ret = rmi_error_input; granule = none; words = m } in
    if not (is_aligned addr granule_size)
    then some (refused, 0)
    else elim (tracking_region_find tr addr conv) [
      | none ↦ some (refused, 0)
      | some region ↦
          let (ret, tracking_size) = tr_active_tracking_size tr region in
          if not (ret == rmi_success)
          then some (record { ret = ret; granule = none; words = m }, tracking_size)
          else tr_find_lock_granule_read_locked tr m region addr tracking_size expected_state
            >>= λ looked. some (looked, tracking_size)
    ]

unfoldable pub tr_find_lock_active_granule : TrackingData → Words → ℕ → ℕ → Option (Looked × ℕ)
tr_find_lock_active_granule tr m addr expected_state = do
  found ← tr_lock_active_granule tr m addr expected_state
  looked ← encode_looked found.0 addr
  some (looked, found.1)

-- granule_unlock on a granule.
unfoldable pub granule_unlock : Words → GranulePtr → Option Words
granule_unlock m g = do w ← unlock (m g); some (write_word m g w)
