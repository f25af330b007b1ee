-- ===== src/TrGranule/Ranges.antt =====
-- lib/granule/src/tr_granule.c: the publication of a range of fine granules of conventional memory, that
-- is, the functions with `device` false.
use tf_rmm.Common.{
  ℕ, zero, suc, ◌+◌, ◌*◌, ◌%◌, ◌^◌, Bool, not, ◌&&◌, ◌||◌, ◌==◌, ltb, if◌then◌else◌, ◌>>=◌, Option,
  none, some,
}
use tf_rmm.Utils.{is_aligned}
use tf_rmm.Granule.{result_of, lock, unlock, unlock_transition}
use tf_rmm.Granule.States.{granule_state_ns, granule_state_delegated, granule_state_partial}
use tf_rmm.Tracking.{
  TrackingData, conv, granule_size, uint64_max, tracking_region_find,
  tracking_region_fine_addr_to_idx,
}
use tf_rmm.TrGranule.{
  GranulePtr, coarse, fine, Words, write_word, descriptor_of, tracking_region_get_state,
  tr_tracking_size_valid, trs_fine, trs_coarse,
}

-- `none` where an assertion fails.
unfoldable pub tr_addr_to_granule : TrackingData → ℕ → Option GranulePtr
tr_addr_to_granule tr addr =
    let idx = tracking_region_fine_addr_to_idx tr addr conv in
    if is_aligned addr granule_size && not (idx == uint64_max) then some (fine idx) else none

-- The granule that tr_lock_owned_granule locks.
unfoldable pub owned_granule : TrackingData → ℕ → ℕ → Option GranulePtr
owned_granule tr addr tracking_size = elim (tracking_region_find tr addr conv) [
  | none ↦ none
  | some region ↦
      let st = tracking_region_get_state (descriptor_of tr region) in
      if not (is_aligned addr granule_size && tr_tracking_size_valid tr tracking_size)
      then none
      else if tracking_size == granule_size
      then if st == trs_fine then tr_addr_to_granule tr addr else none
      else if st == trs_coarse
      then some (coarse region)
      else none
]

-- A granule's word, changed by a step that may fail an assertion.
unfoldable pub change_word : Words → (ℕ → Option ℕ) → GranulePtr → Option Words
change_word m f g = do w ← f (m g); some (write_word m g w)

-- The loops over the granules from an address: `f i` changes the word of the granule `i`.
unfoldable pub each_granule :
    (ℕ → Option GranulePtr) → (ℕ → ℕ → Option ℕ) → ℕ → ℕ → ℕ → Words → Option Words
each_granule find f addr i zero m = some m
each_granule find f addr i (suc rounds) m = do
  g ← find ((addr + i * granule_size) % 2 ^ 64)
  m' ← change_word m (f i) g
  each_granule find f addr (i + 1) rounds m'

-- A round of granule_range_delegate_fine_unlock.
unfoldable pub delegate_round : ℕ → Bool → ℕ → ℕ → Option ℕ
delegate_round delegated_count incomplete i w =
    if ltb i delegated_count
    then unlock_transition w granule_state_delegated
    else if incomplete
    then unlock_transition w granule_state_partial
    else unlock w

unfoldable pub granule_range_delegate_fine_unlock :
    TrackingData → Words → ℕ → ℕ → ℕ → Bool → Option Words
granule_range_delegate_fine_unlock tr m addr locked_count delegated_count incomplete =
    if ltb locked_count delegated_count
    then none
    else each_granule (tr_addr_to_granule tr) (delegate_round delegated_count incomplete) addr 0
        locked_count m

-- A round of granule_delegate_fine_transition, and what granule_range_undelegate_commit does; nothing
-- where granule_lock waits.
unfoldable pub transition_owned : ℕ → ℕ → Option ℕ
transition_owned new_state w = do
  held ← result_of (lock w granule_state_partial)
  unlock_transition held new_state

-- The rounds are those of a size that is a number of granules, as the function asserts.
unfoldable pub granule_delegate_fine_transition : TrackingData → Words → ℕ → ℕ → Bool → Option Words
granule_delegate_fine_transition tr m addr granules delegated =
    let new_state = if delegated then granule_state_delegated else granule_state_ns in
    if not (is_aligned addr granule_size)
    then none
    else each_granule (λ pa. owned_granule tr pa granule_size) (λ i. transition_owned new_state)
        addr 0 granules m

unfoldable pub granule_delegate_coarse_transition :
    TrackingData → Words → ℕ → ℕ → Bool → Option Words
granule_delegate_coarse_transition tr m addr tracking_size delegated =
    let new_state = if delegated then granule_state_delegated else granule_state_ns in
    if not (tracking_size == tr.tracking_region_size)
    then none
    else owned_granule tr addr tracking_size >>= change_word m (transition_owned new_state)

unfoldable pub granule_range_undelegate_commit : TrackingData → Words → ℕ → ℕ → Option Words
granule_range_undelegate_commit tr m addr tracking_size =
    owned_granule tr addr tracking_size >>= change_word m (transition_owned granule_state_ns)

-- A round of granule_range_undelegate_fine_unlock.
unfoldable pub undelegate_round : Bool → ℕ → ℕ → Option ℕ
undelegate_round reserved i w =
    if reserved then unlock_transition w granule_state_partial else unlock w

unfoldable pub granule_range_undelegate_fine_unlock :
    TrackingData → Words → ℕ → ℕ → Bool → Option Words
granule_range_undelegate_fine_unlock tr m addr count reserved =
    if not (is_aligned addr granule_size) || count == 0
    then none
    else each_granule (tr_addr_to_granule tr) (undelegate_round reserved) addr 0 count m
