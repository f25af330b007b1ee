-- ===== src/TrGranule/Run.antt =====
-- lib/granule/src/tr_granule.c: tr_find_lock_fine_granule_run, which locks consecutive fine granules.
use tf_rmm.Common.{
  ℕ, zero, suc, ◌+◌, ◌-◌, ◌/◌, Bool, false, not, ◌||◌, ◌==◌, leb, if◌then◌else◌, ◌>>=◌, Option,
  none, some,
}
use tf_rmm.Utils.{is_aligned}
use tf_rmm.Status.{rmi_success, rmi_error_input, rmi_error_tracking}
use tf_rmm.Tracking.{TrackingData, conv, granule_size, tracking_region_find}
use tf_rmm.TrGranule.{
  Words, tr_select_granule, lock_selected, tr_active_tracking_size, tr_encode_lookup_result,
}

-- What the function returns: the result, `*count`, and the words.
pub record Ran : Type 0 where
  pub ret : ℕ
  pub count : ℕ
  pub words : Words

-- Whether the address is in the region.
unfoldable pub in_region : TrackingData → ℕ → ℕ → Bool
in_region tr region addr = elim (tracking_region_find tr addr conv) [
  | none ↦ false
  | some found ↦ found == region
]

-- The loop, with the rounds left before `end_addr` and the granules locked.
unfoldable pub run_from : TrackingData → ℕ → ℕ → ℕ → ℕ → ℕ → Words → Option Ran
run_from tr region expected_state zero cursor locked m =
    some (record { ret = rmi_success; count = locked; words = m })
run_from tr region expected_state (suc rounds) cursor locked m =
    if not (in_region tr region cursor)
    then some (record { ret = rmi_success; count = locked; words = m })
    else lock_selected m (tr_select_granule tr region cursor granule_size) expected_state
      >>= λ looked.
          if looked.ret == rmi_success
          then run_from tr region expected_state rounds (cursor + granule_size) (locked + 1)
              looked.words
          else some (record {
            ret = if locked == 0 then looked.ret else rmi_success;
            count = locked;
            words = looked.words;
          })

-- After the label `out`; a run without granules fails an assertion.
unfoldable pub finish_run : ℕ → Ran → Option Ran
finish_run addr ran =
    if not (ran.ret == rmi_success)
    then (tr_encode_lookup_result ran.ret addr >>= λ ret.
        some (record { ret = ret; count = 0; words = ran.words }))
    else if ran.count == 0
    then none
    else some ran

unfoldable pub tr_find_lock_fine_granule_run : TrackingData → Words → ℕ → ℕ → ℕ → Option Ran
tr_find_lock_fine_granule_run tr m addr end_addr expected_state =
    let refused : Ran = record { ret = rmi_error_input; count = 0; words = m } in
    if not (is_aligned addr granule_size)
      || not (is_aligned end_addr granule_size)
      || leb end_addr addr
    then some refused
    else elim (tracking_region_find tr addr conv) [
      | none ↦ some refused
      | some region ↦
          let (ret, tracking_size) = tr_active_tracking_size tr region in
          if not (ret == rmi_success)
          then finish_run addr (record { ret = ret; count = 0; words = m })
          else if not (tracking_size == granule_size)
          then finish_run addr (record { ret = rmi_error_tracking; count = 0; words = m })
          else run_from tr region expected_state ((end_addr - addr) / granule_size) addr 0 m
            >>= finish_run addr
    ]
