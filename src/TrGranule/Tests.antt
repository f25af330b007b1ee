-- ===== src/TrGranule/Tests.antt =====
-- lib/granule/src/tr_granule.c: two granules of a small platform, locked together.
use tf_rmm.Common.{zero, suc, ◌+◌, ◌*◌, ◌^◌, refl, arith, true, ltb, if◌then◌else◌, List, [], ◌∷◌}
use tf_rmm.Utils.{extract, round_down, round_up}
use tf_rmm.Granule.{unlocked_invariants, state, refcount}
use tf_rmm.Granule.Order.{TrGranuleSet, tr_sort_granules}
use tf_rmm.Tracking.{
  tracking_region_fine_addr_to_idx, tracking_region_find_addr, search_banks, indices_in,
  tracking_region_fine_stride,
}
use tf_rmm.Tracking.Tests.{memory, memory-IsLayout}
use tf_rmm.TrGranule.{Words}
use tf_rmm.TrGranule.Sets.{tr_find_lock_fine_granules}
use tf_rmm.TrGranule.Locks.{Quiet}
use tf_rmm.TrGranule.Ranges.{
  granule_range_delegate_fine_unlock, granule_range_undelegate_fine_unlock,
}
use tf_rmm.TrGranule.Published.{
  Inside, Published, delegate_fine_unlock-Published, undelegate_fine_unlock-Published,
}
use tf_rmm.TrGranule.Run.{tr_find_lock_fine_granule_run}
use tf_rmm.TrGranule.Longest.{Ended, find_lock_run-Ended}
use tf_rmm.TrGranule.Together.{Together, find_lock-Together}

-- Every granule is an idle DELEGATED one.
abbrev idle : Words
idle g = 2 ^ 10

idle-Quiet : Quiet idle
unfolding unlocked_invariants state refcount extract
idle-Quiet g = (omega arith, refl)

abbrev two_granules : List TrGranuleSet
two_granules =
    record { addr = 2 ^ 31 + 4096; g_ret = 0; state = 1 }
    ∷ record { addr = 2 ^ 31; g_ret = 1; state = 1 }
    ∷ []

find_lock_example :
    Together memory memory-IsLayout
      (omega arith)
      idle
      idle-Quiet
      []
      (tr_sort_granules two_granules)
      (tr_find_lock_fine_granules memory idle two_granules)
find_lock_example =
    find_lock-Together memory memory-IsLayout (omega arith) idle idle-Quiet two_granules
      (omega arith, (omega arith, tt))

-- Two pages of the platform's first bank.
pages-Inside : Inside memory memory-IsLayout (2 ^ 31) 2 refl (omega arith)
unfolding tracking_region_fine_addr_to_idx tracking_region_find_addr search_banks indices_in
    round_down tracking_region_fine_stride round_up
pages-Inside zero lt e = absurd (omega (arith, e))
pages-Inside (suc zero) lt e = absurd (omega (arith, e))
pages-Inside (suc (suc i)) lt e = absurd (omega arith)

-- Every granule is NS and locked; every granule is DELEGATED and locked.
abbrev gathered_ns : Words
gathered_ns g = 2 ^ 15

abbrev gathered_delegated : Words
gathered_delegated g = 2 ^ 15 + 2 ^ 10

delegate_fine_unlock_example :
    Published memory memory-IsLayout
      (2 ^ 31)
      2
      refl
      (omega arith)
      0
      2
      (λ i. if ltb i 1 then 2 ^ 10 else if true then 11 * 2 ^ 10 else 0)
      gathered_ns
      (granule_range_delegate_fine_unlock memory gathered_ns (2 ^ 31) 2 1 true)
delegate_fine_unlock_example =
    delegate_fine_unlock-Published memory memory-IsLayout (2 ^ 31) 2 refl (omega arith) 1 true
      gathered_ns pages-Inside (omega arith) (λ i lt. refl)

undelegate_fine_unlock_example :
    Published memory memory-IsLayout
      (2 ^ 31)
      2
      refl
      (omega arith)
      0
      2
      (λ i. if true then 11 * 2 ^ 10 else 2 ^ 10)
      gathered_delegated
      (granule_range_undelegate_fine_unlock memory gathered_delegated (2 ^ 31) 2 true)
undelegate_fine_unlock_example =
    undelegate_fine_unlock-Published memory memory-IsLayout (2 ^ 31) 2 refl (omega arith) true
      gathered_delegated pages-Inside (omega arith) (λ i lt. refl)

find_lock_run_example :
    Ended memory memory-IsLayout
      (omega arith)
      idle
      idle-Quiet
      (2 ^ 31)
      2
      refl
      (omega arith)
      1
      (tr_find_lock_fine_granule_run memory idle (2 ^ 31) (2 ^ 31 + 2 * 4096) 1)
find_lock_run_example =
    find_lock_run-Ended memory memory-IsLayout (omega arith) idle idle-Quiet (2 ^ 31) 2 refl
      (omega arith) 1 (omega arith)
