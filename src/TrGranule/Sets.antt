-- ===== src/TrGranule/Sets.antt =====
-- lib/granule/src/tr_granule.c: several fine granules, locked in the order of their states and addresses.
use tf_rmm.Common.{
  ℕ, Bool, true, false, not, ◌==◌, if◌then◌else◌, ◌>>=◌, Option, none, some, List, [], ◌∷◌,
}
use tf_rmm.Utils.{is_aligned}
use tf_rmm.Status.{rmi_success, rmi_error_input}
use tf_rmm.Granule.Order.{TrGranuleSet, tr_granule_set_has_duplicate_addr, tr_sort_granules}
use tf_rmm.Tracking.{TrackingData, conv, granule_size, tracking_region_find}
use tf_rmm.TrGranule.{GranulePtr, Words, granule_unlock, tr_find_lock_granule}

-- A locked granule, with the output that is to receive it.
abbrev pub Output : Type 0
Output = ℕ × GranulePtr

-- The loop at `out_err`, over the granules locked, the last first.
unfoldable pub unlock_prefix : Words → List Output → Option Words
unlock_prefix m [] = some m
unlock_prefix m (g ∷ gs) = granule_unlock m g.1 >>= λ m'. unlock_prefix m' gs

-- What a look-up of several returns: the result, the outputs that are set, the last locked first, and
-- the words.
pub record Gathered : Type 0 where
  pub ret : ℕ
  pub held : List Output
  pub words : Words

-- The loop that locks, over the granules already locked.
unfoldable pub lock_each : TrackingData → Words → List Output → List TrGranuleSet → Option Gathered
lock_each tr m held [] = some (record { ret = rmi_success; held = held; words = m })
lock_each tr m held (g ∷ gs) = tr_find_lock_granule tr m g.addr granule_size g.state >>= λ looked.
    if not (looked.ret == rmi_success)
    then (unlock_prefix looked.words held >>= λ m'.
        some (record { ret = looked.ret; held = []; words = m' }))
    else elim looked.granule [
      | none ↦ none
      | some ptr ↦ lock_each tr looked.words ((g.g_ret, ptr) ∷ held) gs
    ]

-- The loop that validates the addresses.
unfoldable pub addresses_valid : TrackingData → List TrGranuleSet → Bool
addresses_valid tr [] = true
addresses_valid tr (g ∷ gs) =
    let rest = addresses_valid tr gs in
    if not (is_aligned g.addr granule_size)
    then false
    else elim (tracking_region_find tr g.addr conv) [ none ↦ false | some region ↦ rest ]

unfoldable pub tr_find_lock_fine_granules :
    TrackingData → Words → List TrGranuleSet → Option Gathered
tr_find_lock_fine_granules tr m gs =
    let refused : Gathered = record { ret = rmi_error_input; held = []; words = m } in
    if tr_granule_set_has_duplicate_addr gs
    then some refused
    else if not (addresses_valid tr gs)
    then some refused
    else lock_each tr m [] (tr_sort_granules gs)

unfoldable pub tr_find_lock_two_fine_granules :
    TrackingData → Words → ℕ → ℕ → ℕ → ℕ → Option Gathered
tr_find_lock_two_fine_granules tr m addr1 expected_state1 addr2 expected_state2 =
    tr_find_lock_fine_granules tr m (
      record { addr = addr1; g_ret = 0; state = expected_state1 }
      ∷ record { addr = addr2; g_ret = 1; state = expected_state2 }
      ∷ [])

unfoldable pub tr_find_lock_three_fine_granules :
    TrackingData → Words → ℕ → ℕ → ℕ → ℕ → ℕ → ℕ → Option Gathered
tr_find_lock_three_fine_granules tr m addr1 expected_state1 addr2 expected_state2 addr3
      expected_state3 =
    tr_find_lock_fine_granules tr m (
      record { addr = addr1; g_ret = 0; state = expected_state1 }
      ∷ record { addr = addr2; g_ret = 1; state = expected_state2 }
      ∷ record { addr = addr3; g_ret = 2; state = expected_state3 }
      ∷ [])
