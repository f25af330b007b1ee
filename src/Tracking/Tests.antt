-- ===== src/Tracking/Tests.antt =====
-- Runs of the look-ups on two banks that share a region of 2 MB.
use tf_rmm.Common.{ℕ, ◌+◌, ◌*◌, ◌^◌, ◌≡◌, refl, arith, List, [], ◌∷◌, some}
use tf_rmm.Utils.{round_up, round_down}
use tf_rmm.Tracking.{
  Region, Bank, banks_of, conv, TrackingData, tracking_region_fine_addr_to_idx,
  tracking_region_fine_stride, tracking_region_find_addr, search_banks, indices_in,
}
use tf_rmm.Tracking.Layout.{assign_fine_indices, assign_granules, assign_bank}
use tf_rmm.Tracking.Slots.{conv_min, Banks}
use tf_rmm.Tracking.Index.{
  IsLayout, Kept, Indexed, addr_to_idx-Indexed, idx-distinct, fine-IsLayout,
}

abbrev bank_at : ℕ → ℕ → ℕ → Bank
bank_at base size start = record {
  base = base;
  size = size;
  granule_start_idx = start;
  tracking_start_idx = 0;
  category = 0;
}

-- One megabyte from 2 GB, and five more after a hole of half a megabyte.
abbrev platform : List Bank
platform = bank_at (2 ^ 31) (2 ^ 20) 0 ∷ bank_at (2 ^ 31 + 3 * 2 ^ 19) (5 * 2 ^ 20) 0 ∷ []

-- A region that is tracked by fine granules.
abbrev fine_region : Region
fine_region = record { coarse_granule = 0; descriptor = 2 }

abbrev pub memory : TrackingData
memory = record {
  conv_banks = bank_at (2 ^ 31) (2 ^ 20) 0 ∷ bank_at (2 ^ 31 + 3 * 2 ^ 19) (5 * 2 ^ 20) 0 ∷ [];
  dev_banks = [];
  tracking_region_size = 2 ^ 21;
  num_tracking_regions = 4;
  num_tracking_granules = 8192;
  num_tracking_dev_granules = 0;
  tracking_regions = some (fine_region ∷ fine_region ∷ fine_region ∷ fine_region ∷ []);
}

platform-Banks : Banks platform
platform-Banks = (
  record {
    some_memory = omega arith;
    base_aligned = refl;
    size_aligned = refl;
    fits = omega arith;
  },
  omega arith,
  record {
    some_memory = omega arith;
    base_aligned = refl;
    size_aligned = refl;
    fits = omega arith;
  },
)

fine_example : IsLayout memory conv × Kept platform (banks_of memory conv)
unfolding assign_fine_indices assign_granules assign_bank tracking_region_fine_stride round_up
    round_down
fine_example = fine-IsLayout memory conv platform 2048 conv_min refl platform-Banks (refl, refl)

pub memory-IsLayout : IsLayout memory conv
unfolding assign_fine_indices assign_granules assign_bank tracking_region_fine_stride round_up
    round_down
memory-IsLayout =
    (fine-IsLayout memory conv platform 2048 conv_min refl platform-Banks (refl, refl)).0

addr_to_idx_example :
    Indexed memory conv memory-IsLayout
      (2 ^ 31 + 2 ^ 21)
      refl
      (tracking_region_fine_addr_to_idx memory (2 ^ 31 + 2 ^ 21) conv)
addr_to_idx_example = addr_to_idx-Indexed memory conv memory-IsLayout (2 ^ 31 + 2 ^ 21) refl

idx-distinct_example : 2 ^ 31 ≡ 2 ^ 31
unfolding tracking_region_fine_addr_to_idx tracking_region_find_addr search_banks indices_in
    round_down
idx-distinct_example =
    idx-distinct memory conv memory-IsLayout (2 ^ 31) (2 ^ 31) refl refl
      (λ e. absurd (omega (arith, e))) refl
