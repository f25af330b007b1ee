-- ===== src/Tracking/Layout.antt =====
-- lib/granule/src/tracking_region.c: the order of the banks and the indices they are given.
use tf_rmm.Common.{
  ℕ, ◌+◌, ◌-◌, ◌*◌, ◌/◌, Bool, true, false, ◌&&◌, ◌||◌, ltb, leb, if◌then◌else◌, List, [], ◌∷◌,
  length,
}
use tf_rmm.Utils.{round_up, round_down}
use tf_rmm.Insertion.{sort_from}
use tf_rmm.Tracking.{Bank, no_bank, tracking_region_fine_stride, uint64_max}

abbrev pub bank_after : Bank → Bank → Bool
bank_after a b = ltb b.base a.base

-- tracking_region_sort_and_validate_banks: the sort, and whether its assertions hold.
unfoldable pub sort_banks : List Bank → List Bank
sort_banks banks = sort_from bank_after no_bank (length banks - 1) 1 banks

unfoldable pub banks_valid : List Bank → Bool
banks_valid [] = true
banks_valid (bank ∷ []) = leb bank.base (uint64_max - bank.size)
banks_valid (bank ∷ next ∷ banks) =
    leb bank.base (uint64_max - bank.size)
    && leb (bank.base + bank.size) next.base
    && banks_valid (next ∷ banks)

-- What the loops keep: the end of the regions that have indices, and how many indices there are.
pub record Assigned : Type 0 where
  pub current_top : ℕ
  pub count : ℕ

-- A round of the loop that both functions write out, `stride` indices to a region: what the loop keeps
-- and the first index of the bank.
unfoldable pub assign_bank : ℕ → ℕ → Bool → Assigned → Bank → Assigned × ℕ
assign_bank region_size stride first done bank =
    let base = round_down bank.base region_size in
    let top = round_up (bank.base + bank.size) region_size in
    let overlap = (done.current_top - base) / region_size * stride in
    if first || leb done.current_top base
    then (
      record { current_top = top; count = done.count + (top - base) / region_size * stride },
      done.count,
    )
    else if ltb done.current_top top
    then (
      record {
        current_top = top;
        count = done.count + (top - done.current_top) / region_size * stride;
      },
      done.count - overlap,
    )
    else (done, done.count - overlap)

unfoldable pub assign_granules : ℕ → ℕ → Bool → Assigned → List Bank → List Bank × ℕ
assign_granules region_size stride first done [] = ([], done.count)
assign_granules region_size stride first done (bank ∷ banks) =
    let (done', start_idx) = assign_bank region_size stride first done bank in
    let (banks', count) = assign_granules region_size stride false done' banks in
    (record bank { granule_start_idx = start_idx } ∷ banks', count)

-- tracking_memory_banks_assign_fine_indices: the banks and the number of granule slots.
unfoldable pub assign_fine_indices : List Bank → ℕ → ℕ → List Bank × ℕ
assign_fine_indices banks region_size entry_size =
    assign_granules region_size (tracking_region_fine_stride region_size entry_size) true
      (record { current_top = 0; count = 0 }) banks
