-- ===== src/Tracking.antt =====
-- lib/granule/src/tracking_region.c: the banks of memory that the platform has, the tracking regions
-- that cover them, and the arrays of granules. An address has an index among the regions and one among
-- the granules of its type. Assertions are hypotheses of the theorems.
pub mod Layout
pub mod Slots
pub mod Search
pub mod Roundtrip
pub mod Index
pub mod Tests
use tf_rmm.Common.{
  ℕ, zero, suc, ◌+◌, ◌-◌, ◌*◌, ◌/◌, ◌%◌, ◌^◌, Bool, true, false, not, ◌&&◌, ◌||◌, ◌==◌, ltb, leb,
  if◌then◌else◌, Option, none, some, List, [], ◌∷◌, length, get_or, bit_and,
}
use tf_rmm.Utils.{round_up, round_down, is_aligned, extract}

abbrev pub granule_shift : ℕ
granule_shift = 12

abbrev pub granule_size : ℕ
granule_size = 2 ^ granule_shift

-- UINT64_MAX, which the look-ups return for no index and no address.
abbrev pub uint64_max : ℕ
uint64_max = 2 ^ 64 - 1

-- enum tr_mem_type
pub data TrMemType : Type 0 where
  conv : TrMemType
  dev : TrMemType

-- struct tracking_memory_bank
pub record Bank : Type 0 where
  pub base : ℕ
  pub size : ℕ
  pub granule_start_idx : ℕ
  pub tracking_start_idx : ℕ
  pub category : ℕ

abbrev pub no_bank : Bank
no_bank = record { base = 0; size = 0; granule_start_idx = 0; tracking_start_idx = 0; category = 0 }

-- struct tracking_region, without its reader-writer lock; the two coarse granules share their place.
pub record Region : Type 0 where
  pub coarse_granule : ℕ
  pub descriptor : ℕ

-- The part of struct tracking_region_data that look-ups read, with the populated banks as lists, and
-- the array of regions, `none` while it is not there.
pub record TrackingData : Type 0 where
  pub conv_banks : List Bank
  pub dev_banks : List Bank
  pub tracking_region_size : ℕ
  pub num_tracking_regions : ℕ
  pub num_tracking_granules : ℕ
  pub num_tracking_dev_granules : ℕ
  pub tracking_regions : Option (List Region)

-- sizeof(struct granule) and sizeof(struct dev_granule)
abbrev pub entry_size_of : TrMemType → ℕ
entry_size_of conv = 2
entry_size_of dev = 1

abbrev pub banks_of : TrackingData → TrMemType → List Bank
banks_of tr conv = tr.conv_banks
banks_of tr dev = tr.dev_banks

abbrev pub num_granules_of : TrackingData → TrMemType → ℕ
num_granules_of tr conv = tr.num_tracking_granules
num_granules_of tr dev = tr.num_tracking_dev_granules

unfoldable pub tracking_region_fine_stride : ℕ → ℕ → ℕ
tracking_region_fine_stride region_size entry_size =
    let raw_size = region_size / granule_size * entry_size in
    let stride = round_up raw_size granule_size in stride / entry_size

-- The loop of the binary search over [l, r], with the rounds that are left: the index of the bank that
-- contains the address.
unfoldable pub search_banks : ℕ → List Bank → ℕ → ℕ → ℕ → Option ℕ
search_banks zero banks addr l r = none
search_banks (suc rounds) banks addr l r =
    let i = l + (r - l) / 2 in
    let bank = get_or banks i no_bank in
    let below = search_banks rounds banks addr l (i - 1) in
    let above = search_banks rounds banks addr (i + 1) r in
    if ltb r l
    then none
    else if ltb addr bank.base
    then if i == 0 then none else below
    else if leb (bank.base + bank.size) addr
    then above
    else some i

-- What the search computes for the bank it found: the index of the region and that of the granule.
unfoldable pub indices_in : ℕ → ℕ → Bank → ℕ → ℕ × ℕ
indices_in region_size granule_stride bank addr =
    let tracking_base = round_down bank.base region_size in
    let region_base = round_down addr region_size in
    let region_offset = (region_base - tracking_base) / region_size in
    let granule_offset = (addr - region_base) / 2 ^ granule_shift in
    (
      bank.tracking_start_idx + region_offset,
      bank.granule_start_idx + region_offset * granule_stride + granule_offset,
    )

-- tracking_region_find_addr: the bank, and the two indices.
unfoldable pub tracking_region_find_addr : TrackingData → ℕ → TrMemType → Option (Bank × (ℕ × ℕ))
tracking_region_find_addr tr addr type =
    let banks = banks_of tr type in
    let stride = tracking_region_fine_stride tr.tracking_region_size (entry_size_of type) in
    elim (if length banks == 0
      then none
      else search_banks (length banks) banks addr 0 (length banks - 1)) [
        | none ↦ none
        | some i ↦
            let bank = get_or banks i no_bank in
            some (bank, indices_in tr.tracking_region_size stride bank addr)
      ]

unfoldable pub tracking_region_fine_addr_to_idx : TrackingData → ℕ → TrMemType → ℕ
tracking_region_fine_addr_to_idx tr addr type =
    if not (is_aligned addr granule_size)
    then uint64_max
    else elim (tracking_region_find_addr tr addr type) [
      | none ↦ uint64_max
      | some found ↦ found.1.1
    ]

-- The exact memory category of the bank, which `*category` receives.
unfoldable pub category_of : TrackingData → ℕ → TrMemType → Option ℕ
category_of tr addr type =
    if not (is_aligned addr granule_size)
    then none
    else elim (tracking_region_find_addr tr addr type) [
      | none ↦ none
      | some found ↦ some found.0.category
    ]

unfoldable pub tracking_region_addr_to_idx : TrackingData → ℕ → TrMemType → ℕ
tracking_region_addr_to_idx tr addr type =
    if not (is_aligned addr granule_size)
    then uint64_max
    else elim (tracking_region_find_addr tr addr type) [
      | none ↦ uint64_max
      | some found ↦ found.1.0
    ]

-- The index of the struct tracking_region, `none` for NULL.
unfoldable pub tracking_region_find : TrackingData → ℕ → TrMemType → Option ℕ
tracking_region_find tr addr type =
    let idx = tracking_region_addr_to_idx tr addr type in
    elim tr.tracking_regions [
      | none ↦ none
      | some regions ↦ if leb tr.num_tracking_regions idx then none else some idx
    ]

-- A round of the loop of tracking_region_fine_idx_to_addr: the address, if the bank accepts the index.
unfoldable pub addr_in : ℕ → ℕ → Bank → ℕ → Option ℕ
addr_in region_size granule_stride bank idx =
    let tracking_base = round_down bank.base region_size in
    let tracking_top = round_up (bank.base + bank.size) region_size in
    let bank_regions = (tracking_top - tracking_base) / region_size in
    let bank_descriptors = bank_regions * granule_stride in
    let relative = idx - bank.granule_start_idx in
    let offset = relative % granule_stride in
    let addr =
      tracking_base + relative / granule_stride * region_size + offset * 2 ^ granule_shift in
    if leb bank.granule_start_idx idx && ltb idx (bank.granule_start_idx + bank_descriptors)
    then if leb (region_size / granule_size) offset
      then none
      else if ltb addr bank.base || leb (bank.base + bank.size) addr
      then none
      else some addr
    else none

unfoldable pub first_addr : ℕ → ℕ → List Bank → ℕ → ℕ
first_addr region_size granule_stride [] idx = uint64_max
first_addr region_size granule_stride (bank ∷ banks) idx =
    let rest = first_addr region_size granule_stride banks idx in
    elim (addr_in region_size granule_stride bank idx) [ none ↦ rest | some addr ↦ addr ]

unfoldable pub tracking_region_fine_idx_to_addr : TrackingData → ℕ → TrMemType → ℕ
tracking_region_fine_idx_to_addr tr idx type =
    let stride = tracking_region_fine_stride tr.tracking_region_size (entry_size_of type) in
    if leb (num_granules_of tr type) idx
    then uint64_max
    else first_addr tr.tracking_region_size stride (banks_of tr type) idx
