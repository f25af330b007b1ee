-- ===== src/Mec.antt =====
-- lib/mec/src/mec.c: the allocator of memory encryption contexts. A call of `rmm_el3_ifc_mec_refresh`,
-- which tweaks the key of a MECID in EL3, is an entry of `refreshes`: the MECID, and whether it is for a
-- release. A failed assertion is `none`; those of `mecid_max` and on a system register are hypotheses.
-- The spinlock makes each operation on the shared MECID one step.
pub mod Shared
use tf_rmm.Common.{
  ℕ, zero, suc, ◌+◌, ◌-◌, ◌*◌, ◌/◌, ◌%◌, ◌^◌, Bool, true, false, not, ◌&&◌, ◌||◌, ◌==◌, ltb, leb,
  if◌then◌else◌, Option, none, some, List, [], ◌∷◌, get_or, set, replicate,
}
use tf_rmm.Utils.{shl64}
use tf_rmm.Atomics.{bit_set, bit_clear}
use tf_rmm.Vmid.{bits_per_ul, hint_from}

-- RESERVED_MECID_SYSTEM
abbrev pub reserved_mecid_system : ℕ
reserved_mecid_system = 0

-- MECID_ARRAY_SIZE
abbrev pub mecid_array_size : ℕ
mecid_array_size = 2 ^ 16 / bits_per_ul

-- struct mec_state_s, whether FEAT_MEC is present, and RESERVED_IDS, which is 2 if the build scrubs
-- memory through a MECID of its own and 1 otherwise.
pub record Mec : Type 0 where
  pub is_feat_mec_present : Bool
  pub reserved_ids : ℕ
  pub common_mecid_width : ℕ
  pub shared_mec_members : ℕ
  pub mec_reserved : List ℕ
  pub refreshes : List (ℕ × Bool)

abbrev pub mecid_shared : Mec → ℕ
mecid_shared mec = mec.reserved_ids

abbrev pub mecid_private_start : Mec → ℕ
mecid_private_start mec = mecid_shared mec + 1

abbrev pub refresh : Mec → ℕ → Bool → Mec
refresh mec mecid is_release = record mec { refreshes = (mecid, is_release) ∷ mec.refreshes }

pub mecid_max : Mec → ℕ
mecid_max mec = shl64 1 mec.common_mecid_width - 1

pub is_private_mecid_valid : Mec → ℕ → Bool
is_private_mecid_valid mec mecid = leb (mecid_private_start mec) mecid && leb mecid (mecid_max mec)

pub mecid_private_count : Mec → ℕ
mecid_private_count mec =
    if not mec.is_feat_mec_present
    then 0
    else if ltb (mecid_max mec) (mecid_private_start mec)
    then 0
    else mecid_max mec - mecid_private_start mec + 1

-- The callers have validated the MECID.
pub mec_reserve : Mec → ℕ → Mec × Bool
mec_reserve mec mecid =
    let offset = mecid / bits_per_ul in
    let (word, was_set) = bit_set (get_or mec.mec_reserved offset 0) (mecid % bits_per_ul) in
    let mec' = record mec { mec_reserved = set mec.mec_reserved offset word } in
    if not was_set then (refresh mec' mecid false, true) else (mec', false)

pub mec_release : Mec → ℕ → Mec
mec_release mec mecid =
    let offset = mecid / bits_per_ul in
    let word = bit_clear (get_or mec.mec_reserved offset 0) (mecid % bits_per_ul) in
    record (refresh mec mecid true) { mec_reserved = set mec.mec_reserved offset word }

pub mecid_reserve : Mec → ℕ → Mec × Bool
mecid_reserve mec mecid =
    let refreshed =
      if mec.shared_mec_members == 0 then refresh mec (mecid_shared mec) false else mec in
    if not mec.is_feat_mec_present
    then (mec, true)
    else if mecid == mecid_shared mec
    then if ltb mec.shared_mec_members (2 ^ 64 - 1)
      then (record refreshed { shared_mec_members = mec.shared_mec_members + 1 }, true)
      else (mec, false)
    else if not (is_private_mecid_valid mec mecid)
    then (mec, false)
    else mec_reserve mec mecid

pub mecid_free : Mec → ℕ → Option Mec
mecid_free mec mecid =
    let left = record mec { shared_mec_members = mec.shared_mec_members - 1 } in
    if not mec.is_feat_mec_present
    then some mec
    else if mecid == mecid_shared mec
    then if mec.shared_mec_members == 0
      then none
      else if left.shared_mec_members == 0
      then some (refresh left (mecid_shared mec) true)
      else some left
    else if not (is_private_mecid_valid mec mecid)
    then none
    else some (mec_release mec mecid)

pub mecid_hint : Mec → ℕ
mecid_hint mec = hint_from mecid_array_size mec.mec_reserved 0

-- The loop of `mecid_alloc` over the private MECIDs, from round `i`, with the rounds that are left.
pub search_private : ℕ → Mec → ℕ → ℕ → Mec × Option ℕ
search_private zero mec start_hint i = (mec, none)
search_private (suc rounds) mec start_hint i =
    let hint = mecid_private_start mec + (i + start_hint) % 2 ^ 32 % mecid_private_count mec in
    let (mec', reserved) = mecid_reserve mec hint in
    let rest = search_private rounds mec' start_hint (i + 1) in
    if reserved then (mec', some hint) else rest

-- Where the search starts, relative to the first private MECID.
pub start_of : Mec → ℕ
start_of mec =
    let hint = mecid_hint mec in
    let from = if hint == 0 || ltb (mecid_max mec) hint then mecid_private_start mec else hint in
    (from + 2 ^ 32 - mecid_private_start mec) % 2 ^ 32

pub mecid_alloc : Mec → Bool → Mec × Option ℕ
mecid_alloc mec is_shared =
    let (shared, reserved) = mecid_reserve mec (mecid_shared mec) in
    if not mec.is_feat_mec_present
    then (mec, some reserved_mecid_system)
    else if is_shared
    then if reserved then (shared, some (mecid_shared mec)) else (shared, none)
    else search_private (mecid_private_count mec) mec (start_of mec) 0

pub mec_state_init_values : Mec → ℕ → Mec
mec_state_init_values mec width = record mec {
  shared_mec_members = 0;
  common_mecid_width = width;
  mec_reserved = (2 ^ (mec.reserved_ids + 1) - 1) ∷ replicate (mecid_array_size - 1) 0;
}
