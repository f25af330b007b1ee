-- ===== src/Vmid.antt =====
-- lib/arch/src/vmid.c: the allocator of virtual machine identifiers, over a bitmap of 64-bit words.
-- `vmid16` says whether FEAT_VMID16 is present (`is_feat_vmid16_present`).
pub mod Usage
pub mod Alloc
use tf_rmm.Common.{
  ℕ, zero, suc, ◌+◌, ◌-◌, ◌*◌, ◌/◌, ◌%◌, ◌^◌, Bool, true, false, not, ◌==◌, ltb, leb, if◌then◌else◌,
  Option, none, some, List, get_or, set, replicate,
}
use tf_rmm.Utils.{ones64, not64, shl64}
use tf_rmm.Atomics.{bit_set, bit_clear}

abbrev pub bits_per_ul : ℕ
bits_per_ul = 64

abbrev pub vmid8_count : ℕ
vmid8_count = shl64 1 8

abbrev pub vmid16_count : ℕ
vmid16_count = shl64 1 16

-- VMID_ARRAY_LONG_SIZE
abbrev pub vmid_array_long_size : ℕ
vmid_array_long_size = vmid16_count / bits_per_ul

abbrev pub vmid_count : Bool → ℕ
vmid_count vmid16 = if vmid16 then vmid16_count else vmid8_count

pub vmid_reserve : Bool → List ℕ → ℕ → List ℕ × Bool
vmid_reserve vmid16 vmids vmid =
    if leb (vmid_count vmid16) vmid
    then (vmids, false)
    else let offset = vmid / bits_per_ul in
      let (word, was_set) = bit_set (get_or vmids offset 0) (vmid % bits_per_ul) in
      (set vmids offset word, not was_set)

-- `none` where the assertion on the identifier fails.
pub vmid_free : Bool → List ℕ → ℕ → Option (List ℕ)
vmid_free vmid16 vmids vmid =
    let offset = vmid / bits_per_ul in
    if ltb vmid (vmid_count vmid16)
    then some (set vmids offset (bit_clear (get_or vmids offset 0) (vmid % bits_per_ul)))
    else none

-- `__builtin_ctzl`: the number of zero digits below the lowest one.
pub ctz : ℕ → ℕ → ℕ
ctz zero x = 0
ctz (suc digits) x = let rest = ctz digits (x / 2) in if x % 2 == 1 then 0 else suc rest

-- The scan of `vmid_hint` from word `i`, with the rounds that are left.
pub hint_from : ℕ → List ℕ → ℕ → ℕ
hint_from zero vmids i = 0
hint_from (suc rounds) vmids i =
    let word_val = get_or vmids i 0 in
    let rest = hint_from rounds vmids (i + 1) in
    if not (word_val == ones64) then (i * bits_per_ul + ctz 64 (not64 word_val)) % 2 ^ 32 else rest

pub vmid_hint : List ℕ → ℕ
vmid_hint vmids = hint_from vmid_array_long_size vmids 0

-- One of the two search loops of `vmid_alloc`, from `i`, with the rounds that are left.
pub search_from : Bool → ℕ → List ℕ → ℕ → List ℕ × Option ℕ
search_from vmid16 zero vmids i = (vmids, none)
search_from vmid16 (suc rounds) vmids i =
    let (vmids', reserved) = vmid_reserve vmid16 vmids i in
    let rest = search_from vmid16 rounds vmids' (i + 1) in
    if reserved then (vmids', some i) else rest

-- The second loop, if the first one found nothing.
pub search_rest : Bool → ℕ → List ℕ × Option ℕ → List ℕ × Option ℕ
search_rest vmid16 start_hint (vmids, some vmid) = (vmids, some vmid)
search_rest vmid16 start_hint (vmids, none) = search_from vmid16 start_hint vmids 0

pub vmid_alloc : Bool → List ℕ → List ℕ × Option ℕ
vmid_alloc vmid16 vmids =
    let hint = vmid_hint vmids in
    let start_hint = if leb (vmid_count vmid16) hint then 0 else hint in
    search_rest vmid16 start_hint
      (search_from vmid16 (vmid_count vmid16 - start_hint) vmids start_hint)
