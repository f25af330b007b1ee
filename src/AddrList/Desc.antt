-- ===== src/AddrList/Desc.antt =====
-- The RmiAddrRangeDesc4KB encoding: lib/addr_list/src/addr_list_prv.h, the descriptor helpers at the
-- top of lib/addr_list/src/addr_list.c and the size conversions of lib/addr_list/include/addr_list.h.
-- The asserts of the source are hypotheses of the theorems.
use tf_rmm.Common.{
  ℕ, zero, suc, ◌+◌, ◌-◌, ◌*◌, ◌/◌, ◌%◌, ◌^◌, Bool, true, false, ◌==◌, ltb, if◌then◌else◌, bit_and,
  bit_or,
}
use tf_rmm.Utils.{u64_mod, ones64, not64, shl64, mask, inplace, extract}
pub mod Fields

-- Shift and width of the fields SZ, CNT, ADDR and ST.
abbrev pub sz_shift : ℕ
sz_shift = 0

abbrev pub sz_width : ℕ
sz_width = 2

abbrev pub cnt_shift : ℕ
cnt_shift = 2

abbrev pub cnt_width : ℕ
cnt_width = 10

abbrev pub addr_shift : ℕ
addr_shift = 12

abbrev pub addr_width : ℕ
addr_width = 40

abbrev pub st_shift : ℕ
st_shift = 62

abbrev pub st_width : ℕ
st_width = 2

unfoldable pub get_addr_from_desc : ℕ → ℕ
unfolding extract
get_addr_from_desc desc = shl64 (extract addr_shift addr_width desc) addr_shift

unfoldable pub get_cnt_from_desc : ℕ → ℕ
unfolding extract
get_cnt_from_desc desc = extract cnt_shift cnt_width desc

unfoldable pub get_st_from_desc : ℕ → ℕ
unfolding extract
get_st_from_desc desc = extract st_shift st_width desc

unfoldable pub get_sz_from_desc : ℕ → ℕ
unfolding extract
get_sz_from_desc desc = extract sz_shift sz_width desc

abbrev pub max_block_count : ℕ
max_block_count = shl64 1 cnt_width - 1

unfoldable pub set_addr_in_desc : ℕ → ℕ → ℕ
set_addr_in_desc desc addr =
    let new_desc = bit_and desc (not64 (mask addr_shift addr_width)) in
    bit_or new_desc (inplace addr_shift (addr / 2 ^ addr_shift))

unfoldable pub set_cnt_in_desc : ℕ → ℕ → ℕ
set_cnt_in_desc desc cnt =
    let new_desc = bit_and desc (not64 (mask cnt_shift cnt_width)) in
    bit_or new_desc (inplace cnt_shift cnt)

unfoldable pub set_sz_in_desc : ℕ → ℕ → ℕ
set_sz_in_desc desc sz =
    let new_desc = bit_and desc (not64 (mask sz_shift sz_width)) in
    bit_or new_desc (inplace sz_shift sz)

unfoldable pub set_st_in_desc : ℕ → ℕ → ℕ
set_st_in_desc desc st =
    let new_desc = bit_and desc (not64 (mask st_shift st_width)) in
    bit_or new_desc (inplace st_shift st)

unfoldable pub increment_block_count : ℕ → ℕ
increment_block_count desc = (desc + shl64 1 cnt_shift) % u64_mod

unfoldable pub decrement_block_count : ℕ → ℕ
decrement_block_count desc = (desc + u64_mod - shl64 1 cnt_shift) % u64_mod

-- XLAT_TABLE_LEVEL_MAX, XLAT_ADDR_SHIFT and XLAT_BLOCK_SIZE, for a level from 0 to 3.
abbrev pub xlat_table_level_max : ℕ
xlat_table_level_max = 3

abbrev pub xlat_addr_shift : ℕ → ℕ
xlat_addr_shift level = 12 + (xlat_table_level_max - level) * 9

abbrev pub xlat_block_size : ℕ → ℕ
xlat_block_size level = shl64 1 (xlat_addr_shift level)

abbrev pub addr_list_sz_to_xlat_blk_sz : ℕ → ℕ
addr_list_sz_to_xlat_blk_sz sz_enc = xlat_block_size (xlat_table_level_max - sz_enc)

-- The loop from `sz_enc`, with the rounds that are left; past the last one the source asserts false.
pub find_sz : ℕ → ℕ → ℕ → ℕ
find_sz zero sz_enc blk_size = 0
find_sz (suc rounds) sz_enc blk_size =
    let rest = find_sz rounds (sz_enc + 1) blk_size in
    if addr_list_sz_to_xlat_blk_sz sz_enc == blk_size then sz_enc else rest

unfoldable pub xlat_blk_sz_to_addr_list_sz : ℕ → ℕ
unfolding find_sz
xlat_blk_sz_to_addr_list_sz blk_size = find_sz (xlat_table_level_max + 1) 0 blk_size

unfoldable pub desc_blk_size : ℕ → ℕ
desc_blk_size desc = addr_list_sz_to_xlat_blk_sz (get_sz_from_desc desc)

unfoldable pub create_desc : ℕ → ℕ → ℕ → ℕ → ℕ
create_desc addr cnt blk_size st =
    let sz = xlat_blk_sz_to_addr_list_sz blk_size in
    let desc : ℕ = 0 in
    let desc = bit_or desc (set_addr_in_desc desc addr) in
    let desc = bit_or desc (set_cnt_in_desc desc cnt) in
    let desc = bit_or desc (set_sz_in_desc desc sz) in bit_or desc (set_st_in_desc desc st)

unfoldable pub desc_top_addr : ℕ → ℕ
desc_top_addr desc =
    let blk_size = desc_blk_size desc in
    let base = get_addr_from_desc desc in (base + get_cnt_from_desc desc * blk_size) % u64_mod

unfoldable pub desc_is_empty : ℕ → Bool
desc_is_empty desc = get_cnt_from_desc desc == 0
