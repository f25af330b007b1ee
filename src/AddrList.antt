-- ===== src/AddrList.antt =====
-- lib/addr_list/src/addr_list.c: the address lists that donate memory to the RMM and hand it back.
-- A function that mutates `*list` returns the new record; output pointers are parts of the result.
-- Asserts are hypotheses of the theorems. Access to the host's memory (`ns_buffer_read_addr` and
-- `ns_buffer_write_addr`, which map a Non-secure granule and may fault) is an argument: the words
-- that were read, or whether the write went through.
pub mod Desc
pub mod Blocks
pub mod Merge
pub mod Add
pub mod Rest
pub mod Reduce
pub mod Totals
pub mod Validate
pub mod Copy
pub mod Sort
mod Tests
use tf_rmm.Common.{
  ℕ, zero, suc, ◌+◌, ◌-◌, ◌*◌, ◌/◌, ◌%◌, ◌^◌, Bool, true, false, not, ◌&&◌, ◌||◌, ◌==◌, ltb, leb,
  if◌then◌else◌, min, Option, none, some, List, [], ◌∷◌, ◌++◌, get_or, set, take, drop, replicate,
}
use tf_rmm.Insertion.{sort_from}
use tf_rmm.Utils.{u64_mod, is_aligned, is_power_of_two}
use Desc.{
  xlat_block_size, create_desc, get_addr_from_desc, get_cnt_from_desc, get_st_from_desc,
  get_sz_from_desc, set_addr_in_desc, set_cnt_in_desc, increment_block_count, decrement_block_count,
  desc_blk_size, desc_top_addr, desc_is_empty, max_block_count, xlat_table_level_max,
}

-- GRANULE_SIZE / sizeof(unsigned long)
abbrev pub addr_list_max_ranges : ℕ
addr_list_max_ranges = 512

-- An unsigned int.
abbrev pub u32 : ℕ → ℕ
u32 n = n % 2 ^ 32

pub data ListType : Type 0 where
  input output : ListType

pub record AddrList : Type 0 where
  pub range_desc : List ℕ
  pub count : ℕ
  pub cur_idx : ℕ
  pub max_count : ℕ
  pub list_type : ListType

abbrev pub desc_at : AddrList → ℕ → ℕ
desc_at list i = get_or list.range_desc i 0

abbrev pub put_desc : AddrList → ℕ → ℕ → AddrList
put_desc list i desc = record list { range_desc = set list.range_desc i desc }

-- RMI_OP_MEM_DELEGATED, RMI_OP_MEM_UNDELEGATED, RMI_OP_MEM_CONDITIONAL
abbrev pub delegated : ℕ
delegated = 0

abbrev pub undelegated : ℕ
undelegated = 1

abbrev pub conditional : ℕ
conditional = 2

pub init : ListType → ℕ → AddrList
init list_type max_count = record {
  range_desc = replicate addr_list_max_ranges 0;
  count = 0;
  cur_idx = 0;
  max_count = max_count;
  list_type = list_type;
}

-- The new value of the descriptor that takes the block in, if it does.
pub merge_block : ℕ → ℕ → ℕ → ℕ → Option ℕ
merge_block cur addr blk_size st =
    if not (blk_size == desc_blk_size cur)
    then none
    else if not (st == get_st_from_desc cur)
    then none
    else if leb max_block_count (get_cnt_from_desc cur)
    then none
    else if addr == (get_addr_from_desc cur + u64_mod - blk_size) % u64_mod
    then some (increment_block_count (set_addr_in_desc cur addr))
    else if addr == desc_top_addr cur
    then some (increment_block_count cur)
    else none

pub add_block_to_current_idx : AddrList → ℕ → ℕ → ℕ → AddrList × Bool
add_block_to_current_idx list addr blk_size st =
    elim (merge_block (desc_at list list.cur_idx) addr blk_size st) [
      | none ↦ (list, false)
      | some desc ↦ (put_desc list list.cur_idx desc, true)
    ]

-- What `add_block` does once no descriptor took the block in.
pub append_block : AddrList → ℕ → ℕ → ℕ → AddrList × Bool
append_block list addr blk_size st = if list.count == list.max_count then (list, false) else (
  record (put_desc list list.cur_idx (create_desc addr 1 blk_size st)) {
    count = u32 (list.count + 1);
  },
  true,
)

-- The loop over `cur_idx`, with the rounds that are left.
pub try_blocks : ℕ → AddrList → ℕ → ℕ → ℕ → AddrList × Bool
try_blocks zero list addr blk_size st = append_block list addr blk_size st
try_blocks (suc rounds) list addr blk_size st =
    let (list', added) = add_block_to_current_idx list addr blk_size st in
    let rest = try_blocks rounds (record list' { cur_idx = list'.cur_idx + 1 }) addr blk_size st in
    if added then (list', true) else rest

pub add_block : AddrList → ℕ → ℕ → ℕ → AddrList × Bool
add_block list block_addr rtt_level st =
    let blk_size = xlat_block_size rtt_level in
    if not (is_aligned block_addr blk_size)
    then (list, false)
    else if list.count == 0
    then (
      record (put_desc list 0 (create_desc block_addr 1 blk_size st)) {
        count = u32 (list.count + 1);
      },
      true,
    )
    else try_blocks list.count (record list { cur_idx = 0 }) block_addr blk_size st

pub desc_after_by_addr : ℕ → ℕ → Bool
desc_after_by_addr a b =
    if desc_is_empty a
    then not (desc_is_empty b)
    else if desc_is_empty b
    then false
    else ltb (get_addr_from_desc b) (get_addr_from_desc a)

pub sort_by_addr : AddrList → AddrList
sort_by_addr list = record list {
  range_desc = sort_from desc_after_by_addr 0 (list.count - 1) 1 list.range_desc;
  cur_idx = 0;
}

pub add_desc : AddrList → ℕ → AddrList × Bool
add_desc list desc =
    if list.count == list.max_count
    then (list, false)
    else let addr = get_addr_from_desc desc in
      let cnt = get_cnt_from_desc desc in
      let blk_size = desc_blk_size desc in
      let st = get_st_from_desc desc in
      (
        record (put_desc list list.count (create_desc addr cnt blk_size st)) {
          count = u32 (list.count + 1);
        },
        true,
      )

-- A block of memory with its address, level and state.
pub record Reduced : Type 0 where
  pub block_addr : ℕ
  pub rtt_level : ℕ
  pub state : ℕ

-- The search for the next descriptor with blocks, with the rounds that are left.
pub skip_empty : ℕ → List ℕ → ℕ → ℕ
skip_empty zero descs idx = idx
skip_empty (suc rounds) descs idx =
    let rest = skip_empty rounds descs (idx + 1) in
    if desc_is_empty (get_or descs idx 0) then rest else idx

pub reduce_first_block : AddrList → AddrList × Option Reduced
reduce_first_block list =
    if list.count == 0
    then (list, none)
    else let idx = skip_empty (list.count - list.cur_idx) list.range_desc list.cur_idx in
      let list' = record list { cur_idx = idx } in
      if idx == list.count
      then (list', none)
      else let desc = desc_at list idx in
        let blk_size = desc_blk_size desc in
        let addr = get_addr_from_desc desc in
        let moved = set_addr_in_desc desc ((addr + blk_size) % u64_mod) in
        (
          put_desc list' idx (decrement_block_count moved),
          some (record {
            block_addr = addr;
            rtt_level = xlat_table_level_max - get_sz_from_desc desc;
            state = get_st_from_desc desc;
          }),
        )

-- A contiguous range: base address, size in bytes and state.
pub record Contig : Type 0 where
  pub base_addr : ℕ
  pub total_size : ℕ
  pub state : ℕ

pub reduce_contig_block : AddrList → AddrList × Option Contig
reduce_contig_block list =
    let idx = skip_empty list.count list.range_desc 0 in
    if idx == list.count
    then (list, none)
    else let desc = desc_at list idx in
      (
        put_desc list idx (set_cnt_in_desc desc 0),
        some (record {
          base_addr = get_addr_from_desc desc;
          total_size = get_cnt_from_desc desc * desc_blk_size desc % u64_mod;
          state = get_st_from_desc desc;
        }),
      )

-- Base address, level, count and state of a descriptor.
pub record Peeked : Type 0 where
  pub base_addr : ℕ
  pub xlat_level : ℕ
  pub cnt : ℕ
  pub state : ℕ

pub peek_desc : AddrList → ℕ → Option Peeked
peek_desc list idx =
    if leb list.count idx
    then none
    else some (record {
      base_addr = get_addr_from_desc (desc_at list idx);
      xlat_level = xlat_table_level_max - get_sz_from_desc (desc_at list idx);
      cnt = get_cnt_from_desc (desc_at list idx);
      state = get_st_from_desc (desc_at list idx);
    })

-- IS_VALID_XLAT_BLOCK_SIZE
pub is_valid_xlat_block_size : ℕ → Bool
is_valid_xlat_block_size size =
    size == xlat_block_size xlat_table_level_max
    || size == xlat_block_size (xlat_table_level_max - 1)
    || size == xlat_block_size (xlat_table_level_max - 2)
    || size == xlat_block_size (xlat_table_level_max - 3)

-- The tests on one descriptor that has blocks.
pub desc_is_valid : Bool → ℕ → ℕ → Bool
desc_is_valid is_contig state desc =
    let contig_blk = desc_blk_size desc * get_cnt_from_desc desc % u64_mod in
    if not (is_aligned (get_addr_from_desc desc) (desc_blk_size desc))
    then false
    else if not (is_valid_xlat_block_size (desc_blk_size desc))
    then false
    else if ltb max_block_count (get_cnt_from_desc desc)
    then false
    else if not (state == conditional) && not (get_st_from_desc desc == state)
    then false
    else if state == conditional
        && not (get_st_from_desc desc == delegated)
        && not (get_st_from_desc desc == undelegated)
    then false
    else if is_contig && not (is_power_of_two contig_blk)
    then false
    else not (is_contig && not (is_aligned (get_addr_from_desc desc) contig_blk))

-- The loop over the descriptors, with the rounds that are left: `i`, `valid_count`, `total_mem`.
pub validate_from : ℕ → List ℕ → Bool → ℕ → ℕ → ℕ → ℕ → Option ℕ
validate_from zero descs is_contig state i valid_count total_mem = some total_mem
validate_from (suc rounds) descs is_contig state i valid_count total_mem =
    let desc = get_or descs i 0 in
    let skip = validate_from rounds descs is_contig state (i + 1) valid_count total_mem in
    let size = desc_blk_size desc * get_cnt_from_desc desc % u64_mod in
    let next =
      validate_from rounds descs is_contig state (i + 1) (valid_count + 1)
        ((total_mem + size) % u64_mod) in
    if get_cnt_from_desc desc == 0
    then skip
    else if is_contig && ltb 1 (valid_count + 1)
    then none
    else if desc_is_valid is_contig state desc
    then next
    else none

pub validate : AddrList → Bool → ℕ → Option ℕ
validate list is_contig state = validate_from list.count list.range_desc is_contig state 0 0 0

-- The list, the number of descriptors copied and the words that went to the host.
pub record Copied : Type 0 where
  pub list : AddrList
  pub copied : ℕ
  pub words : List ℕ

pub partial_copy_to_host : AddrList → ℕ → ℕ → Bool → Option Copied
partial_copy_to_host list ns_list_addr ns_list_count write_ok =
    let ns_list_offset = ns_list_addr % 4096 / 8 in
    let granule_remaining = u32 (addr_list_max_ranges + 2 ^ 32 - ns_list_offset) in
    let list_count = min (min list.count ns_list_count) granule_remaining in
    if not write_ok
    then none
    else some (record {
      list = record list {
        range_desc =
            take (list.count - list_count) (drop list_count list.range_desc)
            ++ drop (list.count - list_count) list.range_desc;
        count = list.count - list_count;
      };
      copied = list_count;
      words = take list_count list.range_desc;
    })

-- `host` holds the words that the read of `ns_list_count` descriptors gave, if it did not fault.
pub copy_from_host : AddrList → ℕ → Option (List ℕ) → Option AddrList
copy_from_host list ns_list_count none = none
copy_from_host list ns_list_count (some words) = some (record list {
  range_desc = take ns_list_count words ++ drop ns_list_count list.range_desc;
  count = ns_list_count;
})
