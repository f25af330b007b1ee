-- ===== src/AddrList/Tests.antt =====
-- lib/addr_list: runs of the operations on small lists.
use mathlib.Core.List.{Perm}
use tf_rmm.Common.{ℕ, ◌≡◌, refl, arith, true, some, [], ◌∷◌, length, take, drop, replicate}
use tf_rmm.AddrList.{
  AddrList, output, add_block, merge_block, reduce_first_block, validate, partial_copy_to_host,
  sort_by_addr,
}
use tf_rmm.AddrList.Desc.{
  create_desc, get_addr_from_desc, get_cnt_from_desc, get_sz_from_desc, get_st_from_desc,
  desc_blk_size, xlat_block_size, addr_list_sz_to_xlat_blk_sz, increment_block_count,
  set_addr_in_desc, set_cnt_in_desc, set_sz_in_desc, set_st_in_desc, xlat_blk_sz_to_addr_list_sz,
  desc_top_addr,
}
use tf_rmm.AddrList.Desc.Fields.{HasFields, create_desc_fields}
use tf_rmm.AddrList.Blocks.{IsDesc, IsValid}
use tf_rmm.AddrList.Merge.{Grown, merge_block-Grown}
use tf_rmm.AddrList.Add.{Offered, add_block-Offered}
use tf_rmm.AddrList.Reduce.{IsReady, Taken, reduce_first_block-Taken}
use tf_rmm.AddrList.Validate.{Validated, validate-Validated}
use tf_rmm.AddrList.Sort.{ByAddress, sort_by_addr-ByAddress}
use tf_rmm.AddrList.Copy.{Sent, partial_copy-Sent}

-- Two granules from the address 4096, undelegated.
abbrev two_granules : ℕ
two_granules = create_desc 4096 2 4096 1

abbrev one_desc : AddrList
one_desc = record {
  range_desc = two_granules ∷ replicate 511 0;
  count = 1;
  cur_idx = 0;
  max_count = 4;
  list_type = output;
}

two_granules-IsDesc : IsDesc two_granules
unfolding create_desc get_addr_from_desc get_cnt_from_desc get_st_from_desc get_sz_from_desc
    desc_blk_size set_addr_in_desc set_cnt_in_desc set_sz_in_desc set_st_in_desc
    xlat_blk_sz_to_addr_list_sz
two_granules-IsDesc = record { word = omega arith; aligned = refl; fits = omega arith }

one_desc-IsValid : IsValid one_desc
one_desc-IsValid = record {
  slots = refl;
  capped = omega arith;
  max_pos = omega arith;
  max_capped = omega arith;
  descs = (two_granules-IsDesc, tt);
}

one_desc-IsReady : IsReady one_desc
one_desc-IsReady = record { valid = one_desc-IsValid; cursor = omega arith; passed = tt }

two_granules_grow :
    merge_block two_granules 12288 4096 1 ≡ some (increment_block_count two_granules)
unfolding create_desc get_addr_from_desc get_cnt_from_desc get_st_from_desc get_sz_from_desc
    desc_blk_size set_addr_in_desc set_cnt_in_desc set_sz_in_desc set_st_in_desc
    xlat_blk_sz_to_addr_list_sz desc_top_addr merge_block
two_granules_grow = refl

add_block_example :
    Offered one_desc
      (record { base = 12288; size = xlat_block_size 3; state = 1 })
      (add_block one_desc 12288 3 1)
add_block_example =
    add_block-Offered one_desc 12288 3 1 one_desc-IsValid (omega arith) (omega arith) (omega arith)

reduce_first_block_example : Taken one_desc (reduce_first_block one_desc)
reduce_first_block_example = reduce_first_block-Taken one_desc one_desc-IsReady

validate_example : Validated true 1 one_desc (validate one_desc true 1)
validate_example = validate-Validated one_desc true 1 (omega arith) (two_granules-IsDesc.word, tt)

partial_copy_example : Sent one_desc 8192 1 (partial_copy_to_host one_desc 8192 1 true)
partial_copy_example = partial_copy-Sent one_desc 8192 1 one_desc-IsValid refl

merge_block_example : Grown two_granules (increment_block_count two_granules) 12288 4096 1
merge_block_example =
    merge_block-Grown two_granules (increment_block_count two_granules) 12288 4096 1
      two_granules-IsDesc refl (omega arith) two_granules_grow

create_desc_example : HasFields (create_desc 4096 2 (addr_list_sz_to_xlat_blk_sz 0) 1) 4096 2 0 1
create_desc_example =
    create_desc_fields 4096 2 0 1 (omega arith) (omega arith) (omega arith) (omega arith)

-- A descriptor of 8192 before one of 4096.
abbrev unsorted : AddrList
unsorted = record one_desc {
  range_desc =
      create_desc 8192 1 (addr_list_sz_to_xlat_blk_sz 0) 1
      ∷ create_desc 4096 1 (addr_list_sz_to_xlat_blk_sz 0) 1
      ∷ [];
  count = 2;
}

sort_by_addr_example :
    Perm (take 2 (sort_by_addr unsorted).range_desc) (take 2 unsorted.range_desc)
    × ByAddress (take 2 (sort_by_addr unsorted).range_desc)
    × (drop 2 (sort_by_addr unsorted).range_desc ≡ drop 2 unsorted.range_desc)
    × (length (sort_by_addr unsorted).range_desc ≡ 2)
    × ((sort_by_addr unsorted).count ≡ 2)
    × ((sort_by_addr unsorted).cur_idx ≡ 0)
sort_by_addr_example = sort_by_addr-ByAddress unsorted (omega arith)
