-- ===== src/Status/Tests.antt =====
-- lib/common/include/status.h: a result with an address, packed, and the packing functions run.
use tf_rmm.Common.{◌*◌, ◌+◌, ◌^◌, ◌≡◌, refl, arith, some}
use tf_rmm.Status.{
  ReturnCode, level_addr, make_return_code_level, make_return_code_level_addr,
  make_return_code_incomplete, pack_struct_return_code, pack_return_code_level,
  pack_return_code_level_addr, pack_return_code_incomplete, rmi_error_tracking, kind_of, pack_data,
  addr_fits,
}
use tf_rmm.Status.Packing.{IsResult, level_addr_fits, Packed, pack_struct_return_code-Packed}
use tf_rmm.Status.Made.{Packs, pack_return_code-Packs}

abbrev tracking_error : ReturnCode
tracking_error = record { status = rmi_error_tracking; result_data = level_addr 2 (2 ^ 31) }

tracking_error-IsResult : IsResult tracking_error
unfolding kind_of
tracking_error-IsResult = record {
  listed = omega arith;
  selected = level_addr_fits (omega arith) refl (omega arith);
}

pack_struct_return_code-Packed_example :
    Packed tracking_error (pack_struct_return_code tracking_error)
pack_struct_return_code-Packed_example =
    pack_struct_return_code-Packed tracking_error tracking_error-IsResult

pack_return_code-Packs_example :
    Packs (make_return_code_level 4 3) (pack_return_code_level 4 3)
    × Packs (make_return_code_level_addr 4 3 4096) (pack_return_code_level_addr 4 3 4096)
    × Packs (make_return_code_incomplete 2 1) (pack_return_code_incomplete 2 1)
pack_return_code-Packs_example = pack_return_code-Packs 4 3 4096 2 1 (omega arith) (omega arith)

packed_word : pack_struct_return_code tracking_error ≡ some (12 + 2 * 2 ^ 8 + 2 ^ 19 * 2 ^ 16)
unfolding pack_struct_return_code pack_data kind_of addr_fits
packed_word = refl
