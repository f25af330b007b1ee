-- ===== src/Status.antt =====
-- lib/common/include/status.h: the result of an RMI command, and its form in the register x0. The
-- assertions of the packing are `none`.
pub mod Words
pub mod Packing
pub mod Made
mod Tests
use tf_rmm.Common.{
  ℕ, ◌+◌, ◌*◌, ◌/◌, ◌%◌, ◌^◌, Bool, true, false, not, ◌&&◌, ◌||◌, ◌==◌, ltb, leb, if◌then◌else◌,
  bit_or, Option, none, some,
}
use tf_rmm.Utils.{inplace, extract, is_aligned, shl64}

abbrev pub rmi_success : ℕ
rmi_success = 0

abbrev pub rmi_error_input : ℕ
rmi_error_input = 1

abbrev pub rmi_error_rtt : ℕ
rmi_error_rtt = 4

abbrev pub rmi_error_rtt_aux : ℕ
rmi_error_rtt_aux = 7

abbrev pub rmi_error_psmmu_st : ℕ
rmi_error_psmmu_st = 8

abbrev pub rmi_error_dpt : ℕ
rmi_error_dpt = 9

abbrev pub rmi_error_tracking : ℕ
rmi_error_tracking = 12

abbrev pub rmi_incomplete : ℕ
rmi_incomplete = 13

abbrev pub rmi_blocked : ℕ
rmi_blocked = 14

abbrev pub rmi_error_gpt : ℕ
rmi_error_gpt = 15

abbrev pub rmi_error_count_max : ℕ
rmi_error_count_max = 17

abbrev pub rmi_op_mem_req_reclaim : ℕ
rmi_op_mem_req_reclaim = 2

abbrev pub rmi_op_can_cancel : ℕ
rmi_op_can_cancel = 1

-- The union of return_code_t by its active member; `null` where none is.
pub data ResultData : Type 0 where
  null : ResultData
  incomplete : ℕ → ℕ → ResultData
  level : ℕ → ResultData
  level_addr : ℕ → ℕ → ResultData

-- return_code_t
pub record ReturnCode : Type 0 where
  pub status : ℕ
  pub result_data : ResultData

-- Which member the switches on a status select.
pub data Kind : Type 0 where
  null_kind : Kind
  incomplete_kind : Kind
  level_kind : Kind
  level_addr_kind : Kind

unfoldable pub kind_of : ℕ → Kind
kind_of status =
    if status == rmi_incomplete
    then incomplete_kind
    else if status == rmi_error_rtt || status == rmi_error_rtt_aux || status == rmi_error_psmmu_st
    then level_kind
    else if status == rmi_error_dpt || status == rmi_error_gpt || status == rmi_error_tracking
    then level_addr_kind
    else null_kind

abbrev pub make_return_code : ℕ → ReturnCode
make_return_code status = record { status = status % 2 ^ 8; result_data = null }

unfoldable pub make_return_code_level : ℕ → ℕ → Option ReturnCode
make_return_code_level status lvl =
    if status == rmi_error_rtt || status == rmi_error_rtt_aux || status == rmi_error_psmmu_st
    then some (record (make_return_code status) { result_data = level lvl })
    else none

-- The assertions on an address.
unfoldable pub addr_fits : ℕ → Bool
addr_fits addr = is_aligned addr (2 ^ 12) && ltb (addr / 2 ^ 12) (2 ^ 40)

unfoldable pub make_return_code_level_addr : ℕ → ℕ → ℕ → Option ReturnCode
make_return_code_level_addr status lvl addr =
    if (status == rmi_error_dpt || status == rmi_error_gpt || status == rmi_error_tracking)
      && addr_fits addr
    then some (record (make_return_code status) { result_data = level_addr lvl addr })
    else none

unfoldable pub make_return_code_incomplete : ℕ → ℕ → Option ReturnCode
make_return_code_incomplete mem cancel =
    if leb mem rmi_op_mem_req_reclaim && leb cancel rmi_op_can_cancel
    then some (record (make_return_code rmi_incomplete) {
      result_data = incomplete (mem % 2 ^ 8) (cancel % 2 ^ 8);
    })
    else none

-- The fields that the switch packs over the status. A member that is not the active one is `none`.
unfoldable pub pack_data : Kind → ℕ → ResultData → Option ℕ
pack_data null_kind result d = some result
pack_data incomplete_kind result (incomplete mem cancel) =
    if leb mem rmi_op_mem_req_reclaim && leb cancel rmi_op_can_cancel
    then some (bit_or (bit_or result (inplace 8 mem)) (inplace 10 cancel))
    else none
pack_data level_kind result (level lvl) = some (bit_or result (inplace 8 lvl))
pack_data level_addr_kind result (level_addr lvl addr) =
    if addr_fits addr
    then some (bit_or (bit_or result (inplace 8 lvl)) (inplace 16 (addr / 2 ^ 12)))
    else none
pack_data kind result d = none

unfoldable pub pack_struct_return_code : ReturnCode → Option ℕ
pack_struct_return_code return_code =
    let result = inplace 0 return_code.status in
    if ltb return_code.status rmi_error_count_max
    then pack_data (kind_of return_code.status) result return_code.result_data
    else none

unfoldable pub unpack_data : Kind → ℕ → ResultData
unpack_data null_kind error_code = null
unpack_data incomplete_kind error_code =
    incomplete (extract 8 2 error_code) (extract 10 1 error_code)
unpack_data level_kind error_code = level (extract 8 8 error_code)
unpack_data level_addr_kind error_code =
    level_addr (extract 8 8 error_code) (shl64 (extract 16 40 error_code) 12)

unfoldable pub unpack_return_code : ℕ → ReturnCode
unpack_return_code error_code =
    let status = extract 0 8 error_code in
    record (make_return_code status) { result_data = unpack_data (kind_of status) error_code }

unfoldable pub pack_return_code_level_addr : ℕ → ℕ → ℕ → Option ℕ
pack_return_code_level_addr status lvl addr = elim (make_return_code_level_addr status lvl addr) [
  | none ↦ none
  | some return_code ↦ pack_struct_return_code return_code
]

unfoldable pub pack_return_code_level : ℕ → ℕ → Option ℕ
pack_return_code_level status lvl = elim (make_return_code_level status lvl) [
  | none ↦ none
  | some return_code ↦ pack_struct_return_code return_code
]

unfoldable pub pack_return_code_incomplete : ℕ → ℕ → Option ℕ
pack_return_code_incomplete mem cancel = elim (make_return_code_incomplete mem cancel) [
  | none ↦ none
  | some return_code ↦ pack_struct_return_code return_code
]
