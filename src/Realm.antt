-- ===== src/Realm.antt =====
-- runtime/include/realm.h: the word of an RD that packs the Realm's state, in bits 63 and 62, with the
-- number of its RECs that are entered. A loop that ends once a compare-and-swap succeeds is the step
-- from the value that the swap found, since it found what the loop's last round had read.
pub mod Entered
use tf_rmm.Common.{
  ℕ, ◌+◌, ◌-◌, ◌*◌, ◌/◌, ◌%◌, ◌^◌, bit_and, bit_or, Bool, true, false, not, ◌==◌, if◌then◌else◌,
  Option, none, some,
}
use tf_rmm.Utils.{shl64, u64_mod}

abbrev pub realm_new : ℕ
realm_new = 0

abbrev pub realm_active : ℕ
realm_active = 1

abbrev pub realm_system_off : ℕ
realm_system_off = 2

abbrev pub realm_zombie : ℕ
realm_zombie = 3

-- RD_STATE_SHIFT and RD_COUNT_MASK
abbrev pub rd_state_shift : ℕ
rd_state_shift = 62

abbrev pub rd_count_mask : ℕ
rd_count_mask = 2 ^ 62 - 1

-- RD_PACK_SC, RD_UNPACK_STATE and RD_UNPACK_COUNT
unfoldable pub rd_pack_sc : ℕ → ℕ → ℕ
rd_pack_sc s c = bit_or (shl64 s rd_state_shift) c

unfoldable pub rd_unpack_state : ℕ → ℕ
rd_unpack_state v = v / 2 ^ rd_state_shift

unfoldable pub rd_unpack_count : ℕ → ℕ
rd_unpack_count v = bit_and v rd_count_mask

pub set_rd_state : ℕ → ℕ → ℕ
set_rd_state old state = rd_pack_sc state (rd_unpack_count old)

-- The word after the compare-and-swap, and whether it took place.
unfoldable pub rd_cas_state_if_count_zero : ℕ → ℕ → ℕ → ℕ × Bool
rd_cas_state_if_count_zero word expected_state new_state =
    if word == rd_pack_sc expected_state 0 then (rd_pack_sc new_state 0, true) else (word, false)

-- `none` where the assertion against an overflow of the count fails.
unfoldable pub rd_active_rec_count_inc_if_active : ℕ → Option (ℕ × Bool)
rd_active_rec_count_inc_if_active old =
    let new_val = (old + 1) % u64_mod in
    if not (rd_unpack_state old == realm_active)
    then some (old, false)
    else if rd_unpack_state new_val == realm_active
    then some (new_val, true)
    else none

-- `none` where the assertion that the count was positive fails.
unfoldable pub rd_active_rec_count_dec : ℕ → Option ℕ
rd_active_rec_count_dec old =
    if rd_unpack_count old == 0 then none else some ((old + (u64_mod - 1)) % u64_mod)
