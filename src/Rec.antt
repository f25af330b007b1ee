-- ===== src/Rec.antt =====
-- runtime/include/rec.h and runtime/include/realm.h: the parts of a REC, of its planes and of its Realm
-- that PSCI uses, and the two formats of an MPIDR. A granule is named by its address.
pub mod Mpidr
use tf_rmm.Common.{
  ℕ, ◌+◌, ◌-◌, ◌*◌, ◌/◌, ◌%◌, ◌^◌, bit_and, bit_or, Bool, true, false, not, ◌&&◌, ◌||◌, ◌==◌, ltb,
  if◌then◌else◌, Option, none, some, List, [], ◌∷◌, get_or, set,
}
use tf_rmm.Utils.{mask, not64, shl64}
use tf_rmm.Sarray.{Sarray, sarray_lookup_locked}

-- REC_PENDING_NONE and REC_PENDING_PSCI_COMPLETE
abbrev pub rec_pending_none : ℕ
rec_pending_none = 0

abbrev pub rec_pending_psci_complete : ℕ
rec_pending_psci_complete = 1

abbrev pub plane_0_id : ℕ
plane_0_id = 0

pub record RecPlane : Type 0 where
  pub regs : List ℕ
  pub pstate : ℕ
  pub pc : ℕ

-- `plane0` and `plane1` are the two elements of `plane[]`; `sctlr_el1` holds that register of each
-- plane's saved system registers.
pub record Rec : Type 0 where
  pub g_rec : ℕ
  pub mpidr : ℕ
  pub runnable : Bool
  pub active_plane_id : ℕ
  pub plane0 : RecPlane
  pub plane1 : RecPlane
  pub sctlr_el1 : List ℕ
  pub pending_op : ℕ
  pub target_rec_addr : ℕ
  pub g_rd : ℕ
  pub ipa_bits : ℕ

unfoldable pub rec_active_plane : Rec → RecPlane
rec_active_plane rec = if rec.active_plane_id == plane_0_id then rec.plane0 else rec.plane1

-- A write through the pointer that `rec_active_plane` gives.
unfoldable pub put_active_plane : Rec → RecPlane → Rec
put_active_plane rec plane =
    if rec.active_plane_id == plane_0_id
    then record rec { plane0 = plane }
    else record rec { plane1 = plane }

-- `none` where the assertion fails.
unfoldable pub rec_set_pending_op : Rec → ℕ → Option Rec
rec_set_pending_op rec pending_op =
    if pending_op == rec_pending_none || rec.pending_op == rec_pending_none
    then some record rec { pending_op = pending_op }
    else none

pub rec_par_size : Rec → ℕ
rec_par_size rec = shl64 1 rec.ipa_bits / 2

pub addr_in_rec_par : Rec → ℕ → Bool
addr_in_rec_par rec addr = ltb addr (rec_par_size rec)

-- sizeof(struct rec_map): the key and the address of the REC's granule
abbrev pub rec_map_sz : ℕ
rec_map_sz = 16

unfoldable pub map_mpidr_to_rec : Sarray ℕ → ℕ → Option ℕ
map_mpidr_to_rec mpidr_rec_map mpidr = elim (sarray_lookup_locked mpidr_rec_map rec_map_sz mpidr) [
  | none ↦ none
  | some entry ↦ some entry.1
]

-- MASK(MPIDR_EL1_AFF0) | MASK(MPIDR_EL1_AFF1) | MASK(MPIDR_EL1_AFF2), whose RMI fields stand alike.
abbrev pub low_affinities : ℕ
low_affinities = bit_or (bit_or (mask 0 4) (mask 8 8)) (mask 16 8)

abbrev pub mpidr_el1_aff3_shift : ℕ
mpidr_el1_aff3_shift = 32

abbrev pub rmi_mpidr_aff3_shift : ℕ
rmi_mpidr_aff3_shift = 24

unfoldable pub rec_mpidr_is_valid : ℕ → Bool
rec_mpidr_is_valid rec_mpidr =
    bit_and rec_mpidr (not64 (bit_or low_affinities (mask rmi_mpidr_aff3_shift 8))) == 0

unfoldable pub mpidr_to_rec_mpidr : ℕ → ℕ
mpidr_to_rec_mpidr mpidr = bit_or (bit_and mpidr low_affinities) (
    bit_and mpidr (mask mpidr_el1_aff3_shift 8) / 2 ^ (mpidr_el1_aff3_shift - rmi_mpidr_aff3_shift))

unfoldable pub rec_mpidr_to_mpidr : ℕ → ℕ
rec_mpidr_to_mpidr rec_mpidr = bit_or (bit_and rec_mpidr low_affinities) (
    shl64 (bit_and rec_mpidr (mask rmi_mpidr_aff3_shift 8))
      (mpidr_el1_aff3_shift - rmi_mpidr_aff3_shift))
