-- ===== src/Tests.antt =====
-- lib/arch, lib/common, lib/sarray, runtime/include and the version handlers: runs of the operations on small values.
use tf_rmm.Common.{
  ℕ, ◌+◌, ◌-◌, ◌*◌, ◌^◌, ◌≡◌, ◌↔◌, refl, arith, true, false, some, List, [], ◌∷◌, replicate, length,
  length-replicate, get_or,
}
use tf_rmm.Utils.{is_power_of_two}
use tf_rmm.Utils.Powers.{is_power_of_two_iff}
use tf_rmm.Atomics.{bit_set, fake_bit_set, fake_bit_set-high}
use tf_rmm.Vmid.{vmid_count, vmid_alloc, vmid_free, vmid_reserve, vmid_array_long_size}
use tf_rmm.Vmid.Usage.{Freed, Reserved, vmid_free-Freed, vmid_reserve-Reserved}
use tf_rmm.Vmid.Alloc.{Allocated, vmid_alloc-Allocated}
use tf_rmm.Sarray.{
  Sarray, sarray_lookup_locked, sarray_insert_locked, sarray_delete_locked, verify_sarray_hnd,
}
use tf_rmm.Sarray.Order.{find}
use tf_rmm.Sarray.Search.{IsValid, entries, lookup-find}
use tf_rmm.Sarray.Insert.{Inserted, insert-Inserted}
use tf_rmm.Sarray.Delete.{Deleted, delete-Deleted}
use tf_rmm.Mec.{Mec, mecid_alloc, mecid_free, mecid_shared}
use tf_rmm.Mec.Shared.{SharedAllocated, SharedFreed, shared-SharedAllocated}
use tf_rmm.Realm.{
  rd_pack_sc, rd_unpack_state, rd_unpack_count, realm_active, realm_zombie,
  rd_cas_state_if_count_zero, rd_active_rec_count_inc_if_active, rd_active_rec_count_dec,
}
use tf_rmm.Realm.Entered.{
  Entries, Step, refuse, Later, now, after, Reachable, Counted, Reachable-Counted, terminate-idle,
  rd_active_rec_count_dec_lem,
}
use tf_rmm.Version.{
  rmi_revisions_supported, rsi_revisions_supported, smc_version, handle_rsi_version,
}
use tf_rmm.Version.Negotiate.{Negotiated, version-Negotiated}
use tf_rmm.Rec.{
  Rec, RecPlane, rec_active_plane, rec_mpidr_is_valid, mpidr_to_rec_mpidr, rec_mpidr_to_mpidr,
}
use tf_rmm.Rec.Mpidr.{mpidr_roundtrip}

is_power_of_two_example : (is_power_of_two 4096 ≡ true) ↔ ((k : ℕ) × (4096 ≡ 2 ^ k))
is_power_of_two_example = is_power_of_two_iff 4096

fake_bit_set_example :
    ((fake_bit_set (2 ^ 20) 20).0 ≡ (bit_set (2 ^ 20) 20).0)
    × ((fake_bit_set (2 ^ 20) 20).1 ≡ false)
fake_bit_set_example = fake_bit_set-high (2 ^ 20) 20 (omega arith) (omega arith)

-- Identifiers 0 to 63 are in use.
abbrev first_word : List ℕ
first_word = (2 ^ 64 - 1) ∷ replicate 1023 0

first_word-length : length first_word ≡ vmid_array_long_size
first_word-length = omega (arith, length-replicate {A = ℕ} 1023 0)

vmid_alloc_example : Allocated first_word (vmid_count false) (vmid_alloc false first_word)
vmid_alloc_example = vmid_alloc-Allocated false first_word first_word-length

vmid_free_example : Freed first_word 256 5 (vmid_free false first_word 5)
vmid_free_example = vmid_free-Freed false first_word 5 first_word-length

vmid_reserve_example : Reserved first_word (vmid_count true) 64 (vmid_reserve true first_word 64)
vmid_reserve_example = vmid_reserve-Reserved true first_word 64 first_word-length

-- Three elements of at most four.
abbrev three_elems : Sarray ℕ
three_elems = record {
  base = 4096;
  elem_sz = 16;
  max_elems = 4;
  num_elems = 3;
  mem = (2, 20) ∷ (5, 50) ∷ (9, 90) ∷ (0, 0) ∷ [];
}

three_elems-IsValid : IsValid three_elems
unfolding verify_sarray_hnd
three_elems-IsValid =
    (refl, refl, ((omega arith, (omega arith, tt)), ((omega arith, tt), (tt, tt))))

lookup_example : sarray_lookup_locked three_elems 16 5 ≡ find 5 (entries three_elems)
lookup_example = lookup-find three_elems 5 three_elems-IsValid

insert_example : Inserted three_elems 7 8192 70 (sarray_insert_locked three_elems 16 7 8192 70)
insert_example = insert-Inserted three_elems 7 8192 70 three_elems-IsValid

delete_example :
    Deleted three_elems 2 (some 8192) (sarray_delete_locked three_elems 16 2 (some 8192))
delete_example = delete-Deleted three_elems 2 (some 8192) three_elems-IsValid

mpidr_roundtrip_example :
    (mpidr_to_rec_mpidr (rec_mpidr_to_mpidr (2 ^ 24 + 3)) ≡ 2 ^ 24 + 3)
    × (rec_mpidr_is_valid (mpidr_to_rec_mpidr (2 ^ 32 + 31)) ≡ true)
unfolding rec_mpidr_is_valid
mpidr_roundtrip_example = mpidr_roundtrip (2 ^ 24 + 3) (2 ^ 32 + 31) (omega arith) refl

-- A Realm that was activated and that one REC entered.
one_entered : Reachable (record { word = 2 ^ 62 + 1; entered = 1 })
unfolding rd_pack_sc rd_active_rec_count_inc_if_active rd_unpack_state
one_entered = Reachable.next (Reachable.created {s = realm_active} (omega arith)) (Step.enter refl)

-- The same after the REC left.
idle_again : Reachable (record { word = 2 ^ 62; entered = 0 })
unfolding rd_active_rec_count_dec rd_unpack_count
idle_again = Reachable.next one_entered (Step.leave refl)

reachable_example : Counted (record { word = 2 ^ 62 + 1; entered = 1 })
reachable_example = Reachable-Counted one_entered

terminated :
    rd_cas_state_if_count_zero (2 ^ 62) (rd_unpack_state (2 ^ 62)) realm_zombie ≡ (3 * 2 ^ 62, true)
unfolding rd_cas_state_if_count_zero rd_unpack_state rd_pack_sc
terminated = refl

abbrev no_one : ℕ
no_one = 0

-- The zombie, and an entry that it refuses.
abbrev zombie : Entries
zombie = record { word = 3 * 2 ^ 62; entered = no_one }

refused_entry : Later zombie zombie
unfolding rd_active_rec_count_inc_if_active rd_unpack_state
refused_entry = after now (refuse refl) refl

terminate-idle_example :
    (no_one ≡ 0)
    × (no_one ≡ 0)
    × (rd_unpack_state (3 * 2 ^ 62) ≡ realm_zombie)
    × (rd_active_rec_count_inc_if_active (3 * 2 ^ 62) ≡ some (3 * 2 ^ 62, false))
terminate-idle_example = terminate-idle idle_again terminated refused_entry

dec_example :
    (w' : ℕ) × (rd_active_rec_count_dec (2 ^ 62 + 1) ≡ some w')
    × (rd_unpack_state w' ≡ rd_unpack_state (2 ^ 62 + 1))
dec_example = rd_active_rec_count_dec_lem one_entered

abbrev no_regs : RecPlane
no_regs = record { regs = 0 ∷ 7 ∷ []; pstate = 0; pc = 0 }

abbrev some_rec : Rec
some_rec = record {
  g_rec = 8192;
  mpidr = 0;
  runnable = true;
  active_plane_id = 0;
  plane0 = no_regs;
  plane1 = no_regs;
  sctlr_el1 = 0 ∷ [];
  pending_op = 0;
  target_rec_addr = 0;
  g_rd = 4096;
  ipa_bits = 40;
}

version_example :
    Negotiated rmi_revisions_supported (2 ^ 17) (smc_version (2 ^ 17))
    × Negotiated rsi_revisions_supported
        (get_or (rec_active_plane some_rec).regs 1 0)
        (handle_rsi_version some_rec)
version_example = version-Negotiated (2 ^ 17) some_rec

-- One member of the shared MECID, whose key was refreshed for it.
abbrev one_member : Mec
one_member = record {
  is_feat_mec_present = true;
  reserved_ids = 1;
  common_mecid_width = 16;
  shared_mec_members = 1;
  mec_reserved = 3 ∷ replicate 1023 0;
  refreshes = (1, false) ∷ [];
}

shared_example :
    SharedAllocated one_member (mecid_alloc one_member true)
    × SharedFreed one_member (mecid_free one_member (mecid_shared one_member))
shared_example = shared-SharedAllocated one_member refl refl
