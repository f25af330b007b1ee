-- ===== src/Psci/Requests.antt =====
-- runtime/rsi/psci.c: what a PSCI call may change, and what the Host is told.
use tf_rmm.Common.{
  ℕ, ◌-◌, ◌≤◌, ◌≡◌, ◌≢◌, ◌⊎◌, true, false, Option, none, some, ◌++◌, get_or, take, replicate,
}
use tf_rmm.Realm.{set_rd_state, realm_system_off}
use tf_rmm.Rec.{
  Rec, rec_active_plane, rec_pending_psci_complete, addr_in_rec_par, map_mpidr_to_rec,
  mpidr_to_rec_mpidr,
}
use tf_rmm.Psci.{Call}
use tf_rmm.Psci.Values.{
  Function, cpu_off, cpu_on, system_off_reset, exits_to_host, exit_to_host, rmi_exit_psci,
  rec_exit_nr_gprs,
}

-- The MPIDR that a call of CPU_ON names.
abbrev pub target_mpidr : Call → ℕ
target_mpidr call = mpidr_to_rec_mpidr (get_or (rec_active_plane call.rec).regs 1 0)

-- The Host is told of an exit alone: its reason, the first arguments and otherwise zeros.
abbrev pub Notified : Call → Call → Type 0
Notified call after =
    ((exits_to_host after.res.action ≡ true)
      × (count : ℕ) × (count ≤ 2)
      × (after.rec_exit ≡ record {
        exit_reason = rmi_exit_psci;
        gprs =
            take count (rec_active_plane call.rec).regs ++ replicate (rec_exit_nr_gprs - count) 0;
      }))
    ⊎ ((exits_to_host after.res.action ≡ false) × (after.rec_exit ≡ call.rec_exit))

-- The REC is unchanged, or was turned off, or has a request pending for another REC of its Realm.
abbrev pub Changed : Function → Call → Call → Type 0
Changed function call after =
    (after.rec ≡ call.rec)
    ⊎ ((function ≡ cpu_off) × (after.rec ≡ record call.rec { runnable = false }))
    ⊎ ((function ≡ cpu_on)
        × (after.res.action ≡ exit_to_host)
        × (g : ℕ) × (map_mpidr_to_rec call.system.mpidr_rec_map (target_mpidr call) ≡ some g)
        × (target_mpidr call ≢ call.rec.mpidr)
        × (addr_in_rec_par call.rec (get_or (rec_active_plane call.rec).regs 2 0) ≡ true)
        × (after.rec
            ≡ record call.rec { target_rec_addr = g; pending_op = rec_pending_psci_complete }))

-- The Realm is unchanged, or is off.
abbrev pub RealmChanged : Function → Call → Call → Type 0
RealmChanged function call after =
    (after.system ≡ call.system)
    ⊎ ((function ≡ system_off_reset)
        × (after.system ≡ record call.system {
          state_and_count = set_rd_state call.system.state_and_count realm_system_off;
        }))

abbrev pub Handled : Function → Call → Option Call → Type 0
Handled function call none = ⊥
Handled function call (some after) =
    Notified call after × Changed function call after × RealmChanged function call after
