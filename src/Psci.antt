-- ===== src/Psci.antt =====
-- runtime/rsi/psci.c: the PSCI calls of a Realm. A handler takes the state that the source reaches
-- through its pointers, a `Call`, and returns the new one, or `none` where an assertion fails. The
-- bound that `forward_args_to_host` asserts holds of the literals its callers pass. RD and REC locks
-- are held between a read of a granule and its use, so each handler is one step.
pub mod Values
pub mod Complete
pub mod Features
pub mod Requests
pub mod Power
mod Tests
use tf_rmm.Common.{
  ℕ, ◌+◌, ◌-◌, ◌*◌, ◌/◌, ◌%◌, ◌^◌, bit_and, bit_or, Bool, true, false, not, ◌&&◌, ◌||◌, ◌==◌, ltb,
  if◌then◌else◌, Option, none, some, List, [], ◌∷◌, ◌++◌, get_or, take, replicate,
}
use tf_rmm.Sarray.{Sarray}
use tf_rmm.Realm.{set_rd_state, realm_system_off}
use tf_rmm.Rec.{
  Rec, RecPlane, rec_active_plane, rec_set_pending_op, rec_pending_psci_complete, addr_in_rec_par,
  map_mpidr_to_rec, mpidr_to_rec_mpidr,
}
use Values.{
  Function, version, cpu_suspend, cpu_off, cpu_on, affinity_info, system_off_reset, features,
  unknown, function_of, is_supported, psci_return_success, psci_return_not_supported,
  psci_return_invalid_params, psci_return_already_on, psci_return_internal_failure,
  psci_return_invalid_address, psci_affinity_info_on, psci_affinity_info_off, rmi_exit_psci,
  rec_exit_nr_gprs, Action, update_rec_return_to_realm, exit_to_host, update_rec_exit_to_host,
  exits_to_host,
}
use tf_rmm.Granule.States.{granule_state_rd, granule_state_rec}

-- The part of struct rmi_rec_exit that PSCI writes.
pub record RecExit : Type 0 where
  pub exit_reason : ℕ
  pub gprs : List ℕ

-- struct rsi_result, with x[0] of its smc_res
pub record RsiResult : Type 0 where
  pub action : Action
  pub x0 : ℕ

-- A granule that may hold a REC: its descriptor's state and reference count, and the REC.
pub record RecGranule : Type 0 where
  pub state : ℕ
  pub refcount : ℕ
  pub rec : Rec

-- The Realm that the caller belongs to, and the granules by address.
pub record System : Type 0 where
  pub rd_granule_state : ℕ
  pub state_and_count : ℕ
  pub mpidr_rec_map : Sarray ℕ
  pub granule : ℕ → RecGranule

pub record Call : Type 0 where
  pub system : System
  pub rec : Rec
  pub rec_exit : RecExit
  pub res : RsiResult

pub forward_args_to_host : ℕ → RecPlane → RecExit → RecExit
forward_args_to_host count plane rec_exit = record rec_exit {
  gprs = take count plane.regs ++ replicate (rec_exit_nr_gprs - count) 0;
}

-- `res->action` and `res->smc_res.x[0]` set.
abbrev pub answer : Call → Action → ℕ → Call
answer call action x0 = record call { res = record { action = action; x0 = x0 } }

abbrev pub return_to_realm : Call → ℕ → Call
return_to_realm call x0 = answer call update_rec_return_to_realm x0

-- `res->action` set, and x[0] left.
abbrev pub act : Call → Action → Call
act call action = answer call action call.res.x0

abbrev pub forward : ℕ → Call → Call
forward count call = record call {
  rec_exit = forward_args_to_host count (rec_active_plane call.rec) call.rec_exit;
}

pub psci_version : Call → Call
psci_version call = return_to_realm call (bit_or (2 ^ 16) 1)

pub psci_cpu_suspend : Call → Call
psci_cpu_suspend call = answer (forward 1 call) update_rec_exit_to_host psci_return_success

pub psci_cpu_off : Call → Call
psci_cpu_off call =
    answer (forward 1 (record call { rec = record call.rec { runnable = false } }))
      update_rec_exit_to_host psci_return_success

-- The end of `psci_cpu_on`, with what `rec_set_pending_op` gives.
pub forward_cpu_on : Call → Option Rec → Option Call
forward_cpu_on call none = none
forward_cpu_on call (some rec) = some (act (forward 2 (record call { rec = rec })) exit_to_host)

-- What `psci_cpu_on` does once the target is looked up.
pub request_cpu_on : Call → Option ℕ → Option Call
request_cpu_on call none = some (return_to_realm call psci_return_invalid_params)
request_cpu_on call (some g_target_cpu) = forward_cpu_on call (
    rec_set_pending_op (record call.rec { target_rec_addr = g_target_cpu })
      rec_pending_psci_complete)

pub psci_cpu_on : Call → Option Call
psci_cpu_on call =
    let plane = rec_active_plane call.rec in
    let target_rec_mpidr = mpidr_to_rec_mpidr (get_or plane.regs 1 0) in
    let requested =
      request_cpu_on call (map_mpidr_to_rec call.system.mpidr_rec_map target_rec_mpidr) in
    if not (addr_in_rec_par call.rec (get_or plane.regs 2 0))
    then some (return_to_realm call psci_return_invalid_address)
    else if target_rec_mpidr == call.rec.mpidr
    then some (return_to_realm call psci_return_already_on)
    else if not (call.system.rd_granule_state == granule_state_rd)
    then some (return_to_realm call psci_return_internal_failure)
    else requested

-- What `psci_affinity_info` reports of the granule that the map has for the MPIDR.
pub affinity_of : Call → ℕ → Option ℕ → ℕ
affinity_of call target_rec_mpidr none = psci_return_invalid_params
affinity_of call target_rec_mpidr (some g_target_rec) =
    let granule = call.system.granule g_target_rec in
    if not (granule.state == granule_state_rec)
    then psci_return_invalid_params
    else if not (granule.rec.g_rd == call.rec.g_rd) || not (granule.rec.mpidr == target_rec_mpidr)
    then psci_affinity_info_off
    else if not (granule.refcount == 0) || granule.rec.runnable
    then psci_affinity_info_on
    else psci_affinity_info_off

pub psci_affinity_info : Call → Option Call
psci_affinity_info call =
    let plane = rec_active_plane call.rec in
    let target_rec_mpidr = mpidr_to_rec_mpidr (get_or plane.regs 1 0) in
    let lowest_affinity_level = get_or plane.regs 2 0 in
    let g_target_rec = map_mpidr_to_rec call.system.mpidr_rec_map target_rec_mpidr in
    if not (lowest_affinity_level == 0)
    then some (return_to_realm call psci_return_invalid_params)
    else if target_rec_mpidr == call.rec.mpidr
    then some (return_to_realm call psci_affinity_info_on)
    else if not (call.system.rd_granule_state == granule_state_rd)
    then none
    else some (return_to_realm call (affinity_of call target_rec_mpidr g_target_rec))

pub system_off_reboot : System → Option System
system_off_reboot system =
    if not (system.rd_granule_state == granule_state_rd)
    then none
    else some
        record system { state_and_count = set_rd_state system.state_and_count realm_system_off }

pub forward_system_off : Call → Option System → Option Call
forward_system_off call none = none
forward_system_off call (some system) =
    some (act (forward 1 (record call { system = system })) exit_to_host)

pub psci_system_off_reset : Call → Option Call
psci_system_off_reset call = forward_system_off call (system_off_reboot call.system)

-- The low 32 bits of X0.
pub psci_function_id : RecPlane → ℕ
psci_function_id plane = get_or plane.regs 0 0 % 2 ^ 32

pub psci_features : Call → Call
psci_features call =
    let psci_func_id = get_or (rec_active_plane call.rec).regs 1 0 % 2 ^ 32 in
    return_to_realm call
      (if is_supported psci_func_id then psci_return_success else psci_return_not_supported)

-- The switch of `handle_psci`.
pub dispatch : Function → Call → Option Call
dispatch version call = some (psci_version call)
dispatch cpu_suspend call = some (psci_cpu_suspend call)
dispatch cpu_off call = some (psci_cpu_off call)
dispatch cpu_on call = psci_cpu_on call
dispatch affinity_info call = psci_affinity_info call
dispatch system_off_reset call = psci_system_off_reset call
dispatch features call = some (psci_features call)
dispatch unknown call = some (return_to_realm call psci_return_not_supported)

-- The test after the switch.
pub note_exit : Call → Call
note_exit call =
    if exits_to_host call.res.action
    then record call { rec_exit = record call.rec_exit { exit_reason = rmi_exit_psci } }
    else call

abbrev pub noted : Option Call → Option Call
noted none = none
noted (some after) = some (note_exit after)

pub handle_psci : Call → Option Call
handle_psci call =
    noted (dispatch (function_of (psci_function_id (rec_active_plane call.rec))) call)
