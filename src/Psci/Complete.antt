-- ===== src/Psci/Complete.antt =====
-- runtime/rsi/psci.c: the completion of a CPU_ON request by the Host. `refcount` gives the reference
-- count of the granule at an address. `none` stands for an assertion that fails.
pub mod Outcome
use tf_rmm.Common.{
  ℕ, ◌+◌, ◌-◌, ◌*◌, ◌^◌, bit_and, bit_or, Bool, true, false, not, ◌&&◌, ◌||◌, ◌==◌, if◌then◌else◌,
  Option, none, some, List, [], ◌∷◌, get_or, set,
}
use tf_rmm.Rec.{
  Rec, RecPlane, rec_active_plane, put_active_plane, rec_set_pending_op, rec_pending_none,
  rec_pending_psci_complete, plane_0_id, mpidr_to_rec_mpidr,
}
use tf_rmm.Psci.{psci_function_id}
use tf_rmm.Status.{rmi_success, rmi_error_input}
use tf_rmm.Psci.Values.{
  Function, cpu_on, function_of, psci_return_success, psci_return_denied, psci_return_already_on,
}

-- SPSR_EL2_MODE_EL1h, AArch64, and the F, I, A and D bits
abbrev pub reset_pstate : ℕ
reset_pstate = 5 + 2 ^ 6 + 2 ^ 7 + 2 ^ 8 + 2 ^ 9

-- SCTLR_EL1_FLAGS: SA, SA0, CP15BEN, nAA, EOS, nTWI, nTWE, EIS, SPAN
abbrev pub sctlr_el1_flags : ℕ
sctlr_el1_flags = 2 ^ 3 + 2 ^ 4 + 2 ^ 5 + 2 ^ 6 + 2 ^ 11 + 2 ^ 16 + 2 ^ 18 + 2 ^ 22 + 2 ^ 23

abbrev pub sctlr_elx_ee_bit : ℕ
sctlr_elx_ee_bit = 2 ^ 25

-- On plane 0 of the REC and its saved registers.
pub psci_reset_rec : Rec → ℕ → Rec
psci_reset_rec target caller_sctlr_el1 = record target {
  plane0 = record target.plane0 { pstate = reset_pstate };
  sctlr_el1 =
      set target.sctlr_el1 plane_0_id
        (bit_or sctlr_el1_flags (bit_and caller_sctlr_el1 sctlr_elx_ee_bit));
}

pub complete_psci_cpu_on : (ℕ → ℕ) → Rec → ℕ → ℕ → ℕ → ℕ → Rec × ℕ
complete_psci_cpu_on refcount target entry_point_address context_id caller_sctlr_el1 status =
    let reset = psci_reset_rec target caller_sctlr_el1 in
    if not (refcount target.g_rec == 0) || target.runnable
    then (target, psci_return_already_on)
    else if status == psci_return_denied
    then (target, psci_return_denied)
    else (
      record reset {
        plane0 = record reset.plane0 {
          regs = set reset.plane0.regs 0 context_id;
          pc = entry_point_address;
        };
        runnable = true;
      },
      psci_return_success,
    )

-- The result in X0, and X1 to X3 cleared.
abbrev pub put_results : List ℕ → ℕ → List ℕ
put_results regs x0 = set (set (set (set regs 0 x0) 1 0) 2 0) 3 0

-- The registers of the active plane written, and `rec_set_pending_op` with REC_PENDING_NONE.
pub finish : Rec → ℕ → Option Rec
finish calling x0 =
    let plane = rec_active_plane calling in
    rec_set_pending_op
      (put_active_plane calling (record plane { regs = put_results plane.regs x0 }))
      rec_pending_none

pub is_cpu_on : Function → Bool
is_cpu_on cpu_on = true
is_cpu_on other = false

pub psci_complete_denied_request : Rec → Option (Rec × ℕ)
psci_complete_denied_request calling =
    let function = function_of (psci_function_id (rec_active_plane calling)) in
    if not (calling.active_plane_id == plane_0_id)
    then none
    else if not (calling.pending_op == rec_pending_psci_complete)
    then some (calling, rmi_error_input)
    else if not (is_cpu_on function)
    then some (calling, rmi_error_input)
    else elim (finish calling psci_return_denied) [
      | none ↦ none
      | some calling' ↦ some (calling', rmi_success)
    ]

-- The assertion that the caller runs plane 0 is that of the callers.
unfoldable pub psci_target_rec_matches : Rec → Rec → Bool
psci_target_rec_matches calling target =
    calling.g_rd == target.g_rd
    && mpidr_to_rec_mpidr (get_or (rec_active_plane calling).regs 1 0) == target.mpidr

pub psci_complete_request : (ℕ → ℕ) → Rec → Rec → ℕ → Option (Rec × Rec × ℕ)
psci_complete_request refcount calling target status =
    let plane = rec_active_plane calling in
    let (target', rec_ret) =
      complete_psci_cpu_on refcount target (get_or plane.regs 2 0) (get_or plane.regs 3 0)
        (get_or calling.sctlr_el1 calling.active_plane_id 0) status in
    let ret =
      if status == psci_return_denied && rec_ret == psci_return_already_on
      then rmi_error_input
      else rmi_success in
    if not (calling.active_plane_id == plane_0_id)
    then none
    else if not (calling.pending_op == rec_pending_psci_complete)
    then some (calling, target, rmi_error_input)
    else if not (psci_target_rec_matches calling target)
    then some (calling, target, rmi_error_input)
    else if not (is_cpu_on (function_of (psci_function_id plane)))
    then none
    else if not (status == psci_return_success) && not (status == psci_return_denied)
    then some (calling, target, rmi_error_input)
    else elim (finish calling rec_ret) [
      | none ↦ none
      | some calling' ↦ some (calling', target', ret)
    ]
