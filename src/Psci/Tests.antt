-- ===== src/Psci/Tests.antt =====
-- runtime/rsi/psci.c: runs of the calls in a Realm of two RECs.
use tf_rmm.Common.{
  ℕ, ◌+◌, ◌*◌, ◌^◌, ◌≡◌, refl, ap, ◌∙◌, arith, Bool, true, false, ◌||◌, ◌==◌, if◌then◌else◌, some,
  List, [], ◌∷◌, replicate,
}
use tf_rmm.Sarray.{
  Sarray, sarray_lookup_locked, binary_search_internal, search_between, verify_sarray_access,
  verify_sarray_hnd,
}
use tf_rmm.Rec.{Rec, RecPlane, rec_active_plane, map_mpidr_to_rec, mpidr_to_rec_mpidr}
use tf_rmm.Psci.{Call, psci_function_id, return_to_realm, psci_affinity_info, psci_cpu_off}
use tf_rmm.Status.{rmi_error_input, rmi_success}
use tf_rmm.Psci.Values.{
  cpu_on, function_of, is_supported, smc64_psci_fid, smc32_psci_fid, smccc_version,
  psci_return_success, psci_return_denied, psci_affinity_info_on, psci_affinity_info_off,
  update_rec_return_to_realm,
}
use tf_rmm.Psci.Features.{is_known, features-function_of}
use tf_rmm.Psci.Complete.{
  psci_complete_request, psci_complete_denied_request, psci_target_rec_matches,
}
use tf_rmm.Psci.Complete.Outcome.{
  is_due, is_on, verdict, started, answered, complete-verdict, complete-once,
}
use tf_rmm.Psci.Power.{affinity_info-cpu_off, affinity_info-cpu_on}

-- A plane whose first registers are given.
abbrev plane : List ℕ → RecPlane
plane regs = record { regs = regs; pstate = 0; pc = 0 }

-- A REC of the Realm at 4096, with the MPIDR and the registers of plane 0.
abbrev rec_of : ℕ → Bool → ℕ → List ℕ → Rec
rec_of mpidr runnable pending_op regs = record {
  g_rec = 4096 * (mpidr + 2);
  mpidr = mpidr;
  runnable = runnable;
  active_plane_id = 0;
  plane0 = plane regs;
  plane1 = plane [];
  sctlr_el1 = 0 ∷ [];
  pending_op = pending_op;
  target_rec_addr = 0;
  g_rd = 4096;
  ipa_bits = 40;
}

-- REC 0 calls CPU_ON for REC 1, from the address 65536 with the context 7.
abbrev caller : Rec
caller = rec_of 0 true 0 (smc64_psci_fid 3 ∷ 1 ∷ 65536 ∷ 7 ∷ [])

abbrev pending_caller : Rec
pending_caller = rec_of 0 true 1 (smc64_psci_fid 3 ∷ 1 ∷ 65536 ∷ 7 ∷ [])

abbrev target : Rec
target = rec_of 1 false 0 (replicate 31 0)

abbrev rec_map : Sarray ℕ
rec_map = record {
  base = 8;
  elem_sz = 16;
  max_elems = 4;
  num_elems = 2;
  mem = (0, 8192) ∷ (1, 12288) ∷ (0, 0) ∷ (0, 0) ∷ [];
}

abbrev call_of : Rec → Rec → Call
call_of rec other = record {
  system = record {
    rd_granule_state = 2;
    state_and_count = 2 ^ 62 + 1;
    mpidr_rec_map = rec_map;
    granule = λ address. record { state = 3; refcount = 0; rec = other };
  };
  rec = rec;
  rec_exit = record { exit_reason = 0; gprs = replicate 31 0 };
  res = record { action = update_rec_return_to_realm; x0 = 0 };
}

features_example :
    is_supported (smc32_psci_fid 4)
    ≡ (is_known (function_of (smc32_psci_fid 4)) || smc32_psci_fid 4 == smccc_version)
features_example = features-function_of (smc32_psci_fid 4)

calls_cpu_on : function_of (psci_function_id (rec_active_plane pending_caller)) ≡ cpu_on
unfolding function_of psci_function_id rec_active_plane
calls_cpu_on = refl

complete_example :
    psci_complete_request (λ g. 0) pending_caller target psci_return_success
    ≡ some (
        if is_due pending_caller target psci_return_success
        then verdict
            (is_on (λ g. 0) target)
            (psci_return_success == psci_return_denied)
            pending_caller
            target
        else (pending_caller, target, rmi_error_input))
complete_example =
    complete-verdict (λ g. 0) pending_caller target psci_return_success refl calls_cpu_on

due : is_due pending_caller target psci_return_success ≡ true
unfolding psci_target_rec_matches rec_active_plane mpidr_to_rec_mpidr
due = refl

completed :
    psci_complete_request (λ g. 0) pending_caller target psci_return_success
    ≡ some (answered pending_caller psci_return_success, started pending_caller target, rmi_success)
completed =
    complete_example
    ∙ ap
        (λ c. some (
          if c
          then (
            answered pending_caller psci_return_success,
            started pending_caller target,
            rmi_success,
          )
          else (pending_caller, target, rmi_error_input)))
        due

complete-once_example :
    (psci_complete_request
        (λ g. 0)
        (answered pending_caller psci_return_success)
        caller
        psci_return_denied
      ≡ some (answered pending_caller psci_return_success, caller, rmi_error_input))
    × (psci_complete_denied_request (answered pending_caller psci_return_success)
        ≡ some (answered pending_caller psci_return_success, rmi_error_input))
complete-once_example =
    complete-once (λ g. 0) (λ g. 0) pending_caller target psci_return_success
      (answered pending_caller psci_return_success) (started pending_caller target) caller
      rmi_success psci_return_denied refl calls_cpu_on due completed

-- REC 0 asks for the affinity of REC 1.
abbrev asker : Rec
asker = rec_of 0 true 0 (smc64_psci_fid 4 ∷ 1 ∷ 0 ∷ 0 ∷ [])

abbrev off_call : Call
off_call = call_of (rec_of 1 true 0 (smc32_psci_fid 2 ∷ [])) caller

abbrev asks_off : Call
asks_off = call_of asker (psci_cpu_off off_call).rec

found_1 : map_mpidr_to_rec rec_map (mpidr_to_rec_mpidr 1) ≡ some 12288
unfolding map_mpidr_to_rec sarray_lookup_locked binary_search_internal search_between
    verify_sarray_access verify_sarray_hnd mpidr_to_rec_mpidr
found_1 = refl

affinity_info-cpu_off_example :
    psci_affinity_info asks_off ≡ some (return_to_realm asks_off psci_affinity_info_off)
unfolding psci_cpu_off mpidr_to_rec_mpidr rec_active_plane
affinity_info-cpu_off_example =
    affinity_info-cpu_off asks_off 12288 refl (omega arith) refl found_1 refl refl refl off_call
      refl refl

abbrev asks_on : Call
asks_on = call_of asker (started pending_caller target)

affinity_info-cpu_on_example :
    psci_affinity_info asks_on ≡ some (return_to_realm asks_on psci_affinity_info_on)
unfolding mpidr_to_rec_mpidr rec_active_plane
affinity_info-cpu_on_example =
    affinity_info-cpu_on asks_on 12288 refl (omega arith) refl found_1 refl refl refl (λ g. 0)
      pending_caller target (answered pending_caller psci_return_success)
      (started pending_caller target) rmi_success refl calls_cpu_on due refl completed refl
