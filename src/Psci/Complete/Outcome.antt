-- ===== src/Psci/Complete/Outcome.antt =====
-- runtime/rsi/psci.c: what the completion of a CPU_ON request leaves in the two RECs.
use tf_rmm.Common.{
  ℕ, ◌≡◌, refl, arith, ap, sym, ◌∙◌, subst, Bool, true, false, not, ◌&&◌, ◌||◌, ◌==◌, if◌then◌else◌,
  Option, none, some, List, [], ◌∷◌, get_or, set, bit_and, bit_or,
}
use tf_rmm.Rec.{
  Rec, rec_active_plane, put_active_plane, rec_set_pending_op, rec_pending_none,
  rec_pending_psci_complete, plane_0_id, mpidr_to_rec_mpidr,
}
use tf_rmm.Psci.{psci_function_id}
use tf_rmm.Status.{rmi_success, rmi_error_input}
use tf_rmm.Psci.Values.{
  cpu_on, function_of, psci_return_success, psci_return_denied, psci_return_already_on,
}
use tf_rmm.Psci.Complete.{
  is_cpu_on, psci_target_rec_matches, psci_complete_request, psci_complete_denied_request,
  complete_psci_cpu_on, psci_reset_rec, put_results, finish, reset_pstate, sctlr_el1_flags,
  sctlr_elx_ee_bit,
}

-- The target is running or may run.
abbrev pub is_on : (ℕ → ℕ) → Rec → Bool
is_on refcount target = not (refcount target.g_rec == 0) || target.runnable

-- The first registers with the values given, and the others as they were.
abbrev pub overlay : List ℕ → List ℕ → List ℕ
overlay [] regs = regs
overlay (w ∷ ws) [] = []
overlay (w ∷ ws) (r ∷ regs) = w ∷ overlay ws regs

-- The answer in the caller's X0, zeros in X1 to X3, and nothing pending.
abbrev pub answered : Rec → ℕ → Rec
answered calling x0 = record calling {
  plane0 = record calling.plane0 { regs = overlay (x0 ∷ 0 ∷ 0 ∷ 0 ∷ []) calling.plane0.regs };
  pending_op = rec_pending_none;
}

put_results-overlay :
    (regs : List ℕ) (x0 : ℕ) → put_results regs x0 ≡ overlay (x0 ∷ 0 ∷ 0 ∷ 0 ∷ []) regs
put_results-overlay [] x0 = refl
put_results-overlay (a ∷ []) x0 = refl
put_results-overlay (a ∷ b ∷ []) x0 = refl
put_results-overlay (a ∷ b ∷ c ∷ []) x0 = refl
put_results-overlay (a ∷ b ∷ c ∷ d ∷ regs) x0 = refl

-- The same, as the code writes the registers.
abbrev written : Rec → ℕ → Rec
written calling x0 = record calling {
  plane0 = record calling.plane0 { regs = put_results calling.plane0.regs x0 };
  pending_op = rec_pending_none;
}

written-answered : (calling : Rec) (x0 : ℕ) → written calling x0 ≡ answered calling x0
written-answered calling x0 =
    ap
      (λ regs. record calling {
        plane0 = record calling.plane0 { regs = regs };
        pending_op = rec_pending_none;
      })
      (put_results-overlay calling.plane0.regs x0)

-- Out of reset with the caller's endianness, at the entry point, with the context in X0.
abbrev pub started : Rec → Rec → Rec
started calling target = record target {
  runnable = true;
  plane0 = record {
    regs = set target.plane0.regs 0 (get_or calling.plane0.regs 3 0);
    pstate = reset_pstate;
    pc = get_or calling.plane0.regs 2 0;
  };
  sctlr_el1 =
      set target.sctlr_el1 plane_0_id
        (bit_or sctlr_el1_flags (bit_and (get_or calling.sctlr_el1 plane_0_id 0) sctlr_elx_ee_bit));
}

-- A request that may be completed with this target and status: it is pending, the target is the REC of
-- the caller's Realm with the MPIDR in the caller's X1, and the status is one that the Host may give.
abbrev pub is_due : Rec → Rec → ℕ → Bool
is_due calling target status =
    calling.pending_op == rec_pending_psci_complete
    && (calling.g_rd == target.g_rd
        && mpidr_to_rec_mpidr (get_or calling.plane0.regs 1 0) == target.mpidr)
    && (status == psci_return_success || status == psci_return_denied)

-- The answer to a request that is due, from whether the target is on and the Host denies the request.
abbrev pub verdict : Bool → Bool → Rec → Rec → Rec × Rec × ℕ
verdict true denied calling target = (
  answered calling psci_return_already_on,
  target,
  if denied then rmi_error_input else rmi_success,
)
verdict false true calling target = (answered calling psci_return_denied, target, rmi_success)
verdict false false calling target =
    (answered calling psci_return_success, started calling target, rmi_success)

abbrev outcome : Bool → Bool → Rec → Rec → Rec × Rec × ℕ
outcome true denied calling target = (
  written calling psci_return_already_on,
  target,
  if denied then rmi_error_input else rmi_success,
)
outcome false true calling target = (written calling psci_return_denied, target, rmi_success)
outcome false false calling target =
    (written calling psci_return_success, started calling target, rmi_success)

outcome-verdict :
    (on denied : Bool) (calling target : Rec)
    → outcome on denied calling target ≡ verdict on denied calling target
outcome-verdict true denied calling target =
    ap (λ (c : Rec). (c, target, if denied then rmi_error_input else rmi_success))
      (written-answered calling psci_return_already_on)
outcome-verdict false true calling target =
    ap (λ (c : Rec). (c, target, rmi_success)) (written-answered calling psci_return_denied)
outcome-verdict false false calling target =
    ap (λ (c : Rec). (c, started calling target, rmi_success))
      (written-answered calling psci_return_success)

complete-outcome :
    (refcount : ℕ → ℕ) (calling target : Rec) (status : ℕ)
    → calling.active_plane_id ≡ plane_0_id
    → function_of (psci_function_id (rec_active_plane calling)) ≡ cpu_on
    → psci_complete_request refcount calling target status
      ≡ some (
          if is_due calling target status
          then outcome (is_on refcount target) (status == psci_return_denied) calling target
          else (calling, target, rmi_error_input))
unfolding psci_complete_request complete_psci_cpu_on psci_reset_rec is_cpu_on finish
    rec_active_plane put_active_plane rec_set_pending_op psci_target_rec_matches
complete-outcome refcount calling target status zero_active on =
    let on' =
      subst (λ p. function_of (psci_function_id p) ≡ cpu_on) (active calling zero_active) on in
    rw (zero_active, on') (ground arith)
  where
    active : (rec : Rec) → rec.active_plane_id ≡ plane_0_id → rec_active_plane rec ≡ rec.plane0
    active rec zero_active = rw zero_active refl

-- A completion of CPU_ON by a caller on plane 0 never fails an assertion. A request that is not
-- pending, a target of another Realm or MPIDR, or a status other than SUCCESS and DENIED is refused
-- with RMI_ERROR_INPUT and changes neither REC. Otherwise the caller gets its answer in X0, zeros in X1
-- to X3, and has nothing pending: ALREADY_ON if the target is running or may run, which is an error to a
-- Host that denies the request; DENIED if the Host denies it; else SUCCESS, and the target is started.
pub complete-verdict :
    (refcount : ℕ → ℕ) (calling target : Rec) (status : ℕ)
    → calling.active_plane_id ≡ plane_0_id
    → function_of (psci_function_id (rec_active_plane calling)) ≡ cpu_on
    → psci_complete_request refcount calling target status
      ≡ some (
          if is_due calling target status
          then verdict (is_on refcount target) (status == psci_return_denied) calling target
          else (calling, target, rmi_error_input))
complete-verdict refcount calling target status zero_active on =
    complete-outcome refcount calling target status zero_active on
    ∙ ap
        (λ (v : Rec × Rec × ℕ).
          some (if is_due calling target status then v else (calling, target, rmi_error_input)))
        (outcome-verdict (is_on refcount target) (status == psci_return_denied) calling target)

-- The field of the caller that a result has, with what stands for a failed assertion.
abbrev caller_field : (Rec → ℕ) → Option (Rec × Rec × ℕ) → ℕ
caller_field field none = 0
caller_field field (some (calling, target, ret)) = field calling

verdict_field :
    (field : Rec → ℕ) (v : ℕ) (on denied : Bool) (calling target : Rec)
    → ((x0 : ℕ) → field (answered calling x0) ≡ v)
    → caller_field field (some (verdict on denied calling target)) ≡ v
verdict_field field v true denied calling target same = same psci_return_already_on
verdict_field field v false true calling target same = same psci_return_denied
verdict_field field v false false calling target same = same psci_return_success

refused_again :
    (refcount : ℕ → ℕ) (calling target : Rec) (status : ℕ)
    → calling.active_plane_id ≡ plane_0_id
    → calling.pending_op ≡ rec_pending_none
    → (psci_complete_request refcount calling target status
        ≡ some (calling, target, rmi_error_input))
      × (psci_complete_denied_request calling ≡ some (calling, rmi_error_input))
unfolding psci_complete_request psci_complete_denied_request
refused_again refcount calling target status zero_active idle =
    (rw (zero_active, idle) refl, rw (zero_active, idle) refl)

-- Once a request of a caller on plane 0 is completed, a second completion, by whichever target and
-- status, is refused with RMI_ERROR_INPUT and changes neither REC; so is a denial without the target.
pub complete-once :
    (refcount refcount' : ℕ → ℕ) (calling target : Rec) (status : ℕ) (calling' target' other : Rec)
    (ret status' : ℕ)
    → calling.active_plane_id ≡ plane_0_id
    → function_of (psci_function_id (rec_active_plane calling)) ≡ cpu_on
    → is_due calling target status ≡ true
    → psci_complete_request refcount calling target status ≡ some (calling', target', ret)
    → (psci_complete_request refcount' calling' other status'
        ≡ some (calling', other, rmi_error_input))
      × (psci_complete_denied_request calling' ≡ some (calling', rmi_error_input))
complete-once refcount refcount' calling target status calling' target' other ret status'
      zero_active on due result =
    let verdict_here = is_on refcount target in
    let came =
      complete-verdict refcount calling target status zero_active on
      ∙ ap
          (λ c. some (
            if c
            then verdict verdict_here (status == psci_return_denied) calling target
            else (calling, target, rmi_error_input)))
          due in
    let field = λ (f : Rec → ℕ) (v : ℕ) (same : (x0 : ℕ) → f (answered calling x0) ≡ v).
      ap (λ r. caller_field f r) (sym result ∙ came)
      ∙ verdict_field f v verdict_here (status == psci_return_denied) calling target same in
    refused_again refcount' calling' other status'
      (field (λ r. r.active_plane_id) plane_0_id (λ x0. zero_active))
      (field (λ r. r.pending_op) rec_pending_none (λ x0. refl))
