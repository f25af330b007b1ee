-- ===== src/Psci/Power.antt =====
-- runtime/rsi/psci.c: the power state that AFFINITY_INFO reports of a REC that CPU_OFF or a completed
-- CPU_ON left.
use tf_rmm.Common.{
  ℕ, ◌≡◌, ◌≢◌, arith, ap, sym, ◌∙◌, Bool, true, false, not, ◌||◌, ◌==◌, if◌then◌else◌, if_no,
  if_yes, Option, none, some, get_or,
}
use tf_rmm.Rec.{Rec, rec_active_plane, plane_0_id, map_mpidr_to_rec}
use tf_rmm.Psci.{
  Call, return_to_realm, psci_affinity_info, affinity_of, psci_cpu_off, psci_function_id,
}
use tf_rmm.Status.{rmi_error_input}
use tf_rmm.Psci.Values.{
  psci_affinity_info_on, psci_affinity_info_off, psci_return_success, cpu_on, function_of,
}
use tf_rmm.Granule.States.{granule_state_rd, granule_state_rec}
use tf_rmm.Psci.Requests.{target_mpidr}
use tf_rmm.Psci.Complete.{psci_complete_request}
use tf_rmm.Psci.Complete.Outcome.{is_on, is_due, verdict, complete-verdict}

abbrev target_runs : Option (Rec × Rec × ℕ) → Bool
target_runs none = false
target_runs (some (calling, target, ret)) = target.runnable

-- A call of AFFINITY_INFO that reaches the granule `g`, which holds a REC of the caller's Realm with
-- the MPIDR the call names.
module _ (call : Call) (g : ℕ) (level : get_or (rec_active_plane call.rec).regs 2 0 ≡ 0)
    (other : target_mpidr call ≢ call.rec.mpidr)
    (rd : call.system.rd_granule_state ≡ granule_state_rd)
    (found : map_mpidr_to_rec call.system.mpidr_rec_map (target_mpidr call) ≡ some g)
    (held : (call.system.granule g).state ≡ granule_state_rec)
    (realm : (call.system.granule g).rec.g_rd ≡ call.rec.g_rd)
    (mpidr : (call.system.granule g).rec.mpidr ≡ target_mpidr call) where
  reported :
      psci_affinity_info call
      ≡ some (
          return_to_realm call (
            if not ((call.system.granule g).refcount == 0) || (call.system.granule g).rec.runnable
            then psci_affinity_info_on
            else psci_affinity_info_off))
  unfolding psci_affinity_info affinity_of
  reported =
      if_no (not (get_or (rec_active_plane call.rec).regs 2 0 == 0)) _ _ (ground (arith, level))
      ∙ if_no (target_mpidr call == call.rec.mpidr) _ _ (ground (arith, other))
      ∙ if_no (not (call.system.rd_granule_state == granule_state_rd)) _ _ (ground (arith, rd))
      ∙ ap (λ x. some (return_to_realm call x))
          (ap (λ o. affinity_of call (target_mpidr call) o) found
            ∙ if_no (not ((call.system.granule g).state == granule_state_rec)) _ _
                (ground (arith, held))
            ∙ if_no
                (not ((call.system.granule g).rec.g_rd == call.rec.g_rd)
                  || not ((call.system.granule g).rec.mpidr == target_mpidr call))
                _ _ (ground (arith, realm, mpidr)))

  -- AFFINITY_INFO on a REC of the caller's Realm, found by its MPIDR, reports OFF if the REC last
  -- called CPU_OFF and is not entered, so that its reference count is 0.
  pub affinity_info-cpu_off :
      (off : Call)
      → (call.system.granule g).rec ≡ (psci_cpu_off off).rec
      → (call.system.granule g).refcount ≡ 0
      → psci_affinity_info call ≡ some (return_to_realm call psci_affinity_info_off)
  unfolding psci_cpu_off
  affinity_info-cpu_off off last idle =
      reported
      ∙ ap (λ x. some (return_to_realm call x))
          (if_no
            (not ((call.system.granule g).refcount == 0) || (call.system.granule g).rec.runnable) _
            _ (ground (arith, idle, ap (λ r. r.runnable) last)))

  -- AFFINITY_INFO on such a REC reports ON if the REC is what a completion of CPU_ON with SUCCESS left
  -- of a target that was off, the caller of CPU_ON being on plane 0 and its request due.
  pub affinity_info-cpu_on :
      (refcount : ℕ → ℕ) (calling target calling' target' : Rec) (ret : ℕ)
      → calling.active_plane_id ≡ plane_0_id
      → function_of (psci_function_id (rec_active_plane calling)) ≡ cpu_on
      → is_due calling target psci_return_success ≡ true
      → is_on refcount target ≡ false
      → psci_complete_request refcount calling target psci_return_success
        ≡ some (calling', target', ret)
      → (call.system.granule g).rec ≡ target'
      → psci_affinity_info call ≡ some (return_to_realm call psci_affinity_info_on)
  affinity_info-cpu_on refcount calling target calling' target' ret plane on due off result last =
      let came = complete-verdict refcount calling target psci_return_success plane on in
      let runs : target'.runnable ≡ true =
        ap target_runs (sym result ∙ came)
        ∙ ap
            (λ c. target_runs (
              some (
                if c
                then verdict (is_on refcount target) false calling target
                else (calling, target, rmi_error_input))))
            due
        ∙ ap (λ b. target_runs (some (verdict b false calling target))) off in
      reported
      ∙ ap (λ x. some (return_to_realm call x))
          (if_yes
            (not ((call.system.granule g).refcount == 0) || (call.system.granule g).rec.runnable) _
            _ (ground (arith, ap (λ r. r.runnable) last ∙ runs)))
