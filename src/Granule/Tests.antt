-- ===== src/Granule/Tests.antt =====
-- Runs of the operations on a granule's descriptor and of the lock order.
use mathlib.Core.List.{Perm}
use tf_rmm.Common.{ℕ, ◌+◌, ◌*◌, ◌^◌, ◌≡◌, refl, arith, true, List, [], ◌∷◌, some}
use tf_rmm.Utils.{extract}
use tf_rmm.Bitlock.{bitlock_try_acquire, bitlock_acquire, bitlock_release}
use tf_rmm.Granule.{
  ended, locked, refcount, state, get_state, lock, unlock, unlock_transition_to_delegated,
  set_state, unlocked_invariants,
}
use tf_rmm.Granule.Refine.{Refines, run-Refines}
use tf_rmm.Granule.Spec.{lock_in, run, spec, view}
use tf_rmm.Granule.Contend.{
  Pc, outside, looking, trying, checking, holding, System, step, begin, look_match, acquire,
  recheck_match, moved, Reachable, start, next,
}
use tf_rmm.Granule.Contend.Exclusion.{owners-exclude, held-Stable}
use tf_rmm.Granule.Order.{
  TrGranuleSet, tr_sort_granules, tr_granule_set_has_duplicate_addr, has_addr, LockOrdered,
  sort-LockOrdered,
}

-- A REC's granule, unlocked and without references.
abbrev rec_word : ℕ
rec_word = 3 * 2 ^ 10

-- A REC's granule is locked, turned back to DELEGATED and unlocked.
delegated_again :
    (lock rec_word 3 ≡ ended (some (rec_word + 2 ^ 15)))
    × (unlock_transition_to_delegated (rec_word + 2 ^ 15) ≡ some (2 ^ 10))
unfolding lock bitlock_acquire bitlock_try_acquire unlock_transition_to_delegated unlock get_state
    set_state state locked refcount unlocked_invariants bitlock_release extract
delegated_again = (refl, refl)

run_example : Refines (run (lock_in 3) rec_word) (spec (lock_in 3) (view rec_word))
run_example = run-Refines (lock_in 3) rec_word (omega arith) (omega arith)

abbrev system : ℕ → (ℕ → Pc) → System
system w pc = record { word = w; pc = pc }

abbrev all_outside : ℕ → Pc
all_outside i = outside

abbrev look : ℕ → Pc
look = moved all_outside 0 (looking 3)

abbrev tries : ℕ → Pc
tries = moved look 0 (trying 3)

abbrev checks : ℕ → Pc
checks = moved tries 0 (checking 3)

abbrev holds : ℕ → Pc
holds = moved checks 0 holding

-- Processor 0 takes the lock of the REC's granule.
taken : Reachable (system (rec_word + 2 ^ 15) holds)
unfolding state bitlock_try_acquire get_state locked unlocked_invariants refcount extract
taken =
    next
      (next
        (next
          (next (start {w = rec_word} (omega arith))
            (step {pc = all_outside} {q = looking 3} (begin (omega arith))))
          (step {pc = look} {q = trying 3} (look_match {w = rec_word} {st = 3} refl)))
        (step {pc = tries} {q = checking 3}
          (acquire {w = rec_word} {w' = rec_word + 2 ^ 15} {st = 3} refl)))
      (step {pc = checks} {q = holding} (recheck_match {w = rec_word + 2 ^ 15} {st = 3} refl refl))

owners_example : ◌≡◌ {A = ℕ} 0 0
owners_example = owners-exclude (system (rec_word + 2 ^ 15) holds) taken 0 0 refl refl

-- Processor 1 looks at the granule meanwhile.
held_example :
    (locked (rec_word + 2 ^ 15) ≡ true) × (state (rec_word + 2 ^ 15) ≡ state (rec_word + 2 ^ 15))
held_example =
    held-Stable 1 0 (system (rec_word + 2 ^ 15) holds)
      (system (rec_word + 2 ^ 15) (moved holds 1 (looking 6))) taken refl
      (λ e. absurd (omega (arith, e))) (step {pc = holds} {q = looking 6} (begin (omega arith)))

-- A DELEGATED granule and an RD, given in the wrong order.
abbrev two_granules : List TrGranuleSet
two_granules =
    record { addr = 4096; g_ret = 0; state = 1 } ∷ record { addr = 8192; g_ret = 1; state = 2 } ∷ []

sort_example :
    Perm (tr_sort_granules two_granules) two_granules × LockOrdered (tr_sort_granules two_granules)
unfolding tr_granule_set_has_duplicate_addr has_addr
sort_example = sort-LockOrdered two_granules refl
