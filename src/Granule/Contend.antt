-- ===== src/Granule/Contend.antt =====
-- lib/granule/include/granule.h: processors that contend for the lock of one granule. Each step up to
-- holding the lock is one access to the descriptor: granule_lock_on_state_match is its loop of accesses,
-- and granule_lock the attempt that succeeds, after any wait. An operation of the holder is one step.
pub mod Moves
pub mod Exclusion
use tf_rmm.Common.{
  ℕ, ◌+◌, ◌-◌, ◌*◌, ◌/◌, ◌%◌, ◌^◌, ◌<◌, ◌≤◌, ◌≡◌, ◌≢◌, ◌⊎◌, inl, inr, refl, sym, ap, ◌∙◌, subst,
  arith, Bool, true, false, not, ◌==◌, ==_iff, if◌then◌else◌, if_no, if_yes, Option, none, some,
}
use tf_rmm.Bitlock.{bitlock_try_acquire_16, bitlock_release_16}
use tf_rmm.Bitlock.Laws.{try_acquire-free, try_acquire-held, release-value}
use tf_rmm.Granule.{
  ended, locked, state, get_state, unlocked_invariants, bitlock_wait, grn_lock_shift,
}
use tf_rmm.Granule.Fields.{locked-word, state-word}
use tf_rmm.Granule.Refine.{run-view}
use tf_rmm.Granule.Spec.{
  View, view, Op, lock_in, release, change, move, delegate, get, put, put_release, run, spec, Fits,
}

-- Where a processor stands: outside, at the three accesses of a round of
-- granule_lock_on_state_match, waiting, or with the lock.
pub data Pc : Type 0 where
  outside : Pc
  looking : ℕ → Pc
  trying : ℕ → Pc
  waiting : ℕ → Pc
  checking : ℕ → Pc
  holding : Pc

-- What one processor does to the descriptor at its place.
pub data Move : Pc → ℕ → Pc → ℕ → Type 0 where
  begin : {w st : ℕ} → st < 32 → Move outside w (looking st) w
  look_mismatch : {w st : ℕ} → state w ≢ st → Move (looking st) w outside w
  look_match : {w st : ℕ} → state w ≡ st → Move (looking st) w (trying st) w
  acquire :
      {w w' st : ℕ}
      → bitlock_try_acquire_16 w grn_lock_shift ≡ (w', true)
      → Move (trying st) w (checking st) w'
  contended :
      {w w' st : ℕ}
      → bitlock_try_acquire_16 w grn_lock_shift ≡ (w', false)
      → Move (trying st) w (waiting st) w'
  wake : {w st : ℕ} → bitlock_wait w st ≡ false → Move (waiting st) w (looking st) w
  recheck_mismatch :
      {w st : ℕ}
      → get_state w ≢ some st
      → Move (checking st) w outside (bitlock_release_16 w grn_lock_shift)
  recheck_match :
      {w st : ℕ}
      → get_state w ≡ some st
      → unlocked_invariants w st ≡ true
      → Move (checking st) w holding w
  lock_known :
      {w w' : ℕ} (st : ℕ)
      → st < 32
      → run (lock_in st) w ≡ ended (some w')
      → Move outside w holding w'
  set :
      {w w' : ℕ} (st : ℕ)
      → st < 32
      → run (change st) w ≡ ended (some w')
      → Move holding w holding w'
  gain : {w w' : ℕ} (n : ℕ) → run (get n) w ≡ ended (some w') → Move holding w holding w'
  lose : {w w' : ℕ} (n : ℕ) → run (put n) w ≡ ended (some w') → Move holding w holding w'
  unlocks : {w w' : ℕ} → run release w ≡ ended (some w') → Move holding w outside w'
  moves :
      {w w' : ℕ} (st : ℕ) → st < 32 → run (move st) w ≡ ended (some w') → Move holding w outside w'
  delegates : {w w' : ℕ} → run delegate w ≡ ended (some w') → Move holding w outside w'
  lets_go : {w w' : ℕ} {p : Pc} → run put_release w ≡ ended (some w') → Move p w p w'

-- The descriptor, and where each processor stands.
pub record System : Type 0 where
  pub word : ℕ
  pub pc : ℕ → Pc

abbrev pub moved : (ℕ → Pc) → ℕ → Pc → ℕ → Pc
moved pc i q j = if j == i then q else pc j

pub data Step : System → ℕ → System → Type 0 where
  step :
      {w w' i : ℕ} {pc : ℕ → Pc} {q : Pc}
      → Move (pc i) w q w'
      → Step (record { word = w; pc = pc }) i (record { word = w'; pc = moved pc i q })

pub data Reachable : System → Type 0 where
  start : {w : ℕ} → w < 2 ^ 15 → Reachable (record { word = w; pc = λ i. outside })
  next : {s s' : System} {i : ℕ} → Reachable s → Step s i s' → Reachable s'

-- Whether the processor has set the lock bit and not yet cleared it.
abbrev pub owns : Pc → Bool
owns (checking st) = true
owns holding = true
owns p = false
