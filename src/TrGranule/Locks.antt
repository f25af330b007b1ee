-- ===== src/TrGranule/Locks.antt =====
-- lib/granule/src/tr_granule.c: what locking and unlocking a granule do to the words of all granules.
use tf_rmm.Common.{
  ℕ, ◌+◌, ◌^◌, ◌<◌, ◌≡◌, inl, inr, refl, sym, ap, ◌∙◌, arith, true, false, ◌==◌, if◌then◌else◌,
  Bool-cases, ==_iff, some,
}
use tf_rmm.Common.Bits.{and_ones}
use tf_rmm.Bitlock.{bitlock_release_16}
use tf_rmm.Bitlock.Laws.{try_acquire-free, release-value}
use tf_rmm.Granule.{state, refcount, get_state, unlocked_invariants, unlock}
use tf_rmm.Granule.Fields.{locked-word, state-word}
use tf_rmm.TrGranule.{
  GranulePtr, coarse, fine, Words, same_granule, write_word, granule_lock_on_state_match,
  granule_unlock,
}

pub same_refl : (g : GranulePtr) → same_granule g g ≡ true
unfolding same_granule
same_refl (coarse i) = ground arith
same_refl (fine i) = ground arith

pub same-eq : (g h : GranulePtr) → same_granule g h ≡ true → g ≡ h
unfolding same_granule
same-eq (coarse i) (coarse j) e = ap coarse (ground arith)
same-eq (fine i) (fine j) e = ap fine (ground arith)
same-eq (coarse i) (fine j) e = absurd (ground arith)
same-eq (fine i) (coarse j) e = absurd (ground arith)

-- No lock is held, and every descriptor meets the invariants of its state.
abbrev pub Quiet : Words → Type 0
Quiet m = (g : GranulePtr) → (m g < 2 ^ 15) × (unlocked_invariants (m g) (state (m g)) ≡ true)

refcount-acquired : (w : ℕ) → w < 2 ^ 15 → refcount (w + 2 ^ 15) ≡ refcount w
unfolding refcount
refcount-acquired w h = omega (arith, and_ones 10 w, and_ones 10 (w + 2 ^ 15))

-- The invariants look at the count alone, which the lock is no part of.
invariants-acquired :
    (w st : ℕ) → w < 2 ^ 15 → unlocked_invariants (w + 2 ^ 15) st ≡ unlocked_invariants w st
unfolding unlocked_invariants
invariants-acquired w st h = rw (unlocked_invariants, refcount-acquired w h) refl

state-acquired : (w : ℕ) → w < 2 ^ 15 → state (w + 2 ^ 15) ≡ state w
state-acquired w h = rw (state-word w, state-word (w + 2 ^ 15)) (omega arith)

get_state-acquired : (w : ℕ) → w < 2 ^ 15 → get_state (w + 2 ^ 15) ≡ some (state w)
unfolding get_state
get_state-acquired w h =
    rw (locked-word (w + 2 ^ 15) (omega arith), state-acquired w h) (ground arith)

-- A free granule's lock is taken where the state matches, and the granule is left where it does not.
pub lock_on_match :
    (m : Words)
    → (g : GranulePtr) → (st : ℕ) → m g < 2 ^ 15
    → unlocked_invariants (m g) (state (m g)) ≡ true
    → granule_lock_on_state_match m g st
      ≡ (if state (m g) == st then some (true, write_word m g (m g + 2 ^ 15)) else some (false, m))
unfolding granule_lock_on_state_match
lock_on_match m g st h inv =
    rw (try_acquire-free 15 (m g) (omega arith) h) (elim (Bool-cases (state (m g) == st)) [
      | inl matches ↦
          let at_state : unlocked_invariants (m g + 2 ^ 15) st ≡ true =
            invariants-acquired (m g) st h
            ∙ ap (unlocked_invariants (m g)) (sym ((==_iff (state (m g)) st).0 matches))
            ∙ inv in
          rw (get_state-acquired (m g) h, matches, at_state) refl
      | inr differs ↦ rw differs refl
    ])

pub unlock_locked :
    (m : Words)
    → (g : GranulePtr) → (w : ℕ) → m g ≡ w + 2 ^ 15
    → w < 2 ^ 15
    → unlocked_invariants w (state w) ≡ true
    → granule_unlock m g ≡ some (write_word m g w)
unfolding granule_unlock unlock
unlock_locked m g w e h inv =
    let released : bitlock_release_16 (w + 2 ^ 15) 15 ≡ w =
      omega (arith, release-value 15 (w + 2 ^ 15) (omega arith)) in
    rw (e, get_state-acquired w h, invariants-acquired w (state w) h, inv, released) refl
