-- ===== src/TrGranule/Together.antt =====
-- lib/granule/src/tr_granule.c: the loop of tr_find_lock_fine_granules.
use mathlib.Core.List.Perm
use mathlib.Core.Logic.Or
use mathlib.Core.List.{
  Pairwise-cons, Mem, mem-cons_self, mem-cons_of_mem, not-mem-nil, eq-or-mem_of_mem-cons,
}
use native.Mathlib.Nat.{ℕ_set}
use tf_rmm.Common.{
  ℕ, ◌+◌, ◌/◌, ◌%◌, ◌^◌, ◌<◌, ◌≡◌, ◌≢◌, inl, inr, refl, sym, ap, ◌∙◌, arith, Bool, true, false, not,
  ◌==◌, if◌then◌else◌, Bool-cases, ==_iff, ◌>>=◌, Option, none, some, List, [], ◌∷◌,
}
use tf_rmm.Granule.{state}
use tf_rmm.Granule.Order.{
  TrGranuleSet, Distinct, no_duplicate-Distinct, moved-Distinct, sort-LockOrdered, tr_sort_granules,
  tr_granule_set_has_duplicate_addr,
}
use tf_rmm.Tracking.{
  TrackingData, conv, granule_size, tracking_region_find, tracking_region_fine_addr_to_idx,
  uint64_max,
}
use tf_rmm.Tracking.Index.{IsLayout, idx-distinct}
use tf_rmm.TrGranule.{
  GranulePtr, fine, same_granule, Words, write_word, Looked, tr_find_lock_granule,
}
use tf_rmm.TrGranule.Sets.{
  Output, Gathered, unlock_prefix, lock_each, addresses_valid, tr_find_lock_fine_granules,
}
use tf_rmm.TrGranule.Locks.{Quiet}
use tf_rmm.TrGranule.Gather.{
  holds, LockedBy, Apart, locks_more, unlock_prefix-LockedBy, Found, taken, refused,
  find_lock-Found,
}

-- The addresses that the first loop accepts are those of granules.
both_tests :
    (aligned : Bool)
    → (found : Option ℕ) → (rest : Bool)
    → (if not aligned then false else elim found [ none ↦ false | some region ↦ rest ]) ≡ true
    → (aligned ≡ true) × (rest ≡ true)
both_tests true (some region) rest e = (refl, e)
both_tests true none rest e = absurd (ground arith)
both_tests false found rest e = absurd (ground arith)

addresses_valid-aligned :
    (tr : TrackingData)
    → (gs : List TrGranuleSet) → addresses_valid tr gs ≡ true
    → (h : TrGranuleSet) → Mem h gs
    → h.addr % granule_size ≡ 0
unfolding addresses_valid
addresses_valid-aligned tr [] e h m = absurd (not-mem-nil m)
addresses_valid-aligned tr (g ∷ gs) e h m =
    let (aligned, rest) =
      both_tests (g.addr % granule_size == 0) (tracking_region_find tr g.addr conv)
        (addresses_valid tr gs) e in
    Or.elim (ℕ_set (h.addr % granule_size) 0) (eq-or-mem_of_mem-cons m)
      (λ first. rw first ((==_iff (g.addr % granule_size) 0).0 aligned))
      (λ m'. addresses_valid-aligned tr gs rest h m')

-- Addresses below the end of the physical address space.
abbrev pub AllBelow : List TrGranuleSet → Type 0
AllBelow [] = Unit
AllBelow (g ∷ gs) = (g.addr < 2 ^ 52) × AllBelow gs

AllBelow-at :
    (gs : List TrGranuleSet) → AllBelow gs → (h : TrGranuleSet) → Mem h gs → h.addr / 2 ^ 52 ≡ 0
AllBelow-at [] below h m = absurd (not-mem-nil m)
AllBelow-at (g ∷ gs) (first, below) h m =
    let top : g.addr / 2 ^ 52 ≡ 0 = omega arith in
    Or.elim (ℕ_set (h.addr / 2 ^ 52) 0) (eq-or-mem_of_mem-cons m)
      (λ same. ap (λ (k : TrGranuleSet). k.addr / 2 ^ 52) same ∙ top)
      (λ m'. AllBelow-at gs below h m')

module _ (tr : TrackingData) (layout : IsLayout tr conv)
    (sized : tr.tracking_region_size ≢ granule_size) (m0 : Words) (quiet : Quiet m0) where
  abbrev pub idx_of : TrGranuleSet → ℕ
  idx_of g = tracking_region_fine_addr_to_idx tr g.addr conv

  -- The outputs for the granules in turn, over those already set.
  unfoldable pub outputs_of : List Output → List TrGranuleSet → List Output
  outputs_of held [] = held
  outputs_of held (g ∷ gs) = outputs_of ((g.g_ret, fine (idx_of g)) ∷ held) gs

  -- The granules are in the states expected of them.
  abbrev pub Matching : List TrGranuleSet → Type 0
  Matching [] = Unit
  Matching (g ∷ gs) = (state (m0 (fine (idx_of g))) ≡ g.state) × Matching gs

  -- All granules are locked, each in its state, and no other word is changed, or none is changed.
  pub data Together (held : List Output) (gs : List TrGranuleSet) : Option Gathered → Type 0 where
    all_locked :
        {m : Words}
        → Matching gs
        → LockedBy m0 (outputs_of held gs) m
        → Together held gs (some (record { ret = 0; held = outputs_of held gs; words = m }))
    none_locked :
        {ret : ℕ}
        → {m : Words} → ret ≢ 0
        → ((x : GranulePtr) → m x ≡ m0 x)
        → Together held gs (some (record { ret = ret; held = []; words = m }))

  -- Addresses that the loop before has validated; granules that are not held yet.
  abbrev pub Valid : List TrGranuleSet → Type 0
  Valid gs = (h : TrGranuleSet) → Mem h gs → (h.addr % granule_size ≡ 0) × (h.addr < 2 ^ 52)

  abbrev Fresh : List Output → List TrGranuleSet → Type 0
  Fresh held gs = (h : TrGranuleSet) → Mem h gs → holds held (fine (idx_of h)) ≡ false

  Fresh-next :
      (g : TrGranuleSet)
      → (gs : List TrGranuleSet) → (held : List Output) → Valid (g ∷ gs)
      → Distinct (g ∷ gs)
      → Fresh held (g ∷ gs)
      → idx_of g ≢ uint64_max
      → Fresh ((g.g_ret, fine (idx_of g)) ∷ held) gs
  unfolding holds same_granule
  Fresh-next g gs held valid distinct fresh there h m = elim (Bool-cases (idx_of g == idx_of h)) [
    | inl e ↦ absurd (
        (Pairwise-cons.0 distinct).0 h m (
          idx-distinct tr conv layout g.addr h.addr (valid g mem-cons_self).0
            (valid h (mem-cons_of_mem g m)).0 there ((==_iff (idx_of g) (idx_of h)).0 e)))
    | inr e ↦ rw e (fresh h (mem-cons_of_mem g m))
  ]

  -- The word of a granule that is not held.
  word_before :
      (held : List Output)
      → (m : Words) → (x : GranulePtr) → LockedBy m0 held m
      → holds held x ≡ false
      → m x ≡ m0 x
  word_before held m x l free = l x ∙ rw free refl

  prepend :
      (g : TrGranuleSet)
      → (gs : List TrGranuleSet) → (held : List Output) → state (m0 (fine (idx_of g))) ≡ g.state
      → (o : Option Gathered) → Together ((g.g_ret, fine (idx_of g)) ∷ held) gs o
      → Together held (g ∷ gs) o
  unfolding outputs_of
  prepend g gs held e _ (all_locked matching l) = all_locked (e, matching) l
  prepend g gs held e _ (none_locked ne same) = none_locked ne same

  -- The rest of the loop, by what the look-up of its first granule did.
  after_found :
      (g : TrGranuleSet)
      → (gs : List TrGranuleSet) → (held : List Output) → (m : Words) → Apart held
      → LockedBy m0 held m
      → holds held (fine (idx_of g)) ≡ false
      → (idx_of g ≢ uint64_max
          → Together ((g.g_ret, fine (idx_of g)) ∷ held) gs (
              lock_each tr
                (write_word m (fine (idx_of g)) (m (fine (idx_of g)) + 2 ^ 15))
                ((g.g_ret, fine (idx_of g)) ∷ held)
                gs))
      → Found tr m g (tr_find_lock_granule tr m g.addr granule_size g.state)
      → Together held (g ∷ gs) (lock_each tr m held (g ∷ gs))
  unfolding lock_each
  after_found g gs held m apart l free rest found = go _ found
    where
      go :
          (o : Option Looked)
          → Found tr m g o
          → Together held (g ∷ gs) (
              o >>= λ looked.
              if not (looked.ret == 0)
              then (unlock_prefix looked.words held >>= λ m'.
                  some (record { ret = looked.ret; held = []; words = m' }))
              else elim looked.granule [
                | none ↦ none
                | some ptr ↦ lock_each tr looked.words ((g.g_ret, ptr) ∷ held) gs
              ])
      go _ (taken there e) =
          prepend g gs held (ap state (sym (word_before held m (fine (idx_of g)) l free)) ∙ e) _
            (rest there)
      go _ (refused {ret} ne) =
          let failed : (ret == 0) ≡ false = ground arith in
          let (m', (e, same)) = unlock_prefix-LockedBy m0 m held quiet apart l in
          rw (failed, e) (none_locked ne same)

  lock_each-Together :
      (gs : List TrGranuleSet)
      → (held : List Output) → (m : Words) → Valid gs
      → Distinct gs
      → Fresh held gs
      → Apart held
      → LockedBy m0 held m
      → Together held gs (lock_each tr m held gs)
  unfolding lock_each outputs_of
  lock_each-Together [] held m valid distinct fresh apart l = all_locked tt l
  lock_each-Together (g ∷ gs) held m valid distinct fresh apart l =
      let x : GranulePtr = fine (idx_of g) in
      let free = fresh g mem-cons_self in
      let same = word_before held m x l free in
      let (lt, inv) = quiet x in
      after_found g gs held m apart l free
        (λ there.
          lock_each-Together gs ((g.g_ret, x) ∷ held) (write_word m x (m x + 2 ^ 15))
            (λ h mem. valid h (mem-cons_of_mem g mem)) (Pairwise-cons.0 distinct).1
            (Fresh-next g gs held valid distinct fresh there) (free, apart)
            (locks_more m0 m held (g.g_ret, x) l free))
        (find_lock-Found tr m g (valid g mem-cons_self).0 (valid g mem-cons_self).1 sized
          (rw same lt) (rw same inv))

  -- Where the banks are numbered, no granule's lock is held, every descriptor meets the invariants of
  -- its state and the addresses are below 2^52, tr_find_lock_fine_granules returns: either with
  -- RMI_SUCCESS, every granule given in the state expected of it, its lock taken, its output set in the
  -- order of the sort, and no other word changed, or with an error, no output set and every word as
  -- before, whichever of the look-ups failed.
  pub find_lock-Together :
      (gs : List TrGranuleSet)
      → AllBelow gs
      → Together [] (tr_sort_granules gs) (tr_find_lock_fine_granules tr m0 gs)
  unfolding tr_find_lock_fine_granules holds
  find_lock-Together gs fits = elim (Bool-cases (tr_granule_set_has_duplicate_addr gs)) [
    | inl e ↦ rw e (none_locked (omega arith) (λ x. refl))
    | inr e ↦ rw e (elim (Bool-cases (addresses_valid tr gs)) [
      | inr bad ↦ rw bad (none_locked (omega arith) (λ x. refl))
      | inl good ↦ rw good (
          let (moved, _) = sort-LockOrdered gs e in
          lock_each-Together (tr_sort_granules gs) [] m0
            (λ h mem. (
              addresses_valid-aligned tr gs good h ((Perm.mem_iff moved).0 mem),
              omega (arith, AllBelow-at gs fits h ((Perm.mem_iff moved).0 mem)),
            ))
            (moved-Distinct moved (no_duplicate-Distinct gs e)) (λ h mem. refl) tt (λ x. refl))
    ])
  ]
