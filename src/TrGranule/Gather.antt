-- ===== src/TrGranule/Gather.antt =====
-- lib/granule/src/tr_granule.c: several fine granules are locked together or not at all.
use tf_rmm.Common.{
  ℕ, ◌+◌, ◌%◌, ◌^◌, ◌<◌, ◌≡◌, ◌≢◌, inl, inr, refl, ap, ◌∙◌, subst, arith, Bool, true, false, not,
  ◌==◌, if◌then◌else◌, Bool-cases, ==_iff, ◌>>=◌, Option, none, some, Option-cases, List, [], ◌∷◌,
}
use tf_rmm.Status.{rmi_success, rmi_error_input, rmi_error_tracking, rmi_blocked}
use tf_rmm.Status.Made.{tracking_packed}
use tf_rmm.Granule.{state, unlocked_invariants}
use tf_rmm.Granule.Order.{TrGranuleSet}
use tf_rmm.Tracking.{
  TrackingData, conv, granule_size, tracking_region_find, tracking_region_fine_addr_to_idx,
  uint64_max,
}
use tf_rmm.TrGranule.{
  tr_tracking_size_valid, descriptor_of, tracking_region_get_state,
  tracking_region_transition_pending, trs_fine, GranulePtr, fine, Words, same_granule, write_word,
  Looked, tr_select_granule, tr_find_lock_granule, lock_selected, tr_encode_lookup_result,
  encode_looked, tr_find_lock_granule_read_locked,
}
use tf_rmm.TrGranule.Sets.{Output, unlock_prefix}
use tf_rmm.TrGranule.Locks.{same_refl, same-eq, Quiet, lock_on_match, unlock_locked}

unfoldable pub holds : List Output → GranulePtr → Bool
holds [] x = false
holds (g ∷ gs) x = let rest = holds gs x in if same_granule g.1 x then true else rest

-- The words once the outputs are locked, and nothing else is changed.
abbrev pub LockedBy : Words → List Output → Words → Type 0
LockedBy m0 held m = (x : GranulePtr) → m x ≡ (if holds held x then m0 x + 2 ^ 15 else m0 x)

-- Each output is another granule.
abbrev pub Apart : List Output → Type 0
Apart [] = Unit
Apart (g ∷ gs) = (holds gs g.1 ≡ false) × Apart gs

pub locks_more :
    (m0 m : Words)
    → (held : List Output) → (o : Output) → LockedBy m0 held m
    → holds held o.1 ≡ false
    → LockedBy m0 (o ∷ held) (write_word m o.1 (m o.1 + 2 ^ 15))
unfolding holds write_word
locks_more m0 m held o l free x = elim (Bool-cases (same_granule o.1 x)) [
  | inl e ↦ rw e (rw (l o.1, free) (ap (λ (y : GranulePtr). m0 y + 2 ^ 15) (same-eq o.1 x e)))
  | inr e ↦ rw e (l x)
]

locks_less :
    (m0 m : Words)
    → (held : List Output) → (o : Output) → LockedBy m0 (o ∷ held) m
    → holds held o.1 ≡ false
    → LockedBy m0 held (write_word m o.1 (m0 o.1))
unfolding holds write_word
locks_less m0 m held o l free x = elim (Bool-cases (same_granule o.1 x)) [
  | inl e ↦ rw e (
      subst (λ (y : GranulePtr). m0 o.1 ≡ (if holds held y then m0 y + 2 ^ 15 else m0 y))
        (same-eq o.1 x e) (rw free refl))
  | inr e ↦ rw e (l x ∙ rw e refl)
]

head_word :
    (m0 m : Words)
    → (held : List Output) → (o : Output) → LockedBy m0 (o ∷ held) m
    → m o.1 ≡ m0 o.1 + 2 ^ 15
unfolding holds
head_word m0 m held o l = l o.1 ∙ rw (same_refl o.1) refl

-- Releasing what is locked gives back the words from before.
pub unlock_prefix-LockedBy :
    (m0 m : Words)
    → (held : List Output) → Quiet m0
    → Apart held
    → LockedBy m0 held m
    → (m' : Words) × ((unlock_prefix m held ≡ some m') × ((x : GranulePtr) → m' x ≡ m0 x))
unfolding unlock_prefix holds
unlock_prefix-LockedBy m0 m [] quiet apart l = (m, (refl, l))
unlock_prefix-LockedBy m0 m (o ∷ held) quiet (free, apart) l =
    let (m', (e, same)) =
      unlock_prefix-LockedBy m0 (write_word m o.1 (m0 o.1)) held quiet apart
        (locks_less m0 m held o l free) in
    (
      m',
      (
        rw (unlock_locked m o.1 (m0 o.1) (head_word m0 m held o l) (quiet o.1).0 (quiet o.1).1) e,
        same,
      ),
    )

-- What one look-up does: it locks the granule in the state expected of it, or reports an error and
-- changes nothing.
pub data Found (tr : TrackingData) (m : Words) (g : TrGranuleSet) : Option Looked → Type 0 where
  taken :
      tracking_region_fine_addr_to_idx tr g.addr conv ≢ uint64_max
      → state (m (fine (tracking_region_fine_addr_to_idx tr g.addr conv))) ≡ g.state
      → Found tr m g (
          some (record {
            ret = 0;
            granule = some (fine (tracking_region_fine_addr_to_idx tr g.addr conv));
            words =
                write_word m
                  (fine (tracking_region_fine_addr_to_idx tr g.addr conv))
                  (m (fine (tracking_region_fine_addr_to_idx tr g.addr conv)) + 2 ^ 15);
          }))
  refused :
      {ret : ℕ} → ret ≢ 0 → Found tr m g (some (record { ret = ret; granule = none; words = m }))

-- An error stays one when it is encoded.
pub encode_nonzero :
    (ret addr : ℕ)
    → ret ≢ 0
    → addr % granule_size ≡ 0
    → addr < 2 ^ 52
    → (w : ℕ) × ((tr_encode_lookup_result ret addr ≡ some w) × (w ≢ 0))
unfolding tr_encode_lookup_result
encode_nonzero ret addr ne al fits = elim (Bool-cases (ret == 12)) [
  | inl e ↦ let (w, (packed, nonzero)) = tracking_packed addr al fits in (w, (rw e packed, nonzero))
  | inr e ↦ (ret, (rw e refl, ne))
]

encode-refused :
    (tr : TrackingData)
    → (m : Words) → (g : TrGranuleSet) → (ret : ℕ) → ret ≢ 0
    → g.addr % 2 ^ 12 ≡ 0
    → g.addr < 2 ^ 52
    → Found tr m g (encode_looked (record { ret = ret; granule = none; words = m }) g.addr)
unfolding encode_looked
encode-refused tr m g ret ne al fits =
    let (w, (e, nonzero)) = encode_nonzero ret g.addr ne al fits in rw e (refused nonzero)

module _ (tr : TrackingData) (m : Words) (g : TrGranuleSet) (al : g.addr % 2 ^ 12 ≡ 0)
    (fits : g.addr < 2 ^ 52) (sized : tr.tracking_region_size ≢ granule_size) where
  abbrev idx : ℕ
  idx = tracking_region_fine_addr_to_idx tr g.addr conv

  -- What the selection gives: the fine granule of the address, or an error.
  pub data Selected : ℕ × Option GranulePtr → Type 0 where
    chosen : idx ≢ uint64_max → Selected (0, some (fine idx))
    rejected : {ret : ℕ} → ret ≢ 0 → Selected (ret, none)

  pick :
      (pending inactive missing : Bool)
      → (missing ≡ false → idx ≢ uint64_max)
      → Selected (
          if pending
          then (rmi_blocked, none)
          else if inactive
          then (rmi_error_tracking, none)
          else if missing
          then (rmi_error_input, none)
          else (rmi_success, some (fine idx)))
  pick true inactive missing there = rejected (omega arith)
  pick false true missing there = rejected (omega arith)
  pick false false true there = rejected (omega arith)
  pick false false false there = chosen (there refl)

  pub select-Selected : (region : ℕ) → Selected (tr_select_granule tr region g.addr granule_size)
  unfolding tr_select_granule
  select-Selected region =
      let not_coarse : (granule_size == tr.tracking_region_size) ≡ false = ground arith in
      rw not_coarse (
        pick (tracking_region_transition_pending (descriptor_of tr region))
          (not (tracking_region_get_state (descriptor_of tr region) == trs_fine))
          (idx == uint64_max) (λ e there. differs idx uint64_max e there))
    where
      differs : (x y : ℕ) → (x == y) ≡ false → x ≢ y
      differs x y e = ground arith

  -- Locking what is selected, where its lock is free.
  pub lock_selected-Found :
      m (fine idx) < 2 ^ 15
      → unlocked_invariants (m (fine idx)) (state (m (fine idx))) ≡ true
      → (selection : ℕ × Option GranulePtr) → Selected selection
      → Found tr m g (lock_selected m selection g.state)
  unfolding lock_selected
  lock_selected-Found h inv _ (rejected {ret} ne) = refused ne
  lock_selected-Found h inv _ (chosen there) =
      rw (lock_on_match m (fine idx) g.state h inv)
        (elim (Bool-cases (state (m (fine idx)) == g.state)) [
          | inl e ↦ rw e (taken there ((==_iff (state (m (fine idx))) g.state).0 e))
          | inr e ↦ rw e (refused (omega arith))
        ])

  encode-Found :
      (o : Option Looked)
      → Found tr m g o
      → Found tr m g (o >>= λ looked. encode_looked looked g.addr)
  unfolding encode_looked tr_encode_lookup_result
  encode-Found _ (taken there e) = taken there e
  encode-Found _ (refused {ret} ne) = encode-refused tr m g ret ne al fits

  -- A look-up of a fine granule, where the granule's lock is free.
  pub find_lock-Found :
      m (fine idx) < 2 ^ 15
      → unlocked_invariants (m (fine idx)) (state (m (fine idx))) ≡ true
      → Found tr m g (tr_find_lock_granule tr m g.addr granule_size g.state)
  unfolding tr_find_lock_granule tr_find_lock_granule_read_locked tr_tracking_size_valid
  find_lock-Found h inv =
      let aligned : (g.addr % granule_size == 0) ≡ true = ground arith in
      rw aligned (elim (Option-cases (tracking_region_find tr g.addr conv)) [
        | inl e ↦ rw e (refused (omega arith))
        | inr (region, e) ↦
            rw e (encode-Found _ (lock_selected-Found h inv _ (select-Selected region)))
      ])
