-- ===== src/TrGranule/Published.antt =====
-- lib/granule/src/tr_granule.c: what the publication of a range leaves in the words of the granules.
use tf_rmm.Common.{
  ℕ, zero, suc, ◌+◌, ◌*◌, ◌%◌, ◌^◌, ◌<◌, ◌≤◌, ◌≡◌, ◌≢◌, ◌⊎◌, inl, inr, refl, sym, ap, ◌∙◌, arith,
  Bool, true, false, not, ◌||◌, ◌==◌, ltb, if◌then◌else◌, Bool-cases, Option, some,
}
use tf_rmm.Utils.{extract}
use tf_rmm.Bitlock.{bitlock_release}
use tf_rmm.Granule.{
  unlock_transition, unlock, get_state, set_state, locked, state, refcount, unlocked_invariants,
}
use tf_rmm.Tracking.{TrackingData, conv, granule_size, uint64_max, tracking_region_fine_addr_to_idx}
use tf_rmm.Tracking.Index.{IsLayout, idx-distinct}
use tf_rmm.TrGranule.{GranulePtr, coarse, fine, Words, same_granule, write_word}
use tf_rmm.TrGranule.Locks.{same_refl, same-eq}
use tf_rmm.TrGranule.Ranges.{
  tr_addr_to_granule, change_word, each_granule, delegate_round, granule_range_delegate_fine_unlock,
  undelegate_round, granule_range_undelegate_fine_unlock,
}

pub write-at : (m : Words) → (g : GranulePtr) → (w : ℕ) → write_word m g w g ≡ w
unfolding write_word
write-at m g w = rw (same_refl g) refl

pub write-other : (m : Words) → (g x : GranulePtr) → (w : ℕ) → x ≢ g → write_word m g w x ≡ m x
unfolding write_word
write-other m g x w ne = elim (Bool-cases (same_granule g x)) [
  | inl e ↦ absurd (ne (sym (same-eq g x e)))
  | inr e ↦ rw e refl
]

-- The index of a granule in its array.
index_in : GranulePtr → ℕ
index_in (coarse i) = i
index_in (fine i) = i

-- What a round makes of the word that it finds.
delegated :
    (delegated_count : ℕ)
    → (incomplete : Bool) → (i : ℕ)
    → delegate_round delegated_count incomplete i (2 ^ 15)
      ≡ some (if ltb i delegated_count then 2 ^ 10 else if incomplete then 11 * 2 ^ 10 else 0)
unfolding delegate_round unlock_transition unlock get_state set_state locked state refcount
    unlocked_invariants extract bitlock_release
delegated delegated_count incomplete i = elim (Bool-cases (ltb i delegated_count)) [
  | inl e ↦ rw e refl
  | inr e ↦ rw e (rest incomplete)
]
  where
    rest :
        (b : Bool)
        → (if b then unlock_transition (2 ^ 15) 11 else unlock (2 ^ 15))
          ≡ some (if b then 11 * 2 ^ 10 else 0)
    rest true = refl
    rest false = refl

undelegated :
    (reserved : Bool)
    → (i : ℕ)
    → undelegate_round reserved i (2 ^ 15 + 2 ^ 10)
      ≡ some (if reserved then 11 * 2 ^ 10 else 2 ^ 10)
unfolding undelegate_round unlock_transition unlock get_state set_state locked state refcount
    unlocked_invariants extract bitlock_release
undelegated true i = refl
undelegated false i = refl

module _ (tr : TrackingData) (layout : IsLayout tr conv) (addr n : ℕ)
    (aligned : addr % granule_size ≡ 0) (fits : addr + n * granule_size ≤ 2 ^ 64) where
  -- The granule of the page `i` of the range.
  abbrev pub page : ℕ → GranulePtr
  page i = fine (tracking_region_fine_addr_to_idx tr (addr + i * granule_size) conv)

  -- Every page of the range is in a bank.
  abbrev pub Inside : Type 0
  Inside =
      (i : ℕ)
      → i < n
      → tracking_region_fine_addr_to_idx tr (addr + i * granule_size) conv ≢ uint64_max

  pub pages_apart :
      (i j : ℕ)
      → i < n
      → j < n
      → tracking_region_fine_addr_to_idx tr (addr + i * granule_size) conv ≢ uint64_max
      → i ≢ j
      → page i ≢ page j
  unfolding index_in
  pages_apart i j hi hj inside ne same =
      let at_same : tracking_region_fine_addr_to_idx tr (addr + i * granule_size) conv
          ≡ tracking_region_fine_addr_to_idx tr (addr + j * granule_size) conv =
        ap index_in same in
      let together : addr + i * granule_size ≡ addr + j * granule_size =
        idx-distinct tr conv layout (addr + i * granule_size) (addr + j * granule_size)
          (omega arith) (omega arith) inside at_same in
      ne (omega (arith, together))

  -- The pages `i` to `i + k` have new words, and no other granule has.
  abbrev pub Published : ℕ → ℕ → (ℕ → ℕ) → Words → Option Words → Type 0
  Published i k h m o =
      (m' : Words) × ((o ≡ some m')
        × ((j : ℕ) → i ≤ j → j < i + k → m' (page j) ≡ h j)
        × ((x : GranulePtr) → ((j : ℕ) → i ≤ j → j < i + k → x ≢ page j) → m' x ≡ m x))

  each-Published :
      (find : ℕ → Option GranulePtr)
      → (f : ℕ → ℕ → Option ℕ) → (h : ℕ → ℕ) → Inside
      → ((i : ℕ) → i < n → find (addr + i * granule_size) ≡ some (page i))
      → (k i : ℕ) → i + k ≤ n
      → (m : Words) → ((j : ℕ) → i ≤ j → j < i + k → f j (m (page j)) ≡ some (h j))
      → Published i k h m (each_granule find f addr i k m)
  unfolding each_granule change_word
  each-Published find f h inside found zero i le m steps =
      (m, (refl, (λ j lo hi. absurd (omega arith)), (λ x away. refl)))
  each-Published find f h inside found (suc k) i le m steps =
      let m1 : Words = write_word m (page i) (h i) in
      let later : (j : ℕ) → i + 1 ≤ j → j < i + 1 + k → page j ≢ page i = λ j lo hi.
        pages_apart j i (omega arith) (omega arith) (inside j (omega arith)) (omega arith) in
      let (m', (e, set, kept)) =
        each-Published find f h inside found k (i + 1) (omega arith) m1 (λ j lo hi.
          ap (f j) (write-other m (page i) (page j) (h i) (later j lo hi))
          ∙ steps j (omega arith) (omega arith)) in
      let whole : (addr + i * granule_size) % 2 ^ 64 ≡ addr + i * granule_size = omega arith in
      (
        m',
        (
          rw (whole, found i (omega arith), steps i (omega arith) (omega arith)) e,
          (λ j lo hi. elim (first_or_later i j lo) [
            | inl same ↦ rw same (
                kept (page i) (λ j' lo' hi' p. later j' lo' hi' (sym p))
                ∙ write-at m (page i) (h i))
            | inr after ↦ set j after (omega arith)
          ]),
          (λ x away.
              kept x (λ j lo hi. away j (omega arith) (omega arith))
              ∙ write-other m (page i) x (h i) (away i (omega arith) (omega arith))),
        ),
      )
    where
      first_or_later : (i j : ℕ) → i ≤ j → (j ≡ i) ⊎ (i + 1 ≤ j)
      first_or_later i j lo = omega arith

  addr_to_granule-page :
      Inside → (i : ℕ) → i < n → tr_addr_to_granule tr (addr + i * granule_size) ≡ some (page i)
  unfolding tr_addr_to_granule
  addr_to_granule-page inside i lt =
      let al : ((addr + i * granule_size) % granule_size == 0) ≡ true = ground arith in
      let there : (tracking_region_fine_addr_to_idx tr (addr + i * granule_size) conv == uint64_max)
          ≡ false =
        absent _ _ (inside i lt) in
      rw (al, there) refl
    where
      absent : (x y : ℕ) → x ≢ y → (x == y) ≡ false
      absent x y ne = ground arith

  -- From locked NS granules without references in a range of pages of the banks,
  -- granule_range_delegate_fine_unlock leaves every lock free, the first `delegated_count` granules
  -- DELEGATED, the rest PARTIAL if the transition is incomplete and NS if not, all without references,
  -- and every other word as it was; it fails no assertion.
  pub delegate_fine_unlock-Published :
      (delegated_count : ℕ)
      → (incomplete : Bool) → (m : Words) → Inside
      → delegated_count ≤ n
      → ((i : ℕ) → i < n → m (page i) ≡ 2 ^ 15)
      → Published 0 n
          (λ i. if ltb i delegated_count then 2 ^ 10 else if incomplete then 11 * 2 ^ 10 else 0)
          m
          (granule_range_delegate_fine_unlock tr m addr n delegated_count incomplete)
  unfolding granule_range_delegate_fine_unlock
  delegate_fine_unlock-Published delegated_count incomplete m inside le start =
      let listed : ltb n delegated_count ≡ false = ground arith in
      rw listed (
        each-Published (tr_addr_to_granule tr) (delegate_round delegated_count incomplete)
          (λ i. if ltb i delegated_count then 2 ^ 10 else if incomplete then 11 * 2 ^ 10 else 0)
          inside (addr_to_granule-page inside) n 0 (omega arith) m
          (λ j lo hi.
            ap (delegate_round delegated_count incomplete j) (start j (omega arith))
            ∙ delegated delegated_count incomplete j))

  -- From locked DELEGATED granules without references in a non-empty range of pages of the banks,
  -- granule_range_undelegate_fine_unlock leaves every lock free, the granules PARTIAL if they are
  -- reserved for a stateful operation and DELEGATED if not, and every other word as it was; it fails no
  -- assertion.
  pub undelegate_fine_unlock-Published :
      (reserved : Bool)
      → (m : Words) → Inside
      → 0 < n
      → ((i : ℕ) → i < n → m (page i) ≡ 2 ^ 15 + 2 ^ 10)
      → Published 0 n
          (λ i. if reserved then 11 * 2 ^ 10 else 2 ^ 10)
          m
          (granule_range_undelegate_fine_unlock tr m addr n reserved)
  unfolding granule_range_undelegate_fine_unlock
  undelegate_fine_unlock-Published reserved m inside pos start =
      let accepted : (not (addr % granule_size == 0) || n == 0) ≡ false = ground arith in
      rw accepted (
        each-Published (tr_addr_to_granule tr) (undelegate_round reserved)
          (λ i. if reserved then 11 * 2 ^ 10 else 2 ^ 10) inside (addr_to_granule-page inside) n 0
          (omega arith) m
          (λ j lo hi.
            ap (undelegate_round reserved j) (start j (omega arith)) ∙ undelegated reserved j))
