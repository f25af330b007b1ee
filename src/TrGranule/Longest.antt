-- ===== src/TrGranule/Longest.antt =====
-- lib/granule/src/tr_granule.c: what tr_find_lock_fine_granule_run locks.
use tf_rmm.Common.{
  ℕ, zero, suc, ◌+◌, ◌-◌, ◌*◌, ◌/◌, ◌%◌, ◌^◌, ◌<◌, ◌≤◌, ◌≡◌, ◌≢◌, ◌⊎◌, inl, inr, refl, sym, ap, ◌∙◌,
  subst, arith, true, false, not, ◌||◌, ◌==◌, leb, if◌then◌else◌, Bool-cases, ◌>>=◌, Option, some,
  Option-cases,
}
use tf_rmm.Granule.{state}
use tf_rmm.Granule.Order.{TrGranuleSet}
use tf_rmm.Tracking.{
  TrackingData, conv, granule_size, uint64_max, tracking_region_find,
  tracking_region_fine_addr_to_idx,
}
use tf_rmm.Tracking.Index.{IsLayout}
use tf_rmm.TrGranule.{GranulePtr, Looked, Words, write_word, tr_active_tracking_size}
use tf_rmm.TrGranule.Locks.{Quiet}
use tf_rmm.TrGranule.Published.{page, pages_apart, write-at, write-other}
use tf_rmm.TrGranule.Gather.{
  Found, taken, refused, select-Selected, lock_selected-Found, encode_nonzero,
}
use tf_rmm.TrGranule.Run.{Ran, in_region, run_from, finish_run, tr_find_lock_fine_granule_run}

zero_or_pos : (i : ℕ) → (i ≡ 0) ⊎ (0 < i)
zero_or_pos i = omega arith

differ : true ≡ false → ⊥
differ e = ground arith

differs : (x y : ℕ) → (x == y) ≡ false → x ≢ y
differs x y e = ground arith

module _ (tr : TrackingData) (layout : IsLayout tr conv)
    (sized : tr.tracking_region_size ≢ granule_size) (m0 : Words) (quiet : Quiet m0) (addr n : ℕ)
    (aligned : addr % granule_size ≡ 0) (fits : addr + n * granule_size < 2 ^ 52)
    (expected_state : ℕ) where
  abbrev at : ℕ → GranulePtr
  at i = page tr layout addr n aligned (omega arith) i

  -- The first `i` pages are locked in the state expected of them, and no other word is changed.
  abbrev pub RunOf : ℕ → Words → Type 0
  RunOf i m =
      ((j : ℕ)
        → j < i
        → (tracking_region_fine_addr_to_idx tr (addr + j * granule_size) conv ≢ uint64_max)
          × (state (m0 (at j)) ≡ expected_state)
          × (m (at j) ≡ m0 (at j) + 2 ^ 15))
      × ((x : GranulePtr) → ((j : ℕ) → j < i → x ≢ at j) → m x ≡ m0 x)

  -- A run of one page or more, or an error and nothing locked.
  pub data Ended : Option Ran → Type 0 where
    run_of :
        {count : ℕ}
        → {m : Words} → 0 < count
        → count ≤ n
        → RunOf count m
        → Ended (some (record { ret = 0; count = count; words = m }))
    no_run :
        {ret : ℕ}
        → {m : Words} → ret ≢ 0
        → RunOf 0 m
        → Ended (some (record { ret = ret; count = 0; words = m }))

  word_at : (i : ℕ) → i < n → (m : Words) → RunOf i m → m (at i) ≡ m0 (at i)
  word_at i lt m (locked, kept) = kept (at i) (λ j hj same.
      pages_apart tr layout addr n aligned (omega arith) j i (omega arith) lt (locked j hj).0
        (omega arith) (sym same))

  run_more :
      (i : ℕ)
      → i < n
      → (m : Words) → RunOf i m
      → tracking_region_fine_addr_to_idx tr (addr + i * granule_size) conv ≢ uint64_max
      → state (m0 (at i)) ≡ expected_state
      → RunOf (i + 1) (write_word m (at i) (m (at i) + 2 ^ 15))
  run_more i lt m (locked, kept) there e = (
    (λ j hj. elim (old_or_new i j hj) [
      | inl old ↦
          let (inside, matches, word) = locked j old in
          (
            inside,
            matches,
            write-other m (at i) (at j) (m (at i) + 2 ^ 15) (
                  pages_apart tr layout addr n aligned (omega arith) j i (omega arith) lt inside
                    (omega arith))
                ∙ word,
          )
      | inr same ↦ rw same (
        there,
        e,
        write-at m (at i) (m (at i) + 2 ^ 15)
            ∙ ap (λ (w : ℕ). w + 2 ^ 15) (word_at i lt m (locked, kept)),
      )
    ]),
    (λ x away.
        write-other m (at i) x (m (at i) + 2 ^ 15) (away i (omega arith))
        ∙ kept x (λ j hj. away j (omega arith))),
  )
    where
      old_or_new : (i j : ℕ) → j < i + 1 → (j < i) ⊎ (j ≡ i)
      old_or_new i j hj = omega arith

  -- The page `i` as the loop looks it up.
  abbrev look : ℕ → TrGranuleSet
  look i = record { addr = addr + i * granule_size; g_ret = 0; state = expected_state }

  -- The rest of a round, by what its look-up did.
  after_look :
      (region rounds i : ℕ)
      → i < n
      → (m : Words) → RunOf i m
      → (RunOf (i + 1) (write_word m (at i) (m (at i) + 2 ^ 15))
          → Ended (
              run_from tr region expected_state rounds
                (addr + i * granule_size + granule_size)
                (i + 1)
                (write_word m (at i) (m (at i) + 2 ^ 15))))
      → (o : Option Looked) → Found tr m (look i) o
      → Ended (
          o >>= λ looked.
          if looked.ret == 0
          then run_from tr region expected_state rounds
              (addr + i * granule_size + granule_size)
              (i + 1)
              looked.words
          else some
              (record { ret = if i == 0 then looked.ret else 0; count = i; words = looked.words }))
  after_look region rounds i lt m run next _ (taken there e) =
      next (run_more i lt m run there (ap state (sym (word_at i lt m run)) ∙ e))
  after_look region rounds i lt m run next _ (refused {ret} ne) =
      let failed : (ret == 0) ≡ false = ground arith in
      rw failed (elim (zero_or_pos i) [
        | inl none_yet ↦ rw none_yet (no_run ne (subst (λ (k : ℕ). RunOf k m) none_yet run))
        | inr pos ↦
            let later : (i == 0) ≡ false = ground arith in rw later (run_of pos (omega arith) run)
      ])

  run_from-Ended :
      (region rounds i : ℕ)
      → i + rounds ≡ n
      → 0 < n
      → (i ≡ 0 → in_region tr region (addr + i * granule_size) ≡ true)
      → (m : Words) → RunOf i m
      → Ended (run_from tr region expected_state rounds (addr + i * granule_size) i m)
  unfolding run_from
  run_from-Ended region zero i total pos first m run = run_of (omega arith) (omega arith) run
  run_from-Ended region (suc rounds) i total pos first m run =
      let lt : i < n = omega arith in
      let on_page : addr + (i + 1) * granule_size ≡ addr + i * granule_size + granule_size =
        omega arith in
      let before = word_at i lt m run in
      elim (Bool-cases (in_region tr region (addr + i * granule_size))) [
        | inr left ↦ rw left (elim (zero_or_pos i) [
          | inl none_yet ↦ absurd (differ (sym (first none_yet) ∙ left))
          | inr some_there ↦ run_of some_there (omega arith) run
        ])
        | inl inside ↦ rw inside (
            after_look region rounds i lt m run
              (λ longer.
                subst
                  (λ (c : ℕ). Ended (
                    run_from tr region expected_state rounds c (i + 1)
                      (write_word m (at i) (m (at i) + 2 ^ 15))))
                  on_page
                  (run_from-Ended region rounds (i + 1) (omega arith) pos
                    (λ z. absurd (omega (arith, z))) (write_word m (at i) (m (at i) + 2 ^ 15))
                    longer))
              _
              (lock_selected-Found tr m (look i) (omega arith) (omega arith) sized
                (rw before (quiet (at i)).0) (rw before (quiet (at i)).1) _
                (select-Selected tr m (look i) (omega arith) (omega arith) sized region)))
      ]

  nothing_locked : RunOf 0 m0
  nothing_locked = ((λ j hj. absurd (omega arith)), (λ x away. refl))

  -- The code after the loop.
  finish-Ended : (o : Option Ran) → Ended o → Ended (o >>= finish_run addr)
  unfolding finish_run
  finish-Ended _ (run_of {count} pos le run) =
      let counted : (count == 0) ≡ false = ground arith in rw counted (run_of pos le run)
  finish-Ended _ (no_run {ret} ne run) =
      let failed : (ret == 0) ≡ false = ground arith in
      let (w, (e, nonzero)) = encode_nonzero ret addr ne aligned (omega arith) in
      rw (failed, e) (no_run nonzero run)

  error-Ended :
      (ret : ℕ) → ret ≢ 0 → Ended (finish_run addr (record { ret = ret; count = 0; words = m0 }))
  error-Ended ret ne =
      finish-Ended (some (record { ret = ret; count = 0; words = m0 })) (no_run ne nothing_locked)

  -- Whatever size is active.
  sized-Ended :
      (region : ℕ)
      → 0 < n
      → tracking_region_find tr addr conv ≡ some region
      → (ret tracking_size : ℕ)
      → Ended (
          if not (ret == 0)
          then finish_run addr (record { ret = ret; count = 0; words = m0 })
          else if not (tracking_size == granule_size)
          then finish_run addr (record { ret = 12; count = 0; words = m0 })
          else run_from tr region expected_state
              ((addr + n * granule_size - addr) / granule_size)
              addr
              0
              m0
            >>= finish_run addr)
  unfolding in_region
  sized-Ended region pos e ret tracking_size =
      let rounds : (addr + n * granule_size - addr) / granule_size ≡ n = omega arith in
      let first_page : addr + 0 * granule_size ≡ addr = omega arith in
      let here : (region == region) ≡ true = ground arith in
      elim (Bool-cases (ret == 0)) [
        | inr failed ↦ rw failed (error-Ended ret (differs ret 0 failed))
        | inl fine_so_far ↦ rw fine_so_far (elim (Bool-cases (tracking_size == granule_size)) [
          | inr coarse_now ↦ rw coarse_now (error-Ended 12 (omega arith))
          | inl fine_now ↦
              rw (fine_now, rounds)
                (finish-Ended _ (
                  subst (λ (c : ℕ). Ended (run_from tr region expected_state n c 0 m0)) first_page
                    (run_from-Ended region n 0 (omega arith) pos
                      (λ z. rw (first_page, in_region, e) here) m0 nothing_locked)))
        ])
      ]

  -- For a range of one page or more below 2^52, where the banks are numbered, no granule's lock is held
  -- and every descriptor meets the invariants of its state, tr_find_lock_fine_granule_run returns:
  -- either with RMI_SUCCESS and a count of one or more, within the range, of pages from its start that
  -- are in banks, were in the state expected and are now locked, or with an error and a count of 0; no
  -- other word is changed.
  pub find_lock_run-Ended :
      0 < n
      → Ended (tr_find_lock_fine_granule_run tr m0 addr (addr + n * granule_size) expected_state)
  unfolding tr_find_lock_fine_granule_run
  find_lock_run-Ended pos =
      let accepted : (not (addr % granule_size == 0)
            || not ((addr + n * granule_size) % granule_size == 0)
            || leb (addr + n * granule_size) addr)
          ≡ false =
        ground arith in
      rw accepted (elim (Option-cases (tracking_region_find tr addr conv)) [
        | inl e ↦ rw e (no_run (omega arith) nothing_locked)
        | inr (region, e) ↦ rw e (
            sized-Ended region pos e (tr_active_tracking_size tr region).0
              (tr_active_tracking_size tr region).1)
      ])
