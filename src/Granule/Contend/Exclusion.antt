-- ===== src/Granule/Contend/Exclusion.antt =====
-- lib/granule/include/granule.h: the lock of a granule excludes, under any interleaving of processors,
-- and keeps the state of the granule from changing.
use tf_rmm.Common.{
  ℕ, ◌^◌, ◌<◌, ◌≡◌, ◌≢◌, ◌⊎◌, inl, inr, refl, sym, ap, ◌∙◌, arith, true, false, ◌==◌, if_no, if_yes,
  Bool-cases,
}
use tf_rmm.Granule.{locked, state}
use tf_rmm.Granule.Fields.{locked-word}
use tf_rmm.Granule.Contend.{Pc, System, Step, step, moved, Reachable, start, next, owns}
use tf_rmm.Granule.Contend.Moves.{Kept, Taken, Given, Kinds, move-Kinds, true_false}

-- The lock bit is clear and no processor owns it, or it is set and one processor does.
abbrev Free : System → Type 0
Free s = (locked s.word ≡ false) × ((i : ℕ) → owns (s.pc i) ≡ false)

abbrev Owned : System → Type 0
Owned s =
    (locked s.word ≡ true)
    × (i : ℕ) × ((owns (s.pc i) ≡ true) × ((j : ℕ) → owns (s.pc j) ≡ true → j ≡ i))

abbrev Exclusive : System → Type 0
Exclusive s = (s.word < 2 ^ 16) × (Free s ⊎ Owned s)

-- The others stay where they are.
module _ (pc : ℕ → Pc) (i : ℕ) (q : Pc) where
  moved_self : moved pc i q i ≡ q
  moved_self = if_yes (i == i) q (pc i) (ground arith)

  moved_other : (j : ℕ) → j ≢ i → moved pc i q j ≡ pc j
  moved_other j ne = if_no (j == i) q (pc j) (ground arith)

equal_or_not : (i j : ℕ) → (i ≡ j) ⊎ (i ≢ j)
equal_or_not i j = omega arith

module _ (w w' i : ℕ) (pc : ℕ → Pc) (q : Pc) where
  abbrev before : System
  before = record { word = w; pc = pc }

  abbrev after : System
  after = record { word = w'; pc = moved pc i q }

  -- A processor that neither takes nor gives the lock changes no ownership.
  kept-owns : owns q ≡ owns (pc i) → (j : ℕ) → owns (moved pc i q j) ≡ owns (pc j)
  kept-owns e j = elim (equal_or_not j i) [
    | inl same ↦ rw (same, moved_self pc i q) e
    | inr ne ↦ rw (moved_other pc i q j ne) refl
  ]

  -- Ownership of another processor, before the step.
  was-owns : (j : ℕ) → j ≢ i → owns (moved pc i q j) ≡ true → owns (pc j) ≡ true
  was-owns j ne own = ap owns (sym (moved_other pc i q j ne)) ∙ own

  Free-Kept : Free before → Kept (pc i) w q w' → Free after
  Free-Kept (clear, none_owns) (e, same, _) = (same ∙ clear, λ j. kept-owns e j ∙ none_owns j)

  Free-Taken : Free before → Taken (pc i) w q w' → Owned after
  Free-Taken (clear, none_owns) (_, own, _, held) = (
    held,
    i,
    (
      ap owns (moved_self pc i q) ∙ own,
      λ j own'. elim (equal_or_not j i) [
        | inl same ↦ same
        | inr ne ↦ true_false (sym (was-owns j ne own') ∙ none_owns j)
      ],
    ),
  )

  Owned-Kept : Owned before → Kept (pc i) w q w' → Owned after
  Owned-Kept (held, k, (own, only)) (e, same, _) =
      (same ∙ held, k, (kept-owns e k ∙ own, λ j own'. only j (sym (kept-owns e j) ∙ own')))

  Owned-Given : Owned before → Given (pc i) w q w' → Free after
  Owned-Given (held, k, (own, only)) (mine, left, clear) = (
    clear,
    λ j. elim (equal_or_not j i) [
      | inl same ↦ rw (same, moved_self pc i q) left
      | inr ne ↦ elim (Bool-cases (owns (moved pc i q j))) [
        | inl own' ↦ absurd (ne (only j (was-owns j ne own') ∙ sym (only i mine)))
        | inr free ↦ free
      ]
    ],
  )

  step-Exclusive : Exclusive before → Kinds (pc i) w q w' → Exclusive after
  step-Exclusive (word, inl free) (small, inl kept) = (small, inl (Free-Kept free kept))
  step-Exclusive (word, inl free) (small, inr (inl taken)) = (small, inr (Free-Taken free taken))
  step-Exclusive (word, inl free) (small, inr (inr given)) = true_false (sym (given.0) ∙ free.1 i)
  step-Exclusive (word, inr owned) (small, inl kept) = (small, inr (Owned-Kept owned kept))
  step-Exclusive (word, inr owned) (small, inr (inl taken)) = true_false (sym owned.0 ∙ taken.2)
  step-Exclusive (word, inr owned) (small, inr (inr given)) = (small, inl (Owned-Given owned given))

module _ (w w' i : ℕ) (pc : ℕ → Pc) (q : Pc) (j : ℕ) (own : owns (pc j) ≡ true) where
  not_owner : i ≢ j → Free (before w w' i pc q) ⊎ Owned (before w w' i pc q) → owns (pc i) ≡ false
  not_owner ne (inl free) = true_false (sym own ∙ free.1 j)
  not_owner ne (inr (held, k, (owned, only))) = elim (Bool-cases (owns (pc i))) [
    | inl own' ↦ absurd (ne (only i own' ∙ sym (only j own)))
    | inr free ↦ free
  ]

  step-Stable :
      owns (pc i) ≡ false
      → locked w ≡ true
      → Kinds (pc i) w q w'
      → (locked w' ≡ true) × (state w' ≡ state w)
  step-Stable other held (small, inl (e, same, kind)) = (same ∙ held, kind other)
  step-Stable other held (small, inr (inl taken)) = true_false (sym held ∙ taken.2)
  step-Stable other held (small, inr (inr given)) = true_false (sym given.0 ∙ other)

next-Exclusive : (i : ℕ) (s s' : System) → Exclusive s → Step s i s' → Exclusive s'
next-Exclusive i s s' exclusive (step {w = w} {w' = w'} {pc = pc} {q = q} made) =
    step-Exclusive w w' i pc q exclusive (move-Kinds (pc i) q w w' exclusive.0 made)

Reachable-Exclusive : {s : System} → Reachable s → Exclusive s
Reachable-Exclusive (start {w = w} lt) =
    (omega arith, inl (rw (locked-word w (omega arith)) (ground arith), λ i. refl))
Reachable-Exclusive (next {s = s} {s' = s'} {i = i} before made) =
    next-Exclusive i s s' (Reachable-Exclusive before) made

only_owner :
    (s : System) → Exclusive s → (i j : ℕ) → owns (s.pc i) ≡ true → owns (s.pc j) ≡ true → i ≡ j
only_owner s (word, inl free) i j own own' = true_false (sym own ∙ free.1 i)
only_owner s (word, inr (held, k, (owned, only))) i j own own' = only i own ∙ sym (only j own')

-- However processors interleave their accesses to a granule that starts unlocked, no two of them have
-- its lock.
pub owners-exclude :
    (s : System) → Reachable s → (i j : ℕ) → owns (s.pc i) ≡ true → owns (s.pc j) ≡ true → i ≡ j
owners-exclude s reached = only_owner s (Reachable-Exclusive reached)

-- While a processor has the lock of a granule, a step of any other leaves the lock set and the state of
-- the granule as it is.
pub held-Stable :
    (i j : ℕ) (s s' : System)
    → Reachable s
    → owns (s.pc j) ≡ true
    → i ≢ j
    → Step s i s'
    → (locked s'.word ≡ true) × (state s'.word ≡ state s.word)
held-Stable i j s s' reached own ne (step {w = w} {w' = w'} {pc = pc} {q = q} made) =
    let (word, hold) = Reachable-Exclusive reached in
    step-Stable w w' i pc q j own (not_owner w w' i pc q j own ne hold)
      (elim hold [ inl free ↦ true_false (sym own ∙ free.1 j) | inr owned ↦ owned.0 ])
      (move-Kinds (pc i) q w w' word made)
