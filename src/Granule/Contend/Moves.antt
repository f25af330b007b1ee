-- ===== src/Granule/Contend/Moves.antt =====
-- lib/granule/include/granule.h: what each access of a processor does to the lock and the state.
use tf_rmm.Common.{
  ℕ, ◌+◌, ◌^◌, ◌<◌, ◌≤◌, ◌≡◌, ◌⊎◌, inl, inr, refl, sym, ap, ◌∙◌, subst, arith, Bool, true, false,
  ◌&&◌, ◌==◌, if◌then◌else◌, none, some,
}
use tf_rmm.Bitlock.{bitlock_try_acquire_16, bitlock_release_16}
use tf_rmm.Bitlock.Laws.{try_acquire-free, try_acquire-held, release-value}
use tf_rmm.Granule.{waits, ended, result_of, refcount, locked, state}
use tf_rmm.Granule.Fields.{locked-word}
use tf_rmm.Granule.Refine.{run-view}
use tf_rmm.Granule.Spec.{
  View, view, at_rest, lock_in, release, change, move, delegate, get, put, put_release, run, spec,
}
use tf_rmm.Granule.Contend.{
  Pc, outside, trying, waiting, checking, holding, Move, owns, begin, look_mismatch, look_match,
  acquire, contended, wake, recheck_mismatch, recheck_match, lock_known, set, gain, lose, unlocks,
  moves, delegates, lets_go,
}

-- A move keeps the lock with whoever has it, takes it or gives it up.
abbrev pub Kept : Pc → ℕ → Pc → ℕ → Type 0
Kept p w q w' = (owns q ≡ owns p) × (locked w' ≡ locked w) × (owns p ≡ false → state w' ≡ state w)

abbrev pub Taken : Pc → ℕ → Pc → ℕ → Type 0
Taken p w q w' = (owns p ≡ false) × (owns q ≡ true) × (locked w ≡ false) × (locked w' ≡ true)

abbrev pub Given : Pc → ℕ → Pc → ℕ → Type 0
Given p w q w' = (owns p ≡ true) × (owns q ≡ false) × (locked w' ≡ false)

some_if : (c : Bool) (x v : View) → (if c then some x else none) ≡ some v → (c ≡ true) × (x ≡ v)
some_if true x v e = (refl, ap (λ o. elim o [ none ↦ x | some y ↦ y ]) e)
some_if false x v e = ground arith

-- The same under a wait.
ended_if :
    (h c : Bool) (x v : View)
    → result_of (if h then waits else ended (if c then some x else none)) ≡ some v
    → (h ≡ false) × (x ≡ v)
ended_if true c x v e = ground arith
ended_if false c x v e = (refl, (some_if c x v e).1)

abbrev pub Kinds : Pc → ℕ → Pc → ℕ → Type 0
Kinds p w q w' = (w' < 2 ^ 16) × (Kept p w q w' ⊎ (Taken p w q w' ⊎ Given p w q w'))

unmoved : (p q : Pc) (w : ℕ) → w < 2 ^ 16 → owns q ≡ owns p → Kinds p w q w
unmoved p q w word e = (word, inl (e, refl, λ _. refl))

-- An attempt on the lock, by whether the lock is free.
tried :
    (w : ℕ)
    → w < 2 ^ 16
    → ((w < 2 ^ 15) × (bitlock_try_acquire_16 w 15 ≡ (w + 2 ^ 15, true)))
      ⊎ (bitlock_try_acquire_16 w 15 ≡ (w, false))
tried w word = elim (free_or_not w) [
  | inl lt ↦ inl (lt, try_acquire-free 15 w word lt)
  | inr le ↦ inr (try_acquire-held 15 w word le)
]
  where
    free_or_not : (w : ℕ) → (w < 2 ^ 15) ⊎ (2 ^ 15 ≤ w)
    free_or_not w = omega arith

pub true_false {ℓ} : {A : Type ℓ} → true ≡ false → A
true_false e = absurd (ground arith)

take-Kinds :
    (w w' st : ℕ)
    → w < 2 ^ 16
    → bitlock_try_acquire_16 w 15 ≡ (w', true)
    → Kinds (trying st) w (checking st) w'
take-Kinds w w' st word e = elim (tried w word) [
  | inl (lt, e') ↦
      let new : w' ≡ w + 2 ^ 15 = ap (λ r. r.0) (sym e ∙ e') in
      let small : w' < 2 ^ 16 = omega arith in
      (
        small,
        inr (
            inl (
              refl,
              refl,
              rw (locked-word w word) (ground arith),
              rw (locked-word w' small) (ground arith),
            )),
      )
  | inr e' ↦ true_false (ap (λ r. r.1) (sym e ∙ e'))
]

fail-Kinds :
    (w w' st : ℕ)
    → w < 2 ^ 16
    → bitlock_try_acquire_16 w 15 ≡ (w', false)
    → Kinds (trying st) w (waiting st) w'
fail-Kinds w w' st word e = elim (tried w word) [
  | inl (lt, e') ↦ true_false (ap (λ r. r.1) (sym e' ∙ e))
  | inr e' ↦
      subst (Kinds (trying st) w (waiting st)) (ap (λ r. r.0) (sym e' ∙ e))
        (unmoved (trying st) (waiting st) w word refl)
]

back-Kinds : (w st : ℕ) → w < 2 ^ 16 → Kinds (checking st) w outside (bitlock_release_16 w 15)
back-Kinds w st word =
    let value = release-value 15 w word in
    let small : bitlock_release_16 w 15 < 2 ^ 16 = omega arith in
    (
      small,
      inr (
          inr (refl, refl, rw (locked-word (bitlock_release_16 w 15) small, value) (ground arith))),
    )

-- What the view of an operation that returned says of the lock and the state.
module _ (w w' : ℕ) (word : w < 2 ^ 16) where
  hold-Kinds : w' < 2 ^ 16 → locked w' ≡ locked w → Kinds holding w holding w'
  hold-Kinds small e = (small, inl (refl, e, λ owned. true_false owned))

  set-Kinds : (st : ℕ) → st < 32 → run (change st) w ≡ ended (some w') → Kinds holding w holding w'
  unfolding spec
  set-Kinds st fits ran =
      let (small, e) = run-view (change st) w w' word fits ran in
      let (c, v) = some_if _ _ _ e in hold-Kinds small (sym (ap (λ v. v.held) v))

  gain-Kinds : (n : ℕ) → run (get n) w ≡ ended (some w') → Kinds holding w holding w'
  unfolding spec
  gain-Kinds n ran =
      let (small, e) = run-view (get n) w w' word tt ran in
      let (c, v) = some_if _ _ _ e in hold-Kinds small (sym (ap (λ v. v.held) v))

  lose-Kinds : (n : ℕ) → run (put n) w ≡ ended (some w') → Kinds holding w holding w'
  unfolding spec
  lose-Kinds n ran =
      let (small, e) = run-view (put n) w w' word tt ran in
      let (c, v) = some_if _ _ _ e in hold-Kinds small (sym (ap (λ v. v.held) v))

  lock-Kinds :
      (st : ℕ) → st < 32 → run (lock_in st) w ≡ ended (some w') → Kinds outside w holding w'
  unfolding spec
  lock-Kinds st fits ran =
      let (small, e) = run-view (lock_in st) w w' word fits ran in
      let (free, v) =
        ended_if (locked w) (state w == st && at_rest st (refcount w))
          (record { held = true; kind = state w; refs = refcount w }) (view w') e in
      (small, inr (inl (refl, refl, free, sym (ap (λ v. v.held) v))))

  unlock-Kinds : run release w ≡ ended (some w') → Kinds holding w outside w'
  unfolding spec
  unlock-Kinds ran =
      let (small, e) = run-view release w w' word tt ran in
      let (c, v) = some_if _ _ _ e in (small, inr (inr (refl, refl, sym (ap (λ v. v.held) v))))

  transition-Kinds :
      (st : ℕ) → st < 32 → run (move st) w ≡ ended (some w') → Kinds holding w outside w'
  unfolding spec
  transition-Kinds st fits ran =
      let (small, e) = run-view (move st) w w' word fits ran in
      let (c, v) = some_if _ _ _ e in (small, inr (inr (refl, refl, sym (ap (λ v. v.held) v))))

  delegate-Kinds : run delegate w ≡ ended (some w') → Kinds holding w outside w'
  unfolding spec
  delegate-Kinds ran =
      let (small, e) = run-view delegate w w' word tt ran in
      let (c, v) = some_if _ _ _ e in (small, inr (inr (refl, refl, sym (ap (λ v. v.held) v))))

  drop-Kinds : (p : Pc) → run put_release w ≡ ended (some w') → Kinds p w p w'
  unfolding spec
  drop-Kinds p ran =
      let (small, e) = run-view put_release w w' word tt ran in
      let (c, v) = some_if _ _ _ e in
      (small, inl (refl, sym (ap (λ v. v.held) v), λ _. sym (ap (λ v. v.kind) v)))

-- Every move by what it does to the lock.
pub move-Kinds : (p q : Pc) (w w' : ℕ) → w < 2 ^ 16 → Move p w q w' → Kinds p w q w'
move-Kinds p q w w' word (begin small) = unmoved p q w word refl
move-Kinds p q w w' word (look_mismatch ne) = unmoved p q w word refl
move-Kinds p q w w' word (look_match e) = unmoved p q w word refl
move-Kinds p q w w' word (acquire {st = st} got) = take-Kinds w w' st word got
move-Kinds p q w w' word (contended {st = st} busy) = fail-Kinds w w' st word busy
move-Kinds p q w w' word (wake e) = unmoved p q w word refl
move-Kinds p q w w' word (recheck_mismatch {st = st} ne) = back-Kinds w st word
move-Kinds p q w w' word (recheck_match e ok) = unmoved p q w word refl
move-Kinds p q w w' word (lock_known st small ran) = lock-Kinds w w' word st small ran
move-Kinds p q w w' word (set st small ran) = set-Kinds w w' word st small ran
move-Kinds p q w w' word (gain n ran) = gain-Kinds w w' word n ran
move-Kinds p q w w' word (lose n ran) = lose-Kinds w w' word n ran
move-Kinds p q w w' word (unlocks ran) = unlock-Kinds w w' word ran
move-Kinds p q w w' word (moves st small ran) = transition-Kinds w w' word st small ran
move-Kinds p q w w' word (delegates ran) = delegate-Kinds w w' word ran
move-Kinds p q w w' word (lets_go ran) = drop-Kinds w w' word p ran
