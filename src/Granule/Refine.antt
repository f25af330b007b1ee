-- ===== src/Granule/Refine.antt =====
-- lib/granule/include/granule.h: the operations on a descriptor implement the specification.
use tf_rmm.Common.{
  ℕ, ◌+◌, ◌-◌, ◌/◌, ◌%◌, ◌^◌, ◌<◌, ◌≤◌, ◌≡◌, refl, sym, ap, arith, Bool, true, false, not, ◌&&◌,
  ◌||◌, ◌==◌, ltb, leb, if◌then◌else◌, Option, none, some, subst, ==_iff, Bool-cases, inl, inr,
}
use tf_rmm.Granule.{
  Attempt, waits, ended, result_of, lock, unlock, unlocked_invariants, unlock_transition,
  unlock_transition_to_delegated,
}
use tf_rmm.Granule.Fields.{
  pack, locked-pack, refcount-pack, state-pack, get_state-pack, set_state-pack, acquire-pack,
  release-pack, refcount_inc-pack, refcount_dec-pack, put_release-pack,
}
use tf_rmm.Granule.Spec.{
  View, view, Op, lock_in, release, change, move, delegate, get, put, put_release, run, limit,
  at_rest, spec, Fits,
}

-- The view of a packed word.
view-pack :
    (l s r : ℕ)
    → l ≤ 1
    → s < 32
    → r < 1024
    → view (pack l s r) ≡ record { held = l == 1; kind = s; refs = r }
view-pack l s r hl hs hr =
    rw (locked-pack l s r hl hs hr, state-pack l s r hl hs hr, refcount-pack l s r hl hs hr) refl

-- The assertions on an unlocked granule bound its references.
at_rest-pack :
    (l s r st : ℕ) → l ≤ 1 → s < 32 → r < 1024 → unlocked_invariants (pack l s r) st ≡ at_rest st r
unfolding unlocked_invariants limit
at_rest-pack l s r st hl hs hr = rw (refcount-pack l s r hl hs hr) (ground arith)

-- A word of 16 bits that shows the view, where the specification allows the operation; a failed
-- assertion, where it does not.
abbrev pub Shows : Option ℕ → Option View → Type 0
Shows (some g) (some v) = (g < 2 ^ 16) × (view g ≡ v)
Shows (some g) none = ⊥
Shows none (some v) = ⊥
Shows none none = Unit

-- The operation waits exactly where the specification has it wait, and ends as the specification does.
abbrev pub Refines : Attempt ℕ → Attempt View → Type 0
Refines waits waits = Unit
Refines (ended r) (ended s) = Shows r s
Refines waits (ended s) = ⊥
Refines (ended r) waits = ⊥

-- The word that an operation writes under a condition, which bounds the fields.
if_Shows :
    (c : Bool) (l s r : ℕ)
    → (c ≡ true → (l ≤ 1) × (s < 32) × (r < 1024))
    → Shows
        (if c then some (pack l s r) else none)
        (if c then some (record { held = l == 1; kind = s; refs = r }) else none)
if_Shows true l s r bounds =
    let (hl, hs, hr) = bounds refl in (omega arith, view-pack l s r hl hs hr)
if_Shows false l s r bounds = tt

module _ (l s r : ℕ) (hl : l ≤ 1) (hs : s < 32) (hr : r < 1024) where
  abbrev g : ℕ
  g = pack l s r

  lock-pack :
      (st : ℕ)
      → st < 32
      → lock g st ≡ (
          if l == 1
          then waits
          else ended (if s == st && at_rest st r then some (pack 1 s r) else none))
  unfolding lock
  lock-pack st small =
      rw (lock, acquire-pack l s r hl hs hr)
        (elim (Bool-cases (l == 1)) [
          | inl held ↦ rw held refl
          | inr free ↦ rw free (
              rw
                (
                  get_state-pack 1 s r (omega arith) hs hr,
                  at_rest-pack 1 s r st (omega arith) hs hr,
                )
                refl)
        ])

  unlock-pack : unlock g ≡ (if l == 1 && at_rest s r then some (pack 0 s r) else none)
  unfolding unlock
  unlock-pack =
      rw (get_state-pack l s r hl hs hr, release-pack l s r hl hs hr)
        (elim (Bool-cases (l == 1)) [
          | inl held ↦ rw held (rw (at_rest-pack l s r s hl hs hr) refl)
          | inr free ↦ rw free refl
        ])

-- An operation whose guard is split from the assertions of the unlock after it.
both_guards :
    (a b : Bool) (x : Option ℕ)
    → (if a then (if b then x else none) else none) ≡ (if a && b then x else none)
both_guards true b x = refl
both_guards false b x = refl

module _ (l s r : ℕ) (hl : l ≤ 1) (hs : s < 32) (hr : r < 1024) where
  abbrev h : ℕ
  h = pack l s r

  move-pack :
      (st : ℕ)
      → st < 32
      → unlock_transition h st ≡ (
          if l == 1 && (not (st == 1) || s == 0 || s == 11) && at_rest st r
          then some (pack 0 st r)
          else none)
  unfolding unlock_transition
  move-pack st small =
      rw (get_state-pack l s r hl hs hr, set_state-pack l s r hl hs hr st small)
        (elim (Bool-cases (l == 1)) [
          | inl held ↦ rw held (
              rw (locked_one l held, unlock-pack 1 st r (omega arith) small hr)
                (both_guards (not (st == 1) || s == 0 || s == 11) (at_rest st r)
                  (some (pack 0 st r))))
          | inr free ↦ rw free refl
        ])
    where
      locked_one : (l : ℕ) → (l == 1) ≡ true → l ≡ 1
      locked_one l e = (==_iff l 1).0 e

  delegate-pack :
      unlock_transition_to_delegated h
      ≡ (if l == 1 && ltb 1 s && r == 0 then some (pack 0 1 0) else none)
  unfolding unlock_transition_to_delegated limit
  delegate-pack =
      rw (get_state-pack l s r hl hs hr, set_state-pack l s r hl hs hr 1 (omega arith))
        (elim (Bool-cases (l == 1)) [
          | inl held ↦ rw held (
              rw ((==_iff l 1).0 held, unlock-pack 1 1 r (omega arith) (omega arith) hr)
                (ground arith))
          | inr free ↦ rw free refl
        ])

-- The fields of a word.
repack : (g : ℕ) → g ≡ pack (g / 2 ^ 15) (g / 2 ^ 10 % 32) (g % 1024)
repack g = omega arith

-- Every operation on a packed word does to the view what the specification says.
op-pack :
    (op : Op) (l s r : ℕ)
    → l ≤ 1
    → s < 32
    → r < 1024
    → Fits op
    → Refines (run op (pack l s r)) (spec op (record { held = l == 1; kind = s; refs = r }))
unfolding run spec
op-pack (lock_in st) l s r hl hs hr fits =
    rw (lock-pack l s r hl hs hr st fits) (elim (Bool-cases (l == 1)) [
      | inl held ↦ rw held tt
      | inr free ↦ rw free (if_Shows (s == st && at_rest st r) 1 s r (λ e. (omega arith, hs, hr)))
    ])
op-pack release l s r hl hs hr fits =
    rw (unlock-pack l s r hl hs hr)
      (if_Shows (l == 1 && at_rest s r) 0 s r (λ e. (omega arith, hs, hr)))
op-pack (change st) l s r hl hs hr fits =
    rw (set_state-pack l s r hl hs hr st fits) (if_Shows (l == 1) l st r (λ e. (hl, fits, hr)))
op-pack (move st) l s r hl hs hr fits = rw (move-pack l s r hl hs hr st fits) (
    if_Shows (l == 1 && (not (st == 1) || s == 0 || s == 11) && at_rest st r) 0 st r
      (λ e. (omega arith, fits, hr)))
op-pack delegate l s r hl hs hr fits =
    rw (delegate-pack l s r hl hs hr)
      (if_Shows (l == 1 && ltb 1 s && r == 0) 0 1 0 (λ e. (omega arith, omega arith, omega arith)))
op-pack (get n) l s r hl hs hr fits =
    rw (refcount_inc-pack l s r hl hs hr n)
      (if_Shows (l == 1 && leb (r + n) 1023) l s (r + n) (λ e. (hl, hs, ground arith)))
op-pack (put n) l s r hl hs hr fits =
    rw (refcount_dec-pack l s r hl hs hr n)
      (if_Shows (l == 1 && leb n r) l s (r - n) (λ e. (hl, hs, omega arith)))
op-pack put_release l s r hl hs hr fits =
    rw (put_release-pack l s r hl hs hr)
      (if_Shows (not (r == 0)) l s (r - 1) (λ e. (hl, hs, omega arith)))

-- Whatever the 16 bits of a descriptor, each operation does to its lock, state and count what the
-- specification says: granule_lock waits exactly if the lock is held, and an operation that does not
-- wait fails an assertion exactly where the specification refuses it. The operations are granule_lock on
-- the word it finds, granule_unlock, __granule_set_state, granule_unlock_transition,
-- granule_unlock_transition_to_delegated, granule_refcount_inc, granule_refcount_dec and
-- atomic_granule_put_release, with a state of five digits. The specification has the bounds of the
-- assertions: it allows DATA at rest up to three references, and changes of state with references,
-- which the comments of granule_types.h rule out.
pub run-Refines : (op : Op) (g : ℕ) → g < 2 ^ 16 → Fits op → Refines (run op g) (spec op (view g))
run-Refines op g word fits =
    let l = g / 2 ^ 15 in
    let s = g / 2 ^ 10 % 32 in
    let r = g % 1024 in
    let bl : l ≤ 1 = omega arith in
    let bs : s < 32 = omega arith in
    let br : r < 1024 = omega arith in
    subst (λ w. Refines (run op w) (spec op (view w))) (sym (repack g))
      (subst (λ v. Refines (run op (pack l s r)) (spec op v)) (sym (view-pack l s r bl bs br))
        (op-pack op l s r bl bs br fits))

Refines-ended :
    (s : Attempt View) (g : ℕ)
    → Refines (ended (some g)) s
    → (g < 2 ^ 16) × (result_of s ≡ some (view g))
Refines-ended waits g h = absurd h
Refines-ended (ended none) g h = absurd h
Refines-ended (ended (some v)) g (word, seen) = (word, ap some (sym seen))

-- The same for an operation that returned.
pub run-view :
    (op : Op) (g g' : ℕ)
    → g < 2 ^ 16
    → Fits op
    → run op g ≡ ended (some g')
    → (g' < 2 ^ 16) × (result_of (spec op (view g)) ≡ some (view g'))
run-view op g g' word fits ran =
    Refines-ended (spec op (view g)) g'
      (subst (λ o. Refines o (spec op (view g))) ran (run-Refines op g word fits))
