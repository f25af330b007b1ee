-- ===== src/Sarray/Parts.antt =====
-- lib/sarray/src/sarray.c: the elements in use around an index.
use tf_rmm.Common.{
  ℕ, zero, suc, ◌+◌, ◌-◌, ◌<◌, ◌≤◌, ◌≡◌, ◌≢◌, refl, arith, List, [], ◌∷◌, ◌++◌, length, take, drop,
  sym, true, false, ◌==◌, ltb, if◌then◌else◌, Option, none, some, subst, Bool-cases, inl, inr,
}
use native.Mathlib.Nat.{zero-add, suc-add}
use tf_rmm.Sarray.{Sarray, key_at, elem_at, memmove}
use tf_rmm.Sarray.Order.{find}
use tf_rmm.Sarray.Search.{IsValid, entries, num-le-max}
use tf_rmm.Sarray.Shift.{take_split, memmove_none}

module _ {A : Type 0} where
  pub find_other :
      (k key : ℕ) (a : A) (xs ys : List (ℕ × A))
      → k ≢ key
      → find k (xs ++ ((key, a) ∷ ys)) ≡ find k (xs ++ ys)
  find_other k key a [] ys ne = let differ : (key == k) ≡ false = ground arith in rw differ refl
  find_other k key a ((l, b) ∷ xs) ys ne = elim (Bool-cases (l == k)) [
    | inl here ↦ rw here refl
    | inr there ↦ rw there (find_other k key a xs ys ne)
  ]

  -- The memory after an insertion at `idx`, whether or not the elements above had to move.
  pub room_made :
      (mem : List (ℕ × A)) (idx count : ℕ)
      → (if ltb 0 count then memmove mem (idx + 1) idx count else mem)
        ≡ memmove mem (idx + 1) idx count
  room_made mem idx zero = sym (memmove_none mem (idx + 1) idx)
  room_made mem idx (suc count) =
      let some_left : ltb 0 (suc count) ≡ true = ground arith in rw some_left refl

  pub gap_closed :
      (mem : List (ℕ × A)) (idx count : ℕ)
      → (if ltb 0 count then memmove mem idx (idx + 1) count else mem)
        ≡ memmove mem idx (idx + 1) count
  gap_closed mem idx zero = sym (memmove_none mem idx (idx + 1))
  gap_closed mem idx (suc count) =
      let some_left : ltb 0 (suc count) ≡ true = ground arith in rw some_left refl

  pub key_at-drop : (n i : ℕ) (xs : List (ℕ × A)) → key_at (drop n xs) i ≡ key_at xs (n + i)
  key_at-drop zero i xs = rw (zero-add i) refl
  key_at-drop (suc n) i [] = refl
  key_at-drop (suc n) i (x ∷ xs) = rw (suc-add n i) (key_at-drop n i xs)

  abbrev pub before : Sarray A → ℕ → List (ℕ × A)
  before hnd idx = take idx hnd.mem

  abbrev pub from : Sarray A → ℕ → List (ℕ × A)
  from hnd idx = take (hnd.num_elems - idx) (drop idx hnd.mem)

  pub parts :
      (hnd : Sarray A) (idx : ℕ)
      → idx ≤ hnd.num_elems
      → entries hnd ≡ before hnd idx ++ from hnd idx
  parts hnd idx le =
      subst (λ n. take n hnd.mem ≡ before hnd idx ++ from hnd idx) (omega arith)
        (take_split idx (hnd.num_elems - idx) hnd.mem)

  pub num-le-length : (hnd : Sarray A) → IsValid hnd → hnd.num_elems ≤ length hnd.mem
  num-le-length hnd valid = omega (arith, num-le-max hnd valid, valid.1)

  Present : Option (ℕ × A) → Type 0
  Present none = ⊥
  Present (some x) = Unit

  pub elem_at-some : (xs : List (ℕ × A)) (i : ℕ) → i < length xs → elem_at xs i ≢ none
  unfolding Present
  elem_at-some [] i h e = omega arith
  elem_at-some (x ∷ xs) zero h e = subst (λ o. Present o) e tt
  elem_at-some (x ∷ xs) (suc i) h e = elem_at-some xs i (omega arith) e
