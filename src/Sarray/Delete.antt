-- ===== src/Sarray/Delete.antt =====
-- lib/sarray/src/sarray.c: what a deletion does to the elements in use.
use tf_rmm.Common.{
  ℕ, zero, suc, ◌+◌, ◌-◌, ◌<◌, ◌≡◌, ◌≢◌, refl, arith, List, [], ◌∷◌, ◌++◌, length, take, drop, ap,
  sym, ◌∙◌, Bool, true, false, not, ◌==◌, ltb, if◌then◌else◌, if_lem, Option, none, subst,
  Bool-cases, inl, inr,
}
use native.Mathlib.Nat.{suc-add}
use tf_rmm.Sarray.{
  Sarray, Status, success, einval, eexist, enospc, enoent, key_at, elem_at, memmove,
  sarray_delete_locked, binary_search_internal, verify_sarray_hnd, copied, copy_overlaps,
}
use tf_rmm.Sarray.Order.{
  Sorted, Below, Above, find, find-Below, find-Above, Sorted-right, Sorted-remove,
}
use tf_rmm.Sarray.Search.{Place, IsValid, entries, search-Place, access, num-le-max, found-find}
use tf_rmm.Sarray.Shift.{take-delete, length-memmove}
use tf_rmm.Sarray.Parts.{find_other, gap_closed, before, parts, num-le-length, elem_at-some}

module _ {A : Type 0} where
  -- What a deletion gives, by the value it returns: on success the array is valid, holds one element
  -- less, none under the key and under every other key what it held, and the element went to the
  -- caller's memory if there is one; otherwise it is as before.
  abbrev pub Deleted : Sarray A → ℕ → Option ℕ → Sarray A × Status × Option (ℕ × A) → Type 0
  Deleted hnd key dst (after, success, got) =
      IsValid after
      × (find key (entries hnd) ≢ none)
      × (got ≡ copied dst (find key (entries hnd)))
      × (after.num_elems + 1 ≡ hnd.num_elems)
      × ((k : ℕ) → find k (entries after) ≡ (if k == key then none else find k (entries hnd)))
  Deleted hnd key dst (after, einval, got) =
      (after ≡ hnd) × (got ≡ none) × (copy_overlaps hnd dst ≡ true)
  Deleted hnd key dst (after, enoent, got) =
      (after ≡ hnd) × (got ≡ none) × (find key (entries hnd) ≡ none)
  Deleted hnd key dst (after, eexist, got) = ⊥
  Deleted hnd key dst (after, enospc, got) = ⊥

  -- The element at an index, and what follows it.
  drop-elem :
      (xs : List (ℕ × A)) (i : ℕ)
      → i < length xs
      → (a : A) × (drop i xs ≡ (key_at xs i, a) ∷ drop (i + 1) xs)
  drop-elem [] i h = absurd (omega arith)
  drop-elem ((k, a) ∷ xs) zero h = (a, refl)
  drop-elem (x ∷ xs) (suc i) h =
      let (a, e) = drop-elem xs i (omega arith) in (a, rw (suc-add i 1) e)

  Sorted-left : (k : ℕ) (a : A) (xs ys : List (ℕ × A)) → Sorted (xs ++ ((k, a) ∷ ys)) → Below k xs
  Sorted-left k a [] ys sorted = tt
  Sorted-left k a ((l, b) ∷ xs) ys (above, sorted) =
      (Above_there k l a xs ys above, Sorted-left k a xs ys sorted)
    where
      Above_there : (k l : ℕ) (a : A) (xs ys : List (ℕ × A)) → Above l (xs ++ ((k, a) ∷ ys)) → l < k
      Above_there k l a [] ys (lt, above) = lt
      Above_there k l a (x ∷ xs) ys (lt, above) = Above_there k l a xs ys above

  -- The element at `idx` has the key.
  module _ (hnd : Sarray A) (key idx : ℕ) (valid : IsValid hnd)
      (place : Place hnd.mem hnd.num_elems key (true, idx)) where
    abbrev rest : List (ℕ × A)
    rest = take (hnd.num_elems - idx - 1) (drop (idx + 1) hnd.mem)

    taken : (a : A) × (entries hnd ≡ before hnd idx ++ ((key, a) ∷ rest))
    taken =
        let (a, e) = drop-elem hnd.mem idx (omega (arith, place.0, num-le-length hnd valid)) in
        let count : hnd.num_elems - idx ≡ suc (hnd.num_elems - idx - 1) = omega (arith, place.0) in
        (
          a,
          parts hnd idx (omega (arith, place.0))
              ∙ ap (λ xs. before hnd idx ++ xs)
                  (ap (λ n. take n (drop idx hnd.mem)) count
                    ∙ ap (λ xs. take (suc (hnd.num_elems - idx - 1)) xs) e
                    ∙ ap (λ k. (k, a) ∷ rest) place.1),
        )

    taken-Sorted : Sorted (before hnd idx ++ ((key, taken.0) ∷ rest))
    taken-Sorted = subst (λ xs. Sorted xs) taken.1 valid.2

    abbrev shrunk : Sarray A
    shrunk = record hnd {
      mem = memmove hnd.mem idx (idx + 1) (hnd.num_elems - idx - 1);
      num_elems = hnd.num_elems - 1;
    }

    shrunk-entries : entries shrunk ≡ before hnd idx ++ rest
    shrunk-entries =
        let count : idx + (hnd.num_elems - idx - 1) ≡ hnd.num_elems - 1 = omega (arith, place.0) in
        subst (λ n. take n shrunk.mem ≡ before hnd idx ++ rest) count
          (take-delete idx (hnd.num_elems - idx - 1) hnd.mem
            (omega (arith, place.0, num-le-length hnd valid)))

    shrunk-IsValid : IsValid shrunk
    unfolding verify_sarray_hnd
    shrunk-IsValid = (
      ground (arith, valid.0, num-le-max hnd valid),
      length-memmove hnd.mem idx (idx + 1) (hnd.num_elems - idx - 1)
            (omega (arith, place.0, num-le-length hnd valid))
            (omega (arith, place.0, num-le-length hnd valid))
          ∙ valid.1,
      subst (λ xs. Sorted xs) (sym shrunk-entries)
          (Sorted-remove (key, taken.0) (before hnd idx) rest taken-Sorted),
    )

    shrunk-Deleted :
        (dst : Option ℕ) → Deleted hnd key dst (shrunk, success, copied dst (elem_at hnd.mem idx))
    shrunk-Deleted dst = (
      shrunk-IsValid,
      λ none_there.
          elem_at-some hnd.mem idx (omega (arith, place.0, num-le-length hnd valid))
            (found-find hnd key (true, idx) valid place ∙ none_there),
      ap (λ x. copied dst x) (found-find hnd key (true, idx) valid place),
      omega (arith, place.0),
      λ k. elim (Bool-cases (k == key)) [
        | inl same ↦
            let here : k ≡ key = ground arith in
            rw (shrunk-entries, same, here)
              (find-Below key (before hnd idx) rest
                  (Sorted-left key taken.0 (before hnd idx) rest taken-Sorted)
                ∙ find-Above key rest
                    (Sorted-right (before hnd idx) ((key, taken.0) ∷ rest) taken-Sorted).0)
        | inr differ ↦
            rw (shrunk-entries, taken.1, differ)
              (sym (find_other k key taken.0 (before hnd idx) rest (ground arith)))
      ],
    )

  -- What a deletion does with what the search gives.
  abbrev delete_at : Sarray A → Option ℕ → Bool × ℕ → Sarray A × Status × Option (ℕ × A)
  delete_at hnd dst (found, idx) =
      if not found
      then (hnd, enoent, none)
      else if copy_overlaps hnd dst
      then (hnd, einval, none)
      else let count = hnd.num_elems - idx - 1 in
        let moved = if ltb 0 count then memmove hnd.mem idx (idx + 1) count else hnd.mem in
        (
          record hnd { mem = moved; num_elems = hnd.num_elems - 1 },
          success,
          copied dst (elem_at hnd.mem idx),
        )

  delete_at-Deleted :
      (hnd : Sarray A) (key : ℕ) (dst : Option ℕ) (result : Bool × ℕ)
      → IsValid hnd
      → Place hnd.mem hnd.num_elems key result
      → Deleted hnd key dst (delete_at hnd dst result)
  delete_at-Deleted hnd key dst (false, idx) valid place =
      (refl, refl, sym (found-find hnd key (false, idx) valid place))
  delete_at-Deleted hnd key dst (true, idx) valid place =
      if_lem (Deleted hnd key dst) (copy_overlaps hnd dst) (λ overlaps. (refl, refl, overlaps))
        (λ apart.
          rw (gap_closed hnd.mem idx (hnd.num_elems - idx - 1))
            (shrunk-Deleted hnd key idx valid place dst))

  -- For a valid array, a deletion returns 0, -EINVAL or -ENOENT. On success the key was present, its
  -- element is copied out if the caller gave memory for it, the array is valid with one element less,
  -- and a scan finds nothing under the key and under any other key what it found before. Otherwise the
  -- array is as before and nothing is copied: that memory overlaps it, or the key is absent.
  pub delete-Deleted :
      (hnd : Sarray A) (key : ℕ) (dst : Option ℕ)
      → IsValid hnd
      → Deleted hnd key dst (sarray_delete_locked hnd hnd.elem_sz key dst)
  unfolding sarray_delete_locked
  delete-Deleted hnd key dst valid = rw (access hnd valid) (
      delete_at-Deleted hnd key dst (binary_search_internal hnd hnd.elem_sz key 0) valid
        (search-Place hnd key 0 valid))
