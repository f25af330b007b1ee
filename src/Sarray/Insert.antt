-- ===== src/Sarray/Insert.antt =====
-- lib/sarray/src/sarray.c: what an insertion does to the elements in use.
use tf_rmm.Common.{
  ℕ, suc, ◌+◌, ◌-◌, ◌<◌, ◌≡◌, ◌≢◌, refl, arith, ◌∷◌, ◌++◌, take, drop, set, sym, ◌∙◌, Bool, true,
  false, ◌==◌, ltb, if◌then◌else◌, if_lem, length-take, length-set, none, some, subst, Bool-cases,
  inl, inr,
}
use tf_rmm.Sarray.{
  Sarray, Status, success, einval, eexist, enospc, enoent, memmove, sarray_insert_locked,
  binary_search_internal, verify_sarray_hnd, data_overlaps_sarray,
}
use tf_rmm.Sarray.Order.{
  Sorted, Below, Above, find, find-Below, find-Above, find_here, Sorted-insert, Below-each,
  Above-each,
}
use tf_rmm.Sarray.Search.{
  Place, IsValid, entries, search-Place, access, num-le-max, key_at-take, found-find,
}
use tf_rmm.Sarray.Shift.{take-insert, length-memmove, length-drop}
use tf_rmm.Sarray.Parts.{
  find_other, room_made, key_at-drop, before, from, parts, num-le-length, elem_at-some,
}

module _ {A : Type 0} where
  -- What an insertion gives, by the value it returns: on success the array is valid, holds one element
  -- more, the new one under its key and under every other key what it held; otherwise it is as before.
  abbrev pub Inserted : Sarray A → ℕ → ℕ → A → Sarray A × Status → Type 0
  Inserted hnd key addr a (after, success) =
      IsValid after
      × (find key (entries hnd) ≡ none)
      × (after.num_elems ≡ hnd.num_elems + 1)
      × ((k : ℕ)
          → find k (entries after) ≡ (if k == key then some (key, a) else find k (entries hnd)))
  Inserted hnd key addr a (after, einval) = (after ≡ hnd) × (data_overlaps_sarray hnd addr ≡ true)
  Inserted hnd key addr a (after, eexist) = (after ≡ hnd) × (find key (entries hnd) ≢ none)
  Inserted hnd key addr a (after, enospc) =
      (after ≡ hnd) × (find key (entries hnd) ≡ none) × (hnd.num_elems ≡ hnd.max_elems)
  Inserted hnd key addr a (after, enoent) = ⊥

  -- A key that belongs at `idx`.
  module _ (hnd : Sarray A) (key idx : ℕ) (valid : IsValid hnd)
      (place : Place hnd.mem hnd.num_elems key (false, idx)) where
    before-Below : Below key (before hnd idx)
    before-Below = Below-each key (before hnd idx) (λ i h.
        let inside : i < idx =
          subst (λ n. i < n)
            (length-take idx hnd.mem (omega (arith, place.0, num-le-length hnd valid))) h in
        rw (key_at-take idx i hnd.mem inside) (place.1 i inside))

    from-Above : Above key (from hnd idx)
    from-Above = Above-each key (from hnd idx) (λ i h.
        let size =
          length-take (hnd.num_elems - idx) (drop idx hnd.mem)
            (omega (arith, length-drop idx hnd.mem, num-le-length hnd valid)) in
        let inside : i < hnd.num_elems - idx = omega (arith, h, size) in
        rw
          (key_at-take (hnd.num_elems - idx) i (drop idx hnd.mem) inside, key_at-drop idx i hnd.mem)
          (place.2 (idx + i) (omega arith) (omega arith)))

    absent : find key (entries hnd) ≡ none
    absent = rw (parts hnd idx place.0) (
        find-Below key (before hnd idx) (from hnd idx) before-Below
        ∙ find-Above key (from hnd idx) from-Above)

    -- The array once the element is put there.
    module _ (a : A) (room : hnd.num_elems ≢ hnd.max_elems) where
      abbrev grown : Sarray A
      grown = record hnd {
        mem = set (memmove hnd.mem (idx + 1) idx (hnd.num_elems - idx)) idx (key, a);
        num_elems = hnd.num_elems + 1;
      }

      grown-entries : entries grown ≡ before hnd idx ++ ((key, a) ∷ from hnd idx)
      grown-entries =
          let count : suc (idx + (hnd.num_elems - idx)) ≡ hnd.num_elems + 1 =
            omega (arith, place.0) in
          subst (λ n. take n grown.mem ≡ before hnd idx ++ ((key, a) ∷ from hnd idx)) count
            (take-insert idx (hnd.num_elems - idx) (key, a) hnd.mem
              (omega (arith, num-le-max hnd valid, valid.1, place.0)))

      grown-IsValid : IsValid grown
      unfolding verify_sarray_hnd
      grown-IsValid = (
        ground (arith, valid.0, num-le-max hnd valid),
        length-set (memmove hnd.mem (idx + 1) idx (hnd.num_elems - idx)) idx (key, a)
            ∙ length-memmove hnd.mem (idx + 1) idx (hnd.num_elems - idx)
                (omega (arith, num-le-max hnd valid, valid.1, place.0))
                (omega (arith, num-le-max hnd valid, valid.1, place.0))
            ∙ valid.1,
        subst (λ xs. Sorted xs) (sym grown-entries)
            (Sorted-insert key a (before hnd idx) (from hnd idx) before-Below from-Above
              (subst (λ xs. Sorted xs) (parts hnd idx place.0) valid.2)),
      )

      grown-Inserted : (addr : ℕ) → Inserted hnd key addr a (grown, success)
      grown-Inserted addr = (
        grown-IsValid,
        absent,
        refl,
        λ k. elim (Bool-cases (k == key)) [
          | inl same ↦
              let here : k ≡ key = ground arith in
              rw (grown-entries, same, here)
                (find-Below key (before hnd idx) ((key, a) ∷ from hnd idx) before-Below
                  ∙ find_here key a (from hnd idx))
          | inr differ ↦
              rw (grown-entries, parts hnd idx place.0, differ)
                (find_other k key a (before hnd idx) (from hnd idx) (ground arith))
        ],
      )

  -- What an insertion does with what the search gives.
  abbrev insert_at : Sarray A → ℕ → A → Bool × ℕ → Sarray A × Status
  insert_at hnd key a (found, idx) =
      if found
      then (hnd, eexist)
      else if hnd.num_elems == hnd.max_elems
      then (hnd, enospc)
      else let count = hnd.num_elems - idx in
        let moved = if ltb 0 count then memmove hnd.mem (idx + 1) idx count else hnd.mem in
        (record hnd { mem = set moved idx (key, a); num_elems = hnd.num_elems + 1 }, success)

  insert_at-Inserted :
      (hnd : Sarray A) (key addr : ℕ) (a : A) (result : Bool × ℕ)
      → IsValid hnd
      → Place hnd.mem hnd.num_elems key result
      → Inserted hnd key addr a (insert_at hnd key a result)
  insert_at-Inserted hnd key addr a (true, idx) valid place = (
    refl,
    λ none_there.
        elem_at-some hnd.mem idx (omega (arith, place.0, num-le-length hnd valid))
          (found-find hnd key (true, idx) valid place ∙ none_there),
  )
  insert_at-Inserted hnd key addr a (false, idx) valid place =
      if_lem (Inserted hnd key addr a) (hnd.num_elems == hnd.max_elems)
        (λ full. (refl, absent hnd key idx valid place, ground arith))
        (λ room.
          rw (room_made hnd.mem idx (hnd.num_elems - idx))
            (grown-Inserted hnd key idx valid place a (ground arith) addr))

  -- For a valid array, an insertion returns 0, -EINVAL, -EEXIST or -ENOSPC. On success the
  -- key was absent, the array is valid with one element more, and a scan finds the new element under
  -- its key and under any other key what it found before. Otherwise the array is as before: the data
  -- overlap it, the key is present, or it is absent and the array is full.
  pub insert-Inserted :
      (hnd : Sarray A) (key addr : ℕ) (a : A)
      → IsValid hnd
      → Inserted hnd key addr a (sarray_insert_locked hnd hnd.elem_sz key addr a)
  unfolding sarray_insert_locked
  insert-Inserted hnd key addr a valid = rw (access hnd valid) (
      if_lem (Inserted hnd key addr a) (data_overlaps_sarray hnd addr)
        (λ overlaps. (refl, overlaps))
        (λ apart.
          insert_at-Inserted hnd key addr a (binary_search_internal hnd hnd.elem_sz key 0) valid
            (search-Place hnd key 0 valid)))
