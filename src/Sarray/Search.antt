-- ===== src/Sarray/Search.antt =====
-- lib/sarray/src/sarray.c: what the binary search finds.
use tf_rmm.Common.{
  ℕ, zero, suc, ◌+◌, ◌-◌, ◌/◌, ◌<◌, ◌≤◌, ◌≡◌, ◌≢◌, refl, arith, Bool, true, false, not, ◌==◌,
  ==_iff, ltb, leb, if◌then◌else◌, none, List, [], ◌∷◌, length, take, length-take, if_lem, sym, ◌∙◌,
  ◌⊎◌, inl, inr,
}
use tf_rmm.Sarray.{
  Sarray, key_at, elem_at, search_between, binary_search_internal, sarray_lookup_locked,
  verify_sarray_hnd, verify_sarray_access,
}
use tf_rmm.Sarray.Order.{Sorted, find, key_at-lt}

module _ {ℓ} {A : Type ℓ} where
  -- The key is at the index, or belongs there: all keys before are smaller, and all from there greater.
  abbrev pub Place : List (ℕ × A) → ℕ → ℕ → Bool × ℕ → Type 0
  Place mem n key (true, idx) = (idx < n) × (key_at mem idx ≡ key)
  Place mem n key (false, idx) =
      (idx ≤ n)
      × ((i : ℕ) → i < idx → key_at mem i < key)
      × ((i : ℕ) → idx ≤ i → i < n → key < key_at mem i)

  module _ (mem : List (ℕ × A)) (n key : ℕ)
      (order : (i j : ℕ) → i < j → j < n → key_at mem i < key_at mem j) where
    low : (m i : ℕ) → m < n → key_at mem m < key → i < m + 1 → key_at mem i < key
    low m i h lt le = elim (split i m le) [
      | inl same ↦ rw same lt
      | inr before ↦ omega (arith, order i m before h)
    ]
      where
        split : (i m : ℕ) → i < m + 1 → (i ≡ m) ⊎ (i < m)
        split i m le = omega arith

    high : (m i : ℕ) → key < key_at mem m → m ≤ i → i < n → key < key_at mem i
    high m i lt le h = elim (split i m le) [
      | inl same ↦ rw same lt
      | inr after ↦ omega (arith, order m i after h)
    ]
      where
        split : (i m : ℕ) → m ≤ i → (i ≡ m) ⊎ (m < i)
        split i m le = omega arith

    pub search_between-Place :
        (rounds left right : ℕ)
        → right ≤ n
        → left ≤ right
        → right - left ≤ rounds
        → ((i : ℕ) → i < left → key_at mem i < key)
        → ((i : ℕ) → right ≤ i → i < n → key < key_at mem i)
        → Place mem n key (search_between rounds mem key left right)
    unfolding search_between
    search_between-Place zero left right le between enough lows highs =
        (omega arith, lows, λ i h. highs i (omega arith))
    search_between-Place (suc rounds) left right le between enough lows highs =
        if_lem (Place mem n key) (leb right left)
          (λ empty. (omega arith, lows, λ i h. highs i (ground arith)))
          (λ some_left.
            let inside : left < right = ground arith in
            if_lem (Place mem n key) (key_at mem mid == key)
              (λ here. (omega arith, (==_iff (key_at mem mid) key).0 here))
              (λ elsewhere.
                if_lem (Place mem n key) (ltb (key_at mem mid) key)
                  (λ above.
                    search_between-Place rounds (mid + 1) right le (omega arith) (omega arith)
                      (λ i. low mid i (omega arith) (ground arith)) highs)
                  (λ below.
                    search_between-Place rounds left mid (omega arith) (omega arith) (omega arith)
                      lows (λ i. high mid i (ground arith)))))
      where
        mid : ℕ
        mid = left + (right - left) / 2

  find-at :
      (key : ℕ) (xs : List (ℕ × A)) (i : ℕ)
      → Sorted xs
      → i < length xs
      → key_at xs i ≡ key
      → find key xs ≡ elem_at xs i
  find-at key [] i sorted bound here = absurd (omega arith)
  find-at key ((k, a) ∷ xs) zero sorted bound here =
      let same : (k == key) ≡ true = ground arith in rw same refl
  find-at key ((k, a) ∷ xs) (suc i) sorted bound here =
      let first = key_at-lt 0 (suc i) ((k, a) ∷ xs) sorted (omega arith) bound in
      let differ : (k == key) ≡ false = ground arith in
      rw differ (find-at key xs i sorted.1 (omega arith) here)

  pub find-absent :
      (key : ℕ) (xs : List (ℕ × A))
      → ((i : ℕ) → i < length xs → key_at xs i ≢ key)
      → find key xs ≡ none
  find-absent key [] differ = refl
  find-absent key ((k, a) ∷ xs) differ =
      let first : (k == key) ≡ false = ground (arith, differ 0) in
      rw first (find-absent key xs (λ i h. differ (suc i) (omega arith)))

  pub key_at-take : (n i : ℕ) (xs : List (ℕ × A)) → i < n → key_at (take n xs) i ≡ key_at xs i
  key_at-take zero i xs h = absurd (omega arith)
  key_at-take (suc n) i [] h = refl
  key_at-take (suc n) zero (x ∷ xs) h = refl
  key_at-take (suc n) (suc i) (x ∷ xs) h = key_at-take n i xs (omega arith)

  elem_at-take : (n i : ℕ) (xs : List (ℕ × A)) → i < n → elem_at (take n xs) i ≡ elem_at xs i
  elem_at-take zero i xs h = absurd (omega arith)
  elem_at-take (suc n) i [] h = refl
  elem_at-take (suc n) zero (x ∷ xs) h = refl
  elem_at-take (suc n) (suc i) (x ∷ xs) h = elem_at-take n i xs (omega arith)

  -- The elements in use.
  abbrev pub entries : Sarray A → List (ℕ × A)
  entries hnd = take hnd.num_elems hnd.mem

  -- The handle passes the checks, its memory holds `max_elems` elements, and those in use are sorted.
  abbrev pub IsValid : Sarray A → Type 0
  IsValid hnd =
      (verify_sarray_hnd hnd ≡ true) × (length hnd.mem ≡ hnd.max_elems) × Sorted (entries hnd)

  pub num-le-max : (hnd : Sarray A) → IsValid hnd → hnd.num_elems ≤ hnd.max_elems
  unfolding verify_sarray_hnd
  num-le-max hnd (ok, len, sorted) = ground (arith, ok)

  pub access : (hnd : Sarray A) → IsValid hnd → verify_sarray_access hnd hnd.elem_sz ≡ true
  unfolding verify_sarray_access
  access hnd (ok, len, sorted) = rw ok (ground arith)

  pub search-Place :
      (hnd : Sarray A) (key idx : ℕ)
      → IsValid hnd
      → Place hnd.mem hnd.num_elems key (binary_search_internal hnd hnd.elem_sz key idx)
  unfolding binary_search_internal
  search-Place hnd key idx valid = rw (access hnd valid) (
      search_between-Place hnd.mem hnd.num_elems key (ordered hnd valid) hnd.num_elems 0
        hnd.num_elems (omega arith) (omega arith) (omega arith) (λ i h. absurd (omega arith))
        (λ i h k. absurd (omega arith)))
    where
      ordered :
          (hnd : Sarray A)
          → IsValid hnd
          → (i j : ℕ) → i < j
          → j < hnd.num_elems
          → key_at hnd.mem i < key_at hnd.mem j
      ordered hnd valid i j lt h =
          rw
            (
              ← key_at-take hnd.num_elems i hnd.mem (omega arith),
              ← key_at-take hnd.num_elems j hnd.mem h,
            )
            (key_at-lt i j (entries hnd) valid.2 lt (
              rw (length-take hnd.num_elems hnd.mem (omega (arith, num-le-max hnd valid, valid.1)))
                h))

  pub found-find :
      (hnd : Sarray A) (key : ℕ) (result : Bool × ℕ)
      → IsValid hnd
      → Place hnd.mem hnd.num_elems key result
      → (if not result.0 then none else elem_at hnd.mem result.1) ≡ find key (entries hnd)
  found-find hnd key (true, idx) valid (lt, here) = sym (
      find-at key (entries hnd) idx valid.2
        (rw (length-take hnd.num_elems hnd.mem (omega (arith, num-le-max hnd valid, valid.1))) lt)
        (key_at-take hnd.num_elems idx hnd.mem lt ∙ here)
      ∙ elem_at-take hnd.num_elems idx hnd.mem lt)
  found-find hnd key (false, idx) valid (le, lows, highs) =
      sym (find-absent key (entries hnd) differ)
    where
      split : (i j : ℕ) → (i < j) ⊎ (j ≤ i)
      split i j = omega arith

      differ : (i : ℕ) → i < length (entries hnd) → key_at (entries hnd) i ≢ key
      differ i h here =
          let size =
            length-take hnd.num_elems hnd.mem (omega (arith, num-le-max hnd valid, valid.1)) in
          let inside : i < hnd.num_elems = omega (arith, size, h) in
          let same = key_at-take hnd.num_elems i hnd.mem inside in
          elim (split i idx) [
            | inl before ↦ omega (arith, lows i before, same, here)
            | inr after ↦ omega (arith, highs i after inside, same, here)
          ]

  -- On a valid array, the binary search looks a key up as the scan from the first element does: it
  -- gives the element with the key, and NULL exactly when no element in use has it.
  pub lookup-find :
      (hnd : Sarray A) (key : ℕ)
      → IsValid hnd
      → sarray_lookup_locked hnd hnd.elem_sz key ≡ find key (entries hnd)
  unfolding sarray_lookup_locked
  lookup-find hnd key valid = rw (access hnd valid) (
      found-find hnd key (binary_search_internal hnd hnd.elem_sz key 0) valid
        (search-Place hnd key 0 valid))
