-- ===== src/Sarray/Order.antt =====
-- lib/sarray/src/sarray.c: arrays in the order of their keys, and the look-up that scans them.
use tf_rmm.Common.{
  ℕ, zero, suc, ◌<◌, ◌≡◌, refl, arith, true, false, ◌==◌, if◌then◌else◌, Option, none, some, List,
  [], ◌∷◌, ◌++◌, length,
}
use tf_rmm.Sarray.{key_at}

module _ {ℓ} {A : Type ℓ} where
  abbrev pub Below : ℕ → List (ℕ × A) → Type 0
  Below key [] = Unit
  Below key ((k, a) ∷ xs) = (k < key) × Below key xs

  abbrev pub Above : ℕ → List (ℕ × A) → Type 0
  Above key [] = Unit
  Above key ((k, a) ∷ xs) = (key < k) × Above key xs

  -- The keys ascend, and none is there twice.
  abbrev pub Sorted : List (ℕ × A) → Type 0
  Sorted [] = Unit
  Sorted ((k, a) ∷ xs) = Above k xs × Sorted xs

  -- The first element with the key.
  abbrev pub find : ℕ → List (ℕ × A) → Option (ℕ × A)
  find key [] = none
  find key ((k, a) ∷ xs) = let rest = find key xs in if k == key then some (k, a) else rest

  pub Above-trans : (j k : ℕ) (xs : List (ℕ × A)) → j < k → Above k xs → Above j xs
  Above-trans j k [] h above = tt
  Above-trans j k ((l, a) ∷ xs) h (lt, above) = (omega arith, Above-trans j k xs h above)

  pub find-Above : (key : ℕ) (xs : List (ℕ × A)) → Above key xs → find key xs ≡ none
  find-Above key [] above = refl
  find-Above key ((k, a) ∷ xs) (lt, above) =
      let differ : (k == key) ≡ false = ground arith in rw differ (find-Above key xs above)

  pub find-Below :
      (key : ℕ) (xs ys : List (ℕ × A)) → Below key xs → find key (xs ++ ys) ≡ find key ys
  find-Below key [] ys below = refl
  find-Below key ((k, a) ∷ xs) ys (lt, below) =
      let differ : (k == key) ≡ false = ground arith in rw differ (find-Below key xs ys below)

  pub find_here : (key : ℕ) (a : A) (xs : List (ℕ × A)) → find key ((key, a) ∷ xs) ≡ some (key, a)
  find_here key a xs = let same : (key == key) ≡ true = ground arith in rw same refl

  pub Sorted-right : (xs ys : List (ℕ × A)) → Sorted (xs ++ ys) → Sorted ys
  Sorted-right [] ys sorted = sorted
  Sorted-right (x ∷ xs) ys (above, sorted) = Sorted-right xs ys sorted

  Above-left : (k : ℕ) (xs ys : List (ℕ × A)) → Above k (xs ++ ys) → Above k xs
  Above-left k [] ys above = tt
  Above-left k ((l, a) ∷ xs) ys (lt, above) = (lt, Above-left k xs ys above)

  Above-right : (k : ℕ) (xs ys : List (ℕ × A)) → Above k (xs ++ ys) → Above k ys
  Above-right k [] ys above = above
  Above-right k ((l, a) ∷ xs) ys (lt, above) = Above-right k xs ys above

  Above-join : (k : ℕ) (xs ys : List (ℕ × A)) → Above k xs → Above k ys → Above k (xs ++ ys)
  Above-join k [] ys left right = right
  Above-join k ((l, a) ∷ xs) ys (lt, left) right = (lt, Above-join k xs ys left right)

  -- An element between those below it and those above it.
  pub Sorted-insert :
      (key : ℕ) (a : A) (xs ys : List (ℕ × A))
      → Below key xs
      → Above key ys
      → Sorted (xs ++ ys)
      → Sorted (xs ++ ((key, a) ∷ ys))
  Sorted-insert key a [] ys below above sorted = (above, sorted)
  Sorted-insert key a ((k, b) ∷ xs) ys (lt, below) above (first, sorted) = (
    Above-join k xs ((key, a) ∷ ys) (Above-left k xs ys first) (lt, Above-right k xs ys first),
    Sorted-insert key a xs ys below above sorted,
  )

  pub Sorted-remove :
      (x : ℕ × A) (xs ys : List (ℕ × A)) → Sorted (xs ++ (x ∷ ys)) → Sorted (xs ++ ys)
  Sorted-remove (key, a) [] ys (above, sorted) = sorted
  Sorted-remove (key, a) ((k, b) ∷ xs) ys (first, sorted) = (
    Above-join k xs ys (Above-left k xs ((key, a) ∷ ys) first)
        (Above-right k xs ((key, a) ∷ ys) first).1,
    Sorted-remove (key, a) xs ys sorted,
  )

  pub Below-each :
      (key : ℕ) (xs : List (ℕ × A)) → ((i : ℕ) → i < length xs → key_at xs i < key) → Below key xs
  Below-each key [] each = tt
  Below-each key ((k, a) ∷ xs) each =
      (each 0 (omega arith), Below-each key xs (λ i h. each (suc i) (omega arith)))

  pub Above-each :
      (key : ℕ) (xs : List (ℕ × A)) → ((i : ℕ) → i < length xs → key < key_at xs i) → Above key xs
  Above-each key [] each = tt
  Above-each key ((k, a) ∷ xs) each =
      (each 0 (omega arith), Above-each key xs (λ i h. each (suc i) (omega arith)))

  pub key_at-Above : (k i : ℕ) (xs : List (ℕ × A)) → Above k xs → i < length xs → k < key_at xs i
  key_at-Above k i [] above h = absurd (omega arith)
  key_at-Above k zero ((l, a) ∷ xs) (lt, above) h = lt
  key_at-Above k (suc i) ((l, a) ∷ xs) (lt, above) h = key_at-Above k i xs above (omega arith)

  pub key_at-lt :
      (i j : ℕ) (xs : List (ℕ × A)) → Sorted xs → i < j → j < length xs → key_at xs i < key_at xs j
  key_at-lt i j [] sorted lt h = absurd (omega arith)
  key_at-lt i zero (x ∷ xs) sorted lt h = absurd (omega arith)
  key_at-lt zero (suc j) ((k, a) ∷ xs) (above, sorted) lt h =
      key_at-Above k j xs above (omega arith)
  key_at-lt (suc i) (suc j) ((k, a) ∷ xs) (above, sorted) lt h =
      key_at-lt i j xs sorted (omega arith) (omega arith)
