-- ===== src/Sarray/Shift.antt =====
-- lib/sarray/src/sarray.c: what the moves of the elements above an index leave in the array.
use tf_rmm.Common.{
  ℕ, zero, suc, ◌+◌, ◌-◌, ◌<◌, ◌≤◌, ◌≡◌, refl, arith, List, [], ◌∷◌, ◌++◌, length, take, drop, set,
  ap, length-append, length-take,
}
use native.Mathlib.Nat.{zero-add, suc-add, add-zero}
use tf_rmm.Sarray.{memmove}

module _ {ℓ} {A : Type ℓ} where
  pub take-drop : (n : ℕ) (xs : List A) → take n xs ++ drop n xs ≡ xs
  take-drop zero xs = refl
  take-drop (suc n) [] = refl
  take-drop (suc n) (x ∷ xs) = ap (λ r. x ∷ r) (take-drop n xs)

  pub length-drop : (n : ℕ) (xs : List A) → length (drop n xs) ≡ length xs - n
  length-drop zero xs = omega arith
  length-drop (suc n) [] = omega arith
  length-drop (suc n) (x ∷ xs) = omega (arith, length-drop n xs)

  -- The first `c` elements before something else are all that is taken.
  take-take_append : (c : ℕ) (xs ys : List A) → c ≤ length xs → take c (take c xs ++ ys) ≡ take c xs
  take-take_append zero xs ys le = refl
  take-take_append (suc c) [] ys le = absurd (omega arith)
  take-take_append (suc c) (x ∷ xs) ys le = ap (λ r. x ∷ r) (take-take_append c xs ys (omega arith))

  -- Split at an index: what is before it, and the next `c`.
  pub take_split : (i c : ℕ) (xs : List A) → take (i + c) xs ≡ take i xs ++ take c (drop i xs)
  take_split zero c xs = rw (zero-add c) refl
  take_split (suc i) zero [] = rw (suc-add i 0) refl
  take_split (suc i) (suc c) [] = rw (suc-add i (suc c)) refl
  take_split (suc i) c (x ∷ xs) = rw (suc-add i c) (ap (λ r. x ∷ r) (take_split i c xs))

  -- Room made at `i` for `x`: the first `i + c + 1` elements.
  pub take-insert :
      (i c : ℕ) (x : A) (xs : List A)
      → i + c < length xs
      → take (suc (i + c)) (set (memmove xs (i + 1) i c) i x)
        ≡ take i xs ++ (x ∷ take c (drop i xs))
  take-insert i c x [] room = absurd (omega arith)
  take-insert zero c x (y ∷ ys) room =
      rw (zero-add c) (ap (λ r. x ∷ r) (take-take_append c (y ∷ ys) _ (omega arith)))
  take-insert (suc i) c x (y ∷ ys) room =
      rw (suc-add i c, suc-add i 1, suc-add (i + 1) c)
        (ap (λ r. y ∷ r) (take-insert i c x ys (omega arith)))

  -- The element at `i` taken out: the first `i + c` of what were `i + c + 1` elements.
  pub take-delete :
      (i c : ℕ) (xs : List A)
      → i + c < length xs
      → take (i + c) (memmove xs i (i + 1) c) ≡ take i xs ++ take c (drop (i + 1) xs)
  take-delete i c [] room = absurd (omega arith)
  take-delete zero c (y ∷ ys) room = rw (zero-add c) (take-take_append c ys _ (omega arith))
  take-delete (suc i) c (y ∷ ys) room =
      rw (suc-add i c, suc-add i 1) (ap (λ r. y ∷ r) (take-delete i c ys (omega arith)))

  pub length-memmove :
      (xs : List A) (dst src count : ℕ)
      → dst + count ≤ length xs
      → src + count ≤ length xs
      → length (memmove xs dst src count) ≡ length xs
  length-memmove xs dst src count fits inside =
      rw
        (
          length-append (take dst xs) (take count (drop src xs) ++ drop (dst + count) xs),
          length-append (take count (drop src xs)) (drop (dst + count) xs),
          length-take dst xs (omega arith),
          length-take count (drop src xs) (omega (arith, length-drop src xs)),
          length-drop (dst + count) xs,
        )
        (omega arith)

  -- A move of no element.
  pub memmove_none : (xs : List A) (i j : ℕ) → memmove xs i j 0 ≡ xs
  memmove_none xs i j = rw (add-zero i) (take-drop i xs)
