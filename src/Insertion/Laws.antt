-- ===== src/Insertion/Laws.antt =====
-- The insertion sort puts the elements in order and loses none. The sorted part is held reversed, last
-- element first, as the inner loop goes through it.
use mathlib.Core.List.{Perm, append_assoc}
use mathlib.Core.List.Perm
use tf_rmm.Common.{
  ℕ, zero, suc, ◌+◌, ◌-◌, ◌≤◌, ◌≡◌, refl, sym, ap, ◌∙◌, subst, arith, Bool, true, false, inl, inr,
  if◌then◌else◌, Bool-cases, if_lem, List, [], ◌∷◌, ◌++◌, get_or, set, length, length-append, take,
  drop, take-drop, take-append, drop-append, length-take,
}
use tf_rmm.Insertion.{sift_down, sort_from}

add_zero : (n : ℕ) → n + 0 ≡ n
add_zero n = omega arith

zero-add : (n : ℕ) → 0 + n ≡ n
zero-add n = omega arith

suc-add : (n k : ℕ) → suc n + k ≡ n + suc k
suc-add n k = omega arith

module _ {ℓ} {A : Type ℓ} where
  abbrev pub onto : List A → List A → List A
  onto [] ys = ys
  onto (x ∷ r) ys = onto r (x ∷ ys)

  get_or-onto :
      (r ys : List A) (k : ℕ) (d : A) → get_or (onto r ys) (length r + k) d ≡ get_or ys k d
  get_or-onto [] ys k d = rw (zero-add k) refl
  get_or-onto (x ∷ r) ys k d = rw (suc-add (length r) k) (get_or-onto r (x ∷ ys) (suc k) d)

  set-onto :
      (r ys : List A) (k : ℕ) (v : A) → set (onto r ys) (length r + k) v ≡ onto r (set ys k v)
  set-onto [] ys k v = rw (zero-add k) refl
  set-onto (x ∷ r) ys k v = rw (suc-add (length r) k) (set-onto r (x ∷ ys) (suc k) v)

  last-onto : (r ys : List A) (x d : A) → get_or (onto r (x ∷ ys)) (length r) d ≡ x
  last-onto r ys x d =
      ap (λ (n : ℕ). get_or (onto r (x ∷ ys)) n d) (sym (add_zero (length r)))
      ∙ get_or-onto r (x ∷ ys) 0 d

  set-last : (r ys : List A) (x v : A) → set (onto r (x ∷ ys)) (length r) v ≡ onto r (v ∷ ys)
  set-last r ys x v =
      ap (λ (n : ℕ). set (onto r (x ∷ ys)) n v) (sym (add_zero (length r)))
      ∙ set-onto r (x ∷ ys) 0 v

  onto-append : (r ys : List A) → onto r ys ≡ onto r [] ++ ys
  onto-append [] ys = refl
  onto-append (x ∷ r) ys =
      onto-append r (x ∷ ys)
      ∙ sym (append_assoc (onto r []) (x ∷ []) ys)
      ∙ ap (λ (zs : List A). zs ++ ys) (sym (onto-append r (x ∷ [])))

  length-onto : (r ys : List A) → length (onto r ys) ≡ length r + length ys
  length-onto [] ys = sym (zero-add (length ys))
  length-onto (x ∷ r) ys = omega (arith, length-onto r (x ∷ ys))

  Perm-onto : (r : List A) {ys zs : List A} → Perm ys zs → Perm (onto r ys) (onto r zs)
  Perm-onto [] p = p
  Perm-onto (x ∷ r) p = Perm-onto r (Perm.cons x p)

module _ {ℓ} {A : Type ℓ} (after : A → A → Bool) where
  -- No element comes after the next one.
  abbrev pub Rising : List A → Type 0
  Rising [] = Unit
  Rising (x ∷ []) = Unit
  Rising (x ∷ y ∷ ys) = (after x y ≡ false) × Rising (y ∷ ys)

  -- The first elements put in order, and the others as they were.
  abbrev pub InOrder : ℕ → List A → List A → Type ℓ
  InOrder n xs ys =
      Perm (take n ys) (take n xs)
      × Rising (take n ys)
      × (drop n ys ≡ drop n xs)
      × (length ys ≡ length xs)

  prefix-InOrder :
      (p q t : List A)
      → length q ≡ length p
      → Perm q p
      → Rising q
      → InOrder (length p) (p ++ t) (q ++ t)
  prefix-InOrder p q t e perm rise =
      let first : take (length p) (q ++ t) ≡ q =
        ap (λ (n : ℕ). take n (q ++ t)) (sym e) ∙ take-append q t in
      let others : drop (length p) (q ++ t) ≡ t =
        ap (λ (n : ℕ). drop n (q ++ t)) (sym e) ∙ drop-append q t in
      rw (first, others, take-append p t, drop-append p t)
        (perm, rise, refl, omega (arith, length-append p t, length-append q t))

module _ {ℓ} {A : Type ℓ} (after : A → A → Bool) (d : A) where
  -- Where an element goes in the reversed sorted part.
  abbrev pub sink : A → List A → List A
  sink temp [] = temp ∷ []
  sink temp (y ∷ r) = if after y temp then y ∷ sink temp r else temp ∷ y ∷ r

  sift_down-sink :
      (r ys : List A) (temp x : A)
      → sift_down after d (length r) temp (onto r (x ∷ ys)) ≡ onto (sink temp r) ys
  unfolding sift_down
  sift_down-sink [] ys temp x = refl
  sift_down-sink (y ∷ r) ys temp x =
      rw (last-onto r (x ∷ ys) y d, set-last (y ∷ r) ys x y, set-last (y ∷ r) ys x temp)
        (elim (Bool-cases (after y temp)) [
          | inl later ↦ rw later (sift_down-sink r (y ∷ ys) temp y)
          | inr not_later ↦ rw not_later refl
        ])

  length-sink : (temp : A) (r : List A) → length (sink temp r) ≡ suc (length r)
  length-sink temp [] = refl
  length-sink temp (y ∷ r) =
      if_lem (λ s. length s ≡ suc (suc (length r))) (after y temp)
        (λ _. ap suc (length-sink temp r)) (λ _. refl)

  -- The sorted part after more elements.
  abbrev pub sunk : List A → List A → List A
  sunk r [] = r
  sunk r (y ∷ ys) = sunk (sink y r) ys

  length-sunk : (r ys : List A) → length (sunk r ys) ≡ length r + length ys
  length-sunk r [] = sym (add_zero (length r))
  length-sunk r (y ∷ ys) = omega (arith, length-sunk (sink y r) ys, length-sink y r)

  sort_from-suc :
      (n i : ℕ) (xs : List A)
      → sort_from after d (suc n) i xs
        ≡ sort_from after d n (i + 1) (sift_down after d i (get_or xs i d) xs)
  unfolding sort_from
  sort_from-suc n i xs = refl

  sort_from-sunk :
      (r ys t : List A)
      → sort_from after d (length ys) (length r) (onto r (ys ++ t)) ≡ onto (sunk r ys) t
  unfolding sort_from
  sort_from-sunk r [] t = refl
  sort_from-sunk r (y ∷ ys) t =
      sort_from-suc (length ys) (length r) (onto r (y ∷ (ys ++ t)))
      ∙ rw (last-onto r (ys ++ t) y d, sift_down-sink r (ys ++ t) y y, ← count r y)
          (sort_from-sunk (sink y r) ys t)
    where
      count : (r : List A) (y : A) → length (sink y r) ≡ length r + 1
      count r y = omega (arith, length-sink y r)

  sink-Perm : (temp : A) (r ys : List A) → Perm (onto (sink temp r) ys) (onto r (temp ∷ ys))
  sink-Perm temp [] ys = Perm.refl (temp ∷ ys)
  sink-Perm temp (y ∷ r) ys =
      if_lem (λ s. Perm (onto s ys) (onto r (y ∷ temp ∷ ys))) (after y temp)
        (λ _. Perm.trans (sink-Perm temp r (y ∷ ys)) (Perm-onto r (Perm.swap y temp ys)))
        (λ _. Perm.refl (onto r (y ∷ temp ∷ ys)))

  sunk-Perm : (r ys : List A) → Perm (onto (sunk r ys) []) (onto r ys)
  sunk-Perm r [] = Perm.refl (onto r [])
  sunk-Perm r (y ∷ ys) = Perm.trans (sunk-Perm (sink y r) ys) (sink-Perm y r ys)

  abbrev Falling : List A → Type 0
  Falling [] = Unit
  Falling (x ∷ []) = Unit
  Falling (x ∷ y ∷ ys) = (after y x ≡ false) × Falling (y ∷ ys)

  Falling-onto :
      (x : A) (r ys : List A)
      → Falling (x ∷ r)
      → Rising after (x ∷ ys)
      → Rising after (onto r (x ∷ ys))
  Falling-onto x [] ys fall rise = rise
  Falling-onto x (y ∷ r) ys (le, fall) rise = Falling-onto y r (x ∷ ys) fall (le, rise)

  module _ (asym : (a b : A) → after a b ≡ true → after b a ≡ false) where
    sink-below :
        (y temp : A) (r : List A)
        → after y temp ≡ true
        → Falling (y ∷ r)
        → Falling (y ∷ sink temp r)
    sink-below y temp [] later fall = (asym y temp later, tt)
    sink-below y temp (z ∷ r) later (le, fall) =
        if_lem (λ s. Falling (y ∷ s)) (after z temp)
          (λ z_later. (le, sink-below z temp r z_later fall))
          (λ z_not. (asym y temp later, (z_not, fall)))

    sink-Falling : (temp : A) (r : List A) → Falling r → Falling (sink temp r)
    sink-Falling temp [] fall = tt
    sink-Falling temp (y ∷ r) fall =
        if_lem Falling (after y temp) (λ later. sink-below y temp r later fall)
          (λ not_later. (not_later, fall))

    sunk-Falling : (r ys : List A) → Falling r → Falling (sunk r ys)
    sunk-Falling r [] fall = fall
    sunk-Falling r (y ∷ ys) fall = sunk-Falling (sink y r) ys (sink-Falling y r fall)

    Falling-Rising : (r : List A) → Falling r → Rising after (onto r [])
    Falling-Rising [] fall = tt
    Falling-Rising (x ∷ r) fall = Falling-onto x r [] fall tt

    -- The sort of the first elements of an array: those elements in order, before the others.
    sort-Rising :
        (x : A) (xs t : List A)
        → let q = onto (sunk (x ∷ []) xs) [] in
          (sort_from after d (length xs) 1 (x ∷ xs ++ t) ≡ q ++ t)
          × Perm q (x ∷ xs)
          × Rising after q
    sort-Rising x xs t = (
      sort_from-sunk (x ∷ []) xs t ∙ onto-append (sunk (x ∷ []) xs) t,
      sunk-Perm (x ∷ []) xs,
      Falling-Rising (sunk (x ∷ []) xs) (sunk-Falling (x ∷ []) xs tt),
    )

    sort_prefix :
        (x : A) (xs t : List A)
        → InOrder after
            (suc (length xs))
            (x ∷ xs ++ t)
            (sort_from after d (length xs) 1 (x ∷ xs ++ t))
    sort_prefix x xs t =
        let (same, perm, rise) = sort-Rising x xs t in
        subst (InOrder after (suc (length xs)) (x ∷ xs ++ t)) (sym same)
          (prefix-InOrder after (x ∷ xs) (onto (sunk (x ∷ []) xs) []) t (sunk_count x xs) perm rise)
      where
        sunk_count : (x : A) (xs : List A) → length (onto (sunk (x ∷ []) xs) []) ≡ suc (length xs)
        sunk_count x xs = omega (arith, length-onto (sunk (x ∷ []) xs) [], length-sunk (x ∷ []) xs)

    pub sort-InOrder :
        (n : ℕ) (xs : List A) → n ≤ length xs → InOrder after n xs (sort_from after d (n - 1) 1 xs)
    unfolding sort_from
    sort-InOrder zero xs le = (Perm.refl [], tt, refl, refl)
    sort-InOrder (suc n) [] le = absurd (omega arith)
    sort-InOrder (suc n) (x ∷ xs) le = rw (pred n) (
        subst (λ (zs : List A). InOrder after (suc n) (x ∷ zs) (sort_from after d n 1 (x ∷ zs)))
          (take-drop n xs)
          (subst
            (λ (m : ℕ).
              InOrder after (suc m) (x ∷ take n xs ++ drop n xs)
                (sort_from after d m 1 (x ∷ take n xs ++ drop n xs)))
            (length-take n xs (omega arith)) (sort_prefix x (take n xs) (drop n xs))))
      where
        pred : (n : ℕ) → suc n - 1 ≡ n
        pred n = omega arith
