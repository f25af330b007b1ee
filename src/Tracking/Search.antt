-- ===== src/Tracking/Search.antt =====
-- lib/granule/src/tracking_region.c: the binary search of tracking_region_find_addr finds the bank that
-- contains the address, if one does.
use tf_rmm.Common.{
  ℕ, zero, suc, ◌+◌, ◌-◌, ◌/◌, ◌<◌, ◌≤◌, ◌≡◌, ◌⊎◌, inl, inr, arith, ◌==◌, ltb, leb, if_lem, Option,
  none, some, List, [], ◌∷◌, length, get_or,
}
use tf_rmm.Tracking.{Bank, no_bank, search_banks}
use tf_rmm.Tracking.Slots.{Banks, Banks-tail}

abbrev pub Contains : Bank → ℕ → Type 0
Contains b addr = (b.base ≤ addr) × (addr < b.base + b.size)

abbrev pub Outside : Bank → ℕ → Type 0
Outside b addr = (addr < b.base) ⊎ (b.base + b.size ≤ addr)

-- The index of the bank that contains the address, or none where all banks miss it.
abbrev pub Located : List Bank → ℕ → Option ℕ → Type 0
Located bs addr (some i) = (i < length bs) × Contains (get_or bs i no_bank) addr
Located bs addr none = (i : ℕ) → i < length bs → Outside (get_or bs i no_bank) addr

head-before :
    (b : Bank) (bs : List Bank) (j : ℕ)
    → Banks (b ∷ bs)
    → j < length bs
    → b.base + b.size ≤ (get_or bs j no_bank).base
head-before b [] j banks lt = absurd (omega arith)
head-before b (c ∷ cs) zero (at, le, banks) lt = le
head-before b (c ∷ cs) (suc j) (at, le, banks) lt =
    omega (arith, le, head-before c cs j banks (omega arith))

pub Banks-ordered :
    (bs : List Bank) (i j : ℕ)
    → Banks bs
    → i < j
    → j < length bs
    → (get_or bs i no_bank).base + (get_or bs i no_bank).size ≤ (get_or bs j no_bank).base
Banks-ordered [] i j banks lt bound = absurd (omega arith)
Banks-ordered (b ∷ bs) i zero banks lt bound = absurd (omega arith)
Banks-ordered (b ∷ bs) zero (suc j) banks lt bound = head-before b bs j banks (omega arith)
Banks-ordered (b ∷ bs) (suc i) (suc j) banks lt bound =
    Banks-ordered bs i j (Banks-tail b bs banks) (omega arith) (omega arith)

module _ (bs : List Bank) (addr : ℕ) (banks : Banks bs) where
  abbrev at : ℕ → Bank
  at i = get_or bs i no_bank

  low :
      (m i : ℕ)
      → m < length bs
      → (at m).base + (at m).size ≤ addr
      → i < m + 1
      → (at i).base + (at i).size ≤ addr
  low m i bound le lt = elim (split i m lt) [
    | inl same ↦ rw same le
    | inr before ↦ omega (arith, Banks-ordered bs i m banks before bound)
  ]
    where
      split : (i m : ℕ) → i < m + 1 → (i ≡ m) ⊎ (i < m)
      split i m lt = omega arith

  high : (m i : ℕ) → addr < (at m).base → m ≤ i → i < length bs → addr < (at i).base
  high m i lt le bound = elim (split i m le) [
    | inl same ↦ rw same lt
    | inr after ↦ omega (arith, Banks-ordered bs m i banks after bound)
  ]
    where
      split : (i m : ℕ) → m ≤ i → (i ≡ m) ⊎ (m < i)
      split i m le = omega arith

  missed :
      (l : ℕ)
      → ((i : ℕ) → i < l → (at i).base + (at i).size ≤ addr)
      → ((i : ℕ) → l ≤ i → i < length bs → addr < (at i).base)
      → Located bs addr none
  missed l lows highs i bound = elim (split i l) [
    | inl before ↦ inr (lows i before)
    | inr after ↦ inl (highs i after bound)
  ]
    where
      split : (i l : ℕ) → (i < l) ⊎ (l ≤ i)
      split i l = omega arith

  -- Banks before `l` end below the address, and those behind `r` start above it.
  search-Located :
      (rounds l r : ℕ)
      → r < length bs
      → l ≤ r + 1
      → r + 1 - l ≤ rounds
      → ((i : ℕ) → i < l → (at i).base + (at i).size ≤ addr)
      → ((i : ℕ) → r < i → i < length bs → addr < (at i).base)
      → Located bs addr (search_banks rounds bs addr l r)
  unfolding search_banks
  search-Located zero l r bound between enough lows highs =
      missed l lows (λ i le. highs i (omega arith))
  search-Located (suc rounds) l r bound between enough lows highs =
      if_lem (Located bs addr) (ltb r l) (λ done. missed l lows (λ i le. highs i (ground arith)))
        (λ more.
          let inside : l ≤ r = ground arith in
          if_lem (Located bs addr) (ltb addr (at mid).base)
            (λ below.
              let above_mid : (i : ℕ) → mid ≤ i → i < length bs → addr < (at i).base =
                λ i. high mid i (ground arith) in
              if_lem (Located bs addr) (mid == 0)
                (λ first.
                  missed 0 (λ i none. absurd (omega arith)) (λ i le. above_mid i (ground arith)))
                (λ later.
                  let positive : 0 < mid = ground arith in
                  search-Located rounds l (mid - 1) (omega arith) (omega arith) (omega arith) lows
                    (λ i lt. above_mid i (omega arith))))
            (λ not_below.
              if_lem (Located bs addr) (leb ((at mid).base + (at mid).size) addr)
                (λ above.
                  search-Located rounds (mid + 1) r bound (omega arith) (omega arith)
                    (λ i. low mid i (omega arith) (ground arith)) highs)
                (λ here. (omega arith, (ground arith, ground arith)))))
    where
      mid : ℕ
      mid = l + (r - l) / 2

  -- The search as tracking_region_find_addr starts it.
  pub search_all-Located :
      0 < length bs → Located bs addr (search_banks (length bs) bs addr 0 (length bs - 1))
  search_all-Located pos =
      search-Located (length bs) 0 (length bs - 1) (omega arith) (omega arith) (omega arith)
        (λ i none. absurd (omega arith)) (λ i lt bound. absurd (omega arith))
