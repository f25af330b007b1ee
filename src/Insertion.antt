-- ===== src/Insertion.antt =====
-- The insertion sort that lib/addr_list/src/addr_list.c and lib/granule/src/tr_granule.c both write out,
-- over the order of each.
pub mod Laws
use tf_rmm.Common.{ℕ, zero, suc, ◌+◌, ◌-◌, Bool, if◌then◌else◌, List, [], ◌∷◌, get_or, set}

module _ {ℓ} {A : Type ℓ} (after : A → A → Bool) (d : A) where
  -- The inner loop, from `j` downwards, and the store after it, which the source leaves out where it
  -- would write back the value that is there.
  pub sift_down : ℕ → A → List A → List A
  sift_down zero temp xs = set xs 0 temp
  sift_down (suc j) temp xs =
      let prev = get_or xs j d in
      let rest = sift_down j temp (set xs (suc j) prev) in
      if after prev temp then rest else set xs (suc j) temp

  pub sort_from : ℕ → ℕ → List A → List A
  sort_from zero i xs = xs
  sort_from (suc rounds) i xs = sort_from rounds (i + 1) (sift_down i (get_or xs i d) xs)
