-- ===== src/Tracking/Slots/Rounds.antt =====
-- lib/granule/src/tracking_region.c: a round of the loop of tracking_memory_banks_assign_fine_indices, and
-- its arithmetic on the regions and slots of two banks.
use tf_rmm.Common.{
  ℕ, ◌+◌, ◌-◌, ◌*◌, ◌%◌, ◌<◌, ◌≤◌, ◌≡◌, ◌⊎◌, inl, inr, refl, subst, arith, true, false, leb,
}
use tf_rmm.Tracking.{Bank}
use tf_rmm.Tracking.Layout.{assign_bank}
use tf_rmm.Tracking.Slots.{
  Config, conv_min, dev_min, max_size, IsBank, first_region, last_region, apart-values,
  shared-values,
}

-- An earlier bank, once the loop has given out `n` slots and its last region is `l`.
abbrev pub Behind : ℕ → ℕ → ℕ → ℕ → Bank → Type 0
Behind size stride l n b =
    ((last_region size b ≡ l)
      × (b.granule_start_idx + (last_region size b + 1 - first_region size b) * stride ≡ n))
    ⊎ ((last_region size b < l)
        × (b.granule_start_idx + (last_region size b + 1 - first_region size b) * stride + stride
            ≤ n))

-- A round: the first slot of the bank and the number of slots after it.
pub record Round (size stride n : ℕ) (b c : Bank) : Type 0 where
  pub start : ℕ
  pub count : ℕ
  pub made :
      assign_bank size stride false
        (record { current_top = last_region size b * size + size; count = n })
        c
      ≡ (record { current_top = last_region size c * size + size; count = count }, start)
  pub placed :
      ((first_region size c ≡ last_region size b)
        × (start ≡ n - stride)
        × (count ≡ n + (last_region size c - first_region size c) * stride))
      ⊎ ((last_region size b < first_region size c)
          × (start ≡ n)
          × (count ≡ n + (last_region size c + 1 - first_region size c) * stride))

after_last :
    (size stride : ℕ) (b c : Bank)
    → Config size stride
    → IsBank b
    → b.base + b.size ≤ c.base
    → (first_region size c ≡ last_region size b) ⊎ (last_region size b < first_region size c)
after_last size stride b c conv_min bank le = omega (arith, bank.some_memory)
after_last size stride b c dev_min bank le = omega (arith, bank.some_memory)
after_last size stride b c max_size bank le = omega (arith, bank.some_memory)

behind_top :
    (size stride l f : ℕ) → Config size stride → l < f → leb (l * size + size) (f * size) ≡ true
behind_top size stride l f conv_min lt = ground arith
behind_top size stride l f dev_min lt = ground arith
behind_top size stride l f max_size lt = ground arith

module _ (size stride : ℕ) (config : Config size stride) where
  pub round :
      (n : ℕ) (b c : Bank)
      → IsBank b
      → IsBank c
      → b.base + b.size ≤ c.base
      → Round size stride n b c
  round n b c bank bank' le = elim (after_last size stride b c config bank le) [
    | inl shared ↦ record {
      start = n - stride;
      count = n + (last_region size c - first_region size c) * stride;
      made =
          subst
            (λ (l : ℕ).
              assign_bank size stride false (record { current_top = l * size + size; count = n }) c
              ≡ (
                record {
                  current_top = last_region size c * size + size;
                  count = n + (last_region size c - first_region size c) * stride;
                },
                n - stride,
              ))
            shared (shared-values size stride config c bank' n);
      placed = inl (shared, refl, refl);
    }
    | inr apart ↦ record {
      start = n;
      count = n + (last_region size c + 1 - first_region size c) * stride;
      made =
          apart-values size stride config c bank' false
            (record { current_top = last_region size b * size + size; count = n })
            (behind_top size stride (last_region size b) (first_region size c) config apart);
      placed = inr (apart, refl, refl);
    }
  ]

-- The arithmetic of a round, on the regions and slots of an earlier bank, of the last and of the new one.
abbrev pub EarlierAt : ℕ → (fp lp gp l n : ℕ) → Type 0
EarlierAt stride fp lp gp l n =
    ((lp ≡ l) × (gp + (lp + 1 - fp) * stride ≡ n))
    ⊎ ((lp < l) × (gp + (lp + 1 - fp) * stride + stride ≤ n))

abbrev pub RoundAt : ℕ → (lb n fc lc start count : ℕ) → Type 0
RoundAt stride lb n fc lc start count =
    ((fc ≡ lb) × (start ≡ n - stride) × (count ≡ n + (lc - fc) * stride))
    ⊎ ((lb < fc) × (start ≡ n) × (count ≡ n + (lc + 1 - fc) * stride))

abbrev pub FollowsAt : ℕ → (fp lp gp fc start : ℕ) → Type 0
FollowsAt stride fp lp gp fc start =
    ((fc ≡ lp) × (start ≡ gp + (lp - fp) * stride))
    ⊎ ((lp < fc) × (gp + (lp + 1 - fp) * stride ≤ start))

module _ (fp lp gp lb n fc lc start count : ℕ) (hp : fp ≤ lp) (hc : fc ≤ lc) where
  pub earlier-Follows :
      (size stride : ℕ)
      → Config size stride
      → EarlierAt stride fp lp gp lb n
      → RoundAt stride lb n fc lc start count
      → FollowsAt stride fp lp gp fc start
  earlier-Follows size stride conv_min e r = ground arith
  earlier-Follows size stride dev_min e r = ground arith
  earlier-Follows size stride max_size e r = ground arith

  pub earlier-later :
      (size stride : ℕ)
      → Config size stride
      → EarlierAt stride fp lp gp lb n
      → RoundAt stride lb n fc lc start count
      → EarlierAt stride fp lp gp lc count
  earlier-later size stride conv_min e r = ground arith
  earlier-later size stride dev_min e r = ground arith
  earlier-later size stride max_size e r = ground arith

  pub new-Earlier :
      (size stride : ℕ)
      → Config size stride
      → EarlierAt stride fp lp gp lb n
      → RoundAt stride lb n fc lc start count
      → EarlierAt stride fc lc start lc count
  new-Earlier size stride conv_min e r = ground arith
  new-Earlier size stride dev_min e r = ground arith
  new-Earlier size stride max_size e r = ground arith

pub whole_strides :
    (size stride lb n fc lc start count : ℕ)
    → Config size stride
    → n % stride ≡ 0
    → RoundAt stride lb n fc lc start count
    → (start % stride ≡ 0) × (count % stride ≡ 0)
whole_strides size stride lb n fc lc start count conv_min e r = ground arith
whole_strides size stride lb n fc lc start count dev_min e r = ground arith
whole_strides size stride lb n fc lc start count max_size e r = ground arith
