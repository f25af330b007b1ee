-- ===== src/Tracking/Slots.antt =====
-- lib/granule/src/tracking_region.c: the slots of the granule array that the banks are given. Region
-- sizes are the two that the source asserts, and with them the strides of the two types.
pub mod Rounds
pub mod Spread
use tf_rmm.Common.{
  ℕ, zero, suc, ◌+◌, ◌-◌, ◌*◌, ◌/◌, ◌%◌, ◌^◌, ◌<◌, ◌≤◌, ◌≡◌, ◌⊎◌, inl, inr, refl, sym, ap, ◌∙◌,
  subst, arith, Bool, true, false, not, ◌&&◌, ◌||◌, ◌==◌, ltb, leb, if◌then◌else◌, List, [], ◌∷◌,
}
use tf_rmm.Utils.{round_up, round_down}
use tf_rmm.Utils.Rounding.{round_up-value, round_down-value}
use tf_rmm.Tracking.{
  Bank, TrMemType, conv, dev, tracking_region_fine_stride, granule_size, entry_size_of,
}
use tf_rmm.Tracking.Layout.{Assigned, assign_bank, assign_granules, assign_fine_indices}

-- A region size and the slots that a region takes in the array of one type.
pub data Config : ℕ → ℕ → Type 0 where
  conv_min : Config (2 ^ 21) 2048
  dev_min : Config (2 ^ 21) 4096
  max_size : Config (2 ^ 30) 262144

-- The stride is what tracking_region_fine_stride computes.
pub Config-stride :
    (tracking_region_fine_stride (2 ^ 21) (entry_size_of conv) ≡ 2048)
    × (tracking_region_fine_stride (2 ^ 21) (entry_size_of dev) ≡ 4096)
    × (tracking_region_fine_stride (2 ^ 30) (entry_size_of conv) ≡ 262144)
    × (tracking_region_fine_stride (2 ^ 30) (entry_size_of dev) ≡ 262144)
unfolding tracking_region_fine_stride round_up
Config-stride = (refl, refl, refl, refl)

-- A bank of granules within the 52 bits of a physical address.
pub record IsBank (b : Bank) : Type 0 where
  pub some_memory : 0 < b.size
  pub base_aligned : b.base % granule_size ≡ 0
  pub size_aligned : b.size % granule_size ≡ 0
  pub fits : b.base + b.size ≤ 2 ^ 52

-- The regions that hold the bank's first and last byte.
abbrev pub first_region : ℕ → Bank → ℕ
first_region size b = b.base / size

abbrev pub last_region : ℕ → Bank → ℕ
last_region size b = (b.base + b.size - 1) / size

module _ (b : Bank) (bank : IsBank b) where
  pub base-value :
      (size stride : ℕ) → Config size stride → round_down b.base size ≡ first_region size b * size
  base-value size stride conv_min =
      round_down-value 21 b.base (omega arith) (omega (arith, bank.fits))
  base-value size stride dev_min =
      round_down-value 21 b.base (omega arith) (omega (arith, bank.fits))
  base-value size stride max_size =
      round_down-value 30 b.base (omega arith) (omega (arith, bank.fits))

  pub top-value :
      (size stride : ℕ)
      → Config size stride
      → round_up (b.base + b.size) size ≡ last_region size b * size + size
  top-value size stride conv_min =
      round_up-value 21 (b.base + b.size) (omega arith) (omega (arith, bank.some_memory))
        (omega (arith, bank.fits))
  top-value size stride dev_min =
      round_up-value 21 (b.base + b.size) (omega arith) (omega (arith, bank.some_memory))
        (omega (arith, bank.fits))
  top-value size stride max_size =
      round_up-value 30 (b.base + b.size) (omega arith) (omega (arith, bank.some_memory))
        (omega (arith, bank.fits))

-- Regions counted by their ends.
span : (size stride e f : ℕ) → Config size stride → (e * size + size - f * size) / size ≡ e + 1 - f
span size stride e f conv_min = omega arith
span size stride e f dev_min = omega arith
span size stride e f max_size = omega arith

not_behind : (size stride f : ℕ) → Config size stride → leb (f * size + size) (f * size) ≡ false
not_behind size stride f conv_min = ground arith
not_behind size stride f dev_min = ground arith
not_behind size stride f max_size = ground arith

one_region : (size stride f : ℕ) → Config size stride → (f * size + size - f * size) / size ≡ 1
one_region size stride f conv_min = omega arith
one_region size stride f dev_min = omega arith
one_region size stride f max_size = omega arith

grown :
    (size stride e f : ℕ)
    → Config size stride
    → (e * size + size - (f * size + size)) / size ≡ e - f
grown size stride e f conv_min = omega arith
grown size stride e f dev_min = omega arith
grown size stride e f max_size = omega arith

at_end : (size stride e : ℕ) → Config size stride → ltb (e * size + size) (e * size + size) ≡ false
at_end size stride e config = ground arith

beyond :
    (size stride e f : ℕ)
    → Config size stride
    → f < e
    → ltb (f * size + size) (e * size + size) ≡ true
beyond size stride e f conv_min lt = ground arith
beyond size stride e f dev_min lt = ground arith
beyond size stride e f max_size lt = ground arith

one_stride : (stride : ℕ) → 1 * stride ≡ stride
one_stride stride = omega arith

none_more : (n e stride : ℕ) → n + (e - e) * stride ≡ n
none_more n e stride = rw (none e) (omega arith)
  where
    none : (e : ℕ) → e - e ≡ 0
    none e = omega arith

same_or_more : (f e : ℕ) → f ≤ e → (f ≡ e) ⊎ (f < e)
same_or_more f e le = omega arith

pub first-last :
    (size stride : ℕ) (b : Bank)
    → Config size stride
    → IsBank b
    → first_region size b ≤ last_region size b
first-last size stride b conv_min bank = omega (arith, bank.some_memory)
first-last size stride b dev_min bank = omega (arith, bank.some_memory)
first-last size stride b max_size bank = omega (arith, bank.some_memory)

module _ (size stride : ℕ) (config : Config size stride) (b : Bank) (bank : IsBank b) where
  -- A bank behind all regions that have slots starts after them,
  pub apart-values :
      (first : Bool) (done : Assigned)
      → (first || leb done.current_top (first_region size b * size)) ≡ true
      → assign_bank size stride first done b ≡ (
        record {
          current_top = last_region size b * size + size;
          count = done.count + (last_region size b + 1 - first_region size b) * stride;
        },
        done.count,
      )
  unfolding assign_bank
  apart-values first done e =
      rw (base-value b bank size stride config, top-value b bank size stride config)
        (rw (e, span size stride (last_region size b) (first_region size b) config) refl)

  -- and one that starts in the last of them shares its slots.
  pub shared-values :
      (n : ℕ)
      → assign_bank size stride false
          (record { current_top = first_region size b * size + size; count = n })
          b
        ≡ (
          record {
            current_top = last_region size b * size + size;
            count = n + (last_region size b - first_region size b) * stride;
          },
          n - stride,
        )
  unfolding assign_bank
  shared-values n =
      let f = first_region size b in
      let e = last_region size b in
      rw
        (
          base-value b bank size stride config,
          top-value b bank size stride config,
          not_behind size stride f config,
          one_region size stride f config,
          grown size stride e f config,
        )
        (elim (same_or_more f e (first-last size stride b config bank)) [
          | inl same ↦
              rw (same, at_end size stride e config, one_stride stride, none_more n e stride) refl
          | inr more ↦ rw (beyond size stride e f config more, one_stride stride) refl
        ])

-- How the slots of a later bank lie to those of an earlier one: it starts in the earlier one's last
-- region and shares the slots of that region, or its slots come after.
abbrev pub Follows : ℕ → ℕ → Bank → Bank → Type 0
Follows size stride b c =
    ((first_region size c ≡ last_region size b)
      × (c.granule_start_idx
          ≡ b.granule_start_idx + (last_region size b - first_region size b) * stride))
    ⊎ ((last_region size b < first_region size c)
        × (b.granule_start_idx + (last_region size b + 1 - first_region size b) * stride
            ≤ c.granule_start_idx))

abbrev pub AllFollow : ℕ → ℕ → Bank → List Bank → Type 0
AllFollow size stride b [] = Unit
AllFollow size stride b (c ∷ cs) = Follows size stride b c × AllFollow size stride b cs

-- Each bank starts at a whole number of strides, ends within `total` slots, and lies so to all others.
abbrev pub Slotted : ℕ → ℕ → ℕ → List Bank → Type 0
Slotted size stride total [] = Unit
Slotted size stride total (b ∷ bs) =
    (b.granule_start_idx % stride ≡ 0)
    × (b.granule_start_idx + (last_region size b + 1 - first_region size b) * stride ≤ total)
    × AllFollow size stride b bs
    × Slotted size stride total bs

-- Banks of granules in the order of their addresses, without overlap.
abbrev pub Banks : List Bank → Type 0
Banks [] = Unit
Banks (b ∷ []) = IsBank b
Banks (b ∷ c ∷ bs) = IsBank b × (b.base + b.size ≤ c.base) × Banks (c ∷ bs)

pub Banks-head : (b : Bank) (bs : List Bank) → Banks (b ∷ bs) → IsBank b
Banks-head b [] banks = banks
Banks-head b (c ∷ bs) banks = banks.0

pub Banks-tail : (b : Bank) (bs : List Bank) → Banks (b ∷ bs) → Banks bs
Banks-tail b [] banks = tt
Banks-tail b (c ∷ bs) banks = banks.2
