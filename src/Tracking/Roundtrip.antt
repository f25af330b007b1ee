-- ===== src/Tracking/Roundtrip.antt =====
-- lib/granule/src/tracking_region.c: an address of a bank has an index of its own in the array of
-- granules, from which the address comes back.
use tf_rmm.Common.{
  ℕ, zero, suc, ◌+◌, ◌-◌, ◌*◌, ◌/◌, ◌%◌, ◌^◌, ◌<◌, ◌≤◌, ◌≡◌, ◌⊎◌, inl, inr, refl, ◌∙◌, arith, ◌&&◌,
  ◌||◌, ltb, leb, if◌then◌else◌, Option, none, some, List, [], ◌∷◌, length, get_or,
}
use tf_rmm.Utils.{round_down}
use tf_rmm.Utils.Rounding.{round_down-value}
use tf_rmm.Tracking.{Bank, no_bank, granule_size, addr_in, first_addr, indices_in}
use tf_rmm.Tracking.Slots.{
  Config, conv_min, dev_min, max_size, IsBank, first_region, last_region, base-value, top-value,
  first-last, Follows, AllFollow, Slotted, Banks, Banks-head, Banks-tail,
}
use tf_rmm.Tracking.Search.{Contains}

-- The index that the search computes, over quotients.
abbrev pub idx_at : ℕ → ℕ → Bank → ℕ → ℕ
idx_at size stride b addr =
    b.granule_start_idx + (addr / size - b.base / size) * stride + addr % size / granule_size

-- The test of a round of tracking_region_fine_idx_to_addr, over the regions of the bank.
abbrev pub decode : ℕ → ℕ → (f e base end gs idx : ℕ) → Option ℕ
decode size stride f e base end gs idx =
    let relative = idx - gs in
    let offset = relative % stride in
    let addr = f * size + relative / stride * size + offset * 4096 in
    if leb gs idx && ltb idx (gs + (e + 1 - f) * stride)
    then if leb (size / 4096) offset
      then none
      else if ltb addr base || leb end addr
      then none
      else some addr
    else none

span : (size stride e f : ℕ) → Config size stride → (e * size + size - f * size) / size ≡ e + 1 - f
span size stride e f conv_min = omega arith
span size stride e f dev_min = omega arith
span size stride e f max_size = omega arith

addr_in-decode :
    (size stride : ℕ)
    → Config size stride
    → (b : Bank) → IsBank b
    → (idx : ℕ)
    → addr_in size stride b idx
      ≡ decode size stride
          (first_region size b)
          (last_region size b)
          b.base
          (b.base + b.size)
          b.granule_start_idx
          idx
unfolding addr_in
addr_in-decode size stride config b bank idx =
    rw
      (
        base-value b bank size stride config,
        top-value b bank size stride config,
        span size stride (last_region size b) (first_region size b) config,
      )
      refl

-- The bank's own round finds the address,
own :
    (size stride : ℕ)
    → Config size stride
    → (base end gs addr : ℕ) → base ≤ addr
    → addr < end
    → addr % 4096 ≡ 0
    → gs % stride ≡ 0
    → decode size stride
        (base / size)
        ((end - 1) / size)
        base
        end
        gs
        (gs + (addr / size - base / size) * stride + addr % size / 4096)
      ≡ some addr
own size stride conv_min base end gs addr lo hi al ws = ground arith
own size stride dev_min base end gs addr lo hi al ws = ground arith
own size stride max_size base end gs addr lo hi al ws = ground arith

-- and that of an earlier bank finds the same address or none.
earlier :
    (size stride : ℕ)
    → Config size stride
    → (pf pe pb pend pg base gs addr : ℕ) → base ≤ addr
    → addr % 4096 ≡ 0
    → gs % stride ≡ 0
    → pg % stride ≡ 0
    → pf ≤ pe
    → ((base / size ≡ pe) × (gs ≡ pg + (pe - pf) * stride))
      ⊎ ((pe < base / size) × (pg + (pe + 1 - pf) * stride ≤ gs))
    → (o : Option ℕ)
    → o
      ≡ decode size stride pf pe pb pend pg
          (gs + (addr / size - base / size) * stride + addr % size / 4096)
    → (o ≡ none) ⊎ (o ≡ some addr)
earlier size stride conv_min pf pe pb pend pg base gs addr lo al ws wp le r o e = ground arith
earlier size stride dev_min pf pe pb pend pg base gs addr lo al ws wp le r o e = ground arith
earlier size stride max_size pf pe pb pend pg base gs addr lo al ws wp le r o e = ground arith

pub index_value :
    (size stride : ℕ)
    → Config size stride
    → (b : Bank) → IsBank b
    → (addr : ℕ) → addr < 2 ^ 52
    → (indices_in size stride b addr).1 ≡ idx_at size stride b addr
unfolding indices_in
index_value size stride config b bank addr small =
    rw (base-value b bank size stride config, addr-value size stride config addr small)
      (regions size stride config (addr / size) (b.base / size) addr b.granule_start_idx)
  where
    addr-value :
        (size stride : ℕ)
        → Config size stride
        → (addr : ℕ) → addr < 2 ^ 52
        → round_down addr size ≡ addr / size * size
    addr-value size stride conv_min addr small =
        round_down-value 21 addr (omega arith) (omega arith)
    addr-value size stride dev_min addr small = round_down-value 21 addr (omega arith) (omega arith)
    addr-value size stride max_size addr small =
        round_down-value 30 addr (omega arith) (omega arith)

    regions :
        (size stride : ℕ)
        → Config size stride
        → (n f addr gs : ℕ)
        → gs + (n * size - f * size) / size * stride + (addr - addr / size * size) / 2 ^ 12
          ≡ gs + (n - f) * stride + addr % size / 4096
    regions size stride conv_min n f addr gs = omega arith
    regions size stride dev_min n f addr gs = omega arith
    regions size stride max_size n f addr gs = omega arith

AllFollow-at :
    (size stride : ℕ) (b : Bank) (cs : List Bank) (i : ℕ)
    → AllFollow size stride b cs
    → i < length cs
    → Follows size stride b (get_or cs i no_bank)
AllFollow-at size stride b [] i follow lt = absurd (omega arith)
AllFollow-at size stride b (c ∷ cs) zero follow lt = follow.0
AllFollow-at size stride b (c ∷ cs) (suc i) follow lt =
    AllFollow-at size stride b cs i follow.1 (omega arith)

module _ (size stride : ℕ) (config : Config size stride) (total addr : ℕ)
    (al : addr % 4096 ≡ 0) where
  pub Slotted-at :
      (bs : List Bank) (i : ℕ)
      → Slotted size stride total bs
      → i < length bs
      → ((get_or bs i no_bank).granule_start_idx % stride ≡ 0)
        × ((get_or bs i no_bank).granule_start_idx
              + (last_region size (get_or bs i no_bank)
                  + 1
                  - first_region size (get_or bs i no_bank))
                * stride
            ≤ total)
  Slotted-at [] i slotted lt = absurd (omega arith)
  Slotted-at (b ∷ bs) zero slotted lt = (slotted.0, slotted.1)
  Slotted-at (b ∷ bs) (suc i) slotted lt = Slotted-at bs i slotted.3 (omega arith)

  found_here :
      (b : Bank) (bs : List Bank) (idx : ℕ)
      → addr_in size stride b idx ≡ some addr
      → first_addr size stride (b ∷ bs) idx ≡ addr
  unfolding first_addr
  found_here b bs idx e = rw (e, first_addr) refl

  -- A round that refuses the index leaves it to the next ones.
  next_round :
      (b : Bank) (bs : List Bank) (idx : ℕ)
      → (addr_in size stride b idx ≡ none) ⊎ (addr_in size stride b idx ≡ some addr)
      → first_addr size stride bs idx ≡ addr
      → first_addr size stride (b ∷ bs) idx ≡ addr
  unfolding first_addr
  next_round b bs idx (inl refused) rest = rw (refused, first_addr) rest
  next_round b bs idx (inr found) rest = found_here b bs idx found

  pub first-found :
      (bs : List Bank) (i : ℕ)
      → Banks bs
      → Slotted size stride total bs
      → i < length bs
      → Contains (get_or bs i no_bank) addr
      → first_addr size stride bs (idx_at size stride (get_or bs i no_bank) addr) ≡ addr
  first-found [] i banks slotted lt here = absurd (omega arith)
  first-found (b ∷ bs) zero banks slotted lt (lo, hi) =
      found_here b bs (idx_at size stride b addr) (
        addr_in-decode size stride config b (Banks-head b bs banks) (idx_at size stride b addr)
        ∙ own size stride config b.base (b.base + b.size) b.granule_start_idx addr lo hi al
            slotted.0)
  first-found (b ∷ bs) (suc i) banks slotted lt (lo, hi) =
      let c = get_or bs i no_bank in
      let bank = Banks-head b bs banks in
      next_round b bs (idx_at size stride c addr)
        (earlier size stride config (first_region size b) (last_region size b) b.base
          (b.base + b.size) b.granule_start_idx c.base c.granule_start_idx addr lo al
          (Slotted-at bs i slotted.3 (omega arith)).0 slotted.0
          (first-last size stride b config bank)
          (AllFollow-at size stride b bs i slotted.2 (omega arith))
          (addr_in size stride b (idx_at size stride c addr))
          (addr_in-decode size stride config b bank (idx_at size stride c addr)))
        (first-found bs i (Banks-tail b bs banks) slotted.3 (omega arith) (lo, hi))
