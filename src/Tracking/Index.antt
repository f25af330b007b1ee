-- ===== src/Tracking/Index.antt =====
-- lib/granule/src/tracking_region.c: the look-ups between addresses and indices of granules, for the
-- layouts that the boot and RMI_RMM_CONFIG_SET set up.
use tf_rmm.Common.{
  ℕ, zero, suc, ◌+◌, ◌-◌, ◌*◌, ◌%◌, ◌<◌, ◌≤◌, ◌≡◌, ◌≢◌, ◌⊎◌, inl, inr, refl, sym, ap, ◌∙◌, subst,
  arith, Bool, true, false, ◌==◌, leb, Bool-cases, none, some, Option-cases, List, [], ◌∷◌, length,
  get_or,
}
use tf_rmm.Tracking.{
  Bank, no_bank, TrMemType, TrackingData, banks_of, num_granules_of, entry_size_of, granule_size,
  uint64_max, search_banks, indices_in, tracking_region_find_addr, tracking_region_fine_addr_to_idx,
  tracking_region_fine_idx_to_addr, tracking_region_fine_stride,
}
use tf_rmm.Tracking.Layout.{Assigned, assign_bank, assign_granules, assign_fine_indices}
use tf_rmm.Tracking.Slots.{
  Config, conv_min, dev_min, max_size, IsBank, first_region, last_region, Slotted, Banks,
  Banks-head, Banks-tail,
}
use tf_rmm.Tracking.Slots.Spread.{fine-Slotted, fine-Banks}
use tf_rmm.Tracking.Search.{Contains, Outside, Located, search_all-Located}
use tf_rmm.Tracking.Roundtrip.{idx_at, index_value, Slotted-at, first-found}

-- The banks of a type are sorted, do not overlap, and have their slots.
pub record IsLayout (tr : TrackingData) (type : TrMemType) : Type 0 where
  pub stride : ℕ
  pub config : Config tr.tracking_region_size stride
  pub stride_is : tracking_region_fine_stride tr.tracking_region_size (entry_size_of type) ≡ stride
  pub banks : Banks (banks_of tr type)
  pub slotted : Slotted tr.tracking_region_size stride (num_granules_of tr type) (banks_of tr type)

-- Some bank of the type contains the address; none does.
abbrev pub InBank : TrackingData → TrMemType → ℕ → Type 0
InBank tr type addr =
    (i : ℕ) × ((i < length (banks_of tr type))
      × Contains (get_or (banks_of tr type) i no_bank) addr)

abbrev pub OutsideAll : TrackingData → TrMemType → ℕ → Type 0
OutsideAll tr type addr =
    (i : ℕ) → i < length (banks_of tr type) → Outside (get_or (banks_of tr type) i no_bank) addr

Banks-at : (bs : List Bank) (i : ℕ) → Banks bs → i < length bs → IsBank (get_or bs i no_bank)
Banks-at [] i banks lt = absurd (omega arith)
Banks-at (b ∷ bs) zero banks lt = Banks-head b bs banks
Banks-at (b ∷ bs) (suc i) banks lt = Banks-at bs i (Banks-tail b bs banks) (omega arith)

below_total :
    (size stride : ℕ)
    → Config size stride
    → (b : Bank) (total addr : ℕ) → Contains b addr
    → b.granule_start_idx + (last_region size b + 1 - first_region size b) * stride ≤ total
    → idx_at size stride b addr < total
below_total size stride conv_min b total addr here le = omega (arith, here.0, here.1)
below_total size stride dev_min b total addr here le = omega (arith, here.0, here.1)
below_total size stride max_size b total addr here le = omega (arith, here.0, here.1)

module _ (tr : TrackingData) (type : TrMemType) (layout : IsLayout tr type) (addr : ℕ)
    (aligned : addr % granule_size ≡ 0) where
  abbrev bs : List Bank
  bs = banks_of tr type

  -- What the search hands on, by its result.
  find_addr-some :
      (i : ℕ)
      → search_banks (length bs) bs addr 0 (length bs - 1) ≡ some i
      → 0 < length bs
      → tracking_region_fine_addr_to_idx tr addr type
        ≡ (indices_in tr.tracking_region_size layout.stride (get_or bs i no_bank) addr).1
  unfolding tracking_region_fine_addr_to_idx tracking_region_find_addr
  find_addr-some i e pos =
      let al : (addr % 4096 == 0) ≡ true = ground arith in
      let some_banks : (length bs == 0) ≡ false = ground arith in
      rw
        (
          al, some_banks, e, layout.stride_is, tracking_region_fine_addr_to_idx,
          tracking_region_find_addr,
        )
        refl

  find_addr-none :
      (search_banks (length bs) bs addr 0 (length bs - 1) ≡ none) ⊎ (length bs ≡ 0)
      → tracking_region_fine_addr_to_idx tr addr type ≡ uint64_max
  unfolding tracking_region_fine_addr_to_idx tracking_region_find_addr
  find_addr-none (inl e) =
      let al : (addr % 4096 == 0) ≡ true = ground arith in
      rw (al, tracking_region_fine_addr_to_idx, tracking_region_find_addr)
        (elim (Bool-cases (length bs == 0)) [
          | inl empty ↦ rw empty refl
          | inr nonempty ↦ rw (nonempty, e) refl
        ])
  find_addr-none (inr none_there) =
      let al : (addr % 4096 == 0) ≡ true = ground arith in
      let no_banks : (length bs == 0) ≡ true = ground arith in
      rw (al, no_banks, tracking_region_fine_addr_to_idx, tracking_region_find_addr) refl

  -- The address has an index below the number of slots, from which it comes back, or no bank has it and
  -- it has no index.
  abbrev pub Indexed : ℕ → Type 0
  Indexed idx =
      (InBank tr type addr
        × (idx < num_granules_of tr type)
        × (tracking_region_fine_idx_to_addr tr idx type ≡ addr))
      ⊎ (OutsideAll tr type addr × (idx ≡ uint64_max))

  found-Indexed :
      (i : ℕ)
      → i < length bs
      → Contains (get_or bs i no_bank) addr
      → tracking_region_fine_addr_to_idx tr addr type
        ≡ (indices_in tr.tracking_region_size layout.stride (get_or bs i no_bank) addr).1
      → Indexed (tracking_region_fine_addr_to_idx tr addr type)
  unfolding tracking_region_fine_idx_to_addr
  found-Indexed i lt here e =
      let size = tr.tracking_region_size in
      let b = get_or bs i no_bank in
      let bank = Banks-at bs i layout.banks lt in
      let idx : tracking_region_fine_addr_to_idx tr addr type ≡ idx_at size layout.stride b addr =
        e
        ∙ index_value size layout.stride layout.config b bank addr
            (omega (arith, here.1, bank.fits)) in
      let bound : idx_at size layout.stride b addr < num_granules_of tr type =
        below_total size layout.stride layout.config b (num_granules_of tr type) addr here
          (Slotted-at size layout.stride layout.config (num_granules_of tr type) addr aligned bs i
            layout.slotted lt).1 in
      let inside : leb (num_granules_of tr type) (idx_at size layout.stride b addr) ≡ false =
        ground arith in
      subst Indexed (sym idx) (
        inl (
          (i, (lt, here)),
          bound,
          rw (inside, layout.stride_is)
              (first-found size layout.stride layout.config (num_granules_of tr type) addr aligned
                bs i layout.banks layout.slotted lt here),
        ))

  -- Every granule-aligned address of a bank of a type has an index below the number of slots in the
  -- array of that type, from which tracking_region_fine_idx_to_addr gives the address back, whatever
  -- regions and slots the banks share; an address outside all banks has none. The banks are sorted,
  -- apart and numbered as the boot leaves them.
  pub addr_to_idx-Indexed : Indexed (tracking_region_fine_addr_to_idx tr addr type)
  addr_to_idx-Indexed = elim (empty_or_not (length bs)) [
    | inl empty ↦ inr (λ i lt. absurd (omega arith), find_addr-none (inr empty))
    | inr pos ↦
        let located = search_all-Located bs addr layout.banks pos in
        elim (Option-cases (search_banks (length bs) bs addr 0 (length bs - 1))) [
          | inl e ↦ inr (subst (Located bs addr) e located, find_addr-none (inl e))
          | inr (i, e) ↦
              let (lt, here) = subst (Located bs addr) e located in
              found-Indexed i lt here (find_addr-some i e pos)
        ]
  ]
    where
      empty_or_not : (n : ℕ) → (n ≡ 0) ⊎ (0 < n)
      empty_or_not n = omega arith

-- Two granule-aligned addresses never share an entry of the array of granules.
pub idx-distinct :
    (tr : TrackingData) (type : TrMemType)
    → IsLayout tr type
    → (a b : ℕ) → a % granule_size ≡ 0
    → b % granule_size ≡ 0
    → tracking_region_fine_addr_to_idx tr a type ≢ uint64_max
    → tracking_region_fine_addr_to_idx tr a type ≡ tracking_region_fine_addr_to_idx tr b type
    → a ≡ b
idx-distinct tr type layout a b al bl found same = elim (addr_to_idx-Indexed tr type layout a al) [
  | inr (_, nowhere) ↦ absurd (found nowhere)
  | inl at ↦ elim (addr_to_idx-Indexed tr type layout b bl) [
    | inr (_, nowhere) ↦ absurd (found (same ∙ nowhere))
    | inl bt ↦ sym at.2 ∙ ap (λ (i : ℕ). tracking_region_fine_idx_to_addr tr i type) same ∙ bt.2
  ]
]

-- The layout of one type whose banks tracking_memory_banks_assign_fine_indices has numbered.
abbrev pub Numbered : TrackingData → TrMemType → List Bank → Type 0
Numbered tr type bs =
    let (numbered, total) = assign_fine_indices bs tr.tracking_region_size (entry_size_of type) in
    (banks_of tr type ≡ numbered) × (num_granules_of tr type ≡ total)

-- The same banks in the same places, with other first slots.
abbrev pub Kept : List Bank → List Bank → Type 0
Kept [] [] = Unit
Kept (b ∷ bs) (c ∷ cs) = (c ≡ record b { granule_start_idx = c.granule_start_idx }) × Kept bs cs
Kept _ _ = ⊥

assign_granules-Kept :
    (size stride : ℕ) (first : Bool) (done : Assigned) (bs : List Bank)
    → Kept bs (assign_granules size stride first done bs).0
unfolding assign_granules
assign_granules-Kept size stride first done [] = tt
assign_granules-Kept size stride first done (b ∷ bs) =
    (refl, assign_granules-Kept size stride false (assign_bank size stride first done b).0 bs)

assign_fine-Kept :
    (size entry_size : ℕ) (bs : List Bank) → Kept bs (assign_fine_indices bs size entry_size).0
unfolding assign_fine_indices
assign_fine-Kept size entry_size bs =
    assign_granules-Kept size (tracking_region_fine_stride size entry_size) true
      (record { current_top = 0; count = 0 }) bs

-- tracking_memory_banks_assign_fine_indices numbers sorted banks without overlap so that every bank stays
-- in its place and as it is but for its first slot, each takes one stride of slots for every region it
-- touches within the number of slots it returns, and two banks share slots only for a region that they
-- share. The region size is one of the two that are supported, with the stride that it has for the
-- type.
pub fine-IsLayout :
    (tr : TrackingData) (type : TrMemType) (bs : List Bank) (stride : ℕ)
    → Config tr.tracking_region_size stride
    → tracking_region_fine_stride tr.tracking_region_size (entry_size_of type) ≡ stride
    → Banks bs
    → Numbered tr type bs
    → IsLayout tr type × Kept bs (banks_of tr type)
fine-IsLayout tr type bs stride config e banks (numbered, total) =
    let size = tr.tracking_region_size in
    let layout : IsLayout tr type = record {
      stride = stride;
      config = config;
      stride_is = e;
      banks =
          subst Banks (sym numbered)
            (fine-Banks size stride config (entry_size_of type) bs e banks);
      slotted =
          subst (λ (n : ℕ). Slotted size stride n (banks_of tr type)) (sym total)
            (subst (Slotted size stride (assign_fine_indices bs size (entry_size_of type)).1)
              (sym numbered) (fine-Slotted size stride config (entry_size_of type) bs e banks));
    } in
    (layout, subst (Kept bs) (sym numbered) (assign_fine-Kept size (entry_size_of type) bs))
