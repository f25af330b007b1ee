-- ===== src/Tracking/Slots/Spread.antt =====
-- lib/granule/src/tracking_region.c: tracking_memory_banks_assign_fine_indices gives the banks slots that
-- overlap only where the banks share a region.
use tf_rmm.Common.{
  ℕ, ◌+◌, ◌-◌, ◌*◌, ◌%◌, ◌≤◌, ◌≡◌, inl, refl, sym, ap, ◌∙◌, subst, arith, true, false, List, [],
  ◌∷◌,
}
use tf_rmm.Tracking.{Bank, tracking_region_fine_stride}
use tf_rmm.Tracking.Layout.{Assigned, assign_granules, assign_fine_indices}
use tf_rmm.Tracking.Slots.{
  Config, conv_min, dev_min, max_size, IsBank, first_region, last_region, apart-values, first-last,
  AllFollow, Slotted, Banks, Banks-head,
}
use tf_rmm.Tracking.Slots.Rounds.{
  Behind, Round, round, EarlierAt, RoundAt, earlier-Follows, earlier-later, new-Earlier,
  whole_strides,
}

module _ (size stride : ℕ) (config : Config size stride) where
  abbrev top_of : Bank → ℕ → Assigned
  top_of b n = record { current_top = last_region size b * size + size; count = n }

  abbrev given : Bank → ℕ → List Bank → List Bank × ℕ
  given b n cs = assign_granules size stride false (top_of b n) cs

  -- What a round leaves to do.
  given-cons :
      (n : ℕ) (b c : Bank) (cs : List Bank) (r : Round size stride n b c)
      → given b n (c ∷ cs) ≡ (
        record c { granule_start_idx = r.start } ∷ (given c r.count cs).0,
        (given c r.count cs).1,
      )
  unfolding assign_granules
  given-cons n b c cs r = rw r.made refl

  given-nil : (n : ℕ) (b : Bank) → given b n [] ≡ ([], n)
  unfolding assign_granules
  given-nil n b = refl

  all-Follow :
      (p b : Bank) (n : ℕ) (cs : List Bank)
      → Banks (b ∷ cs)
      → IsBank p
      → Behind size stride (last_region size b) n p
      → AllFollow size stride p (given b n cs).0
  all-Follow p b n [] banks bank behind =
      subst (λ (r : List Bank × ℕ). AllFollow size stride p r.0) (sym (given-nil n b)) tt
  all-Follow p b n (c ∷ cs) (at, le, banks) bank behind =
      let at' = Banks-head c cs banks in
      let r = round size stride config n b c at at' le in
      let hp = first-last size stride p config bank in
      let hc = first-last size stride c config at' in
      subst (λ (r : List Bank × ℕ). AllFollow size stride p r.0) (sym (given-cons n b c cs r))
        (
          earlier-Follows (first_region size p) (last_region size p) p.granule_start_idx
              (last_region size b) n (first_region size c) (last_region size c) r.start r.count hp
              hc size stride config behind r.placed,
          all-Follow p c r.count cs banks bank (
              earlier-later (first_region size p) (last_region size p) p.granule_start_idx
                (last_region size b) n (first_region size c) (last_region size c) r.start r.count hp
                hc size stride config behind r.placed),
        )

  ends_within :
      (fc lc start count total : ℕ)
      → EarlierAt stride fc lc start lc count
      → count ≤ total
      → start + (lc + 1 - fc) * stride ≤ total
  ends_within fc lc start count total e le = ground arith

  never_fewer : (lb n fc lc start count : ℕ) → RoundAt stride lb n fc lc start count → n ≤ count
  never_fewer lb n fc lc start count r = ground arith

  numbered : (b : Bank) (s : ℕ) → IsBank b → IsBank (record b { granule_start_idx = s })
  numbered b s bank = record {
    some_memory = bank.some_memory;
    base_aligned = bank.base_aligned;
    size_aligned = bank.size_aligned;
    fits = bank.fits;
  }

  -- The number of slots only grows, and every bank ends within it.
  Slotted-given :
      (b : Bank) (g n : ℕ) (cs : List Bank)
      → Banks (b ∷ cs)
      → EarlierAt stride (first_region size b) (last_region size b) g (last_region size b) n
      → n % stride ≡ 0
      → Slotted size stride (given b n cs).1 (given b n cs).0 × (n ≤ (given b n cs).1)
  Slotted-given b g n [] banks earlier whole =
      subst (λ (r : List Bank × ℕ). Slotted size stride r.1 r.0 × (n ≤ r.1)) (sym (given-nil n b))
        (tt, omega arith)
  Slotted-given b g n (c ∷ cs) (at, le, banks) earlier whole =
      let at' = Banks-head c cs banks in
      let r = round size stride config n b c at at' le in
      let hb = first-last size stride b config at in
      let hc = first-last size stride c config at' in
      let (start_whole, count_whole) =
        whole_strides size stride (last_region size b) n (first_region size c) (last_region size c)
          r.start r.count config whole r.placed in
      let self =
        new-Earlier (first_region size b) (last_region size b) g (last_region size b) n
          (first_region size c) (last_region size c) r.start r.count hb hc size stride config
          earlier r.placed in
      let (slotted, more) = Slotted-given c r.start r.count cs banks self count_whole in
      subst (λ (r : List Bank × ℕ). Slotted size stride r.1 r.0 × (n ≤ r.1))
        (sym (given-cons n b c cs r))
        (
          (
            start_whole,
            ends_within (first_region size c) (last_region size c) r.start r.count _ self more,
            all-Follow (record c { granule_start_idx = r.start }) c r.count cs banks
                (numbered c r.start at') self,
            slotted,
          ),
          omega (
            arith,
            never_fewer (last_region size b) n (first_region size c) (last_region size c) r.start
                r.count r.placed,
            more,
          ),
        )

  first_slots : Bank → ℕ
  first_slots b = 0 + (last_region size b + 1 - first_region size b) * stride

  fine-cons :
      (entry_size : ℕ) (b : Bank) (bs : List Bank)
      → tracking_region_fine_stride size entry_size ≡ stride
      → IsBank b
      → assign_fine_indices (b ∷ bs) size entry_size ≡ (
        record b { granule_start_idx = 0 } ∷ (given b (first_slots b) bs).0,
        (given b (first_slots b) bs).1,
      )
  unfolding assign_fine_indices assign_granules first_slots
  fine-cons entry_size b bs e at =
      ap (λ (s : ℕ). assign_granules size s true (record { current_top = 0; count = 0 }) (b ∷ bs)) e
      ∙ rw (apart-values size stride config b at true (record { current_top = 0; count = 0 }) refl)
          refl

  fine-nil : (entry_size : ℕ) → assign_fine_indices [] size entry_size ≡ ([], 0)
  unfolding assign_fine_indices assign_granules
  fine-nil entry_size = refl

  zero_whole : (x : ℕ) → (size stride : ℕ) → Config size stride → (0 + x * stride) % stride ≡ 0
  zero_whole x size stride conv_min = omega arith
  zero_whole x size stride dev_min = omega arith
  zero_whole x size stride max_size = omega arith

  zero_mod : (size stride : ℕ) → Config size stride → 0 % stride ≡ 0
  zero_mod size stride conv_min = refl
  zero_mod size stride dev_min = refl
  zero_mod size stride max_size = refl

  -- tracking_memory_banks_assign_fine_indices, over banks that are sorted and do not overlap.
  pub fine-Slotted :
      (entry_size : ℕ) (banks : List Bank)
      → tracking_region_fine_stride size entry_size ≡ stride
      → Banks banks
      → Slotted size stride
          (assign_fine_indices banks size entry_size).1
          (assign_fine_indices banks size entry_size).0
  unfolding first_slots
  fine-Slotted entry_size [] e banks =
      subst (λ (r : List Bank × ℕ). Slotted size stride r.1 r.0) (sym (fine-nil entry_size)) tt
  fine-Slotted entry_size (b ∷ bs) e banks =
      let at = Banks-head b bs banks in
      let earlier : EarlierAt stride (first_region size b) (last_region size b) 0
          (last_region size b) (first_slots b) =
        inl (refl, refl) in
      let (slotted, more) =
        Slotted-given b 0 (first_slots b) bs banks earlier
          (zero_whole (last_region size b + 1 - first_region size b) size stride config) in
      subst (λ (r : List Bank × ℕ). Slotted size stride r.1 r.0)
        (sym (fine-cons entry_size b bs e at))
        (
          zero_mod size stride config,
          more,
          all-Follow (record b { granule_start_idx = 0 }) b (first_slots b) bs banks
              (numbered b 0 at) earlier,
          slotted,
        )

  numbered-Banks :
      (b : Bank) (g n : ℕ) (cs : List Bank)
      → Banks (b ∷ cs)
      → Banks (record b { granule_start_idx = g } ∷ (given b n cs).0)
  numbered-Banks b g n [] banks =
      subst (λ (r : List Bank × ℕ). Banks (record b { granule_start_idx = g } ∷ r.0))
        (sym (given-nil n b)) (numbered b g banks)
  numbered-Banks b g n (c ∷ cs) (at, le, banks) =
      let r = round size stride config n b c at (Banks-head c cs banks) le in
      subst (λ (r : List Bank × ℕ). Banks (record b { granule_start_idx = g } ∷ r.0))
        (sym (given-cons n b c cs r))
        (numbered b g at, le, numbered-Banks c r.start r.count cs banks)

  pub fine-Banks :
      (entry_size : ℕ) (banks : List Bank)
      → tracking_region_fine_stride size entry_size ≡ stride
      → Banks banks
      → Banks (assign_fine_indices banks size entry_size).0
  fine-Banks entry_size [] e banks =
      subst (λ (r : List Bank × ℕ). Banks r.0) (sym (fine-nil entry_size)) tt
  fine-Banks entry_size (b ∷ bs) e banks =
      subst (λ (r : List Bank × ℕ). Banks r.0)
        (sym (fine-cons entry_size b bs e (Banks-head b bs banks)))
        (numbered-Banks b 0 (first_slots b) bs banks)
