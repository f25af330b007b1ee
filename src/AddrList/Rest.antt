-- ===== src/AddrList/Rest.antt =====
-- lib/addr_list/src/addr_list.c: what is left of a descriptor when its first block is taken.
use native.Mathlib.Nat.{add-mod_right, mod-eq_of_lt}
use tf_rmm.Common.{
  ℕ, ◌⊎◌, inl, inr, zero, suc, ◌+◌, ◌-◌, ◌*◌, ◌%◌, ◌^◌, ◌<◌, ◌≤◌, ◌≡◌, refl, arith, ◌∙◌, ◌∷◌,
  dec_lt, ap,
}
use tf_rmm.AddrList.Desc.{
  desc_blk_size, get_addr_from_desc, get_cnt_from_desc, get_sz_from_desc, get_st_from_desc,
  set_addr_in_desc, decrement_block_count,
}
use tf_rmm.AddrList.Desc.Fields.{HasFields, set_addr_fields, set_addr_top, decrement_fields}
use tf_rmm.AddrList.Blocks.{
  Block, IsDesc, desc_blocks, HasFields-blocks, HasFields-IsDesc, granule_aligned,
  desc_blk_size-pos,
}

abbrev pub IsEmpty : ℕ → Type 0
IsEmpty d = get_cnt_from_desc d ≡ 0

abbrev pub first_block : ℕ → Block
first_block d = record {
  base = get_addr_from_desc d;
  size = desc_blk_size d;
  state = get_st_from_desc d;
}

abbrev pub rest_desc : ℕ → ℕ
rest_desc d =
    decrement_block_count (set_addr_in_desc d ((get_addr_from_desc d + desc_blk_size d) % 2 ^ 64))

moved_fields :
    (d a : ℕ)
    → d < 2 ^ 64
    → 0 < get_cnt_from_desc d
    → (e : ℕ) → HasFields e a (get_cnt_from_desc d) (get_sz_from_desc d) (get_st_from_desc d)
    → HasFields
        (decrement_block_count e)
        a
        (get_cnt_from_desc d - 1)
        (get_sz_from_desc d)
        (get_st_from_desc d)
moved_fields d a h some_blocks e f =
    omega (arith, f, decrement_fields e f.word (omega (arith, f.has_cnt, some_blocks)))

aligned_next : (a b : ℕ) → a % b ≡ 0 → (a + b) % b ≡ 0
aligned_next a b h = add-mod_right a b ∙ h

zero_aligned : (b : ℕ) → 0 < b → 0 % b ≡ 0
zero_aligned b h = mod-eq_of_lt h

one_left : (a c b : ℕ) → a + b ≡ 2 ^ 52 → 0 < b → 0 < c → a + c * b ≤ 2 ^ 52 → c ≡ 1
one_left a (suc zero) b e h k f = refl
one_left a (suc (suc c)) b e h k f = absurd (omega (arith, e, f))
one_left a zero b e h k f = absurd (omega arith)

next_fits : (a c b : ℕ) → 0 < c → a + c * b ≤ 2 ^ 52 → a + b ≤ 2 ^ 52
next_fits a (suc c) b h f = omega arith
next_fits a zero b h f = absurd (omega arith)

-- The descriptor that is left starts a block later, or at zero behind the last block below 2 ^ 52.
rest_cases :
    (d : ℕ)
    → IsDesc d
    → 0 < get_cnt_from_desc d
    → (a : ℕ) × HasFields
        (rest_desc d)
        a
        (get_cnt_from_desc d - 1)
        (get_sz_from_desc d)
        (get_st_from_desc d)
      × (a % desc_blk_size d ≡ 0)
      × ((a ≡ get_addr_from_desc d + desc_blk_size d) ⊎ ((a ≡ 0) × (get_cnt_from_desc d ≡ 1)))
rest_cases d v h =
    let next = get_addr_from_desc d + desc_blk_size d in
    let al = aligned_next (get_addr_from_desc d) (desc_blk_size d) v.aligned in
    let fits = next_fits (get_addr_from_desc d) (get_cnt_from_desc d) (desc_blk_size d) h v.fits in
    let plain : next % 2 ^ 64 ≡ next = omega (arith, fits) in
    elim (dec_lt next (2 ^ 52)) [
      | yes lt ↦ (
        next,
        rw plain (
            moved_fields d next v.word h (set_addr_in_desc d next)
              (omega (arith, set_addr_fields d v.word next lt, granule_aligned d next v.word al))),
        al,
        inl refl,
      )
      | no ge ↦
          let top : next ≡ 2 ^ 52 = omega (arith, fits, ge) in
          (
            0,
            rw (plain, top)
                (moved_fields d 0 v.word h (set_addr_in_desc d (2 ^ 52)) (set_addr_top d v.word)),
            zero_aligned (desc_blk_size d) (desc_blk_size-pos d v.word),
            inr (
              refl,
              one_left (get_addr_from_desc d) (get_cnt_from_desc d) (desc_blk_size d) top
                  (desc_blk_size-pos d v.word) h v.fits,
            ),
          )
    ]

-- What is left of a descriptor when its first block is taken.
pub rest_desc-blocks :
    (d : ℕ)
    → IsDesc d
    → 0 < get_cnt_from_desc d
    → (desc_blocks d ≡ first_block d ∷ desc_blocks (rest_desc d)) × IsDesc (rest_desc d)
rest_desc-blocks d v h =
    let (a, f, al, place) = rest_cases d v h in
    let k = get_cnt_from_desc d - 1 in
    let more : get_cnt_from_desc d ≡ suc k = omega (arith, h) in
    let own : HasFields d (get_addr_from_desc d) (suc k) (get_sz_from_desc d) (get_st_from_desc d) =
      record { word = v.word; has_addr = refl; has_cnt = more; has_sz = refl; has_st = refl } in
    let whole = HasFields-blocks d own in
    let rest = HasFields-blocks d f in
    let area = ap (λ (t : ℕ). t * desc_blk_size d) more in
    elim place [
      | inl e ↦ (
        whole ∙ ap (◌∷◌ (first_block d)) (rw (rest, e)),
        HasFields-IsDesc d f al (omega (arith, v.fits, e, area)),
      )
      | inr (e, one) ↦
          let none_left : k ≡ 0 = omega (arith, one) in
          (
            whole ∙ ap (◌∷◌ (first_block d)) (rw (rest, none_left)),
            HasFields-IsDesc d f al
                (omega (arith, e, ap (λ (t : ℕ). t * desc_blk_size d) none_left)),
          )
    ]
