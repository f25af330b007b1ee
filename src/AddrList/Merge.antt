-- ===== src/AddrList/Merge.antt =====
-- One descriptor that takes a block in, and a descriptor made for a block.
use mathlib.Core.List.{Perm, perm_append_comm}
use mathlib.Core.List.Perm
use native.Mathlib.Numerals.{add-one}
use tf_rmm.Common.{
  ℕ, ◌⊎◌, inl, inr, zero, suc, ◌+◌, ◌-◌, ◌*◌, ◌/◌, ◌%◌, ◌^◌, ◌<◌, ◌≤◌, ◌≡◌, refl, arith, [], ◌∷◌,
  some, ◌∙◌, ap,
}
use tf_rmm.AddrList.Desc.{
  create_desc, get_addr_from_desc, get_cnt_from_desc, get_st_from_desc, get_sz_from_desc,
  desc_blk_size, addr_list_sz_to_xlat_blk_sz, xlat_block_size, increment_block_count,
  set_addr_in_desc, desc_top_addr,
}
use tf_rmm.AddrList.Desc.Fields.{
  HasFields, field_bounds, increment_fields, set_addr_fields, create_desc_fields,
}
use tf_rmm.AddrList.{merge_block}
use tf_rmm.AddrList.Blocks.{
  IsDesc, desc_blocks, run, run-snoc, HasFields-blocks, HasFields-IsDesc, granule_aligned,
  desc_blk_size-pos,
}

-- What a merge gives: the descriptor grows by the block, and stays well formed.
pub record Grown (d e addr blk_size st : ℕ) : Type 0 where
  pub more :
      Perm (desc_blocks e) (record { base = addr; size = blk_size; state = st } ∷ desc_blocks d)
  pub still : IsDesc e

-- The block goes in front of the others.
front_Grown :
    (d e addr : ℕ)
    → IsDesc d
    → HasFields e addr (get_cnt_from_desc d + 1) (get_sz_from_desc d) (get_st_from_desc d)
    → addr + desc_blk_size d ≡ get_addr_from_desc d
    → addr % desc_blk_size d ≡ 0
    → Grown d e addr (desc_blk_size d) (get_st_from_desc d)
front_Grown d e addr v f join al = record {
  more = rw (HasFields-blocks d f, add-one, ← join) (Perm.refl _);
  still = HasFields-IsDesc d f al (omega (arith, v.fits, join));
}

-- The block goes behind the others.
back_Grown :
    (d e addr : ℕ)
    → IsDesc d
    → HasFields e
        (get_addr_from_desc d)
        (get_cnt_from_desc d + 1)
        (get_sz_from_desc d)
        (get_st_from_desc d)
    → addr ≡ get_addr_from_desc d + get_cnt_from_desc d * desc_blk_size d
    → addr + desc_blk_size d ≤ 2 ^ 52
    → Grown d e addr (desc_blk_size d) (get_st_from_desc d)
back_Grown d e addr v f join fits = record {
  more =
      rw (HasFields-blocks d f, add-one)
        (rw (run-snoc _ _ _ _, join)
          (perm_append_comm
            (run (get_cnt_from_desc d) (get_addr_from_desc d) (desc_blk_size d)
              (get_st_from_desc d))
            (_ ∷ [])));
  still = HasFields-IsDesc d f v.aligned (omega (arith, fits, join));
}

merge_block_cases :
    (d e addr blk_size st : ℕ)
    → merge_block d addr blk_size st ≡ some e
    → (blk_size ≡ desc_blk_size d)
      × (st ≡ get_st_from_desc d)
      × (get_cnt_from_desc d < 1023)
      × (((addr ≡ (get_addr_from_desc d + 2 ^ 64 - blk_size) % 2 ^ 64)
            × (e ≡ increment_block_count (set_addr_in_desc d addr)))
          ⊎ ((addr ≡ desc_top_addr d) × (e ≡ increment_block_count d)))
unfolding merge_block
merge_block_cases d e addr blk_size st h = ground arith

front_fields :
    (d addr : ℕ)
    → IsDesc d
    → get_cnt_from_desc d < 1023
    → addr < 2 ^ 52
    → addr % desc_blk_size d ≡ 0
    → HasFields
        (increment_block_count (set_addr_in_desc d addr))
        addr
        (get_cnt_from_desc d + 1)
        (get_sz_from_desc d)
        (get_st_from_desc d)
front_fields d addr v lt small al =
    let s = set_addr_fields d v.word addr small in
    let i = increment_fields (set_addr_in_desc d addr) s.word (omega (arith, s.has_cnt, lt)) in
    omega (arith, i, s, granule_aligned d addr v.word al)

-- A merge adds the block to the descriptor and nothing else.
pub merge_block-Grown :
    (d e addr blk_size st : ℕ)
    → IsDesc d
    → addr % blk_size ≡ 0
    → addr + blk_size ≤ 2 ^ 52
    → merge_block d addr blk_size st ≡ some e
    → Grown d e addr blk_size st
unfolding desc_top_addr
merge_block-Grown d e addr blk_size st v al fits h =
    let (eb, es, lt, place) = merge_block_cases d e addr blk_size st h in
    let al' : addr % desc_blk_size d ≡ 0 = rw (← eb) al in
    let pos = desc_blk_size-pos d v.word in
    rw (eb, es)
      (elim place [
        | inl (ea, ee) ↦
            front_Grown d e addr v (rw ee (front_fields d addr v lt (omega arith) al'))
              (omega (arith, ea, eb, field_bounds d v.word, fits)) al'
        | inr (ea, ee) ↦
            back_Grown d e addr v (rw ee (increment_fields d v.word lt)) (omega (arith, ea, v.fits))
              (omega (arith, fits, eb))
      ])

-- A level whose block size the four encodings have.
pub level_blk_size :
    (level : ℕ) → level ≤ 3 → xlat_block_size level ≡ addr_list_sz_to_xlat_blk_sz (3 - level)
level_blk_size zero h = refl
level_blk_size (suc zero) h = refl
level_blk_size (suc (suc zero)) h = refl
level_blk_size (suc (suc (suc zero))) h = refl
level_blk_size (suc (suc (suc (suc level)))) h = absurd (omega arith)

-- A new descriptor holds the one block.
module _ (a level s : ℕ) (hl : level ≤ 3) (hs : s < 4) (al : a % xlat_block_size level ≡ 0)
    (fits : a + xlat_block_size level ≤ 2 ^ 52) where
  abbrev pub fresh : ℕ
  fresh = create_desc a 1 (xlat_block_size level) s

  fresh_fields : a < 2 ^ 52 → HasFields fresh (a / 4096 * 4096) 1 (3 - level) s
  fresh_fields small =
      rw (level_blk_size level hl)
        (create_desc_fields a 1 (3 - level) s small (omega arith) (omega arith) hs)

  fresh_size : a < 2 ^ 52 → desc_blk_size fresh ≡ xlat_block_size level
  unfolding desc_blk_size
  fresh_size small = rw (level_blk_size level hl) (
      ap addr_list_sz_to_xlat_blk_sz
        (rw (level_blk_size level hl) at ((fresh_fields small).has_sz)))

  pub fresh-IsDesc :
      a < 2 ^ 52
      → IsDesc fresh
        × (desc_blocks fresh ≡ record { base = a; size = xlat_block_size level; state = s } ∷ [])
  fresh-IsDesc small =
      let f = fresh_fields small in
      let size = fresh_size small in
      let al' : a % desc_blk_size fresh ≡ 0 = rw size al in
      let g : HasFields fresh a 1 (get_sz_from_desc fresh) s = record {
        word = f.word;
        has_addr = f.has_addr ∙ granule_aligned fresh a f.word al';
        has_cnt = f.has_cnt;
        has_sz = refl;
        has_st = f.has_st;
      } in
      (
        HasFields-IsDesc fresh g al' (rw size (omega (arith, fits))),
        rw (HasFields-blocks fresh g, size) refl,
      )
