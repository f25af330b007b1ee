-- ===== src/AddrList/Add.antt =====
-- Adding a block to a list: `add_block_to_current_idx` and `add_block`.
use mathlib.Core.List.{Perm, perm_append_comm}
use tf_rmm.Common.{
  ℕ, ◌⊎◌, inl, inr, zero, suc, ◌+◌, ◌%◌, ◌^◌, ◌<◌, ◌≤◌, ◌≡◌, ◌≢◌, refl, arith, ◌∙◌, Bool, true,
  false, [], ◌∷◌, length, length-set, some, Option-cases, Bool-cases, ◌==◌, ==_iff,
}
use tf_rmm.AddrList.Desc.{xlat_block_size, create_desc}
use tf_rmm.AddrList.{
  AddrList, u32, desc_at, put_desc, merge_block, add_block_to_current_idx, append_block, try_blocks,
  add_block,
}
use tf_rmm.AddrList.Blocks.{
  Block, IsDesc, IsValid, desc_blocks, blocks, blocks_of-set, blocks_of-snoc, AllDescs-get,
  AllDescs-set, AllDescs-snoc, cursor-IsValid,
}
use tf_rmm.AddrList.Merge.{Grown, merge_block-Grown, fresh-IsDesc}

-- What a list is after a block was offered to it.
abbrev pub Offered : AddrList → Block → AddrList × Bool → Type 0
Offered l b (r, true) = Perm (blocks r) (b ∷ blocks l) × IsValid r
Offered l b (r, false) = (blocks r ≡ blocks l) × IsValid r

add_current_cases :
    (l : AddrList) (a b s : ℕ)
    → (add_block_to_current_idx l a b s ≡ (l, false))
      ⊎ ((e : ℕ) × (merge_block (desc_at l l.cur_idx) a b s ≡ some e)
          × (add_block_to_current_idx l a b s ≡ (put_desc l l.cur_idx e, true)))
unfolding add_block_to_current_idx
add_current_cases l a b s = elim (Option-cases (merge_block (desc_at l l.cur_idx) a b s)) [
  | inl p ↦ inl (rw (p, add_block_to_current_idx))
  | inr (e, p) ↦ inr (e, p, rw (p, add_block_to_current_idx))
]

-- A descriptor of the list that takes the block in.
put_Offered :
    (l : AddrList) (i e : ℕ) (b : Block)
    → IsValid l
    → i < l.count
    → Grown (desc_at l i) e b.base b.size b.state
    → Offered l b (put_desc l i e, true)
put_Offered l i e b v h g =
    let inside : i < length l.range_desc = omega (arith, v.slots, v.capped, v.max_capped) in
    (
      blocks_of-set l.count i l.range_desc e b h inside g.more,
      record {
        slots = length-set l.range_desc i e ∙ v.slots;
        capped = v.capped;
        max_pos = v.max_pos;
        max_capped = v.max_capped;
        descs = AllDescs-set IsDesc l.count i l.range_desc e v.descs g.still;
      },
    )

-- A descriptor written behind the last.
snoc_Offered :
    (l : AddrList) (i d : ℕ) (b : Block)
    → IsValid l
    → i ≡ l.count
    → l.count ≢ l.max_count
    → IsDesc d
    → desc_blocks d ≡ b ∷ []
    → Offered l b (record (put_desc l i d) { count = u32 (l.count + 1) }, true)
snoc_Offered l i d b v at_end room w e =
    let inside : l.count < length l.range_desc = omega (arith, v.slots, v.capped, v.max_capped) in
    let next : u32 (l.count + 1) ≡ suc l.count = omega (arith, v.slots, inside) in
    rw (next, at_end)
      (
        rw (blocks_of-snoc l.count l.range_desc d inside, e) (perm_append_comm (blocks l) (b ∷ [])),
        record {
          slots = length-set l.range_desc l.count d ∙ v.slots;
          capped = omega (arith, v.capped, room);
          max_pos = v.max_pos;
          max_capped = v.max_capped;
          descs = AllDescs-snoc IsDesc l.count l.range_desc d inside v.descs w;
        },
      )

module _ (a level s : ℕ) (hl : level ≤ 3) (hs : s < 4) (al : a % xlat_block_size level ≡ 0)
    (fits : a + xlat_block_size level ≤ 2 ^ 52) (small : a < 2 ^ 52) where
  abbrev b : Block
  b = record { base = a; size = xlat_block_size level; state = s }

  append-Offered :
      (l : AddrList)
      → IsValid l
      → l.cur_idx ≡ l.count
      → Offered l b (append_block l a (xlat_block_size level) s)
  unfolding append_block
  append-Offered l v e = elim (Bool-cases (l.count == l.max_count)) [
    | inl full ↦ rw full (refl, v)
    | inr room ↦
        let (w, one) = fresh-IsDesc a level s hl hs al fits small in
        rw room (
          snoc_Offered l l.cur_idx (create_desc a 1 (xlat_block_size level) s) b v e (ground arith)
            w one)
  ]

  try_blocks-Offered :
      (rounds : ℕ) (l : AddrList)
      → IsValid l
      → l.cur_idx + rounds ≡ l.count
      → Offered l b (try_blocks rounds l a (xlat_block_size level) s)
  unfolding try_blocks
  try_blocks-Offered zero l v e = append-Offered l v (omega arith)
  try_blocks-Offered (suc rounds) l v e = elim (add_current_cases l a (xlat_block_size level) s) [
    | inl miss ↦ rw miss (
        try_blocks-Offered rounds (record l { cur_idx = l.cur_idx + 1 })
          (cursor-IsValid l (l.cur_idx + 1) v) (omega arith))
    | inr (d, hit, done) ↦
        let inside : l.cur_idx < length l.range_desc =
          omega (arith, v.slots, v.capped, v.max_capped) in
        let w = AllDescs-get IsDesc l.count l.cur_idx l.range_desc (omega arith) inside v.descs in
        rw done (
          put_Offered l l.cur_idx d b v (omega arith)
            (merge_block-Grown (desc_at l l.cur_idx) d a (xlat_block_size level) s w al fits hit))
  ]

xlat_block_size-pos : (level : ℕ) → level ≤ 3 → 0 < xlat_block_size level
xlat_block_size-pos zero h = omega arith
xlat_block_size-pos (suc zero) h = omega arith
xlat_block_size-pos (suc (suc zero)) h = omega arith
xlat_block_size-pos (suc (suc (suc zero))) h = omega arith
xlat_block_size-pos (suc (suc (suc (suc level)))) h = absurd (omega arith)

-- Offering an aligned block below the 52 bits of a physical address to a valid list, at a level from
-- 0 to 3 and in one of the four states that the field has: if `add_block` accepts it, the blocks of
-- the list are those from before and the new one, in some order; if not, they are those from before.
-- The list stays valid either way.
pub add_block-Offered :
    (l : AddrList) (a level s : ℕ)
    → IsValid l
    → level ≤ 3
    → s < 4
    → a + xlat_block_size level ≤ 2 ^ 52
    → Offered l
        (record { base = a; size = xlat_block_size level; state = s })
        (add_block l a level s)
unfolding add_block
add_block-Offered l a level s v hl hs fits = elim (Bool-cases (a % xlat_block_size level == 0)) [
  | inr bad ↦ rw bad (refl, v)
  | inl ok ↦
      let al = (==_iff (a % xlat_block_size level) 0).0 ok in
      let small : a < 2 ^ 52 = omega (arith, xlat_block_size-pos level hl, fits) in
      elim (Bool-cases (l.count == 0)) [
        | inl empty ↦
            let (w, one) = fresh-IsDesc a level s hl hs al fits small in
            rw (ok, empty)
              (snoc_Offered l 0 (create_desc a 1 (xlat_block_size level) s) _ v (ground arith)
                (ground (arith, v.max_pos)) w one)
        | inr some_descs ↦
            rw (ok, some_descs)
              (try_blocks-Offered a level s hl hs al fits small l.count (record l { cur_idx = 0 })
                (cursor-IsValid l 0 v) (omega arith))
      ]
]
