-- ===== src/AddrList/Reduce.antt =====
-- Taking blocks from a list: `reduce_first_block` and `reduce_contig_block`.
use native.Mathlib.Numerals.{add-one}
use tf_rmm.Common.{
  ℕ, inl, inr, zero, suc, ◌+◌, ◌-◌, ◌<◌, ◌≤◌, ◌≡◌, ◌≢◌, refl, arith, ◌∙◌, List, [], ◌∷◌, ◌++◌,
  length, length-set, get_or, set, Option, some, none, Bool-cases, subst, ap, ◌==◌, ==_iff,
}
use tf_rmm.AddrList.Desc.{
  xlat_block_size, desc_blk_size, get_addr_from_desc, get_cnt_from_desc, get_sz_from_desc,
  get_st_from_desc, desc_is_empty, addr_list_sz_to_xlat_blk_sz,
}
use tf_rmm.AddrList.{AddrList, desc_at, put_desc, skip_empty, Reduced, reduce_first_block}
use tf_rmm.AddrList.Blocks.{
  Block, IsDesc, IsValid, desc_blocks, blocks, blocks_of, AllDescs, AllDescs-get, AllDescs-set,
  cursor-IsValid,
}
use tf_rmm.AddrList.Rest.{IsEmpty, rest_desc, rest_desc-blocks}

-- The first descriptor with blocks gives up its first block.
blocks_of-first :
    (n i : ℕ) (ds : List ℕ) (b : Block) (e : ℕ)
    → i < n
    → i < length ds
    → AllDescs IsEmpty i ds
    → desc_blocks (get_or ds i 0) ≡ b ∷ desc_blocks e
    → blocks_of n ds ≡ b ∷ blocks_of n (set ds i e)
blocks_of-first zero i ds b e h k emp p = absurd (omega arith)
blocks_of-first (suc n) i [] b e h k emp p = absurd (omega arith)
blocks_of-first (suc n) zero (x ∷ ds) b e h k emp p = ap (λ t. t ++ blocks_of n ds) p
blocks_of-first (suc n) (suc i) (x ∷ ds) b e h k emp p =
    rw emp.0 (blocks_of-first n i ds b e (omega arith) (omega arith) emp.1 p)

blocks_of-empty : (n : ℕ) (ds : List ℕ) → AllDescs IsEmpty n ds → blocks_of n ds ≡ []
blocks_of-empty zero ds emp = refl
blocks_of-empty (suc n) [] emp = refl
blocks_of-empty (suc n) (x ∷ ds) emp = rw emp.0 (blocks_of-empty n ds emp.1)

AllDescs-extend :
    (n : ℕ) (ds : List ℕ)
    → AllDescs IsEmpty n ds
    → IsEmpty (get_or ds n 0)
    → AllDescs IsEmpty (suc n) ds
AllDescs-extend n [] emp e = tt
AllDescs-extend zero (x ∷ ds) emp e = (e, tt)
AllDescs-extend (suc n) (x ∷ ds) emp e = (emp.0, AllDescs-extend n ds emp.1 e)

-- The search stops at the first descriptor with blocks, or at the end.
pub skip_empty_lem :
    (rounds : ℕ) (ds : List ℕ) (i : ℕ)
    → AllDescs IsEmpty i ds
    → let r = skip_empty rounds ds i in
      AllDescs IsEmpty r ds
      × (i ≤ r)
      × (r ≤ i + rounds)
      × (r < i + rounds → get_cnt_from_desc (get_or ds r 0) ≢ 0)
unfolding skip_empty desc_is_empty
skip_empty_lem zero ds i emp = (emp, omega arith, omega arith, λ h. absurd (omega arith))
skip_empty_lem (suc rounds) ds i emp = elim (Bool-cases (get_cnt_from_desc (get_or ds i 0) == 0)) [
  | inl e ↦
      let zero_cnt = (==_iff (get_cnt_from_desc (get_or ds i 0)) 0).0 e in
      let (r, lo, hi, stop) =
        skip_empty_lem rounds ds (i + 1) (rw add-one (AllDescs-extend i ds emp zero_cnt)) in
      rw e (r, omega (arith, lo), omega (arith, hi), λ h. stop (omega (arith, h)))
  | inr e ↦ rw e (emp, omega arith, omega arith, λ h. ground arith)
]

AllDescs-set_above :
    (n i : ℕ) (ds : List ℕ) (d : ℕ)
    → n ≤ i
    → AllDescs IsEmpty n ds
    → AllDescs IsEmpty n (set ds i d)
AllDescs-set_above zero i ds d h emp = tt
AllDescs-set_above (suc n) i [] d h emp = tt
AllDescs-set_above (suc n) zero (x ∷ ds) d h emp = absurd (omega arith)
AllDescs-set_above (suc n) (suc i) (x ∷ ds) d h emp =
    (emp.0, AllDescs-set_above n i ds d (omega arith) emp.1)

-- A valid list whose cursor has passed empty descriptors only.
pub record IsReady (l : AddrList) : Type 0 where
  pub valid : IsValid l
  pub cursor : l.cur_idx ≤ l.count
  pub passed : AllDescs IsEmpty l.cur_idx l.range_desc

abbrev pub block_of : Reduced → Block
block_of r = record { base = r.block_addr; size = xlat_block_size r.rtt_level; state = r.state }

-- What taking a block gives.
abbrev pub Taken : AddrList → AddrList × Option Reduced → Type 0
Taken l (r, none) = (blocks l ≡ []) × (blocks r ≡ []) × IsReady r
Taken l (r, some b) = (blocks l ≡ block_of b ∷ blocks r) × IsReady r

level_of_sz : (z : ℕ) → z < 4 → xlat_block_size (3 - z) ≡ addr_list_sz_to_xlat_blk_sz z
level_of_sz z h = refl

found_Taken :
    (l : AddrList) (i : ℕ)
    → IsValid l
    → i < l.count
    → AllDescs IsEmpty i l.range_desc
    → get_cnt_from_desc (desc_at l i) ≢ 0
    → Taken l (
      put_desc (record l { cur_idx = i }) i (rest_desc (desc_at l i)),
      some (record {
        block_addr = get_addr_from_desc (desc_at l i);
        rtt_level = 3 - get_sz_from_desc (desc_at l i);
        state = get_st_from_desc (desc_at l i);
      }),
    )
unfolding desc_blk_size
found_Taken l i v lt emp more =
    let inside : i < length l.range_desc = omega (arith, v.slots, v.capped, v.max_capped) in
    let w = AllDescs-get IsDesc l.count i l.range_desc lt inside v.descs in
    let (split, still) = rest_desc-blocks (desc_at l i) w (omega (arith, more)) in
    (
      blocks_of-first l.count i l.range_desc _ (rest_desc (desc_at l i)) lt inside emp split,
      record {
        valid = record {
          slots = length-set l.range_desc i (rest_desc (desc_at l i)) ∙ v.slots;
          capped = v.capped;
          max_pos = v.max_pos;
          max_capped = v.max_capped;
          descs =
              AllDescs-set IsDesc l.count i l.range_desc (rest_desc (desc_at l i)) v.descs still;
        };
        cursor = omega arith;
        passed = AllDescs-set_above i i l.range_desc (rest_desc (desc_at l i)) (omega arith) emp;
      },
    )

-- Taking a block from a list whose cursor has passed empty descriptors only: a block that is given is
-- the first of the list's blocks, and the list keeps exactly the others, in order; no block is given
-- only if there is none. The list stays ready for the next call.
pub reduce_first_block-Taken : (l : AddrList) → IsReady l → Taken l (reduce_first_block l)
unfolding reduce_first_block
reduce_first_block-Taken l v =
    let i = skip_empty (l.count - l.cur_idx) l.range_desc l.cur_idx in
    let (emp, lo, hi, stop) =
      skip_empty_lem (l.count - l.cur_idx) l.range_desc l.cur_idx v.passed in
    elim (Bool-cases (l.count == 0)) [
      | inl z ↦
          let none_there = (==_iff l.count 0).0 z in
          let nil : blocks l ≡ [] = rw none_there in rw z (nil, nil, v)
      | inr nz ↦ elim (Bool-cases (i == l.count)) [
        | inl end ↦
            let at_end = (==_iff i l.count).0 end in
            let nil : blocks l ≡ [] =
              blocks_of-empty l.count l.range_desc
                (subst (λ t. AllDescs IsEmpty t l.range_desc) at_end emp) in
            rw (nz, end)
              (
                nil,
                nil,
                record {
                  valid = cursor-IsValid l i v.valid;
                  cursor = omega (arith, at_end);
                  passed = emp;
                },
              )
        | inr more ↦
            let lt : i < l.count = ground (arith, lo, hi, v.cursor) in
            rw (nz, more) (found_Taken l i v.valid lt emp (stop (omega (arith, lt, v.cursor))))
      ]
    ]
