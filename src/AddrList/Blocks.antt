-- ===== src/AddrList/Blocks.antt =====
-- The memory that a list describes, block by block: the abstract view of lib/addr_list.
use mathlib.Core.List.{Perm, append-nil, append_assoc, perm_middle}
use mathlib.Core.List.Perm
use tf_rmm.Common.{
  ℕ, zero, suc, ◌+◌, ◌*◌, ◌/◌, ◌%◌, ◌^◌, ◌<◌, ◌≤◌, ◌≡◌, ◌⊎◌, inl, inr, refl, arith, List, [], ◌∷◌,
  ◌++◌, length, get_or, set, ap,
}
use tf_rmm.AddrList.Desc.{
  get_addr_from_desc, get_cnt_from_desc, get_st_from_desc, get_sz_from_desc, desc_blk_size,
  addr_list_sz_to_xlat_blk_sz,
}
use tf_rmm.AddrList.Desc.Fields.{HasFields, field_bounds}
use tf_rmm.AddrList.{AddrList, addr_list_max_ranges}

-- A block of memory: base address, size in bytes and state.
pub record Block : Type 0 where
  pub base : ℕ
  pub size : ℕ
  pub state : ℕ

-- `n` blocks of one size, one after the other.
abbrev pub run : ℕ → ℕ → ℕ → ℕ → List Block
run zero base size state = []
run (suc n) base size state =
    record { base = base; size = size; state = state } ∷ run n (base + size) size state

abbrev pub desc_blocks : ℕ → List Block
desc_blocks d =
    run (get_cnt_from_desc d) (get_addr_from_desc d) (desc_blk_size d) (get_st_from_desc d)

-- The blocks of the first `n` descriptors.
abbrev pub blocks_of : ℕ → List ℕ → List Block
blocks_of zero ds = []
blocks_of (suc n) [] = []
blocks_of (suc n) (d ∷ ds) = desc_blocks d ++ blocks_of n ds

abbrev pub blocks : AddrList → List Block
blocks l = blocks_of l.count l.range_desc

-- A descriptor whose blocks are aligned and lie below the 52 bits of a physical address.
pub record IsDesc (d : ℕ) : Type 0 where
  pub word : d < 2 ^ 64
  pub aligned : get_addr_from_desc d % desc_blk_size d ≡ 0
  pub fits : get_addr_from_desc d + get_cnt_from_desc d * desc_blk_size d ≤ 2 ^ 52

-- `P` of the first `n` descriptors.
abbrev pub AllDescs {ℓ} : (ℕ → Type ℓ) → ℕ → List ℕ → Type ℓ
AllDescs P zero ds = Unit
AllDescs P (suc n) [] = Unit
AllDescs P (suc n) (d ∷ ds) = P d × AllDescs P n ds

pub record IsValid (l : AddrList) : Type 0 where
  pub slots : length l.range_desc ≡ addr_list_max_ranges
  pub capped : l.count ≤ l.max_count
  pub max_pos : 0 < l.max_count
  pub max_capped : l.max_count ≤ addr_list_max_ranges
  pub descs : AllDescs IsDesc l.count l.range_desc

-- The block size is that of one of the four levels.
blk_size_enum :
    (z : ℕ)
    → z < 4
    → let b = addr_list_sz_to_xlat_blk_sz z in
      (b ≡ 2 ^ 12) ⊎ ((b ≡ 2 ^ 21) ⊎ ((b ≡ 2 ^ 30) ⊎ (b ≡ 2 ^ 39)))
blk_size_enum zero h = inl refl
blk_size_enum (suc zero) h = inr (inl refl)
blk_size_enum (suc (suc zero)) h = inr (inr (inl refl))
blk_size_enum (suc (suc (suc zero))) h = inr (inr (inr refl))
blk_size_enum (suc (suc (suc (suc z)))) h = absurd (omega arith)

pub desc_blk_size_cases :
    (d : ℕ)
    → d < 2 ^ 64
    → (desc_blk_size d ≡ 2 ^ 12)
      ⊎ ((desc_blk_size d ≡ 2 ^ 21) ⊎ ((desc_blk_size d ≡ 2 ^ 30) ⊎ (desc_blk_size d ≡ 2 ^ 39)))
unfolding desc_blk_size
desc_blk_size_cases d h = blk_size_enum (get_sz_from_desc d) (omega (arith, field_bounds d h))

pub desc_blk_size-pos : (d : ℕ) → d < 2 ^ 64 → 0 < desc_blk_size d
desc_blk_size-pos d h = omega (arith, desc_blk_size_cases d h)

-- What is aligned to a block is aligned to a granule.
pub granule_aligned : (d a : ℕ) → d < 2 ^ 64 → a % desc_blk_size d ≡ 0 → a / 4096 * 4096 ≡ a
granule_aligned d a h k = elim (desc_blk_size_cases d h) [
  | inl e ↦ omega (arith, rw e at k)
  | inr (inl e) ↦ omega (arith, rw e at k)
  | inr (inr (inl e)) ↦ omega (arith, rw e at k)
  | inr (inr (inr e)) ↦ omega (arith, rw e at k)
]

same_blk_size :
    (d e : ℕ) → get_sz_from_desc e ≡ get_sz_from_desc d → desc_blk_size e ≡ desc_blk_size d
unfolding desc_blk_size
same_blk_size d e h = ap addr_list_sz_to_xlat_blk_sz h

module _ (d : ℕ) {e addr cnt st : ℕ} (f : HasFields e addr cnt (get_sz_from_desc d) st) where
  -- The blocks of a word that is known by its fields.
  pub HasFields-blocks : desc_blocks e ≡ run cnt addr (desc_blk_size d) st
  HasFields-blocks = rw (f.has_cnt, f.has_addr, f.has_st, same_blk_size d e f.has_sz)

  pub HasFields-IsDesc :
      addr % desc_blk_size d ≡ 0 → addr + cnt * desc_blk_size d ≤ 2 ^ 52 → IsDesc e
  HasFields-IsDesc al fits = record {
    word = f.word;
    aligned = rw (f.has_addr, same_blk_size d e f.has_sz) al;
    fits = rw (f.has_addr, f.has_cnt, same_blk_size d e f.has_sz) fits;
  }

pub run-snoc :
    (n base size state : ℕ)
    → run (suc n) base size state
      ≡ run n base size state ++ record { base = base + n * size; size = size; state = state } ∷ []
run-snoc zero base size state = ground arith
run-snoc (suc n) base size state = ground (arith, run-snoc n (base + size) size state)

-- A new value of one descriptor that has one block more.
pub blocks_of-set :
    (n i : ℕ) (ds : List ℕ) (d : ℕ) (b : Block)
    → i < n
    → i < length ds
    → Perm (desc_blocks d) (b ∷ desc_blocks (get_or ds i 0))
    → Perm (blocks_of n (set ds i d)) (b ∷ blocks_of n ds)
blocks_of-set zero i ds d b h k p = absurd (omega arith)
blocks_of-set (suc n) i [] d b h k p = absurd (omega arith)
blocks_of-set (suc n) zero (x ∷ ds) d b h k p = Perm.append_right (blocks_of n ds) p
blocks_of-set (suc n) (suc i) (x ∷ ds) d b h k p =
    Perm.trans
      (Perm.append_left (desc_blocks x) (blocks_of-set n i ds d b (omega arith) (omega arith) p))
      (perm_middle (desc_blocks x) (blocks_of n ds))

-- A descriptor written behind the last one.
pub blocks_of-snoc :
    (n : ℕ) (ds : List ℕ) (d : ℕ)
    → n < length ds
    → blocks_of (suc n) (set ds n d) ≡ blocks_of n ds ++ desc_blocks d
blocks_of-snoc n [] d h = absurd (omega arith)
blocks_of-snoc zero (x ∷ ds) d h = append-nil (desc_blocks d)
blocks_of-snoc (suc n) (x ∷ ds) d h =
    rw (append_assoc (desc_blocks x) (blocks_of n ds) (desc_blocks d))
      (ap (◌++◌ (desc_blocks x)) (blocks_of-snoc n ds d (omega arith)))

module _ {ℓ} (P : ℕ → Type ℓ) where
  pub AllDescs-get :
      (n i : ℕ) (ds : List ℕ) → i < n → i < length ds → AllDescs P n ds → P (get_or ds i 0)
  AllDescs-get zero i ds h k a = absurd (omega arith)
  AllDescs-get (suc n) i [] h k a = absurd (omega arith)
  AllDescs-get (suc n) zero (x ∷ ds) h k a = a.0
  AllDescs-get (suc n) (suc i) (x ∷ ds) h k a = AllDescs-get n i ds (omega arith) (omega arith) a.1

  pub AllDescs-set :
      (n i : ℕ) (ds : List ℕ) (d : ℕ) → AllDescs P n ds → P d → AllDescs P n (set ds i d)
  AllDescs-set zero i ds d a p = tt
  AllDescs-set (suc n) i [] d a p = tt
  AllDescs-set (suc n) zero (x ∷ ds) d a p = (p, a.1)
  AllDescs-set (suc n) (suc i) (x ∷ ds) d a p = (a.0, AllDescs-set n i ds d a.1 p)

  pub AllDescs-snoc :
      (n : ℕ) (ds : List ℕ) (d : ℕ)
      → n < length ds
      → AllDescs P n ds
      → P d
      → AllDescs P (suc n) (set ds n d)
  AllDescs-snoc n [] d h a p = tt
  AllDescs-snoc zero (x ∷ ds) d h a p = (p, tt)
  AllDescs-snoc (suc n) (x ∷ ds) d h a p = (a.0, AllDescs-snoc n ds d (omega arith) a.1 p)

-- The cursor has no part in the invariant.
pub cursor-IsValid : (l : AddrList) (i : ℕ) → IsValid l → IsValid (record l { cur_idx = i })
cursor-IsValid l i v = record {
  slots = v.slots;
  capped = v.capped;
  max_pos = v.max_pos;
  max_capped = v.max_capped;
  descs = v.descs;
}
