-- ===== src/AddrList/Sort.antt =====
-- lib/addr_list/src/addr_list.c: addr_list_sort_by_addr puts the descriptors in the order of their
-- addresses, empty ones last.
use mathlib.Core.List.{Perm}
use tf_rmm.Common.{
  ℕ, ◌≤◌, ◌≡◌, ◌≢◌, ◌⊎◌, refl, arith, true, false, List, [], ◌∷◌, length, take, drop,
}
use tf_rmm.Insertion.Laws.{Rising, sort-InOrder}
use tf_rmm.AddrList.Desc.{get_cnt_from_desc, get_addr_from_desc, desc_is_empty}
use tf_rmm.AddrList.{AddrList, desc_after_by_addr, sort_by_addr}

after_asym : (a b : ℕ) → desc_after_by_addr a b ≡ true → desc_after_by_addr b a ≡ false
unfolding desc_after_by_addr
after_asym a b e = ground arith

-- The descriptor may stand before the other: the other has no blocks, or both have some and its address
-- is not above that of the other.
abbrev pub MayPrecede : ℕ → ℕ → Type 0
MayPrecede a b =
    (get_cnt_from_desc b ≡ 0)
    ⊎ ((get_cnt_from_desc a ≢ 0) × (get_addr_from_desc a ≤ get_addr_from_desc b))

abbrev pub ByAddress : List ℕ → Type 0
ByAddress [] = Unit
ByAddress (a ∷ []) = Unit
ByAddress (a ∷ b ∷ ds) = MayPrecede a b × ByAddress (b ∷ ds)

not_after-MayPrecede : (a b : ℕ) → desc_after_by_addr a b ≡ false → MayPrecede a b
unfolding desc_after_by_addr desc_is_empty
not_after-MayPrecede a b e = ground arith

Rising-ByAddress : (ds : List ℕ) → Rising desc_after_by_addr ds → ByAddress ds
Rising-ByAddress [] rise = tt
Rising-ByAddress (a ∷ []) rise = tt
Rising-ByAddress (a ∷ b ∷ ds) (le, rise) =
    (not_after-MayPrecede a b le, Rising-ByAddress (b ∷ ds) rise)

-- addr_list_sort_by_addr moves only the descriptors that the list counts, loses and repeats none of
-- them, and leaves them with ascending addresses, those without blocks last. It keeps the count and
-- starts the list again at the first.
pub sort_by_addr-ByAddress :
    (l : AddrList)
    → l.count ≤ length l.range_desc
    → Perm (take l.count (sort_by_addr l).range_desc) (take l.count l.range_desc)
      × ByAddress (take l.count (sort_by_addr l).range_desc)
      × (drop l.count (sort_by_addr l).range_desc ≡ drop l.count l.range_desc)
      × (length (sort_by_addr l).range_desc ≡ length l.range_desc)
      × ((sort_by_addr l).count ≡ l.count)
      × ((sort_by_addr l).cur_idx ≡ 0)
unfolding sort_by_addr
sort_by_addr-ByAddress l le =
    let (moved, rise, others, size) =
      sort-InOrder desc_after_by_addr 0 after_asym l.count l.range_desc le in
    (moved, Rising-ByAddress _ rise, others, size, refl, refl)
