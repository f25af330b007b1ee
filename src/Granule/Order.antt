-- ===== src/Granule/Order.antt =====
-- lib/granule/src/tr_granule.c: the order in which granules are locked, that of granule_types.h.
use mathlib.Core.List.{
  Perm, Pairwise, Pairwise-cons, Mem, mem-cons_self, not-mem-nil, eq-or-mem_of_mem-cons,
}
use mathlib.Core.List.Perm
use mathlib.Core.Logic.Or
use mathlib.Core.HLevel.{⊥_prop, ¬_prop}
use tf_rmm.Common.{
  ℕ, suc, ◌≤◌, ◌+◌, ◌-◌, ◌^◌, ◌<◌, ◌≡◌, ◌≢◌, ◌⊎◌, refl, sym, ap, ◌∙◌, subst, arith, Bool, true,
  false, not, ◌==◌, ltb, if◌then◌else◌, List, [], ◌∷◌, length, take,
}
use tf_rmm.Insertion.{sort_from}
use tf_rmm.Insertion.Laws.{Rising, sort-InOrder}
use tf_rmm.Granule.States.{
  granule_state_ns, granule_state_delegated, granule_state_rd, granule_state_rec,
  granule_state_rec_aux, granule_state_data, granule_state_rtt, granule_state_pdev,
  granule_state_pdev_aux, granule_state_vdev, granule_state_vdev_aux, granule_state_partial,
  granule_state_internal, granule_state_psmmu_st_l2, granule_state_rd_aux,
}

-- struct tr_granule_set, with the place of `*g_ret` among the caller's outputs.
pub record TrGranuleSet : Type 0 where
  pub addr : ℕ
  pub g_ret : ℕ
  pub state : ℕ

-- A state that is none of them fails an assertion; without assertions the result is ~0U.
unfoldable pub tr_granule_lock_order : ℕ → ℕ
tr_granule_lock_order state =
    if state == granule_state_rd
    then 0
    else if state == granule_state_rec
    then 1
    else if state == granule_state_pdev
    then 2
    else if state == granule_state_vdev
    then 3
    else if state == granule_state_rtt
    then 4
    else if state == granule_state_delegated
    then 5
    else if state == granule_state_ns
    then 6
    else if state == granule_state_data
    then 7
    else if state == granule_state_rec_aux
    then 8
    else if state == granule_state_pdev_aux
    then 9
    else if state == granule_state_vdev_aux
    then 10
    else if state == granule_state_internal
    then 11
    else if state == granule_state_psmmu_st_l2
    then 12
    else if state == granule_state_rd_aux
    then 13
    else if state == granule_state_partial
    then 14
    else 2 ^ 32 - 1

pub tr_granule_set_after : TrGranuleSet → TrGranuleSet → Bool
tr_granule_set_after a b =
    let order_a = tr_granule_lock_order a.state in
    let order_b = tr_granule_lock_order b.state in
    if not (order_a == order_b) then ltb order_b order_a else ltb b.addr a.addr

-- The inner loop, over the elements after one with the address.
unfoldable pub has_addr : ℕ → List TrGranuleSet → Bool
has_addr addr [] = false
has_addr addr (g ∷ gs) = let rest = has_addr addr gs in if addr == g.addr then true else rest

unfoldable pub tr_granule_set_has_duplicate_addr : List TrGranuleSet → Bool
tr_granule_set_has_duplicate_addr [] = false
tr_granule_set_has_duplicate_addr (g ∷ gs) =
    let rest = tr_granule_set_has_duplicate_addr gs in if has_addr g.addr gs then true else rest

pub tr_sort_granules : List TrGranuleSet → List TrGranuleSet
tr_sort_granules gs =
    sort_from tr_granule_set_after (record { addr = 0; g_ret = 0; state = 0 }) (length gs - 1) 1 gs

-- The type order that granule_types.h documents, rule 1 first and then rule 4.
abbrev pub documented : List ℕ
documented =
    granule_state_rd ∷ granule_state_rec ∷ granule_state_pdev ∷ granule_state_vdev
    ∷ granule_state_rtt ∷ granule_state_delegated ∷ granule_state_ns ∷ granule_state_data
    ∷ granule_state_rec_aux ∷ granule_state_pdev_aux ∷ granule_state_vdev_aux
    ∷ granule_state_internal ∷ granule_state_psmmu_st_l2 ∷ granule_state_rd_aux
    ∷ granule_state_partial ∷ []

-- The place of a state in a list of states, and the length of the list where it is not there.
abbrev pub place : ℕ → List ℕ → ℕ
place st [] = 0
place st (s ∷ ss) = let later = place st ss in if st == s then 0 else suc later

-- By the type of the state, and by address within a type.
abbrev pub Precedes : TrGranuleSet → TrGranuleSet → Type 0
Precedes a b =
    (place a.state documented < place b.state documented)
    ⊎ ((place a.state documented ≡ place b.state documented) × (a.addr < b.addr))

abbrev pub LockOrdered : List TrGranuleSet → Type 0
LockOrdered [] = Unit
LockOrdered (a ∷ []) = Unit
LockOrdered (a ∷ b ∷ gs) = Precedes a b × LockOrdered (b ∷ gs)

abbrev pub Distinct : List TrGranuleSet → Type 0
Distinct gs = Pairwise (λ (a : TrGranuleSet) (b : TrGranuleSet). a.addr ≢ b.addr) gs

after_asym :
    (a b : TrGranuleSet) → tr_granule_set_after a b ≡ true → tr_granule_set_after b a ≡ false
unfolding tr_granule_set_after
after_asym a b e = ground arith

-- A chain of tests whose results count up from `k`.
abbrev rank_from : ℕ → ℕ → List ℕ → ℕ
rank_from k st [] = 2 ^ 32 - 1
rank_from k st (s ∷ ss) = let later = rank_from (k + 1) st ss in if st == s then k else later

rank_from-place :
    (k st : ℕ) (ss : List ℕ)
    → (place st ss ≤ length ss)
      × (rank_from k st ss
          ≡ (if ltb (place st ss) (length ss) then k + place st ss else 2 ^ 32 - 1))
rank_from-place k st [] = (omega arith, refl)
rank_from-place k st (s ∷ ss) =
    let (small, rank) = rank_from-place (k + 1) st ss in
    counted k (place st ss) (length ss) (rank_from (k + 1) st ss) (st == s) small rank
  where
    counted :
        (k p n r : ℕ) (here : Bool)
        → p ≤ n
        → r ≡ (if ltb p n then k + 1 + p else 2 ^ 32 - 1)
        → ((if here then 0 else suc p) ≤ suc n)
          × ((if here then k else r) ≡ (
              if ltb (if here then 0 else suc p) (suc n)
              then k + (if here then 0 else suc p)
              else 2 ^ 32 - 1))
    counted k p n r true small rank = (omega arith, ground arith)
    counted k p n r false small rank = (omega arith, ground arith)

lock_order-place :
    (st : ℕ)
    → (place st documented ≤ 15)
      × (tr_granule_lock_order st
          ≡ (if ltb (place st documented) 15 then place st documented else 2 ^ 32 - 1))
unfolding tr_granule_lock_order
lock_order-place st =
    let (small, rank) = rank_from-place 0 st documented in
    (
      small,
      rank ∙ ap (λ (p : ℕ). if ltb (place st documented) 15 then p else 2 ^ 32 - 1) (omega arith),
    )

-- Places in the documented order are compared as the ranks are.
ranked :
    (p q x y u w : ℕ)
    → p ≤ 15
    → q ≤ 15
    → x ≡ (if ltb p 15 then p else 2 ^ 32 - 1)
    → y ≡ (if ltb q 15 then q else 2 ^ 32 - 1)
    → (if not (x == y) then ltb y x else ltb w u) ≡ false
    → u ≢ w
    → (p < q) ⊎ ((p ≡ q) × (u < w))
ranked p q x y u w hp hq ex ey e ne = ground arith

not_after-Precedes :
    (a b : TrGranuleSet) → tr_granule_set_after a b ≡ false → a.addr ≢ b.addr → Precedes a b
unfolding tr_granule_set_after
not_after-Precedes a b e ne =
    let (small, rank) = lock_order-place a.state in
    let (small', rank') = lock_order-place b.state in
    ranked (place a.state documented) (place b.state documented) (tr_granule_lock_order a.state)
      (tr_granule_lock_order b.state) a.addr b.addr small small' rank rank' e ne

either_false : (c rest : Bool) → (if c then true else rest) ≡ false → (c ≡ false) × (rest ≡ false)
either_false c rest e = ground arith

has_addr-Mem :
    (addr : ℕ) (gs : List TrGranuleSet)
    → has_addr addr gs ≡ false
    → (b : TrGranuleSet) → Mem b gs
    → addr ≢ b.addr
unfolding has_addr
has_addr-Mem addr [] e b m same = not-mem-nil m
has_addr-Mem addr (g ∷ gs) e b m same =
    let (differs, rest) = either_false (addr == g.addr) (has_addr addr gs) e in
    Or.elim ⊥_prop (eq-or-mem_of_mem-cons m)
      (λ b_first. other addr g.addr differs (same ∙ ap (λ (h : TrGranuleSet). h.addr) b_first))
      (λ m'. has_addr-Mem addr gs rest b m' same)
  where
    other : (x y : ℕ) → (x == y) ≡ false → x ≢ y
    other x y e = ground arith

pub no_duplicate-Distinct :
    (gs : List TrGranuleSet) → tr_granule_set_has_duplicate_addr gs ≡ false → Distinct gs
unfolding tr_granule_set_has_duplicate_addr
no_duplicate-Distinct [] e = Pairwise.nil
no_duplicate-Distinct (g ∷ gs) e =
    let (first, rest) =
      either_false (has_addr g.addr gs) (tr_granule_set_has_duplicate_addr gs) e in
    Pairwise.cons (has_addr-Mem g.addr gs first) (no_duplicate-Distinct gs rest)

pub moved-Distinct : {hs gs : List TrGranuleSet} → Perm hs gs → Distinct gs → Distinct hs
moved-Distinct moved =
    (Perm.Pairwise-iff {R = λ (a : TrGranuleSet) (b : TrGranuleSet). a.addr ≢ b.addr}
      (λ a b. ¬_prop) (λ a b ne same. ne (sym same)) moved).1

Rising-LockOrdered :
    (gs : List TrGranuleSet) → Rising tr_granule_set_after gs → Distinct gs → LockOrdered gs
Rising-LockOrdered [] rise distinct = tt
Rising-LockOrdered (a ∷ []) rise distinct = tt
Rising-LockOrdered (a ∷ b ∷ gs) (le, rise) distinct =
    let (first, rest) = Pairwise-cons.0 distinct in
    (not_after-Precedes a b le (first b mem-cons_self), Rising-LockOrdered (b ∷ gs) rise rest)

take-length : (gs : List TrGranuleSet) → take (length gs) gs ≡ gs
take-length [] = refl
take-length (g ∷ gs) = ap (λ (hs : List TrGranuleSet). g ∷ hs) (take-length gs)

-- The granules that tr_sort_granules is given without a duplicate address, which
-- tr_granule_set_has_duplicate_addr tells, come out of it in the lock order that granule_types.h
-- documents: by the type order RD, REC, PDEV, VDEV, RTT, DELEGATED, NS, DATA, REC_AUX, PDEV_AUX,
-- VDEV_AUX, INTERNAL, PSMMU_ST_L2, RD_AUX, PARTIAL, and within a type by physical address, each strictly
-- before the next; none is lost.
pub sort-LockOrdered :
    (gs : List TrGranuleSet)
    → tr_granule_set_has_duplicate_addr gs ≡ false
    → Perm (tr_sort_granules gs) gs × LockOrdered (tr_sort_granules gs)
unfolding tr_sort_granules
sort-LockOrdered gs e =
    let (perm, rise, _, same) =
      sort-InOrder tr_granule_set_after (record { addr = 0; g_ret = 0; state = 0 }) after_asym
        (length gs) gs (omega arith) in
    let whole : take (length gs) (tr_sort_granules gs) ≡ tr_sort_granules gs =
      ap (λ (n : ℕ). take n (tr_sort_granules gs)) (sym same) ∙ take-length (tr_sort_granules gs) in
    let moved : Perm (tr_sort_granules gs) gs =
      subst (λ (hs : List TrGranuleSet). Perm (tr_sort_granules gs) hs) (take-length gs)
        (subst (λ (hs : List TrGranuleSet). Perm hs (take (length gs) gs)) whole perm) in
    (
      moved,
      Rising-LockOrdered (tr_sort_granules gs) (subst (Rising tr_granule_set_after) whole rise)
          (moved-Distinct moved (no_duplicate-Distinct gs e)),
    )
