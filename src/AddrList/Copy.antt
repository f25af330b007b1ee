-- ===== src/AddrList/Copy.antt =====
-- Exchanging a list with the host: `partial_copy_to_host`.
use mathlib.Core.Path.{ap₂}
use mathlib.Core.List.{append_assoc, append-nil}
use native.Mathlib.Nat.{zero-add, suc-add}
use tf_rmm.Common.{
  ℕ, zero, suc, ◌+◌, ◌-◌, ◌*◌, ◌/◌, ◌%◌, ◌^◌, ◌≤◌, ◌≡◌, refl, arith, ◌∙◌, true, List, [], ◌∷◌, ◌++◌,
  length, take, drop, min, Option, some, none, ap, sym,
}
use tf_rmm.AddrList.{AddrList, u32, addr_list_max_ranges, Copied, partial_copy_to_host}
use tf_rmm.AddrList.Blocks.{IsValid, desc_blocks, blocks, blocks_of}

blocks_of-nil : (m : ℕ) → [] ≡ blocks_of m []
blocks_of-nil zero = refl
blocks_of-nil (suc m) = refl

blocks_of-split :
    (n m : ℕ) (ds : List ℕ) → blocks_of (n + m) ds ≡ blocks_of n ds ++ blocks_of m (drop n ds)
blocks_of-split zero m ds = rw zero-add
blocks_of-split (suc n) m [] = rw suc-add (blocks_of-nil m)
blocks_of-split (suc n) m (d ∷ ds) =
    rw (suc-add, blocks_of-split n m ds) (sym (append_assoc (desc_blocks d) _ _))

blocks_of-take :
    (n : ℕ) (ds rest : List ℕ) → n ≤ length ds → blocks_of n (take n ds ++ rest) ≡ blocks_of n ds
blocks_of-take zero ds rest h = refl
blocks_of-take (suc n) [] rest h = absurd (omega arith)
blocks_of-take (suc n) (d ∷ ds) rest h =
    ap (◌++◌ (desc_blocks d)) (blocks_of-take n ds rest (omega arith))

length-drop : (n : ℕ) (ds : List ℕ) → length (drop n ds) ≡ length ds - n
length-drop zero ds = omega arith
length-drop (suc n) [] = omega arith
length-drop (suc n) (d ∷ ds) = omega (arith, length-drop n ds)

-- What reached the host, and what is still pending, is the list from before: `copied` descriptors,
-- no more than the host has room for and none past the end of the granule.
pub record Handed (l : AddrList) (addr room : ℕ) (c : Copied) : Type 0 where
  pub nothing_lost : blocks l ≡ blocks_of c.copied c.words ++ blocks c.list
  pub counted : c.copied + c.list.count ≡ l.count
  pub wanted : c.copied ≤ room
  pub inside : addr % 4096 + c.copied * 8 ≤ 4096

abbrev pub Sent : AddrList → ℕ → ℕ → Option Copied → Type 0
Sent l addr room none = ⊥
Sent l addr room (some c) = Handed l addr room c

module _ (l : AddrList) (n : ℕ) (h : n ≤ l.count) (k : l.count ≤ length l.range_desc) where
  abbrev m : ℕ
  m = l.count - n

  pending :
      blocks_of m (take m (drop n l.range_desc) ++ drop m l.range_desc)
      ≡ blocks_of m (drop n l.range_desc)
  pending =
      blocks_of-take m (drop n l.range_desc) (drop m l.range_desc)
        (omega (arith, length-drop n l.range_desc))

  sent : blocks_of n (take n l.range_desc) ≡ blocks_of n l.range_desc
  sent =
      ap (blocks_of n) (sym (append-nil (take n l.range_desc)))
      ∙ blocks_of-take n l.range_desc [] (omega arith)

  whole : blocks l ≡ blocks_of n l.range_desc ++ blocks_of m (drop n l.range_desc)
  whole = ap (λ t. blocks_of t l.range_desc) (omega arith) ∙ blocks_of-split n m l.range_desc

-- For a valid list, an address aligned to a descriptor and a write that goes through: the descriptors
-- that reach the host and those that stay pending describe exactly the blocks of the list from
-- before, in order, and the write stays inside the host's count and inside its granule.
pub partial_copy-Sent :
    (l : AddrList) (addr room : ℕ)
    → IsValid l
    → addr % 8 ≡ 0
    → Sent l addr room (partial_copy_to_host l addr room true)
unfolding partial_copy_to_host
partial_copy-Sent l addr room v al =
    let left = u32 (addr_list_max_ranges + 2 ^ 32 - addr % 4096 / 8) in
    let n = min (min l.count room) left in
    let le : n ≤ l.count = omega arith in
    let k : l.count ≤ length l.range_desc = omega (arith, v.slots, v.capped, v.max_capped) in
    record {
      nothing_lost = whole l n le k ∙ ap₂ ◌++◌ (sym (sent l n le k)) (sym (pending l n le k));
      counted = omega (arith, le);
      wanted = omega arith;
      inside = omega (arith, al);
    }
