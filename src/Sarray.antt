-- ===== src/Sarray.antt =====
-- lib/sarray/src/sarray.c: an array of elements kept in the order of their keys, and its binary search.
-- `mem` is the memory behind `base`, an element's key with the rest of it; an element is named by its
-- index where the source has its address, and NULL is `none` or the address 0.
pub mod Order
pub mod Search
pub mod Shift
pub mod Parts
pub mod Insert
pub mod Delete
use tf_rmm.Common.{
  ℕ, zero, suc, ◌+◌, ◌-◌, ◌*◌, ◌/◌, ◌%◌, ◌^◌, Bool, true, false, not, ◌&&◌, ◌||◌, ◌==◌, ltb, leb,
  if◌then◌else◌, Option, none, some, List, [], ◌∷◌, ◌++◌, take, drop, set, get_or,
}
use tf_rmm.Utils.{u64_mod, is_aligned}

-- sizeof(uint64_t)
abbrev pub key_sz : ℕ
key_sz = 8

-- struct sarray_hdr
pub record Sarray {ℓ} (A : Type ℓ) : Type ℓ where
  pub base : ℕ
  pub elem_sz : ℕ
  pub max_elems : ℕ
  pub num_elems : ℕ
  pub mem : List (ℕ × A)

-- The values an operation returns: 0, -EINVAL, -EEXIST, -ENOSPC, -ENOENT.
pub data Status : Type 0 where
  success einval eexist enospc enoent : Status

-- The key of the element at an index, `*_key_const_ptr`.
abbrev pub key_at {ℓ} : {A : Type ℓ} → List (ℕ × A) → ℕ → ℕ
key_at [] i = 0
key_at ((k, a) ∷ xs) zero = k
key_at (x ∷ xs) (suc i) = key_at xs i

abbrev pub elem_at {ℓ} : {A : Type ℓ} → List (ℕ × A) → ℕ → Option (ℕ × A)
elem_at [] i = none
elem_at (x ∷ xs) zero = some x
elem_at (x ∷ xs) (suc i) = elem_at xs i

-- memmove, of `count` elements from `src` to `dst`
abbrev pub memmove {ℓ} : {A : Type ℓ} → List A → ℕ → ℕ → ℕ → List A
memmove xs dst src count = take dst xs ++ (take count (drop src xs) ++ drop (dst + count) xs)

module _ {ℓ} {A : Type ℓ} where
  unfoldable pub verify_sarray_hnd : Sarray A → Bool
  verify_sarray_hnd hnd =
      not (hnd.base == 0)
      && is_aligned hnd.base key_sz
      && not (hnd.max_elems == 0)
      && not (ltb hnd.elem_sz key_sz)
      && is_aligned hnd.elem_sz key_sz
      && not (ltb hnd.max_elems hnd.num_elems)

  unfoldable pub verify_sarray_access : Sarray A → ℕ → Bool
  verify_sarray_access hnd elem_sz = verify_sarray_hnd hnd && hnd.elem_sz == elem_sz

  pub data_overlaps_sarray : Sarray A → ℕ → Bool
  data_overlaps_sarray hnd data_start =
      let array_sz = hnd.max_elems * hnd.elem_sz % u64_mod in
      if ltb (u64_mod - 1 - array_sz) hnd.base || ltb (u64_mod - 1 - hnd.elem_sz) data_start
      then true
      else ltb data_start (hnd.base + array_sz) && ltb hnd.base (data_start + hnd.elem_sz)

  pub sarray_num_elems : Sarray A → ℕ
  sarray_num_elems hnd = if verify_sarray_hnd hnd then hnd.num_elems else 0

  -- `mem` is what the memory at `base` holds.
  pub sarray_init : ℕ → List (ℕ × A) → ℕ → ℕ → Option (Sarray A)
  sarray_init base mem size elem_sz =
      if base == 0
      then none
      else if ltb elem_sz key_sz
      then none
      else if not (is_aligned base key_sz) || not (is_aligned elem_sz key_sz)
      then none
      else if ltb size elem_sz
      then none
      else if size / elem_sz == 0
      then none
      else some record {
        base = base;
        elem_sz = elem_sz;
        max_elems = size / elem_sz;
        num_elems = 0;
        mem = mem;
      }

  pub sarray_destroy : Sarray A → Sarray A
  sarray_destroy hnd = record hnd { base = 0; elem_sz = 0; max_elems = 0; num_elems = 0 }

  -- The loop over [left, right), with the rounds that are left: whether the key was found, and `*idx`.
  unfoldable pub search_between : ℕ → List (ℕ × A) → ℕ → ℕ → ℕ → Bool × ℕ
  search_between zero mem key left right = (false, left)
  search_between (suc rounds) mem key left right =
      let mid = left + (right - left) / 2 in
      let above = search_between rounds mem key (mid + 1) right in
      let below = search_between rounds mem key left mid in
      if leb right left
      then (false, left)
      else if key_at mem mid == key
      then (true, mid)
      else if ltb (key_at mem mid) key
      then above
      else below

  -- `idx` is what `*idx` held before, which a call that is refused leaves.
  unfoldable pub binary_search_internal : Sarray A → ℕ → ℕ → ℕ → Bool × ℕ
  binary_search_internal hnd elem_sz key idx =
      if not (verify_sarray_access hnd elem_sz)
      then (false, idx)
      else search_between hnd.num_elems hnd.mem key 0 hnd.num_elems

  unfoldable pub sarray_lookup_locked : Sarray A → ℕ → ℕ → Option (ℕ × A)
  sarray_lookup_locked hnd elem_sz key =
      let (found, idx) = binary_search_internal hnd elem_sz key 0 in
      if not (verify_sarray_access hnd elem_sz)
      then none
      else if not found
      then none
      else elem_at hnd.mem idx

  -- The element whose address is `data` and whose value after the key is `a`.
  pub sarray_insert_locked : Sarray A → ℕ → ℕ → ℕ → A → Sarray A × Status
  sarray_insert_locked hnd elem_sz key data_addr a =
      let (found, idx) = binary_search_internal hnd elem_sz key 0 in
      if not (verify_sarray_access hnd elem_sz)
      then (hnd, einval)
      else if data_overlaps_sarray hnd data_addr
      then (hnd, einval)
      else if found
      then (hnd, eexist)
      else if hnd.num_elems == hnd.max_elems
      then (hnd, enospc)
      else let count = hnd.num_elems - idx in
        let moved = if ltb 0 count then memmove hnd.mem (idx + 1) idx count else hnd.mem in
        (record hnd { mem = set moved idx (key, a); num_elems = hnd.num_elems + 1 }, success)

  -- The two tests of `deleted_data` against NULL.
  abbrev pub copy_overlaps : Sarray A → Option ℕ → Bool
  copy_overlaps hnd none = false
  copy_overlaps hnd (some addr) = data_overlaps_sarray hnd addr

  abbrev pub copied : Option ℕ → Option (ℕ × A) → Option (ℕ × A)
  copied none elem = none
  copied (some addr) elem = elem

  -- The address that takes the deleted element may be NULL; the third component is what is copied there.
  pub sarray_delete_locked : Sarray A → ℕ → ℕ → Option ℕ → Sarray A × Status × Option (ℕ × A)
  sarray_delete_locked hnd elem_sz key deleted_data =
      let (found, idx) = binary_search_internal hnd elem_sz key 0 in
      if not (verify_sarray_access hnd elem_sz)
      then (hnd, einval, none)
      else if not found
      then (hnd, enoent, none)
      else if copy_overlaps hnd deleted_data
      then (hnd, einval, none)
      else let count = hnd.num_elems - idx - 1 in
        let moved = if ltb 0 count then memmove hnd.mem idx (idx + 1) count else hnd.mem in
        (
          record hnd { mem = moved; num_elems = hnd.num_elems - 1 },
          success,
          copied deleted_data (elem_at hnd.mem idx),
        )
