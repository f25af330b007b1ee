-- ===== src/AddrList/Desc/Fields.antt =====
-- The getters and setters of a descriptor, as arithmetic on its value.
use tf_rmm.Common.{ℕ, zero, suc, ◌+◌, ◌-◌, ◌*◌, ◌/◌, ◌%◌, ◌^◌, ◌<◌, ◌≡◌, refl, arith, bit_or}
use tf_rmm.Common.Bits.{zero-bit_or, or_field, bit_or-lt, and_ones}
use tf_rmm.Utils.Fields.{extract_value, replace_value, or_absorb, or_shift_low, clear_value}
use tf_rmm.AddrList.Desc.{
  get_addr_from_desc, get_cnt_from_desc, get_st_from_desc, get_sz_from_desc, set_addr_in_desc,
  set_cnt_in_desc, set_sz_in_desc, set_st_in_desc, increment_block_count, decrement_block_count,
  create_desc, xlat_blk_sz_to_addr_list_sz, addr_list_sz_to_xlat_blk_sz,
}

pub get_addr_value : (d : ℕ) → get_addr_from_desc d ≡ d / 4096 % 2 ^ 40 * 4096
unfolding get_addr_from_desc
get_addr_value d = rw (extract_value 12 40 d) (omega arith)

pub get_cnt_value : (d : ℕ) → get_cnt_from_desc d ≡ d / 4 % 1024
unfolding get_cnt_from_desc
get_cnt_value d = extract_value 2 10 d

pub get_st_value : (d : ℕ) → get_st_from_desc d ≡ d / 2 ^ 62 % 4
unfolding get_st_from_desc
get_st_value d = extract_value 62 2 d

pub get_sz_value : (d : ℕ) → get_sz_from_desc d ≡ d % 4
unfolding get_sz_from_desc
get_sz_value d = rw (extract_value 0 2 d) (omega arith)

pub set_addr_value :
    (d a : ℕ)
    → d < 2 ^ 64
    → a < 2 ^ 52
    → set_addr_in_desc d a ≡ d - d / 4096 % 2 ^ 40 * 4096 + a / 4096 * 4096
unfolding set_addr_in_desc
set_addr_value d a h k =
    let fits : a / 4096 * 4096 % 2 ^ 64 ≡ a / 4096 * 4096 = omega arith in
    rw fits (replace_value 12 40 d (a / 4096) h (omega arith) (omega arith) (omega arith))

pub set_cnt_value :
    (d c : ℕ) → d < 2 ^ 64 → c < 1024 → set_cnt_in_desc d c ≡ d - d / 4 % 1024 * 4 + c * 4
unfolding set_cnt_in_desc
set_cnt_value d c h k =
    let fits : c * 4 % 2 ^ 64 ≡ c * 4 = omega arith in
    rw fits (replace_value 2 10 d c h (omega arith) (omega arith) (omega arith))

set_sz_value : (d z : ℕ) → d < 2 ^ 64 → z < 4 → set_sz_in_desc d z ≡ d - d % 4 + z
unfolding set_sz_in_desc
set_sz_value d z h k =
    let fits : z * 1 % 2 ^ 64 ≡ z * 1 = omega arith in
    rw fits (omega (arith, replace_value 0 2 d z h (omega arith) (omega arith) (omega arith)))

set_st_value :
    (d st : ℕ)
    → d < 2 ^ 64
    → st < 4
    → set_st_in_desc d st ≡ d - d / 2 ^ 62 % 4 * 2 ^ 62 + st * 2 ^ 62
unfolding set_st_in_desc
set_st_value d st h k =
    let fits : st * 2 ^ 62 % 2 ^ 64 ≡ st * 2 ^ 62 = omega arith in
    rw fits (replace_value 62 2 d st h (omega arith) (omega arith) (omega arith))

-- The size field of a block size, and back.
pub sz_of_blk_size :
    (sz : ℕ) → sz < 4 → xlat_blk_sz_to_addr_list_sz (addr_list_sz_to_xlat_blk_sz sz) ≡ sz
unfolding xlat_blk_sz_to_addr_list_sz
sz_of_blk_size zero h = refl
sz_of_blk_size (suc zero) h = refl
sz_of_blk_size (suc (suc zero)) h = refl
sz_of_blk_size (suc (suc (suc zero))) h = refl
sz_of_blk_size (suc (suc (suc (suc sz)))) h = absurd (omega arith)

-- A setter under `desc |= ...` where the field is still clear.
or_set_cnt :
    (d c : ℕ)
    → d < 2 ^ 64
    → c < 1024
    → d / 4 % 1024 ≡ 0
    → bit_or d (set_cnt_in_desc d c) ≡ d + c * 4
or_set_cnt d c h k clear =
    let e : set_cnt_in_desc d c ≡ bit_or d (c * 2 ^ 2) =
      omega (arith, set_cnt_value d c h k, or_field 2 10 d c clear k) in
    rw (e, or_absorb d (c * 2 ^ 2)) (or_field 2 10 d c clear k)

or_set_sz : (d z : ℕ) → d < 2 ^ 64 → z < 4 → d % 4 ≡ 0 → bit_or d (set_sz_in_desc d z) ≡ d + z
or_set_sz d z h k clear =
    let bottom : bit_or d (z * 2 ^ 0) ≡ d + z * 2 ^ 0 = or_field 0 2 d z (omega arith) k in
    let e : set_sz_in_desc d z ≡ bit_or d (z * 2 ^ 0) =
      omega (arith, set_sz_value d z h k, bottom) in
    rw (e, or_absorb d (z * 2 ^ 0)) (omega (arith, bottom))

or_set_st : (d st : ℕ) → d < 2 ^ 62 → st < 4 → bit_or d (set_st_in_desc d st) ≡ d + st * 2 ^ 62
or_set_st d st h k =
    let top : bit_or d (st * 2 ^ 62) ≡ d + st * 2 ^ 62 = or_field 62 2 d st (omega arith) k in
    let e : set_st_in_desc d st ≡ bit_or d (st * 2 ^ 62) =
      omega (arith, set_st_value d st (omega arith) k, top) in
    rw (e, or_absorb d (st * 2 ^ 62)) top

-- The value of a descriptor with the four fields.
abbrev pub encode : ℕ → ℕ → ℕ → ℕ → ℕ
encode addr cnt sz st = addr / 4096 * 4096 + cnt * 4 + sz + st * 2 ^ 62

pub create_desc_value :
    (a c sz st : ℕ)
    → a < 2 ^ 52
    → c < 1024
    → sz < 4
    → st < 4
    → create_desc a c (addr_list_sz_to_xlat_blk_sz sz) st ≡ encode a c sz st
unfolding create_desc
create_desc_value a c sz st ha hc hz hs =
    let first : bit_or 0 (set_addr_in_desc 0 a) ≡ a / 4096 * 4096 =
      omega (arith, zero-bit_or (set_addr_in_desc 0 a), set_addr_value 0 a (omega arith) ha) in
    rw (
      sz_of_blk_size sz hz,
      first,
      or_set_cnt (a / 4096 * 4096) c (omega arith) hc (omega arith),
      or_set_sz (a / 4096 * 4096 + c * 4) sz (omega arith) hz (omega arith),
      or_set_st (a / 4096 * 4096 + c * 4 + sz) st (omega arith) hs,
    )

ruleset getters = (arith, get_addr_value, get_cnt_value, get_sz_value, get_st_value)

-- A word with the four fields.
pub record HasFields (d addr cnt sz st : ℕ) : Type 0 where
  pub word : d < 2 ^ 64
  pub has_addr : get_addr_from_desc d ≡ addr
  pub has_cnt : get_cnt_from_desc d ≡ cnt
  pub has_sz : get_sz_from_desc d ≡ sz
  pub has_st : get_st_from_desc d ≡ st

encode_fields :
    (a c sz st : ℕ)
    → a < 2 ^ 52
    → c < 1024
    → sz < 4
    → st < 4
    → HasFields (encode a c sz st) (a / 4096 * 4096) c sz st
encode_fields a c sz st ha hc hz hs = omega getters

-- A descriptor made from four fields has them.
pub create_desc_fields :
    (a c sz st : ℕ)
    → a < 2 ^ 52
    → c < 1024
    → sz < 4
    → st < 4
    → HasFields (create_desc a c (addr_list_sz_to_xlat_blk_sz sz) st) (a / 4096 * 4096) c sz st
create_desc_fields a c sz st ha hc hz hs =
    rw (create_desc_value a c sz st ha hc hz hs) (encode_fields a c sz st ha hc hz hs)

module _ (d : ℕ) (h : d < 2 ^ 64) where
  pub own_fields :
      HasFields d
        (get_addr_from_desc d)
        (get_cnt_from_desc d)
        (get_sz_from_desc d)
        (get_st_from_desc d)
  own_fields = record { word = h; has_addr = refl; has_cnt = refl; has_sz = refl; has_st = refl }

  pub field_bounds :
      (get_addr_from_desc d < 2 ^ 52)
      × (get_cnt_from_desc d < 1024)
      × (get_sz_from_desc d < 4)
      × (get_st_from_desc d < 4)
  field_bounds = omega getters

  pub increment_fields :
      get_cnt_from_desc d < 1023
      → HasFields
          (increment_block_count d)
          (get_addr_from_desc d)
          (get_cnt_from_desc d + 1)
          (get_sz_from_desc d)
          (get_st_from_desc d)
  unfolding increment_block_count
  increment_fields k = omega getters

  pub decrement_fields :
      0 < get_cnt_from_desc d
      → HasFields
          (decrement_block_count d)
          (get_addr_from_desc d)
          (get_cnt_from_desc d - 1)
          (get_sz_from_desc d)
          (get_st_from_desc d)
  unfolding decrement_block_count
  decrement_fields k = omega getters

  pub set_addr_fields :
      (a : ℕ)
      → a < 2 ^ 52
      → HasFields
          (set_addr_in_desc d a)
          (a / 4096 * 4096)
          (get_cnt_from_desc d)
          (get_sz_from_desc d)
          (get_st_from_desc d)
  set_addr_fields a k = rw (set_addr_value d a h k) (omega getters)

  pub set_cnt_fields :
      (c : ℕ)
      → c < 1024
      → HasFields
          (set_cnt_in_desc d c)
          (get_addr_from_desc d)
          c
          (get_sz_from_desc d)
          (get_st_from_desc d)
  set_cnt_fields c k = rw (set_cnt_value d c h k) (omega getters)

  -- Also an address that does not fit leaves the count alone.
  pub set_addr_any :
      (a : ℕ)
      → a < 2 ^ 64
      → (set_addr_in_desc d a < 2 ^ 64)
        × (get_cnt_from_desc (set_addr_in_desc d a) ≡ get_cnt_from_desc d)
  unfolding set_addr_in_desc
  set_addr_any a k =
      let fits : a / 4096 * 4096 % 2 ^ 64 ≡ a / 4096 * 4096 = omega arith in
      let kept = clear_value 12 40 d h (omega arith) in
      let joined = or_shift_low 12 (d - d / 4096 % 2 ^ 40 * 4096) (a / 4096) in
      rw (fits, kept)
        (
          bit_or-lt 64 (d - d / 4096 % 2 ^ 40 * 4096) (a / 4096 * 4096) (omega arith) (omega arith),
          omega (getters, joined),
        )

  -- The end of the address space leaves an address field of zero.
  pub set_addr_top :
      HasFields
        (set_addr_in_desc d (2 ^ 52))
        0
        (get_cnt_from_desc d)
        (get_sz_from_desc d)
        (get_st_from_desc d)
  unfolding set_addr_in_desc
  set_addr_top =
      let kept = clear_value 12 40 d h (omega arith) in
      let y : ℕ = d - d / 4096 % 2 ^ 40 * 4096 in
      let joined = or_shift_low 52 y 1 in
      let top = and_ones 1 (y / 2 ^ 52) in rw kept (omega (getters, joined, top))
