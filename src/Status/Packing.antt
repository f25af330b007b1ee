-- ===== src/Status/Packing.antt =====
-- lib/common/include/status.h: a result comes back from its packed form.
use tf_rmm.Common.{
  ℕ, ◌+◌, ◌*◌, ◌/◌, ◌%◌, ◌^◌, ◌<◌, ◌≤◌, ◌≡◌, refl, ap, arith, true, ◌&&◌, ltb, leb, Option, none,
  some,
}
use tf_rmm.Utils.{inplace, extract, is_aligned, shl64}
use tf_rmm.Status.{
  ReturnCode, ResultData, null, incomplete, level, level_addr, Kind, null_kind, incomplete_kind,
  level_kind, level_addr_kind, kind_of, addr_fits, pack_data, pack_struct_return_code, unpack_data,
  unpack_return_code,
}
use tf_rmm.Status.Words.{or_two, or_three, or_addr, status_of, mem_of, cancel_of, level_of, addr_of}

-- The data that the status selects, in the width of its fields.
pub data FitsKind : Kind → ResultData → Type 0 where
  null_fits : FitsKind null_kind null
  incomplete_fits :
      {mem cancel : ℕ} → mem ≤ 2 → cancel ≤ 1 → FitsKind incomplete_kind (incomplete mem cancel)
  level_fits : {lvl : ℕ} → lvl < 2 ^ 8 → FitsKind level_kind (level lvl)
  level_addr_fits :
      {lvl addr : ℕ}
      → lvl < 2 ^ 8
      → addr % 2 ^ 12 ≡ 0
      → addr < 2 ^ 52
      → FitsKind level_addr_kind (level_addr lvl addr)

pub record IsResult (rc : ReturnCode) : Type 0 where
  pub listed : rc.status < 17
  pub selected : FitsKind (kind_of rc.status) rc.result_data

-- A packed result that unpacks to the result.
abbrev pub Packed : ReturnCode → Option ℕ → Type 0
Packed rc none = ⊥
Packed rc (some w) = (w < 2 ^ 64) × (unpack_return_code w ≡ rc)

-- What a word unpacks to, from its status and the data there.
unpacked :
    (w st : ℕ)
    → (k : Kind) → (d : ResultData) → st < 17
    → extract 0 8 w ≡ st
    → kind_of st ≡ k
    → unpack_data k w ≡ d
    → unpack_return_code w ≡ record { status = st; result_data = d }
unfolding unpack_return_code
unpacked w st k d h e f g = let small : st % 2 ^ 8 ≡ st = omega arith in rw (e, f, g, small) refl

-- What each member packs to, and what comes back of it.
pack_null :
    (st : ℕ)
    → st < 17
    → kind_of st ≡ null_kind
    → Packed (record { status = st; result_data = null }) (some (inplace 0 st))
unfolding unpack_data
pack_null st h e =
    let whole : inplace 0 st ≡ st = omega arith in
    rw whole (
      omega arith,
      unpacked st st null_kind null h
          (status_of st 0 st 0 (omega arith) (omega arith) (omega arith)) e refl,
    )

pack_incomplete :
    (st mem cancel : ℕ)
    → st < 17
    → kind_of st ≡ incomplete_kind
    → mem ≤ 2
    → cancel ≤ 1
    → Packed
        (record { status = st; result_data = incomplete mem cancel })
        (pack_data incomplete_kind (inplace 0 st) (incomplete mem cancel))
unfolding pack_data unpack_data
pack_incomplete st mem cancel h e m c =
    let w : ℕ = st + mem * 2 ^ 8 + cancel * 2 ^ 10 in
    let fits : (leb mem 2 && leb cancel 1) ≡ true = ground arith in
    rw (fits, or_three st mem cancel h (omega arith) (omega arith))
      (
        omega arith,
        unpacked w st incomplete_kind (incomplete mem cancel) h
            (status_of w 0 st (mem + cancel * 4) (omega arith) (omega arith) (omega arith)) e
            (rw
              (
                mem_of w st mem cancel (omega arith) (omega arith) (omega arith),
                cancel_of w (st + mem * 2 ^ 8) cancel 0 (omega arith) (omega arith) (omega arith),
              )
              refl),
      )

pack_level :
    (st lvl : ℕ)
    → st < 17
    → kind_of st ≡ level_kind
    → lvl < 2 ^ 8
    → Packed
        (record { status = st; result_data = level lvl })
        (pack_data level_kind (inplace 0 st) (level lvl))
unfolding pack_data unpack_data
pack_level st lvl h e l =
    let w : ℕ = st + lvl * 2 ^ 8 in
    rw (or_two st lvl h (omega arith)) (
      omega arith,
      unpacked w st level_kind (level lvl) h
          (status_of w 0 st lvl (omega arith) (omega arith) (omega arith)) e
          (ap level (level_of w st lvl 0 (omega arith) l (omega arith))),
    )

pack_level_addr :
    (st lvl addr : ℕ)
    → st < 17
    → kind_of st ≡ level_addr_kind
    → lvl < 2 ^ 8
    → addr % 2 ^ 12 ≡ 0
    → addr < 2 ^ 52
    → Packed
        (record { status = st; result_data = level_addr lvl addr })
        (pack_data level_addr_kind (inplace 0 st) (level_addr lvl addr))
unfolding pack_data unpack_data addr_fits
pack_level_addr st lvl addr h e l a b =
    let page : ℕ = addr / 2 ^ 12 in
    let w : ℕ = st + lvl * 2 ^ 8 + page * 2 ^ 16 in
    let fits : (is_aligned addr (2 ^ 12) && ltb (addr / 2 ^ 12) (2 ^ 40)) ≡ true = ground arith in
    let whole : shl64 page 12 ≡ addr = omega arith in
    rw (fits, or_addr st lvl page h l (omega arith))
      (
        omega arith,
        unpacked w st level_addr_kind (level_addr lvl addr) h
            (status_of w 0 st (lvl + page * 2 ^ 8) (omega arith) (omega arith) (omega arith)) e
            (rw
              (
                level_of w st lvl page (omega arith) l (omega arith),
                addr_of w (st + lvl * 2 ^ 8) page 0 (omega arith) (omega arith) (omega arith),
                whole,
              )
              refl),
      )

pack_data-Packed :
    (st : ℕ)
    → {k : Kind} → {d : ResultData} → st < 17
    → kind_of st ≡ k
    → FitsKind k d
    → Packed (record { status = st; result_data = d }) (pack_data k (inplace 0 st) d)
unfolding pack_data
pack_data-Packed st h e null_fits = pack_null st h e
pack_data-Packed st h e (incomplete_fits {mem} {cancel} m c) = pack_incomplete st mem cancel h e m c
pack_data-Packed st h e (level_fits {lvl} l) = pack_level st lvl h e l
pack_data-Packed st h e (level_addr_fits {lvl} {addr} l a b) = pack_level_addr st lvl addr h e l a b

-- A result whose status is one of RmiStatusCode and whose data is what the status selects, in the
-- width of its fields, is packed in 64 bits by `pack_struct_return_code`, no assertion of which
-- fails, and `unpack_return_code` gives back the result.
pub pack_struct_return_code-Packed :
    (rc : ReturnCode) → IsResult rc → Packed rc (pack_struct_return_code rc)
unfolding pack_struct_return_code
pack_struct_return_code-Packed rc h =
    let listed : ltb rc.status 17 ≡ true = ground arith in
    rw listed (pack_data-Packed rc.status h.listed refl h.selected)
