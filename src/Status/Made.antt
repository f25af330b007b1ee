-- ===== src/Status/Made.antt =====
-- lib/common/include/status.h: the results that the make_return_code functions build.
use tf_rmm.Common.{
  ℕ, ◌/◌, ◌%◌, ◌^◌, ◌<◌, ◌≡◌, ◌≢◌, refl, sym, ap, ◌∙◌, ltb, arith, Bool, true, false, ◌&&◌, ◌||◌,
  ◌==◌, leb, if◌then◌else◌, Option, none, some,
}
use tf_rmm.Utils.{is_aligned, extract}
use tf_rmm.Status.{
  ReturnCode, incomplete, level, level_addr, level_kind, level_addr_kind, kind_of, addr_fits,
  rmi_error_tracking, unpack_return_code, make_return_code_level, make_return_code_level_addr,
  make_return_code_incomplete, pack_struct_return_code, pack_return_code_level,
  pack_return_code_level_addr, pack_return_code_incomplete,
}
use tf_rmm.Status.Packing.{
  incomplete_fits, level_fits, level_addr_fits, IsResult, Packed, pack_struct_return_code-Packed,
}

-- What is built is a result; a failed assertion builds nothing.
abbrev pub Built : Option ReturnCode → Type 0
Built none = Unit
Built (some rc) = IsResult rc

abbrev selects_level : ℕ → Bool
selects_level st = st == 4 || st == 7 || st == 8

abbrev selects_addr : ℕ → Bool
selects_addr st = st == 9 || st == 15 || st == 12

level-Built :
    (st lvl : ℕ)
    → (b : Bool) → lvl < 2 ^ 8
    → selects_level st ≡ b
    → Built (if b then some (record { status = st % 2 ^ 8; result_data = level lvl }) else none)
unfolding kind_of
level-Built st lvl false h e = tt
level-Built st lvl true h e =
    let small : st % 2 ^ 8 ≡ st = ground arith in
    let kind : kind_of st ≡ level_kind = ground arith in
    record { listed = ground arith; selected = rw (small, kind) (level_fits h) }

addr-Built :
    (st lvl addr : ℕ)
    → (b : Bool) → lvl < 2 ^ 8
    → addr < 2 ^ 64
    → (selects_addr st && addr_fits addr) ≡ b
    → Built (
        if b
        then some (record { status = st % 2 ^ 8; result_data = level_addr lvl addr })
        else none)
unfolding kind_of addr_fits
addr-Built st lvl addr false h k e = tt
addr-Built st lvl addr true h k e =
    let small : st % 2 ^ 8 ≡ st = ground arith in
    let kind : kind_of st ≡ level_addr_kind = ground arith in
    record {
      listed = ground arith;
      selected = rw (small, kind) (level_addr_fits h (ground arith) (ground arith));
    }

incomplete-Built :
    (mem cancel : ℕ)
    → (b : Bool) → (leb mem 2 && leb cancel 1) ≡ b
    → Built (
        if b
        then some (record { status = 13; result_data = incomplete (mem % 2 ^ 8) (cancel % 2 ^ 8) })
        else none)
unfolding kind_of
incomplete-Built mem cancel false e = tt
incomplete-Built mem cancel true e = record {
  listed = ground arith;
  selected = incomplete_fits (ground arith) (ground arith);
}

-- A packing beside what it packs.
abbrev pub Packs : Option ReturnCode → Option ℕ → Type 0
Packs none w = w ≡ none
Packs (some rc) w = Packed rc w

packs :
    (made : Option ReturnCode)
    → Built made
    → Packs made
        (elim made [ none ↦ none | some return_code ↦ pack_struct_return_code return_code ])
packs none h = refl
packs (some rc) h = pack_struct_return_code-Packed rc h

-- For a level of 8 bits and an address of 64, `pack_return_code_level`, `pack_return_code_level_addr`
-- and `pack_return_code_incomplete` give, of every status, level, address and operation fields,
-- either nothing, where an assertion of the function that makes the result fails, or a word of 64
-- bits that unpacks to the result made: once it is made, no assertion of the packing fails.
pub pack_return_code-Packs :
    (st lvl addr mem cancel : ℕ)
    → lvl < 2 ^ 8
    → addr < 2 ^ 64
    → Packs (make_return_code_level st lvl) (pack_return_code_level st lvl)
      × Packs (make_return_code_level_addr st lvl addr) (pack_return_code_level_addr st lvl addr)
      × Packs (make_return_code_incomplete mem cancel) (pack_return_code_incomplete mem cancel)
unfolding pack_return_code_level pack_return_code_level_addr pack_return_code_incomplete
    make_return_code_level make_return_code_level_addr make_return_code_incomplete
pack_return_code-Packs st lvl addr mem cancel h k = (
  packs _ (level-Built st lvl (selects_level st) h refl),
  packs _ (addr-Built st lvl addr (selects_addr st && addr_fits addr) h k refl),
  packs _ (incomplete-Built mem cancel (leb mem 2 && leb cancel 1) refl),
)

Packed-nonzero :
    (rc : ReturnCode)
    → (o : Option ℕ) → Packed rc o
    → rc.status ≢ 0
    → (w : ℕ) × ((o ≡ some w) × (w ≢ 0))
unfolding unpack_return_code extract
Packed-nonzero rc none packed ne = elim packed [ ]
Packed-nonzero rc (some w) (lt, back) ne =
    (w, (refl, λ zero_word. ne (sym (ap (λ (r : ReturnCode). r.status) back) ∙ rw zero_word refl)))

-- A tracking error of a granule's address is packed, and its word is not that of success.
pub tracking_packed :
    (addr : ℕ)
    → addr % 2 ^ 12 ≡ 0
    → addr < 2 ^ 52
    → (w : ℕ) × ((pack_return_code_level_addr rmi_error_tracking 0 addr ≡ some w) × (w ≢ 0))
unfolding pack_return_code_level_addr make_return_code_level_addr addr_fits kind_of
tracking_packed addr al fits =
    let rc : ReturnCode = record { status = 12; result_data = level_addr 0 addr } in
    let checked : (is_aligned addr (2 ^ 12) && ltb (addr / 2 ^ 12) (2 ^ 40)) ≡ true =
      ground arith in
    rw (pack_return_code_level_addr, make_return_code_level_addr, addr_fits, checked)
      (Packed-nonzero rc (pack_struct_return_code rc)
        (pack_struct_return_code-Packed rc
          (record { listed = omega arith; selected = level_addr_fits (omega arith) al fits }))
        (omega arith))
