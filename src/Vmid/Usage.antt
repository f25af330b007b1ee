-- ===== src/Vmid/Usage.antt =====
-- lib/arch/src/vmid.c: which identifiers are in use, and what a reservation and a release do to them.
use tf_rmm.Common.{
  ℕ, ◌/◌, ◌%◌, ◌<◌, ◌≤◌, ◌≡◌, ◌≢◌, ◌⊎◌, inl, inr, refl, arith, ◌∙◌, sym, Bool, true, false, ◌==◌,
  ==_iff, ltb, leb, Option, none, some, if◌then◌else◌, List, length, length-set, get_or, set,
  get_or-set_self, get_or-set_ne, Bool-cases, ℕ_discrete,
}
use tf_rmm.Common.Bits.{bit, bit-le-one}
use tf_rmm.Atomics.{
  bit_set, bit_clear, bit_set_self, bit_set_ne, bit_set_was, bit_clear_self, bit_clear_ne,
}
use tf_rmm.Vmid.{vmid_count, vmid_array_long_size, vmid_reserve, vmid_free}

-- 1 if the identifier is in use, and 0 if it is free.
abbrev pub used : List ℕ → ℕ → ℕ
used vmids v = bit (get_or vmids (v / 64) 0) (v % 64)

-- The identifier `v` has the value `b`, and all others are as before.
abbrev pub Marks : List ℕ → List ℕ → ℕ → ℕ → Type 0
Marks before after v b =
    (length after ≡ length before)
    × ((u : ℕ) → used after u ≡ (if u == v then b else used before u))

-- A word whose digits other than that of `v` are kept.
module _ (vmids : List ℕ) (v w : ℕ) (inside : v / 64 < length vmids)
    (kept : (j : ℕ) → j < 64 → j ≢ v % 64 → bit w j ≡ bit (get_or vmids (v / 64) 0) j) where
  write_self : used (set vmids (v / 64) w) v ≡ bit w (v % 64)
  write_self = rw (get_or-set_self vmids (v / 64) w 0 inside) refl

  write_ne : (u : ℕ) → u ≢ v → used (set vmids (v / 64) w) u ≡ used vmids u
  write_ne u ne = elim (ℕ_discrete (v / 64) (u / 64)) [
    | yes same ↦ rw (← same) (
        rw (get_or-set_self vmids (v / 64) w 0 inside)
          (kept (u % 64) (omega arith) (omega (arith, same, ne))))
    | no other ↦ rw (get_or-set_ne vmids (v / 64) (u / 64) w 0 other) refl
  ]

  write_Marks : (b : ℕ) → bit w (v % 64) ≡ b → Marks vmids (set vmids (v / 64) w) v b
  write_Marks b e = (
    length-set vmids (v / 64) w,
    λ u. elim (Bool-cases (u == v)) [
      | inl same ↦ let eq : u ≡ v = (==_iff u v).0 same in rw same (rw eq (write_self ∙ e))
      | inr other ↦ rw other (write_ne u (ground arith))
    ],
  )

-- What `vmid_reserve` gives for a bitmap of the right length.
abbrev pub Reserved : List ℕ → ℕ → ℕ → List ℕ × Bool → Type 0
Reserved vmids count v (after, true) = (v < count) × (used vmids v ≡ 0) × Marks vmids after v 1
Reserved vmids count v (after, false) =
    ((count ≤ v) ⊎ (used vmids v ≡ 1))
    × (length after ≡ length vmids)
    × ((u : ℕ) → used after u ≡ used vmids u)

busy_same :
    (vmids : List ℕ) (v u : ℕ)
    → used vmids v ≡ 1
    → (if u == v then 1 else used vmids u) ≡ used vmids u
busy_same vmids v u e = elim (Bool-cases (u == v)) [
  | inl same ↦ let eq : u ≡ v = (==_iff u v).0 same in rw same (rw eq (sym e))
  | inr other ↦ rw other refl
]

pub count-le : (vmid16 : Bool) → vmid_count vmid16 ≤ 65536
count-le true = omega arith
count-le false = omega arith

-- For a bitmap of the allocator's size: `vmid_reserve` returns true exactly for an identifier that is
-- below the number of identifiers and free, and marks that one and no other; when it returns false,
-- the same identifiers are in use as before.
pub vmid_reserve-Reserved :
    (vmid16 : Bool) (vmids : List ℕ) (v : ℕ)
    → length vmids ≡ vmid_array_long_size
    → Reserved vmids (vmid_count vmid16) v (vmid_reserve vmid16 vmids v)
unfolding vmid_reserve
vmid_reserve-Reserved vmid16 vmids v h = elim (Bool-cases (leb (vmid_count vmid16) v)) [
  | inl out ↦ rw out (inl (ground arith), refl, λ u. refl)
  | inr ok ↦
      let lt : v < vmid_count vmid16 = ground arith in
      let word = get_or vmids (v / 64) 0 in
      let j = v % 64 in
      let inside : v / 64 < length vmids = omega (arith, h, lt, count-le vmid16) in
      let marks =
        write_Marks vmids v (bit_set word j).0 inside
          (λ i small ne. bit_set_ne word j i (omega arith) ne) 1
          (bit_set_self word j (omega arith)) in
      let was = bit_set_was word j (omega arith) in
      elim (Bool-cases (bit word j == 1)) [
        | inl busy ↦
            rw (ok, was, busy)
              (inr (ground arith), marks.0, λ u. marks.1 u ∙ busy_same vmids v u (ground arith))
        | inr free ↦ rw (ok, was, free) (lt, ground (arith, bit-le-one word j), marks)
      ]
]

-- What `vmid_free` gives: a bitmap in which the identifier is free, or a failed assertion.
abbrev pub Freed : List ℕ → ℕ → ℕ → Option (List ℕ) → Type 0
Freed vmids count v (some after) = (v < count) × Marks vmids after v 0
Freed vmids count v none = count ≤ v

-- For a bitmap of the allocator's size: `vmid_free` makes an identifier below the number of identifiers,
-- which is 65536 with FEAT_VMID16 and 256 without, free and no other; the assertion fails exactly for
-- one that is not below it.
pub vmid_free-Freed :
    (vmid16 : Bool) (vmids : List ℕ) (v : ℕ)
    → length vmids ≡ vmid_array_long_size
    → Freed vmids (vmid_count vmid16) v (vmid_free vmid16 vmids v)
unfolding vmid_free
vmid_free-Freed vmid16 vmids v len =
    let word = get_or vmids (v / 64) 0 in
    elim (Bool-cases (ltb v (vmid_count vmid16))) [
      | inl below ↦
          let lt : v < vmid_count vmid16 = ground arith in
          rw below (
            lt,
            write_Marks vmids v (bit_clear word (v % 64)) (omega (arith, len, lt, count-le vmid16))
                (λ j small ne. bit_clear_ne word (v % 64) j (omega arith) small ne) 0
                (bit_clear_self word (v % 64) (omega arith)),
          )
      | inr above ↦ rw above (ground arith)
    ]
