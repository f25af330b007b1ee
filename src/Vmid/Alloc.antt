-- ===== src/Vmid/Alloc.antt =====
-- lib/arch/src/vmid.c: what the search for a free identifier gives.
use native.Mathlib.Nat.{zero-add, suc-add}
use tf_rmm.Common.{
  ℕ, zero, suc, ◌+◌, ◌-◌, ◌<◌, ◌≤◌, ◌≡◌, inl, inr, refl, arith, ◌∙◌, sym, ap, Bool, true, false,
  ◌==◌, leb, if◌then◌else◌, Option, none, some, List, length, Bool-cases, subst,
}
use tf_rmm.Vmid.{
  vmid_count, vmid_array_long_size, vmid_reserve, vmid_hint, search_from, search_rest, vmid_alloc,
}
use tf_rmm.Vmid.Usage.{used, Marks, Reserved, vmid_reserve-Reserved}

-- All `n` identifiers from `i` on are in use.
abbrev pub AllUsed : List ℕ → ℕ → ℕ → Type 0
AllUsed vmids zero i = Unit
AllUsed vmids (suc n) i = (used vmids i ≡ 1) × AllUsed vmids n (i + 1)

-- What a search over `n` identifiers from `i` gives.
abbrev pub Searched : List ℕ → ℕ → ℕ → List ℕ × Option ℕ → Type 0
Searched vmids n i (after, some v) =
    (i ≤ v) × (v < i + n) × (used vmids v ≡ 0) × Marks vmids after v 1
Searched vmids n i (after, none) =
    AllUsed vmids n i × (length after ≡ length vmids) × ((u : ℕ) → used after u ≡ used vmids u)

AllUsed-same :
    (vmids after : List ℕ) (n i : ℕ)
    → ((u : ℕ) → used after u ≡ used vmids u)
    → AllUsed after n i
    → AllUsed vmids n i
AllUsed-same vmids after zero i same all = tt
AllUsed-same vmids after (suc n) i same all =
    (sym (same i) ∙ all.0, AllUsed-same vmids after n (i + 1) same all.1)

-- A search in a bitmap with the same identifiers in use.
Searched-same :
    (vmids after : List ℕ) (n i : ℕ) (r : List ℕ × Option ℕ)
    → length after ≡ length vmids
    → ((u : ℕ) → used after u ≡ used vmids u)
    → Searched after n i r
    → Searched vmids n i r
Searched-same vmids after n i (last, some v) len same (lo, hi, free, marks) = (
  lo,
  hi,
  sym (same v) ∙ free,
  (marks.0 ∙ len, λ u. marks.1 u ∙ ap (λ k. if u == v then 1 else k) (same u)),
)
Searched-same vmids after n i (last, none) len same (all, size, kept) =
    (AllUsed-same vmids after n i same all, size ∙ len, λ u. kept u ∙ same u)

-- A search behind an identifier that is in use.
Searched-skip :
    (vmids : List ℕ) (n i : ℕ) (r : List ℕ × Option ℕ)
    → used vmids i ≡ 1
    → Searched vmids n (i + 1) r
    → Searched vmids (suc n) i r
Searched-skip vmids n i (last, some v) busy (lo, hi, free, marks) =
    (omega arith, omega arith, free, marks)
Searched-skip vmids n i (last, none) busy (all, size, kept) = ((busy, all), size, kept)

search_step :
    (vmid16 : Bool) (n i : ℕ) (vmids : List ℕ) (r : List ℕ × Bool)
    → i < vmid_count vmid16
    → Reserved vmids (vmid_count vmid16) i r
    → (rest : List ℕ × Option ℕ) → Searched r.0 n (i + 1) rest
    → Searched vmids (suc n) i (if r.1 then (r.0, some i) else rest)
search_step vmid16 n i vmids (after, true) lt (inside, free, marks) rest h =
    (omega arith, omega arith, free, marks)
search_step vmid16 n i vmids (after, false) lt (inl out, len, same) rest h = absurd (omega arith)
search_step vmid16 n i vmids (after, false) lt (inr busy, len, same) rest h =
    Searched-skip vmids n i rest busy (Searched-same vmids after n (i + 1) rest len same h)

Reserved-length :
    (vmids : List ℕ) (count v : ℕ) (r : List ℕ × Bool)
    → Reserved vmids count v r
    → length r.0 ≡ length vmids
Reserved-length vmids count v (after, true) h = h.2.0
Reserved-length vmids count v (after, false) h = h.1

search_from-Searched :
    (vmid16 : Bool) (n : ℕ) (vmids : List ℕ) (i : ℕ)
    → length vmids ≡ vmid_array_long_size
    → i + n ≤ vmid_count vmid16
    → Searched vmids n i (search_from vmid16 n vmids i)
unfolding search_from
search_from-Searched vmid16 zero vmids i len h = (tt, refl, λ u. refl)
search_from-Searched vmid16 (suc n) vmids i len h =
    let first = vmid_reserve-Reserved vmid16 vmids i len in
    search_step vmid16 n i vmids (vmid_reserve vmid16 vmids i) (omega arith) first _ (
      search_from-Searched vmid16 n (vmid_reserve vmid16 vmids i).0 (i + 1)
        (Reserved-length vmids (vmid_count vmid16) i (vmid_reserve vmid16 vmids i) first ∙ len)
        (omega arith))

AllUsed-append :
    (vmids : List ℕ) (m n i k : ℕ)
    → i + m ≡ k
    → AllUsed vmids m i
    → AllUsed vmids n k
    → AllUsed vmids (m + n) i
AllUsed-append vmids zero n i k e a b = rw zero-add (subst (AllUsed vmids n) (omega arith) b)
AllUsed-append vmids (suc m) n i k e a b =
    rw suc-add (a.0, AllUsed-append vmids m n (i + 1) k (omega arith) a.1 b)

-- The identifier that the allocator gives, or that there is none to give.
abbrev pub Allocated : List ℕ → ℕ → List ℕ × Option ℕ → Type 0
Allocated vmids count (after, some v) = (v < count) × (used vmids v ≡ 0) × Marks vmids after v 1
Allocated vmids count (after, none) =
    AllUsed vmids count 0 × (length after ≡ length vmids) × ((u : ℕ) → used after u ≡ used vmids u)

search_rest-Allocated :
    (vmid16 : Bool) (start : ℕ) (vmids : List ℕ) (r : List ℕ × Option ℕ)
    → start ≤ vmid_count vmid16
    → length vmids ≡ vmid_array_long_size
    → Searched vmids (vmid_count vmid16 - start) start r
    → Allocated vmids (vmid_count vmid16) (search_rest vmid16 start r)
unfolding search_rest
search_rest-Allocated vmid16 start vmids (after, some v) le len (lo, hi, free, marks) =
    (omega arith, free, marks)
search_rest-Allocated vmid16 start vmids (after, none) le len (all, size, same) =
    widen (search_from vmid16 start after 0) (
      Searched-same vmids after start 0 _ size same
        (search_from-Searched vmid16 start after 0 (size ∙ len) (omega arith)))
  where
    widen :
        (r : List ℕ × Option ℕ) → Searched vmids start 0 r → Allocated vmids (vmid_count vmid16) r
    widen (last, some v) (lo, hi, free, marks) = (omega arith, free, marks)
    widen (last, none) (low, size', same') = (
      subst (λ k. AllUsed vmids k 0) (omega arith)
          (AllUsed-append vmids start (vmid_count vmid16 - start) 0 start (omega arith) low all),
      size',
      same',
    )

-- For a bitmap of the allocator's size, whatever the hint: `vmid_alloc` gives an identifier below the
-- number of identifiers that was free, and marks that one and no other as in use; or it gives none,
-- all identifiers are in use, and the bitmap holds what it held.
pub vmid_alloc-Allocated :
    (vmid16 : Bool) (vmids : List ℕ)
    → length vmids ≡ vmid_array_long_size
    → Allocated vmids (vmid_count vmid16) (vmid_alloc vmid16 vmids)
unfolding vmid_alloc
vmid_alloc-Allocated vmid16 vmids len =
    elim (Bool-cases (leb (vmid_count vmid16) (vmid_hint vmids))) [
      | inl far ↦ rw far (
          search_rest-Allocated vmid16 0 vmids _ (omega arith) len
            (search_from-Searched vmid16 (vmid_count vmid16 - 0) vmids 0 len (omega arith)))
      | inr near ↦
          let le : vmid_hint vmids ≤ vmid_count vmid16 = ground arith in
          rw near (
            search_rest-Allocated vmid16 (vmid_hint vmids) vmids _ le len (
              search_from-Searched vmid16 (vmid_count vmid16 - vmid_hint vmids) vmids
                (vmid_hint vmids) len (omega arith)))
    ]
