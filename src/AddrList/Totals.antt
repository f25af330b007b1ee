-- ===== src/AddrList/Totals.antt =====
-- The loop of `validate`: the sum of the sizes, and the tests that stop it.
use native.Mathlib.Numerals.{add-one}
use tf_rmm.Common.{
  ℕ, ◌⊎◌, inl, inr, zero, suc, ◌+◌, ◌*◌, ◌%◌, ◌^◌, ◌<◌, ◌≤◌, ◌≡◌, refl, arith, ◌∙◌, Bool, true,
  false, List, [], ◌∷◌, ◌++◌, length, get_or, drop, Option, some, none, Bool-cases, ap, ◌==◌,
  ==_iff, if◌then◌else◌, ◌&&◌, ltb, subst,
}
use tf_rmm.AddrList.Desc.{desc_blk_size, get_addr_from_desc, get_cnt_from_desc, get_st_from_desc}
use tf_rmm.AddrList.{desc_is_valid, validate_from}
use tf_rmm.AddrList.Blocks.{Block, blocks_of, desc_blocks, run, AllDescs}

abbrev pub total_size : List Block → ℕ
total_size [] = 0
total_size (b ∷ bs) = b.size + total_size bs

total_size-append : (xs ys : List Block) → total_size (xs ++ ys) ≡ total_size xs + total_size ys
total_size-append [] ys = omega arith
total_size-append (x ∷ xs) ys = omega (arith, total_size-append xs ys)

total_size-run : (n base size state : ℕ) → total_size (run n base size state) ≡ n * size
total_size-run zero base size state = omega arith
total_size-run (suc n) base size state = omega (arith, total_size-run n (base + size) size state)

-- A descriptor that validation lets through.
abbrev pub Accepted : Bool → ℕ → ℕ → Type 0
Accepted is_contig state d = (get_cnt_from_desc d ≡ 0) ⊎ (desc_is_valid is_contig state d ≡ true)

-- How many of the first `n` descriptors have blocks.
abbrev pub non_empty : ℕ → List ℕ → ℕ
non_empty zero ds = 0
non_empty (suc n) [] = 0
non_empty (suc n) (d ∷ ds) =
    let rest = non_empty n ds in if get_cnt_from_desc d == 0 then rest else suc rest

-- A contiguous list has one descriptor with blocks at most.
abbrev pub Single : Bool → ℕ → Type 0
Single true k = k ≤ 1
Single false k = Unit

-- The result over `n` descriptors, from what was seen before them.
abbrev pub Verdict : Bool → ℕ → ℕ → ℕ → ℕ → List ℕ → Option ℕ → Type 0
Verdict is_contig state seen total n ds (some t) =
    (t ≡ (total + total_size (blocks_of n ds)) % 2 ^ 64)
    × AllDescs (Accepted is_contig state) n ds
    × Single is_contig (seen + non_empty n ds)
Verdict is_contig state seen total n ds none =
    ¬ (AllDescs (Accepted is_contig state) n ds × Single is_contig (seen + non_empty n ds))

drop-suc : (ds : List ℕ) (i : ℕ) → i < length ds → drop i ds ≡ get_or ds i 0 ∷ drop (i + 1) ds
drop-suc [] i h = absurd (omega arith)
drop-suc (x ∷ ds) zero h = refl
drop-suc (x ∷ ds) (suc i) h = rw (drop-suc ds i (omega arith), add-one, add-one)

-- One more descriptor in front.
step_empty :
    (is_contig : Bool) (state seen total n d : ℕ) (ds : List ℕ) (r : Option ℕ)
    → get_cnt_from_desc d ≡ 0
    → Verdict is_contig state seen total n ds r
    → Verdict is_contig state seen total (suc n) (d ∷ ds) r
step_empty is_contig state seen total n d ds (some t) e (size, all, one) =
    rw e (size, (inl refl, all), one)
step_empty is_contig state seen total n d ds none e bad = rw e (λ h. bad (h.0.1, h.1))

sum_wraps :
    (total size rest : ℕ)
    → ((total + size % 2 ^ 64) % 2 ^ 64 + rest) % 2 ^ 64 ≡ (total + (size + rest)) % 2 ^ 64
sum_wraps total size rest = omega arith

step_valid :
    (is_contig : Bool) (state seen total n d : ℕ) (ds : List ℕ) (r : Option ℕ)
    → (get_cnt_from_desc d == 0) ≡ false
    → desc_is_valid is_contig state d ≡ true
    → Verdict is_contig state
        (seen + 1)
        ((total + desc_blk_size d * get_cnt_from_desc d % 2 ^ 64) % 2 ^ 64)
        n
        ds
        r
    → Verdict is_contig state seen total (suc n) (d ∷ ds) r
step_valid is_contig state seen total n d ds (some t) more ok (size, all, one) =
    let here =
      total_size-run (get_cnt_from_desc d) (get_addr_from_desc d) (desc_blk_size d)
        (get_st_from_desc d) in
    rw more (
      size
          ∙ sum_wraps total (desc_blk_size d * get_cnt_from_desc d) (total_size (blocks_of n ds))
          ∙ ap (λ (k : ℕ). (total + k) % 2 ^ 64)
              (omega (arith, here, total_size-append (desc_blocks d) (blocks_of n ds))),
      (inr ok, all),
      subst (Single is_contig) (omega arith) one,
    )
step_valid is_contig state seen total n d ds none more ok bad =
    rw more (λ h. bad (h.0.1, subst (Single is_contig) (omega arith) h.1))

too_many :
    (c : Bool) (seen rest : ℕ) → (c && ltb 1 (seen + 1)) ≡ true → ¬ Single c (seen + suc rest)
too_many true seen rest e h = ground arith
too_many false seen rest e h = cc

still-Single : (c : Bool) (seen : ℕ) → (c && ltb 1 (seen + 1)) ≡ false → Single c (seen + 1)
still-Single true seen e = ground arith
still-Single false seen e = tt

non_empty-suc :
    (n d : ℕ) (ds : List ℕ)
    → (get_cnt_from_desc d == 0) ≡ false
    → non_empty (suc n) (d ∷ ds) ≡ suc (non_empty n ds)
non_empty-suc n d ds e = rw e

not-Accepted :
    (c : Bool) (state d : ℕ)
    → (get_cnt_from_desc d == 0) ≡ false
    → desc_is_valid c state d ≡ false
    → ¬ Accepted c state d
not-Accepted c state d e bad (inl z) = ground arith
not-Accepted c state d e bad (inr ok) = cc

pub validate_from-Verdict :
    (n : ℕ) (ds : List ℕ) (is_contig : Bool) (state i seen total : ℕ)
    → i + n ≤ length ds
    → total < 2 ^ 64
    → Single is_contig seen
    → Verdict is_contig state seen total n
        (drop i ds)
        (validate_from n ds is_contig state i seen total)
unfolding validate_from
validate_from-Verdict zero ds is_contig state i seen total h fits one =
    (omega arith, tt, subst (Single is_contig) (omega arith) one)
validate_from-Verdict (suc n) ds is_contig state i seen total h fits one =
    let d = get_or ds i 0 in
    rw (drop-suc ds i (omega arith)) (elim (Bool-cases (get_cnt_from_desc d == 0)) [
      | inl e ↦ rw e (
          step_empty is_contig state seen total n d (drop (i + 1) ds) _
            ((==_iff (get_cnt_from_desc d) 0).0 e)
            (validate_from-Verdict n ds is_contig state (i + 1) seen total (omega arith) fits one))
      | inr e ↦ elim (Bool-cases (is_contig && ltb 1 (seen + 1))) [
        | inl many ↦
            rw (e, many)
              (λ k. too_many is_contig seen (non_empty n (drop (i + 1) ds)) many (
                subst (λ t. Single is_contig (seen + t)) (non_empty-suc n d (drop (i + 1) ds) e)
                  k.1))
        | inr few ↦ elim (Bool-cases (desc_is_valid is_contig state d)) [
          | inl ok ↦
              rw (e, few, ok)
                (step_valid is_contig state seen total n d (drop (i + 1) ds) _ e ok (
                  validate_from-Verdict n ds is_contig state (i + 1) (seen + 1)
                    ((total + desc_blk_size d * get_cnt_from_desc d % 2 ^ 64) % 2 ^ 64)
                    (omega arith) (omega arith) (still-Single is_contig seen few)))
          | inr bad ↦ rw (e, few, bad) (λ k. not-Accepted is_contig state d e bad k.0.0)
        ]
      ]
    ])
