-- ===== src/AddrList/Validate.antt =====
-- What `validate` accepts, and the size that it returns.
use tf_rmm.Common.{
  ℕ, ◌⊎◌, inl, inr, zero, suc, ◌*◌, ◌%◌, ◌^◌, ◌<◌, ◌≤◌, ◌≡◌, ◌≢◌, ◌↔◌, refl, arith, ◌∙◌, Bool, true,
  false, List, [], ◌∷◌, length, Option, some, none, ap, subst,
}
use tf_rmm.Utils.Powers.{is_power_of_two_iff}
use tf_rmm.AddrList.Desc.{desc_blk_size, get_addr_from_desc, get_cnt_from_desc, get_st_from_desc}
use tf_rmm.AddrList.Desc.Fields.{field_bounds}
use tf_rmm.AddrList.{
  delegated, undelegated, conditional, is_valid_xlat_block_size, AddrList, desc_is_valid, validate,
}
use tf_rmm.AddrList.Totals.{total_size, Accepted, non_empty, Single, Verdict, validate_from-Verdict}
use tf_rmm.AddrList.Blocks.{blocks, AllDescs, desc_blk_size_cases}

-- The state that a request wants of a donated range: the one named, or either for CONDITIONAL.
abbrev pub StateFits : ℕ → ℕ → Type 0
StateFits state st =
    ((state ≢ conditional) × (st ≡ state))
    ⊎ ((state ≡ conditional) × ((st ≡ delegated) ⊎ (st ≡ undelegated)))

-- What a contiguous request wants of a range: a power of two, aligned to itself.
abbrev pub ContigFits : Bool → ℕ → ℕ → Type 0
ContigFits false addr size = Unit
ContigFits true addr size = ((k : ℕ) × (size ≡ 2 ^ k)) × (addr % size ≡ 0)

pub record IsAcceptable (is_contig : Bool) (state d : ℕ) : Type 0 where
  pub aligned : get_addr_from_desc d % desc_blk_size d ≡ 0
  pub state_fits : StateFits state (get_st_from_desc d)
  pub contig_fits :
      ContigFits is_contig (get_addr_from_desc d) (desc_blk_size d * get_cnt_from_desc d)

size_tests :
    (d : ℕ)
    → d < 2 ^ 64
    → (is_valid_xlat_block_size (desc_blk_size d) ≡ true)
      × (get_cnt_from_desc d ≤ 1023)
      × (desc_blk_size d * get_cnt_from_desc d % 2 ^ 64 ≡ desc_blk_size d * get_cnt_from_desc d)
unfolding is_valid_xlat_block_size
size_tests d h =
    let small = field_bounds d h in
    elim (desc_blk_size_cases d h) [
      | inl e ↦ rw e (refl, omega (arith, small), omega (arith, small))
      | inr (inl e) ↦ rw e (refl, omega (arith, small), omega (arith, small))
      | inr (inr (inl e)) ↦ rw e (refl, omega (arith, small), omega (arith, small))
      | inr (inr (inr e)) ↦ rw e (refl, omega (arith, small), omega (arith, small))
    ]

module _ (state d : ℕ) (h : d < 2 ^ 64) where
  valid_plain : (desc_is_valid false state d ≡ true) ↔ IsAcceptable false state d
  unfolding desc_is_valid
  valid_plain =
      let (known, few, whole) = size_tests d h in
      (
        λ e. record { aligned = ground arith; state_fits = ground arith; contig_fits = tt },
        λ a. ground (arith, a.aligned, a.state_fits),
      )

  valid_contig : (desc_is_valid true state d ≡ true) ↔ IsAcceptable true state d
  unfolding desc_is_valid
  valid_contig =
      let (known, few, whole) = size_tests d h in
      let size = desc_blk_size d * get_cnt_from_desc d in
      let (power, unpower) = is_power_of_two_iff size in
      (
        λ e. record {
          aligned = ground arith;
          state_fits = ground arith;
          contig_fits = (power (ground (arith, whole)), ground (arith, whole));
        },
        λ a.
            ground
              (arith, whole, a.aligned, a.state_fits, unpower a.contig_fits.0, a.contig_fits.1),
      )

pub desc_is_valid_iff :
    (is_contig : Bool) (state d : ℕ)
    → d < 2 ^ 64
    → (desc_is_valid is_contig state d ≡ true) ↔ IsAcceptable is_contig state d
desc_is_valid_iff true state d h = valid_contig state d h
desc_is_valid_iff false state d h = valid_plain state d h

-- A descriptor with no blocks, or one that the request can take.
abbrev pub Checked : Bool → ℕ → ℕ → Type 0
Checked is_contig state d = (get_cnt_from_desc d ≡ 0) ⊎ IsAcceptable is_contig state d

-- The verdict on a list.
abbrev pub Validated : Bool → ℕ → AddrList → Option ℕ → Type 0
Validated is_contig state l (some total) =
    (total ≡ total_size (blocks l) % 2 ^ 64)
    × AllDescs (Checked is_contig state) l.count l.range_desc
    × Single is_contig (non_empty l.count l.range_desc)
Validated is_contig state l none = ¬ (
    AllDescs (Checked is_contig state) l.count l.range_desc
    × Single is_contig (non_empty l.count l.range_desc))

AllDescs-map :
    {R P Q : ℕ → Type 0} (f : (d : ℕ) → R d → P d → Q d) (n : ℕ) (ds : List ℕ)
    → AllDescs R n ds
    → AllDescs P n ds
    → AllDescs Q n ds
AllDescs-map f zero ds r p = tt
AllDescs-map f (suc n) [] r p = tt
AllDescs-map f (suc n) (d ∷ ds) r p = (f d r.0 p.0, AllDescs-map f n ds r.1 p.1)

Accepted→Checked : (c : Bool) (state d : ℕ) → d < 2 ^ 64 → Accepted c state d → Checked c state d
Accepted→Checked c state d h (inl z) = inl z
Accepted→Checked c state d h (inr ok) = inr ((desc_is_valid_iff c state d h).0 ok)

Checked→Accepted : (c : Bool) (state d : ℕ) → d < 2 ^ 64 → Checked c state d → Accepted c state d
Checked→Accepted c state d h (inl z) = inl z
Checked→Accepted c state d h (inr ok) = inr ((desc_is_valid_iff c state d h).1 ok)

Verdict-Validated :
    (c : Bool) (state : ℕ) (l : AddrList) (r : Option ℕ)
    → AllDescs (λ d. d < 2 ^ 64) l.count l.range_desc
    → Verdict c state 0 0 l.count l.range_desc r
    → Validated c state l r
Verdict-Validated c state l (some t) words (size, all, one) = (
  size ∙ ap (λ (k : ℕ). k % 2 ^ 64) (omega arith),
  AllDescs-map (Accepted→Checked c state) l.count l.range_desc words all,
  subst (Single c) (omega arith) one,
)
Verdict-Validated c state l none words bad = λ h. bad (
  AllDescs-map (Checked→Accepted c state) l.count l.range_desc words h.0,
  subst (Single c) (omega arith) h.1,
)

Single-zero : (c : Bool) → Single c 0
Single-zero true = omega arith
Single-zero false = tt

-- For a list of 64-bit words within its array: `validate` returns a total exactly if every descriptor
-- with blocks is aligned to its block size, is in a state that the request takes and, for a contiguous
-- request, is a power of two aligned to itself, and if a contiguous list has at most one descriptor
-- with blocks. The total is the sum of the sizes of the list's blocks, modulo 2 ^ 64.
pub validate-Validated :
    (l : AddrList) (is_contig : Bool) (state : ℕ)
    → l.count ≤ length l.range_desc
    → AllDescs (λ d. d < 2 ^ 64) l.count l.range_desc
    → Validated is_contig state l (validate l is_contig state)
unfolding validate
validate-Validated l is_contig state h words = Verdict-Validated is_contig state l _ words (
    validate_from-Verdict l.count l.range_desc is_contig state 0 0 0 (omega arith) (omega arith)
      (Single-zero is_contig))
