-- ===== src/Version/Negotiate.antt =====
-- runtime/rmi/version.c and runtime/rsi/version.c: what a request of a revision gives.
use tf_rmm.Common.{
  ℕ, suc, ◌-◌, ◌≡◌, ◌≢◌, ◌≤◌, ◌<◌, ◌⊎◌, inl, inr, refl, arith, Bool, true, false, ◌==◌, leb,
  if◌then◌else◌, if_lem, Option, none, some, List, [], ◌∷◌, length, get_or,
}
use tf_rmm.Rec.{Rec, rec_active_plane}
use tf_rmm.Version.{
  Revisions, rmi_revisions_supported, rsi_revisions_supported, is_revision_supported,
  get_highest_supported_version, negotiate, smc_version, handle_rsi_version,
}

abbrev pub In : ℕ → List ℕ → Type 0
In v [] = ⊥
In v (r ∷ rs) = (v ≡ r) ⊎ In v rs

-- The list ascends strictly.
abbrev pub Ascending : List ℕ → Type 0
Ascending [] = Unit
Ascending (r ∷ []) = Unit
Ascending (r ∷ s ∷ rs) = (r < s) × Ascending (s ∷ rs)

-- A revision of the list is granted as it was asked for; for any other the highest one is offered, with
-- an error; and the highest one is in the list and bounds it.
abbrev pub Negotiated : List ℕ → ℕ → Option Revisions → Type 0
Negotiated revisions version none = ⊥
Negotiated revisions version (some res) =
    (((res.x0 ≡ 0) × In version revisions × (res.x1 ≡ version))
      ⊎ ((res.x0 ≡ 1) × ¬ In version revisions × (res.x1 ≡ res.x2)))
    × In res.x2 revisions
    × ((r : ℕ) → In r revisions → r ≤ res.x2)

abbrev Decides : ℕ → List ℕ → Bool → Type 0
Decides version revisions true = In version revisions
Decides version revisions false = ¬ In version revisions

supported-Decides :
    (version : ℕ) (revisions : List ℕ)
    → Decides version revisions (is_revision_supported revisions version)
unfolding is_revision_supported
supported-Decides version [] = λ inside. inside
supported-Decides version (r ∷ rs) =
    if_lem (Decides version (r ∷ rs)) (version == r) (λ same. inl (ground arith))
      (λ other.
        further (is_revision_supported rs version) (supported-Decides version rs) (ground arith))
  where
    further : (b : Bool) → Decides version rs b → version ≢ r → Decides version (r ∷ rs) b
    further true inside ne = inr inside
    further false outside ne =
        λ inside. elim inside [ inl same ↦ ne same | inr later ↦ outside later ]

highest_lem :
    (r : ℕ) (rs : List ℕ)
    → Ascending (r ∷ rs)
    → In (get_or (r ∷ rs) (length rs) 0) (r ∷ rs)
      × ((v : ℕ) → In v (r ∷ rs) → v ≤ get_or (r ∷ rs) (length rs) 0)
highest_lem r [] ascends =
    (inl refl, λ v inside. elim inside [ inl same ↦ omega arith | inr later ↦ absurd later ])
highest_lem r (s ∷ rs) (lt, ascends) =
    let (inside, bound) = highest_lem s rs ascends in
    (
      inr inside,
      λ v there. elim there [
        | inl same ↦ omega (arith, bound s (inl refl))
        | inr later ↦ bound v later
      ],
    )

answered :
    (revisions : List ℕ) (version higher : ℕ) (supported : Bool)
    → Decides version revisions supported
    → In higher revisions
    → ((v : ℕ) → In v revisions → v ≤ higher)
    → Negotiated revisions version (
        if leb (if supported then version else higher) higher
        then some record {
          x0 = if supported then 0 else 1;
          x1 = if supported then version else higher;
          x2 = higher;
        }
        else none)
answered revisions version higher true inside listed bound =
    if_lem (Negotiated revisions version) (leb version higher)
      (λ le. (inl (refl, inside, refl), listed, bound))
      (λ gt. absurd (ground (arith, bound version inside)))
answered revisions version higher false outside listed bound =
    if_lem (Negotiated revisions version) (leb higher higher)
      (λ le. (inr (refl, outside, refl), listed, bound)) (λ gt. absurd (ground arith))

negotiate-Negotiated :
    (r : ℕ) (rs : List ℕ) (version : ℕ)
    → Ascending (r ∷ rs)
    → Negotiated (r ∷ rs) version (negotiate (r ∷ rs) version)
unfolding negotiate get_highest_supported_version
negotiate-Negotiated r rs version ascends =
    let (listed, bound) = highest_lem r rs ascends in
    rw (last (length rs)) (
      answered (r ∷ rs) version (get_or (r ∷ rs) (length rs) 0)
        (is_revision_supported (r ∷ rs) version) (supported-Decides version (r ∷ rs)) listed bound)
  where
    last : (n : ℕ) → suc n - 1 ≡ n
    last n = omega arith

-- RMI_VERSION and RSI_VERSION, whatever revision is asked for, return, with the assertion that the lower
-- revision is at most the higher one satisfied: with success and the revision itself if it is on the
-- list of the interface, and otherwise with an error and the highest one; and the higher revision that
-- they report is on the list and at least every revision on it.
pub version-Negotiated :
    (rmi_version : ℕ) (rec : Rec)
    → Negotiated rmi_revisions_supported rmi_version (smc_version rmi_version)
      × Negotiated rsi_revisions_supported
          (get_or (rec_active_plane rec).regs 1 0)
          (handle_rsi_version rec)
unfolding smc_version handle_rsi_version
version-Negotiated version rec = (
  negotiate-Negotiated _ [] version tt,
  negotiate-Negotiated _ _ (get_or (rec_active_plane rec).regs 1 0) (omega arith, tt),
)
