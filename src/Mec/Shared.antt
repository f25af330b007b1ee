-- ===== src/Mec/Shared.antt =====
-- lib/mec/src/mec.c: the use count of the shared MECID, and when its key is refreshed.
use tf_rmm.Common.{
  ℕ, ◌+◌, ◌-◌, ◌^◌, ◌≤◌, ◌<◌, ◌≡◌, inl, inr, refl, arith, ap, sym, ◌∙◌, subst, Bool, true, false,
  not, ◌==◌, ltb, if◌then◌else◌, if_lem, if_no, if_yes, Bool-cases, Option, none, some, List, [],
  ◌∷◌,
}
use tf_rmm.Mec.{Mec, mecid_shared, refresh, mecid_reserve, mecid_free, mecid_alloc}

-- Whether the key of the shared MECID is in use, from its refreshes, the last one first: it was
-- refreshed for a release last, or never since the state was initialised.
abbrev pub key_in_use : ℕ → List (ℕ × Bool) → Bool
key_in_use shared [] = false
key_in_use shared ((mecid, is_release) ∷ older) =
    let before = key_in_use shared older in if mecid == shared then not is_release else before

-- The key is in use exactly while the shared MECID has members.
abbrev pub IsKeyed : Mec → Type 0
IsKeyed mec = key_in_use (mecid_shared mec) mec.refreshes ≡ not (mec.shared_mec_members == 0)

abbrev pub SharedAllocated : Mec → Mec × Option ℕ → Type 0
SharedAllocated mec (after, some mecid) =
    (mecid ≡ mecid_shared mec)
    × (after.shared_mec_members ≡ mec.shared_mec_members + 1)
    × (after.shared_mec_members < 2 ^ 64)
    × IsKeyed after
    × (after.refreshes ≡ (
        if mec.shared_mec_members == 0
        then (mecid_shared mec, false) ∷ mec.refreshes
        else mec.refreshes))
    × (after.mec_reserved ≡ mec.mec_reserved)
SharedAllocated mec (after, none) = (after ≡ mec) × (2 ^ 64 - 1 ≤ mec.shared_mec_members)

abbrev pub SharedFreed : Mec → Option Mec → Type 0
SharedFreed mec (some after) =
    (after.shared_mec_members + 1 ≡ mec.shared_mec_members)
    × IsKeyed after
    × (after.refreshes ≡ (
        if mec.shared_mec_members == 1
        then (mecid_shared mec, true) ∷ mec.refreshes
        else mec.refreshes))
    × (after.mec_reserved ≡ mec.mec_reserved)
SharedFreed mec none = mec.shared_mec_members ≡ 0

abbrev keyed_once : Mec → Mec
keyed_once mec =
    record (if mec.shared_mec_members == 0 then refresh mec (mecid_shared mec) false else mec) {
      shared_mec_members = mec.shared_mec_members + 1;
    }

keyed_once-Allocated :
    (mec : Mec)
    → IsKeyed mec
    → mec.shared_mec_members < 2 ^ 64 - 1
    → SharedAllocated mec (keyed_once mec, some (mecid_shared mec))
keyed_once-Allocated mec keyed room = elim (Bool-cases (mec.shared_mec_members == 0)) [
  | inl none_yet ↦ rw none_yet (refl, refl, omega arith, ground arith, refl, refl)
  | inr members ↦ rw members (refl, refl, omega arith, keyed ∙ ground arith, refl, refl)
]

-- With FEAT_MEC, while the key of the shared MECID is in use exactly if it has members: an allocation
-- for a shared policy gives the shared MECID and counts a member, within 64 bits, or refuses when the
-- count is at its maximum and changes nothing; freeing it counts a member less, and fails an assertion
-- only if there is none. Its key is refreshed once for the first member and once for the release of the
-- last, and no other allocation or release refreshes a key; so the key is again in use exactly if
-- there are members. No private MECID is touched.
pub shared-SharedAllocated :
    (mec : Mec)
    → mec.is_feat_mec_present ≡ true
    → IsKeyed mec
    → SharedAllocated mec (mecid_alloc mec true)
      × SharedFreed mec (mecid_free mec (mecid_shared mec))
unfolding mecid_alloc mecid_reserve mecid_free
shared-SharedAllocated mec present keyed = (alloc, free)
  where
    has_feat : not mec.is_feat_mec_present ≡ false
    has_feat = ap not present

    same : (mecid_shared mec == mecid_shared mec) ≡ true
    same = ground arith

    reserved :
        mecid_reserve mec (mecid_shared mec)
        ≡ (if ltb mec.shared_mec_members (2 ^ 64 - 1) then (keyed_once mec, true) else (mec, false))
    reserved =
        if_no (not mec.is_feat_mec_present) _ _ has_feat
        ∙ if_yes (mecid_shared mec == mecid_shared mec) _ _ same

    given : Mec × Bool → Mec × Option ℕ
    given r = if r.1 then (r.0, some (mecid_shared mec)) else (r.0, none)

    alloc : SharedAllocated mec (mecid_alloc mec true)
    alloc =
        subst (λ r. SharedAllocated mec r)
          (sym (if_no (not mec.is_feat_mec_present) _ _ has_feat ∙ ap given reserved))
          (if_lem (λ r. SharedAllocated mec (given r)) (ltb mec.shared_mec_members (2 ^ 64 - 1))
            (λ room. keyed_once-Allocated mec keyed (ground arith)) (λ full. (refl, ground arith)))

    free : SharedFreed mec (mecid_free mec (mecid_shared mec))
    free =
        subst (λ r. SharedFreed mec r)
          (sym (
            if_no (not mec.is_feat_mec_present) _ _ has_feat
            ∙ if_yes (mecid_shared mec == mecid_shared mec) _ _ same))
          (if_lem (SharedFreed mec) (mec.shared_mec_members == 0) (λ none_left. ground arith)
            (λ members.
              if_lem (SharedFreed mec) (mec.shared_mec_members - 1 == 0)
                (λ last.
                  let one : (mec.shared_mec_members == 1) ≡ true = ground arith in
                  (ground arith, rw (same, last) refl, rw one refl, refl))
                (λ more.
                  let several : (mec.shared_mec_members == 1) ≡ false = ground arith in
                  (ground arith, keyed ∙ ground arith, rw several refl, refl))))
