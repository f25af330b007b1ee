-- ===== src/Version.antt =====
-- runtime/rmi/version.c and runtime/rsi/version.c: the revisions of the two interfaces. The two files
-- do the same on their lists; `none` is a failed assertion.
pub mod Negotiate
use tf_rmm.Common.{
  ℕ, ◌+◌, ◌-◌, ◌^◌, bit_or, Bool, true, false, not, ◌==◌, leb, if◌then◌else◌, Option, none, some,
  List, [], ◌∷◌, length, get_or,
}
use tf_rmm.Utils.{shl64}
use tf_rmm.Rec.{Rec, rec_active_plane}

abbrev pub make_revision : ℕ → ℕ → ℕ
make_revision major minor = bit_or (shl64 major 16) minor

abbrev pub rmi_revisions_supported : List ℕ
rmi_revisions_supported = make_revision 2 0 ∷ []

abbrev pub rsi_revisions_supported : List ℕ
rsi_revisions_supported = make_revision 1 0 ∷ make_revision 1 1 ∷ []

-- x[0], x[1] and x[2]
pub record Revisions : Type 0 where
  pub x0 : ℕ
  pub x1 : ℕ
  pub x2 : ℕ

-- The loop of `is_rmi_revision_supported` and `is_rsi_revision_supported`.
pub is_revision_supported : List ℕ → ℕ → Bool
is_revision_supported [] version = false
is_revision_supported (r ∷ revisions) version =
    let rest = is_revision_supported revisions version in if version == r then true else rest

pub get_highest_supported_version : List ℕ → ℕ
get_highest_supported_version revisions = get_or revisions (length revisions - 1) 0

-- RMI_SUCCESS and RSI_SUCCESS are 0, RMI_ERROR_INPUT and RSI_ERROR_INPUT are 1.
pub negotiate : List ℕ → ℕ → Option Revisions
negotiate revisions version =
    let revision_higher = get_highest_supported_version revisions in
    let supported = is_revision_supported revisions version in
    let x1 = if supported then version else revision_higher in
    if leb x1 revision_higher
    then some record { x0 = if supported then 0 else 1; x1 = x1; x2 = revision_higher }
    else none

pub smc_version : ℕ → Option Revisions
smc_version rmi_version = negotiate rmi_revisions_supported rmi_version

pub handle_rsi_version : Rec → Option Revisions
handle_rsi_version rec = negotiate rsi_revisions_supported (get_or (rec_active_plane rec).regs 1 0)
