-- ===== src/Psci/Features.antt =====
-- runtime/rsi/psci.c: the two switches on a function identifier agree.
use tf_rmm.Common.{ℕ, ◌≡◌, arith, Bool, true, false, ◌||◌, ◌==◌}
use tf_rmm.Psci.Values.{Function, unknown, function_of, is_supported, smccc_version}

abbrev pub is_known : Function → Bool
is_known unknown = false
is_known known = true

-- PSCI_FEATURES reports support for exactly the function identifiers that `handle_psci` does not answer
-- with NOT_SUPPORTED as unknown, and for SMCCC_VERSION.
pub features-function_of :
    (fid : ℕ) → is_supported fid ≡ (is_known (function_of fid) || fid == smccc_version)
unfolding is_supported function_of
features-function_of fid = ground arith
