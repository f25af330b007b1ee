-- ===== src/Psci/Values.antt =====
-- runtime/include/psci.h, runtime/include/rsi-handler.h: the function identifiers of PSCI, its return
-- values, and the actions a handler may ask for.
use tf_rmm.Common.{ℕ, ◌+◌, ◌-◌, ◌^◌, bit_and, Bool, not, ◌||◌, ◌==◌, if◌then◌else◌}

abbrev pub smc32_psci_fid : ℕ → ℕ
smc32_psci_fid offset = 2 ^ 31 + 2 ^ 26 + offset

abbrev pub smc64_psci_fid : ℕ → ℕ
smc64_psci_fid offset = 2 ^ 31 + 2 ^ 30 + 2 ^ 26 + offset

abbrev pub smccc_version : ℕ
smccc_version = 2 ^ 31

-- The functions that `handle_psci` tells apart.
pub data Function : Type 0 where
  version cpu_suspend cpu_off cpu_on affinity_info system_off_reset features unknown : Function

-- The labels of the switch, in its order.
unfoldable pub function_of : ℕ → Function
function_of fid =
    if fid == smc32_psci_fid 0
    then version
    else if fid == smc32_psci_fid 1 || fid == smc64_psci_fid 1
    then cpu_suspend
    else if fid == smc32_psci_fid 2
    then cpu_off
    else if fid == smc32_psci_fid 3 || fid == smc64_psci_fid 3
    then cpu_on
    else if fid == smc32_psci_fid 4 || fid == smc64_psci_fid 4
    then affinity_info
    else if fid == smc32_psci_fid 8 || fid == smc32_psci_fid 9
    then system_off_reset
    else if fid == smc32_psci_fid 10
    then features
    else unknown

-- The labels of the switch of `psci_features`.
unfoldable pub is_supported : ℕ → Bool
is_supported fid =
    fid == smc32_psci_fid 0
    || fid == smc32_psci_fid 1
    || fid == smc64_psci_fid 1
    || fid == smc32_psci_fid 2
    || fid == smc32_psci_fid 3
    || fid == smc64_psci_fid 3
    || fid == smc32_psci_fid 4
    || fid == smc64_psci_fid 4
    || fid == smc32_psci_fid 8
    || fid == smc32_psci_fid 9
    || fid == smc32_psci_fid 10
    || fid == smccc_version

abbrev pub psci_return_success : ℕ
psci_return_success = 0

abbrev pub psci_return_not_supported : ℕ
psci_return_not_supported = 2 ^ 64 - 1

abbrev pub psci_return_invalid_params : ℕ
psci_return_invalid_params = 2 ^ 64 - 2

abbrev pub psci_return_denied : ℕ
psci_return_denied = 2 ^ 64 - 3

abbrev pub psci_return_already_on : ℕ
psci_return_already_on = 2 ^ 64 - 4

abbrev pub psci_return_internal_failure : ℕ
psci_return_internal_failure = 2 ^ 64 - 6

abbrev pub psci_return_invalid_address : ℕ
psci_return_invalid_address = 2 ^ 64 - 9

abbrev pub psci_affinity_info_on : ℕ
psci_affinity_info_on = 0

abbrev pub psci_affinity_info_off : ℕ
psci_affinity_info_off = 1

abbrev pub rmi_exit_psci : ℕ
rmi_exit_psci = 3

abbrev pub rec_exit_nr_gprs : ℕ
rec_exit_nr_gprs = 31

abbrev pub flag_exit_to_host : ℕ
flag_exit_to_host = 2

-- enum rsi_action
pub data Action : Type 0 where
  update_rec_return_to_realm exit_to_host update_rec_exit_to_host stage_2_translation_fault : Action
  plane_changed_return_to_realm : Action

-- The values of the enumeration: FLAG_UPDATE_REC is 1, FLAG_STAGE_2_ABORT 4, FLAG_PLANE_CHANGED 8.
abbrev pub action_flags : Action → ℕ
action_flags update_rec_return_to_realm = 1
action_flags exit_to_host = 2
action_flags update_rec_exit_to_host = 3
action_flags stage_2_translation_fault = 6
action_flags plane_changed_return_to_realm = 8

abbrev pub exits_to_host : Action → Bool
exits_to_host action = not (bit_and (action_flags action) flag_exit_to_host == 0)
