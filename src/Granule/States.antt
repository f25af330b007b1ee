-- ===== src/Granule/States.antt =====
-- lib/granule/include/granule_types.h: the states of a granule.
use tf_rmm.Common.{ℕ}

abbrev pub granule_state_ns : ℕ
granule_state_ns = 0

abbrev pub granule_state_delegated : ℕ
granule_state_delegated = 1

abbrev pub granule_state_rd : ℕ
granule_state_rd = 2

abbrev pub granule_state_rec : ℕ
granule_state_rec = 3

abbrev pub granule_state_rec_aux : ℕ
granule_state_rec_aux = 4

abbrev pub granule_state_data : ℕ
granule_state_data = 5

abbrev pub granule_state_rtt : ℕ
granule_state_rtt = 6

abbrev pub granule_state_pdev : ℕ
granule_state_pdev = 7

abbrev pub granule_state_pdev_aux : ℕ
granule_state_pdev_aux = 8

abbrev pub granule_state_vdev : ℕ
granule_state_vdev = 9

abbrev pub granule_state_vdev_aux : ℕ
granule_state_vdev_aux = 10

abbrev pub granule_state_partial : ℕ
granule_state_partial = 11

abbrev pub granule_state_internal : ℕ
granule_state_internal = 12

abbrev pub granule_state_psmmu_st_l2 : ℕ
granule_state_psmmu_st_l2 = 13

abbrev pub granule_state_rd_aux : ℕ
granule_state_rd_aux = 14
