-- ===== src/Lib.antt =====
-- Verification library of TF-RMM, the Realm Management Monitor of the Arm Confidential Compute
-- Architecture. The RMM answers commands of a Host (RMI) and of Realms (RSI and PSCI), and keeps the
-- granules of physical memory, the Realms and their execution contexts (RECs) apart. Modelled are the
-- components that carry its own logic and stand lowest: the descriptors of granules, the regions that
-- track them and the look-ups that lock them, the results of commands, address lists, allocators,
-- sorted arrays, the state word of a Realm, PSCI and the version handlers.
--
-- How the parts interact: PSCI (runtime/rsi/psci.c) works on the calling REC, finds a target REC by its
-- MPIDR in the Realm's map, which is a sorted array (lib/sarray), and turns the Realm off in the state
-- word of its RD (runtime/include/realm.h), which RMI_REC_ENTER and RMI_REALM_TERMINATE race on. The
-- allocators of VMIDs and MECIDs set and clear bits with the atomic operations of lib/arch. Address
-- lists (lib/addr_list) hold the memory that stateful operations donate and reclaim. A physical address
-- has a granule: the tracking regions (tracking_region.c) turn it into an index, and tr_granule.c takes
-- the bit lock (bitlock.h) in the descriptor there (granule.h), of several granules in one order, or
-- gives an error that is packed as a command's result (status.h).
--
-- Files, and the code each is about:
--   Common          lists, Boolean tests and the laws of & and |
--   Utils           lib/common/include/utils_def.h: field macros, ALIGNED, IS_POWER_OF_TWO
--   Atomics         lib/arch/include/aarch64/atomics.h and lib/arch/include/fake_host/atomics.h: bits
--   Bitlock         lib/arch/include/aarch64/bitlock.h: a lock in one bit of a word
--   Insertion       the insertion sort that addr_list.c, tr_granule.c and tracking_region.c each write
--   Status          lib/common/include/status.h: a command's result and its packed form
--   Granule         lib/granule/include/granule.h and granule_types.h: the descriptor; Granule/Spec has
--                   its abstract view, Granule/Contend processors that contend for it, Granule/Order the
--                   lock order of tr_granule.c
--   Tracking        lib/granule/src/tracking_region.c: banks, region and granule indices; Tracking/Layout
--                   is the numbering of the granule slots, Tracking/Slots what it has to satisfy
--   TrGranule       lib/granule/src/tr_granule.c: selecting and locking granules; TrGranule/Sets is the
--                   locking of several, TrGranule/Run that of a run of pages, and TrGranule/Ranges the
--                   publication of a range of them
--   Vmid            lib/arch/src/vmid.c; Vmid/Usage and Vmid/Alloc hold its theorems
--   Mec             lib/mec/src/mec.c; Mec/Shared is about the shared MECID
--   AddrList        lib/addr_list/src/addr_list.c; AddrList/Desc is the encoding of addr_list_prv.h,
--                   AddrList/Blocks the abstract view of a list, its blocks of memory in order
--   Sarray          lib/sarray/src/sarray.c; Sarray/Order has the scan that look-up is compared with
--   Realm           runtime/include/realm.h: state_and_count; Realm/Entered its interleavings
--   Rec             runtime/include/rec.h: the REC, its planes, MPIDR formats
--   Psci            runtime/rsi/psci.c; Psci/Complete is the Host's completion of CPU_ON
--   Version         runtime/rmi/version.c and runtime/rsi/version.c
--   Tests, */Tests  runs on concrete values
--
-- Correspondence: functions keep the names of the source, less a prefix that the module says. An
-- unsigned long is a number with its wrap-around written out. A structure is a record, and a function
-- that writes through a pointer returns the new record. An assertion is `none`, or a hypothesis where
-- the file says so; granule_lock tells a wait for another processor from it. Each loop recurses on the
-- rounds that are left, which its caller gives: the number of words, identifiers, descriptors or
-- elements that the source's own bound names. The binary search is given as many rounds as the array
-- has elements, and every round shortens the interval; that for the bank of an address as many as
-- there are banks. Tracking regions have one of the sizes that RMI_RMM_CONFIG_SET accepts, 2 MB or 1
-- GB, and banks end below 2^52. An array of granules that locks are taken in is a function from the
-- granule to its word.
--
-- Concurrency: an operation on a lock-free word is one step on the value its atomic instruction finds,
-- and the steps interleave freely. A handler that holds the locks of what it reads and writes is one
-- step. For a granule's lock both views are there: Granule/Contend has any number of processors at the
-- single accesses of taking the lock, with an operation of the holder as one step, TrGranule one
-- processor that meets no contention. Memory order, cache and system registers, and the mapping of
-- granules are not modelled.
--
-- Not modelled: the configuration and transition of tracking regions, the descriptors of device
-- granules, translation tables, the lifecycle of Realms and RECs, stateful operations and devices, which
-- rest on tables in memory shared by all processors; drivers, boot and the saving of hardware state,
-- which are access to hardware; and copies of other projects' libraries.
pub mod AddrList
pub mod Atomics
pub mod Bitlock
pub mod Common
pub mod Granule
pub mod Insertion
pub mod Mec
pub mod Psci
pub mod Realm
pub mod Rec
pub mod Sarray
pub mod Status
pub mod Tests
pub mod TrGranule
pub mod Tracking
pub mod Utils
pub mod Version
pub mod Vmid
