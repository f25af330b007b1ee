-- ===== src/Granule/Spec.antt =====
-- lib/granule/include/granule.h: a specification of the operations on a descriptor, on a lock, a state
-- and a count that knows of no bits.
use tf_rmm.Common.{
  ℕ, ◌+◌, ◌-◌, ◌<◌, Bool, true, false, not, ◌&&◌, ◌||◌, ◌==◌, ltb, leb, if◌then◌else◌, none, some,
}
use tf_rmm.Granule.{
  Attempt, waits, ended, locked, refcount, state, set_state, refcount_inc, refcount_dec, lock,
  unlock, unlock_transition, unlock_transition_to_delegated, atomic_granule_put_release,
}

-- What a descriptor says.
pub record View : Type 0 where
  pub held : Bool
  pub kind : ℕ
  pub refs : ℕ

abbrev pub view : ℕ → View
view g = record { held = locked g; kind = state g; refs = refcount g }

-- The operations that a processor runs on the descriptor of a granule.
pub data Op : Type 0 where
  lock_in : ℕ → Op
  release : Op
  change : ℕ → Op
  move : ℕ → Op
  delegate : Op
  get : ℕ → Op
  put : ℕ → Op
  put_release : Op

unfoldable pub run : Op → ℕ → Attempt ℕ
run (lock_in st) g = lock g st
run release g = ended (unlock g)
run (change st) g = ended (set_state g st)
run (move st) g = ended (unlock_transition g st)
run delegate g = ended (unlock_transition_to_delegated g)
run (get n) g = ended (refcount_inc g n)
run (put n) g = ended (refcount_dec g n)
run put_release g = ended (atomic_granule_put_release g)

-- The most references that the assertions allow an unlocked granule in each state: those of an RD, a
-- table of 512 entries, a stream table of 64, the planes that share DATA, and one for a running REC or a
-- device. For DATA this is more than granule_types.h says, which is that no references are held.
unfoldable pub limit : ℕ → ℕ
limit st =
    if st == 2
    then 1023
    else if st == 3
    then 1
    else if st == 5
    then 3
    else if st == 6
    then 512
    else if st == 7
    then 1
    else if st == 9
    then 1
    else if st == 13
    then 64
    else 0

abbrev pub at_rest : ℕ → ℕ → Bool
at_rest st refs = ltb st 15 && leb refs (limit st)

-- A change of state is allowed whatever the references, as in the code; granule_types.h says that the
-- state of a granule with references cannot be modified.
unfoldable pub spec : Op → View → Attempt View
spec (lock_in st) v =
    if v.held
    then waits
    else ended (if v.kind == st && at_rest st v.refs then some (record v { held = true }) else none)
spec release v =
    ended (if v.held && at_rest v.kind v.refs then some (record v { held = false }) else none)
spec (change st) v = ended (if v.held then some (record v { kind = st }) else none)
spec (move st) v = ended (
    if v.held && (not (st == 1) || v.kind == 0 || v.kind == 11) && at_rest st v.refs
    then some (record { held = false; kind = st; refs = v.refs })
    else none)
spec delegate v = ended (
    if v.held && ltb 1 v.kind && v.refs == 0
    then some (record { held = false; kind = 1; refs = 0 })
    else none)
spec (get n) v =
    ended (if v.held && leb (v.refs + n) 1023 then some (record v { refs = v.refs + n }) else none)
spec (put n) v =
    ended (if v.held && leb n v.refs then some (record v { refs = v.refs - n }) else none)
spec put_release v =
    ended (if not (v.refs == 0) then some (record v { refs = v.refs - 1 }) else none)

-- The states that the operations are called with fit their five digits.
abbrev pub Fits : Op → Type 0
Fits (lock_in st) = st < 32
Fits (change st) = st < 32
Fits (move st) = st < 32
Fits op = Unit
