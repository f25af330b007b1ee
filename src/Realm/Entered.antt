-- ===== src/Realm/Entered.antt =====
-- runtime/include/realm.h: the count of entered RECs under any interleaving of the operations that
-- RMI_REC_ENTER, PSCI, RMI_REALM_ACTIVATE and RMI_REALM_TERMINATE run on the word.
use tf_rmm.Common.{
  ℕ, suc, ◌+◌, ◌-◌, ◌*◌, ◌/◌, ◌%◌, ◌^◌, ◌<◌, ◌≤◌, ◌≡◌, ◌≢◌, refl, arith, Bool, true, false, not,
  ◌==◌, if_lem, subst, Option, none, some,
}
use tf_rmm.Common.Bits.{and_ones, or_low}
use tf_rmm.Realm.{
  realm_active, realm_zombie, rd_pack_sc, rd_unpack_state, rd_unpack_count, set_rd_state,
  rd_cas_state_if_count_zero, rd_active_rec_count_inc_if_active, rd_active_rec_count_dec,
}

-- The word of the RD, and the RECs between the increment of RMI_REC_ENTER and its decrement.
pub record Entries : Type 0 where
  pub word : ℕ
  pub entered : ℕ

pub data Step : Entries → Entries → Type 0 where
  enter :
      {w w' n : ℕ}
      → rd_active_rec_count_inc_if_active w ≡ some (w', true)
      → Step (record { word = w; entered = n }) (record { word = w'; entered = suc n })
  refuse :
      {w w' n : ℕ}
      → rd_active_rec_count_inc_if_active w ≡ some (w', false)
      → Step (record { word = w; entered = n }) (record { word = w'; entered = n })
  leave :
      {w w' n : ℕ}
      → rd_active_rec_count_dec w ≡ some w'
      → Step (record { word = w; entered = suc n }) (record { word = w'; entered = n })
  change :
      {w n s : ℕ}
      → s ≤ 3
      → Step (record { word = w; entered = n }) (record { word = set_rd_state w s; entered = n })
  terminate :
      {w w' n : ℕ} {swapped : Bool}
      → rd_cas_state_if_count_zero w (rd_unpack_state w) realm_zombie ≡ (w', swapped)
      → Step (record { word = w; entered = n }) (record { word = w'; entered = n })

pub data Reachable : Entries → Type 0 where
  created : {s : ℕ} → s ≤ 3 → Reachable (record { word = rd_pack_sc s 0; entered = 0 })
  next : {e e' : Entries} → Reachable e → Step e e' → Reachable e'

-- A word of 64 bits whose count is the number of RECs inside.
abbrev pub Counted : Entries → Type 0
Counted e = (e.word < 2 ^ 64) × (rd_unpack_count e.word ≡ e.entered)

pub pack_value : (s c : ℕ) → s ≤ 3 → c < 2 ^ 62 → rd_pack_sc s c ≡ s * 2 ^ 62 + c
unfolding rd_pack_sc
pack_value s c hs hc = rw (or_low 62 (s * 2 ^ 62 % 2 ^ 64) c (omega arith) hc) (omega arith)

pub count_value : (w : ℕ) → rd_unpack_count w ≡ w % 2 ^ 62
unfolding rd_unpack_count
count_value w = and_ones 62 w

set_value : (w s : ℕ) → s ≤ 3 → set_rd_state w s ≡ s * 2 ^ 62 + w % 2 ^ 62
unfolding set_rd_state
set_value w s small = rw (count_value w) (pack_value s (w % 2 ^ 62) small (omega arith))

-- What each operation does to a word of 64 bits, on its two fields.
abbrev pub Incremented : ℕ → Option (ℕ × Bool) → Type 0
Incremented w none = (w / 2 ^ 62 ≡ realm_active) × (w % 2 ^ 62 ≡ 2 ^ 62 - 1)
Incremented w (some (w', true)) =
    (w / 2 ^ 62 ≡ realm_active) × (w' ≡ w + 1) × (w % 2 ^ 62 + 1 < 2 ^ 62)
Incremented w (some (w', false)) = (w / 2 ^ 62 ≢ realm_active) × (w' ≡ w)

abbrev pub Decremented : ℕ → Option ℕ → Type 0
Decremented w none = w % 2 ^ 62 ≡ 0
Decremented w (some w') = (1 ≤ w % 2 ^ 62) × (w' + 1 ≡ w)

abbrev pub Swapped : ℕ → ℕ × Bool → Type 0
Swapped w (w', true) = (w % 2 ^ 62 ≡ 0) × (w' ≡ realm_zombie * 2 ^ 62)
Swapped w (w', false) = (w % 2 ^ 62 ≢ 0) × (w' ≡ w)

pub inc-Incremented : (w : ℕ) → w < 2 ^ 64 → Incremented w (rd_active_rec_count_inc_if_active w)
unfolding rd_active_rec_count_inc_if_active rd_unpack_state
inc-Incremented w bound =
    if_lem (Incremented w) (not (w / 2 ^ 62 == realm_active)) (λ other. (ground arith, refl))
      (λ active.
        if_lem (Incremented w) ((w + 1) % 2 ^ 64 / 2 ^ 62 == realm_active)
          (λ fits. (ground arith, ground arith, ground arith))
          (λ full. (ground arith, ground arith)))

pub dec-Decremented : (w : ℕ) → w < 2 ^ 64 → Decremented w (rd_active_rec_count_dec w)
unfolding rd_active_rec_count_dec
dec-Decremented w bound = rw (count_value w) (
    if_lem (Decremented w) (w % 2 ^ 62 == 0) (λ empty. ground arith)
      (λ some_in. (ground arith, ground arith)))

pub cas-Swapped :
    (w : ℕ) → w < 2 ^ 64 → Swapped w (rd_cas_state_if_count_zero w (rd_unpack_state w) realm_zombie)
unfolding rd_cas_state_if_count_zero rd_unpack_state
cas-Swapped w bound =
    rw
      (
        pack_value (w / 2 ^ 62) 0 (omega arith) (omega arith),
        pack_value realm_zombie 0 (omega arith) (omega arith),
      )
      (if_lem (Swapped w) (w == w / 2 ^ 62 * 2 ^ 62 + 0) (λ same. (ground arith, refl))
        (λ differ. (ground arith, refl)))

Step-Counted : {e e' : Entries} → Step e e' → Counted e → Counted e'
Step-Counted (enter {w} {w'} {n} done) (bound, count) =
    let (active, grown, fits) = subst (λ r. Incremented w r) done (inc-Incremented w bound) in
    (omega arith, omega (arith, count_value w', count_value w))
Step-Counted (refuse {w} {w'} {n} done) (bound, count) =
    let (other, same) = subst (λ r. Incremented w r) done (inc-Incremented w bound) in
    (omega arith, omega (arith, count_value w', count_value w))
Step-Counted (leave {w} {w'} {n} done) (bound, count) =
    let (some_in, less) = subst (λ r. Decremented w r) done (dec-Decremented w bound) in
    (omega arith, omega (arith, count_value w', count_value w))
Step-Counted (change {w} {n} {s} small) (bound, count) = (
  omega (arith, set_value w s small),
  omega (arith, set_value w s small, count_value w, count_value (set_rd_state w s)),
)
Step-Counted (terminate {w} {w'} {n} {swapped = true} done) (bound, count) =
    let (empty, zombie) = subst (λ r. Swapped w r) done (cas-Swapped w bound) in
    (omega arith, omega (arith, count_value w', count_value w))
Step-Counted (terminate {w} {w'} {n} {swapped = false} done) (bound, count) =
    let (some_in, same) = subst (λ r. Swapped w r) done (cas-Swapped w bound) in
    (omega arith, omega (arith, count_value w', count_value w))

-- Under any interleaving, the count in the RD's word is the number of RECs that are entered, and the
-- word stays within 64 bits: no operation carries from the count into the state.
pub Reachable-Counted : {e : Entries} → Reachable e → Counted e
Reachable-Counted (created {s} small) = (
  omega (arith, pack_value s 0 small (omega arith)),
  omega (arith, pack_value s 0 small (omega arith), count_value (rd_pack_sc s 0)),
)
Reachable-Counted (next before step) = Step-Counted step (Reachable-Counted before)

-- A step that is not one of set_rd_state.
abbrev pub keeps_state : {e e' : Entries} → Step e e' → Bool
keeps_state (change small) = false
keeps_state step = true

-- What comes after, without such a step.
pub data Later (e : Entries) : Entries → Type 0 where
  now : Later e e
  after :
      {e' e'' : Entries} → Later e e' → (step : Step e' e'') → keeps_state step ≡ true → Later e e''

-- A zombie's word, with no REC entered.
abbrev IsIdle : Entries → Type 0
IsIdle e = (e.entered ≡ 0) × (e.word ≡ realm_zombie * 2 ^ 62)

Step-IsIdle : {e e' : Entries} → (step : Step e e') → keeps_state step ≡ true → IsIdle e → IsIdle e'
Step-IsIdle (enter {w} {w'} {n} done) keeps (none_in, zombie) =
    let (active, grown, fits) =
      subst (λ r. Incremented w r) done (inc-Incremented w (omega (arith, zombie))) in
    absurd (omega (arith, zombie, active))
Step-IsIdle (refuse {w} {w'} {n} done) keeps (none_in, zombie) =
    let (other, same) =
      subst (λ r. Incremented w r) done (inc-Incremented w (omega (arith, zombie))) in
    (none_in, omega (arith, same, zombie))
Step-IsIdle (leave done) keeps (none_in, zombie) = absurd (omega (arith, none_in))
Step-IsIdle (change small) keeps idle = absurd (ground (arith, keeps))
Step-IsIdle (terminate {w} {w'} {n} {swapped = true} done) keeps (none_in, zombie) =
    let (empty, now_zombie) =
      subst (λ r. Swapped w r) done (cas-Swapped w (omega (arith, zombie))) in
    (none_in, now_zombie)
Step-IsIdle (terminate {w} {w'} {n} {swapped = false} done) keeps (none_in, zombie) =
    let (some_in, same) = subst (λ r. Swapped w r) done (cas-Swapped w (omega (arith, zombie))) in
    (none_in, omega (arith, same, zombie))

Later-IsIdle : {e e' : Entries} → IsIdle e → Later e e' → IsIdle e'
Later-IsIdle idle now = idle
Later-IsIdle idle (after before step keeps) = Step-IsIdle step keeps (Later-IsIdle idle before)

-- When RMI_REALM_TERMINATE makes the Realm a zombie no REC is entered; and from then on, through any
-- steps but those of set_rd_state, it stays a zombie without an entered REC, and RMI_REC_ENTER is refused
-- and leaves the word as it is.
pub terminate-idle :
    {e later : Entries} {w' : ℕ}
    → Reachable e
    → rd_cas_state_if_count_zero e.word (rd_unpack_state e.word) realm_zombie ≡ (w', true)
    → Later (record { word = w'; entered = e.entered }) later
    → (e.entered ≡ 0)
      × (later.entered ≡ 0)
      × (rd_unpack_state later.word ≡ realm_zombie)
      × (rd_active_rec_count_inc_if_active later.word ≡ some (later.word, false))
unfolding rd_unpack_state rd_active_rec_count_inc_if_active
terminate-idle {e} {later} {w'} reached done then_on =
    let (bound, count) = Reachable-Counted reached in
    let (empty, zombie) = subst (λ r. Swapped e.word r) done (cas-Swapped e.word bound) in
    let none_in : e.entered ≡ 0 = omega (arith, count_value e.word) in
    let (still_none, still_zombie) = Later-IsIdle (none_in, zombie) then_on in
    (none_in, still_none, omega (arith, still_zombie), rw still_zombie refl)

-- A REC that is entered can leave: the decrement finds a positive count, so its assertion holds, and
-- it keeps the Realm's state.
pub rd_active_rec_count_dec_lem :
    {w n : ℕ}
    → Reachable (record { word = w; entered = suc n })
    → (w' : ℕ) × (rd_active_rec_count_dec w ≡ some w') × (rd_unpack_state w' ≡ rd_unpack_state w)
unfolding rd_active_rec_count_dec rd_unpack_state
rd_active_rec_count_dec_lem {w} {n} reached =
    let (bound, count) = Reachable-Counted reached in
    let positive : (rd_unpack_count w == 0) ≡ false = ground (arith, count) in
    ((w + (2 ^ 64 - 1)) % 2 ^ 64, rw positive refl, omega (arith, count_value w))
