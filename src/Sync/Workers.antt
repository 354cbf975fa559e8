-- ===== src/Sync/Workers.antt =====
-- Several worker processes start and stop the same service on one lock file; a process may also die, and
-- the system then drops its lock.
use data_service.Common.{
  ℕ, zero, suc, ◌+◌, ◌≤◌, ◌≡◌, refl, ap, Bool, false, List, [], ◌∷◌, ◌++◌, if◌then◌else◌, arith,
  All,
}
use data_service.Sync.{
  BaseSyncService, LockAnswer, cannot_open, acquired, held_by_sibling, subsystem_error, start, stop,
}

abbrev pub idle : BaseSyncService
idle = record { running = false; has_task = false; holds_lock_file = false }

abbrev pub count_workers : (BaseSyncService → Bool) → List BaseSyncService → ℕ
count_workers p [] = 0
count_workers p (w ∷ ws) = (if p w then 1 else 0) + count_workers p ws

-- the workers that hold the lock
abbrev pub holders : List BaseSyncService → ℕ
holders = count_workers (λ w. w.holds_lock_file)

-- One worker moves. The lock is exclusive: it is acquired only while no other worker holds it.
pub data Step : List BaseSyncService → List BaseSyncService → Type 0 where
  starting :
      (before after : List BaseSyncService) (w : BaseSyncService) (check : Bool)
      (answer : LockAnswer)
      → (answer ≡ acquired → holders before + holders after ≡ 0)
      → Step (before ++ w ∷ after) (before ++ (start check answer w).0 ∷ after)
  stopping :
      (before after : List BaseSyncService) (w : BaseSyncService)
      → Step (before ++ w ∷ after) (before ++ stop w ∷ after)
  dying :
      (before after : List BaseSyncService) (w : BaseSyncService)
      → Step (before ++ w ∷ after) (before ++ idle ∷ after)

-- what the workers come to from a state
pub data Reaches : List BaseSyncService → List BaseSyncService → Type 0 where
  here : (ws : List BaseSyncService) → Reaches ws ws
  step : (ws ws' ws'' : List BaseSyncService) → Reaches ws ws' → Step ws' ws'' → Reaches ws ws''

-- a worker runs just while it has its task and holds the lock
abbrev pub IsConsistent : BaseSyncService → Type 0
IsConsistent w = (w.running ≡ w.holds_lock_file) × (w.running ≡ w.has_task)

abbrev pub IsExclusive : List BaseSyncService → Type 0
IsExclusive ws = All IsConsistent ws × (holders ws ≤ 1)

count_workers-append :
    (p : BaseSyncService → Bool) (before after : List BaseSyncService)
    → count_workers p (before ++ after) ≡ count_workers p before + count_workers p after
count_workers-append p [] after = omega arith
count_workers-append p (w ∷ before) after = omega (arith, count_workers-append p before after)

All-replace :
    (before after : List BaseSyncService) (w w' : BaseSyncService)
    → All IsConsistent (before ++ w ∷ after)
    → (IsConsistent w → IsConsistent w')
    → All IsConsistent (before ++ w' ∷ after)
All-replace [] after w w' all keeps = (keeps all.0, all.1)
All-replace (v ∷ before) after w w' all keeps = (all.0, All-replace before after w w' all.1 keeps)

All-at :
    (before after : List BaseSyncService) (w : BaseSyncService)
    → All IsConsistent (before ++ w ∷ after)
    → IsConsistent w
All-at [] after w all = all.0
All-at (v ∷ before) after w all = All-at before after w all.1

start-IsConsistent :
    (check : Bool) (answer : LockAnswer) (w : BaseSyncService)
    → IsConsistent w
    → IsConsistent (start check answer w).0
unfolding start
start-IsConsistent check cannot_open w ok = ground arith
start-IsConsistent check acquired w ok = ground arith
start-IsConsistent check held_by_sibling w ok = ground arith
start-IsConsistent check subsystem_error w ok = ground arith

stop-IsConsistent : (w : BaseSyncService) → IsConsistent w → IsConsistent (stop w)
unfolding stop
stop-IsConsistent w ok = ground arith

-- a start takes the lock only when it is acquired
start-holds :
    (check : Bool) (answer : LockAnswer) (w : BaseSyncService) (others : ℕ)
    → (answer ≡ acquired → others ≡ 0)
    → (if w.holds_lock_file then 1 else 0) + others ≤ 1
    → (if (start check answer w).0.holds_lock_file then 1 else 0) + others ≤ 1
unfolding start
start-holds check cannot_open w others free one = ground arith
start-holds check acquired w others free one = let z = free refl in ground (arith, z)
start-holds check held_by_sibling w others free one = ground arith
start-holds check subsystem_error w others free one = ground arith

stop-holds :
    (w : BaseSyncService) (others : ℕ)
    → (if w.holds_lock_file then 1 else 0) + others ≤ 1
    → (if (stop w).holds_lock_file then 1 else 0) + others ≤ 1
unfolding stop
stop-holds w others one = ground arith

-- all workers counted, the one at the split apart
holders-split :
    (before after : List BaseSyncService) (w : BaseSyncService)
    → holders (before ++ w ∷ after)
      ≡ (if w.holds_lock_file then 1 else 0) + (holders before + holders after)
holders-split before after w =
    omega (arith, count_workers-append (λ v. v.holds_lock_file) before (w ∷ after))

replace-IsExclusive :
    (before after : List BaseSyncService) (w w' : BaseSyncService)
    → IsExclusive (before ++ w ∷ after)
    → (IsConsistent w → IsConsistent w')
    → ((if w.holds_lock_file then 1 else 0) + (holders before + holders after) ≤ 1
        → (if w'.holds_lock_file then 1 else 0) + (holders before + holders after) ≤ 1)
    → IsExclusive (before ++ w' ∷ after)
replace-IsExclusive before after w w' (all, one) keeps holds =
    let split = holders-split before after w in
    let split' = holders-split before after w' in
    let one' = holds (omega (arith, split, one)) in
    (All-replace before after w w' all keeps, omega (arith, split', one'))

Step-IsExclusive : (ws ws' : List BaseSyncService) → Step ws ws' → IsExclusive ws → IsExclusive ws'
Step-IsExclusive ws ws' (starting before after w check answer free) ok =
    replace-IsExclusive before after w (start check answer w).0 ok
      (start-IsConsistent check answer w)
      (start-holds check answer w (holders before + holders after) free)
Step-IsExclusive ws ws' (stopping before after w) ok =
    replace-IsExclusive before after w (stop w) ok (stop-IsConsistent w)
      (stop-holds w (holders before + holders after))
Step-IsExclusive ws ws' (dying before after w) ok =
    replace-IsExclusive before after w idle ok (λ _. (refl, refl)) (λ one. omega (arith, one))

Reaches-IsExclusive :
    (ws ws' : List BaseSyncService) → Reaches ws ws' → IsExclusive ws → IsExclusive ws'
Reaches-IsExclusive _ _ (here ws) ok = ok
Reaches-IsExclusive _ _ (step ws ws' ws'' path last) ok =
    Step-IsExclusive ws' ws'' last (Reaches-IsExclusive ws ws' path ok)

running_hold :
    (ws : List BaseSyncService)
    → All IsConsistent ws
    → count_workers (λ w. w.running) ws ≡ holders ws
running_hold [] all = refl
running_hold (w ∷ ws) all =
    omega (arith, ap {B = ℕ} (λ b. (if b then 1 else 0)) all.0.0, running_hold ws all.1)

abbrev pub all_idle : ℕ → List BaseSyncService
all_idle zero = []
all_idle (suc n) = idle ∷ all_idle n

all_idle-IsExclusive : (n : ℕ) → All IsConsistent (all_idle n) × (holders (all_idle n) ≡ 0)
all_idle-IsExclusive zero = (tt, refl)
all_idle-IsExclusive (suc n) =
    let (all, none_holds) = all_idle-IsExclusive n in
    (((refl, refl), all), omega (arith, none_holds))

-- From any number of workers that are idle, whatever the order in which they start, stop and die: at most
-- one runs, the one that runs holds the lock and has its task, and no other holds it.
pub Reaches-running :
    (n : ℕ) (ws : List BaseSyncService)
    → Reaches (all_idle n) ws
    → (count_workers (λ w. w.running) ws ≤ 1)
      × All IsConsistent ws
      × (holders ws ≡ count_workers (λ w. w.running) ws)
Reaches-running n ws path =
    let (all, none_holds) = all_idle-IsExclusive n in
    let (all', one) = Reaches-IsExclusive (all_idle n) ws path (all, omega (arith, none_holds)) in
    let same = running_hold ws all' in (omega (arith, same, one), all', omega (arith, same))
