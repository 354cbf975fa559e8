-- ===== src/StorageCircuit/Reports.antt =====
-- Sequences of reports to the circuit: what they leave invariant, what the window holds, and what
-- an outage does.
use data_service.Common.{
  ℕ, ◌+◌, ◌<◌, ◌≡◌, sym, Bool, true, false, List, [], ◌∷◌, ◌++◌, map, arith, last_n, Bool-cases,
  inl, inr, last_n-append_one,
}
use mathlib.Core.Path.{subst}
use mathlib.Core.List.{append_assoc, append-nil}
use data_service.StorageCircuit.{
  StorageCircuit, is_open, observe, record_success, record_failure, fail_counted, should_open, trip,
  rearm, close_circuit,
}
use data_service.StorageCircuit.Valid.{
  IsConfig, IsValid, record_success-IsValid, record_failure-IsValid,
}

pub data Report : Type 0 where
  success failure : ℕ → Report

unfoldable pub report : StorageCircuit → Report → StorageCircuit
report c (success now) = (record_success c now).0
report c (failure now) = (record_failure c now).0

unfoldable pub run : StorageCircuit → List Report → StorageCircuit
run c [] = c
run c (r ∷ rs) = run (report c r) rs

config-record_success : (c : StorageCircuit) (now : ℕ) → (record_success c now).0.config ≡ c.config
unfolding record_success observe close_circuit
config-record_success c now = ground arith

config-record_failure : (c : StorageCircuit) (now : ℕ) → (record_failure c now).0.config ≡ c.config
unfolding record_failure fail_counted observe trip rearm
config-record_failure c now = ground arith

pub config-report : (c : StorageCircuit) (r : Report) → (report c r).config ≡ c.config
unfolding report
config-report c (success now) = config-record_success c now
config-report c (failure now) = config-record_failure c now

report-IsValid :
    (c : StorageCircuit) (r : Report) → IsConfig c.config → IsValid c → IsValid (report c r)
unfolding report
report-IsValid c (success now) = record_success-IsValid c now
report-IsValid c (failure now) = record_failure-IsValid c now

-- Whatever is reported, in whatever order and at whatever times, a valid circuit stays valid: the
-- window never holds more than `window` outcomes, the cooldown is `base * 2 ^ trips` capped at the
-- maximum, an open circuit has an empty window and a closed one has no trips.
pub run-IsValid :
    (rs : List Report) (c : StorageCircuit) → IsConfig c.config → IsValid c → IsValid (run c rs)
unfolding run
run-IsValid [] c h v = v
run-IsValid (r ∷ rs) c h v =
    run-IsValid rs (report c r) (rw (config-report c r) h) (report-IsValid c r h v)

-- The outcome that a report carries: `true` is a failure.
abbrev pub outcome : Report → Bool
outcome (success _) = false
outcome (failure _) = true

abbrev pub outcomes : List Report → List Bool
outcomes = map outcome

-- No report of the list finds or leaves the circuit open.
unfoldable pub StaysClosed : StorageCircuit → List Report → Type 0
StaysClosed c [] = is_open c ≡ false
StaysClosed c (r ∷ rs) = (is_open c ≡ false) × StaysClosed (report c r) rs

StaysClosed-head : (c : StorageCircuit) (rs : List Report) → StaysClosed c rs → is_open c ≡ false
unfolding StaysClosed
StaysClosed-head c [] h = h
StaysClosed-head c (r ∷ rs) h = h.0

pub trip-opens :
    (c : StorageCircuit) (now : ℕ) → 0 < c.config.base_cooldown → is_open (trip c now).0 ≡ true
unfolding is_open trip
trip-opens c now h = ground arith

pub trip_reported :
    (c : StorageCircuit) (now : ℕ)
    → (let counted = record c { failures_while_open = c.failures_while_open + 1 } in
        is_open c ≡ false
        → should_open (observe true counted) ≡ true
        → (record_failure c now).0 ≡ (trip (observe true counted) now).0)
unfolding record_failure fail_counted is_open trip
trip_reported c now closed down = rw (closed, down)

success_observed :
    (c : StorageCircuit) (now : ℕ) → is_open c ≡ false → (record_success c now).0 ≡ observe false c
unfolding record_success
success_observed c now closed = rw closed

pub failure_observed :
    (c : StorageCircuit) (now : ℕ)
    → (let counted = record c { failures_while_open = c.failures_while_open + 1 } in
        is_open c ≡ false
        → should_open (observe true counted) ≡ false
        → (record_failure c now).0 ≡ observe true counted)
unfolding record_failure fail_counted is_open
failure_observed c now closed up = rw (closed, up)

recent-observe :
    (b : Bool) (c : StorageCircuit) (seen : List Bool)
    → c.recent ≡ last_n c.config.window seen
    → (observe b c).recent ≡ last_n c.config.window (seen ++ b ∷ [])
unfolding observe
recent-observe b c seen e = rw e (last_n-append_one c.config.window seen b)

recent-report :
    (c : StorageCircuit) (r : Report) (seen : List Bool)
    → 0 < c.config.base_cooldown
    → c.recent ≡ last_n c.config.window seen
    → is_open c ≡ false
    → is_open (report c r) ≡ false
    → (report c r).recent ≡ last_n c.config.window (seen ++ outcome r ∷ [])
unfolding report observe
recent-report c (success now) seen h e closed after =
    rw (success_observed c now closed) (recent-observe false c seen e)
recent-report c (failure now) seen h e closed after =
    let c' = record c { failures_while_open = c.failures_while_open + 1 } in
    elim (Bool-cases (should_open (observe true c'))) [
      | inl down ↦ cc (trip-opens (observe true c') now h, trip_reported c now closed down)
      | inr up ↦ rw (failure_observed c now closed up) (recent-observe true c' seen e)
    ]

-- While the circuit stays closed its deque holds exactly the outcomes of the last `window` reports.
pub recent-eq-last_n :
    (rs : List Report) (c : StorageCircuit) (seen : List Bool)
    → IsConfig c.config
    → c.recent ≡ last_n c.config.window seen
    → StaysClosed c rs
    → (run c rs).recent ≡ last_n c.config.window (seen ++ outcomes rs)
unfolding run StaysClosed
recent-eq-last_n [] c seen h e closed = rw (append-nil) e
recent-eq-last_n (r ∷ rs) c seen h e (closed, later) =
    let same = config-report c r in
    let held =
      recent-report c r seen h.base_pos e closed (StaysClosed-head (report c r) rs later) in
    let rest =
      recent-eq-last_n rs (report c r) (seen ++ outcome r ∷ []) (rw same h)
        (subst (λ cfg. (report c r).recent ≡ last_n cfg.window (seen ++ outcome r ∷ [])) (sym same)
          held)
        later in
    rw append_assoc at (
      subst
        (λ cfg.
          (run (report c r) rs).recent
          ≡ last_n cfg.window ((seen ++ outcome r ∷ []) ++ outcomes rs))
        same rest)
