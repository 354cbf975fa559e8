-- ===== src/StorageCircuit/Backoff.antt =====
-- The backoff schedule of an open circuit: one step for each probe window, and the way out.
use data_service.Common.{
  All, ℕ, zero, suc, ◌+◌, ◌*◌, ◌^◌, min, ◌≤◌, ◌<◌, ◌≡◌, refl, true, List, [], ◌∷◌, map, arith,
  length, ◌∙◌, ◌↔◌, ap,
}
use native.Mathlib.Numerals.{add-one}
use data_service.StorageCircuit.{
  CircuitConfig, StorageCircuit, is_open, record_failure, fail_counted, in_probe_window, rearm,
  exhausted, cooldown_remaining, allows_write,
}
use data_service.StorageCircuit.Valid.{IsConfig, schedule_step}
use data_service.StorageCircuit.Reports.{failure, report, run}

-- A write is admitted exactly when no time is left to wait, whatever the state.
pub allows_write-cooldown_remaining :
    (c : StorageCircuit) (now : ℕ) → (allows_write c now ≡ true) ↔ (cooldown_remaining c now ≡ 0)
unfolding allows_write cooldown_remaining in_probe_window is_open
allows_write-cooldown_remaining c now = ground arith

straggler :
    (c : StorageCircuit) (t : ℕ)
    → t < c.open_until
    → (record_failure c t).0 ≡ record c { failures_while_open = c.failures_while_open + 1 }
unfolding record_failure fail_counted in_probe_window is_open
straggler c t h = ground arith

probe_failure :
    (c : StorageCircuit) (now : ℕ)
    → 0 < c.open_until
    → c.open_until ≤ now
    → (record_failure c now).0 ≡ record c {
      open_until = now + min (c.cooldown * 2) c.config.max_cooldown;
      cooldown = min (c.cooldown * 2) c.config.max_cooldown;
      consecutive_trips = c.consecutive_trips + 1;
      failures_while_open = c.failures_while_open + 1;
    }
unfolding record_failure fail_counted in_probe_window is_open rearm
probe_failure c now p due = ground arith

-- Failures at times before the deadline only count: nothing of the schedule moves.
stragglers :
    (ts : List ℕ) (c : StorageCircuit)
    → All (λ t. t < c.open_until) ts
    → run c (map failure ts) ≡ record c { failures_while_open = c.failures_while_open + length ts }
unfolding run report
stragglers [] c h = ground arith
stragglers (t ∷ ts) c h =
    ap (λ d. run d (map failure ts)) (straggler c t h.0)
    ∙ stragglers ts (record c { failures_while_open = c.failures_while_open + 1 }) h.1
    ∙ ap (λ n. record c { failures_while_open = n }) (omega arith)

-- The circuit after a failed probe at `now`, with `n` failures in its window.
abbrev pub rearmed : StorageCircuit → ℕ → ℕ → StorageCircuit
rearmed c now n =
    let doubled = min (c.cooldown * 2) c.config.max_cooldown in
    record c {
      open_until = now + doubled;
      cooldown = doubled;
      consecutive_trips = c.consecutive_trips + 1;
      failures_while_open = c.failures_while_open + n;
    }

-- However many writes share a probe window and fail before the next one, the schedule moves one
-- step: one more trip, the cooldown doubled up to the maximum, the deadline set by the first failure.
pub one_step_per_window :
    (c : StorageCircuit) (now : ℕ) (ts : List ℕ)
    → 0 < c.open_until
    → c.open_until ≤ now
    → All (λ t. t < now + min (c.cooldown * 2) c.config.max_cooldown) ts
    → run c (failure now ∷ map failure ts) ≡ rearmed c now (suc (length ts))
unfolding run report
one_step_per_window c now ts p due h =
    ap (λ d. run d (map failure ts)) (probe_failure c now p due)
    ∙ stragglers ts (rearmed c now 1) h
    ∙ ap (λ n. record (rearmed c now 1) { failures_while_open = n }) (omega arith)

-- `n` probes, each made the moment it is admitted, and each failing.
pub failed_probes : ℕ → StorageCircuit → StorageCircuit
failed_probes zero c = c
failed_probes (suc n) c =
    let before = failed_probes n c in (record_failure before before.open_until).0

-- The time that `n` failed probes take, counted from the opening of the circuit.
pub waited : CircuitConfig → ℕ → ℕ
waited cfg zero = cfg.base_cooldown
waited cfg (suc n) = waited cfg n + min (cfg.base_cooldown * 2 ^ (n + 1)) cfg.max_cooldown

record Waiting (cfg : CircuitConfig) (n : ℕ) (c : StorageCircuit) : Type 0 where
  same : c.config ≡ cfg
  trips : c.consecutive_trips ≡ n
  scheduled : c.cooldown ≡ min (cfg.base_cooldown * 2 ^ n) cfg.max_cooldown
  deadline : c.open_until ≡ c.opened_at + waited cfg n
  pending : 0 < c.open_until

waited_pos : (cfg : CircuitConfig) (n : ℕ) → 0 < cfg.base_cooldown → 0 < waited cfg n
unfolding waited
waited_pos cfg zero h = h
waited_pos cfg (suc n) h = omega (arith, waited_pos cfg n h)

Waiting-rearmed :
    (cfg : CircuitConfig) (n : ℕ) (c : StorageCircuit)
    → Waiting cfg n c
    → Waiting cfg (suc n) (rearmed c c.open_until 1)
unfolding waited
Waiting-rearmed cfg n c w =
    let cap : c.config.max_cooldown ≡ cfg.max_cooldown = ap (λ k. k.max_cooldown) w.same in
    let doubled : min (c.cooldown * 2) c.config.max_cooldown
        ≡ min (cfg.base_cooldown * 2 ^ (n + 1)) cfg.max_cooldown =
      ap (λ m. min (c.cooldown * 2) m) cap
      ∙ ap (λ k. min (k * 2) cfg.max_cooldown) w.scheduled
      ∙ schedule_step cfg.base_cooldown cfg.max_cooldown n in
    record {
      same = w.same;
      trips = omega (arith, w.trips);
      scheduled = rw (← add-one n) doubled;
      deadline = omega (arith, doubled, w.deadline);
      pending = omega (arith, w.pending);
    }

failed_probes-Waiting :
    (n : ℕ) (c : StorageCircuit)
    → Waiting c.config 0 c
    → Waiting c.config n (failed_probes n c) × ((failed_probes n c).opened_at ≡ c.opened_at)
unfolding failed_probes
failed_probes-Waiting zero c w = (w, refl)
failed_probes-Waiting (suc n) c w =
    let (ih, at) = failed_probes-Waiting n c w in
    let before = failed_probes n c in
    rw (probe_failure before before.open_until ih.pending (omega arith))
      (Waiting-rearmed c.config n before ih, at)

-- Against a backend that stays down, the `n`th failed probe leaves the circuit open with `n` trips,
-- the deadline is the sum of the capped doubling cooldowns after the opening, and the circuit tells
-- its caller to give up exactly from the `max_consecutive_trips`th on.
pub failed_probes-exhausted :
    (n : ℕ) (c : StorageCircuit)
    → IsConfig c.config
    → c.consecutive_trips ≡ 0
    → c.cooldown ≡ c.config.base_cooldown
    → c.open_until ≡ c.opened_at + c.config.base_cooldown
    → (is_open (failed_probes n c) ≡ true)
      × ((failed_probes n c).open_until ≡ c.opened_at + waited c.config n)
      × ((exhausted (failed_probes n c) ≡ true) ↔ (c.config.max_consecutive_trips ≤ n))
unfolding is_open exhausted waited
failed_probes-exhausted n c h trips cool due =
    let start : Waiting c.config 0 c = record {
      same = refl;
      trips = trips;
      scheduled = omega (arith, h.base-le-max);
      deadline = due;
      pending = omega (arith, h.base_pos);
    } in
    let (w, at) = failed_probes-Waiting n c start in
    let top : (failed_probes n c).config.max_consecutive_trips ≡ c.config.max_consecutive_trips =
      ap (λ k. k.max_consecutive_trips) w.same in
    (ground (arith, w.pending), omega (arith, w.deadline, at), ground (arith, w.trips, top))
