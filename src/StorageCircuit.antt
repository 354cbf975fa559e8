-- ===== src/StorageCircuit.antt =====
-- src/services/storage_circuit.py: the circuit breaker around a storage backend. The clock is an
-- argument: a call is one synchronous stretch of the event loop, and reads one instant. Seconds are
-- counted in ticks, and the threshold is a ratio of two numbers.
pub mod Valid
pub mod Reports
pub mod Backoff
pub mod Outage
use data_service.Common.{
  ℕ, ◌+◌, ◌-◌, ◌*◌, min, String, Bool, true, false, not, ◌&&◌, ◌||◌, Option, none, some, List, [],
  ◌∷◌, ◌++◌, ltb, leb, if◌then◌else◌, length, drop, count_true,
}

pub record Ratio : Type 0 where
  pub num : ℕ
  pub den : ℕ

-- `part / whole > r`, without the division
abbrev pub exceeds : Ratio → ℕ → ℕ → Bool
exceeds r part whole = ltb (r.num * whole) (part * r.den)

-- the arguments of `__init__`
pub record CircuitConfig : Type 0 where
  pub name : String
  pub window : ℕ
  pub min_samples : ℕ
  pub threshold : Ratio
  pub base_cooldown : ℕ
  pub max_cooldown : ℕ
  pub max_consecutive_trips : ℕ

pub record CircuitTransition : Type 0 where
  pub name : String
  pub opened : Bool
  pub probe_failed : Bool
  pub recovered : Bool
  pub cooldown : ℕ
  pub failures : ℕ
  pub downtime : ℕ

-- `recent` is the deque, oldest first; `true` is a failure. `open_until` is 0 when closed.
pub record StorageCircuit : Type 0 where
  pub config : CircuitConfig
  pub recent : List Bool
  pub open_until : ℕ
  pub cooldown : ℕ
  pub consecutive_trips : ℕ
  pub failures_while_open : ℕ
  pub opened_at : ℕ

-- `__init__`
abbrev pub new_circuit : CircuitConfig → StorageCircuit
new_circuit cfg = record {
  config = cfg;
  recent = [];
  open_until = 0;
  cooldown = cfg.base_cooldown;
  consecutive_trips = 0;
  failures_while_open = 0;
  opened_at = 0;
}

unfoldable pub is_open : StorageCircuit → Bool
is_open c = ltb 0 c.open_until

unfoldable pub exhausted : StorageCircuit → Bool
exhausted c = leb c.config.max_consecutive_trips c.consecutive_trips

-- `max(0.0, open_until - now)`: `-` on ℕ stops at 0
unfoldable pub cooldown_remaining : StorageCircuit → ℕ → ℕ
unfolding is_open
cooldown_remaining c now = if is_open c then c.open_until - now else 0

unfoldable pub in_probe_window : StorageCircuit → ℕ → Bool
unfolding is_open
in_probe_window c now = is_open c && leb c.open_until now

unfoldable pub allows_write : StorageCircuit → ℕ → Bool
unfolding is_open in_probe_window
allows_write c now = not (is_open c) || in_probe_window c now

unfoldable pub allows_attempt : StorageCircuit → ℕ → Bool
allows_attempt c now = allows_write c now

unfoldable pub observe : Bool → StorageCircuit → StorageCircuit
observe failed c =
    let appended = c.recent ++ failed ∷ [] in
    record c {
      recent = if ltb c.config.window (length appended) then drop 1 appended else appended;
    }

unfoldable pub should_open : StorageCircuit → Bool
should_open c =
    if ltb (length c.recent) c.config.min_samples
    then false
    else exceeds c.config.threshold (count_true c.recent) (length c.recent)

-- `_open`
unfoldable pub trip : StorageCircuit → ℕ → StorageCircuit × CircuitTransition
trip c now = (
  record c {
    cooldown = c.config.base_cooldown;
    open_until = now + c.config.base_cooldown;
    opened_at = now;
    consecutive_trips = 0;
    failures_while_open = count_true c.recent;
    recent = [];
  },
  record {
    name = c.config.name;
    opened = true;
    probe_failed = false;
    recovered = false;
    cooldown = c.config.base_cooldown;
    failures = count_true c.recent;
    downtime = 0;
  },
)

-- `_rearm`
unfoldable pub rearm : StorageCircuit → ℕ → StorageCircuit × CircuitTransition
rearm c now =
    let doubled = min (c.cooldown * 2) c.config.max_cooldown in
    (
      record c {
        consecutive_trips = c.consecutive_trips + 1;
        cooldown = doubled;
        open_until = now + doubled;
      },
      record {
        name = c.config.name;
        opened = false;
        probe_failed = true;
        recovered = false;
        cooldown = doubled;
        failures = c.failures_while_open;
        downtime = 0;
      },
    )

-- `_close`
unfoldable pub close_circuit : StorageCircuit → ℕ → StorageCircuit × CircuitTransition
close_circuit c now = (
  record c {
    recent = [];
    open_until = 0;
    cooldown = c.config.base_cooldown;
    consecutive_trips = 0;
    failures_while_open = 0;
    opened_at = 0;
  },
  record {
    name = c.config.name;
    opened = false;
    probe_failed = false;
    recovered = true;
    cooldown = 0;
    failures = c.failures_while_open;
    downtime = now - c.opened_at;
  },
)

abbrev reported : StorageCircuit × CircuitTransition → StorageCircuit × Option CircuitTransition
reported (c, t) = (c, some t)

unfoldable pub record_success : StorageCircuit → ℕ → StorageCircuit × Option CircuitTransition
record_success c now =
    if is_open c
    then if in_probe_window c now then reported (close_circuit c now) else (c, none)
    else (observe false c, none)

-- what `record_failure` does once the failure is counted
unfoldable pub fail_counted : StorageCircuit → ℕ → StorageCircuit × Option CircuitTransition
fail_counted c now =
    if is_open c
    then if in_probe_window c now then reported (rearm c now) else (c, none)
    else let seen = observe true c in
      if should_open seen then reported (trip seen now) else (seen, none)

unfoldable pub record_failure : StorageCircuit → ℕ → StorageCircuit × Option CircuitTransition
record_failure c now =
    fail_counted (record c { failures_while_open = c.failures_while_open + 1 }) now
