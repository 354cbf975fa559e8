-- ===== src/StorageCircuit/Valid.antt =====
-- The invariant of the circuit and its two reports.
use data_service.Common.{
  ℕ, ◌+◌, ◌*◌, ◌^◌, ◌≤◌, ◌<◌, min, ◌≡◌, refl, Bool, true, false, [], ◌∷◌, ◌++◌, arith, length,
  length-append, length-drop, Bool-cases, inl, inr,
}
use native.Mathlib.Nat.{pow-suc, mul_assoc}
use native.Mathlib.Numerals.{add-one}
use data_service.StorageCircuit.{
  fail_counted, in_probe_window, CircuitConfig, StorageCircuit, new_circuit, is_open, observe, trip,
  rearm, close_circuit, record_success, record_failure, should_open,
}

pub record IsConfig (cfg : CircuitConfig) : Type 0 where
  pub base_pos : 0 < cfg.base_cooldown
  pub base-le-max : cfg.base_cooldown ≤ cfg.max_cooldown
  pub samples_pos : 0 < cfg.min_samples
  pub samples-le-window : cfg.min_samples ≤ cfg.window

-- The window is bounded, the cooldown stands where the doubling schedule puts it, an open circuit
-- has an empty window and a deadline after the moment it opened, a closed one has no trips.
pub record IsValid (c : StorageCircuit) : Type 0 where
  pub bounded : length c.recent ≤ c.config.window
  pub scheduled :
      c.cooldown ≡ min (c.config.base_cooldown * 2 ^ c.consecutive_trips) c.config.max_cooldown
  pub open_empty : 0 < c.open_until → length c.recent ≡ 0
  pub open_later : 0 < c.open_until → c.opened_at < c.open_until
  pub closed_trips : c.open_until ≡ 0 → c.consecutive_trips ≡ 0
  pub closed_at : c.open_until ≡ 0 → c.opened_at ≡ 0

length-observe :
    (b : Bool) (c : StorageCircuit)
    → length c.recent ≤ c.config.window
    → length (observe b c).recent ≤ c.config.window
unfolding observe
length-observe b c h =
    ground (arith, length-append c.recent (b ∷ []), length-drop 1 (c.recent ++ b ∷ []))

pub schedule_step : (b m n : ℕ) → min (min (b * 2 ^ n) m * 2) m ≡ min (b * 2 ^ (n + 1)) m
schedule_step b m n = simp (add-one, pow-suc) (omega (arith, mul_assoc b (2 ^ n) 2))

-- A new circuit is valid.
pub new_circuit-IsValid : (cfg : CircuitConfig) → IsConfig cfg → IsValid (new_circuit cfg)
new_circuit-IsValid cfg h = record {
  bounded = omega arith;
  scheduled = omega arith;
  open_empty = λ p. refl;
  open_later = λ p. omega arith;
  closed_trips = λ e. refl;
  closed_at = λ e. refl;
}

observe-IsValid :
    (b : Bool) (c : StorageCircuit) → IsValid c → c.open_until ≡ 0 → IsValid (observe b c)
unfolding observe
observe-IsValid b c v closed = record {
  bounded = unfold observe in length-observe b c v.bounded;
  scheduled = v.scheduled;
  open_empty = λ p. absurd (omega arith);
  open_later = λ p. absurd (omega arith);
  closed_trips = v.closed_trips;
  closed_at = v.closed_at;
}

trip-IsValid : (c : StorageCircuit) (now : ℕ) → IsConfig c.config → IsValid (trip c now).0
unfolding trip
trip-IsValid c now h = record {
  bounded = omega arith;
  scheduled = omega arith;
  open_empty = λ p. refl;
  open_later = λ p. omega (arith, h.base_pos);
  closed_trips = λ e. refl;
  closed_at = λ e. absurd (omega (arith, h.base_pos));
}

rearm-IsValid :
    (c : StorageCircuit) (now : ℕ)
    → IsConfig c.config
    → IsValid c
    → 0 < c.open_until
    → c.open_until ≤ now
    → IsValid (rearm c now).0
unfolding rearm
rearm-IsValid c now h v opened due = record {
  bounded = v.bounded;
  scheduled =
      rw v.scheduled
        (schedule_step c.config.base_cooldown c.config.max_cooldown c.consecutive_trips);
  open_empty = λ p. v.open_empty opened;
  open_later = λ p. omega (arith, v.open_later opened);
  closed_trips = λ e. absurd (omega (arith, v.open_later opened));
  closed_at = λ e. absurd (omega (arith, v.open_later opened));
}

close_circuit-IsValid :
    (c : StorageCircuit) (now : ℕ) → IsConfig c.config → IsValid (close_circuit c now).0
unfolding close_circuit
close_circuit-IsValid c now h = record {
  bounded = omega arith;
  scheduled = omega arith;
  open_empty = λ p. refl;
  open_later = λ p. omega arith;
  closed_trips = λ e. refl;
  closed_at = λ e. refl;
}

pub opened→pos : (c : StorageCircuit) → is_open c ≡ true → 0 < c.open_until
unfolding is_open
opened→pos c h = ground arith

pub closed→zero : (c : StorageCircuit) → is_open c ≡ false → c.open_until ≡ 0
unfolding is_open
closed→zero c h = ground arith

pub probing→due : (c : StorageCircuit) (now : ℕ) → in_probe_window c now ≡ true → c.open_until ≤ now
unfolding in_probe_window
probing→due c now h = ground arith

-- A success keeps the invariant.
pub record_success-IsValid :
    (c : StorageCircuit) (now : ℕ)
    → IsConfig c.config
    → IsValid c
    → IsValid (record_success c now).0
unfolding record_success
record_success-IsValid c now h v = elim (Bool-cases (is_open c)) [
  | inl opened ↦ rw opened (elim (Bool-cases (in_probe_window c now)) [
    | inl due ↦ rw due (close_circuit-IsValid c now h)
    | inr early ↦ rw early v
  ])
  | inr closed ↦ rw closed (observe-IsValid false c v (closed→zero c closed))
]

fail_counted-IsValid :
    (c : StorageCircuit) (now : ℕ) → IsConfig c.config → IsValid c → IsValid (fail_counted c now).0
unfolding fail_counted observe
fail_counted-IsValid c now h v = elim (Bool-cases (is_open c)) [
  | inl opened ↦ rw opened (elim (Bool-cases (in_probe_window c now)) [
    | inl due ↦ rw due (rearm-IsValid c now h v (opened→pos c opened) (probing→due c now due))
    | inr early ↦ rw early v
  ])
  | inr closed ↦ rw closed (elim (Bool-cases (should_open (observe true c))) [
    | inl down ↦ rw down (trip-IsValid (observe true c) now h)
    | inr up ↦ rw up (observe-IsValid true c v (closed→zero c closed))
  ])
]

-- A failure keeps the invariant.
pub record_failure-IsValid :
    (c : StorageCircuit) (now : ℕ)
    → IsConfig c.config
    → IsValid c
    → IsValid (record_failure c now).0
unfolding record_failure
record_failure-IsValid c now h v =
    fail_counted-IsValid (record c { failures_while_open = c.failures_while_open + 1 }) now h
      (record {
        bounded = v.bounded;
        scheduled = v.scheduled;
        open_empty = v.open_empty;
        open_later = v.open_later;
        closed_trips = v.closed_trips;
        closed_at = v.closed_at;
      })
