-- ===== src/StorageCircuit/Outage.antt =====
-- A backend that goes down opens the circuit, within a window of failed writes.
use data_service.Common.{
  ℕ, suc, ◌+◌, ◌-◌, ◌*◌, ◌≤◌, ◌<◌, ◌≡◌, refl, sym, Bool, true, false, List, [], ◌∷◌, ◌++◌, map,
  arith, length, Bool-cases, ◌⊎◌, inl, inr, count_true, last_n, drop-append_over, count_true-drop,
  length-append, length-drop, ◌∙◌, ap, lt→ltb, not-lt→ltb,
}
use data_service.StorageCircuit.{
  StorageCircuit, is_open, record_failure, fail_counted, observe, should_open, in_probe_window,
  rearm,
}
use data_service.StorageCircuit.Valid.{IsConfig, IsValid}
use data_service.StorageCircuit.Reports.{
  Report, failure, report, run, outcomes, StaysClosed, recent-eq-last_n, config-report,
  trip_reported, failure_observed, trip-opens,
}

abbrev failures : List ℕ → List Report
failures = map failure

failure_keeps_open :
    (c : StorageCircuit) (now : ℕ) → is_open c ≡ true → is_open (record_failure c now).0 ≡ true
unfolding is_open record_failure fail_counted in_probe_window rearm
failure_keeps_open c now h = ground arith

failures_keep_open :
    (ts : List ℕ) (c : StorageCircuit) → is_open c ≡ true → is_open (run c (failures ts)) ≡ true
unfolding run report
failures_keep_open [] c h = h
failures_keep_open (t ∷ ts) c h =
    failures_keep_open ts (record_failure c t).0 (failure_keeps_open c t h)

open_or_closed :
    (ts : List ℕ) (c : StorageCircuit)
    → (is_open (run c (failures ts)) ≡ true) ⊎ StaysClosed c (failures ts)
unfolding run report StaysClosed
open_or_closed [] c = Bool-cases (is_open c)
open_or_closed (t ∷ ts) c = elim (Bool-cases (is_open c)) [
  | inl opened ↦ inl (failures_keep_open (t ∷ ts) c opened)
  | inr closed ↦ elim (open_or_closed ts (record_failure c t).0) [
    | inl opened ↦ inl opened
    | inr stays ↦ inr (closed, stays)
  ]
]

-- a failure that leaves the circuit closed was judged, and found not enough
failure_judged :
    (c : StorageCircuit) (now : ℕ)
    → 0 < c.config.base_cooldown
    → is_open c ≡ false
    → is_open (record_failure c now).0 ≡ false
    → should_open (record_failure c now).0 ≡ false
unfolding observe
failure_judged c now h closed after =
    let c' = record c { failures_while_open = c.failures_while_open + 1 } in
    elim (Bool-cases (should_open (observe true c'))) [
      | inl down ↦ cc (trip-opens (observe true c') now h, trip_reported c now closed down)
      | inr up ↦ rw (failure_observed c now closed up) up
    ]

failures_judged :
    (t : ℕ) (ts : List ℕ) (c : StorageCircuit)
    → 0 < c.config.base_cooldown
    → StaysClosed c (failures (t ∷ ts))
    → should_open (run c (failures (t ∷ ts))) ≡ false
unfolding run report StaysClosed
failures_judged t [] c h (closed, after) = failure_judged c t h closed after
failures_judged t (t' ∷ ts) c h (closed, stays) =
    failures_judged t' ts (record_failure c t).0 (rw (config-report c (failure t)) h) stays

outcomes-failures :
    (ts : List ℕ) → count_true (outcomes (failures ts)) ≡ length (outcomes (failures ts))
outcomes-failures [] = refl
outcomes-failures (t ∷ ts) = ap suc (outcomes-failures ts)

length-failures : (ts : List ℕ) → length (outcomes (failures ts)) ≡ length ts
length-failures [] = refl
length-failures (t ∷ ts) = ap suc (length-failures ts)

config-run : (rs : List Report) (c : StorageCircuit) → (run c rs).config ≡ c.config
unfolding run
config-run [] c = refl
config-run (r ∷ rs) c = config-run rs (report c r) ∙ config-report c r

scaled_lt : (a b n : ℕ) → a < b → 0 < n → a * n < n * b
scaled_lt a b n p q = grind arith

-- The last `n` of a list that ends in at least `n` failures are failures.
last_n-failures :
    (n : ℕ) (xs ys : List Bool)
    → n ≤ length ys
    → count_true ys ≡ length ys
    → (count_true (last_n n (xs ++ ys)) ≡ length (last_n n (xs ++ ys)))
      × (length (last_n n (xs ++ ys)) ≡ n)
last_n-failures n xs ys h all =
    let k = length (xs ++ ys) - n in
    let total = length-append xs ys in
    let e = drop-append_over k xs ys (omega (arith, total)) in
    (rw e (count_true-drop (k - length xs) ys all), omega (arith, length-drop k (xs ++ ys), total))

-- A window that holds nothing but failures is judged down, if the threshold is below one.
full_window_opens :
    (c : StorageCircuit)
    → IsConfig c.config
    → c.config.threshold.num < c.config.threshold.den
    → length c.recent ≡ c.config.window
    → count_true c.recent ≡ length c.recent
    → should_open c ≡ true
unfolding should_open
full_window_opens c h p full all =
    let whole = length c.recent in
    let more : c.config.threshold.num * whole < whole * c.config.threshold.den =
      scaled_lt c.config.threshold.num c.config.threshold.den whole p
        (omega (arith, h.samples_pos, h.samples-le-window)) in
    rw (all, not-lt→ltb whole c.config.min_samples (omega (arith, h.samples-le-window)))
      (lt→ltb _ _ more)

-- Once as many writes in a row have failed as the window holds, at whatever times, the circuit is
-- open, and stays open while writes fail; the threshold is below one.
pub outage_opens :
    (c : StorageCircuit) (ts : List ℕ)
    → IsConfig c.config
    → IsValid c
    → c.config.threshold.num < c.config.threshold.den
    → c.config.window ≤ length ts
    → is_open (run c (failures ts)) ≡ true
outage_opens c [] h v p long = absurd (omega (arith, h.samples_pos, h.samples-le-window))
outage_opens c (t ∷ ts) h v p long = elim (open_or_closed (t ∷ ts) c) [
  | inl opened ↦ opened
  | inr stays ↦
      let rs = failures (t ∷ ts) in
      let d = run c rs in
      let w = c.config.window in
      let none_lost : length c.recent - w ≡ 0 = omega (arith, v.bounded) in
      let held : d.recent ≡ last_n w (c.recent ++ outcomes rs) =
        recent-eq-last_n rs c c.recent h (rw none_lost) stays in
      let (all, full) =
        last_n-failures w c.recent (outcomes rs) (omega (arith, length-failures (t ∷ ts)))
          (outcomes-failures (t ∷ ts)) in
      let same : d.config ≡ c.config = config-run rs c in
      let down : should_open d ≡ true =
        full_window_opens d (rw same h) (rw same p)
          (ap length held ∙ full ∙ ap (λ k. k.window) (sym same)) (rw held all) in
      cc (down, failures_judged t ts c h.base_pos stays)
]
