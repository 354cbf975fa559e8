-- ===== src/LogThrottle/Pace.antt =====
-- How the throttle paces the lines of a key.
use data_service.Common.{
  All, All-mono, ℕ, ◌+◌, ◌*◌, min, ◌≤◌, ◌<◌, ◌≡◌, refl, String, true, false, none, some, List, [],
  ◌∷◌, str_eq, eq_iff, arith, Option-cases, Bool-cases, inl, inr, ◌∙◌, sym,
}
use text.Mathlib.TextPositions.{eq_refl}
use mathlib.Core.Path.{subst}
use data_service.LogThrottle.{KeyState, BackoffLogThrottle, check, reset}
use data_service.LogThrottle.Counts.{Call, checks, resets, spoken, check_other, reset_other}

check_silent :
    (t : BackoffLogThrottle) (k : String) (now : ℕ) (s : KeyState)
    → t.states k ≡ some s
    → now < s.next_at
    → ((check t k now).1 ≡ none)
      × ((check t k now).0.states k ≡ some (record s { suppressed = s.suppressed + 1 }))
unfolding check
check_silent t k now s known early = ground (arith, eq_refl k)

check_silent_same :
    (t : BackoffLogThrottle) (j k : String) (now : ℕ) (s : KeyState)
    → str_eq k j ≡ true
    → t.states k ≡ some s
    → now < s.next_at
    → ((check t j now).1 ≡ none)
      × ((check t j now).0.states k ≡ some (record s { suppressed = s.suppressed + 1 }))
check_silent_same t j k now s h known early =
    subst
      (λ i.
        ((check t i now).1 ≡ none)
        × ((check t i now).0.states k ≡ some (record s { suppressed = s.suppressed + 1 })))
      ((eq_iff k j).0 h) (check_silent t k now s known early)

-- A call that comes before a time and does not reset the key.
abbrev pub IsWithin : String → ℕ → Call → Type 0
IsWithin k due (checks j now) = now < due
IsWithin k due (resets j) = str_eq k j ≡ false

IsWithin-mono :
    (k : String) (soon late : ℕ) → soon ≤ late → (e : Call) → IsWithin k soon e → IsWithin k late e
IsWithin-mono k soon late le (checks j now) h = omega arith
IsWithin-mono k soon late le (resets j) h = h

-- Until a key's next line is due, no occurrence of it logs, unless the key is reset.
quiet_until_due :
    (es : List Call) (t : BackoffLogThrottle) (k : String) (s : KeyState)
    → t.states k ≡ some s
    → All (IsWithin k s.next_at) es
    → spoken k t es ≡ 0
unfolding spoken
quiet_until_due [] t k s known early = refl
quiet_until_due (checks j now ∷ es) t k s known early = elim (Bool-cases (str_eq k j)) [
  | inl same ↦
      let (silent, later) = check_silent_same t j k now s same known early.0 in
      let s' = record s { suppressed = s.suppressed + 1 } in
      rw (same, silent) (omega (arith, quiet_until_due es (check t j now).0 k s' later early.1))
  | inr other ↦ rw other (
      omega (
        arith,
        quiet_until_due es (check t j now).0 k s (check_other t j k now other ∙ known) early.1,
      ))
]
quiet_until_due (resets j ∷ es) t k s known early =
    quiet_until_due es (reset t j) k s (reset_other t j k early.0 ∙ known) early.1

-- The interval of every key lies between the base interval and the maximum.
abbrev pub IsPaced : BackoffLogThrottle → Type 0
IsPaced t =
    (k : String) (s : KeyState)
    → t.states k ≡ some s
    → (t.config.base_interval ≤ s.interval) × (s.interval ≤ t.config.max_interval)

grown : (i f b m : ℕ) → b ≤ i → 0 < f → b ≤ m → b ≤ min (i * f) m
grown i f b m p q r = let more : i * 1 ≤ i * f = grind arith in omega arith

-- after a line, the next one is due no sooner than the base interval
line_due :
    (t : BackoffLogThrottle) (k : String) (now n : ℕ)
    → IsPaced t
    → t.config.base_interval ≤ t.config.max_interval
    → 0 < t.config.factor
    → (check t k now).1 ≡ some n
    → (s : KeyState) × ((check t k now).0.states k ≡ some s)
      × (now + t.config.base_interval ≤ s.next_at)
unfolding check
line_due t k now n paced cap grows line = elim (Option-cases (t.states k)) [
  | inl new ↦ (
    record {
      next_at = now + t.config.base_interval;
      interval = t.config.base_interval;
      suppressed = 0;
    },
    ground (arith, eq_refl k),
    omega arith,
  )
  | inr (s, known) ↦
      let longer = min (s.interval * t.config.factor) t.config.max_interval in
      let far =
        grown s.interval t.config.factor t.config.base_interval t.config.max_interval
          (paced k s known).0 grows cap in
      (
        record { next_at = now + longer; interval = longer; suppressed = 0 },
        ground (arith, eq_refl k),
        omega (arith, far),
      )
]

-- The calls of `check` keep every interval between the base interval and the maximum.
pub check-IsPaced :
    (t : BackoffLogThrottle) (k : String) (now : ℕ)
    → IsPaced t
    → t.config.base_interval ≤ t.config.max_interval
    → 0 < t.config.factor
    → IsPaced (check t k now).0
unfolding check
check-IsPaced t k now paced cap grows j s h = elim (Bool-cases (str_eq j k)) [
  | inr other ↦ elim (Option-cases (t.states k)) [
    | inl new ↦ ground (arith, paced j s)
    | inr (s', known) ↦ ground (arith, paced j s)
  ]
  | inl same ↦ elim (Option-cases (t.states k)) [
    | inl new ↦ ground arith
    | inr (s', known) ↦ ground (
      arith,
      paced k s' known,
      grown s'.interval t.config.factor t.config.base_interval t.config.max_interval
          (paced k s' known).0 grows cap,
    )
  ]
]

-- A reset keeps every interval between the base interval and the maximum.
pub reset-IsPaced : (t : BackoffLogThrottle) (k : String) → IsPaced t → IsPaced (reset t k)
unfolding reset
reset-IsPaced t k paced j s h = elim (Bool-cases (str_eq j k)) [
  | inl same ↦ absurd (ground arith)
  | inr other ↦ paced j s (sym (reset_other t k j other) ∙ h)
]

-- A line of a key is followed by the base interval of silence for it: as long as the key is not
-- reset, no calls within it, for this key or others, log a second line of the key.
pub quiet_after_line :
    (t : BackoffLogThrottle) (k : String) (now n : ℕ) (es : List Call)
    → IsPaced t
    → t.config.base_interval ≤ t.config.max_interval
    → 0 < t.config.factor
    → (check t k now).1 ≡ some n
    → All (IsWithin k (now + t.config.base_interval)) es
    → spoken k (check t k now).0 es ≡ 0
quiet_after_line t k now n es paced cap grows line within =
    let (s, known, due) = line_due t k now n paced cap grows line in
    quiet_until_due es (check t k now).0 k s known (
      All-mono (IsWithin k (now + t.config.base_interval)) (IsWithin k s.next_at) es
        (IsWithin-mono k (now + t.config.base_interval) s.next_at due) within)
