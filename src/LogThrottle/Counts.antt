-- ===== src/LogThrottle/Counts.antt =====
-- What the throttle says: no occurrence is lost.
use data_service.Common.{
  ℕ, ◌+◌, ◌≡◌, String, true, false, Option, none, some, List, [], ◌∷◌, if◌then◌else◌, str_eq,
  eq_iff, arith, Option-cases, Bool-cases, inl, inr,
}
use text.Mathlib.TextPositions.{eq_refl}
use mathlib.Core.Path.{subst, ap}
use data_service.LogThrottle.{KeyState, BackoffLogThrottle, check, reset}

-- a call of `check` for a key at a time, or of `reset`
pub data Call : Type 0 where
  checks : String → ℕ → Call
  resets : String → Call

unfoldable pub run : BackoffLogThrottle → List Call → BackoffLogThrottle
run t [] = t
run t (checks j now ∷ es) = run (check t j now).0 es
run t (resets j ∷ es) = run (reset t j) es

abbrev pub waiting : Option KeyState → ℕ
waiting none = 0
waiting (some s) = s.suppressed

-- the occurrences of a key that no line has accounted for
abbrev pub pending : BackoffLogThrottle → String → ℕ
pending t k = waiting (t.states k)

abbrev pub occurrences : String → List Call → ℕ
occurrences k [] = 0
occurrences k (checks j now ∷ es) = (if str_eq k j then 1 else 0) + occurrences k es
occurrences k (resets j ∷ es) = occurrences k es

-- a line accounts for itself and for the silent occurrences that it reports
abbrev pub accounted : Option ℕ → ℕ
accounted none = 0
accounted (some n) = n + 1

unfoldable pub spoken : String → BackoffLogThrottle → List Call → ℕ
spoken k t [] = 0
spoken k t (checks j now ∷ es) =
    (if str_eq k j then accounted (check t j now).1 else 0) + spoken k (check t j now).0 es
spoken k t (resets j ∷ es) = spoken k (reset t j) es

-- the occurrences that a reset of the key forgets
unfoldable pub forgotten : String → BackoffLogThrottle → List Call → ℕ
forgotten k t [] = 0
forgotten k t (checks j now ∷ es) = forgotten k (check t j now).0 es
forgotten k t (resets j ∷ es) = (if str_eq k j then pending t k else 0) + forgotten k (reset t j) es

check_self :
    (t : BackoffLogThrottle) (k : String) (now : ℕ)
    → pending t k + 1 ≡ accounted (check t k now).1 + pending (check t k now).0 k
unfolding check
check_self t k now = elim (Option-cases (t.states k)) [
  | inl new ↦ ground (arith, eq_refl k)
  | inr (s, known) ↦ ground (arith, eq_refl k)
]

check_same :
    (t : BackoffLogThrottle) (j k : String) (now : ℕ)
    → str_eq k j ≡ true
    → pending t k + 1 ≡ accounted (check t j now).1 + pending (check t j now).0 k
check_same t j k now h =
    subst (λ i. pending t k + 1 ≡ accounted (check t i now).1 + pending (check t i now).0 k)
      ((eq_iff k j).0 h) (check_self t k now)

pub check_other :
    (t : BackoffLogThrottle) (j k : String) (now : ℕ)
    → str_eq k j ≡ false
    → (check t j now).0.states k ≡ t.states k
unfolding check
check_other t j k now h = elim (Option-cases (t.states j)) [
  | inl new ↦ ground arith
  | inr (s, known) ↦ ground arith
]

reset_self :
    (t : BackoffLogThrottle) (j k : String) → str_eq k j ≡ true → (reset t j).states k ≡ none
unfolding reset
reset_self t j k h = ground (arith, (eq_iff k j).0 h)

pub reset_other :
    (t : BackoffLogThrottle) (j k : String) → str_eq k j ≡ false → (reset t j).states k ≡ t.states k
unfolding reset
reset_other t j k h = ground arith

-- No occurrence is lost: those of a key are the lines of that key, the silent ones that its lines
-- report, those that its resets forget, and those still pending, however the calls for other keys
-- lie between.
pub run-accounts :
    (es : List Call) (t : BackoffLogThrottle) (k : String)
    → pending t k + occurrences k es ≡ spoken k t es + forgotten k t es + pending (run t es) k
unfolding run spoken forgotten
run-accounts [] t k = omega arith
run-accounts (checks j now ∷ es) t k = elim (Bool-cases (str_eq k j)) [
  | inl same ↦
      rw same (omega (arith, check_same t j k now same, run-accounts es (check t j now).0 k))
  | inr other ↦
      rw other (
        omega
          (arith, ap waiting (check_other t j k now other), run-accounts es (check t j now).0 k))
]
run-accounts (resets j ∷ es) t k = elim (Bool-cases (str_eq k j)) [
  | inl same ↦
      rw same (omega (arith, ap waiting (reset_self t j k same), run-accounts es (reset t j) k))
  | inr other ↦
      rw other (omega (arith, ap waiting (reset_other t j k other), run-accounts es (reset t j) k))
]
