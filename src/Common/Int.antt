-- ===== src/Common/Int.antt =====
-- Signed integers over the native numbers, as far as the tile arithmetic needs them.
use Prim.Native.Nat.{ℕ, suc, ◌+◌, ◌-◌, ◌*◌, ◌/◌, min}
use mathlib.Core.Path.{◌≡◌}
use mathlib.Core.Logic.{◌↔◌}
use mathlib.Core.Bool.{Bool, true, false}
use native.Mathlib.Omega.{arith}
use data_service.Common.Tests.{leb, ltb, ◌==◌, if◌then◌else◌}

-- `negsuc n` is -(n + 1).
pub data ℤ : Type 0 where
  pos : ℕ → ℤ
  negsuc : ℕ → ℤ

-- a - b, as an integer
abbrev pub sub_ℕ : ℕ → ℕ → ℤ
sub_ℕ a b = if leb b a then pos (a - b) else negsuc (b - a - 1)

-- the sum of an integer and a number
abbrev pub add_ℕ : ℤ → ℕ → ℤ
add_ℕ (pos a) n = pos (a + n)
add_ℕ (negsuc a) n = sub_ℕ n (suc a)

-- minus an integer
abbrev pub neg : ℤ → ℤ
neg (pos a) = sub_ℕ 0 a
neg (negsuc a) = pos (suc a)

-- `int(a * m / n)`, which cuts towards zero
abbrev pub scale : ℤ → ℕ → ℕ → ℤ
scale (pos a) m n = pos (a * m / n)
scale (negsuc a) m n = sub_ℕ 0 (suc a * m / n)

-- `max(0, a)`
abbrev pub max_zero : ℤ → ℕ
max_zero (pos a) = a
max_zero (negsuc a) = 0

-- `min(n, a)` of a number and an integer
abbrev pub min_ℤ : ℕ → ℤ → ℤ
min_ℤ n (pos a) = pos (min n a)
min_ℤ n (negsuc a) = negsuc a

-- `max(0, a + 1)`: where a Python `range` up to and with `a` ends
abbrev pub stop : ℤ → ℕ
stop (pos a) = suc a
stop (negsuc a) = 0

-- `a < b`
abbrev pub lt_ℤ : ℤ → ℤ → Bool
lt_ℤ (pos a) (pos b) = ltb a b
lt_ℤ (pos a) (negsuc b) = false
lt_ℤ (negsuc a) (pos b) = true
lt_ℤ (negsuc a) (negsuc b) = ltb b a

-- `a == b`
abbrev pub eq_ℤ : ℤ → ℤ → Bool
eq_ℤ (pos a) (pos b) = a == b
eq_ℤ (pos a) (negsuc b) = false
eq_ℤ (negsuc a) (pos b) = false
eq_ℤ (negsuc a) (negsuc b) = a == b

pub eq_ℤ-iff : (a b : ℤ) → (eq_ℤ a b ≡ true) ↔ (a ≡ b)
eq_ℤ-iff (pos a) (pos b) = ground arith
eq_ℤ-iff (pos a) (negsuc b) = ground arith
eq_ℤ-iff (negsuc a) (pos b) = ground arith
eq_ℤ-iff (negsuc a) (negsuc b) = ground arith
