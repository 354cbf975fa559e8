-- ===== src/Tests/Throttle.antt =====
-- The log throttle on concrete inputs.
use data_service.Common.{◌≡◌, refl, some, List, [], ◌∷◌, arith}
use data_service.LogThrottle.{BackoffLogThrottle, new_throttle, check, check_state, reset}
use data_service.LogThrottle.Counts.{Call, checks, resets, spoken}
use data_service.LogThrottle.Pace.{IsPaced, quiet_after_line}

abbrev throttle : BackoffLogThrottle
throttle = new_throttle (record { base_interval = 10; max_interval = 40; factor = 2 })

-- a line, two silent ones, another key, and a line for the three
abbrev burst : List Call
burst = checks "s3" 1 ∷ checks "s3" 2 ∷ checks "redis" 3 ∷ checks "s3" 4 ∷ checks "s3" 12 ∷ []

spoken-burst : spoken "s3" throttle burst ≡ 4
unfolding spoken check check_state
spoken-burst = refl

throttle-IsPaced : IsPaced throttle
throttle-IsPaced = λ k s h. ground arith

first_line : (check throttle "s3" 5).1 ≡ some 0
unfolding check check_state
first_line = refl

-- a reset of another key lies between
abbrev within_ten : List Call
within_ten = checks "s3" 6 ∷ resets "redis" ∷ checks "s3" 14 ∷ []

quiet_after_line_example : spoken "s3" (check throttle "s3" 5).0 within_ten ≡ 0
quiet_after_line_example =
    quiet_after_line throttle "s3" 5 0 within_ten throttle-IsPaced (ground arith) (ground arith)
      first_line (ground arith)

-- a reset of the key makes its next occurrence log at once
spoken-reset : spoken "s3" (check throttle "s3" 5).0 (resets "s3" ∷ checks "s3" 6 ∷ []) ≡ 1
unfolding spoken check check_state reset
spoken-reset = refl
