-- ===== src/LogThrottle.antt =====
-- src/log_throttle.py: the backoff of log lines that repeat. The clock is an argument, in ticks, and
-- the dict of states is a function of the key. The factor is a whole number, as every caller's is.
pub mod Counts
pub mod Pace
use data_service.Common.{ℕ, ◌+◌, ◌*◌, min, String, Option, none, some, ltb, if◌then◌else◌, str_eq}

pub record ThrottleConfig : Type 0 where
  pub base_interval : ℕ
  pub max_interval : ℕ
  pub factor : ℕ

-- `_KeyState`
pub record KeyState : Type 0 where
  pub next_at : ℕ
  pub interval : ℕ
  pub suppressed : ℕ

pub record BackoffLogThrottle : Type 0 where
  pub config : ThrottleConfig
  pub states : String → Option KeyState

abbrev pub new_throttle : ThrottleConfig → BackoffLogThrottle
new_throttle cfg = record { config = cfg; states = λ k. none }

-- `self._states[key] = state`
abbrev pub put : String → Option KeyState → BackoffLogThrottle → BackoffLogThrottle
put key state t = record t { states = λ k. if str_eq k key then state else t.states k }

-- what `check` does for the state that it finds
unfoldable pub check_state :
    BackoffLogThrottle → String → ℕ → Option KeyState → BackoffLogThrottle × Option ℕ
check_state t key now none = (
  put key
      (some (record {
        next_at = now + t.config.base_interval;
        interval = t.config.base_interval;
        suppressed = 0;
      }))
      t,
  some 0,
)
check_state t key now (some s) =
    if ltb now s.next_at
    then (put key (some (record s { suppressed = s.suppressed + 1 })) t, none)
    else let longer = min (s.interval * t.config.factor) t.config.max_interval in
      (
        put key (some (record { next_at = now + longer; interval = longer; suppressed = 0 })) t,
        some s.suppressed,
      )

-- `some n`: log, after `n` silent occurrences
unfoldable pub check : BackoffLogThrottle → String → ℕ → BackoffLogThrottle × Option ℕ
unfolding check_state
check t key now = check_state t key now (t.states key)

unfoldable pub reset : BackoffLogThrottle → String → BackoffLogThrottle
reset t key = put key none t
