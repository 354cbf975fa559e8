-- ===== src/Sync.antt =====
-- src/services/base_sync_service.py and src/services/domain_sync_service.py: the life of a background
-- service with its file lock, and one cycle of a domain under its watchdog with the counters and the
-- status that it keeps. Log lines, the clocks of the status rows and the metrics store's own errors are
-- left out.
pub mod Counters
pub mod Workers
use data_service.Common.{
  ℕ, zero, suc, ◌+◌, ◌-◌, max, String, Bool, true, false, not, List, [], ◌∷◌, ◌++◌, ◌==◌, Option,
  none, some, ltb, if◌then◌else◌,
}

-- the parts of `BaseSyncService` that `start` and `stop` change
pub record BaseSyncService : Type 0 where
  pub running : Bool
  pub has_task : Bool
  pub holds_lock_file : Bool

-- what `start` meets: the check of the subclass, the lock file and the lock
pub data LockAnswer : Type 0 where
  cannot_open acquired held_by_sibling subsystem_error : LockAnswer

pub data Started : Type 0 where
  already_running check_failed started lock_held os_error : Started

abbrev pub started_by : LockAnswer → BaseSyncService → BaseSyncService × Started
started_by cannot_open s = (s, os_error)
started_by acquired s =
    (record s { running = true; has_task = true; holds_lock_file = true }, started)
started_by held_by_sibling s = (record s { holds_lock_file = false }, lock_held)
started_by subsystem_error s = (record s { holds_lock_file = false }, os_error)

-- `start`
unfoldable pub start : Bool → LockAnswer → BaseSyncService → BaseSyncService × Started
start pre_start_check lock s =
    if s.running
    then (s, already_running)
    else (if not pre_start_check then (s, check_failed) else started_by lock s)

-- `stop`
unfoldable pub stop : BaseSyncService → BaseSyncService
stop s =
    if not s.running
    then s
    else record s { running = false; has_task = false; holds_lock_file = false }

-- the sleep of `_sync_loop`, with the subclass's `_compute_next_sleep`
unfoldable pub sleep_time : (ℕ → ℕ) → ℕ → ℕ → ℕ → ℕ
sleep_time compute_next_sleep sync_interval min_sleep elapsed =
    max min_sleep (compute_next_sleep (sync_interval - elapsed))

-- what becomes of `_sync_x` under `wait_for`: it returns its counts, it is cut off, or it raises
pub data DomainRun : Type 0 where
  finished : ℕ → ℕ → DomainRun
  timed_out : DomainRun
  raised : DomainRun

pub record SyncCycleRow : Type 0 where
  pub downloaded : ℕ
  pub errors : ℕ
  pub outcome : String

-- the hash `update_domain_sync_status` writes
pub record SyncStatus : Type 0 where
  pub is_running : Bool
  pub last_sync_downloaded : ℕ
  pub last_sync_errors : ℕ
  pub consecutive_failures : ℕ
  pub consecutive_timeouts : ℕ
  pub total_cycles : ℕ

pub record DomainSyncService : Type 0 where
  pub has_redis : Bool
  pub has_client : Bool
  pub consecutive_failures : ℕ
  pub consecutive_timeouts : ℕ
  pub total_cycles : ℕ
  pub status : SyncStatus
  pub rows : List SyncCycleRow

-- `_record_cycle`, with a metrics store that takes the row
abbrev pub record_cycle : ℕ → ℕ → Option String → DomainSyncService → DomainSyncService
record_cycle downloaded errors outcome s = record s {
  rows =
      s.rows
      ++ record {
        downloaded = downloaded;
        errors = errors;
        outcome = elim outcome [ some o ↦ o | none ↦ if errors == 0 then "ok" else "error" ];
      }
        ∷ [];
}

-- the counters after a run that returned
abbrev pub count_run : Bool → ℕ → DomainSyncService → DomainSyncService
count_run true errors s = record s {
  total_cycles = s.total_cycles + 1;
  consecutive_timeouts = s.consecutive_timeouts + 1;
}
count_run false zero s = record s {
  total_cycles = s.total_cycles + 1;
  consecutive_failures = 0;
  consecutive_timeouts = 0;
}
count_run false (suc errors) s = record s {
  total_cycles = s.total_cycles + 1;
  consecutive_failures = s.consecutive_failures + 1;
}

-- the status at the end of a cycle
abbrev pub write_status : ℕ → ℕ → DomainSyncService → DomainSyncService
write_status downloaded errors s = record s {
  status = record {
    is_running = false;
    last_sync_downloaded = downloaded;
    last_sync_errors = errors;
    consecutive_failures = s.consecutive_failures;
    consecutive_timeouts = s.consecutive_timeouts;
    total_cycles = s.total_cycles;
  };
}

-- `_timed_domain` and what follows it; `true` says that the exception leaves the method
abbrev pub after_run : DomainRun → DomainSyncService → DomainSyncService × Bool
after_run (finished downloaded errors) s = (
  write_status downloaded errors (count_run false errors (record_cycle downloaded errors none s)),
  false,
)
after_run timed_out s =
    (write_status 0 0 (count_run true 0 (record_cycle 0 0 (some "timeout") s)), false)
after_run raised s = (s, true)

abbrev pub mark_running : DomainSyncService → DomainSyncService
mark_running s = record s { status = record s.status { is_running = true } }

-- `_run_single_domain`
unfoldable pub run_single_domain : Bool → DomainRun → DomainSyncService → DomainSyncService × Bool
run_single_domain is_s3_configured run s =
    let connected = record s { has_client = true } in
    if not is_s3_configured
    then (s, false)
    else (if not s.has_redis then (connected, false) else after_run run (mark_running connected))

-- the body of `_sync_loop` for a domain: `_on_sync_error` counts what left the cycle
unfoldable pub loop_cycle : Bool → DomainRun → DomainSyncService → DomainSyncService
loop_cycle is_s3_configured run s =
    let (s', left) = run_single_domain is_s3_configured run s in
    if left then record s' { consecutive_failures = s'.consecutive_failures + 1 } else s'
