-- ===== src/Tests/Domains.antt =====
-- A domain's cycles and two workers on one lock.
use data_service.Common.{◌≤◌, ◌≡◌, refl, true, false, not, List, [], ◌∷◌, All}
use data_service.Sync.{
  finished, timed_out, raised, DomainSyncService, loop_cycle, BaseSyncService, acquired,
  held_by_sibling, start,
}
use data_service.Sync.Counters.{Counts, run_all, returned, run_all-Counts, loop_cycle-status}
use data_service.Sync.Workers.{
  Reaches, here, step, starting, dying, idle, all_idle, holders, count_workers, IsConsistent,
  Reaches-running,
}

abbrev fresh : DomainSyncService
fresh = record {
  has_redis = true;
  has_client = false;
  consecutive_failures = 0;
  consecutive_timeouts = 0;
  total_cycles = 0;
  status = record {
    is_running = false;
    last_sync_downloaded = 0;
    last_sync_errors = 0;
    consecutive_failures = 0;
    consecutive_timeouts = 0;
    total_cycles = 0;
  };
  rows = [];
}

run_all-Counts_example :
    Counts (run_all (raised ∷ finished 4 0 ∷ timed_out ∷ finished 0 2 ∷ raised ∷ []) fresh) 2 1 3
run_all-Counts_example =
    run_all-Counts (raised ∷ []) (timed_out ∷ finished 0 2 ∷ raised ∷ []) 4 fresh refl
      (refl, (refl, (refl, tt)))

loop_cycle-status_example :
    ((loop_cycle true raised fresh).status.is_running ≡ not (returned raised))
    × ((loop_cycle true raised fresh).status.consecutive_failures ≡ 0)
    × ((loop_cycle true raised fresh).consecutive_failures ≡ 1)
loop_cycle-status_example = loop_cycle-status raised fresh refl

-- the first worker starts, the second is turned away, the first dies, the second starts
abbrev workers : List BaseSyncService
workers = idle ∷ (start true acquired idle).0 ∷ []

one_takes_over : Reaches (all_idle 2) workers
unfolding start
one_takes_over =
    step _ (idle ∷ idle ∷ []) _
      (step _ ((start true acquired idle).0 ∷ idle ∷ []) _
        (step _ ((start true acquired idle).0 ∷ idle ∷ []) _
          (step _ (idle ∷ idle ∷ []) _ (here (all_idle 2))
            (starting [] (idle ∷ []) idle true acquired (λ _. refl)))
          (starting ((start true acquired idle).0 ∷ []) [] idle true held_by_sibling (λ e. cc)))
        (dying [] (idle ∷ []) (start true acquired idle).0))
      (starting (idle ∷ []) [] idle true acquired (λ _. refl))

Reaches-running_example :
    (count_workers (λ w. w.running) workers ≤ 1)
    × All IsConsistent workers
    × (holders workers ≡ count_workers (λ w. w.running) workers)
Reaches-running_example = Reaches-running 2 workers one_takes_over
