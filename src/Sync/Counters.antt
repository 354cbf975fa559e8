-- ===== src/Sync/Counters.antt =====
-- What the counters and the rows of a domain say of its runs.
use data_service.Common.{
  ℕ, zero, suc, ◌+◌, ◌≡◌, refl, ap, ◌∙◌, Bool, true, false, not, List, [], ◌∷◌, ◌++◌, if◌then◌else◌,
  arith, All,
}
use data_service.Sync.{
  DomainRun, finished, timed_out, raised, DomainSyncService, run_single_domain, loop_cycle,
}

-- the service after its runs, while S3 is configured
abbrev pub run_all : List DomainRun → DomainSyncService → DomainSyncService
run_all [] s = s
run_all (r ∷ rs) s = run_all rs (loop_cycle true r s)

abbrev pub is_clean : DomainRun → Bool
is_clean (finished downloaded zero) = true
is_clean _ = false

-- it returned errors, or it raised
abbrev pub is_failure : DomainRun → Bool
is_failure (finished downloaded (suc errors)) = true
is_failure raised = true
is_failure _ = false

abbrev pub is_timeout : DomainRun → Bool
is_timeout timed_out = true
is_timeout _ = false

abbrev pub returned : DomainRun → Bool
returned raised = false
returned _ = true

abbrev pub count_runs : (DomainRun → Bool) → List DomainRun → ℕ
count_runs p [] = 0
count_runs p (r ∷ rs) = (if p r then 1 else 0) + count_runs p rs

-- the counters of a service
abbrev pub Counts : DomainSyncService → ℕ → ℕ → ℕ → Type 0
Counts s failures timeouts cycles =
    (s.consecutive_failures ≡ failures)
    × (s.consecutive_timeouts ≡ timeouts)
    × (s.total_cycles ≡ cycles)
    × (s.has_redis ≡ true)

run_all-append :
    (before after : List DomainRun) (s : DomainSyncService)
    → run_all (before ++ after) s ≡ run_all after (run_all before s)
run_all-append [] after s = refl
run_all-append (r ∷ before) after s = run_all-append before after (loop_cycle true r s)

loop_cycle-cycles :
    (r : DomainRun) (s : DomainSyncService)
    → s.has_redis ≡ true
    → ((loop_cycle true r s).total_cycles ≡ s.total_cycles + (if returned r then 1 else 0))
      × ((loop_cycle true r s).has_redis ≡ true)
unfolding loop_cycle run_single_domain
loop_cycle-cycles (finished downloaded zero) s redis = ground arith
loop_cycle-cycles (finished downloaded (suc errors)) s redis = ground arith
loop_cycle-cycles timed_out s redis = ground arith
loop_cycle-cycles raised s redis = ground arith

run_all-cycles :
    (rs : List DomainRun) (s : DomainSyncService)
    → s.has_redis ≡ true
    → ((run_all rs s).total_cycles ≡ s.total_cycles + count_runs returned rs)
      × ((run_all rs s).has_redis ≡ true)
run_all-cycles [] s redis = (omega arith, redis)
run_all-cycles (r ∷ rs) s redis =
    let (one, redis') = loop_cycle-cycles r s redis in
    let (rest, end) = run_all-cycles rs (loop_cycle true r s) redis' in
    (omega (arith, one, rest), end)

-- a run that is not clean adds itself to the counter of its kind
loop_cycle-counts :
    (r : DomainRun) (s : DomainSyncService)
    → s.has_redis ≡ true
    → is_clean r ≡ false
    → ((loop_cycle true r s).consecutive_failures
        ≡ s.consecutive_failures + (if is_failure r then 1 else 0))
      × ((loop_cycle true r s).consecutive_timeouts
          ≡ s.consecutive_timeouts + (if is_timeout r then 1 else 0))
unfolding loop_cycle run_single_domain
loop_cycle-counts (finished downloaded zero) s redis bad = cc
loop_cycle-counts (finished downloaded (suc errors)) s redis bad = ground arith
loop_cycle-counts timed_out s redis bad = ground arith
loop_cycle-counts raised s redis bad = ground arith

run_all-counts :
    (rs : List DomainRun) (s : DomainSyncService)
    → s.has_redis ≡ true
    → All (λ r. is_clean r ≡ false) rs
    → ((run_all rs s).consecutive_failures ≡ s.consecutive_failures + count_runs is_failure rs)
      × ((run_all rs s).consecutive_timeouts ≡ s.consecutive_timeouts + count_runs is_timeout rs)
run_all-counts [] s redis bad = (omega arith, omega arith)
run_all-counts (r ∷ rs) s redis bad =
    let (f, t) = loop_cycle-counts r s redis bad.0 in
    let (fs, ts) = run_all-counts rs (loop_cycle true r s) (loop_cycle-cycles r s redis).1 bad.1 in
    (omega (arith, f, fs), omega (arith, t, ts))

clean_resets :
    (downloaded : ℕ) (s : DomainSyncService)
    → s.has_redis ≡ true
    → ((loop_cycle true (finished downloaded 0) s).consecutive_failures ≡ 0)
      × ((loop_cycle true (finished downloaded 0) s).consecutive_timeouts ≡ 0)
unfolding loop_cycle run_single_domain
clean_resets downloaded s redis = ground arith

-- After any runs, a clean one and then some that are not clean, the failures counted are the ones since
-- the clean run and the timeouts likewise; and the cycles are all runs that returned.
pub run_all-Counts :
    (before after : List DomainRun) (downloaded : ℕ) (s : DomainSyncService)
    → s.has_redis ≡ true
    → All (λ r. is_clean r ≡ false) after
    → Counts
        (run_all (before ++ finished downloaded 0 ∷ after) s)
        (count_runs is_failure after)
        (count_runs is_timeout after)
        (s.total_cycles + count_runs returned (before ++ finished downloaded 0 ∷ after))
run_all-Counts before after downloaded s redis bad =
    let (_, redis') = run_all-cycles before s redis in
    let s' = run_all before s in
    let (zf, zt) = clean_resets downloaded s' redis' in
    let (_, redis'') = loop_cycle-cycles (finished downloaded 0) s' redis' in
    let (f, t) = run_all-counts after (loop_cycle true (finished downloaded 0) s') redis'' bad in
    let (c, redis_end) = run_all-cycles (before ++ finished downloaded 0 ∷ after) s redis in
    let e = run_all-append before (finished downloaded 0 ∷ after) s in
    (
      ap (λ (d : DomainSyncService). d.consecutive_failures) e ∙ omega (arith, f, zf),
      ap (λ (d : DomainSyncService). d.consecutive_timeouts) e ∙ omega (arith, t, zt),
      c,
      redis_end,
    )

-- After a cycle the status says that the domain does not run and shows the counters, unless the run raised:
-- then it says that the domain runs, with the count of failures from before the cycle, though one more
-- has been counted.
pub loop_cycle-status :
    (r : DomainRun) (s : DomainSyncService)
    → s.has_redis ≡ true
    → ((loop_cycle true r s).status.is_running ≡ not (returned r))
      × ((loop_cycle true r s).status.consecutive_failures ≡ (
          if returned r
          then (loop_cycle true r s).consecutive_failures
          else s.status.consecutive_failures))
      × ((loop_cycle true r s).consecutive_failures ≡ (
          if returned r
          then (loop_cycle true r s).status.consecutive_failures
          else s.consecutive_failures + 1))
unfolding loop_cycle run_single_domain
loop_cycle-status (finished downloaded zero) s redis = ground arith
loop_cycle-status (finished downloaded (suc errors)) s redis = ground arith
loop_cycle-status timed_out s redis = ground arith
loop_cycle-status raised s redis = ground arith
