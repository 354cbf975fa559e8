-- ===== src/Scraper/Provider/Gates.antt =====
-- When a provider is left alone after a visit.
use data_service.Common.{
  ℕ, ◌+◌, ◌≡◌, refl, String, Bool, true, false, ◌&&◌, ltb, if◌then◌else◌, arith,
}
use data_service.Common.Int.{ℤ}
use mathlib.Core.Path.{subst}
use data_service.StateStore.{get_health, get_cursor, get_last_completed}
use data_service.BasemapConfig.{BasemapProvider, BoundingBox}
use data_service.Scraper.{ScraperConfig, ProviderSweepState, Scraper, compute_cooldown}
use data_service.Scraper.Sweep.{ZoomResult}
use data_service.Scraper.Provider.{
  ProviderRun, skips, trips_after, finish_sweep, sweep_provider, scrape_provider,
}
use data_service.Scraper.Provider.Ends.{Ended, is_clean, finish_sweep-Ended}

-- For a sweep that ended at `now`, whether its outcome holds back a visit at `later`.
abbrev pub waits : ScraperConfig → ℕ → ℕ → ℕ → ProviderSweepState → Bool
waits cfg cooldown now later w =
    if w.tripped
    then ltb later (now + cooldown)
    else (is_clean w && ltb later (now + cfg.sync_interval))

-- What the service holds about a provider is the same in both, whatever else differs.
pub record Kept (p : String) (s s' : Scraper) : Type 0 where
  pub health_row : get_health p s'.store ≡ get_health p s.store
  pub cursor : get_cursor p s'.store ≡ get_cursor p s.store
  pub completion : get_last_completed p s'.store ≡ get_last_completed p s.store

waits-skips :
    (cfg : ScraperConfig) (p : String) (s left s' : Scraper) (now later : ℕ) (r : ZoomResult)
    → Ended cfg p (get_health p s.store) now r left
    → Kept p left s'
    → waits cfg
        (compute_cooldown cfg (trips_after (get_health p s.store) r.ok_count))
        now
        later
        r.sweep
      ≡ true
    → skips cfg p later s' ≡ true
unfolding skips
waits-skips cfg p s left s' now later r e kept h =
    rw (kept.health_row, kept.cursor, kept.completion, e.health_row, e.cursor, e.completion)
      (ground arith)

module _ (mercator : ℤ → ℤ) (cfg : ScraperConfig) (bbox : BoundingBox) where
  pub skipped :
      (provider : BasemapProvider) (run : ProviderRun) (s : Scraper)
      → skips cfg provider.provider_id run.asked_at s ≡ true
      → scrape_provider mercator cfg bbox provider run s ≡ (s, 0, 0)
  unfolding scrape_provider
  skipped provider run s h = rw h refl

  pub visited :
      (provider : BasemapProvider) (run : ProviderRun) (s : Scraper)
      → skips cfg provider.provider_id run.asked_at s ≡ false
      → (scrape_provider mercator cfg bbox provider run s).0
        ≡ finish_sweep cfg provider.provider_id
            (get_health provider.provider_id s.store)
            run.ended_at
            (sweep_provider mercator cfg bbox provider run s)
  unfolding scrape_provider
  visited provider run s h = rw h refl

  -- A visit that does work is followed by a pause: whatever happens to the rest of the service until
  -- then, in this cycle or the next ones, a visit that finds the provider's health row, cursor and
  -- completion as the first one left them changes nothing and reports no tile, if the first one's
  -- sweep tripped and the cooldown for its trips is not over, or if it was clean and the interval
  -- from its completion is not over.
  pub revisit_waits :
      (provider : BasemapProvider) (run again : ProviderRun) (s s' : Scraper)
      → skips cfg provider.provider_id run.asked_at s ≡ false
      → waits cfg
          (compute_cooldown cfg (
            trips_after
              (get_health provider.provider_id s.store)
              (sweep_provider mercator cfg bbox provider run s).ok_count))
          run.ended_at
          again.asked_at
          (sweep_provider mercator cfg bbox provider run s).sweep
        ≡ true
      → Kept provider.provider_id (scrape_provider mercator cfg bbox provider run s).0 s'
      → scrape_provider mercator cfg bbox provider again s' ≡ (s', 0, 0)
  revisit_waits provider run again s s' works h kept =
      let p = provider.provider_id in
      let r = sweep_provider mercator cfg bbox provider run s in
      let ended = finish_sweep-Ended cfg p (get_health p s.store) run.ended_at r in
      let left = finish_sweep cfg p (get_health p s.store) run.ended_at r in
      let kept' = subst (λ t. Kept p t s') (visited provider run s works) kept in
      skipped provider again s'
        (waits-skips cfg p s left s' run.ended_at again.asked_at r ended kept' h)
