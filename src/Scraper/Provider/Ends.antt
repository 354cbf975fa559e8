-- ===== src/Scraper/Provider/Ends.antt =====
-- How a visit to a provider ends, on each of its four ways out.
use data_service.Common.{
  ℕ, ◌+◌, ◌≡◌, String, Bool, false, not, ◌&&◌, ◌||◌, Option, none, some, ltb, if◌then◌else◌, str_eq,
  arith,
}
use text.Mathlib.TextPositions.{eq_refl}
use data_service.StateStore.{
  ProviderHealth, FailedTile, has_row, get_cursor, get_health, get_last_completed, clear_cursor,
  clear_failed_for_provider, set_last_completed, open_circuit, close_circuit, set_scrape_stats,
}
use data_service.StateStore.Laws.{queue_is_set}
use data_service.Scraper.{ScraperConfig, ProviderSweepState, Scraper, stops, compute_cooldown}
use data_service.Scraper.Sweep.{ZoomResult}
use data_service.Scraper.Provider.{
  trips_after, record_sweep_stats, finish_abandoned_sweep, finish_tripped, finish_incomplete,
  finish_complete, finish_sweep,
}

-- The sweep went through all tiles, and the storage took each tile that there was.
abbrev pub is_clean : ProviderSweepState → Bool
is_clean w = not w.tripped && not w.storage_abandoned && not (ltb 0 w.storage_errors)

-- What the visit leaves of the provider, by how its sweep went.
pub record Ended (cfg : ScraperConfig) (p : String) (health : Option ProviderHealth) (now : ℕ)
    (r : ZoomResult) (s : Scraper) : Type 0 where
  pub completion :
      get_last_completed p s.store
      ≡ (if is_clean r.sweep then some now else get_last_completed p r.scraper.store)
  pub cursor : get_cursor p s.store ≡ (if stops r.sweep then get_cursor p r.scraper.store else none)
  pub health_row : get_health p s.store ≡ (
      if r.sweep.tripped
      then some (record {
        consecutive_trips = trips_after health r.ok_count;
        cooldown_until = now + compute_cooldown cfg (trips_after health r.ok_count);
        last_tripped_at = now;
        last_reason = cfg.render r.sweep.last_reason;
      })
      else if is_clean r.sweep
      then none
      else get_health p r.scraper.store)
  pub queue :
      (t : FailedTile)
      → has_row t s.store.failed ≡ (
          if is_clean r.sweep && str_eq t.provider_id p
          then false
          else has_row t r.scraper.store.failed)
  pub bucket : s.bucket ≡ r.scraper.bucket
  pub retry_due :
      s.storage_retry_due
      ≡ (r.scraper.storage_retry_due || (not r.sweep.tripped && not (is_clean r.sweep)))
  pub storage_down :
      s.storage_down_this_cycle
      ≡ (r.scraper.storage_down_this_cycle || (not r.sweep.tripped && r.sweep.storage_abandoned))

pub finish_sweep-Ended :
    (cfg : ScraperConfig) (p : String) (health : Option ProviderHealth) (now : ℕ) (r : ZoomResult)
    → Ended cfg p health now r (finish_sweep cfg p health now r)
unfolding finish_sweep finish_tripped finish_abandoned_sweep finish_incomplete finish_complete
    record_sweep_stats get_cursor get_health get_last_completed clear_cursor
    clear_failed_for_provider set_last_completed open_circuit close_circuit set_scrape_stats
finish_sweep-Ended cfg p health now r = record {
  completion = ground (arith, eq_refl p);
  cursor = ground (arith, eq_refl p);
  health_row = ground (arith, eq_refl p);
  queue = λ t. ground (arith, (queue_is_set p 0 0 0 t r.scraper.store).3);
  bucket = ground arith;
  retry_due = ground arith;
  storage_down = ground arith;
}
