-- ===== src/Scraper/Provider.antt =====
-- `_scrape_provider`, `_finish_abandoned_sweep` and `_record_sweep_stats` of
-- src/services/basemap_scraper_service.py.
pub mod Ends
pub mod Gates
pub mod Moves
pub mod Covers
pub mod Visits
use data_service.Common.{
  ℕ, zero, suc, ◌+◌, ◌-◌, min, String, Bool, true, false, ◌&&◌, ◌||◌, Option, none, some, List, [],
  ◌∷◌, ltb, ◌==◌, if◌then◌else◌,
}
use data_service.Common.Int.{ℤ}
use data_service.StateStore.{
  Cursor, ProviderHealth, BasemapStateStore, get_health, get_cursor, get_last_completed,
  clear_cursor, clear_failed_for_provider, set_last_completed, open_circuit, close_circuit,
  set_scrape_stats,
}
use data_service.BasemapConfig.{BasemapProvider, BoundingBox, range, iter_tiles}
use data_service.Scraper.{
  ScraperConfig, ProviderSweepState, new_sweep_state, Scraper, stops, compute_cooldown,
}
use data_service.Scraper.Sweep.{ZoomRun, ZoomResult, scrape_zoom}

-- One visit to a provider, as the world runs it: `int(time.time())` at the top and at the end, and
-- the sweep of each zoom.
pub record ProviderRun : Type 0 where
  pub asked_at : ℕ
  pub zooms : ℕ → ZoomRun
  pub ended_at : ℕ

-- `_record_sweep_stats`
unfoldable pub record_sweep_stats : String → ℕ → ℕ → Bool → ℕ → Scraper → Scraper
record_sweep_stats p downloaded failed completed now s = record s {
  store = set_scrape_stats p (downloaded + failed) downloaded failed completed now s.store;
}

-- `_finish_abandoned_sweep`
unfoldable pub finish_abandoned_sweep : String → ℕ → ℕ → ℕ → Scraper → Scraper
finish_abandoned_sweep p downloaded failed now s =
    record_sweep_stats p downloaded failed false now
      (record s { storage_retry_due = true; storage_down_this_cycle = true })

-- `health.cooldown_until > now`
abbrev pub cooling : Option ProviderHealth → ℕ → Bool
cooling none now = false
cooling (some health) now = ltb now health.cooldown_until

-- `last_completed + self._sync_interval - now > 0`, which only a provider without a cursor is asked
abbrev pub not_due : ScraperConfig → Option Cursor → Option ℕ → ℕ → Bool
not_due cfg (some cursor) last now = false
not_due cfg none none now = false
not_due cfg none (some at) now = ltb now (at + cfg.sync_interval)

-- the returns of `_scrape_provider` that do no work
unfoldable pub skips : ScraperConfig → String → ℕ → Scraper → Bool
skips cfg p now s =
    s.storage_down_this_cycle
    || cooling (get_health p s.store) now
    || not_due cfg (get_cursor p s.store) (get_last_completed p s.store) now

abbrev pub prior_trips : Option ProviderHealth → ℕ
prior_trips none = 0
prior_trips (some health) = health.consecutive_trips

-- the trips that a sweep counts which has tripped
abbrev pub trips_after : Option ProviderHealth → ℕ → ℕ
trips_after health downloaded = if ltb 0 downloaded then 1 else prior_trips health + 1

-- the branch for a sweep that has tripped; `health` is that of the beginning
unfoldable pub finish_tripped :
    ScraperConfig → String → Option ProviderHealth → ℕ → ZoomResult → Scraper
finish_tripped cfg p health now r =
    let trips = trips_after health r.ok_count in
    record_sweep_stats p r.ok_count r.failed_count false now (record r.scraper {
      store =
          open_circuit p trips (now + compute_cooldown cfg trips) (cfg.render r.sweep.last_reason)
            now r.scraper.store;
    })

-- the branch for a sweep that ran to its end while some tiles could not be stored
unfoldable pub finish_incomplete : String → ℕ → ZoomResult → Scraper
finish_incomplete p now r =
    record_sweep_stats p r.ok_count r.failed_count false now
      (record r.scraper { store = clear_cursor p r.scraper.store; storage_retry_due = true })

-- the branch for a sweep that is complete
unfoldable pub finish_complete : String → ℕ → ZoomResult → Scraper
finish_complete p now r =
    record_sweep_stats p r.ok_count r.failed_count true now (record r.scraper {
      store =
          close_circuit p (
            set_last_completed p now
              (clear_failed_for_provider p (clear_cursor p r.scraper.store)));
    })

-- what follows the loop over the zooms
unfoldable pub finish_sweep :
    ScraperConfig → String → Option ProviderHealth → ℕ → ZoomResult → Scraper
finish_sweep cfg p health now r =
    if r.sweep.tripped
    then finish_tripped cfg p health now r
    else if r.sweep.storage_abandoned
    then finish_abandoned_sweep p r.ok_count r.failed_count now r.scraper
    else if ltb 0 r.sweep.storage_errors
    then finish_incomplete p now r
    else finish_complete p now r

abbrev pub zoom_start : BasemapProvider → Option Cursor → ℕ
zoom_start provider none = provider.min_zoom
zoom_start provider (some cursor) = cursor.zoom

abbrev pub index_start : Option Cursor → ℕ
index_start none = 0
index_start (some cursor) = cursor.tile_index

module _ (mercator : ℤ → ℤ) (cfg : ScraperConfig) (bbox : BoundingBox) where
  -- one turn of the loop over the zooms
  abbrev pub next_zoom : String → (ℕ → ZoomRun) → ℕ → ℕ → ℕ → ZoomResult → ZoomResult
  next_zoom p zooms first index zoom r =
      let z =
        scrape_zoom cfg p zoom (iter_tiles mercator zoom bbox) (zooms zoom)
          (if zoom == first then index else 0) r.scraper r.sweep in
      record z {
        ok_count = r.ok_count + z.ok_count;
        failed_count = r.failed_count + z.failed_count;
      }

  -- the loop over the zooms
  unfoldable pub scrape_zooms : String → (ℕ → ZoomRun) → ℕ → ℕ → List ℕ → ZoomResult → ZoomResult
  scrape_zooms p zooms first index [] r = r
  scrape_zooms p zooms first index (zoom ∷ rest) r =
      let next = next_zoom p zooms first index zoom r in
      let further = scrape_zooms p zooms first index rest next in
      if stops next.sweep then next else further

  -- the sweep of a provider, from where its cursor stands
  abbrev pub sweep_provider : BasemapProvider → ProviderRun → Scraper → ZoomResult
  sweep_provider provider run s =
      let cursor = get_cursor provider.provider_id s.store in
      let first = zoom_start provider cursor in
      let max_zoom = min provider.cache_max_zoom cfg.cache_max_zoom in
      scrape_zooms provider.provider_id run.zooms first (index_start cursor)
        (range first (max_zoom + 1))
        (record { scraper = s; sweep = new_sweep_state; ok_count = 0; failed_count = 0 })

  -- the service after the visit, the tiles downloaded and the tiles failed
  unfoldable pub scrape_provider : BasemapProvider → ProviderRun → Scraper → Scraper × ℕ × ℕ
  scrape_provider provider run s =
      let p = provider.provider_id in
      let done = sweep_provider provider run s in
      if skips cfg p run.asked_at s then (s, 0, 0) else (
        finish_sweep cfg p (get_health p s.store) run.ended_at done,
        done.ok_count,
        done.failed_count,
      )
