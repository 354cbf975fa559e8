-- ===== src/Tests/Provider.antt =====
-- Visits to one provider of a small map.
use data_service.Common.{arith, ◌<◌, length, ℕ, ◌+◌, ◌≡◌, refl, Bool, true, false, none}
use data_service.BasemapConfig.{
  BasemapProvider, xyz, iter_tiles, tile_range, lon_to_tile_x, lat_to_tile_y,
}
use data_service.StorageCircuit.{
  allows_write, is_open, in_probe_window, cooldown_remaining, exhausted,
}
use data_service.StateStore.{get_health, get_cursor, get_last_completed, list_failed}
use data_service.Scraper.{
  Scraper, new_sweep_state, compute_cooldown, update_sweep_state, note_fetch, judge,
}
use data_service.Scraper.Watermark.{complete, absorb}
use data_service.Scraper.Tile.{Fetched, store_fetched, finish_tile, admits}
use data_service.Scraper.Chunk.{
  count_outcome, advance_watermark, handle_completion, end_task, take_first, chunk_step, run_chunk,
  sweep_chunk,
}
use data_service.Scraper.Sweep.{
  ZoomResult, await_storage_cooldown, sweep_chunks, run_indexed_sweep, retry_tiles,
  retry_failed_tiles, scrape_zoom,
}
use data_service.Scraper.Provider.{
  ProviderRun, skips, trips_after, finish_sweep, scrape_zooms, sweep_provider, scrape_provider,
}
use data_service.Scraper.Provider.Gates.{waits, Kept, revisit_waits}
use data_service.Scraper.Cycle.{begin_cycle}
use data_service.Scraper.{stops}
use data_service.Scraper.Provider.{finish_tripped, record_sweep_stats}
use data_service.StateStore.{
  set_last_completed, set_scrape_stats, open_circuit, add_failed, clear_failed, set_cursor,
}
use data_service.Scraper.Chunk.{coord_at}
use data_service.Scraper.Chunk.Outcomes.{is_kept}
use data_service.Scraper.Provider.Covers.{AllBefore}
use data_service.Scraper.Provider.Visits.{scrape_provider-resumes, sweep_provider-whole}
use data_service.Scraper.Tile.{persist_to_s3, write_through_redis}
use data_service.StorageCircuit.{record_success, observe}
use data_service.Common.{some}
use data_service.Tests.Tiles.{flat, box}
use data_service.Tests.Scraping.{scraping, idle_scraper}
use data_service.Tests.Zoom.{zoom_run}

abbrev pub osm : BasemapProvider
osm = record {
  provider_id = "osm";
  name = "OpenStreetMap";
  source_url_template = "https://tile.example/{z}/{x}/{y}";
  is_tms = false;
  min_zoom = 3;
  max_zoom = 19;
  cache_max_zoom = 3;
  attribution = "";
  kind = xyz;
  wms_params = none;
  is_overlay = false;
}

-- a visit at a time where the provider and S3 answer so to each tile
abbrev pub visit : Fetched → Bool → ℕ → ProviderRun
visit fetched written now = record {
  asked_at = now;
  zooms = λ z. zoom_run fetched written;
  ended_at = now + 50;
}

-- a sweep that tripped without a download
abbrev tripped : ZoomResult
tripped = record {
  scraper = idle_scraper;
  sweep = record new_sweep_state { attempted = 3; failed = 3; tripped = true };
  ok_count = 0;
  failed_count = 3;
}

due : skips scraping "osm" 0 idle_scraper ≡ false
unfolding skips get_health get_cursor get_last_completed
due = refl

all_refused :
    (sweep_provider flat scraping box osm (visit Fetched.down true 0) idle_scraper).sweep.tripped
    ≡ true
unfolding scrape_zooms scrape_zoom run_indexed_sweep retry_failed_tiles retry_tiles list_failed
    sweep_chunks sweep_chunk run_chunk chunk_step end_task take_first handle_completion
    count_outcome advance_watermark complete absorb finish_tile store_fetched admits allows_write
    is_open in_probe_window await_storage_cooldown cooldown_remaining update_sweep_state note_fetch
    judge iter_tiles tile_range lon_to_tile_x lat_to_tile_y exhausted get_cursor
all_refused = refl

-- after a trip at 50 the cooldown lasts until 150
refused-waits :
    waits scraping
      (compute_cooldown scraping (
        trips_after
          (get_health "osm" idle_scraper.store)
          (sweep_provider flat scraping box osm (visit Fetched.down true 0) idle_scraper).ok_count))
      50
      120
      (sweep_provider flat scraping box osm (visit Fetched.down true 0) idle_scraper).sweep
    ≡ true
unfolding compute_cooldown get_health scrape_zooms scrape_zoom run_indexed_sweep retry_failed_tiles
    retry_tiles list_failed sweep_chunks sweep_chunk run_chunk chunk_step end_task take_first
    handle_completion count_outcome advance_watermark complete absorb finish_tile store_fetched
    admits allows_write is_open in_probe_window await_storage_cooldown cooldown_remaining
    update_sweep_state note_fetch judge iter_tiles tile_range lon_to_tile_x lat_to_tile_y exhausted
    get_cursor
refused-waits = refl

-- the next cycle has begun, and another provider's visit is behind it
abbrev next_cycle : Scraper
next_cycle =
    let s' = (scrape_provider flat scraping box osm (visit Fetched.down true 0) idle_scraper).0 in
    begin_cycle (record s' { store = set_last_completed "ign" 110 s'.store })

osm-Kept :
    Kept "osm"
      (scrape_provider flat scraping box osm (visit Fetched.down true 0) idle_scraper).0
      next_cycle
unfolding get_health get_cursor get_last_completed set_last_completed
osm-Kept = record { health_row = refl; cursor = refl; completion = ground arith }

revisit_waits_example :
    scrape_provider flat scraping box osm (visit Fetched.down true 120) next_cycle
    ≡ (next_cycle, 0, 0)
revisit_waits_example =
    revisit_waits flat scraping box osm (visit Fetched.down true 0) (visit Fetched.down true 120)
      idle_scraper next_cycle due refused-waits osm-Kept

-- of the second chunk, the tile that ends first trips the provider
refused-cursor :
    get_cursor "osm"
      (scrape_provider flat scraping box osm (visit Fetched.down true 0) idle_scraper).0.store
    ≡ some (record { zoom = 3; tile_index = 2 })
unfolding scrape_provider skips finish_sweep finish_tripped record_sweep_stats set_scrape_stats
    open_circuit compute_cooldown get_health get_last_completed scrape_zooms scrape_zoom
    run_indexed_sweep retry_failed_tiles retry_tiles list_failed clear_failed set_cursor add_failed
    sweep_chunks sweep_chunk run_chunk chunk_step end_task take_first handle_completion
    count_outcome advance_watermark complete absorb finish_tile store_fetched persist_to_s3
    write_through_redis record_success observe admits allows_write is_open in_probe_window
    await_storage_cooldown cooldown_remaining update_sweep_state note_fetch judge iter_tiles
    tile_range lon_to_tile_x lat_to_tile_y exhausted get_cursor
refused-cursor = refl

scrape_provider-resumes_example :
    AllBefore flat scraping box "osm" 3 0 3 2
      (scrape_provider flat scraping box osm (visit Fetched.down true 0) idle_scraper).0
unfolding get_cursor
scrape_provider-resumes_example =
    scrape_provider-resumes flat scraping box osm (visit Fetched.down true 0) idle_scraper
      (record { zoom = 3; tile_index = 2 }) (ground arith) due refused-cursor

all_stored-runs :
    stops (sweep_provider flat scraping box osm (visit Fetched.bytes true 0) idle_scraper).sweep
    ≡ false
unfolding scrape_zooms scrape_zoom run_indexed_sweep retry_failed_tiles retry_tiles list_failed
    clear_failed set_cursor add_failed sweep_chunks sweep_chunk run_chunk chunk_step end_task
    take_first handle_completion count_outcome advance_watermark complete absorb finish_tile
    store_fetched persist_to_s3 write_through_redis record_success observe admits allows_write
    is_open in_probe_window await_storage_cooldown cooldown_remaining update_sweep_state note_fetch
    judge iter_tiles tile_range lon_to_tile_x lat_to_tile_y exhausted get_cursor
all_stored-runs = refl

fifth : 4 < length (iter_tiles flat 3 box)
unfolding iter_tiles tile_range lon_to_tile_x lat_to_tile_y
fifth = ground arith

sweep_provider-whole_example :
    is_kept "osm"
      (coord_at (iter_tiles flat 3 box) 4)
      (sweep_provider flat scraping box osm (visit Fetched.bytes true 0) idle_scraper).scraper
    ≡ true
unfolding get_cursor
sweep_provider-whole_example =
    sweep_provider-whole flat scraping box osm (visit Fetched.bytes true 0) idle_scraper 3 4
      (ground arith) all_stored-runs (ground arith) (ground arith) (ground arith) fifth
