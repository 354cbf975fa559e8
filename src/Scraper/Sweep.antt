-- ===== src/Scraper/Sweep.antt =====
-- `_run_indexed_sweep`, `_await_storage_cooldown`, `_retry_failed_tiles` and `_scrape_zoom` of
-- src/services/basemap_scraper_service.py.
pub mod Whole
pub mod Safe
pub mod Loops
pub mod Lossless
use data_service.Common.{
  ℕ, zero, suc, ◌+◌, ◌-◌, min, max, String, Bool, true, false, ◌&&◌, ◌||◌, Option, none, some, List,
  [], ◌∷◌, ◌++◌, ltb, leb, ◌==◌, if◌then◌else◌, length,
}
use data_service.StorageCircuit.{StorageCircuit, cooldown_remaining, exhausted}
use data_service.StateStore.{set_cursor, remove_failed, list_failed, clear_failed}
use data_service.Scraper.{
  TileOutcome, ok, missing, unavailable, storage_error, storage_skipped, Tile, ScraperConfig,
  ProviderSweepState, Scraper, stops, update_sweep_state,
}
use data_service.Scraper.Tile.{TileIo, download_and_store}
use data_service.Scraper.Chunk.{SweepProgress, Sweep, Interleaving, sweep_chunk}

-- One chunk, as the world runs it: when the loop comes to it, by how much the timer of a sleep that
-- begins at a time fires early, and how its tasks go.
pub record ChunkRun : Type 0 where
  pub arrived_at : ℕ
  pub early : ℕ → ℕ
  pub tasks : Interleaving

-- One zoom of a sweep: the answers to the retried tiles, in order, when the sweep of the zoom begins,
-- and its chunks, in order.
pub record ZoomRun : Type 0 where
  pub retries : ℕ → TileIo
  pub started_at : ℕ
  pub chunks : ℕ → ChunkRun

-- `_await_storage_cooldown`: the time at which it returns. A sleep takes at least one tick.
unfoldable pub await_storage_cooldown : (ℕ → ℕ) → ℕ → StorageCircuit → ℕ → ℕ
await_storage_cooldown early zero c now = now
await_storage_cooldown early (suc fuel) c now =
    let rest =
      await_storage_cooldown early fuel c (now + max 1 (cooldown_remaining c now - early now)) in
    if cooldown_remaining c now == 0 then now else rest

-- the time at which the tasks of a chunk are dispatched; the wait itself is enough fuel
abbrev pub dispatched_at : ChunkRun → StorageCircuit → ℕ
dispatched_at run c =
    await_storage_cooldown run.early (suc (cooldown_remaining c run.arrived_at)) c run.arrived_at

-- the loop over `range(resume_index, total, self._fanout_window)`, on fuel
unfoldable pub sweep_chunks :
    ScraperConfig → String → ℕ → List Tile → (ℕ → ChunkRun) → ℕ → ℕ → ℕ → Sweep → Sweep
sweep_chunks cfg p zoom coords chunks zero k start w = w
sweep_chunks cfg p zoom coords chunks (suc fuel) k start w =
    let next =
      sweep_chunk cfg p zoom coords start (min (start + cfg.fanout_window) (length coords))
        (dispatched_at (chunks k) w.scraper.s3_circuit) (chunks k).tasks w in
    let rest =
      sweep_chunks cfg p zoom coords chunks fuel (k + 1) (start + cfg.fanout_window) next in
    if leb (length coords) start
    then w
    else if w.sweep.storage_abandoned
    then w
    else if stops next.sweep
    then next
    else rest

-- what a zoom's sweep returns, beside the state
pub record ZoomResult : Type 0 where
  pub scraper : Scraper
  pub sweep : ProviderSweepState
  pub ok_count : ℕ
  pub failed_count : ℕ

-- `_SweepProgress` at the start
abbrev pub new_progress : ℕ → ℕ → ℕ → SweepProgress
new_progress total resume_index start = record {
  total = total;
  resume_index = resume_index;
  watermark = resume_index;
  last_flushed = resume_index;
  last_flush_time = start;
  ok_count = 0;
  failed_count = 0;
  processed = 0;
  done_above = [];
}

-- the `finally` of `_run_indexed_sweep`
abbrev pub final_cursor : String → ℕ → ℕ → Sweep → Scraper
final_cursor p zoom total w = record w.scraper {
  store =
      if leb total w.progress.watermark
      then set_cursor p (zoom + 1) 0 w.scraper.store
      else set_cursor p zoom w.progress.watermark w.scraper.store;
}

abbrev pub swept :
    ScraperConfig → String → ℕ → List Tile → ZoomRun → ℕ → Scraper → ProviderSweepState → Sweep
swept cfg p zoom coords run resume_index s w =
    sweep_chunks cfg p zoom coords run.chunks (length coords - resume_index) 0 resume_index
      (record {
        scraper = s;
        sweep = w;
        progress = new_progress (length coords) resume_index run.started_at;
      })

unfoldable pub run_indexed_sweep :
    ScraperConfig → String → ℕ → List Tile → ZoomRun → ℕ → Scraper → ProviderSweepState → ZoomResult
run_indexed_sweep cfg p zoom coords run resume_index s w =
    if leb (length coords) resume_index
    then record {
      scraper = record s { store = set_cursor p (zoom + 1) 0 s.store };
      sweep = w;
      ok_count = 0;
      failed_count = 0;
    }
    else let done = swept cfg p zoom coords run resume_index s w in
      record {
        scraper = final_cursor p zoom (length coords) done;
        sweep = done.sweep;
        ok_count = done.progress.ok_count;
        failed_count = done.progress.failed_count;
      }

-- the body of the loop of `_retry_failed_tiles`, for one tile and its outcome
abbrev pub retried : ScraperConfig → String → Tile → Scraper × TileOutcome → ZoomResult → ZoomResult
retried cfg p (z, x, y) (s, ok) r = record r {
  scraper = record s { store = remove_failed p z x y s.store };
  sweep = update_sweep_state cfg (exhausted s.s3_circuit) ok (z, x, y) r.sweep;
  ok_count = r.ok_count + 1;
}
retried cfg p (z, x, y) (s, outcome) r = record r {
  scraper = s;
  sweep = update_sweep_state cfg (exhausted s.s3_circuit) outcome (z, x, y) r.sweep;
  failed_count = r.failed_count + 1;
}

-- the loop of `_retry_failed_tiles`; `k` counts the tiles
unfoldable pub retry_tiles :
    ScraperConfig → String → ℕ → (ℕ → TileIo) → ℕ → List (ℕ × ℕ) → ZoomResult → ZoomResult
retry_tiles cfg p zoom ios k [] r = r
retry_tiles cfg p zoom ios k ((x, y) ∷ tiles) r =
    let next =
      retried cfg p (zoom, x, y) (download_and_store cfg p (zoom, x, y) (ios k) r.scraper) r in
    let rest = retry_tiles cfg p zoom ios (k + 1) tiles next in
    if stops next.sweep then next else rest

unfoldable pub retry_failed_tiles :
    ScraperConfig → String → ℕ → ZoomRun → Scraper → ProviderSweepState → ZoomResult
retry_failed_tiles cfg p zoom run s w =
    retry_tiles cfg p zoom run.retries 0 (list_failed p zoom s.store)
      (record { scraper = s; sweep = w; ok_count = 0; failed_count = 0 })

-- `if not remaining: clear_failed(…)` at the end of `_scrape_zoom`
abbrev pub end_of_zoom : String → ℕ → List (ℕ × ℕ) → Scraper → Scraper
end_of_zoom p zoom [] s = record s { store = clear_failed p zoom s.store }
end_of_zoom p zoom (t ∷ ts) s = s

-- `_scrape_zoom`, given the tiles of `iter_tiles`
unfoldable pub scrape_zoom :
    ScraperConfig → String → ℕ → List Tile → ZoomRun → ℕ → Scraper → ProviderSweepState → ZoomResult
scrape_zoom cfg p zoom coords run resume_index s w =
    let r = retry_failed_tiles cfg p zoom run s w in
    let m = run_indexed_sweep cfg p zoom coords run resume_index r.scraper r.sweep in
    if stops r.sweep then r else record {
      scraper = end_of_zoom p zoom (list_failed p zoom m.scraper.store) m.scraper;
      sweep = m.sweep;
      ok_count = r.ok_count + m.ok_count;
      failed_count = r.failed_count + m.failed_count;
    }
