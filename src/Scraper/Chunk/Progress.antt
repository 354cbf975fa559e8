-- ===== src/Scraper/Chunk/Progress.antt =====
-- What `_handle_completion` does with a tile that was skipped because the storage circuit was open.
use data_service.Common.{ℕ, ◌<◌, ◌≡◌, String, arith, ◌||◌}
use mathlib.Core.Path.{ap₂}
use data_service.StateStore.{has_row}
use data_service.Scraper.{tile_key, storage_skipped, Tile, ScraperConfig, update_sweep_state}
use data_service.Scraper.Watermark.{lt-complete}
use data_service.StorageCircuit.{exhausted}
use data_service.Scraper.Chunk.{Sweep, count_outcome, handle_completion}
use data_service.Scraper.Chunk.Outcomes.{is_kept, advance_watermark-moves}

-- A tile skipped for the storage's sake, when it is the next one the watermark waits for, is passed
-- by: the watermark moves beyond it, though it goes neither to the bucket nor to the queue of failed
-- tiles, so that a sweep that resumes at the watermark does not reach it.
pub handle_completion-skipped :
    (cfg : ScraperConfig) (p : String) (zoom now : ℕ) (t : Tile) (w : Sweep)
    → (let idx = w.progress.watermark in
        let w' = handle_completion cfg p zoom idx t storage_skipped now w in
        (idx < w'.progress.watermark) × (is_kept p t w'.scraper ≡ is_kept p t w.scraper))
unfolding handle_completion count_outcome
handle_completion-skipped cfg p zoom now t w =
    let idx = w.progress.watermark in
    let judged = record w {
      sweep = update_sweep_state cfg (exhausted w.scraper.s3_circuit) storage_skipped t w.sweep;
    } in
    let counted = count_outcome p storage_skipped t judged in
    let (bucket, queue, mark, above, cursor) = advance_watermark-moves cfg p zoom idx now counted in
    (
      omega (arith, mark, lt-complete idx w.progress.done_above),
      ap₂ (λ b q. has_row (tile_key p t) b || has_row (tile_key p t) q) bucket queue,
    )
