-- ===== src/Scraper/Sweep/Lossless.antt =====
-- Nothing that is kept is lost by the sweep of a zoom, its retries included.
use data_service.Common.{
  ℕ, zero, suc, ◌+◌, ◌-◌, ◌≡◌, refl, ◌∙◌, ap, sym, String, true, false, List, [], ◌∷◌, if_both, min,
  length, leb, arith, Bool-cases, inl, inr, eq_iff,
}
use mathlib.Core.Path.{ap₂}
use data_service.StateStore.{
  FailedTile, has_row, same_tile, in_zoom, set_cursor, remove_failed, list_failed,
}
use data_service.StateStore.Laws.{queue_is_set, list_failed-queued, lists, same_tile_eq}
use data_service.Scraper.{
  TileOutcome, ok, missing, unavailable, storage_error, storage_skipped, Tile, ScraperConfig,
  ProviderSweepState, Scraper, stops, tile_key,
}
use data_service.Scraper.Tile.{TileIo, download_and_store}
use data_service.Scraper.Chunk.{Sweep, sweep_chunk}
use data_service.Scraper.Chunk.Lossless.{
  Keeps, download_and_store-Keeps, download_and_store-stored, sweep_chunk-Keeps,
}
use data_service.Scraper.Sweep.{
  ChunkRun, ZoomRun, ZoomResult, sweep_chunks, dispatched_at, run_indexed_sweep, swept,
  new_progress, retried, retry_tiles, retry_failed_tiles, end_of_zoom, scrape_zoom,
}
use data_service.Scraper.Sweep.Safe.{final_cursor_keeps}

sweep_chunks-Keeps :
    (cfg : ScraperConfig) (p : String) (zoom : ℕ) (coords : List Tile) (chunks : ℕ → ChunkRun)
    (fuel k start : ℕ) (w : Sweep)
    → Keeps w.scraper (sweep_chunks cfg p zoom coords chunks fuel k start w).scraper
unfolding sweep_chunks
sweep_chunks-Keeps cfg p zoom coords chunks zero k start w = λ q t h. h
sweep_chunks-Keeps cfg p zoom coords chunks (suc fuel) k start w =
    let at = dispatched_at (chunks k) w.scraper.s3_circuit in
    let end = min (start + cfg.fanout_window) (length coords) in
    let next = sweep_chunk cfg p zoom coords start end at (chunks k).tasks w in
    let once = sweep_chunk-Keeps cfg p zoom coords start end at (chunks k).tasks w in
    let rest =
      sweep_chunks cfg p zoom coords chunks fuel (k + 1) (start + cfg.fanout_window) next in
    let more =
      sweep_chunks-Keeps cfg p zoom coords chunks fuel (k + 1) (start + cfg.fanout_window) next in
    let kept : Sweep → Type 0 = λ v. Keeps w.scraper v.scraper in
    if_both kept (leb (length coords) start) w _ (λ q t h. h)
      (if_both kept w.sweep.storage_abandoned w _ (λ q t h. h)
        (if_both kept (stops next.sweep) next rest once (λ q t h. more q t (once q t h))))

run_indexed_sweep-Keeps :
    (cfg : ScraperConfig) (p : String) (zoom : ℕ) (coords : List Tile) (run : ZoomRun)
    (resume_index : ℕ) (s : Scraper) (w : ProviderSweepState)
    → Keeps s (run_indexed_sweep cfg p zoom coords run resume_index s w).scraper
unfolding run_indexed_sweep set_cursor
run_indexed_sweep-Keeps cfg p zoom coords run resume_index s w =
    let start : Sweep = record {
      scraper = s;
      sweep = w;
      progress = new_progress (length coords) resume_index run.started_at;
    } in
    let done = swept cfg p zoom coords run resume_index s w in
    if_both (λ (r : ZoomResult). Keeps s r.scraper) (leb (length coords) resume_index) _ _
      (λ q t h. h)
      (λ q t h.
        final_cursor_keeps p q zoom (length coords) t done
        ∙ sweep_chunks-Keeps cfg p zoom coords run.chunks (length coords - resume_index) 0
            resume_index start q t h)

-- a tile in the bucket may leave the queue
dequeued-Keeps :
    (p : String) (z x y : ℕ) (s : Scraper)
    → has_row (tile_key p (z, x, y)) s.bucket ≡ true
    → Keeps s (record s { store = remove_failed p z x y s.store })
dequeued-Keeps p z x y s stored q t h =
    let row : FailedTile = tile_key p (z, x, y) in
    let removed = (queue_is_set p z x y (tile_key q t) s.store).1 in
    elim (Bool-cases (same_tile (tile_key q t) row)) [
      | inl same ↦
          ground (arith, ap (λ k. has_row k s.bucket) (same_tile_eq (tile_key q t) row same))
      | inr other ↦ ground (arith, removed)
    ]

module _ (cfg : ScraperConfig) (p : String) where
  retried-Keeps :
      (t : Tile) (s : Scraper) (outcome : TileOutcome) (r : ZoomResult)
      → (outcome ≡ ok → has_row (tile_key p t) s.bucket ≡ true)
      → Keeps s (retried cfg p t (s, outcome) r).scraper
  retried-Keeps (z, x, y) s ok r stored = dequeued-Keeps p z x y s (stored refl)
  retried-Keeps t s missing r stored = λ q u h. h
  retried-Keeps t s unavailable r stored = λ q u h. h
  retried-Keeps t s storage_error r stored = λ q u h. h
  retried-Keeps t s storage_skipped r stored = λ q u h. h

  retry_tiles-Keeps :
      (zoom : ℕ) (ios : ℕ → TileIo) (k : ℕ) (tiles : List (ℕ × ℕ)) (r : ZoomResult)
      → Keeps r.scraper (retry_tiles cfg p zoom ios k tiles r).scraper
  unfolding retry_tiles
  retry_tiles-Keeps zoom ios k [] r = λ q t h. h
  retry_tiles-Keeps zoom ios k ((x, y) ∷ tiles) r =
      let t : Tile = (zoom, x, y) in
      let (s, outcome) = download_and_store cfg p t (ios k) r.scraper in
      let next = retried cfg p t (download_and_store cfg p t (ios k) r.scraper) r in
      let once : Keeps r.scraper next.scraper = λ q u h.
        retried-Keeps t s outcome r (download_and_store-stored cfg p t (ios k) r.scraper) q u
          (download_and_store-Keeps cfg p t (ios k) r.scraper q u h) in
      if_both (λ (v : ZoomResult). Keeps r.scraper v.scraper) (stops next.sweep) next _ once
        (λ q u h. retry_tiles-Keeps zoom ios (k + 1) tiles next q u (once q u h))

  pub end_of_zoom-Keeps :
      (zoom : ℕ) (tiles : List (ℕ × ℕ)) (s : Scraper)
      → list_failed p zoom s.store ≡ tiles
      → Keeps s (end_of_zoom p zoom tiles s)
  end_of_zoom-Keeps zoom (tile ∷ tiles) s e = λ q t h. h
  end_of_zoom-Keeps zoom [] s e = λ q (z, x, y) h.
      let none_left : has_row (tile_key p (zoom, x, y)) s.store.failed ≡ false =
        sym (list_failed-queued p zoom x y s.store) ∙ ap (lists x y) e in
      let cleared = (queue_is_set p zoom 0 0 (tile_key q (z, x, y)) s.store).2 in
      elim (Bool-cases (in_zoom p zoom (tile_key q (z, x, y)))) [
        | inr other ↦ ground (arith, cleared)
        | inl same ↦
            let eq : q ≡ p = ground (arith, eq_iff q p) in
            let ez : z ≡ zoom = ground arith in
            let absent : has_row (tile_key q (z, x, y)) s.store.failed ≡ false =
              ap₂ (λ a b. has_row (tile_key a (b, x, y)) s.store.failed) eq ez ∙ none_left in
            ground (arith, absent)
      ]

  -- The sweep of a zoom, with its retries at the start and its clean-up at the end, loses no tile that
  -- was in the bucket or in the queue of failed tiles before it, of this or another provider.
  pub scrape_zoom-Keeps :
      (zoom : ℕ) (coords : List Tile) (run : ZoomRun) (resume_index : ℕ) (s : Scraper)
      (w : ProviderSweepState)
      → Keeps s (scrape_zoom cfg p zoom coords run resume_index s w).scraper
  unfolding scrape_zoom retry_failed_tiles
  scrape_zoom-Keeps zoom coords run resume_index s w =
      let r = retry_failed_tiles cfg p zoom run s w in
      let m = run_indexed_sweep cfg p zoom coords run resume_index r.scraper r.sweep in
      let begun : ZoomResult = record { scraper = s; sweep = w; ok_count = 0; failed_count = 0 } in
      let retries : Keeps s r.scraper =
        retry_tiles-Keeps zoom run.retries 0 (list_failed p zoom s.store) begun in
      let swept_on = run_indexed_sweep-Keeps cfg p zoom coords run resume_index r.scraper r.sweep in
      let cleaned = end_of_zoom-Keeps zoom (list_failed p zoom m.scraper.store) m.scraper refl in
      if_both (λ (v : ZoomResult). Keeps s v.scraper) (stops r.sweep) r _ retries
        (λ q t h. cleaned q t (swept_on q t (retries q t h)))
