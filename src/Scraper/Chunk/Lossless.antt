-- ===== src/Scraper/Chunk/Lossless.antt =====
-- Nothing that is kept is lost while a chunk runs, whichever provider it is of.
use data_service.Common.{
  ℕ, ◌≡◌, refl, ◌∙◌, ap, String, Bool, true, false, List, [], ◌∷◌, if_both, contains, arith,
}
use data_service.StateStore.{FailedTile, has_row, add_failed}
use data_service.StateStore.Laws.{has_row-add}
use data_service.StorageCircuit.{exhausted}
use data_service.BasemapConfig.{range}
use data_service.Scraper.{
  TileOutcome, ok, missing, unavailable, storage_error, storage_skipped, Tile, ScraperConfig,
  Scraper, stops, tile_key, update_sweep_state,
}
use data_service.Scraper.Tile.{TileIo, admits, finish_tile, download_and_store}
use data_service.Scraper.Chunk.{
  Sweep, Chunk, ChunkEvent, ended, taken, coord_at, count_outcome, advance_watermark,
  handle_completion, end_task, take_first, chunk_step, run_chunk, Interleaving, all_events,
  dispatched, sweep_chunk,
}
use data_service.Scraper.Chunk.Outcomes.{
  is_kept, kept_mono, finish_tile-Finishes, advance_watermark-moves,
}

-- whatever tile is kept before is kept after
abbrev pub Keeps : Scraper → Scraper → Type 0
Keeps s s' = (q : String) (t : Tile) → is_kept q t s ≡ true → is_kept q t s' ≡ true

pub Keeps-same :
    (s s' : Scraper)
    → s'.bucket ≡ s.bucket
    → ((r : FailedTile) → has_row r s.store.failed ≡ true → has_row r s'.store.failed ≡ true)
    → Keeps s s'
Keeps-same s s' same more q t h =
    kept_mono q t s s' (λ b. ap (has_row (tile_key q t)) same ∙ b) (more (tile_key q t)) h

finish_tile-Keeps :
    (cfg : ScraperConfig) (admitted : Bool) (p : String) (t : Tile) (io : TileIo) (s : Scraper)
    → Keeps s (finish_tile cfg admitted p t io s).0
unfolding finish_tile
finish_tile-Keeps cfg false p t io s q u h = h
finish_tile-Keeps cfg true p t io s q u h =
    let (same, more, stored_ok, tried) = finish_tile-Finishes cfg p t io s in
    let s' = (finish_tile cfg true p t io s).0 in
    kept_mono q u s s' (more (tile_key q u))
      (λ b. ap (λ v. has_row (tile_key q u) v.failed) same ∙ b) h

pub download_and_store-Keeps :
    (cfg : ScraperConfig) (p : String) (t : Tile) (io : TileIo) (s : Scraper)
    → Keeps s (download_and_store cfg p t io s).0
unfolding download_and_store
download_and_store-Keeps cfg p t io s = finish_tile-Keeps cfg (admits s io.asked_at) p t io s

finish_tile-stored :
    (cfg : ScraperConfig) (admitted : Bool) (p : String) (t : Tile) (io : TileIo) (s : Scraper)
    → (finish_tile cfg admitted p t io s).1 ≡ ok
    → has_row (tile_key p t) (finish_tile cfg admitted p t io s).0.bucket ≡ true
unfolding finish_tile
finish_tile-stored cfg false p t io s e = cc
finish_tile-stored cfg true p t io s e = (finish_tile-Finishes cfg p t io s).2 e

-- a tile that is reported as stored is in the bucket
pub download_and_store-stored :
    (cfg : ScraperConfig) (p : String) (t : Tile) (io : TileIo) (s : Scraper)
    → (download_and_store cfg p t io s).1 ≡ ok
    → has_row (tile_key p t) (download_and_store cfg p t io s).0.bucket ≡ true
unfolding download_and_store
download_and_store-stored cfg p t io s = finish_tile-stored cfg (admits s io.asked_at) p t io s

finish_tile-store :
    (cfg : ScraperConfig) (admitted : Bool) (p : String) (t : Tile) (io : TileIo) (s : Scraper)
    → (finish_tile cfg admitted p t io s).0.store ≡ s.store
unfolding finish_tile
finish_tile-store cfg false p t io s = refl
finish_tile-store cfg true p t io s = (finish_tile-Finishes cfg p t io s).0

-- a tile's task leaves the state store alone
pub download_and_store-store :
    (cfg : ScraperConfig) (p : String) (t : Tile) (io : TileIo) (s : Scraper)
    → (download_and_store cfg p t io s).0.store ≡ s.store
unfolding download_and_store
download_and_store-store cfg p t io s = finish_tile-store cfg (admits s io.asked_at) p t io s

queued_grows :
    (p : String) (z x y : ℕ) (s : Scraper) (r : FailedTile)
    → has_row r s.store.failed ≡ true
    → has_row r (add_failed p z x y s.store).failed ≡ true
unfolding add_failed
queued_grows p z x y s r h = ground (arith, has_row-add r (tile_key p (z, x, y)) s.store.failed)

count_outcome-Keeps :
    (p : String) (outcome : TileOutcome) (t : Tile) (w : Sweep)
    → Keeps w.scraper (count_outcome p outcome t w).scraper
unfolding count_outcome
count_outcome-Keeps p ok (z, x, y) w = λ q u h. h
count_outcome-Keeps p storage_skipped (z, x, y) w = λ q u h. h
count_outcome-Keeps p missing (z, x, y) w =
    Keeps-same w.scraper (count_outcome p missing (z, x, y) w).scraper refl
      (queued_grows p z x y w.scraper)
count_outcome-Keeps p unavailable (z, x, y) w =
    Keeps-same w.scraper (count_outcome p unavailable (z, x, y) w).scraper refl
      (queued_grows p z x y w.scraper)
count_outcome-Keeps p storage_error (z, x, y) w =
    Keeps-same w.scraper (count_outcome p storage_error (z, x, y) w).scraper refl
      (queued_grows p z x y w.scraper)

module _ (cfg : ScraperConfig) (p : String) (zoom : ℕ) (coords : List Tile) where
  handle_completion-Keeps :
      (idx : ℕ) (t : Tile) (outcome : TileOutcome) (now : ℕ) (w : Sweep)
      → Keeps w.scraper (handle_completion cfg p zoom idx t outcome now w).scraper
  unfolding handle_completion
  handle_completion-Keeps idx t outcome now w q u h =
      let judged : Sweep = record w {
        sweep = update_sweep_state cfg (exhausted w.scraper.s3_circuit) outcome t w.sweep;
      } in
      let counted = count_outcome p outcome t judged in
      let (bucket, queue, mark, above, cursor) =
        advance_watermark-moves cfg p zoom idx now counted in
      Keeps-same counted.scraper (advance_watermark cfg p zoom idx now counted).scraper bucket
        (λ r b. ap (has_row r) queue ∙ b) q u (count_outcome-Keeps p outcome t judged q u h)

  chunk_step-Keeps :
      (admitted : Bool) (e : ChunkEvent) (c : Chunk)
      → Keeps c.state.scraper (chunk_step cfg p zoom coords admitted e c).state.scraper
  unfolding chunk_step end_task take_first
  chunk_step-Keeps admitted (ended idx io) c =
      if_both (λ d. Keeps c.state.scraper d.state.scraper) (contains idx c.in_flight) _ c
        (finish_tile-Keeps cfg admitted p (coord_at coords idx) io c.state.scraper) (λ q u h. h)
  chunk_step-Keeps admitted (taken now) c = taken_Keeps c.waiting
    where
      taken_Keeps :
          (ws : List (ℕ × TileOutcome))
          → Keeps c.state.scraper (take_first cfg p zoom coords admitted now ws c).state.scraper
      taken_Keeps [] = λ q u h. h
      taken_Keeps ((idx, outcome) ∷ rest) =
          handle_completion-Keeps idx (coord_at coords idx) outcome now c.state

  run_chunk-Keeps :
      (admitted : Bool) (es : List ChunkEvent) (c : Chunk)
      → Keeps c.state.scraper (run_chunk cfg p zoom coords admitted es c).state.scraper
  unfolding run_chunk
  run_chunk-Keeps admitted [] c = λ q u h. h
  run_chunk-Keeps admitted (e ∷ es) c =
      let next = chunk_step cfg p zoom coords admitted e c in
      if_both (λ d. Keeps c.state.scraper d.state.scraper) (stops c.state.sweep) c
        (run_chunk cfg p zoom coords admitted es next) (λ q u h. h)
        (λ q u h. run_chunk-Keeps admitted es next q u (chunk_step-Keeps admitted e c q u h))

  pub sweep_chunk-Keeps :
      (chunk_start chunk_end dispatched_at : ℕ) (tasks : Interleaving) (w : Sweep)
      → Keeps w.scraper
          (sweep_chunk cfg p zoom coords chunk_start chunk_end dispatched_at tasks w).scraper
  unfolding sweep_chunk
  sweep_chunk-Keeps chunk_start chunk_end dispatched_at tasks w =
      let is = range chunk_start chunk_end in
      run_chunk-Keeps (admits w.scraper dispatched_at) (all_events tasks is) (dispatched is w)
