-- ===== src/Scraper/Provider/Moves.antt =====
-- Where the sweep of a zoom, its retries included, leaves the cursor, and what it has handled by then.
use data_service.Common.{
  ℕ, ◌+◌, ◌≤◌, ◌<◌, ◌≡◌, refl, ◌∙◌, ap, sym, String, true, leb, some, List, [], ◌∷◌, if_both,
  if_split, length, arith, Bool-cases, inl, inr,
}
use data_service.StateStore.{get_cursor, remove_failed, list_failed, clear_failed}
use data_service.Scraper.{
  TileOutcome, ok, missing, unavailable, storage_error, storage_skipped, Tile, ScraperConfig,
  ProviderSweepState, Scraper, stops,
}
use data_service.Scraper.Tile.{TileIo, download_and_store}
use data_service.Scraper.Chunk.{coord_at}
use data_service.Scraper.Chunk.Outcomes.{is_kept}
use data_service.Scraper.Chunk.Lossless.{Keeps, download_and_store-store}
use data_service.Scraper.Sweep.{
  ZoomRun, ZoomResult, run_indexed_sweep, retried, retry_tiles, retry_failed_tiles, end_of_zoom,
  scrape_zoom,
}
use data_service.Scraper.Sweep.Safe.{run_indexed_sweep-Resumable, run_indexed_sweep-whole}
use data_service.Scraper.Sweep.Lossless.{end_of_zoom-Keeps}

module _ (cfg : ScraperConfig) (p : String) where
  cursor-retried :
      (t : Tile) (s : Scraper) (outcome : TileOutcome) (r : ZoomResult)
      → (retried cfg p t (s, outcome) r).scraper.store.cursor ≡ s.store.cursor
  unfolding remove_failed
  cursor-retried (z, x, y) s ok r = refl
  cursor-retried t s missing r = refl
  cursor-retried t s unavailable r = refl
  cursor-retried t s storage_error r = refl
  cursor-retried t s storage_skipped r = refl

  cursor-retry_tiles :
      (zoom : ℕ) (ios : ℕ → TileIo) (k : ℕ) (tiles : List (ℕ × ℕ)) (r : ZoomResult)
      → (retry_tiles cfg p zoom ios k tiles r).scraper.store.cursor ≡ r.scraper.store.cursor
  unfolding retry_tiles
  cursor-retry_tiles zoom ios k [] r = refl
  cursor-retry_tiles zoom ios k ((x, y) ∷ tiles) r =
      let t : Tile = (zoom, x, y) in
      let (s, outcome) = download_and_store cfg p t (ios k) r.scraper in
      let next = retried cfg p t (download_and_store cfg p t (ios k) r.scraper) r in
      let once : next.scraper.store.cursor ≡ r.scraper.store.cursor =
        cursor-retried t s outcome r
        ∙ ap (λ v. v.cursor) (download_and_store-store cfg p t (ios k) r.scraper) in
      if_both (λ (v : ZoomResult). v.scraper.store.cursor ≡ r.scraper.store.cursor)
        (stops next.sweep) next _ once (cursor-retry_tiles zoom ios (k + 1) tiles next ∙ once)

  cursor-end_of_zoom :
      (zoom : ℕ) (tiles : List (ℕ × ℕ)) (s : Scraper)
      → get_cursor p (end_of_zoom p zoom tiles s).store ≡ get_cursor p s.store
  unfolding get_cursor clear_failed
  cursor-end_of_zoom zoom [] s = refl
  cursor-end_of_zoom zoom (t ∷ tiles) s = refl

  -- Where the sweep of a zoom leaves the cursor, and what it has handled by then: it stopped among the
  -- retries, it stopped at an index, or it went through the zoom.
  pub data Moved (zoom resume : ℕ) (coords : List Tile) (s : Scraper) (v : ZoomResult)
      : Type 0 where
    stayed :
        get_cursor p v.scraper.store ≡ get_cursor p s.store
        → stops v.sweep ≡ true
        → Moved zoom resume coords s v
    stopped :
        (reached : ℕ)
        → get_cursor p v.scraper.store ≡ some (record { zoom = zoom; tile_index = reached })
        → stops v.sweep ≡ true
        → ((i : ℕ) → resume ≤ i → i < reached → is_kept p (coord_at coords i) v.scraper ≡ true)
        → Moved zoom resume coords s v
    passed :
        get_cursor p v.scraper.store ≡ some (record { zoom = zoom + 1; tile_index = 0 })
        → ((i : ℕ)
            → resume ≤ i
            → i < length coords
            → is_kept p (coord_at coords i) v.scraper ≡ true)
        → Moved zoom resume coords s v

  Moved-later :
      (zoom resume : ℕ) (coords : List Tile) (s s' : Scraper) (v v' : ZoomResult)
      → get_cursor p v'.scraper.store ≡ get_cursor p v.scraper.store
      → v'.sweep ≡ v.sweep
      → Keeps v.scraper v'.scraper
      → get_cursor p s'.store ≡ get_cursor p s.store
      → Moved zoom resume coords s' v
      → Moved zoom resume coords s v'
  Moved-later zoom resume coords s s' v v' c w k c' (stayed a b) =
      stayed (c ∙ a ∙ c') (ap stops w ∙ b)
  Moved-later zoom resume coords s s' v v' c w k c' (stopped reached a b f) =
      stopped reached (c ∙ a) (ap stops w ∙ b) (λ i x y. k p (coord_at coords i) (f i x y))
  Moved-later zoom resume coords s s' v v' c w k c' (passed a f) =
      passed (c ∙ a) (λ i x y. k p (coord_at coords i) (f i x y))

  run_indexed_sweep-Moved :
      (zoom resume : ℕ) (coords : List Tile) (run : ZoomRun) (s : Scraper) (w : ProviderSweepState)
      → 0 < cfg.fanout_window
      → ((i : ℕ)
          → get_cursor p s.store ≡ some (record { zoom = zoom; tile_index = i })
          → i ≤ resume)
      → Moved zoom resume coords s (run_indexed_sweep cfg p zoom coords run resume s w)
  run_indexed_sweep-Moved zoom resume coords run s w h behind =
      let m = run_indexed_sweep cfg p zoom coords run resume s w in
      let r = run_indexed_sweep-Resumable cfg p zoom coords run resume s w behind in
      elim (Bool-cases (stops m.sweep)) [
        | inr on ↦
            let (cursor, kept) =
              run_indexed_sweep-whole cfg p zoom coords run resume s w h behind on in
            passed cursor kept
        | inl stop ↦ elim (Bool-cases (leb (length coords) r.reached)) [
          | inl all ↦ passed (r.cursor ∙ rw all refl) (λ i a b. r.kept i a (ground arith))
          | inr part ↦ stopped r.reached (r.cursor ∙ rw part refl) stop r.kept
        ]
      ]

  pub scrape_zoom-Moved :
      (zoom resume : ℕ) (coords : List Tile) (run : ZoomRun) (s : Scraper) (w : ProviderSweepState)
      → 0 < cfg.fanout_window
      → ((i : ℕ)
          → get_cursor p s.store ≡ some (record { zoom = zoom; tile_index = i })
          → i ≤ resume)
      → Moved zoom resume coords s (scrape_zoom cfg p zoom coords run resume s w)
  unfolding scrape_zoom retry_failed_tiles
  scrape_zoom-Moved zoom resume coords run s w h behind =
      let begun : ZoomResult = record { scraper = s; sweep = w; ok_count = 0; failed_count = 0 } in
      let r = retry_failed_tiles cfg p zoom run s w in
      let m = run_indexed_sweep cfg p zoom coords run resume r.scraper r.sweep in
      let left = list_failed p zoom m.scraper.store in
      let same : get_cursor p r.scraper.store ≡ get_cursor p s.store =
        unfold get_cursor in
        ap (λ f. f p) (cursor-retry_tiles zoom run.retries 0 (list_failed p zoom s.store) begun) in
      let moved =
        run_indexed_sweep-Moved zoom resume coords run r.scraper r.sweep h
          (λ i e. behind i (sym same ∙ e)) in
      if_split (Moved zoom resume coords s) (stops r.sweep) r _ (λ stop. stayed same stop)
        (λ on.
          Moved-later zoom resume coords s r.scraper m _ (cursor-end_of_zoom zoom left m.scraper)
            refl (end_of_zoom-Keeps cfg p zoom left m.scraper refl) same moved)
