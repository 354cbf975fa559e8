-- ===== src/Scraper/Provider/Visits.antt =====
-- What a visit to a provider promises the next one, and what a complete sweep has done.
use data_service.Common.{
  ℕ, ◌+◌, ◌-◌, ◌≤◌, ◌<◌, ◌≡◌, refl, ◌∙◌, ap, sym, String, true, false, min, Option, none, some,
  length, arith, Bool-cases, inl, inr,
}
use data_service.Common.Int.{ℤ}
use data_service.StateStore.{Cursor, get_cursor, get_health, has_row}
use data_service.BasemapConfig.{BasemapProvider, BoundingBox, iter_tiles}
use data_service.Scraper.{Tile, ScraperConfig, Scraper, stops, tile_key, new_sweep_state}
use data_service.Scraper.Chunk.{coord_at}
use data_service.Scraper.Chunk.Outcomes.{is_kept}
use data_service.Scraper.Sweep.{ZoomResult}
use data_service.Scraper.Provider.{
  ProviderRun, skips, zoom_start, index_start, finish_sweep, sweep_provider, scrape_provider,
}
use data_service.Scraper.Provider.Ends.{Ended, is_clean, finish_sweep-Ended}
use data_service.Scraper.Provider.Covers.{from, AllBefore, AtZoom, Covers, scrape_zooms-Covers}
use data_service.Scraper.Provider.Gates.{visited}

-- bookkeeping after a sweep that stopped early keeps what was kept
bookkeeping_keeps :
    (cfg : ScraperConfig) (p : String) (now : ℕ) (r : ZoomResult) (s s' : Scraper) (q : String)
    (t : Tile)
    → Ended cfg p (get_health p s.store) now r s'
    → stops r.sweep ≡ true
    → is_kept q t r.scraper ≡ true
    → is_kept q t s' ≡ true
bookkeeping_keeps cfg p now r s s' q t e stop h =
    let unclean : is_clean r.sweep ≡ false = ground arith in
    ground (arith, e.queue (tile_key q t), ap (has_row (tile_key q t)) e.bucket, unclean)

module _ (mercator : ℤ → ℤ) (cfg : ScraperConfig) (bbox : BoundingBox) where
  nothing_before :
      (p : String) (first index : ℕ) (s : Scraper)
      → AllBefore mercator cfg bbox p first index first
          (from mercator cfg bbox p first index first)
          s
  nothing_before p first index s z i a b c (inl earlier) = absurd (omega arith)
  nothing_before p first index s z i a b c (inr (same, less)) = absurd (ground arith)

  starts :
      (provider : BasemapProvider) (o : Option Cursor) (s : Scraper)
      → get_cursor provider.provider_id s.store ≡ o
      → AtZoom mercator cfg bbox provider.provider_id
          (zoom_start provider o)
          (index_start o)
          (zoom_start provider o)
          s
  starts provider none s e = (inl e, nothing_before provider.provider_id provider.min_zoom 0 s)
  starts provider (some cursor) s e =
      let at : from mercator cfg bbox provider.provider_id cursor.zoom cursor.tile_index cursor.zoom
          ≡ cursor.tile_index =
        ground arith in
      let set : get_cursor provider.provider_id s.store
          ≡ some (record {
            zoom = cursor.zoom;
            tile_index =
                from mercator cfg bbox provider.provider_id cursor.zoom cursor.tile_index
                  cursor.zoom;
          }) =
        e ∙ ap (λ i. some (record { zoom = cursor.zoom; tile_index = i })) (sym at) in
      (inr set, nothing_before provider.provider_id cursor.zoom cursor.tile_index s)

  sweep_provider-Covers :
      (provider : BasemapProvider) (run : ProviderRun) (s : Scraper)
      → 0 < cfg.fanout_window
      → (let p = provider.provider_id in
          let o = get_cursor p s.store in
          let first = zoom_start provider o in
          let r = sweep_provider mercator cfg bbox provider run s in
          let end = first + (min provider.cache_max_zoom cfg.cache_max_zoom + 1 - first) in
          Covers mercator cfg bbox p first (index_start o) r.scraper
          × (stops r.sweep ≡ false
              → AllBefore mercator cfg bbox p first (index_start o) end 0 r.scraper))
  sweep_provider-Covers provider run s h =
      let p = provider.provider_id in
      let o = get_cursor p s.store in
      let first = zoom_start provider o in
      let begun : ZoomResult = record {
        scraper = s;
        sweep = new_sweep_state;
        ok_count = 0;
        failed_count = 0;
      } in
      scrape_zooms-Covers mercator cfg bbox p first (index_start o) run.zooms
        (min provider.cache_max_zoom cfg.cache_max_zoom + 1 - first) first begun h (omega arith)
        (starts provider o s refl)

  -- A visit that does work leaves a cursor, if it leaves one, that the next visit can resume at: each
  -- tile between where this visit began and the cursor, in this zoom and all earlier ones, is in the
  -- bucket or in the queue of failed tiles. The fan-out window holds at least one tile.
  pub scrape_provider-resumes :
      (provider : BasemapProvider) (run : ProviderRun) (s : Scraper) (c : Cursor)
      → 0 < cfg.fanout_window
      → skips cfg provider.provider_id run.asked_at s ≡ false
      → get_cursor provider.provider_id (scrape_provider mercator cfg bbox provider run s).0.store
        ≡ some c
      → AllBefore mercator cfg bbox provider.provider_id
          (zoom_start provider (get_cursor provider.provider_id s.store))
          (index_start (get_cursor provider.provider_id s.store))
          c.zoom
          c.tile_index
          (scrape_provider mercator cfg bbox provider run s).0
  scrape_provider-resumes provider run s c h works e z i a b d before =
      let p = provider.provider_id in
      let r = sweep_provider mercator cfg bbox provider run s in
      let left = finish_sweep cfg p (get_health p s.store) run.ended_at r in
      let there = visited mercator cfg bbox provider run s works in
      let ended = finish_sweep-Ended cfg p (get_health p s.store) run.ended_at r in
      let last : get_cursor p left.store ≡ some c =
        sym (ap (λ v. get_cursor p v.store) there) ∙ e in
      let covers = sweep_provider-Covers provider run s h in
      let tile = coord_at (iter_tiles mercator z bbox) i in
      elim (Bool-cases (stops r.sweep)) [
        | inr on ↦ absurd (ground (arith, ended.cursor, last))
        | inl stop ↦
            let set : get_cursor p r.scraper.store ≡ some c = ground (arith, ended.cursor, last) in
            ap (is_kept p tile) there
            ∙ bookkeeping_keeps cfg p run.ended_at r s left p tile ended stop
                (covers.0 c set z i a b d before)
      ]

  -- A sweep that does not stop early goes through every zoom up to the provider's last cached one:
  -- before its bookkeeping each of their tiles, from where it began, is in the bucket or in the queue
  -- of failed tiles. The fan-out window holds at least one tile.
  pub sweep_provider-whole :
      (provider : BasemapProvider) (run : ProviderRun) (s : Scraper) (z i : ℕ)
      → 0 < cfg.fanout_window
      → stops (sweep_provider mercator cfg bbox provider run s).sweep ≡ false
      → zoom_start provider (get_cursor provider.provider_id s.store) ≤ z
      → z ≤ min provider.cache_max_zoom cfg.cache_max_zoom
      → from mercator cfg bbox provider.provider_id
          (zoom_start provider (get_cursor provider.provider_id s.store))
          (index_start (get_cursor provider.provider_id s.store))
          z
        ≤ i
      → i < length (iter_tiles mercator z bbox)
      → is_kept provider.provider_id
          (coord_at (iter_tiles mercator z bbox) i)
          (sweep_provider mercator cfg bbox provider run s).scraper
        ≡ true
  sweep_provider-whole provider run s z i h on a top b d =
      (sweep_provider-Covers provider run s h).1 on z i a b d (inl (omega arith))
