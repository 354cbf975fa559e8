-- ===== src/Scraper/Provider/Covers.antt =====
-- Over a whole visit the stored cursor skips no tile: neither within a zoom nor from one to the next.
use data_service.Common.{
  ℕ, zero, suc, ◌+◌, ◌≤◌, ◌<◌, ◌≡◌, ◌∙◌, ap, sym, String, true, false, ◌==◌, ltb, none, some,
  if◌then◌else◌, if_split, length, arith, Bool-cases, ◌⊎◌, inl, inr,
}
use mathlib.Core.Path.{subst}
use data_service.Common.Int.{ℤ}
use data_service.StateStore.{Cursor, get_cursor}
use data_service.BasemapConfig.{BoundingBox, count_up, iter_tiles}
use data_service.Scraper.{ScraperConfig, Scraper, stops}
use data_service.Scraper.Chunk.{coord_at}
use data_service.Scraper.Chunk.Outcomes.{is_kept}
use data_service.Scraper.Chunk.Lossless.{Keeps}
use data_service.Scraper.Sweep.{ZoomRun, ZoomResult, scrape_zoom}
use data_service.Scraper.Sweep.Lossless.{scrape_zoom-Keeps}
use data_service.Scraper.Provider.{next_zoom, scrape_zooms}
use data_service.Scraper.Provider.Moves.{Moved, stayed, stopped, passed, scrape_zoom-Moved}

module _ (mercator : ℤ → ℤ) (cfg : ScraperConfig) (bbox : BoundingBox) (p : String)
    (first index : ℕ) where
  -- where a visit that begins at `index` of the zoom `first` begins a zoom
  abbrev pub from : ℕ → ℕ
  from z = if z == first then index else 0

  -- Each tile from the beginning of the visit on and before the index `idx` of `zoom` is kept.
  abbrev pub AllBefore : ℕ → ℕ → Scraper → Type 0
  AllBefore zoom idx s =
      (z i : ℕ)
      → first ≤ z
      → from z ≤ i
      → i < length (iter_tiles mercator z bbox)
      → (z < zoom) ⊎ ((z ≡ zoom) × (i < idx))
      → is_kept p (coord_at (iter_tiles mercator z bbox) i) s ≡ true

  -- the stored cursor, if there is one, skips nothing
  abbrev pub Covers : Scraper → Type 0
  Covers s = (c : Cursor) → get_cursor p s.store ≡ some c → AllBefore c.zoom c.tile_index s

  -- between two zooms
  abbrev pub AtZoom : ℕ → Scraper → Type 0
  AtZoom z s =
      ((get_cursor p s.store ≡ none)
        ⊎ (get_cursor p s.store ≡ some (record { zoom = z; tile_index = from z })))
      × AllBefore z (from z) s

  Covers-at :
      (z i : ℕ) (s : Scraper)
      → get_cursor p s.store ≡ some (record { zoom = z; tile_index = i })
      → AllBefore z i s
      → Covers s
  Covers-at z i s e before c e' =
      let same : record { zoom = z; tile_index = i } ≡ c = ground (arith, e, e') in
      subst (λ (d : Cursor). AllBefore d.zoom d.tile_index s) same before

  AllBefore-later : (z i : ℕ) (s s' : Scraper) → Keeps s s' → AllBefore z i s → AllBefore z i s'
  AllBefore-later z i s s' k before z' j a b c d =
      k p (coord_at (iter_tiles mercator z' bbox) j) (before z' j a b c d)

  AtZoom-Covers : (z : ℕ) (s : Scraper) → AtZoom z s → Covers s
  AtZoom-Covers z s (inl fresh, before) = λ c e. absurd (ground (arith, fresh, e))
  AtZoom-Covers z s (inr set, before) = Covers-at z (from z) s set before

  AtZoom-behind :
      (z i : ℕ) (s : Scraper)
      → AtZoom z s
      → get_cursor p s.store ≡ some (record { zoom = z; tile_index = i })
      → i ≤ from z
  AtZoom-behind z i s (inl fresh, before) e = absurd (ground (arith, fresh, e))
  AtZoom-behind z i s (inr set, before) e = ground (arith, set, e)

  -- the tiles of a zoom follow those before it
  AllBefore-zoom :
      (z idx : ℕ) (s : Scraper)
      → AllBefore z (from z) s
      → ((i : ℕ)
          → from z ≤ i
          → i < idx
          → is_kept p (coord_at (iter_tiles mercator z bbox) i) s ≡ true)
      → AllBefore z idx s
  AllBefore-zoom z idx s before here z' i a b c (inl earlier) = before z' i a b c (inl earlier)
  AllBefore-zoom z idx s before here z' i a b c (inr (same, less)) =
      subst (λ y. from y ≤ i → is_kept p (coord_at (iter_tiles mercator y bbox) i) s ≡ true)
        (sym same) (λ b'. here i b' less) b

  AllBefore-next :
      (z : ℕ) (s : Scraper)
      → first ≤ z
      → AllBefore z (length (iter_tiles mercator z bbox)) s
      → AllBefore (z + 1) (from (z + 1)) s
  AllBefore-next z s h before z' i a b c (inr (same, less)) = absurd (ground arith)
  AllBefore-next z s h before z' i a b c (inl earlier) = elim (Bool-cases (ltb z' z)) [
    | inl old ↦ before z' i a b c (inl (ground arith))
    | inr new ↦
        let here : z' ≡ z = ground arith in
        before z' i a b c (inr (here, subst (λ y. i < length (iter_tiles mercator y bbox)) here c))
  ]

  step_on :
      (z : ℕ) (s : Scraper) (v : ZoomResult)
      → first ≤ z
      → AtZoom z s
      → Keeps s v.scraper
      → Moved cfg p z (from z) (iter_tiles mercator z bbox) s v
      → Covers v.scraper × (stops v.sweep ≡ false → AtZoom (z + 1) v.scraper)
  step_on z s v h (cursor, before) k (stayed same stop) = (
    AtZoom-Covers z v.scraper (
      elim cursor [ inl fresh ↦ inl (same ∙ fresh) | inr set ↦ inr (same ∙ set) ],
      AllBefore-later z (from z) s v.scraper k before,
    ),
    λ on. absurd (cc),
  )
  step_on z s v h (cursor, before) k (stopped reached set stop kept) = (
    Covers-at z reached v.scraper set
        (AllBefore-zoom z reached v.scraper (AllBefore-later z (from z) s v.scraper k before) kept),
    λ on. absurd (cc),
  )
  step_on z s v h (cursor, before) k (passed set kept) =
      let all = length (iter_tiles mercator z bbox) in
      let here =
        AllBefore-zoom z all v.scraper (AllBefore-later z (from z) s v.scraper k before) kept in
      let next = AllBefore-next z v.scraper h here in
      let zero_from : from (z + 1) ≡ 0 = ground arith in
      let at : AtZoom (z + 1) v.scraper = (
        inr (set ∙ ap (λ i. some (record { zoom = z + 1; tile_index = i })) (sym zero_from)),
        next,
      ) in
      (AtZoom-Covers (z + 1) v.scraper at, λ on. at)

  pub scrape_zooms-Covers :
      (zooms : ℕ → ZoomRun) (n z : ℕ) (r : ZoomResult)
      → 0 < cfg.fanout_window
      → first ≤ z
      → AtZoom z r.scraper
      → (let v = scrape_zooms mercator cfg bbox p zooms first index (count_up z n) r in
          Covers v.scraper × (stops v.sweep ≡ false → AllBefore (z + n) 0 v.scraper))
  unfolding scrape_zooms
  scrape_zooms-Covers zooms zero z r h a at = (
    AtZoom-Covers z r.scraper at,
    λ on z' i b c d before. elim before [
      | inl earlier ↦ at.1 z' i b c d (inl (omega arith))
      | inr (same, none_there) ↦ absurd (omega arith)
    ],
  )
  scrape_zooms-Covers zooms (suc n) z r h a at =
      let v =
        scrape_zoom cfg p z (iter_tiles mercator z bbox) (zooms z) (from z) r.scraper r.sweep in
      let moved =
        scrape_zoom-Moved cfg p z (from z) (iter_tiles mercator z bbox) (zooms z) r.scraper r.sweep
          h (λ i e. AtZoom-behind z i r.scraper at e) in
      let keeps =
        scrape_zoom-Keeps cfg p z (iter_tiles mercator z bbox) (zooms z) (from z) r.scraper
          r.sweep in
      let (covers, on_to) = step_on z r.scraper v a at keeps moved in
      let next = next_zoom mercator cfg bbox p zooms first index z r in
      let rest = scrape_zooms mercator cfg bbox p zooms first index (count_up (z + 1) n) next in
      let Done : ZoomResult → Type 0 =
        λ u. Covers u.scraper × (stops u.sweep ≡ false → AllBefore (z + suc n) 0 u.scraper) in
      if_split Done (stops next.sweep) next rest (λ stop. (covers, λ on. absurd (cc)))
        (λ on.
          let (covers', whole) =
            scrape_zooms-Covers zooms n (z + 1) next h (omega arith) (on_to on) in
          let sums : z + 1 + n ≡ z + suc n = omega arith in
          (covers', λ on'. subst (λ y. AllBefore y 0 rest.scraper) sums (whole on')))
