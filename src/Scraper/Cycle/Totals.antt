-- ===== src/Scraper/Cycle/Totals.antt =====
-- What a cycle reports, and what it leaves alone once the storage is given up.
use data_service.Common.{
  ℕ, ◌+◌, ◌≡◌, refl, ◌∙◌, ap, String, Bool, true, List, [], ◌∷◌, ◌++◌, Option, some, ltb,
  if◌then◌else◌, arith,
}
use data_service.Common.Int.{ℤ}
use data_service.BasemapConfig.{BasemapProvider, BoundingBox}
use data_service.Scraper.{ScraperConfig, Scraper}
use data_service.Scraper.Provider.{ProviderRun, skips, scrape_provider}
use data_service.Scraper.Provider.Gates.{skipped}
use data_service.Scraper.Cycle.{
  CycleRow, GroupRun, add_visit, scrape_group, scrape_groups, build_scrape_groups,
  ensure_lifecycle_applied, begin_cycle, run_sync,
}

abbrev pub sum_downloaded : List CycleRow → ℕ
sum_downloaded [] = 0
sum_downloaded (r ∷ rows) = r.downloaded + sum_downloaded rows

abbrev pub sum_errors : List CycleRow → ℕ
sum_errors [] = 0
sum_errors (r ∷ rows) = r.errors + sum_errors rows

-- the rows on the dashboard add up to what the run counts
abbrev pub Tallies : GroupRun → Type 0
Tallies g = (sum_downloaded g.rows ≡ g.ok_count) × (sum_errors g.rows ≡ g.failed_count)

sums-append :
    (rows : List CycleRow) (r : CycleRow)
    → (sum_downloaded (rows ++ r ∷ []) ≡ sum_downloaded rows + r.downloaded)
      × (sum_errors (rows ++ r ∷ []) ≡ sum_errors rows + r.errors)
sums-append [] r = (omega arith, omega arith)
sums-append (x ∷ rows) r =
    (omega (arith, (sums-append rows r).0), omega (arith, (sums-append rows r).1))

add_visit-Tallies :
    (takes : String → Bool) (p : String) (g : GroupRun) (s : Scraper) (downloaded failed : ℕ)
    → takes p ≡ true
    → Tallies g
    → Tallies (add_visit (some takes) p g (s, downloaded, failed))
unfolding add_visit
add_visit-Tallies takes p g s downloaded failed taken t =
    let outcome = if ltb 0 failed then "error" else "ok" in
    let (d, e) =
      sums-append g.rows (record { downloaded = downloaded; errors = failed; outcome = outcome }) in
    ground (arith, d, e)

module _ (mercator : ℤ → ℤ) (cfg : ScraperConfig) (bbox : BoundingBox) (takes : String → Bool)
    (all_taken : (p : String) → takes p ≡ true) where
  scrape_group-Tallies :
      (runs : String → ProviderRun) (ps : List BasemapProvider) (g : GroupRun)
      → Tallies g
      → Tallies (scrape_group mercator cfg bbox (some takes) runs ps g)
  unfolding scrape_group
  scrape_group-Tallies runs [] g t = t
  scrape_group-Tallies runs (p ∷ ps) g t =
      let (s, downloaded, failed) =
        scrape_provider mercator cfg bbox p (runs p.provider_id) g.scraper in
      scrape_group-Tallies runs ps (add_visit (some takes) p.provider_id g (s, downloaded, failed))
        (add_visit-Tallies takes p.provider_id g s downloaded failed (all_taken p.provider_id) t)

  scrape_groups-Tallies :
      (runs : String → ProviderRun) (groups : List (List BasemapProvider)) (g : GroupRun)
      → Tallies g
      → Tallies (scrape_groups mercator cfg bbox (some takes) runs groups g)
  scrape_groups-Tallies runs [] g t = t
  scrape_groups-Tallies runs (ps ∷ groups) g t =
      scrape_groups-Tallies runs groups (scrape_group mercator cfg bbox (some takes) runs ps g)
        (scrape_group-Tallies runs ps g t)

  -- With a metrics store that takes every row, and the groups run one after another, the rows that a
  -- cycle writes for the dashboard add up to the tiles that it downloaded and failed: the visits that
  -- write no row have done nothing.
  pub run_sync-Tallies :
      (host_of : String → String) (mode : String) (providers : List BasemapProvider) (sticks : Bool)
      (runs : String → ProviderRun) (s : Scraper)
      → Tallies (run_sync mercator cfg bbox (some takes) host_of mode providers sticks runs s)
  unfolding run_sync
  run_sync-Tallies host_of mode providers sticks runs s =
      scrape_groups-Tallies runs (build_scrape_groups host_of mode providers)
        (record {
          scraper = ensure_lifecycle_applied sticks (begin_cycle s);
          ok_count = 0;
          failed_count = 0;
          rows = [];
        })
        (refl, refl)

down_skips :
    (cfg : ScraperConfig) (p : String) (now : ℕ) (s : Scraper)
    → s.storage_down_this_cycle ≡ true
    → skips cfg p now s ≡ true
unfolding skips
down_skips cfg p now s h = ground arith

nothing_added :
    (metrics : Option (String → Bool)) (p : String) (g : GroupRun)
    → add_visit metrics p g (g.scraper, 0, 0) ≡ g
unfolding add_visit
nothing_added metrics p g = ground arith

module _ (mercator : ℤ → ℤ) (cfg : ScraperConfig) (bbox : BoundingBox)
    (metrics : Option (String → Bool)) where
  scrape_group-down :
      (runs : String → ProviderRun) (ps : List BasemapProvider) (g : GroupRun)
      → g.scraper.storage_down_this_cycle ≡ true
      → scrape_group mercator cfg bbox metrics runs ps g ≡ g
  unfolding scrape_group
  scrape_group-down runs [] g h = refl
  scrape_group-down runs (p ∷ ps) g h =
      let now = (runs p.provider_id).asked_at in
      let idle =
        skipped mercator cfg bbox p (runs p.provider_id) g.scraper
          (down_skips cfg p.provider_id now g.scraper h) in
      ap (λ v. scrape_group mercator cfg bbox metrics runs ps (add_visit metrics p.provider_id g v))
        idle
      ∙ ap (scrape_group mercator cfg bbox metrics runs ps) (nothing_added metrics p.provider_id g)
      ∙ scrape_group-down runs ps g h

  -- Once a visit has given up on the storage, the rest of the cycle does nothing: no provider of the
  -- groups still to come is asked, counted or written down.
  pub scrape_groups-down :
      (runs : String → ProviderRun) (groups : List (List BasemapProvider)) (g : GroupRun)
      → g.scraper.storage_down_this_cycle ≡ true
      → scrape_groups mercator cfg bbox metrics runs groups g ≡ g
  scrape_groups-down runs [] g h = refl
  scrape_groups-down runs (ps ∷ groups) g h =
      ap (scrape_groups mercator cfg bbox metrics runs groups) (scrape_group-down runs ps g h)
      ∙ scrape_groups-down runs groups g h
