-- ===== src/Tests/Cycle.antt =====
-- Groups and sleeps on concrete inputs.
use data_service.Common.{All, ◌≡◌, refl, true, false, some, String, [], ◌∷◌, arith}
use data_service.BasemapConfig.{BasemapProvider}
use data_service.StateStore.{
  empty_store, get_health, get_cursor, get_last_completed, set_last_completed,
}
use data_service.Scraper.{Scraper}
use data_service.Scraper.Provider.{skips}
use data_service.Scraper.Cycle.{
  compute_next_sleep, weigh, weigh_all, build_scrape_groups, group_by_host, append_to_host,
  GroupRun, add_visit, record_cycle, run_sync,
}
use data_service.Scraper.Cycle.Sleep.{compute_next_sleep-misses_nothing}
use data_service.Scraper.Tile.{bytes}
use data_service.Scraper.Cycle.Totals.{Tallies, run_sync-Tallies}
use data_service.Tests.Tiles.{flat, box}
use data_service.Tests.Scraping.{scraping, idle_scraper}
use data_service.Tests.Provider.{osm, visit}

-- finished at 500, due again at 1500
abbrev finished : Scraper
finished = record idle_scraper { store = set_last_completed "osm" 500 empty_store }

sleeps_600 : compute_next_sleep scraping 1000 900 ("osm" ∷ []) finished ≡ 600
unfolding compute_next_sleep weigh_all weigh get_health get_cursor get_last_completed
    set_last_completed
sleeps_600 = refl

compute_next_sleep-misses_nothing_example :
    All (λ p. skips scraping p 1499 finished ≡ true) ("osm" ∷ [])
compute_next_sleep-misses_nothing_example =
    compute_next_sleep-misses_nothing scraping 1000 900 1499 ("osm" ∷ []) finished
      (omega (arith, sleeps_600)) (omega (arith, sleeps_600))

-- the host is the whole template here
abbrev host_of : String → String
host_of url = url

abbrev ign : BasemapProvider
ign = record osm { provider_id = "ign"; source_url_template = "https://wms.example" }

abbrev topo : BasemapProvider
topo = record osm { provider_id = "topo" }

by_host_groups :
    build_scrape_groups host_of "per_origin" (osm ∷ ign ∷ topo ∷ [])
    ≡ (osm ∷ topo ∷ []) ∷ (ign ∷ []) ∷ []
unfolding build_scrape_groups group_by_host append_to_host
by_host_groups = refl

run_sync-Tallies_example : Tallies (
    run_sync flat scraping box
      (some (λ p. true))
      host_of
      "per_origin"
      (osm ∷ ign ∷ topo ∷ [])
      true
      (λ p. visit bytes true 100)
      idle_scraper)
run_sync-Tallies_example =
    run_sync-Tallies flat scraping box (λ p. true) (λ p. refl) host_of "per_origin"
      (osm ∷ ign ∷ topo ∷ []) true (λ p. visit bytes true 100) idle_scraper

-- a store that takes no row leaves none
abbrev one_visit : GroupRun
one_visit = record { scraper = idle_scraper; ok_count = 3; failed_count = 0; rows = [] }

no_row : (add_visit (some (λ p. false)) "osm" one_visit (idle_scraper, 2, 1)).rows ≡ []
unfolding add_visit record_cycle
no_row = refl
