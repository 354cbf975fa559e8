-- ===== src/Scraper/Cycle.antt =====
-- `_run_sync`, `_scrape_group`, `_build_scrape_groups` and `_compute_next_sleep` of
-- src/services/basemap_scraper_service.py. Times are whole seconds here. `host_of` stands for
-- `urlparse(…).netloc`. Groups run one after another, as in the mode "sequential", which has one group.
pub mod Sleep
pub mod Groups
pub mod Totals
use data_service.Common.{
  ℕ, zero, suc, ◌+◌, ◌-◌, min, max, String, Bool, true, false, ◌&&◌, ◌||◌, Option, none, some, List,
  [], ◌∷◌, ◌++◌, map, ltb, ◌==◌, if◌then◌else◌, str_eq, is_some,
}
use data_service.Common.Int.{ℤ}
use data_service.StateStore.{ProviderHealth, get_health, get_cursor, get_last_completed}
use data_service.BasemapConfig.{BasemapProvider, BoundingBox}
use data_service.Scraper.{ScraperConfig, Scraper}
use data_service.Scraper.Provider.{ProviderRun, cooling, scrape_provider}

-- what the loop of `_compute_next_sleep` carries
pub record Pending : Type 0 where
  pub soonest : ℕ
  pub any_ready : Bool

-- `cooldown_remaining`
abbrev pub cooldown_left : Option ProviderHealth → ℕ → ℕ
cooldown_left none now = 0
cooldown_left (some health) now = health.cooldown_until - now

-- a provider that is not cooling down and has no cursor, by its last completion
abbrev pub weigh_last : ScraperConfig → ℕ → Option ℕ → Pending → Pending
weigh_last cfg now none a = record a { any_ready = true }
weigh_last cfg now (some last) a =
    let remaining = last + cfg.sync_interval - now in
    if remaining == 0
    then record a { any_ready = true }
    else record a { soonest = min a.soonest remaining }

-- the body of the loop
unfoldable pub weigh : ScraperConfig → ℕ → Scraper → String → Pending → Pending
weigh cfg now s p a =
    let left = cooldown_left (get_health p s.store) now in
    if ltb 0 left
    then record a { soonest = min a.soonest left }
    else if is_some (get_cursor p s.store)
    then record a { any_ready = true }
    else weigh_last cfg now (get_last_completed p s.store) a

-- the loop
unfoldable pub weigh_all : ScraperConfig → ℕ → Scraper → List String → Pending → Pending
weigh_all cfg now s [] a = a
weigh_all cfg now s (p ∷ ps) a = weigh_all cfg now s ps (weigh cfg now s p a)

unfoldable pub compute_next_sleep : ScraperConfig → ℕ → ℕ → List String → Scraper → ℕ
compute_next_sleep cfg default now ps s =
    let a = weigh_all cfg now s ps (record { soonest = default; any_ready = false }) in
    if s.storage_retry_due then 60 else if a.any_ready then 0 else max 60 a.soonest

-- `_ensure_lifecycle_applied`; `sticks` is what S3 says
unfoldable pub ensure_lifecycle_applied : Bool → Scraper → Scraper
ensure_lifecycle_applied sticks s =
    if s.lifecycle_applied then s else if sticks then record s { lifecycle_applied = true } else s

-- `by_host[host].append(provider)`
unfoldable pub append_to_host :
    String
    → BasemapProvider
    → List (String × List BasemapProvider)
    → List (String × List BasemapProvider)
append_to_host host provider [] = (host, provider ∷ []) ∷ []
append_to_host host provider ((h, ps) ∷ by_host) =
    let rest = append_to_host host provider by_host in
    if str_eq h host then (h, ps ++ provider ∷ []) ∷ by_host else (h, ps) ∷ rest

-- the loop of the mode "per_origin"
unfoldable pub group_by_host :
    (String → String)
    → List BasemapProvider
    → List (String × List BasemapProvider)
    → List (String × List BasemapProvider)
group_by_host host_of [] by_host = by_host
group_by_host host_of (p ∷ ps) by_host =
    group_by_host host_of ps (append_to_host (host_of p.source_url_template) p by_host)

abbrev pub singletons : List BasemapProvider → List (List BasemapProvider)
singletons [] = []
singletons (p ∷ ps) = (p ∷ []) ∷ singletons ps

abbrev pub groups_of : List (String × List BasemapProvider) → List (List BasemapProvider)
groups_of [] = []
groups_of ((h, ps) ∷ by_host) = ps ∷ groups_of by_host

unfoldable pub build_scrape_groups :
    (String → String) → String → List BasemapProvider → List (List BasemapProvider)
build_scrape_groups host_of mode [] = []
build_scrape_groups host_of mode (p ∷ ps) =
    if str_eq mode "full"
    then singletons (p ∷ ps)
    else if str_eq mode "per_origin"
    then groups_of (group_by_host host_of (p ∷ ps) [])
    else (p ∷ ps) ∷ []

-- what `record_sync_cycle` is given for the dashboard, less the times
pub record CycleRow : Type 0 where
  pub downloaded : ℕ
  pub errors : ℕ
  pub outcome : String

-- `_record_cycle`: without a metrics store there is no row, and a write that raises is logged and
-- forgotten; `metrics` says whether the store takes the row of a provider's visit
unfoldable pub record_cycle :
    Option (String → Bool) → String → ℕ → ℕ → List CycleRow → List CycleRow
record_cycle none p downloaded errors rows = rows
record_cycle (some takes) p downloaded errors rows =
    if takes p
    then rows
      ++ record {
        downloaded = downloaded;
        errors = errors;
        outcome = if ltb 0 errors then "error" else "ok";
      }
        ∷ []
    else rows

-- the service and what the groups add up
pub record GroupRun : Type 0 where
  pub scraper : Scraper
  pub ok_count : ℕ
  pub failed_count : ℕ
  pub rows : List CycleRow

-- the body of the loop of `_scrape_group`, for what the visit to the provider returned
unfoldable pub add_visit : Option (String → Bool) → String → GroupRun → Scraper × ℕ × ℕ → GroupRun
unfolding record_cycle
add_visit metrics p g (s, downloaded, failed) = record {
  scraper = s;
  ok_count = g.ok_count + downloaded;
  failed_count = g.failed_count + failed;
  rows =
      if ltb 0 downloaded || ltb 0 failed
      then record_cycle metrics p downloaded failed g.rows
      else g.rows;
}

-- the flags that `_run_sync` resets
abbrev pub begin_cycle : Scraper → Scraper
begin_cycle s = record s { storage_retry_due = false; storage_down_this_cycle = false }

module _ (mercator : ℤ → ℤ) (cfg : ScraperConfig) (bbox : BoundingBox)
    (metrics : Option (String → Bool)) where
  -- `_scrape_group`; a provider's visit is found by its id
  unfoldable pub scrape_group : (String → ProviderRun) → List BasemapProvider → GroupRun → GroupRun
  scrape_group runs [] g = g
  scrape_group runs (p ∷ ps) g = scrape_group runs ps (
      add_visit metrics p.provider_id g
        (scrape_provider mercator cfg bbox p (runs p.provider_id) g.scraper))

  abbrev pub scrape_groups :
      (String → ProviderRun) → List (List BasemapProvider) → GroupRun → GroupRun
  scrape_groups runs [] g = g
  scrape_groups runs (ps ∷ groups) g = scrape_groups runs groups (scrape_group runs ps g)

  unfoldable pub run_sync :
      (String → String)
      → String
      → List BasemapProvider
      → Bool
      → (String → ProviderRun)
      → Scraper
      → GroupRun
  run_sync host_of mode providers sticks runs s =
      scrape_groups runs (build_scrape_groups host_of mode providers) (record {
        scraper = ensure_lifecycle_applied sticks (begin_cycle s);
        ok_count = 0;
        failed_count = 0;
        rows = [];
      })
