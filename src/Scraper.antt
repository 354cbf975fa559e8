-- ===== src/Scraper.antt =====
-- src/services/basemap_scraper_service.py: the scraper of the basemap backup. Here stand its data,
-- the state of one sweep and the provider's breaker; its children hold the tiles, the chunks, the
-- sweeps and the cycle. Times are ticks, and what the world answers is an argument.
pub mod Watermark
pub mod Health
pub mod Tile
pub mod Chunk
pub mod Sweep
pub mod Provider
pub mod Cycle
use data_service.Common.{
  ℕ, zero, suc, ◌+◌, ◌-◌, min, String, Bool, true, false, not, ◌&&◌, ◌||◌, Option, none, some, List,
  [], ◌∷◌, ◌++◌, ltb, leb, if◌then◌else◌, length, drop, get_elem?, count_true,
}
use data_service.StorageCircuit.{Ratio, exceeds, StorageCircuit}
use data_service.StateStore.{FailedTile, BasemapStateStore}

-- `_TileOutcome`
pub data TileOutcome : Type 0 where
  ok missing unavailable storage_error storage_skipped : TileOutcome

-- (z, x, y)
abbrev pub Tile : Type 0
Tile = ℕ × ℕ × ℕ

-- what `last_reason` says: the failures among the recent fetches, and the first failed tiles
pub record FailureReason : Type 0 where
  pub recent_failed : ℕ
  pub fetches : ℕ
  pub samples : List Tile

-- The settings that `__init__` reads. `render` is the f-string that puts a reason into words.
pub record ScraperConfig : Type 0 where
  pub sync_interval : ℕ
  pub cache_max_zoom : ℕ
  pub checkpoint_every : ℕ
  pub checkpoint_seconds : ℕ
  pub fanout_window : ℕ
  pub error_rate_threshold : Ratio
  pub error_rate_min_samples : ℕ
  pub error_rate_window : ℕ
  pub cooldown_schedule : List ℕ
  pub redis_writes_enabled : Bool
  pub render : Option FailureReason → String

-- `_ProviderSweepState`; `recent` is the deque, oldest first, and `true` is a failure
pub record ProviderSweepState : Type 0 where
  pub attempted : ℕ
  pub failed : ℕ
  pub tripped : Bool
  pub storage_abandoned : Bool
  pub last_reason : Option FailureReason
  pub failure_samples : List Tile
  pub storage_errors : ℕ
  pub recent : List Bool

abbrev pub new_sweep_state : ProviderSweepState
new_sweep_state = record {
  attempted = 0;
  failed = 0;
  tripped = false;
  storage_abandoned = false;
  last_reason = none;
  failure_samples = [];
  storage_errors = 0;
  recent = [];
}

-- The mutable part of the service. `bucket` lists the tiles written to S3 so far.
pub record Scraper : Type 0 where
  pub store : BasemapStateStore
  pub s3_circuit : StorageCircuit
  pub redis_circuit : StorageCircuit
  pub bucket : List FailedTile
  pub lifecycle_applied : Bool
  pub storage_retry_due : Bool
  pub storage_down_this_cycle : Bool

abbrev pub tile_key : String → Tile → FailedTile
tile_key p (z, x, y) = record { provider_id = p; zoom = z; x = x; y = y }

-- the sweep is to stop
abbrev pub stops : ProviderSweepState → Bool
stops w = w.tripped || w.storage_abandoned

-- a deque bounded to `window`: append, and drop the oldest where it overflows
abbrev pub push_window : ℕ → Bool → List Bool → List Bool
push_window window b recent =
    let appended = recent ++ b ∷ [] in
    if ltb window (length appended) then drop 1 appended else appended

-- the branch of `_update_sweep_state` for a tile that S3 did not take
unfoldable pub note_storage : Bool → ProviderSweepState → ProviderSweepState
note_storage exhausted w = record w {
  storage_errors = w.storage_errors + 1;
  storage_abandoned = if exhausted then true else w.storage_abandoned;
}

-- the trip test at the end of `_update_sweep_state`
unfoldable pub judge : ScraperConfig → ProviderSweepState → ProviderSweepState
judge cfg w =
    if not w.tripped
      && leb cfg.error_rate_min_samples (length w.recent)
      && exceeds cfg.error_rate_threshold (count_true w.recent) (length w.recent)
    then record w {
      tripped = true;
      last_reason = some (record {
        recent_failed = count_true w.recent;
        fetches = length w.recent;
        samples = w.failure_samples;
      });
    }
    else w

-- the branch for a fetch that says something of the provider's health
unfoldable pub note_fetch : ScraperConfig → Bool → Tile → ProviderSweepState → ProviderSweepState
note_fetch cfg is_failure t w = judge cfg (record w {
  attempted = w.attempted + 1;
  failed = if is_failure then w.failed + 1 else w.failed;
  failure_samples =
      if is_failure && ltb (length w.failure_samples) 3
      then w.failure_samples ++ t ∷ []
      else w.failure_samples;
  recent = push_window cfg.error_rate_window is_failure w.recent;
})

-- `_update_sweep_state`; `exhausted` is what `_s3_circuit.exhausted()` says
unfoldable pub update_sweep_state :
    ScraperConfig → Bool → TileOutcome → Tile → ProviderSweepState → ProviderSweepState
update_sweep_state cfg exhausted missing t w = w
update_sweep_state cfg exhausted storage_error t w = note_storage exhausted w
update_sweep_state cfg exhausted storage_skipped t w = note_storage exhausted w
update_sweep_state cfg exhausted unavailable t w = note_fetch cfg true t w
update_sweep_state cfg exhausted ok t w = note_fetch cfg false t w

-- `_compute_cooldown`: the last entry serves all later trips
unfoldable pub compute_cooldown : ScraperConfig → ℕ → ℕ
compute_cooldown cfg trips =
    let idx = min (trips - 1) (length cfg.cooldown_schedule - 1) in
    elim (get_elem? cfg.cooldown_schedule idx) [ some seconds ↦ seconds | none ↦ 300 ]
