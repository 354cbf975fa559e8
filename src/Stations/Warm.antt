-- ===== src/Stations/Warm.antt =====
-- src/services/weather_stations_scraper_service.py: the caches that a cycle warms, of the recent snapshots
-- and of the stations' series. A Redis write that fails is left out of the cache.
pub mod Served
use data_service.Common.{
  ℕ, zero, suc, ◌+◌, max, String, Bool, true, false, not, ◌||◌, ◌==◌, Option, none, some, List, [],
  ◌∷◌, ltb, take, if◌then◌else◌,
}
use data_service.Common.Int.{ℤ, eq_ℤ}
use data_service.Common.Json.{Json, Document, arr, of_elements}
use data_service.Common.Text.{Text, eq_text}
use data_service.Stations.Buckets.{recent_snapshot_keys}
use data_service.Stations.Series.{Timestamp, pivot_station_series}
use data_service.Stations.Reader.{SeriesCache, dict_or_none}

pub record WarmConfig : Type 0 where
  pub cache_enabled : Bool
  pub animation_warm_buckets : ℕ
  pub series_hours : ℕ

-- the two caches
pub record Caches : Type 0 where
  pub snapshots : Text → Option Document
  pub series : SeriesCache

-- What a cycle meets: the listing, which may raise, each object that S3 gives, and which writes Redis takes.
pub record WarmIo : Type 0 where
  pub keys : Option (List Text)
  pub download_tile : Text → Option Document
  pub takes_snapshot : Text → Bool
  pub takes_series : ℤ → Bool

-- `_redis_set` for a snapshot and for a series
abbrev pub set_snapshot : WarmIo → Text → Document → Caches → Caches
set_snapshot io key body c =
    if io.takes_snapshot key
    then record c { snapshots = λ k. if eq_text key k then some body else c.snapshots k }
    else c

abbrev pub set_series : WarmIo → ℤ → List Json → SeriesCache → SeriesCache
set_series io n points series =
    if io.takes_series n
    then (λ m. if eq_ℤ n m then some (some (arr (of_elements points))) else series m)
    else series

abbrev pub set_all : WarmIo → List (ℤ × List Json) → SeriesCache → SeriesCache
set_all io [] series = series
set_all io ((n, points) ∷ per) series = set_all io per (set_series io n points series)

-- the body joins the list if it is a dictionary
abbrev pub collect : Option Json → List Json → List Json
collect none bodies = bodies
collect (some parsed) bodies = parsed ∷ bodies

-- the loop over the keys: the caches, and the bodies that can be parsed
unfoldable pub warm_bodies : WarmConfig → WarmIo → ℕ → List Text → Caches → Caches × List Json
warm_bodies cfg io index [] c = (c, [])
warm_bodies cfg io index (key ∷ keys) c = elim (io.download_tile key) [
  | none ↦ warm_bodies cfg io (index + 1) keys c
  | some body ↦
      let c' = if ltb index cfg.animation_warm_buckets then set_snapshot io key body c else c in
      let (end, bodies) = warm_bodies cfg io (index + 1) keys c' in
      (end, collect (dict_or_none body) bodies)
]

module _ (fromisoformat : String → Option Timestamp) (magnus_dew_point : Json → Json → Json) where
  -- `_warm_station_series`
  unfoldable pub warm_station_series : WarmConfig → WarmIo → List Json → SeriesCache → SeriesCache
  warm_station_series cfg io [] series = series
  warm_station_series cfg io (body ∷ bodies) series =
      if not cfg.cache_enabled || cfg.series_hours == 0
      then series
      else set_all io
          (pivot_station_series fromisoformat magnus_dew_point
            (take cfg.series_hours (body ∷ bodies)))
          series

  abbrev pub warm_keys : WarmConfig → WarmIo → Option (List Text) → ℕ → Caches → Caches
  warm_keys cfg io none window c = c
  warm_keys cfg io (some listed) window c =
      let (end, bodies) = warm_bodies cfg io 0 (recent_snapshot_keys window listed) c in
      record end { series = warm_station_series cfg io bodies end.series }

  -- `_warm_recent_snapshot_bodies`
  unfoldable pub warm_recent_snapshot_bodies : WarmConfig → WarmIo → Caches → Caches
  warm_recent_snapshot_bodies cfg io c =
      let window = max cfg.animation_warm_buckets cfg.series_hours in
      if not cfg.cache_enabled || window == 0 then c else warm_keys cfg io io.keys window c
