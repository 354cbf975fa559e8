-- ===== src/Tests/Warming.antt =====
-- The warm series of a station, served to a reader.
use data_service.Common.{◌≡◌, refl, true, none, List, [], ◌∷◌, All, arith, take}
use data_service.Common.Int.{pos}
use data_service.Common.Json.{Json, Document}
use data_service.Common.Text.{Text}
use data_service.Stations.Series.{
  pivot_station_series, pivot_bodies, pivot_body, pivot_observation, extract_station_series,
}
use data_service.Stations.Series.Agree.{IsPlain}
use data_service.Stations.Reader.{SeriesCache, station_series_points}
use data_service.Stations.Warm.{WarmConfig, WarmIo, warm_station_series}
use data_service.Stations.Warm.Served.{has_station, warm_station_series-served}
use data_service.Tests.History.{clock, no_dew, reading, body}

abbrev first : Json
first = body (reading 7 "13:00Z") (reading 8 "13:00Z")

abbrev rest : List Json
rest = body (reading 9 "12:00Z") (reading 7 "12:00Z") ∷ []

abbrev cfg : WarmConfig
cfg = record { cache_enabled = true; animation_warm_buckets = 1; series_hours = 48 }

abbrev io : WarmIo
io = record {
  keys = none;
  download_tile = λ k. none;
  takes_snapshot = λ k. true;
  takes_series = λ n. true;
}

abbrev no_series : SeriesCache
no_series n = none

abbrev nothing : Text → Document
nothing key = none

rest-IsPlain : All (IsPlain (pos 7)) (take 48 (first ∷ rest))
rest-IsPlain = ((omega arith, (refl, (refl, tt))), ((omega arith, (refl, (refl, tt))), tt))

occurs : has_station (pos 7) (pivot_station_series clock no_dew (take 48 (first ∷ rest))) ≡ true
unfolding pivot_station_series pivot_bodies pivot_body pivot_observation
occurs = refl

warm_station_series-served_example :
    (station_series_points clock no_dew true nothing []
      (pos 7)
      6
      (warm_station_series clock no_dew cfg io (first ∷ rest) no_series)).0
    ≡ extract_station_series clock no_dew (take 48 (first ∷ rest)) (pos 7)
warm_station_series-served_example =
    warm_station_series-served clock no_dew cfg io first rest (pos 7) no_series nothing [] 6 refl
      (λ e. absurd (omega (arith, e))) refl occurs rest-IsPlain
