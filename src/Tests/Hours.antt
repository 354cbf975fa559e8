-- ===== src/Tests/Hours.antt =====
-- The hours of snapshots on concrete keys.
use data_service.Common.{ℕ, ◌≡◌, refl, true, none, some, List, [], ◌∷◌, All}
use data_service.Common.Int.{pos}
use data_service.Common.Json.{Document, obj, end}
use data_service.Stations.Calendar.{DateTime, instant, to_ordinal}
use data_service.Stations.Keys.{Text, codes, snapshot_key, tileset_id_for, parse_snapshot_key}
use data_service.Stations.Keys.RoundTrip.{parse-snapshot_key}
use data_service.Stations.Buckets.{
  key_of, latest_snapshot_per_bucket, resolve_bucket_snapshot_key, day_prefix,
}
use data_service.Stations.Buckets.Latest.{find, is_own, resolve-latest_snapshot_per_bucket}
use data_service.Stations.Reader.{rebuilt, station_series_points, series_ignores_hours}
use data_service.Tests.History.{clock, no_dew}

abbrev at : ℕ → ℕ → ℕ → DateTime
at h mi s = record { year = 2026; month = 5; day = 17; hour = h; minute = mi; second = s }

named :
    snapshot_key (at 14 5 0)
    ≡ codes "weather-stations/snapshots/2026/05/17/14/20260517T140500Z.json"
unfolding snapshot_key
named = refl

hour_id : tileset_id_for (at 14 5 0) ≡ codes "20260517T1400Z"
unfolding tileset_id_for
hour_id = refl

no_such_day : parse_snapshot_key (codes "x/20260230T140500Z.json") ≡ none
unfolding parse_snapshot_key
no_such_day = refl

parse-snapshot_key_example : parse_snapshot_key (snapshot_key (at 14 5 0)) ≡ some (at 14 5 0)
parse-snapshot_key_example = parse-snapshot_key (at 14 5 0) refl

-- two snapshots of 14:00, the sibling of one, and one of 23:00
abbrev listing : List Text
listing =
    codes "weather-stations/snapshots/2026/05/17/14/20260517T140500Z.json"
    ∷ codes "weather-stations/snapshots/2026/05/17/14/20260517T140500Z.meta.json"
    ∷ codes "weather-stations/snapshots/2026/05/17/14/20260517T141000Z.json"
    ∷ codes "weather-stations/snapshots/2026/05/17/23/20260517T230000Z.json"
    ∷ []

resolves_later :
    resolve_bucket_snapshot_key (at 14 0 0) listing
    ≡ some (codes "weather-stations/snapshots/2026/05/17/14/20260517T141000Z.json")
unfolding resolve_bucket_snapshot_key day_prefix parse_snapshot_key instant to_ordinal
resolves_later = refl

listing_own : All (λ key. is_own key ≡ true) listing
unfolding parse_snapshot_key snapshot_key
listing_own = (refl, (refl, (refl, (refl, tt))))

resolve-latest_snapshot_per_bucket_example :
    resolve_bucket_snapshot_key (at 14 0 0) listing
    ≡ key_of (find (tileset_id_for (at 14 0 0)) (latest_snapshot_per_bucket listing))
resolve-latest_snapshot_per_bucket_example =
    resolve-latest_snapshot_per_bucket (at 14 0 0) refl refl refl listing listing_own

abbrev some_body : Text → Document
some_body key = some (obj end)

series_ignores_hours_example :
    (station_series_points clock no_dew true some_body listing
      (pos 7)
      48
      (station_series_points clock no_dew true some_body listing (pos 7) 1 (λ n. none)).1).0
    ≡ rebuilt clock no_dew some_body listing (pos 7) 1
series_ignores_hours_example =
    series_ignores_hours clock no_dew some_body some_body listing listing (pos 7) 1 48 (λ n. none)
      refl
