-- ===== src/Stations/Reader.antt =====
-- src/services/weather_stations_service.py: the history of one station for a request,
-- `_station_series_points`. The listing, and the bodies that Redis or S3 give for a key, are arguments;
-- the cache is looked at within the lifetime of its entries.
use data_service.Common.{
  ℕ, ◌≡◌, refl, ap, String, Bool, true, false, Option, none, some, List, [], ◌∷◌, if◌then◌else◌,
}
use data_service.Common.Int.{ℤ, eq_ℤ, eq_ℤ-iff}
use data_service.Common.Json.{Json, Document, arr, as_dict, as_list, elements, of_elements}
use data_service.Stations.Keys.{Text}
use data_service.Stations.Buckets.{recent_snapshot_keys}
use data_service.Stations.Series.{Timestamp, extract_station_series}

-- the value under `series_key(station_id)`, and what it holds if it is JSON
abbrev pub SeriesCache : Type 0
SeriesCache = ℤ → Option Document

-- `parse_json_or_none`
abbrev pub dict_or_none : Document → Option Json
dict_or_none none = none
dict_or_none (some j) = elim (as_dict j) [ none ↦ none | some fs ↦ some j ]

abbrev pub bodies_at : (Text → Document) → List Text → List Json
bodies_at body [] = []
bodies_at body (key ∷ keys) =
    let rest = bodies_at body keys in
    elim (dict_or_none (body key)) [ none ↦ rest | some j ↦ j ∷ rest ]

-- a cached list; anything else is rebuilt
abbrev pub cached_points : Option Document → Option (List Json)
cached_points (some (some j)) = as_list j
cached_points _ = none

module _ (fromisoformat : String → Option Timestamp) (magnus_dew_point : Json → Json → Json) where
  abbrev pub rebuilt : (Text → Document) → List Text → ℤ → ℕ → List Json
  rebuilt body keys n hours =
      extract_station_series fromisoformat magnus_dew_point
        (bodies_at body (recent_snapshot_keys hours keys)) n

  abbrev pub cache_points : Bool → ℤ → List Json → SeriesCache → SeriesCache
  cache_points false n points cache = cache
  cache_points true n points cache =
      λ m. if eq_ℤ m n then some (some (arr (of_elements points))) else cache m

  abbrev pub from_cache :
      Option (List Json)
      → Bool
      → (Text → Document)
      → List Text
      → ℤ
      → ℕ
      → SeriesCache
      → List Json × SeriesCache
  from_cache (some points) enabled body keys n hours cache = (points, cache)
  from_cache none enabled body keys n hours cache =
      let points = rebuilt body keys n hours in (points, cache_points enabled n points cache)

  -- `_station_series_points`, where `enabled` says whether there is a Redis cache
  unfoldable pub station_series_points :
      Bool → (Text → Document) → List Text → ℤ → ℕ → SeriesCache → List Json × SeriesCache
  station_series_points enabled body keys n hours cache =
      from_cache (if enabled then cached_points (cache n) else none) enabled body keys n hours cache

  pub elements-of_elements : (js : List Json) → elements (of_elements js) ≡ js
  elements-of_elements [] = refl
  elements-of_elements (j ∷ js) = ap (λ js'. j ∷ js') (elements-of_elements js)

  -- With the cache on, a request that finds no series rebuilds it for its own hours, and the next
  -- request for the station is answered with it whatever hours it asks for.
  pub series_ignores_hours :
      (body body' : Text → Document) (keys keys' : List Text) (n : ℤ) (hours hours' : ℕ)
      (cache : SeriesCache)
      → cached_points (cache n) ≡ none
      → (station_series_points true body' keys' n hours'
          (station_series_points true body keys n hours cache).1).0
        ≡ rebuilt body keys n hours
  unfolding station_series_points
  series_ignores_hours body body' keys keys' n hours hours' cache cold =
      rw (cold, (eq_ℤ-iff n n).1 refl, elements-of_elements (rebuilt body keys n hours)) refl
