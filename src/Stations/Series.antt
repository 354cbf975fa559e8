-- ===== src/Stations/Series.antt =====
-- src/services/weather_stations_cache.py: the history of a station, from the bodies of snapshots, as
-- the reader rebuilds it (`extract_station_series`) and as the scraper warms it
-- (`pivot_station_series`). `datetime.fromisoformat` and the dew point are arguments. An instant is in
-- whole microseconds, since a day before all of them.
pub mod Agree
use Prim.Native.Char.{Char, code}
use Prim.Native.String.{◌++◌ as ◌<>◌}
use data_service.Common.{
  ℕ, suc, ◌*◌, ◌^◌, String, Bool, true, false, Option, none, some, List, [], ◌∷◌, ◌++◌, ltb, ◌==◌,
  str_eq, if◌then◌else◌,
}
use data_service.Common.Int.{ℤ, pos, negsuc, eq_ℤ, neg}
use data_service.Common.Json.{
  Json, Fields, null, bool, int, float, str, obj, end, field, get_or_null, as_dict, as_list, as_str,
  as_int,
}
use data_service.Common.Sort.{sort}

-- a dictionary of texts, in the order of insertion
abbrev pub Dict : Type 0 → Type 0
Dict A = List (String × A)

module _ {A : Type 0} where
  abbrev pub member : String → Dict A → Bool
  member k [] = false
  member k ((j, a) ∷ d) = if str_eq j k then true else member k d

  -- an entry for a key that has none
  abbrev pub set_default : String → A → Dict A → Dict A
  set_default k a d = if member k d then d else d ++ (k, a) ∷ []

-- `a * m`
abbrev pub times : ℤ → ℕ → ℤ
times (pos a) m = pos (a * m)
times (negsuc a) m = neg (pos (suc a * m))

-- `j == n`, for any JSON value
abbrev pub equals_int : Json → ℤ → Bool
equals_int (int a) n = eq_ℤ a n
equals_int (bool true) n = eq_ℤ (pos 1) n
equals_int (bool false) n = eq_ℤ (pos 0) n
equals_int (float a k) n = eq_ℤ a (times n (2 ^ k))
equals_int _ n = false

-- `obs.get("wind")` and the like, or `{}` for what is no dictionary
abbrev pub sub_dict : String → Fields → Fields
sub_dict k fs = elim (as_dict (get_or_null k fs)) [ none ↦ end | some sub ↦ sub ]

-- `value.replace("Z", "+00:00")`
abbrev pub replace_z : String → String
replace_z String.[] = String.[]
replace_z (String.◌∷◌ c s) =
    let rest = replace_z s in if code c == b'Z' then "+00:00" <> rest else String.◌∷◌ c rest

-- what `fromisoformat` reads: a time with no zone, or an instant with one
pub data Timestamp : Type 0 where
  naive aware : ℕ → Timestamp

abbrev pub in_utc : Timestamp → ℕ
in_utc (naive t) = t
in_utc (aware t) = t

-- what the loops over `stations` do not skip: the dictionaries
abbrev pub dicts : List Json → List Fields
dicts [] = []
dicts (o ∷ os) = let rest = dicts os in elim (as_dict o) [ none ↦ rest | some obs ↦ obs ∷ rest ]

-- the observations of a body
abbrev pub stations_of : Json → List Fields
stations_of body = elim (as_dict body) [
  | none ↦ []
  | some fs ↦ elim (as_list (get_or_null "stations" fs)) [ none ↦ [] | some os ↦ dicts os ]
]

abbrev pub is_station : ℤ → Fields → Bool
is_station station_id obs = equals_int (get_or_null "station_id" obs) station_id

-- `earlier (ts, point) (ts', point')`
abbrev pub earlier : ℕ × Json → ℕ × Json → Bool
earlier a b = ltb a.0 b.0

abbrev pub points : List (ℕ × Json) → List Json
points [] = []
points ((t, point) ∷ ps) = point ∷ points ps

-- `per_station.setdefault(station_id, {})`, and what is done to the dictionary that it gives
abbrev pub at_station : ℤ → (Dict Json → Dict Json) → List (ℤ × Dict Json) → List (ℤ × Dict Json)
at_station n f [] = (n, f []) ∷ []
at_station n f ((m, d) ∷ per) = if eq_ℤ m n then (m, f d) ∷ per else (m, d) ∷ at_station n f per

module _ (fromisoformat : String → Option Timestamp) (magnus_dew_point : Json → Json → Json) where
  -- `parse_observed_at`, of a text
  unfoldable pub parse_observed_at : String → Option ℕ
  parse_observed_at value =
      if str_eq value ""
      then none
      else elim (fromisoformat (replace_z value)) [ none ↦ none | some t ↦ some (in_utc t) ]

  -- `_observation_to_point`
  unfoldable pub observation_to_point : Fields → Json
  observation_to_point obs =
      let wind = sub_dict "wind" obs in
      let weather = sub_dict "weather" obs in
      let of_obs : String → Json = λ k. get_or_null k obs in
      obj (
        field "observed_at" (of_obs "observed_at") (
          field "temperature" (of_obs "temperature") (
            field "feels_like" (of_obs "feels_like") (
              field "humidity" (of_obs "humidity") (
                field "pressure" (of_obs "pressure") (
                  field "visibility" (of_obs "visibility") (
                    field "dew_point" (magnus_dew_point (of_obs "temperature") (of_obs "humidity"))
                      (field "condition" (get_or_null "description" weather) (
                        field "wind_speed" (get_or_null "speed" wind) (
                          field "wind_deg" (get_or_null "deg" wind)
                            (field "wind_direction" (get_or_null "direction" wind) end)))))))))))

  -- a reading enters unless there is one of its time, and only if its time is a text
  abbrev pub add_at : Option String → Fields → Dict Json → Dict Json
  add_at none obs d = d
  add_at (some observed_at) obs d = set_default observed_at (observation_to_point obs) d

  abbrev pub add_reading : Fields → Dict Json → Dict Json
  add_reading obs d = add_at (as_str (get_or_null "observed_at" obs)) obs d

  abbrev pub parsed_points : Dict Json → List (ℕ × Json)
  parsed_points [] = []
  parsed_points ((raw, point) ∷ d) =
      let rest = parsed_points d in
      elim (parse_observed_at raw) [ none ↦ rest | some ts ↦ (ts, point) ∷ rest ]

  -- `_sorted_points`
  unfoldable pub sorted_points : Dict Json → List Json
  sorted_points d = points (sort earlier (parsed_points d))

  -- the loop over the observations of a body, which ends at the first one of the station
  unfoldable pub extract_body : ℤ → List Fields → Dict Json → Dict Json
  extract_body n [] d = d
  extract_body n (obs ∷ os) d =
      let rest = extract_body n os d in if is_station n obs then add_reading obs d else rest

  unfoldable pub extract_bodies : ℤ → List Json → Dict Json → Dict Json
  extract_bodies n [] d = d
  extract_bodies n (body ∷ bodies) d = extract_bodies n bodies (extract_body n (stations_of body) d)

  -- `extract_station_series`
  unfoldable pub extract_station_series : List Json → ℤ → List Json
  extract_station_series bodies n = sorted_points (extract_bodies n bodies [])

  abbrev pub pivot_at :
      Option ℤ → Option String → Fields → List (ℤ × Dict Json) → List (ℤ × Dict Json)
  pivot_at (some n) (some observed_at) obs per =
      at_station n (set_default observed_at (observation_to_point obs)) per
  pivot_at _ _ obs per = per

  -- one observation of the pivot
  unfoldable pub pivot_observation : Fields → List (ℤ × Dict Json) → List (ℤ × Dict Json)
  pivot_observation obs per =
      pivot_at (as_int (get_or_null "station_id" obs)) (as_str (get_or_null "observed_at" obs)) obs
        per

  unfoldable pub pivot_body : List Fields → List (ℤ × Dict Json) → List (ℤ × Dict Json)
  pivot_body [] per = per
  pivot_body (obs ∷ os) per = pivot_body os (pivot_observation obs per)

  unfoldable pub pivot_bodies : List Json → List (ℤ × Dict Json) → List (ℤ × Dict Json)
  pivot_bodies [] per = per
  pivot_bodies (body ∷ bodies) per = pivot_bodies bodies (pivot_body (stations_of body) per)

  abbrev pub all_sorted : List (ℤ × Dict Json) → List (ℤ × List Json)
  all_sorted [] = []
  all_sorted ((n, d) ∷ per) = (n, sorted_points d) ∷ all_sorted per

  -- `pivot_station_series`
  unfoldable pub pivot_station_series : List Json → List (ℤ × List Json)
  pivot_station_series bodies = all_sorted (pivot_bodies bodies [])
