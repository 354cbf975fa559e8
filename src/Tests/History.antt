-- ===== src/Tests/History.antt =====
-- Station histories on concrete bodies.
use data_service.Common.{
  ℕ, ◌≡◌, refl, String, Option, none, some, List, [], ◌∷◌, All, length, str_eq, if◌then◌else◌,
  arith,
}
use data_service.Common.Int.{pos}
use data_service.Common.Sort.{sort}
use data_service.Common.Json.{Json, null, int, str, arr, obj, end, field, nil, cons}
use data_service.Stations.Series.{
  Timestamp, aware, parse_observed_at, observation_to_point, sorted_points, extract_body,
  extract_bodies, extract_station_series, pivot_observation, pivot_body, pivot_bodies,
  pivot_station_series,
}
use data_service.Stations.Series.Agree.{station_series, IsPlain, pivot-extract_station_series}

-- two instants of one day
abbrev pub clock : String → Option Timestamp
clock s =
    if str_eq s "12:00+00:00"
    then some (aware 43200)
    else (if str_eq s "13:00+00:00" then some (aware 46800) else none)

abbrev pub no_dew : Json → Json → Json
no_dew t h = null

abbrev pub reading : ℕ → String → Json
reading n time = obj (field "station_id" (int (pos n)) (field "observed_at" (str time) end))

abbrev pub body : Json → Json → Json
body a b = obj (field "stations" (arr (cons a (cons b nil))) end)

-- the later body first, and the first reading of it again in the second
abbrev bodies : List Json
bodies =
    body (reading 7 "13:00Z") (reading 8 "13:00Z")
    ∷ body (reading 9 "12:00Z") (reading 7 "12:00Z")
    ∷ body (reading 7 "13:00Z") null
    ∷ []

IsPlain-bodies : All (IsPlain (pos 7)) bodies
IsPlain-bodies = (
  (omega arith, (refl, (refl, tt))),
  ((omega arith, (refl, (refl, tt))), ((omega arith, (refl, tt)), tt)),
)

two_points :
    extract_station_series clock no_dew bodies (pos 7)
    ≡ observation_to_point clock no_dew
        (field "station_id" (int (pos 7)) (field "observed_at" (str "12:00Z") end))
      ∷ observation_to_point clock no_dew
          (field "station_id" (int (pos 7)) (field "observed_at" (str "13:00Z") end))
      ∷ []
unfolding extract_station_series extract_bodies extract_body sorted_points sort parse_observed_at
    observation_to_point
two_points = refl

pivot-extract_station_series_example :
    station_series (pos 7) (pivot_station_series clock no_dew bodies)
    ≡ extract_station_series clock no_dew bodies (pos 7)
pivot-extract_station_series_example =
    pivot-extract_station_series clock no_dew bodies (pos 7) IsPlain-bodies

-- A body with two readings of a station: the scraper keeps both, the reader the first.
abbrev twice : List Json
twice = body (reading 7 "12:00Z") (reading 7 "13:00Z") ∷ []

kept_both : length (station_series (pos 7) (pivot_station_series clock no_dew twice)) ≡ 2
unfolding pivot_station_series pivot_bodies pivot_body pivot_observation sorted_points sort
    parse_observed_at observation_to_point
kept_both = refl

kept_one : length (extract_station_series clock no_dew twice (pos 7)) ≡ 1
unfolding extract_station_series extract_bodies extract_body sorted_points sort parse_observed_at
    observation_to_point
kept_one = refl
