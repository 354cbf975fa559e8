-- ===== src/Stations/Series/Agree.antt =====
-- The reader's series and the scraper's are the same, for bodies with one observation of the station.
use data_service.Common.{
  ℕ, suc, ◌≤◌, ◌≡◌, refl, ap, ◌∙◌, String, Bool, true, false, Option, none, some, List, [], ◌∷◌,
  arith, Bool-cases, inl, inr, if◌then◌else◌, All,
}
use data_service.Common.Int.{ℤ, eq_ℤ, eq_ℤ-iff}
use data_service.Common.Sort.{sort}
use data_service.Common.Json.{Json, Fields, as_int, as_str, get_or_null}
use data_service.Stations.Series.{
  Dict, Timestamp, set_default, stations_of, is_station, at_station, add_at, add_reading, pivot_at,
  observation_to_point, sorted_points, extract_body, extract_bodies, extract_station_series,
  pivot_observation, pivot_body, pivot_bodies, all_sorted, pivot_station_series,
}

-- `per_station.get(n, {})`
abbrev pub station_dict : ℤ → List (ℤ × Dict Json) → Dict Json
station_dict n [] = []
station_dict n ((m, d) ∷ per) = if eq_ℤ m n then d else station_dict n per

-- `series.get(n, [])`
abbrev pub station_series : ℤ → List (ℤ × List Json) → List Json
station_series n [] = []
station_series n ((m, ps) ∷ per) = if eq_ℤ m n then ps else station_series n per

abbrev pub count_station : ℤ → List Fields → ℕ
count_station n [] = 0
count_station n (obs ∷ os) =
    if is_station n obs then suc (count_station n os) else count_station n os

-- the test of the pivot
abbrev pub is_id : ℤ → Option ℤ → Bool
is_id n none = false
is_id n (some m) = eq_ℤ m n

abbrev pub has_int_id : ℤ → Fields → Bool
has_int_id n obs = is_id n (as_int (get_or_null "station_id" obs))

-- A body has at most one observation of the station, and an id that the reader takes for the station's
-- is a whole number and not, say, 5.0.
abbrev pub IsPlain : ℤ → Json → Type 0
IsPlain n body =
    (count_station n (stations_of body) ≤ 1)
    × All (λ obs. has_int_id n obs ≡ is_station n obs) (stations_of body)

at_station-dict :
    (n m : ℤ) (f : Dict Json → Dict Json) (per : List (ℤ × Dict Json))
    → station_dict n (at_station m f per)
      ≡ (if eq_ℤ m n then f (station_dict n per) else station_dict n per)
at_station-dict n m f [] = refl
at_station-dict n m f ((k, d) ∷ per) =
    ground (arith, at_station-dict n m f per, eq_ℤ-iff k m, eq_ℤ-iff m n, eq_ℤ-iff k n)

if_same {ℓ} : {A : Type ℓ} (b : Bool) (a : A) → a ≡ (if b then a else a)
if_same true a = refl
if_same false a = refl

module _ (fromisoformat : String → Option Timestamp) (magnus_dew_point : Json → Json → Json) where
  -- what the pivot does to the dictionary of one station
  abbrev read_all : ℤ → List Fields → Dict Json → Dict Json
  read_all n [] d = d
  read_all n (obs ∷ os) d =
      read_all n os
        (if has_int_id n obs then add_reading fromisoformat magnus_dew_point obs d else d)

  pivot_at-dict :
      (n : ℤ) (id : Option ℤ) (time : Option String) (obs : Fields) (per : List (ℤ × Dict Json))
      → station_dict n (pivot_at fromisoformat magnus_dew_point id time obs per) ≡ (
          if is_id n id
          then add_at fromisoformat magnus_dew_point time obs (station_dict n per)
          else station_dict n per)
  pivot_at-dict n none time obs per = refl
  pivot_at-dict n (some m) none obs per = if_same (eq_ℤ m n) (station_dict n per)
  pivot_at-dict n (some m) (some time) obs per =
      at_station-dict n m
        (set_default time (observation_to_point fromisoformat magnus_dew_point obs)) per

  pivot_body-dict :
      (n : ℤ) (os : List Fields) (per : List (ℤ × Dict Json))
      → station_dict n (pivot_body fromisoformat magnus_dew_point os per)
        ≡ read_all n os (station_dict n per)
  unfolding pivot_body pivot_observation
  pivot_body-dict n [] per = refl
  pivot_body-dict n (obs ∷ os) per =
      pivot_body-dict n os (pivot_observation fromisoformat magnus_dew_point obs per)
      ∙ ap (read_all n os) (
          pivot_at-dict n (as_int (get_or_null "station_id" obs))
            (as_str (get_or_null "observed_at" obs)) obs per)

  -- without an observation of the station, nothing is read
  read_all_none :
      (n : ℤ) (os : List Fields) (d : Dict Json)
      → count_station n os ≡ 0
      → All (λ obs. has_int_id n obs ≡ is_station n obs) os
      → read_all n os d ≡ d
  read_all_none n [] d absent plain = refl
  read_all_none n (obs ∷ os) d absent plain = elim (Bool-cases (is_station n obs)) [
    | inl here ↦ absurd (ground (arith, here))
    | inr other ↦ rw (plain.0 ∙ other) (read_all_none n os d (rw other at absent) plain.1)
  ]

  read_all-extract_body :
      (n : ℤ) (os : List Fields) (d : Dict Json)
      → count_station n os ≤ 1
      → All (λ obs. has_int_id n obs ≡ is_station n obs) os
      → read_all n os d ≡ extract_body fromisoformat magnus_dew_point n os d
  unfolding extract_body
  read_all-extract_body n [] d once plain = refl
  read_all-extract_body n (obs ∷ os) d once plain = elim (Bool-cases (is_station n obs)) [
    | inl here ↦
        rw (plain.0 ∙ here, here)
          (read_all_none n os (add_reading fromisoformat magnus_dew_point obs d)
            (omega (arith, (rw here at once))) plain.1)
    | inr other ↦
        rw (plain.0 ∙ other, other) (read_all-extract_body n os d (rw other at once) plain.1)
  ]

  pivot_bodies-dict :
      (n : ℤ) (bodies : List Json) (per : List (ℤ × Dict Json))
      → All (IsPlain n) bodies
      → station_dict n (pivot_bodies fromisoformat magnus_dew_point bodies per)
        ≡ extract_bodies fromisoformat magnus_dew_point n bodies (station_dict n per)
  unfolding pivot_bodies extract_bodies
  pivot_bodies-dict n [] per plain = refl
  pivot_bodies-dict n (body ∷ bodies) per plain =
      let os = stations_of body in
      pivot_bodies-dict n bodies (pivot_body fromisoformat magnus_dew_point os per) plain.1
      ∙ ap (extract_bodies fromisoformat magnus_dew_point n bodies) (
          pivot_body-dict n os per
          ∙ read_all-extract_body n os (station_dict n per) plain.0.0 plain.0.1)

  all_sorted-series :
      (n : ℤ) (per : List (ℤ × Dict Json))
      → station_series n (all_sorted fromisoformat magnus_dew_point per)
        ≡ sorted_points fromisoformat magnus_dew_point (station_dict n per)
  unfolding sorted_points sort
  all_sorted-series n [] = refl
  all_sorted-series n ((m, d) ∷ per) = ground (arith, all_sorted-series n per)

  -- The series that the scraper warms for a station is the one that the reader rebuilds from the same
  -- bodies, if each body has at most one observation of the station.
  pub pivot-extract_station_series :
      (bodies : List Json) (n : ℤ)
      → All (IsPlain n) bodies
      → station_series n (pivot_station_series fromisoformat magnus_dew_point bodies)
        ≡ extract_station_series fromisoformat magnus_dew_point bodies n
  unfolding pivot_station_series extract_station_series
  pivot-extract_station_series bodies n plain =
      all_sorted-series n (pivot_bodies fromisoformat magnus_dew_point bodies [])
      ∙ ap (sorted_points fromisoformat magnus_dew_point) (pivot_bodies-dict n bodies [] plain)
