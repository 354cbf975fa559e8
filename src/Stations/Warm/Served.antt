-- ===== src/Stations/Warm/Served.antt =====
-- What a reader is served from the warm series.
use data_service.Common.{
  ℕ, ◌≡◌, ◌≢◌, refl, sym, ap, ◌∙◌, String, Bool, true, false, Option, none, some, List, [], ◌∷◌,
  take, if◌then◌else◌, arith, All, Bool-cases, inl, inr, ne→==_false,
}
use data_service.Common.Int.{ℤ, eq_ℤ, eq_ℤ-iff}
use data_service.Common.Json.{Json, Fields, Document, arr, of_elements, as_int, as_str, get_or_null}
use data_service.Common.Text.{Text}
use data_service.Stations.Series.{
  Dict, Timestamp, set_default, observation_to_point, at_station, pivot_at, pivot_observation,
  pivot_body, pivot_bodies, stations_of, all_sorted, pivot_station_series, extract_station_series,
}
use data_service.Stations.Series.Agree.{station_series, IsPlain, pivot-extract_station_series}
use data_service.Stations.Reader.{SeriesCache, station_series_points, elements-of_elements}
use data_service.Stations.Warm.{WarmConfig, WarmIo, set_series, set_all, warm_station_series}

abbrev pub has_station {ℓ} : {A : Type ℓ} → ℤ → List (ℤ × A) → Bool
has_station n [] = false
has_station n ((m, a) ∷ per) = if eq_ℤ m n then true else has_station n per

abbrev IsDistinct {ℓ} : {A : Type ℓ} → List (ℤ × A) → Type 0
IsDistinct [] = Unit
IsDistinct ((m, a) ∷ per) = (has_station m per ≡ false) × IsDistinct per

at_station-has :
    (n m : ℤ) (f : Dict Json → Dict Json) (per : List (ℤ × Dict Json))
    → has_station m (at_station n f per) ≡ (if eq_ℤ n m then true else has_station m per)
at_station-has n m f [] = refl
at_station-has n m f ((k, d) ∷ per) =
    ground (arith, at_station-has n m f per, eq_ℤ-iff k m, eq_ℤ-iff n m, eq_ℤ-iff k n)

at_station-IsDistinct :
    (n : ℤ) (f : Dict Json → Dict Json) (per : List (ℤ × Dict Json))
    → IsDistinct per
    → IsDistinct (at_station n f per)
at_station-IsDistinct n f [] ok = (refl, tt)
at_station-IsDistinct n f ((m, d) ∷ per) (fresh, ok) = elim (Bool-cases (eq_ℤ m n)) [
  | inl same ↦ rw same (fresh, ok)
  | inr other ↦
      let other' : eq_ℤ n m ≡ false = ground (arith, eq_ℤ-iff m n, eq_ℤ-iff n m) in
      rw other (at_station-has n m f per ∙ rw other' fresh, at_station-IsDistinct n f per ok)
]

set_all-other :
    (io : WarmIo) (n : ℤ) (per : List (ℤ × List Json)) (series : SeriesCache)
    → has_station n per ≡ false
    → set_all io per series n ≡ series n
set_all-other io n [] series absent = refl
set_all-other io n ((m, ps) ∷ per) series absent = elim (Bool-cases (eq_ℤ m n)) [
  | inl same ↦ let bad : true ≡ false = (rw same at absent) in absurd cc
  | inr other ↦
      set_all-other io n per (set_series io m ps series) (rw other at absent)
      ∙ elim (Bool-cases (io.takes_series m)) [
        | inl taken ↦ rw (taken, other) refl
        | inr failed ↦ rw failed refl
      ]
]

set_all-has :
    (io : WarmIo) (n : ℤ) (per : List (ℤ × List Json)) (series : SeriesCache)
    → io.takes_series n ≡ true
    → IsDistinct per
    → has_station n per ≡ true
    → set_all io per series n ≡ some (some (arr (of_elements (station_series n per))))
set_all-has io n [] series taken distinct there = absurd cc
set_all-has io n ((m, ps) ∷ per) series taken distinct there = elim (Bool-cases (eq_ℤ m n)) [
  | inl same ↦
      let e = (eq_ℤ-iff m n).0 same in
      let taken' : io.takes_series m ≡ true = ap (λ x. io.takes_series x) e ∙ taken in
      let absent : has_station n per ≡ false = ap (λ x. has_station x per) (sym e) ∙ distinct.0 in
      set_all-other io n per (set_series io m ps series) absent ∙ rw (taken', same) refl
  | inr other ↦
      rw other
        (set_all-has io n per (set_series io m ps series) taken distinct.1 (rw other at there))
]

module _ (fromisoformat : String → Option Timestamp) (magnus_dew_point : Json → Json → Json) where
  pivot_at-IsDistinct :
      (id : Option ℤ) (time : Option String) (obs : Fields) (per : List (ℤ × Dict Json))
      → IsDistinct per
      → IsDistinct (pivot_at fromisoformat magnus_dew_point id time obs per)
  pivot_at-IsDistinct none time obs per ok = ok
  pivot_at-IsDistinct (some n) none obs per ok = ok
  pivot_at-IsDistinct (some n) (some time) obs per ok =
      at_station-IsDistinct n
        (set_default time (observation_to_point fromisoformat magnus_dew_point obs)) per ok

  pivot_body-IsDistinct :
      (os : List Fields) (per : List (ℤ × Dict Json))
      → IsDistinct per
      → IsDistinct (pivot_body fromisoformat magnus_dew_point os per)
  unfolding pivot_body pivot_observation
  pivot_body-IsDistinct [] per ok = ok
  pivot_body-IsDistinct (obs ∷ os) per ok =
      pivot_body-IsDistinct os (pivot_observation fromisoformat magnus_dew_point obs per) (
        pivot_at-IsDistinct (as_int (get_or_null "station_id" obs))
          (as_str (get_or_null "observed_at" obs)) obs per ok)

  pivot_bodies-IsDistinct :
      (bodies : List Json) (per : List (ℤ × Dict Json))
      → IsDistinct per
      → IsDistinct (pivot_bodies fromisoformat magnus_dew_point bodies per)
  unfolding pivot_bodies
  pivot_bodies-IsDistinct [] per ok = ok
  pivot_bodies-IsDistinct (body ∷ bodies) per ok =
      pivot_bodies-IsDistinct bodies
        (pivot_body fromisoformat magnus_dew_point (stations_of body) per)
        (pivot_body-IsDistinct (stations_of body) per ok)

  all_sorted-has :
      (n : ℤ) (per : List (ℤ × Dict Json))
      → has_station n (all_sorted fromisoformat magnus_dew_point per) ≡ has_station n per
  all_sorted-has n [] = refl
  all_sorted-has n ((m, d) ∷ per) = ap (λ b. if eq_ℤ m n then true else b) (all_sorted-has n per)

  all_sorted-IsDistinct :
      (per : List (ℤ × Dict Json))
      → IsDistinct per
      → IsDistinct (all_sorted fromisoformat magnus_dew_point per)
  all_sorted-IsDistinct [] ok = tt
  all_sorted-IsDistinct ((m, d) ∷ per) (fresh, ok) =
      (all_sorted-has m per ∙ fresh, all_sorted-IsDistinct per ok)

  warmed :
      (cfg : WarmConfig) (io : WarmIo) (body : Json) (bodies : List Json) (n : ℤ)
      (series : SeriesCache)
      → cfg.cache_enabled ≡ true
      → cfg.series_hours ≢ 0
      → io.takes_series n ≡ true
      → has_station n (
          pivot_station_series fromisoformat magnus_dew_point
            (take cfg.series_hours (body ∷ bodies)))
        ≡ true
      → warm_station_series fromisoformat magnus_dew_point cfg io (body ∷ bodies) series n
        ≡ some (
            some (
              arr (
                of_elements (
                  station_series n (
                    pivot_station_series fromisoformat magnus_dew_point
                      (take cfg.series_hours (body ∷ bodies)))))))
  unfolding warm_station_series pivot_station_series
  warmed cfg io body bodies n series enabled hours taken there =
      let used = take cfg.series_hours (body ∷ bodies) in
      let distinct = all_sorted-IsDistinct _ (pivot_bodies-IsDistinct used [] tt) in
      rw (enabled, ne→==_false cfg.series_hours 0 hours)
        (set_all-has io n
          (all_sorted fromisoformat magnus_dew_point
            (pivot_bodies fromisoformat magnus_dew_point used []))
          series taken distinct there)

  -- After the series are warmed from some bodies, a request for a station that occurs in the last
  -- `series_hours` of them is answered, whatever hours it asks for, with the series that the reader
  -- would extract from these, if each of them has at most one observation of the station and Redis took
  -- the write.
  pub warm_station_series-served :
      (cfg : WarmConfig) (io : WarmIo) (body : Json) (bodies : List Json) (n : ℤ)
      (series : SeriesCache) (document : Text → Document) (keys : List Text) (hours : ℕ)
      → cfg.cache_enabled ≡ true
      → cfg.series_hours ≢ 0
      → io.takes_series n ≡ true
      → has_station n (
          pivot_station_series fromisoformat magnus_dew_point
            (take cfg.series_hours (body ∷ bodies)))
        ≡ true
      → All (IsPlain n) (take cfg.series_hours (body ∷ bodies))
      → (station_series_points fromisoformat magnus_dew_point true document keys n hours
          (warm_station_series fromisoformat magnus_dew_point cfg io (body ∷ bodies) series)).0
        ≡ extract_station_series fromisoformat magnus_dew_point
            (take cfg.series_hours (body ∷ bodies))
            n
  unfolding station_series_points
  warm_station_series-served cfg io body bodies n series document keys hours enabled some_hours
        taken there plain =
      let used = take cfg.series_hours (body ∷ bodies) in
      let per = pivot_station_series fromisoformat magnus_dew_point used in
      rw (warmed cfg io body bodies n series enabled some_hours taken there) (
        elements-of_elements fromisoformat magnus_dew_point (station_series n per)
        ∙ pivot-extract_station_series fromisoformat magnus_dew_point used n plain)
