-- ===== src/Stations/Registry.antt =====
-- src/services/weather_stations_scraper_service.py: the station registry of the scraper, with its three
-- sources, and the part of a cycle that tends it. Two objects of the bucket matter, the registry and
-- its meta data. The hash and the parser of the registry's text are arguments. Redis writes and log
-- lines are left out.
pub mod Healing
use data_service.Common.{
  ℕ, String, Bool, true, false, not, ◌&&◌, Option, none, some, List, [], ◌∷◌, length, str_eq,
  is_some, if◌then◌else◌,
}
use data_service.Common.Int.{ℤ, pos}
use data_service.Common.Json.{
  Json, Document, int, str, arr, obj, end, field, of_elements, as_dict, as_str, get_or_null,
}

-- what the bucket and the service hold
pub record RegistryState : Type 0 where
  pub stations_json : Option Document
  pub stations_meta_json : Option Document
  pub registry_hash : Option String
  pub registry_bootstrapped : Bool

pub record RegistryConfig : Type 0 where
  pub fallback_enabled : Bool
  pub cache_enabled : Bool
  pub registry_url : String
  pub fallback_path : String

-- What the world answers in one cycle: the live text and the bundled one, whether each GET and each PUT
-- request goes through, and the time.
pub record RegistryIo : Type 0 where
  pub meta_readable : Bool
  pub live : Option String
  pub bundled : Option String
  pub fetched_at : String
  pub registry_put : Bool
  pub meta_put : Bool
  pub registry_readable : Bool

pub data ReadResult : Type 0 where
  -- `download_tile` gives `None` both for a missing object and for a bucket that it cannot reach
  absent : ReadResult
  body : Document → ReadResult

abbrev pub download : Bool → Option Document → ReadResult
download true (some document) = body document
download true none = absent
download false object = absent

-- where the text came from
abbrev pub source_name : Bool → String
source_name true = "remote"
source_name false = "bundled"

-- the hash that the stored meta data names; `none` is an exception that the code does not catch
abbrev pub stored_hash : Option String → ReadResult → Option (Option String)
stored_hash known absent = some known
stored_hash known (body none) = some known
stored_hash known (body (some meta)) = elim (as_dict meta) [
  | none ↦ none
  | some fs ↦ elim (as_str (get_or_null "source_hash" fs)) [
    | none ↦ some known
    | some h ↦ some (some h)
  ]
]

abbrev pub adopt_hash : Option (Option String) → RegistryState → Option RegistryState
adopt_hash none s = none
adopt_hash (some known) s = some (record s { registry_hash = known; registry_bootstrapped = true })

-- `_maybe_bootstrap_registry_hash`
unfoldable pub maybe_bootstrap_registry_hash : RegistryIo → RegistryState → Option RegistryState
maybe_bootstrap_registry_hash io s =
    if s.registry_bootstrapped
    then some s
    else adopt_hash (stored_hash s.registry_hash (download io.meta_readable s.stations_meta_json)) s

-- `_should_seed_from_bundle`
abbrev pub should_seed_from_bundle : RegistryConfig → RegistryState → Bool
should_seed_from_bundle cfg s = cfg.fallback_enabled && not (is_some s.registry_hash)

-- the text to use, and whether it is live: `none` skips the refresh
abbrev pub text_to_use : RegistryConfig → RegistryIo → RegistryState → Option (String × Bool)
text_to_use cfg io s = elim io.live [
  | some text ↦ some (text, true)
  | none ↦
      if should_seed_from_bundle cfg s
      then elim io.bundled [ none ↦ none | some text ↦ some (text, false) ]
      else none
]

abbrev pub same_hash : Option String → String → Bool
same_hash none h = false
same_hash (some g) h = str_eq h g

abbrev pub has_stations : List Json → Bool
has_stations [] = false
has_stations (j ∷ js) = true

module _ (sha256 : String → String) (parse_estaciones_txt : String → List Json) where
  abbrev pub registry_payload : RegistryConfig → RegistryIo → String → Bool → Document
  registry_payload cfg io text live = some (
      obj (
        field "fetched_at" (str io.fetched_at) (
          field "source_url" (str (if live then cfg.registry_url else cfg.fallback_path)) (
            field "source" (str (source_name live))
              (field "stations" (arr (of_elements (parse_estaciones_txt text))) end)))))

  abbrev pub meta_payload : RegistryIo → String → Bool → Document
  meta_payload io text live = some (
      obj (
        field "source_hash" (str (sha256 text)) (
          field "station_count" (int (pos (length (parse_estaciones_txt text)))) (
            field "updated_at" (str io.fetched_at) (field "source" (str (source_name live)) end)))))

  -- the two PUT requests, the second of which is not tried when the first one fails
  abbrev pub upload : RegistryConfig → RegistryIo → String → Bool → RegistryState → RegistryState
  upload cfg io text live s =
      let one = record s { stations_json = some (registry_payload cfg io text live) } in
      let both = record s {
        stations_json = some (registry_payload cfg io text live);
        stations_meta_json = some (meta_payload io text live);
        registry_hash = some (sha256 text);
      } in
      if not io.registry_put then s else (if not io.meta_put then one else both)

  abbrev pub refresh_from :
      RegistryConfig → RegistryIo → Option (String × Bool) → RegistryState → RegistryState
  refresh_from cfg io none s = s
  refresh_from cfg io (some (text, live)) s =
      if same_hash s.registry_hash (sha256 text)
      then s
      else (if not (has_stations (parse_estaciones_txt text)) then s else upload cfg io text live s)

  -- `_refresh_registry_if_changed`
  unfoldable pub refresh_registry_if_changed :
      RegistryConfig → RegistryIo → RegistryState → RegistryState
  refresh_registry_if_changed cfg io s = refresh_from cfg io (text_to_use cfg io s) s

  abbrev pub warm_from : ReadResult → RegistryState → RegistryState
  warm_from absent s = record s { registry_hash = none }
  warm_from (body document) s = s

  -- `_warm_registry_cache`
  unfoldable pub warm_registry_cache : RegistryConfig → RegistryIo → RegistryState → RegistryState
  warm_registry_cache cfg io s =
      if not cfg.cache_enabled
      then s
      else warm_from (download io.registry_readable s.stations_json) s

  -- the registry's part of `_run_sync`
  unfoldable pub registry_cycle : RegistryConfig → RegistryIo → RegistryState → Option RegistryState
  registry_cycle cfg io s = elim (maybe_bootstrap_registry_hash io s) [
    | none ↦ none
    | some s' ↦ some (warm_registry_cache cfg io (refresh_registry_if_changed cfg io s'))
  ]
