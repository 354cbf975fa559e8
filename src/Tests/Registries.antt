-- ===== src/Tests/Registries.antt =====
-- The station registry over concrete cycles.
use data_service.Common.{◌≡◌, refl, String, true, false, none, some, List, [], ◌∷◌}
use data_service.Common.Json.{Json, obj, end}
use data_service.Stations.Registry.{RegistryState, RegistryConfig, RegistryIo}
use data_service.Stations.Registry.Healing.{
  two_cycles, rewritten, registry_heals, bundle_overwrites,
}

-- a hash that only marks the text, and a parser that finds one station in any
abbrev hash : String → String
hash s = s

abbrev one_station : String → List Json
one_station text = obj end ∷ []

abbrev config : RegistryConfig
config = record {
  fallback_enabled = true;
  cache_enabled = true;
  registry_url = "https://smn.example/estaciones.zip";
  fallback_path = "resources/estaciones.txt";
}

abbrev live_cycle : RegistryIo
live_cycle = record {
  meta_readable = true;
  live = some "live";
  bundled = some "old";
  fetched_at = "2026-05-17T14:00:00Z";
  registry_put = true;
  meta_put = true;
  registry_readable = true;
}

abbrev stored_state : RegistryState
stored_state = record {
  stations_json = some (some (obj end));
  stations_meta_json = none;
  registry_hash = some "live";
  registry_bootstrapped = true;
}

abbrev swept : RegistryState
swept = record stored_state { stations_json = none }

registry_heals_example :
    two_cycles hash one_station config live_cycle live_cycle swept
    ≡ some (rewritten hash one_station config live_cycle "live" true swept)
registry_heals_example =
    registry_heals hash one_station config live_cycle live_cycle swept "live" refl refl refl refl
      refl refl refl refl refl refl

abbrev hiccup : RegistryIo
hiccup = record live_cycle { registry_readable = false }

abbrev smn_down : RegistryIo
smn_down = record live_cycle { live = none }

bundle_overwrites_example :
    two_cycles hash one_station config hiccup smn_down stored_state
    ≡ some (rewritten hash one_station config smn_down "old" false stored_state)
bundle_overwrites_example =
    bundle_overwrites hash one_station config hiccup smn_down stored_state "live" "old"
      (some (obj end)) refl refl refl refl refl refl refl refl refl refl refl refl refl
