-- ===== src/Stations/Registry/Healing.antt =====
-- How the registry is kept over two cycles.
use text.Mathlib.TextPositions.{eq_refl}
use data_service.Common.{
  ◌≡◌, String, Bool, true, false, Option, none, some, List, arith, Bool-cases, inl, inr,
}
use data_service.Common.Json.{Json, Document}
use data_service.Stations.Registry.{
  RegistryState, RegistryConfig, RegistryIo, registry_payload, meta_payload, has_stations,
  maybe_bootstrap_registry_hash, refresh_registry_if_changed, warm_registry_cache, registry_cycle,
}

module _ (sha256 : String → String) (parse_estaciones_txt : String → List Json) where
  abbrev pub two_cycles :
      RegistryConfig → RegistryIo → RegistryIo → RegistryState → Option RegistryState
  two_cycles cfg io io' s = elim (registry_cycle sha256 parse_estaciones_txt cfg io s) [
    | none ↦ none
    | some s' ↦ registry_cycle sha256 parse_estaciones_txt cfg io' s'
  ]

  -- A cycle with an unchanged registry, upstream and in a bucket that answers, changes nothing.
  pub registry_cycle_steady :
      (cfg : RegistryConfig) (io : RegistryIo) (s : RegistryState) (text : String)
      (stored : Document)
      → s.registry_bootstrapped ≡ true
      → s.stations_json ≡ some stored
      → s.registry_hash ≡ some (sha256 text)
      → io.live ≡ some text
      → io.registry_readable ≡ true
      → registry_cycle sha256 parse_estaciones_txt cfg io s ≡ some s
  unfolding registry_cycle maybe_bootstrap_registry_hash refresh_registry_if_changed
      warm_registry_cache
  registry_cycle_steady cfg io s text stored booted here known live readable =
      ground (arith, eq_refl (sha256 text))

  -- the state after a refresh that wrote both objects
  abbrev pub rewritten : RegistryConfig → RegistryIo → String → Bool → RegistryState → RegistryState
  rewritten cfg io text live s = record s {
    stations_json = some (registry_payload sha256 parse_estaciones_txt cfg io text live);
    stations_meta_json = some (meta_payload sha256 parse_estaciones_txt io text live);
    registry_hash = some (sha256 text);
  }

  -- A registry that has gone from the bucket is written again by the cycle after the next, though the
  -- text upstream is the one that was stored: with the cache on, in cycles whose requests go through.
  pub registry_heals :
      (cfg : RegistryConfig) (io io' : RegistryIo) (s : RegistryState) (text : String)
      → cfg.cache_enabled ≡ true
      → s.registry_bootstrapped ≡ true
      → s.stations_json ≡ none
      → s.registry_hash ≡ some (sha256 text)
      → has_stations (parse_estaciones_txt text) ≡ true
      → io.live ≡ some text
      → io'.live ≡ some text
      → io'.registry_put ≡ true
      → io'.meta_put ≡ true
      → io'.registry_readable ≡ true
      → two_cycles cfg io io' s ≡ some (rewritten cfg io' text true s)
  unfolding registry_cycle maybe_bootstrap_registry_hash refresh_registry_if_changed
      warm_registry_cache
  registry_heals cfg io io' s text cached booted gone known found live live' put put' readable =
      elim (Bool-cases io.registry_readable) [
        | inl yes_readable ↦ ground (arith, eq_refl (sha256 text))
        | inr no_answer ↦ ground (arith, eq_refl (sha256 text))
      ]

  -- A read that fails once makes the service forget the hash, and if the provider of the registry is
  -- down in the next cycle, the bundled copy replaces the stored one, whatever is stored.
  pub bundle_overwrites :
      (cfg : RegistryConfig) (io io' : RegistryIo) (s : RegistryState) (live text : String)
      (stored : Document)
      → cfg.cache_enabled ≡ true
      → cfg.fallback_enabled ≡ true
      → s.registry_bootstrapped ≡ true
      → s.stations_json ≡ some stored
      → s.registry_hash ≡ some (sha256 live)
      → has_stations (parse_estaciones_txt text) ≡ true
      → io.live ≡ some live
      → io.registry_readable ≡ false
      → io'.live ≡ none
      → io'.bundled ≡ some text
      → io'.registry_put ≡ true
      → io'.meta_put ≡ true
      → io'.registry_readable ≡ true
      → two_cycles cfg io io' s ≡ some (rewritten cfg io' text false s)
  unfolding registry_cycle maybe_bootstrap_registry_hash refresh_registry_if_changed
      warm_registry_cache
  bundle_overwrites cfg io io' s live text stored cached fallback booted here known found up hiccup
        down bundled put put' readable =
      ground (arith, eq_refl (sha256 live))

  -- While a hash is known, a cycle whose fetch fails writes nothing to the bucket.
  pub bundle_only_seeds :
      (cfg : RegistryConfig) (io : RegistryIo) (s : RegistryState) (h : String)
      → s.registry_hash ≡ some h
      → io.live ≡ none
      → refresh_registry_if_changed sha256 parse_estaciones_txt cfg io s ≡ s
  unfolding refresh_registry_if_changed
  bundle_only_seeds cfg io s h known down = ground arith
