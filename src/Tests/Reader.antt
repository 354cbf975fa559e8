-- ===== src/Tests/Reader.antt =====
-- Requests for tiles on concrete inputs.
use data_service.Common.{◌≡◌, refl, true, false, ◌||◌, none, some, [], ◌∷◌, if◌then◌else◌, str_eq}
use data_service.StorageCircuit.{
  new_circuit, allows_attempt, allows_write, is_open, in_probe_window,
}
use data_service.TileReader.{
  unreachable, ReaderConfig, ReadIo, Circuits, resolve_tile, try_provider, relay_circuit,
  download_from_provider, safe_get_miss, safe_get, after_provider, try_redis, try_s3, tier,
}
use data_service.TileReader.Chain.{first_hit, asks, marked, chain_writes, resolve_tile-tiers}
use data_service.Tests.Scraping.{storage}

abbrev reading : ReaderConfig
reading = record {
  providers = λ p. str_eq p "osm" || str_eq p "ign";
  online_fallback = true;
  redis_cache_enabled = true;
  s3_cache_enabled = true;
  negative_cache_enabled = true;
  relay_circuit_enabled = true;
  relay = storage;
}

-- the provider is down, Redis cannot be reached, S3 has the tile
abbrev outage : ReadIo
outage = record {
  miss = some false;
  asked_at = 10;
  upstream = unreachable;
  upstream_at = 12;
  redis = none;
  s3 = some (some (7 ∷ 8 ∷ []));
}

abbrev fresh : Circuits
fresh p = none

from_s3 : (resolve_tile reading "osm" outage fresh).tile ≡ some (7 ∷ 8 ∷ [])
unfolding resolve_tile try_provider relay_circuit download_from_provider safe_get_miss safe_get
    after_provider try_redis try_s3 allows_attempt allows_write is_open in_probe_window
from_s3 = refl

resolve_tile-tiers_example :
    let upstream = if asks reading "osm" outage fresh then none else none in
    let redis = tier true none in
    let s3 = tier true (some (some (7 ∷ 8 ∷ []))) in
    let served = resolve_tile reading "osm" outage fresh in
    (served.tile ≡ (if marked reading outage then none else first_hit (upstream ∷ redis ∷ s3 ∷ [])))
    × (served.writes
        ≡ (if marked reading outage then [] else chain_writes reading upstream redis s3))
resolve_tile-tiers_example = resolve_tile-tiers reading "osm" outage fresh

-- the circuit of one provider is open until 37
abbrev shut : Circuits
shut p =
    if str_eq p "osm"
    then some (record (new_circuit storage) { open_until = 37; opened_at = 7 })
    else none

osm-shut : allows_attempt (relay_circuit reading "osm" shut) 10 ≡ false
unfolding allows_attempt allows_write relay_circuit is_open in_probe_window
osm-shut = refl
