-- ===== src/TileReader.antt =====
-- src/services/basemap_tile_reader.py: the chain that answers one request for a tile, and the relay
-- circuits that guard the providers. What the provider and the caches answer is an argument. The
-- single flight of equal requests, the deadline of a request and the throttling of the background
-- writes are left out; the writes that a request schedules are part of its result.
pub mod Chain
pub mod Relay
use data_service.Common.{
  ℕ, String, Bool, true, false, not, ◌&&◌, ◌||◌, Option, none, some, List, [], ◌∷◌, ◌++◌,
  if◌then◌else◌, str_eq,
}
use data_service.StorageCircuit.{
  CircuitConfig, StorageCircuit, new_circuit, allows_attempt, record_success, record_failure,
}

-- the bytes of a tile
abbrev pub Bytes : Type 0
Bytes = List ℕ

-- `download_tile`: it raised `ProviderUnavailableError`, or returned something or `None`. Any other
-- exception would leave the request; there is no case for one.
pub data Upstream : Type 0 where
  unreachable : Upstream
  answered : Option Bytes → Upstream

-- The settings that `__init__` keeps. `providers` says which ids are known.
pub record ReaderConfig : Type 0 where
  pub providers : String → Bool
  pub online_fallback : Bool
  pub redis_cache_enabled : Bool
  pub s3_cache_enabled : Bool
  pub negative_cache_enabled : Bool
  pub relay_circuit_enabled : Bool
  pub relay : CircuitConfig

-- what the world answers to one request; `none` of a lookup is a transport error
pub record ReadIo : Type 0 where
  pub miss : Option Bool
  pub asked_at : ℕ
  pub upstream : Upstream
  pub upstream_at : ℕ
  pub redis : Option (Option Bytes)
  pub s3 : Option (Option Bytes)

-- the background writes, in the order in which they are scheduled
pub data CacheWrite : Type 0 where
  redis_write s3_write : Bytes → CacheWrite
  miss_mark : CacheWrite

-- `_relay_circuits`
abbrev pub Circuits : Type 0
Circuits = String → Option StorageCircuit

abbrev pub put_circuit : String → StorageCircuit → Circuits → Circuits
put_circuit p c circuits = λ q. if str_eq q p then some c else circuits q

-- what a request returns, beside the circuits
pub record Served : Type 0 where
  pub circuits : Circuits
  pub tile : Option Bytes
  pub writes : List CacheWrite

abbrev pub or_new : CircuitConfig → Option StorageCircuit → StorageCircuit
or_new cfg none = new_circuit cfg
or_new cfg (some c) = c

-- `_relay_circuit`, when the breaker is enabled: the provider's circuit, made on first use
unfoldable pub relay_circuit : ReaderConfig → String → Circuits → StorageCircuit
relay_circuit cfg p circuits = or_new cfg.relay (circuits p)

-- `_download_from_provider`: the circuit afterwards, and what came
unfoldable pub download_from_provider :
    Upstream → ℕ → StorageCircuit → StorageCircuit × Option Bytes
download_from_provider unreachable now c = ((record_failure c now).0, none)
download_from_provider (answered data_) now c = ((record_success c now).0, data_)

abbrev pub bytes_of : Upstream → Option Bytes
bytes_of unreachable = none
bytes_of (answered data_) = data_

-- `_try_provider`
unfoldable pub try_provider : ReaderConfig → String → ReadIo → Circuits → Circuits × Option Bytes
try_provider cfg p io circuits =
    let c = relay_circuit cfg p circuits in
    let (after, got) = download_from_provider io.upstream io.upstream_at c in
    if not cfg.online_fallback || not (cfg.providers p)
    then (circuits, none)
    else if not cfg.relay_circuit_enabled
    then (circuits, bytes_of io.upstream)
    else if not (allows_attempt c io.asked_at)
    then (put_circuit p c circuits, none)
    else (put_circuit p after circuits, got)

-- `_safe_get_miss`
unfoldable pub safe_get_miss : Option Bool → Bool
safe_get_miss none = false
safe_get_miss (some b) = b

-- `_safe_redis_get` and `_safe_s3_get`, and the test that follows them: no bytes are no hit
unfoldable pub safe_get : Option (Option Bytes) → Option Bytes
safe_get none = none
safe_get (some none) = none
safe_get (some (some [])) = none
safe_get (some (some (b ∷ bs))) = some (b ∷ bs)

abbrev pub when : Bool → CacheWrite → List CacheWrite
when b w = if b then w ∷ [] else []

-- the tail of the chain: a miss of all tiers
abbrev pub full_miss : ReaderConfig → Circuits → Served
full_miss cfg circuits = record {
  circuits = circuits;
  tile = none;
  writes = when cfg.negative_cache_enabled miss_mark;
}

-- tier 3
unfoldable pub try_s3 : ReaderConfig → Circuits → Option Bytes → Served
try_s3 cfg circuits none = full_miss cfg circuits
try_s3 cfg circuits (some data_) = record {
  circuits = circuits;
  tile = some data_;
  writes = when cfg.redis_cache_enabled (redis_write data_);
}

-- tier 2, given what tier 3 has
unfoldable pub try_redis : ReaderConfig → Circuits → Option Bytes → Option Bytes → Served
try_redis cfg circuits none s3 = try_s3 cfg circuits s3
try_redis cfg circuits (some data_) s3 = record {
  circuits = circuits;
  tile = some data_;
  writes = [];
}

-- a tier that may be off
abbrev pub tier : Bool → Option (Option Bytes) → Option Bytes
tier enabled got = if enabled then safe_get got else none

-- what follows tier 1
unfoldable pub after_provider : ReaderConfig → ReadIo → Circuits × Option Bytes → Served
after_provider cfg io (circuits, some data_) = record {
  circuits = circuits;
  tile = some data_;
  writes =
      when cfg.redis_cache_enabled (redis_write data_)
      ++ when cfg.s3_cache_enabled (s3_write data_);
}
after_provider cfg io (circuits, none) =
    try_redis cfg circuits (tier cfg.redis_cache_enabled io.redis) (tier cfg.s3_cache_enabled io.s3)

-- `_resolve_tile`
unfoldable pub resolve_tile : ReaderConfig → String → ReadIo → Circuits → Served
resolve_tile cfg p io circuits =
    if cfg.negative_cache_enabled && safe_get_miss io.miss
    then record { circuits = circuits; tile = none; writes = [] }
    else after_provider cfg io (try_provider cfg p io circuits)
