-- ===== src/TileReader/Relay.antt =====
-- The relay circuits: a provider that is known to be down costs a request nothing, and no provider's
-- trouble touches another.
use data_service.Common.{
  ◌≡◌, refl, ◌∙◌, ap, String, true, false, ◌&&◌, Option, none, some, [], if◌then◌else◌, if_both,
  arith, str_eq,
}
use data_service.StorageCircuit.{allows_attempt}
use data_service.TileReader.{
  Bytes, Upstream, ReaderConfig, ReadIo, Circuits, Served, relay_circuit, try_provider,
  safe_get_miss, try_s3, try_redis, tier, after_provider, resolve_tile,
}

asks_nothing :
    (cfg : ReaderConfig) (p : String) (io : ReadIo) (u : Upstream) (circuits : Circuits)
    → cfg.relay_circuit_enabled ≡ true
    → allows_attempt (relay_circuit cfg p circuits) io.asked_at ≡ false
    → try_provider cfg p (record io { upstream = u }) circuits ≡ try_provider cfg p io circuits
unfolding try_provider
asks_nothing cfg p io u circuits on shut = ground arith

-- While the relay circuit of a provider is open and its cooldown runs, the provider plays no part: a
-- request is answered in the same way, with the same writes and circuits, whatever the provider says.
pub resolve_tile-shut :
    (cfg : ReaderConfig) (p : String) (io : ReadIo) (u : Upstream) (circuits : Circuits)
    → cfg.relay_circuit_enabled ≡ true
    → allows_attempt (relay_circuit cfg p circuits) io.asked_at ≡ false
    → resolve_tile cfg p (record io { upstream = u }) circuits ≡ resolve_tile cfg p io circuits
unfolding resolve_tile after_provider
resolve_tile-shut cfg p io u circuits on shut =
    ap
      (λ tried.
        if cfg.negative_cache_enabled && safe_get_miss io.miss
        then record { circuits = circuits; tile = none; writes = [] }
        else after_provider cfg io tried)
      (asks_nothing cfg p io u circuits on shut)

try_provider-other :
    (cfg : ReaderConfig) (p q : String) (io : ReadIo) (circuits : Circuits)
    → str_eq q p ≡ false
    → (try_provider cfg p io circuits).0 q ≡ circuits q
unfolding try_provider
try_provider-other cfg p q io circuits other = ground arith

after_provider-circuits :
    (cfg : ReaderConfig) (io : ReadIo) (circuits : Circuits) (got : Option Bytes)
    → (after_provider cfg io (circuits, got)).circuits ≡ circuits
unfolding after_provider try_redis try_s3
after_provider-circuits cfg io circuits (some data_) = refl
after_provider-circuits cfg io circuits none =
    split (tier cfg.redis_cache_enabled io.redis) (tier cfg.s3_cache_enabled io.s3)
  where
    split : (redis s3 : Option Bytes) → (try_redis cfg circuits redis s3).circuits ≡ circuits
    split (some data_) s3 = refl
    split none (some data_) = refl
    split none none = refl

-- A request for a tile of one provider leaves the relay circuits of all others as they were.
pub resolve_tile-other :
    (cfg : ReaderConfig) (p q : String) (io : ReadIo) (circuits : Circuits)
    → str_eq q p ≡ false
    → (resolve_tile cfg p io circuits).circuits q ≡ circuits q
unfolding resolve_tile
resolve_tile-other cfg p q io circuits other =
    let (after, got) = try_provider cfg p io circuits in
    if_both (λ (s : Served). s.circuits q ≡ circuits q)
      (cfg.negative_cache_enabled && safe_get_miss io.miss) _ _ refl
      (ap (λ (cs : Circuits). cs q) (after_provider-circuits cfg io after got)
        ∙ try_provider-other cfg p q io circuits other)
