-- ===== src/TileReader/Chain.antt =====
-- The chain against the list of its tiers: which tile is served, and what is written back.
use data_service.Common.{
  ℕ, ◌≡◌, refl, ◌∙◌, ap, String, Bool, not, ◌&&◌, ◌||◌, Option, none, some, List, [], ◌∷◌, ◌++◌,
  if◌then◌else◌, arith, Bool-cases, inl, inr,
}
use data_service.StorageCircuit.{allows_attempt}
use data_service.TileReader.{
  Bytes, Upstream, unreachable, answered, ReaderConfig, ReadIo, CacheWrite, redis_write, s3_write,
  miss_mark, Circuits, relay_circuit, download_from_provider, bytes_of, try_provider, safe_get_miss,
  try_s3, try_redis, tier, after_provider, resolve_tile, when,
}

-- the first tier that has the tile
abbrev pub first_hit : List (Option Bytes) → Option Bytes
first_hit [] = none
first_hit (none ∷ tiers) = first_hit tiers
first_hit (some data_ ∷ tiers) = some data_

-- the provider is asked: it is known, it may be asked, and its circuit, if there is one, lets it
abbrev pub asks : ReaderConfig → String → ReadIo → Circuits → Bool
asks cfg p io circuits =
    cfg.online_fallback
    && cfg.providers p
    && (not cfg.relay_circuit_enabled || allows_attempt (relay_circuit cfg p circuits) io.asked_at)

-- the miss of all tiers is on record
abbrev pub marked : ReaderConfig → ReadIo → Bool
marked cfg io = cfg.negative_cache_enabled && safe_get_miss io.miss

got_from_provider :
    (u : Upstream) (now : ℕ) (cfg : ReaderConfig) (p : String) (circuits : Circuits)
    → (download_from_provider u now (relay_circuit cfg p circuits)).1 ≡ bytes_of u
unfolding download_from_provider
got_from_provider unreachable now cfg p circuits = refl
got_from_provider (answered data_) now cfg p circuits = refl

try_provider-tier :
    (cfg : ReaderConfig) (p : String) (io : ReadIo) (circuits : Circuits)
    → (try_provider cfg p io circuits).1
      ≡ (if asks cfg p io circuits then bytes_of io.upstream else none)
unfolding try_provider
try_provider-tier cfg p io circuits =
    ground (arith, got_from_provider io.upstream io.upstream_at cfg p circuits)

-- what is served and written after tier 1, by the three tiers
abbrev pub chain_writes :
    ReaderConfig → Option Bytes → Option Bytes → Option Bytes → List CacheWrite
chain_writes cfg (some data_) redis s3 =
    when cfg.redis_cache_enabled (redis_write data_) ++ when cfg.s3_cache_enabled (s3_write data_)
chain_writes cfg none (some data_) s3 = []
chain_writes cfg none none (some data_) = when cfg.redis_cache_enabled (redis_write data_)
chain_writes cfg none none none = when cfg.negative_cache_enabled miss_mark

after_provider-tiers :
    (cfg : ReaderConfig) (io : ReadIo) (circuits : Circuits) (got : Option Bytes)
    → (let redis = tier cfg.redis_cache_enabled io.redis in
        let s3 = tier cfg.s3_cache_enabled io.s3 in
        let served = after_provider cfg io (circuits, got) in
        (served.tile ≡ first_hit (got ∷ redis ∷ s3 ∷ []))
        × (served.writes ≡ chain_writes cfg got redis s3))
unfolding after_provider try_redis try_s3
after_provider-tiers cfg io circuits (some data_) = (refl, refl)
after_provider-tiers cfg io circuits none =
    split (tier cfg.redis_cache_enabled io.redis) (tier cfg.s3_cache_enabled io.s3)
  where
    split :
        (redis s3 : Option Bytes)
        → ((try_redis cfg circuits redis s3).tile ≡ first_hit (none ∷ redis ∷ s3 ∷ []))
          × ((try_redis cfg circuits redis s3).writes ≡ chain_writes cfg none redis s3)
    split (some data_) s3 = (refl, refl)
    split none (some data_) = (refl, refl)
    split none none = (refl, refl)

-- A request serves the first of its tiers that has the tile: the provider where it is asked, Redis and
-- S3 where they are on and have bytes, and none where a full miss is on record. It schedules exactly
-- the write-backs for the tier that served, and the record of a miss where no tier did.
pub resolve_tile-tiers :
    (cfg : ReaderConfig) (p : String) (io : ReadIo) (circuits : Circuits)
    → (let upstream = if asks cfg p io circuits then bytes_of io.upstream else none in
        let redis = tier cfg.redis_cache_enabled io.redis in
        let s3 = tier cfg.s3_cache_enabled io.s3 in
        let served = resolve_tile cfg p io circuits in
        (served.tile ≡ (if marked cfg io then none else first_hit (upstream ∷ redis ∷ s3 ∷ [])))
        × (served.writes ≡ (if marked cfg io then [] else chain_writes cfg upstream redis s3)))
unfolding resolve_tile
resolve_tile-tiers cfg p io circuits =
    let (after, got) = try_provider cfg p io circuits in
    let there = after_provider-tiers cfg io after got in
    let same = try_provider-tier cfg p io circuits in
    elim (Bool-cases (marked cfg io)) [
      | inl old ↦ rw old (refl, refl)
      | inr fresh ↦ rw fresh (
        there.0
            ∙ ap
                (λ g. first_hit (
                  g ∷ tier cfg.redis_cache_enabled io.redis ∷ tier cfg.s3_cache_enabled io.s3 ∷ []))
                same,
        there.1
            ∙ ap
                (λ g.
                  chain_writes cfg g (tier cfg.redis_cache_enabled io.redis)
                    (tier cfg.s3_cache_enabled io.s3))
                same,
      )
    ]
