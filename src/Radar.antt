-- ===== src/Radar.antt =====
-- The radars of one network: their index in src/clients/redis_client.py (`add_radar_index` and
-- `trim_radar_index`), and one cycle of src/services/radar_sync_service.py. A lifetime is positive. The
-- keys of different radars, variables, elevations and tilesets are taken to be different.

pub mod Navigation
pub mod Tables
use data_service.Common.{
  ℕ, zero, suc, ◌+◌, ◌-◌, ◌++◌, take, Bool, true, false, not, Option, none, some, List, [], ◌∷◌,
  ◌&&◌, leb, if◌then◌else◌,
}
use data_service.Common.Int.{ℤ}
use data_service.Common.Text.{Text, codes, eq_text, has_text, leaf_segment}
use data_service.Mirror.{
  KeySet, read_set, add_to_set, at_text, Tiles, Index, Mirror, MirrorRun, TilesetIo, read_index,
  ids, add_tileset, trim_index, sync_prefix_to_redis,
}

-- the part of Redis that a network has
pub record RadarRedis : Type 0 where
  pub radars : KeySet
  pub variables : Text → KeySet
  pub elevations : Text → Text → KeySet
  pub tilesets : Text → Text → Text → Index
  pub tiles : Text → Text → Text → Tiles

-- `add_radar_index`, which Redis runs at one time
unfoldable pub add_radar_index : ℕ → Text → Text → Text → Text → ℕ → ℕ → RadarRedis → RadarRedis
add_radar_index ttl radar_id variable_id elevation_id tileset_id score at r = record r {
  radars = add_to_set ttl radar_id at r.radars;
  variables = at_text radar_id (add_to_set ttl variable_id at (r.variables radar_id)) r.variables;
  elevations =
      at_text radar_id
        (at_text variable_id (add_to_set ttl elevation_id at (r.elevations radar_id variable_id))
          (r.elevations radar_id))
        r.elevations;
  tilesets =
      at_text radar_id
        (at_text variable_id
          (at_text elevation_id
            (add_tileset ttl tileset_id score at (r.tilesets radar_id variable_id elevation_id))
            (r.tilesets radar_id variable_id))
          (r.tilesets radar_id))
        r.tilesets;
}

-- `trim_radar_index`
unfoldable pub trim_radar_index : Text → Text → Text → ℕ → RadarRedis → RadarRedis
trim_radar_index radar_id variable_id elevation_id min_score r = record r {
  tilesets =
      at_text radar_id
        (at_text variable_id
          (at_text elevation_id
            (trim_index min_score (r.tilesets radar_id variable_id elevation_id))
            (r.tilesets radar_id variable_id))
          (r.tilesets radar_id))
        r.tilesets;
}

abbrev pub put_tiles : Text → Text → Text → Tiles → RadarRedis → RadarRedis
put_tiles radar_id variable_id elevation_id tiles r = record r {
  tiles =
      at_text radar_id
        (at_text variable_id (at_text elevation_id tiles (r.tiles radar_id variable_id))
          (r.tiles radar_id))
        r.tiles;
}

-- Redis, the tiles downloaded, and whether nothing was raised
pub record RadarRun : Type 0 where
  pub redis : RadarRedis
  pub downloaded : ℕ
  pub ok : Bool

-- what an elevation meets: the read of its index, the listing, the answers and the trim
pub record ElevationIo : Type 0 where
  pub index_readable : Bool
  pub read_at : ℕ
  pub subdirectories : Option (List Text)
  pub answer : Text → TilesetIo
  pub trim_ok : Bool

-- the answers of a cycle: the listings of radars, variables and elevations, and those of an elevation
pub record RadarIo : Type 0 where
  pub listing : Text → Option (List Text)
  pub elevation : Text → ElevationIo

module _ (int_of : Text → Option ℤ) (ttl now : ℕ) where
  module _ (radar_id variable_id elevation_id : Text) where
    abbrev pub index_downloaded : Text → TilesetIo → Option (Tiles × ℕ) → RadarRedis → RadarRun
    index_downloaded tileset_id io none r = record { redis = r; downloaded = 0; ok = false }
    index_downloaded tileset_id io (some (tiles, zero)) r = record {
      redis = put_tiles radar_id variable_id elevation_id tiles r;
      downloaded = 0;
      ok = true;
    }
    index_downloaded tileset_id io (some (tiles, suc n)) r =
        let stored = put_tiles radar_id variable_id elevation_id tiles r in
        if io.index_ok
        then record {
          redis =
              add_radar_index ttl radar_id variable_id elevation_id tileset_id now io.indexed_at
                stored;
          downloaded = suc n;
          ok = true;
        }
        else record { redis = stored; downloaded = 0; ok = false }

    -- the loop of `_sync_radar_elevation` over the tilesets
    unfoldable pub sync_radar_tilesets :
        List Text → (Text → TilesetIo) → List Text → RadarRedis → RadarRun
    sync_radar_tilesets existing answer [] r = record { redis = r; downloaded = 0; ok = true }
    sync_radar_tilesets existing answer (prefix ∷ prefixes) r =
        let id = leaf_segment prefix in
        let got =
          sync_prefix_to_redis int_of ttl id (answer prefix).objects
            (r.tiles radar_id variable_id elevation_id) in
        let one : RadarRun =
          if has_text id existing
          then record { redis = r; downloaded = 0; ok = true }
          else index_downloaded id (answer prefix) got r in
        let rest = sync_radar_tilesets existing answer prefixes one.redis in
        if one.ok then record rest { downloaded = one.downloaded + rest.downloaded } else one

    abbrev pub trimmed_elevation : Bool → RadarRun → RadarRun
    trimmed_elevation trim_ok run =
        if not run.ok
        then record run { downloaded = 0 }
        else (if not trim_ok then record run { downloaded = 0; ok = false } else record run {
          redis = trim_radar_index radar_id variable_id elevation_id (now - ttl) run.redis;
        })

    abbrev pub sync_subdirectories :
        ElevationIo → List Text → Option (List Text) → RadarRedis → RadarRun
    sync_subdirectories io existing none r = record { redis = r; downloaded = 0; ok = false }
    sync_subdirectories io existing (some prefixes) r =
        trimmed_elevation io.trim_ok (sync_radar_tilesets existing io.answer prefixes r)

    -- `_sync_radar_elevation`, for a listing that names each elevation once
    unfoldable pub sync_radar_elevation : ElevationIo → RadarRedis → RadarRun
    sync_radar_elevation io r =
        if io.index_readable
        then sync_subdirectories io
            (ids (read_index io.read_at (r.tilesets radar_id variable_id elevation_id)))
            io.subdirectories r
        else record { redis = r; downloaded = 0; ok = false }

  -- One loop within another: the count of what is returned goes on, an exception leaves all loops.
  abbrev pub each : (Text → RadarRedis → RadarRun) → List Text → RadarRedis → RadarRun
  each body [] r = record { redis = r; downloaded = 0; ok = true }
  each body (prefix ∷ prefixes) r =
      let one = body prefix r in
      let rest = each body prefixes one.redis in
      if one.ok then record rest { downloaded = one.downloaded + rest.downloaded } else one

  abbrev pub each_listed :
      (Text → RadarRedis → RadarRun) → Option (List Text) → RadarRedis → RadarRun
  each_listed body none r = record { redis = r; downloaded = 0; ok = false }
  each_listed body (some prefixes) r = each body prefixes r

  -- one elevation of a listing
  abbrev pub sync_elevation_prefix :
      (Text → ElevationIo) → Text → Text → Text → RadarRedis → RadarRun
  sync_elevation_prefix io radar_id variable_id elevation_prefix r =
      let elevation_id = leaf_segment elevation_prefix in
      if eq_text (take 4 elevation_id) (codes "elev")
      then sync_radar_elevation radar_id variable_id elevation_id (io elevation_prefix) r
      else record { redis = r; downloaded = 0; ok = true }

  -- `_sync_radar`: Redis, the tiles downloaded and the errors
  abbrev pub sync_radar_prefixes : RadarIo → Text → RadarRedis → RadarRun
  sync_radar_prefixes io prefix =
      each_listed
        (λ radar_prefix.
          each_listed
            (λ var_prefix.
              each_listed
                (sync_elevation_prefix io.elevation (leaf_segment radar_prefix)
                  (leaf_segment var_prefix))
                (io.listing var_prefix))
            (io.listing radar_prefix))
        (io.listing prefix)

  unfoldable pub sync_radar : RadarIo → Text → RadarRedis → RadarRedis × (ℕ × ℕ)
  sync_radar io network r =
      let run = sync_radar_prefixes io (codes "tiles/radar/" ++ network) r in
      (run.redis, (run.downloaded, if run.ok then 0 else 1))
