-- ===== src/Tests/Forecasts.antt =====
-- A pass over one GFS product with two cycles, of which one stays.
use data_service.Common.{
  Option, none, some, if◌then◌else◌, ◌≡◌, ◌≢◌, refl, sym, ◌∙◌, true, [], ◌∷◌, ◌++◌, arith,
}
use data_service.Common.Sort.{sort}
use data_service.Common.Text.{Text, codes, eq_text, has_text}
use data_service.Mirror.{ids}
use data_service.Gfs.{build_gfs_geojson_key, gfs_500hpa, step_from_basename, basenames}
use data_service.Gfs.Sync.{
  GfsRedis, GfsIo, active_cycles, list_steps, mirror_overlays, sync_step, sync_steps, sync_cycles,
  sync_product,
}
use data_service.Gfs.Sync.Cycles.{sync_product-cycles}
use data_service.Gfs.Sync.Listing.{IsWithin}
use data_service.Gfs.Reads.{LayerMap, get_layers, get_geojson, list_layers, list_layers_bulk}
use data_service.Gfs.Reads.Layers.{list_layers_bulk-list_layers}
use data_service.Gfs.Reads.Coherent.{IsCoherent, get_geojson-S3}

abbrev old : Text
old = codes "20260808T0000Z"

abbrev new : Text
new = codes "20260808T0600Z"

abbrev folder : Text → Text
folder cycle = codes "cog/gfs/geopotential-500hpa/" ++ (cycle ++ codes "/")

abbrev io : GfsIo
io = record {
  cycle_prefixes = some (folder old ∷ folder new ∷ []);
  cog_keys = λ cycle. some ((folder cycle ++ (cycle ++ codes "_f003.tif")) ∷ []);
  download_tile = λ key. some (codes "{}");
  step = λ cycle fxxx. record {
    index_at = some 101;
    layer_at = λ layer. some 102;
    layers_at = some 103;
  };
  prune_ok = true;
}

io-IsWithin : IsWithin 60 100 io
io-IsWithin cycle fxxx t at = ground arith

abbrev redis : GfsRedis
redis = record {
  cycles = record { members = (old, 202608080000) ∷ []; expires = 130 };
  steps = λ c. record { members = []; expires = 0 };
  layers = λ c f. record { members = []; expires = 0 };
  overlays = λ c f l. none;
}

active_is : active_cycles 1 (folder old ∷ folder new ∷ []) ≡ new ∷ []
unfolding active_cycles sort
active_is = refl

old_has_step : list_steps 60 1 gfs_500hpa io old ≡ some (codes "f003" ∷ [])
unfolding list_steps sort basenames step_from_basename
old_has_step = refl

new_stays : active_cycles 1 (folder old ∷ folder new ∷ []) ≢ []
new_stays e = let e' : new ∷ [] ≡ [] = sym active_is ∙ e in absurd cc

pass_ok : (sync_product 60 1 gfs_500hpa io redis).ok ≡ true
unfolding sync_product sync_cycles sync_steps sync_step list_steps active_cycles sort basenames
    step_from_basename mirror_overlays
pass_ok = refl

sync_product-cycles_example :
    has_text old (ids (sync_product 60 1 gfs_500hpa io redis).redis.cycles.members)
    ≡ has_text old (active_cycles 1 (folder old ∷ folder new ∷ []))
sync_product-cycles_example =
    sync_product-cycles 60 100 1 gfs_500hpa io io-IsWithin (folder old ∷ folder new ∷ []) redis old
      (codes "f003") [] refl new_stays old_has_step pass_ok

abbrev objects : Text → Option Text
objects key =
    if eq_text key
      (build_gfs_geojson_key (codes "geopotential-500hpa") old (codes "f003") (codes "heights"))
    then some (codes "{}")
    else none

nothing-IsCoherent : IsCoherent objects (codes "geopotential-500hpa") redis
nothing-IsCoherent c f l s stored = absurd cc

get_geojson-S3_example :
    ((get_geojson 60
        (some objects)
        (codes "geopotential-500hpa")
        old
        (codes "f003")
        (codes "heights")
        100
        redis).0
      ≡ objects (
          build_gfs_geojson_key (codes "geopotential-500hpa") old (codes "f003") (codes "heights")))
    × IsCoherent objects
        (codes "geopotential-500hpa")
        (get_geojson 60
          (some objects)
          (codes "geopotential-500hpa")
          old
          (codes "f003")
          (codes "heights")
          100
          redis).1
get_geojson-S3_example =
    get_geojson-S3 objects (codes "geopotential-500hpa") 60 (codes "geopotential-500hpa") old
      (codes "f003") (codes "heights") 100 redis refl nothing-IsCoherent

-- the index has one step, S3 two
abbrev half_indexed : GfsRedis
half_indexed = record redis {
  layers = λ c f.
      if eq_text f (codes "f003")
      then record { members = codes "heights" ∷ []; expires = 130 }
      else record { members = []; expires = 0 };
}

abbrev in_s3 : LayerMap
in_s3 = (codes "f006", codes "isotherms" ∷ codes "heights" ∷ []) ∷ []

list_layers_bulk-list_layers_example :
    get_layers
      (codes "f006")
      (list_layers_bulk 110 half_indexed in_s3 old (codes "f003" ∷ codes "f006" ∷ []))
    ≡ some (list_layers 110 half_indexed in_s3 old (codes "f006"))
list_layers_bulk-list_layers_example =
    list_layers_bulk-list_layers 110 half_indexed in_s3 old (codes "f003" ∷ codes "f006" ∷ [])
      (codes "f006") refl

f006_layers :
    list_layers 110 half_indexed in_s3 old (codes "f006") ≡ codes "heights" ∷ codes "isotherms" ∷ []
unfolding list_layers sort
f006_layers = refl
