-- ===== src/Gfs/Reads.antt =====
-- src/services/gfs_sync_strategy.py: the overlays and the layers as the two read strategies give them. The
-- write-back of a read is taken to run at once, and the lock of the layer map is left out.
pub mod Layers
pub mod Coherent
use data_service.Common.{
  ℕ, ◌+◌, Bool, true, false, not, Option, none, some, List, [], ◌∷◌, ◌++◌, if◌then◌else◌,
}
use data_service.Common.Sort.{sort}
use data_service.Common.Text.{Text, codes, eq_text, is_before, has_text}
use data_service.Mirror.{KeySet, Stored, read_set, at_text}
use data_service.Gfs.{
  GfsProduct, get_product, build_gfs_geojson_key, gfs_geojson_cycle_prefix,
  step_and_layer_from_basename, basenames,
}
use data_service.Gfs.Sync.{GfsRedis, get_gfs_geojson, is_full}

-- S3 as a read finds it: none where the service has no client
abbrev pub Bucket : Type 0
Bucket = Option (Text → Option Text)

-- `_s3_segment`
abbrev pub segment_of : Text → Option Text
segment_of product_id = elim (get_product product_id) [ none ↦ none | some p ↦ some p.s3_segment ]

abbrev pub download : Bucket → Option Text → Text → Text → Text → Option Text
download (some objects) (some segment) cycle fxxx layer =
    objects (build_gfs_geojson_key segment cycle fxxx layer)
download _ _ cycle fxxx layer = none

abbrev pub store_overlay : ℕ → Text → Text → Text → ℕ → Option Text → GfsRedis → GfsRedis
store_overlay ttl cycle fxxx layer at none r = r
store_overlay ttl cycle fxxx layer at (some content) r =
    if is_full (some content)
    then record r {
      overlays =
          at_text cycle
            (at_text fxxx
              (at_text layer (some (record { content = content; expires = at + ttl }))
                (r.overlays cycle fxxx))
              (r.overlays cycle))
            r.overlays;
    }
    else r

-- `geojson_from_s3`
unfoldable pub geojson_from_s3 :
    ℕ → Bucket → Text → Text → Text → Text → ℕ → GfsRedis → Option Text × GfsRedis
geojson_from_s3 ttl s3 product_id cycle fxxx layer at r =
    let fetched = download s3 (segment_of product_id) cycle fxxx layer in
    (fetched, store_overlay ttl cycle fxxx layer at fetched r)

-- `get_geojson`, of both strategies
unfoldable pub get_geojson :
    ℕ → Bucket → Text → Text → Text → Text → ℕ → GfsRedis → Option Text × GfsRedis
get_geojson ttl s3 product_id cycle fxxx layer at r =
    let cached = get_gfs_geojson at (r.overlays cycle fxxx layer) in
    if is_full cached then (cached, r) else geojson_from_s3 ttl s3 product_id cycle fxxx layer at r

-- a dictionary of lists
abbrev pub LayerMap : Type 0
LayerMap = List (Text × List Text)

abbrev pub get_layers : Text → LayerMap → Option (List Text)
get_layers k [] = none
get_layers k ((j, v) ∷ d) = if eq_text j k then some v else get_layers k d

-- `get(fxxx, [])`
abbrev pub layers_or_none : Option (List Text) → List Text
layers_or_none none = []
layers_or_none (some ls) = ls

-- `by_step.setdefault(step, []).append(layer)`
abbrev pub append_layer : Text → Text → LayerMap → LayerMap
append_layer step layer [] = (step, layer ∷ []) ∷ []
append_layer step layer ((j, v) ∷ d) =
    let rest = append_layer step layer d in
    if eq_text j step then (j, v ++ layer ∷ []) ∷ d else (j, v) ∷ rest

abbrev pub by_step_from : Text → List Text → LayerMap → LayerMap
by_step_from cycle [] d = d
by_step_from cycle (name ∷ names) d =
    by_step_from cycle names (elim (step_and_layer_from_basename name cycle) [
      | none ↦ d
      | some (step, layer) ↦ append_layer step layer d
    ])

-- `_cycle_layer_map`, from the cached listing or from the keys that S3 lists under the cycle's prefix
unfoldable pub cycle_layer_map : Text → Text → Option LayerMap → Option (List Text) → LayerMap
cycle_layer_map product_id cycle (some cached) listed = cached
cycle_layer_map product_id cycle none none = []
cycle_layer_map product_id cycle none (some keys) = elim (segment_of product_id) [
  | none ↦ []
  | some segment ↦
      by_step_from cycle (basenames (gfs_geojson_cycle_prefix segment cycle) (codes ".json") keys)
        []
]

-- `list_layers` of `GfsOnDemandStrategy`
abbrev pub layers_on_demand : LayerMap → Text → List Text
layers_on_demand by_step fxxx = sort is_before (layers_or_none (get_layers fxxx by_step))

-- a dictionary with a key for each step
abbrev pub for_each : (Text → List Text) → List Text → LayerMap
for_each f [] = []
for_each f (s ∷ ss) = (s, f s) ∷ for_each f ss

-- `get_gfs_layers`, at a time
abbrev pub get_gfs_layers : ℕ → GfsRedis → Text → Text → List Text
get_gfs_layers at r cycle fxxx = sort is_before (read_set at (r.layers cycle fxxx))

abbrev pub or_else : List Text → List Text → List Text
or_else [] other = other
or_else (l ∷ ls) other = l ∷ ls

-- `list_layers` of `GfsFullSyncStrategy`, where `by_step` is the map of the on-demand strategy
unfoldable pub list_layers : ℕ → GfsRedis → LayerMap → Text → Text → List Text
list_layers at r by_step cycle fxxx =
    or_else (get_gfs_layers at r cycle fxxx) (layers_on_demand by_step fxxx)

abbrev pub is_empty : List Text → Bool
is_empty [] = true
is_empty (l ∷ ls) = false

-- the steps for which the index has nothing
abbrev pub missing_from : LayerMap → List Text → List Text
missing_from d [] = []
missing_from d (s ∷ ss) =
    let rest = missing_from d ss in
    if is_empty (layers_or_none (get_layers s d)) then s ∷ rest else rest

-- `list_layers_bulk` of `GfsFullSyncStrategy`; what is discovered replaces what the index had
unfoldable pub list_layers_bulk : ℕ → GfsRedis → LayerMap → Text → List Text → LayerMap
list_layers_bulk at r by_step cycle steps =
    let indexed = for_each (get_gfs_layers at r cycle) steps in
    let missing = missing_from indexed steps in
    if is_empty missing then indexed else for_each (layers_on_demand by_step) missing ++ indexed
