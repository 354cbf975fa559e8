-- ===== src/Wrf.antt =====
-- The overlays of one WRF step: `_sync_wrf_overlays` of src/services/wrf_sync_service.py with the index of
-- layers in src/clients/redis_client.py and `sync_wrf_geojson_to_redis` of src/clients/s3_client.py. The
-- calls on the index and on the marker go through, and a lifetime is positive.
pub mod Overlays
use data_service.Common.{
  ℕ, ◌+◌, Bool, true, false, Option, none, some, List, [], ◌∷◌, ltb, if◌then◌else◌,
}
use data_service.Common.Text.{Text, has_text}
use data_service.Mirror.{KeySet, Stored, read_set, add_to_set, at_text}

-- the part of Redis that a step has, with the time until which its marker stands
pub record WrfStep : Type 0 where
  pub layers : KeySet
  pub overlays : Text → Option Stored
  pub done_until : ℕ

-- one layer: the bytes that S3 gives, unless the read raises, and whether and when Redis takes them
pub record LayerIo : Type 0 where
  pub content : Option Text
  pub redis_ok : Bool
  pub at : ℕ

-- A cycle: the times of the calls, and the layers that S3 lists, none where the listing raises.
pub record OverlaysIo : Type 0 where
  pub checked_at : ℕ
  pub s3_layers : Option (List Text)
  pub read_at : ℕ
  pub marked_at : ℕ
  pub added_at : ℕ
  pub layer : Text → LayerIo

-- `is_wrf_overlays_complete`
abbrev pub is_wrf_overlays_complete : ℕ → WrfStep → Bool
is_wrf_overlays_complete at s = ltb at s.done_until

-- `set_wrf_overlays_complete`
abbrev pub set_wrf_overlays_complete : ℕ → ℕ → WrfStep → WrfStep
set_wrf_overlays_complete ttl at s = record s { done_until = at + ttl }

abbrev pub add_layers : ℕ → List Text → ℕ → KeySet → KeySet
add_layers ttl [] at s = s
add_layers ttl (layer ∷ layers) at s = add_layers ttl layers at (add_to_set ttl layer at s)

-- `add_wrf_layers`
abbrev pub add_wrf_layers : ℕ → List Text → ℕ → WrfStep → WrfStep
add_wrf_layers ttl layers at s = record s { layers = add_layers ttl layers at s.layers }

abbrev pub store_layer :
    ℕ → Text → LayerIo → Option Text → (Text → Option Stored) → Text → Option Stored
store_layer ttl layer io none overlays = overlays
store_layer ttl layer io (some content) overlays =
    if io.redis_ok
    then at_text layer (some (record { content = content; expires = io.at + ttl })) overlays
    else overlays

-- `sync_wrf_geojson_to_redis`, whose result the loop does not look at
abbrev pub sync_wrf_geojson_to_redis :
    ℕ → Text → LayerIo → (Text → Option Stored) → Text → Option Stored
sync_wrf_geojson_to_redis ttl layer io overlays = store_layer ttl layer io io.content overlays

unfoldable pub copy_layers :
    ℕ → (Text → LayerIo) → List Text → (Text → Option Stored) → Text → Option Stored
copy_layers ttl io [] overlays = overlays
copy_layers ttl io (layer ∷ layers) overlays =
    copy_layers ttl io layers (sync_wrf_geojson_to_redis ttl layer (io layer) overlays)

-- the layers of S3 that the index does not have
abbrev pub missing_layers : List Text → List Text → List Text
missing_layers redis_layers [] = []
missing_layers redis_layers (l ∷ ls) =
    let rest = missing_layers redis_layers ls in if has_text l redis_layers then rest else l ∷ rest

-- what the cycle does about the layers that are missing
abbrev pub mirror_missing : ℕ → OverlaysIo → List Text → List Text → WrfStep → WrfStep
mirror_missing geojson_ttl io s3_layers [] s = set_wrf_overlays_complete geojson_ttl io.marked_at s
mirror_missing geojson_ttl io s3_layers (l ∷ ls) s =
    let listed = add_wrf_layers geojson_ttl s3_layers io.added_at s in
    record listed { overlays = copy_layers geojson_ttl io.layer (l ∷ ls) s.overlays }

abbrev pub mirror_listed : ℕ → ℕ → OverlaysIo → Option (List Text) → WrfStep → WrfStep
mirror_listed geojson_ttl recheck_ttl io none s = s
mirror_listed geojson_ttl recheck_ttl io (some []) s =
    set_wrf_overlays_complete recheck_ttl io.marked_at s
mirror_listed geojson_ttl recheck_ttl io (some (l ∷ ls)) s =
    mirror_missing geojson_ttl io (l ∷ ls) (missing_layers (read_set io.read_at s.layers) (l ∷ ls))
      s

-- `_sync_wrf_overlays`
unfoldable pub sync_wrf_overlays : ℕ → ℕ → OverlaysIo → WrfStep → WrfStep
sync_wrf_overlays geojson_ttl recheck_ttl io s =
    if is_wrf_overlays_complete io.checked_at s
    then s
    else mirror_listed geojson_ttl recheck_ttl io io.s3_layers s
