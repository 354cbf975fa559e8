-- ===== src/Gfs.antt =====
-- The GFS products: the names of src/services/gfs_config.py and of src/clients/s3_client.py, the index and
-- the overlays of src/clients/redis_client.py, and one cycle of src/services/gfs_sync_service.py. A
-- lifetime is positive, and the scores of the sorted sets are whole numbers.

pub mod Names
pub mod Sync
pub mod Reads
use data_service.Common.{
  ℕ, zero, suc, ◌+◌, ◌-◌, ◌*◌, String, Bool, true, false, not, ◌&&◌, ◌==◌, Option, none, some, List,
  [], ◌∷◌, ◌++◌, length, take, drop, ltb, leb, if◌then◌else◌,
}
use data_service.Common.Sort.{sort}
use data_service.Common.Text.{
  Text, codes, eq_text, is_before, has_text, leaf_segment, ends_in, remove_suffix,
}
use data_service.Mirror.{
  Index, KeySet, Stored, read_index, drop_member, add_tileset, add_to_set, at_text,
}

pub record GfsProduct : Type 0 where
  pub product_id : Text
  pub s3_segment : Text
  pub layers : List Text
  pub unit : String
  pub has_tiles : Bool
  pub has_barbs : Bool
  pub secondary_vars : List (Text × String)

abbrev pub gfs_mslp : GfsProduct
gfs_mslp = record {
  product_id = codes "mean-sea-level-pressure";
  s3_segment = codes "mean-sea-level-pressure";
  layers = codes "isobars" ∷ codes "thickness" ∷ [];
  unit = "hPa";
  has_tiles = false;
  has_barbs = false;
  secondary_vars = (codes "thickness", "gpm") ∷ [];
}

abbrev pub gfs_500hpa : GfsProduct
gfs_500hpa = record {
  product_id = codes "geopotential-500hpa";
  s3_segment = codes "geopotential-500hpa";
  layers = codes "heights" ∷ codes "isotherms" ∷ [];
  unit = "kt";
  has_tiles = true;
  has_barbs = true;
  secondary_vars = (codes "temperature", "°C") ∷ (codes "geopotential", "gpm") ∷ [];
}

abbrev pub gfs_250hpa : GfsProduct
gfs_250hpa = record {
  product_id = codes "geopotential-250hpa";
  s3_segment = codes "geopotential-250hpa";
  layers = codes "heights" ∷ [];
  unit = "kt";
  has_tiles = true;
  has_barbs = false;
  secondary_vars = (codes "geopotential", "gpm") ∷ [];
}

abbrev pub gfs_products : List GfsProduct
gfs_products = gfs_mslp ∷ gfs_500hpa ∷ gfs_250hpa ∷ []

abbrev pub find_product : Text → List GfsProduct → Option GfsProduct
find_product product_id [] = none
find_product product_id (p ∷ ps) =
    if eq_text p.product_id product_id then some p else find_product product_id ps

-- `get_product`
abbrev pub get_product : Text → Option GfsProduct
get_product product_id = find_product product_id gfs_products

abbrev pub lookup_unit : Text → List (Text × String) → Option String
lookup_unit variable [] = none
lookup_unit variable ((v, unit) ∷ vs) =
    if eq_text v variable then some unit else lookup_unit variable vs

-- `layers_for` and `secondary_unit`
abbrev pub layers_for : Text → List Text
layers_for product_id = elim (get_product product_id) [ none ↦ [] | some p ↦ p.layers ]

abbrev pub secondary_unit : Text → Text → Option String
secondary_unit product_id variable = elim (get_product product_id) [
  | none ↦ none
  | some p ↦ lookup_unit variable p.secondary_vars
]

-- `_gfs_step_id`
abbrev pub gfs_step_id : Text → Text → Text
gfs_step_id cycle fxxx = cycle ++ (b'_' ∷ fxxx)

abbrev pub gfs_cog_cycle_prefix : Text → Text
gfs_cog_cycle_prefix s3_segment = codes "cog/gfs/" ++ (s3_segment ++ b'/' ∷ [])

abbrev pub gfs_geojson_cycle_prefix : Text → Text → Text
gfs_geojson_cycle_prefix s3_segment cycle =
    codes "geojson/gfs/" ++ (s3_segment ++ (b'/' ∷ cycle ++ b'/' ∷ []))

abbrev pub build_gfs_cog_key : Text → Text → Text → Text
build_gfs_cog_key s3_segment cycle fxxx =
    gfs_cog_cycle_prefix s3_segment ++ (cycle ++ (b'/' ∷ gfs_step_id cycle fxxx ++ codes ".tif"))

abbrev pub build_gfs_geojson_key : Text → Text → Text → Text → Text
build_gfs_geojson_key s3_segment cycle fxxx layer =
    gfs_geojson_cycle_prefix s3_segment cycle
    ++ (gfs_step_id cycle fxxx ++ (b'_' ∷ layer ++ codes ".json"))

abbrev pub non_empty : Text → Option Text
non_empty [] = none
non_empty (c ∷ cs) = some (c ∷ cs)

-- `step_from_basename`
unfoldable pub step_from_basename : Text → Text → Option Text
step_from_basename basename cycle =
    let marker = cycle ++ b'_' ∷ [] in
    if eq_text (take (length marker) basename) marker
    then non_empty (drop (length marker) basename)
    else none

-- `split("_", 1)`, or nothing where there is no underscore
abbrev pub split_once : Text → Option (Text × Text)
split_once [] = none
split_once (c ∷ cs) =
    let rest = split_once cs in
    if c == b'_' then some ([], cs) else elim rest [ none ↦ none | some (a, b) ↦ some (c ∷ a, b) ]

abbrev pub both_full : Option (Text × Text) → Option (Text × Text)
both_full (some (a ∷ as', b ∷ bs)) = some (a ∷ as', b ∷ bs)
both_full _ = none

abbrev pub split_tail : Option Text → Option (Text × Text)
split_tail none = none
split_tail (some tail) = both_full (split_once tail)

-- `step_and_layer_from_basename`
unfoldable pub step_and_layer_from_basename : Text → Text → Option (Text × Text)
step_and_layer_from_basename basename cycle = split_tail (step_from_basename basename cycle)

abbrev pub lstrip : ℕ → Text → Text
lstrip c [] = []
lstrip c (a ∷ as') = let rest = lstrip c as' in if a == c then rest else a ∷ as'

abbrev pub has_code : ℕ → Text → Bool
has_code c [] = false
has_code c (a ∷ as') = if a == c then true else has_code c as'

-- `list_object_basenames`, of the keys that the listing gives
unfoldable pub basenames : Text → Text → List Text → List Text
basenames prefix suffix [] = []
basenames prefix suffix (key ∷ keys) =
    let rest = basenames prefix suffix keys in
    let tail = lstrip b'/' (drop (length prefix) key) in
    if not (ends_in suffix key)
    then rest
    else (if has_code b'/' tail then rest else take (length tail - length suffix) tail ∷ rest)
