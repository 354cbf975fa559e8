-- ===== src/BasemapConfig.antt =====
-- src/services/basemap_config.py: the providers, and the tiles of a bounding box. Angles are whole
-- millionths of a degree, and `int` of a float is the exact quotient cut towards zero. The function
-- `mercator` stands for `asinh(tan(radians(lat))) / pi` of the mathematics library, in millionths.
pub mod Tiles
use data_service.Common.{
  ℕ, zero, suc, ◌+◌, ◌-◌, ◌*◌, ◌^◌, max, min, String, Bool, true, false, ◌||◌, Option, none, some,
  List, [], ◌∷◌, ◌++◌, map, ltb, if◌then◌else◌,
}
use data_service.Common.Int.{ℤ, pos, negsuc, add_ℕ, neg, scale, max_zero, min_ℤ, stop}

pub data ProviderKind : Type 0 where
  xyz wms : ProviderKind

pub record WmsParams : Type 0 where
  pub layer_name : String
  pub workspace_url : String
  pub image_format : String
  pub wms_version : String

pub record BasemapProvider : Type 0 where
  pub provider_id : String
  pub name : String
  pub source_url_template : String
  pub is_tms : Bool
  pub min_zoom : ℕ
  pub max_zoom : ℕ
  pub cache_max_zoom : ℕ
  pub attribution : String
  pub kind : ProviderKind
  pub wms_params : Option WmsParams
  pub is_overlay : Bool

pub record BoundingBox : Type 0 where
  pub lat_min : ℤ
  pub lat_max : ℤ
  pub lon_min : ℤ
  pub lon_max : ℤ

unfoldable pub lon_to_tile_x : ℤ → ℕ → ℤ
lon_to_tile_x lon zoom = scale (add_ℕ lon 180_000_000) (2 ^ zoom) 360_000_000

unfoldable pub tms_y_flip : ℕ → ℕ → ℕ
tms_y_flip y zoom = 2 ^ zoom - 1 - y

-- `[start, start + 1, …]`, of the given length
abbrev pub count_up : ℕ → ℕ → List ℕ
count_up start zero = []
count_up start (suc n) = start ∷ count_up (start + 1) n

-- Python's `range(start, stop)`
abbrev pub range : ℕ → ℕ → List ℕ
range start end = count_up start (end - start)

-- the result of `_tile_range`
pub record TileRange : Type 0 where
  pub x_min : ℕ
  pub x_max : ℤ
  pub y_min : ℕ
  pub y_max : ℤ

-- the inner loop of `iter_tiles`
abbrev pub column : ℕ → ℕ → List ℕ → List (ℕ × ℕ × ℕ)
column zoom x ys = map (λ y. (zoom, x, y)) ys

-- the outer loop
abbrev pub columns : ℕ → List ℕ → List ℕ → List (ℕ × ℕ × ℕ)
columns zoom [] ys = []
columns zoom (x ∷ xs) ys = column zoom x ys ++ columns zoom xs ys

-- `x_max < x_min`, of an integer and a number
abbrev pub below : ℤ → ℕ → Bool
below (pos a) n = ltb a n
below (negsuc a) n = true

-- `x_max - x_min + 1`, where that is positive
abbrev pub span : ℤ → ℕ → ℕ
span a n = stop a - n

module _ (mercator : ℤ → ℤ) where
  unfoldable pub lat_to_tile_y : ℤ → ℕ → ℤ
  lat_to_tile_y lat zoom = scale (add_ℕ (neg (mercator lat)) 1_000_000) (2 ^ zoom) 2_000_000

  unfoldable pub tile_range : ℕ → BoundingBox → TileRange
  tile_range zoom bbox =
      let max_tile = 2 ^ zoom - 1 in
      record {
        x_min = max_zero (lon_to_tile_x bbox.lon_min zoom);
        x_max = min_ℤ max_tile (lon_to_tile_x bbox.lon_max zoom);
        y_min = max_zero (lat_to_tile_y bbox.lat_max zoom);
        y_max = min_ℤ max_tile (lat_to_tile_y bbox.lat_min zoom);
      }

  unfoldable pub iter_tiles : ℕ → BoundingBox → List (ℕ × ℕ × ℕ)
  iter_tiles zoom bbox =
      let r = tile_range zoom bbox in
      columns zoom (range r.x_min (stop r.x_max)) (range r.y_min (stop r.y_max))

  unfoldable pub count_tiles : ℕ → BoundingBox → ℕ
  count_tiles zoom bbox =
      let r = tile_range zoom bbox in
      if below r.x_max r.x_min || below r.y_max r.y_min
      then 0
      else span r.x_max r.x_min * span r.y_max r.y_min
