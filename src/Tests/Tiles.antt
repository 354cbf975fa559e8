-- ===== src/Tests/Tiles.antt =====
-- The tiles of a small box, on a map where the projection is the identity.
use data_service.Common.{All, ◌≡◌, refl, ◌≤◌, ◌<◌, [], ◌∷◌, arith}
use data_service.Common.Int.{ℤ, pos, negsuc, stop}
use data_service.BasemapConfig.{BoundingBox, lon_to_tile_x, lat_to_tile_y, tile_range, iter_tiles}
use data_service.BasemapConfig.Tiles.{InRange, iter_tiles-InRange}

abbrev pub flat : ℤ → ℤ
flat a = a

-- from 70° to 50° west, half of the map high
abbrev pub box : BoundingBox
box = record {
  lat_min = negsuc 499_999;
  lat_max = pos 500_000;
  lon_min = negsuc 69_999_999;
  lon_max = negsuc 49_999_999;
}

iter_tiles-box :
    iter_tiles flat 3 box ≡ (3, 2, 2) ∷ (3, 2, 3) ∷ (3, 2, 4) ∷ (3, 2, 5) ∷ (3, 2, 6) ∷ []
unfolding iter_tiles tile_range lon_to_tile_x lat_to_tile_y
iter_tiles-box = refl

x-min : (tile_range flat 3 box).x_min ≤ 2
unfolding tile_range lon_to_tile_x
x-min = ground arith

x-max : 2 < stop (tile_range flat 3 box).x_max
unfolding tile_range lon_to_tile_x
x-max = ground arith

y-min : (tile_range flat 3 box).y_min ≤ 4
unfolding tile_range lat_to_tile_y
y-min = ground arith

y-max : 4 < stop (tile_range flat 3 box).y_max
unfolding tile_range lat_to_tile_y
y-max = ground arith

iter_tiles-InRange_example :
    let r = tile_range flat 3 box in
    All
      (λ t. InRange 3 r.x_min (stop r.x_max) r.y_min (stop r.y_max) t × InRange 3 0 8 0 8 t)
      (iter_tiles flat 3 box)
iter_tiles-InRange_example = iter_tiles-InRange flat 3 box
