-- ===== src/Tests/Mirrors.antt =====
-- A satellite channel with two tilesets, of which one tile fails.
use data_service.Common.{
  ℕ, ◌-◌, ◌≡◌, refl, Bool, true, false, Option, none, some, List, [], ◌∷◌, ltb, if◌then◌else◌,
  arith, All,
}
use data_service.Common.Int.{ℤ, pos}
use data_service.Common.Sort.{sort}
use data_service.Common.Text.{Text, codes, has_text}
use data_service.Mirror.{
  sync_tilesets, sync_tileset, download_all, download_tile_to_redis, parse_zxy, Mirror, TileIo, ids,
  read_index,
}
use data_service.Mirror.Backed.{IsBacked, IsAfter}
use data_service.Satellite.{ChannelIo, Channels, channel_of, sync_channel, sync_satellite_prefixes}
use data_service.Satellite.Listed.{
  IsServable, synced, errors, sync_satellite_prefixes-IsBacked, sync_satellite_prefixes-Servable,
}
use data_service.Satellite.Skips.{listed_is_skipped}

-- one digit
abbrev digit_of : Text → Option ℤ
digit_of (d ∷ []) = if ltb d 58 then some (pos (d - 48)) else none
digit_of _ = none

abbrev tile : Text → Bool → ℕ → TileIo
tile s3_key redis_ok at = record {
  s3_key = s3_key;
  content = some (codes "w");
  redis_ok = redis_ok;
  at = at;
}

abbrev objects : List TileIo
objects =
    tile (codes "t/c/20/3/1/2.webp") true 101
    ∷ tile (codes "t/c/20/3/1/3.webp") false 102
    ∷ tile (codes "t/c/20/meta.json") true 102
    ∷ []

abbrev c13 : Text
c13 = codes "tiles/goes19/abi/c13"

abbrev world : Text → ChannelIo
world prefix = record {
  subdirectories = some (codes "t/c/20/" ∷ []);
  index_readable = true;
  read_at = 100;
  answer = λ p. record { objects = some objects; index_ok = true; indexed_at = 103 };
  trim_ok = true;
}

abbrev empty : Mirror
empty = record { tiles = λ id zxy. none; index = record { members = []; expires = 0 } }

abbrev channels : Channels
channels c = empty

answers-IsAfter : (prefix id : Text) → IsAfter 100 ((world prefix).answer id)
answers-IsAfter prefix id = (omega arith, (omega arith, (omega arith, tt)))

no_errors : errors digit_of 60 100 world (c13 ∷ []) channels ≡ 0
unfolding sync_satellite_prefixes sync_channel sync_tilesets sort sync_tileset download_all
    download_tile_to_redis parse_zxy
no_errors = refl

sync_satellite_prefixes-IsBacked_example :
    IsBacked 60 100 (synced digit_of 60 100 world (c13 ∷ []) channels (channel_of c13))
sync_satellite_prefixes-IsBacked_example =
    sync_satellite_prefixes-IsBacked digit_of 60 100 world answers-IsAfter (c13 ∷ []) channels
      (λ c. tt) (channel_of c13)

sync_satellite_prefixes-Servable_example :
    All
      (λ prefix.
        IsServable 100 (synced digit_of 60 100 world (c13 ∷ []) channels (channel_of prefix)))
      (c13 ∷ [])
sync_satellite_prefixes-Servable_example =
    sync_satellite_prefixes-Servable digit_of 60 100 world answers-IsAfter (c13 ∷ []) channels
      (λ c. tt) no_errors

-- the mirror after the first cycle: the tileset is listed, though a tile of it is missing
abbrev first : Mirror
first = (sync_channel digit_of 60 100 (world c13) empty).mirror

first_listed : has_text (codes "20") (ids (read_index 100 first.index)) ≡ true
unfolding sync_channel sync_tilesets sort sync_tileset download_all download_tile_to_redis parse_zxy
first_listed = refl

first_missing : first.tiles (codes "20") (pos 3, pos 1, pos 3) ≡ none
unfolding sync_channel sync_tilesets sort sync_tileset download_all download_tile_to_redis parse_zxy
first_missing = refl

listed_is_skipped_example :
    (sync_channel digit_of 60 105 (world c13) first).mirror.tiles (codes "20") (pos 3, pos 1, pos 3)
    ≡ first.tiles (codes "20") (pos 3, pos 1, pos 3)
listed_is_skipped_example =
    listed_is_skipped digit_of 60 105 (codes "20") (pos 3, pos 1, pos 3) (world c13) first
      first_listed
