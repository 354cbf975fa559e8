-- ===== src/Mirror.antt =====
-- What the sync loops of the satellite and the radars share: the tiles of a tileset are copied from S3 to
-- Redis, and an index remembers the tilesets that were. `sync_prefix_to_redis` and
-- `sync_radar_prefix_to_redis` of src/clients/s3_client.py, the tiles and the sorted sets of
-- src/clients/redis_client.py. `int` of a text is an argument, and a lifetime is positive.

pub mod Backed
use data_service.Common.{
  ℕ, zero, suc, ◌+◌, ◌-◌, Bool, true, false, not, ◌&&◌, Option, none, some, List, [], ◌∷◌, ◌++◌,
  ltb, leb, if◌then◌else◌,
}
use data_service.Common.Int.{ℤ, eq_ℤ}
use data_service.Common.Text.{
  Text, codes, eq_text, has_text, split_on, leaf_segment, ends_in, remove_suffix,
}

abbrev pub Zxy : Type 0
Zxy = ℤ × ℤ × ℤ

abbrev pub eq_zxy : Zxy → Zxy → Bool
eq_zxy (z, x, y) (z', x', y') = eq_ℤ z z' && (eq_ℤ x x' && eq_ℤ y y')

abbrev rev_onto : List Text → List Text → List Text
rev_onto done [] = done
rev_onto done (t ∷ ts) = rev_onto (t ∷ done) ts

module _ (int_of : Text → Option ℤ) where
  abbrev pub zxy_of : Option ℤ → Option ℤ → Option ℤ → Option Zxy
  zxy_of (some z) (some x) (some y) = some (z, x, y)
  zxy_of _ _ _ = none

  abbrev pub from_last : List Text → Option Zxy
  from_last (y ∷ x ∷ z ∷ parts) =
      zxy_of (int_of z) (int_of x) (int_of (remove_suffix (codes ".webp") y))
  from_last _ = none

  -- `_parse_zxy`
  unfoldable pub parse_zxy : Text → Option Zxy
  parse_zxy s3_key = from_last (rev_onto [] (split_on b'/' s3_key))

-- bytes in Redis, and the time at which they expire
pub record Stored : Type 0 where
  pub content : Text
  pub expires : ℕ

abbrev pub Tiles : Type 0
Tiles = Text → Zxy → Option Stored

-- `store_satellite_tile` and `store_radar_tile`, at a time
abbrev pub store_tile : ℕ → Text → Zxy → Text → ℕ → Tiles → Tiles
store_tile ttl tileset_id zxy content at tiles = λ id zxy'.
    if eq_text tileset_id id && eq_zxy zxy zxy'
    then some (record { content = content; expires = at + ttl })
    else tiles id zxy'

-- a sorted set with the lifetime of its key: the members with their scores
pub record Index : Type 0 where
  pub members : List (Text × ℕ)
  pub expires : ℕ

abbrev pub read_index : ℕ → Index → List (Text × ℕ)
read_index at idx = if leb idx.expires at then [] else idx.members

abbrev pub ids : List (Text × ℕ) → List Text
ids [] = []
ids ((id, score) ∷ ms) = id ∷ ids ms

abbrev pub drop_member : Text → List (Text × ℕ) → List (Text × ℕ)
drop_member id [] = []
drop_member id ((id', score) ∷ ms) =
    let rest = drop_member id ms in if eq_text id' id then rest else (id', score) ∷ rest

-- ZADD and EXPIRE, at a time
abbrev pub add_tileset : ℕ → Text → ℕ → ℕ → Index → Index
add_tileset ttl id score at idx = record {
  members = (id, score) ∷ drop_member id (read_index at idx);
  expires = at + ttl;
}

-- the members that ZREMRANGEBYSCORE leaves
abbrev pub from_score : ℕ → List (Text × ℕ) → List (Text × ℕ)
from_score min_score [] = []
from_score min_score ((id, score) ∷ ms) =
    let rest = from_score min_score ms in if ltb score min_score then rest else (id, score) ∷ rest

abbrev pub trim_index : ℕ → Index → Index
trim_index min_score idx = record idx { members = from_score min_score idx.members }

-- a plain set with the lifetime of its key
pub record KeySet : Type 0 where
  pub members : List Text
  pub expires : ℕ

-- SMEMBERS, at a time
abbrev pub read_set : ℕ → KeySet → List Text
read_set at s = if leb s.expires at then [] else s.members

-- SADD and EXPIRE, at a time
abbrev pub add_to_set : ℕ → Text → ℕ → KeySet → KeySet
add_to_set ttl member at s =
    let old = read_set at s in
    record { members = if has_text member old then old else member ∷ old; expires = at + ttl }

abbrev pub at_text {ℓ} : {A : Type ℓ} → Text → A → (Text → A) → Text → A
at_text k a f = λ k'. if eq_text k k' then a else f k'

-- What becomes of one object of a listing: the bytes that S3 gives, unless the read raises, and
-- whether and when Redis takes them.
pub record TileIo : Type 0 where
  pub s3_key : Text
  pub content : Option Text
  pub redis_ok : Bool
  pub at : ℕ

abbrev pub stored_as : TileIo → Option Zxy → Option (Zxy × Text)
stored_as io (some zxy) = elim io.content [
  | none ↦ none
  | some c ↦ if io.redis_ok then some (zxy, c) else none
]
stored_as io none = none

-- the tiles, and whether the task returned `True`
abbrev pub put_tile : ℕ → Text → ℕ → Option (Zxy × Text) → Tiles → Tiles × Bool
put_tile ttl tileset_id at none tiles = (tiles, false)
put_tile ttl tileset_id at (some (zxy, c)) tiles = (store_tile ttl tileset_id zxy c at tiles, true)

-- the answers for a tileset: its listing, which may raise, and whether and when the index takes it
pub record TilesetIo : Type 0 where
  pub objects : Option (List TileIo)
  pub index_ok : Bool
  pub indexed_at : ℕ

pub record Mirror : Type 0 where
  pub tiles : Tiles
  pub index : Index

-- the mirror, the tiles downloaded, and whether nothing was raised
pub record MirrorRun : Type 0 where
  pub mirror : Mirror
  pub downloaded : ℕ
  pub ok : Bool

-- the tiles of a listing
abbrev pub webp_only : List TileIo → List TileIo
webp_only [] = []
webp_only (io ∷ ios) =
    let rest = webp_only ios in if ends_in (codes ".webp") io.s3_key then io ∷ rest else rest

module _ (int_of : Text → Option ℤ) (ttl : ℕ) where
  -- `_download_tile_to_redis` and `_download_radar_tile_to_redis`
  unfoldable pub download_tile_to_redis : Text → TileIo → Tiles → Tiles × Bool
  download_tile_to_redis tileset_id io tiles =
      put_tile ttl tileset_id io.at (stored_as io (parse_zxy int_of io.s3_key)) tiles

  -- the tasks that `gather` runs, in the order in which Redis takes their tiles
  unfoldable pub download_all : Text → List TileIo → Tiles → Tiles × ℕ
  download_all tileset_id [] tiles = (tiles, 0)
  download_all tileset_id (io ∷ ios) tiles =
      let (tiles', stored) = download_tile_to_redis tileset_id io tiles in
      let (end, n) = download_all tileset_id ios tiles' in (end, (if stored then 1 else 0) + n)

  -- `sync_prefix_to_redis` and `sync_radar_prefix_to_redis`; `none` says that the listing raised
  abbrev pub sync_prefix_to_redis : Text → Option (List TileIo) → Tiles → Option (Tiles × ℕ)
  sync_prefix_to_redis tileset_id none tiles = none
  sync_prefix_to_redis tileset_id (some objects) tiles =
      some (download_all tileset_id (webp_only objects) tiles)

  -- what follows a download: only a tileset of which some tile landed is indexed
  abbrev pub index_tileset : ℕ → Text → TilesetIo → Index → Tiles × ℕ → MirrorRun
  index_tileset now id io idx (tiles, zero) = record {
    mirror = record { tiles = tiles; index = idx };
    downloaded = 0;
    ok = true;
  }
  index_tileset now id io idx (tiles, suc n) =
      let idx' = if io.index_ok then add_tileset ttl id now io.indexed_at idx else idx in
      record {
        mirror = record { tiles = tiles; index = idx' };
        downloaded = suc n;
        ok = io.index_ok;
      }

  abbrev pub after_download : ℕ → Text → TilesetIo → Mirror → Option (Tiles × ℕ) → MirrorRun
  after_download now id io m none = record { mirror = m; downloaded = 0; ok = false }
  after_download now id io m (some got) = index_tileset now id io m.index got

  -- one round of the loop over the tilesets, of which `existing` are skipped
  unfoldable pub sync_tileset : ℕ → List Text → (Text → TilesetIo) → Text → Mirror → MirrorRun
  sync_tileset now existing answer prefix m =
      let id = leaf_segment prefix in
      let io = answer prefix in
      let skipped : MirrorRun = record { mirror = m; downloaded = 0; ok = true } in
      if has_text id existing
      then skipped
      else after_download now id io m (sync_prefix_to_redis id io.objects m.tiles)

  -- the loop, which an exception leaves
  unfoldable pub sync_tilesets : ℕ → List Text → (Text → TilesetIo) → List Text → Mirror → MirrorRun
  sync_tilesets now existing answer [] m = record { mirror = m; downloaded = 0; ok = true }
  sync_tilesets now existing answer (prefix ∷ prefixes) m =
      let one = sync_tileset now existing answer prefix m in
      let rest = sync_tilesets now existing answer prefixes one.mirror in
      if one.ok then record rest { downloaded = one.downloaded + rest.downloaded } else one

  -- The trim at the end of the loop, which is skipped after an exception; `cutoff = now - ttl`.
  abbrev pub trimmed : ℕ → Bool → MirrorRun → MirrorRun
  trimmed now trim_ok run =
      if not run.ok
      then run
      else (if not trim_ok then record run { ok = false } else record run {
        mirror = record run.mirror { index = trim_index (now - ttl) run.mirror.index };
      })
