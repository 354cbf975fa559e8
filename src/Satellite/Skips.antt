-- ===== src/Satellite/Skips.antt =====
-- What a cycle does to the tilesets that the index lists already.
use data_service.Common.{
  ℕ, zero, suc, ◌≡◌, refl, Bool, true, false, Option, none, some, List, [], ◌∷◌, ◌∙◌, Bool-cases,
  Option-cases, inl, inr,
}
use data_service.Common.Int.{ℤ}
use data_service.Common.Sort.{sort}
use data_service.Common.Text.{is_before, Text, eq_text, eq_text_iff, has_text, leaf_segment}
use data_service.Mirror.{
  Zxy, Tiles, store_tile, TileIo, TilesetIo, Mirror, MirrorRun, Index, index_tileset, read_index,
  ids, stored_as, parse_zxy, webp_only, download_tile_to_redis, download_all, sync_tileset,
  sync_tilesets, trimmed,
}
use data_service.Satellite.{ChannelIo, sync_listed, sync_channel}

module _ (int_of : Text → Option ℤ) (ttl now : ℕ) (id : Text) (zxy : Zxy) where
  download_all-other :
      (other : Text) (ios : List TileIo) (tiles : Tiles)
      → eq_text other id ≡ false
      → (download_all int_of ttl other ios tiles).0 id zxy ≡ tiles id zxy
  unfolding download_all download_tile_to_redis
  download_all-other other [] tiles apart = refl
  download_all-other other (io ∷ ios) tiles apart =
      elim (Option-cases (stored_as io (parse_zxy int_of io.s3_key))) [
        | inl failed ↦ rw failed (download_all-other other ios tiles apart)
        | inr ((k, c), stored) ↦ rw stored (
            download_all-other other ios (store_tile ttl other k c io.at tiles) apart
            ∙ rw apart refl)
      ]

  index_tileset-tiles :
      (io : TilesetIo) (other : Text) (idx : Index) (tiles : Tiles) (n : ℕ)
      → (index_tileset int_of ttl now other io idx (tiles, n)).mirror.tiles ≡ tiles
  index_tileset-tiles io other idx tiles zero = refl
  index_tileset-tiles io other idx tiles (suc n) = refl

  apart_from :
      (existing : List Text) (other : Text)
      → has_text id existing ≡ true
      → has_text other existing ≡ false
      → eq_text other id ≡ false
  apart_from existing other known fresh = elim (Bool-cases (eq_text other id)) [
    | inl same ↦ let e = (eq_text_iff other id).0 same in absurd cc
    | inr apart ↦ apart
  ]

  module _ (existing : List Text) (answer : Text → TilesetIo)
      (known : has_text id existing ≡ true) where
    sync_tileset-keeps :
        (prefix : Text) (m : Mirror)
        → (sync_tileset int_of ttl now existing answer prefix m).mirror.tiles id zxy
          ≡ m.tiles id zxy
    unfolding sync_tileset
    sync_tileset-keeps prefix m = elim (Bool-cases (has_text (leaf_segment prefix) existing)) [
      | inl skipped ↦ rw skipped refl
      | inr fresh ↦ rw fresh (elim (Option-cases (answer prefix).objects) [
        | inl raised ↦ rw raised refl
        | inr (objects, listed) ↦
            let other = leaf_segment prefix in
            let (tiles, n) = download_all int_of ttl other (webp_only objects) m.tiles in
            rw (listed, index_tileset-tiles (answer prefix) other m.index tiles n)
              (download_all-other other (webp_only objects) m.tiles
                (apart_from existing other known fresh))
      ])
    ]

    sync_tilesets-keeps :
        (prefixes : List Text) (m : Mirror)
        → (sync_tilesets int_of ttl now existing answer prefixes m).mirror.tiles id zxy
          ≡ m.tiles id zxy
    unfolding sync_tilesets
    sync_tilesets-keeps [] m = refl
    sync_tilesets-keeps (prefix ∷ prefixes) m =
        let one = sync_tileset-keeps prefix m in
        elim (Bool-cases (sync_tileset int_of ttl now existing answer prefix m).ok) [
          | inl ok ↦ rw ok (sync_tilesets-keeps prefixes _ ∙ one)
          | inr raised ↦ rw raised one
        ]

  trimmed-tiles :
      (trim_ok : Bool) (run : MirrorRun)
      → (trimmed int_of ttl now trim_ok run).mirror.tiles ≡ run.mirror.tiles
  trimmed-tiles trim_ok run = elim (Bool-cases run.ok) [
    | inl ok ↦ elim (Bool-cases trim_ok) [
      | inl done ↦ rw (ok, done) refl
      | inr failed ↦ rw (ok, failed) refl
    ]
    | inr raised ↦ rw raised refl
  ]

  sync_listed-keeps :
      (io : ChannelIo) (listing : Option (List Text)) (m : Mirror)
      → has_text id (ids (read_index io.read_at m.index)) ≡ true
      → (sync_listed int_of ttl now io listing m).mirror.tiles id zxy ≡ m.tiles id zxy
  sync_listed-keeps io none m known = refl
  sync_listed-keeps io (some prefixes) m known = elim (Bool-cases io.index_readable) [
    | inl readable ↦
        let existing = ids (read_index io.read_at m.index) in
        let run = sync_tilesets int_of ttl now existing io.answer (sort is_before prefixes) m in
        rw (readable, trimmed-tiles io.trim_ok run)
          (sync_tilesets-keeps existing io.answer known (sort is_before prefixes) m)
    | inr broken ↦ rw broken refl
  ]

  -- A tileset that the index lists when a cycle reads it keeps its tiles in the cycle, whatever S3 and
  -- Redis answer: those that had failed when it was indexed are not tried again.
  pub listed_is_skipped :
      (io : ChannelIo) (m : Mirror)
      → has_text id (ids (read_index io.read_at m.index)) ≡ true
      → (sync_channel int_of ttl now io m).mirror.tiles id zxy ≡ m.tiles id zxy
  unfolding sync_channel
  listed_is_skipped io m known = sync_listed-keeps io io.subdirectories m known
