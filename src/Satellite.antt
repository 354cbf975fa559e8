-- ===== src/Satellite.antt =====
-- src/services/satellite_sync_service.py: one cycle over the channels.
pub mod Listed
pub mod Skips
use data_service.Common.{
  ℕ, ◌+◌, Bool, true, false, ◌==◌, Option, none, some, List, [], ◌∷◌, ltb, if◌then◌else◌,
}
use data_service.Common.Int.{ℤ}
use data_service.Common.Sort.{sort}
use data_service.Common.Text.{is_before, Text, codes, eq_text, leaf_segment}
use data_service.Mirror.{
  Mirror, MirrorRun, Index, TilesetIo, read_index, ids, sync_tilesets, trimmed,
}

-- `PREFIX_TO_CHANNEL`
abbrev pub prefix_to_channel : List (Text × Text)
prefix_to_channel =
    (codes "tiles/goes19/abi/c13", codes "goes19/abi/c13")
    ∷ (codes "tiles/goes19/abi/c09", codes "goes19/abi/c09")
    ∷ (codes "tiles/goes19/abi/c02", codes "goes19/abi/c02")
    ∷ (codes "tiles/goes19/glm/fed", codes "goes19/glm/fed")
    ∷ (codes "tiles/goes19/glm/toe", codes "goes19/glm/toe")
    ∷ (codes "tiles/goes19/glm/mfa", codes "goes19/glm/mfa")
    ∷ []

-- `get`, with a default
abbrev pub get_channel : Text → List (Text × Text) → Text
get_channel prefix [] = leaf_segment prefix
get_channel prefix ((p, channel) ∷ ps) = if eq_text p prefix then channel else get_channel prefix ps

-- the channel of a prefix
unfoldable pub channel_of : Text → Text
channel_of prefix = get_channel prefix prefix_to_channel

-- What a channel meets: the listing of its tilesets and the read of the index, which may raise, the
-- answers for each tileset, and the trim.
pub record ChannelIo : Type 0 where
  pub subdirectories : Option (List Text)
  pub index_readable : Bool
  pub read_at : ℕ
  pub answer : Text → TilesetIo
  pub trim_ok : Bool

-- the parts of Redis for each channel
abbrev pub Channels : Type 0
Channels = Text → Mirror

abbrev pub put_channel : Text → Mirror → Channels → Channels
put_channel channel m cs = λ c. if eq_text channel c then m else cs c

module _ (int_of : Text → Option ℤ) (ttl : ℕ) where
  abbrev pub sync_listed : ℕ → ChannelIo → Option (List Text) → Mirror → MirrorRun
  sync_listed now io none m = record { mirror = m; downloaded = 0; ok = false }
  sync_listed now io (some prefixes) m =
      if io.index_readable
      then trimmed int_of ttl now io.trim_ok (
          sync_tilesets int_of ttl now (ids (read_index io.read_at m.index)) io.answer
            (sort is_before prefixes) m)
      else record { mirror = m; downloaded = 0; ok = false }

  -- the body of the loop over the prefixes
  unfoldable pub sync_channel : ℕ → ChannelIo → Mirror → MirrorRun
  sync_channel now io m = sync_listed now io io.subdirectories m

  -- `_sync_satellite_prefixes`: the channels, the tiles downloaded and the errors
  unfoldable pub sync_satellite_prefixes :
      ℕ → (Text → ChannelIo) → List Text → Channels → Channels × (ℕ × ℕ)
  sync_satellite_prefixes now world [] cs = (cs, (0, 0))
  sync_satellite_prefixes now world (prefix ∷ prefixes) cs =
      let channel = channel_of prefix in
      let run = sync_channel now (world prefix) (cs channel) in
      let (cs', (downloaded, errors)) =
        sync_satellite_prefixes now world prefixes (put_channel channel run.mirror cs) in
      (cs', (run.downloaded + downloaded, (if run.ok then 0 else 1) + errors))
