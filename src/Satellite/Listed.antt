-- ===== src/Satellite/Listed.antt =====
-- What the satellite's index lists after a cycle.
use data_service.Common.{
  ℕ, ◌+◌, ◌≤◌, ◌≡◌, refl, Bool, true, false, Option, none, some, List, [], ◌∷◌, if◌then◌else◌,
  arith, All, All-mono, Bool-cases, inl, inr,
}
use data_service.Common.Int.{ℤ}
use data_service.Common.Sort.{sort}
use data_service.Common.Text.{is_before, Text, eq_text, eq_text_iff}
use data_service.Mirror.{Zxy, Stored, Tiles, Mirror, read_index, ids, sync_tilesets, trimmed}
use data_service.Mirror.Backed.{Backed, IsBacked, IsAfter, sync_tilesets-Backed, trimmed-Backed}
use data_service.Satellite.{
  channel_of, ChannelIo, Channels, put_channel, sync_listed, sync_channel, sync_satellite_prefixes,
}

-- each member has a tile in Redis that lasts until `now` at least
abbrev pub IsServable : ℕ → Mirror → Type 0
IsServable now m =
    All (λ e. (zxy : Zxy) × (s : Stored) × (m.tiles e.0 zxy ≡ some s) × (now ≤ s.expires))
      m.index.members

servable :
    (ttl now : ℕ) (tiles : Tiles) (ms : List (Text × ℕ))
    → All (λ e. Backed tiles ttl e × (now ≤ e.1 + ttl)) ms
    → All (λ e. (zxy : Zxy) × (s : Stored) × (tiles e.0 zxy ≡ some s) × (now ≤ s.expires)) ms
servable ttl now tiles ms all =
    All-mono _ _ ms
      (λ e ((zxy, s, found, lasts), young). (zxy, s, found, omega (arith, lasts, young))) all

no_error : (ok : Bool) (n : ℕ) → (if ok then 0 else 1) + n ≡ 0 → (ok ≡ true) × (n ≡ 0)
no_error true n clean = (refl, omega (arith, clean))
no_error false n clean = absurd (omega (arith, clean))

module _ (int_of : Text → Option ℤ) (ttl now : ℕ) where
  sync_listed-Backed :
      (io : ChannelIo) (listing : Option (List Text)) (m : Mirror)
      → ((id : Text) → IsAfter now (io.answer id))
      → IsBacked ttl now m
      → IsBacked ttl now (sync_listed int_of ttl now io listing m).mirror
        × ((sync_listed int_of ttl now io listing m).ok ≡ true
            → IsServable now (sync_listed int_of ttl now io listing m).mirror)
  sync_listed-Backed io none m after all = (all, λ h. cc)
  sync_listed-Backed io (some prefixes) m after all = elim (Bool-cases io.index_readable) [
    | inl readable ↦
        let existing = ids (read_index io.read_at m.index) in
        let run = sync_tilesets int_of ttl now existing io.answer (sort is_before prefixes) m in
        let end = trimmed int_of ttl now io.trim_ok run in
        let (kept, young) = trimmed-Backed int_of ttl now io.trim_ok run (
          sync_tilesets-Backed int_of ttl now existing io.answer (sort is_before prefixes) m after
            all) in
        rw readable
          (kept, λ ok. servable ttl now end.mirror.tiles end.mirror.index.members (young ok))
    | inr broken ↦ rw broken (all, λ h. cc)
  ]

  sync_channel-Backed :
      (io : ChannelIo) (m : Mirror)
      → ((id : Text) → IsAfter now (io.answer id))
      → IsBacked ttl now m
      → IsBacked ttl now (sync_channel int_of ttl now io m).mirror
        × ((sync_channel int_of ttl now io m).ok ≡ true
            → IsServable now (sync_channel int_of ttl now io m).mirror)
  unfolding sync_channel
  sync_channel-Backed io m after all = sync_listed-Backed io io.subdirectories m after all

  put_channel-all :
      (P : Mirror → Type 0) (channel : Text) (m : Mirror) (cs : Channels)
      → P m
      → (c : Text) → P (cs c)
      → P (put_channel channel m cs c)
  put_channel-all P channel m cs new c old = elim (Bool-cases (eq_text channel c)) [
    | inl same ↦ rw same new
    | inr other ↦ rw other old
  ]

  put_channel-same :
      (P : Mirror → Type 0) (channel : Text) (m : Mirror) (cs : Channels)
      → P m
      → P (put_channel channel m cs channel)
  put_channel-same P channel m cs new = rw ((eq_text_iff channel channel).1 refl) new

  -- the channels as the cycle leaves them
  abbrev pub synced : (Text → ChannelIo) → List Text → Channels → Channels
  synced world prefixes cs = (sync_satellite_prefixes int_of ttl now world prefixes cs).0

  abbrev pub errors : (Text → ChannelIo) → List Text → Channels → ℕ
  errors world prefixes cs = (sync_satellite_prefixes int_of ttl now world prefixes cs).1.1

  module _ (world : Text → ChannelIo)
      (after : (prefix id : Text) → IsAfter now ((world prefix).answer id)) where
    channels-Backed :
        (prefixes : List Text) (cs : Channels)
        → ((c : Text) → IsBacked ttl now (cs c))
        → (c : Text)
        → IsBacked ttl now (synced world prefixes cs c)
          × (errors world prefixes cs ≡ 0
              → IsServable now (cs c)
              → IsServable now (synced world prefixes cs c))
    unfolding sync_satellite_prefixes
    channels-Backed [] cs all c = (all c, λ clean old. old)
    channels-Backed (prefix ∷ prefixes) cs all c =
        let channel = channel_of prefix in
        let run = sync_channel int_of ttl now (world prefix) (cs channel) in
        let (kept, live) =
          sync_channel-Backed (world prefix) (cs channel) (after prefix) (all channel) in
        let cs' = put_channel channel run.mirror cs in
        let (kept', live') =
          channels-Backed prefixes cs'
            (λ d. put_channel-all (IsBacked ttl now) channel run.mirror cs kept d (all d)) c in
        (
          kept',
          λ clean old. live' (no_error run.ok _ clean).1 (
              put_channel-all (IsServable now) channel run.mirror cs
                (live (no_error run.ok _ clean).0) c old),
        )

    channels-Servable :
        (prefixes : List Text) (cs : Channels)
        → ((c : Text) → IsBacked ttl now (cs c))
        → errors world prefixes cs ≡ 0
        → All (λ prefix. IsServable now (synced world prefixes cs (channel_of prefix))) prefixes
    unfolding sync_satellite_prefixes
    channels-Servable [] cs all clean = tt
    channels-Servable (prefix ∷ prefixes) cs all clean =
        let channel = channel_of prefix in
        let run = sync_channel int_of ttl now (world prefix) (cs channel) in
        let (kept, live) =
          sync_channel-Backed (world prefix) (cs channel) (after prefix) (all channel) in
        let cs' = put_channel channel run.mirror cs in
        let all' : (c : Text) → IsBacked ttl now (cs' c) =
          λ d. put_channel-all (IsBacked ttl now) channel run.mirror cs kept d (all d) in
        let (one_ok, rest_ok) = no_error run.ok (errors world prefixes cs') clean in
        (
          (channels-Backed prefixes cs' all' channel).1 rest_ok
              (put_channel-same (IsServable now) channel run.mirror cs (live one_ok)),
          channels-Servable prefixes cs' all' rest_ok,
        )

    -- Whatever the answers of a cycle, which come after its start: behind each tileset that a channel
    -- lists stands a tile that Redis keeps for a lifetime from the tileset's score on, if this was so
    -- before the cycle.
    pub sync_satellite_prefixes-IsBacked :
        (prefixes : List Text) (cs : Channels)
        → ((c : Text) → IsBacked ttl now (cs c))
        → (c : Text) → IsBacked ttl now (synced world prefixes cs c)
    sync_satellite_prefixes-IsBacked prefixes cs all c = (channels-Backed prefixes cs all c).0

    -- After a cycle without errors, whose answers come after its start: each tileset that a channel of
    -- the cycle lists has a tile that has not expired by the start, if before the cycle Redis kept a
    -- tile of each listed tileset for a lifetime from its score on.
    pub sync_satellite_prefixes-Servable :
        (prefixes : List Text) (cs : Channels)
        → ((c : Text) → IsBacked ttl now (cs c))
        → errors world prefixes cs ≡ 0
        → All (λ prefix. IsServable now (synced world prefixes cs (channel_of prefix))) prefixes
    sync_satellite_prefixes-Servable prefixes cs all clean = channels-Servable prefixes cs all clean
