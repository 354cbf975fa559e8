-- ===== src/Mirror/Backed.antt =====
-- The index of a mirror and the tiles behind it.
use data_service.Common.{
  ℕ, zero, suc, ◌+◌, ◌-◌, ◌≤◌, ◌≡◌, refl, Bool, true, ◌&&◌, Option, none, some, List, [], ◌∷◌, ltb,
  leb, arith, All, All-mono, Bool-cases, Option-cases, inl, inr,
}
use data_service.Common.Int.{ℤ, eq_ℤ-iff}
use data_service.Common.Text.{Text, codes, eq_text, eq_text_iff, has_text, leaf_segment, ends_in}
use data_service.Mirror.{
  Zxy, eq_zxy, Stored, Tiles, store_tile, Index, read_index, drop_member, from_score, TileIo,
  TilesetIo, Mirror, MirrorRun, stored_as, parse_zxy, webp_only, download_tile_to_redis,
  download_all, index_tileset, sync_tileset, sync_tilesets, trimmed,
}

-- a tile of the member is in Redis for a lifetime from the member's score on
abbrev pub Backed : Tiles → ℕ → Text × ℕ → Type 0
Backed tiles ttl (id, score) =
    (zxy : Zxy) × (s : Stored) × (tiles id zxy ≡ some s) × (score + ttl ≤ s.expires)

-- the members were added by `now`, and each has a tile
abbrev pub IsBacked : ℕ → ℕ → Mirror → Type 0
IsBacked ttl now m = All (λ e. (e.1 ≤ now) × Backed m.tiles ttl e) m.index.members

eq_zxy_refl : (k : Zxy) → eq_zxy k k ≡ true
eq_zxy_refl (z, x, y) = ground (arith, eq_ℤ-iff z z, eq_ℤ-iff x x, eq_ℤ-iff y y)

store_tile-same :
    (ttl : ℕ) (id : Text) (k : Zxy) (c : Text) (at : ℕ) (tiles : Tiles)
    → store_tile ttl id k c at tiles id k ≡ some (record { content = c; expires = at + ttl })
store_tile-same ttl id k c at tiles = rw ((eq_text_iff id id).1 refl, eq_zxy_refl k) refl

store_tile-Backed :
    (ttl : ℕ) (id : Text) (k : Zxy) (c : Text) (at : ℕ) (tiles : Tiles) (e : Text × ℕ)
    → e.1 ≤ at
    → Backed tiles ttl e
    → Backed (store_tile ttl id k c at tiles) ttl e
store_tile-Backed ttl id k c at tiles (id', score) early (k', s, found, lasts) =
    elim (Bool-cases (eq_text id id' && eq_zxy k k')) [
      | inl same ↦
          (k', record { content = c; expires = at + ttl }, rw same refl, omega (arith, early))
      | inr other ↦ (k', s, rw other found, lasts)
    ]

All-from_score :
    (P : Text × ℕ → Type 0) (min_score : ℕ) (ms : List (Text × ℕ))
    → All P ms
    → All (λ e. P e × (min_score ≤ e.1)) (from_score min_score ms)
All-from_score P min_score [] all = tt
All-from_score P min_score ((id, score) ∷ ms) all = elim (Bool-cases (ltb score min_score)) [
  | inl low ↦ rw low (All-from_score P min_score ms all.1)
  | inr high ↦ rw high ((all.0, ground arith), All-from_score P min_score ms all.1)
]

All-drop_member :
    (P : Text × ℕ → Type 0) (id : Text) (ms : List (Text × ℕ))
    → All P ms
    → All P (drop_member id ms)
All-drop_member P id [] all = tt
All-drop_member P id ((id', score) ∷ ms) all = elim (Bool-cases (eq_text id' id)) [
  | inl same ↦ rw same (All-drop_member P id ms all.1)
  | inr other ↦ rw other (all.0, All-drop_member P id ms all.1)
]

All-read_index :
    (P : Text × ℕ → Type 0) (at : ℕ) (idx : Index) → All P idx.members → All P (read_index at idx)
All-read_index P at idx all = elim (Bool-cases (leb idx.expires at)) [
  | inl gone ↦ rw gone tt
  | inr live ↦ rw live all
]

-- each answer comes after the start of the cycle
abbrev pub IsAfter : ℕ → TilesetIo → Type 0
IsAfter now io = elim io.objects [ none ↦ Unit | some objects ↦ All (λ o. now ≤ o.at) objects ]

All-webp_only : (P : TileIo → Type 0) (ios : List TileIo) → All P ios → All P (webp_only ios)
All-webp_only P [] all = tt
All-webp_only P (io ∷ ios) all = elim (Bool-cases (ends_in (codes ".webp") io.s3_key)) [
  | inl tile ↦ rw tile (all.0, All-webp_only P ios all.1)
  | inr other ↦ rw other (All-webp_only P ios all.1)
]

module _ (int_of : Text → Option ℤ) (ttl now : ℕ) where
  download-Backed :
      (id : Text) (io : TileIo) (tiles : Tiles) (e : Text × ℕ)
      → now ≤ io.at
      → e.1 ≤ now
      → Backed tiles ttl e
      → Backed (download_tile_to_redis int_of ttl id io tiles).0 ttl e
  unfolding download_tile_to_redis
  download-Backed id io tiles e late early backed =
      elim (Option-cases (stored_as io (parse_zxy int_of io.s3_key))) [
        | inl failed ↦ rw failed backed
        | inr ((k, c), stored) ↦
            rw stored
              (store_tile-Backed ttl id k c io.at tiles e (omega (arith, late, early)) backed)
      ]

  index-Backed :
      (id : Text) (io : TilesetIo) (idx : Index) (tiles : Tiles) (n : ℕ)
      → All (λ e. (e.1 ≤ now) × Backed tiles ttl e) idx.members
      → ((k : ℕ) → n ≡ suc k → Backed tiles ttl (id, now))
      → IsBacked ttl now (index_tileset int_of ttl now id io idx (tiles, n)).mirror
  index-Backed id io idx tiles zero all lands = all
  index-Backed id io idx tiles (suc n) all lands = elim (Bool-cases io.index_ok) [
    | inl indexed ↦ rw indexed (
      (omega arith, lands n refl),
      All-drop_member _ id (read_index io.indexed_at idx) (All-read_index _ io.indexed_at idx all),
    )
    | inr raised ↦ rw raised all
  ]

  download_all-Backed :
      (id : Text) (ios : List TileIo) (tiles : Tiles) (e : Text × ℕ)
      → All (λ o. now ≤ o.at) ios
      → e.1 ≤ now
      → Backed tiles ttl e
      → Backed (download_all int_of ttl id ios tiles).0 ttl e
  unfolding download_all
  download_all-Backed id [] tiles e late early backed = backed
  download_all-Backed id (io ∷ ios) tiles e late early backed =
      download_all-Backed id ios (download_tile_to_redis int_of ttl id io tiles).0 e late.1 early
        (download-Backed id io tiles e late.0 early backed)

  -- where a tile was counted, one of the tileset has landed
  download_all-lands :
      (id : Text) (ios : List TileIo) (tiles : Tiles) (n : ℕ)
      → All (λ o. now ≤ o.at) ios
      → (download_all int_of ttl id ios tiles).1 ≡ suc n
      → Backed (download_all int_of ttl id ios tiles).0 ttl (id, now)
  unfolding download_all download_tile_to_redis
  download_all-lands id [] tiles n late counted = absurd (omega (arith, counted))
  download_all-lands id (io ∷ ios) tiles n late counted =
      elim (Option-cases (stored_as io (parse_zxy int_of io.s3_key))) [
        | inl failed ↦
            rw failed
              (download_all-lands id ios tiles n late.1 (omega (arith, rw failed at counted)))
        | inr ((k, c), stored) ↦ rw stored (
            download_all-Backed id ios (store_tile ttl id k c io.at tiles) (id, now) late.1
              (omega arith)
              (
                k,
                record { content = c; expires = io.at + ttl },
                store_tile-same ttl id k c io.at tiles,
                omega (arith, late.0),
              ))
      ]

  sync_tileset-Backed :
      (existing : List Text) (answer : Text → TilesetIo) (prefix : Text) (m : Mirror)
      → ((id : Text) → IsAfter now (answer id))
      → IsBacked ttl now m
      → IsBacked ttl now (sync_tileset int_of ttl now existing answer prefix m).mirror
  unfolding sync_tileset
  sync_tileset-Backed existing answer prefix m after all =
      elim (Bool-cases (has_text (leaf_segment prefix) existing)) [
        | inl known ↦ rw known all
        | inr fresh ↦ rw fresh (elim (Option-cases (answer prefix).objects) [
          | inl raised ↦ rw raised all
          | inr (objects, listed) ↦
              let late = All-webp_only _ objects (rw listed at (after prefix)) in
              rw listed (
                index-Backed (leaf_segment prefix) (answer prefix) m.index
                  (download_all int_of ttl (leaf_segment prefix) (webp_only objects) m.tiles).0
                  (download_all int_of ttl (leaf_segment prefix) (webp_only objects) m.tiles).1
                  (All-mono _ _ m.index.members
                    (λ e (early, backed). (
                      early,
                      download_all-Backed (leaf_segment prefix) (webp_only objects) m.tiles e late
                          early backed,
                    ))
                    all)
                  (λ k counted.
                    download_all-lands (leaf_segment prefix) (webp_only objects) m.tiles k late
                      counted))
        ])
      ]

  pub sync_tilesets-Backed :
      (existing : List Text) (answer : Text → TilesetIo) (prefixes : List Text) (m : Mirror)
      → ((id : Text) → IsAfter now (answer id))
      → IsBacked ttl now m
      → IsBacked ttl now (sync_tilesets int_of ttl now existing answer prefixes m).mirror
  unfolding sync_tilesets
  sync_tilesets-Backed existing answer [] m after all = all
  sync_tilesets-Backed existing answer (prefix ∷ prefixes) m after all =
      let one = sync_tileset-Backed existing answer prefix m after all in
      elim (Bool-cases (sync_tileset int_of ttl now existing answer prefix m).ok) [
        | inl ok ↦ rw ok (sync_tilesets-Backed existing answer prefixes _ after one)
        | inr raised ↦ rw raised one
      ]

  -- After a trim that went through, no tile of a member has expired by `now`
  pub trimmed-Backed :
      (trim_ok : Bool) (run : MirrorRun)
      → IsBacked ttl now run.mirror
      → IsBacked ttl now (trimmed int_of ttl now trim_ok run).mirror
        × ((trimmed int_of ttl now trim_ok run).ok ≡ true
            → All
                (λ e.
                  Backed (trimmed int_of ttl now trim_ok run).mirror.tiles ttl e
                  × (now ≤ e.1 + ttl))
                (trimmed int_of ttl now trim_ok run).mirror.index.members)
  trimmed-Backed trim_ok run all = elim (Bool-cases run.ok) [
    | inl ok ↦ elim (Bool-cases trim_ok) [
      | inl done ↦
          let kept = All-from_score _ (now - ttl) run.mirror.index.members all in
          rw (ok, done)
            (
              All-mono _ _ _ (λ e x. x.0) kept,
              λ _. All-mono _ _ _ (λ e x. (x.0.1, omega (arith, x.1))) kept,
            )
      | inr failed ↦ rw (ok, failed) (all, λ h. cc)
    ]
    | inr raised ↦ rw raised (all, λ h. cc)
  ]
