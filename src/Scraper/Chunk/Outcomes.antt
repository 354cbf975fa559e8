-- ===== src/Scraper/Chunk/Outcomes.antt =====
-- One tile of a chunk: what the end of its task and `_handle_completion` leave of the bucket, the queue
-- of failed tiles and the cursor.
use data_service.Common.{
  ℕ, ◌-◌, ◌≡◌, refl, ◌≢◌, String, Bool, true, ◌||◌, some, List, [], ◌∷◌, ◌++◌, arith, Bool-cases,
  ◌⊎◌, inl, inr,
}
use data_service.StateStore.{FailedTile, has_row, get_cursor, set_cursor, add_failed}
use data_service.StateStore.Laws.{has_row-append, has_row_self, has_row-add, same_tile_refl}
use data_service.StorageCircuit.{record_success}
use text.Mathlib.TextPositions.{eq_refl}
use mathlib.Core.Path.{subst, sym}
use data_service.Scraper.{
  TileOutcome, ok, missing, unavailable, storage_error, storage_skipped, Tile, ScraperConfig,
  Scraper, tile_key,
}
use data_service.Scraper.Tile.{
  TileIo, Fetched, finish_tile, stored, store_fetched, persist_to_s3, write_through_redis,
}
use data_service.Scraper.Watermark.{complete}
use data_service.Scraper.Chunk.{Sweep, count_outcome, advance_watermark, should_flush}

-- The tile is in the S3 bucket, or in the queue of failed tiles.
abbrev pub is_kept : String → Tile → Scraper → Bool
is_kept p t s = has_row (tile_key p t) s.bucket || has_row (tile_key p t) s.store.failed

write_through_redis_leaves :
    (cfg : ScraperConfig) (io : TileIo) (s : Scraper)
    → ((write_through_redis cfg io s).store ≡ s.store)
      × ((write_through_redis cfg io s).bucket ≡ s.bucket)
unfolding write_through_redis
write_through_redis_leaves cfg io s = ground arith

-- What the end of a tile's task leaves alone and says: the store is untouched, nothing leaves the
-- bucket, `ok` means that the tile is in it, and a tile past its gate is not reported as skipped.
abbrev pub Finishes : String → Tile → Scraper → Scraper × TileOutcome → Type 0
Finishes p t s (s', outcome) =
    (s'.store ≡ s.store)
    × ((r : FailedTile) → has_row r s.bucket ≡ true → has_row r s'.bucket ≡ true)
    × (outcome ≡ ok → has_row (tile_key p t) s'.bucket ≡ true)
    × (outcome ≢ storage_skipped)

grows :
    (r t : FailedTile) (ts : List FailedTile)
    → has_row r ts ≡ true
    → has_row r (ts ++ t ∷ []) ≡ true
grows r t ts h = ground (arith, has_row-append r t ts)

store_fetched-Finishes :
    (cfg : ScraperConfig) (p : String) (t : Tile) (io : TileIo) (f : Fetched) (s : Scraper)
    → Finishes p t s (store_fetched cfg p t io f s)
unfolding store_fetched persist_to_s3
store_fetched-Finishes cfg p t io Fetched.down s = (refl, λ r h. h, λ e. cc, λ e. cc)
store_fetched-Finishes cfg p t io Fetched.empty s = (refl, λ r h. h, λ e. cc, λ e. cc)
store_fetched-Finishes cfg p t io Fetched.bytes s = elim (Bool-cases io.s3_written) [
  | inl written ↦
      let s1 = record s {
        s3_circuit = (record_success s.s3_circuit io.s3_at).0;
        bucket = s.bucket ++ tile_key p t ∷ [];
      } in
      let persisted : persist_to_s3 p t io s ≡ (s1, true) = unfold persist_to_s3 in rw written in
      let (same_store, same_bucket) = write_through_redis_leaves cfg io s1 in
      subst (λ q. Finishes p t s (stored cfg io q)) (sym persisted)
        (
          same_store,
          λ r h. rw same_bucket (grows r (tile_key p t) s.bucket h),
          λ e. rw same_bucket (has_row_self (tile_key p t) s.bucket),
          λ e. cc,
        )
  | inr lost ↦ rw lost (refl, λ r h. h, λ e. cc, λ e. cc)
]

pub finish_tile-Finishes :
    (cfg : ScraperConfig) (p : String) (t : Tile) (io : TileIo) (s : Scraper)
    → Finishes p t s (finish_tile cfg true p t io s)
unfolding finish_tile
finish_tile-Finishes cfg p t io s = store_fetched-Finishes cfg p t io io.fetched s

pub kept_mono :
    (p : String) (t : Tile) (s s' : Scraper)
    → (has_row (tile_key p t) s.bucket ≡ true → has_row (tile_key p t) s'.bucket ≡ true)
    → (has_row (tile_key p t) s.store.failed ≡ true → has_row (tile_key p t) s'.store.failed ≡ true)
    → is_kept p t s ≡ true
    → is_kept p t s' ≡ true
kept_mono p t s s' f g h = ground arith

-- a tile that is added to the queue of failed tiles
added :
    (p : String) (z x y : ℕ) (w : Sweep)
    → (let s = w.scraper in
        let s' = record s { store = add_failed p z x y s.store } in
        (is_kept p (z, x, y) s' ≡ true)
        × ((r : FailedTile) → has_row r s.store.failed ≡ true → has_row r s'.store.failed ≡ true)
        × (s'.bucket ≡ s.bucket)
        × (s'.store.cursor ≡ s.store.cursor)
        × (w.progress.watermark ≡ w.progress.watermark)
        × (w.progress.done_above ≡ w.progress.done_above))
unfolding add_failed
added p z x y w =
    let t = tile_key p (z, x, y) in
    let failed = w.scraper.store.failed in
    (
      ground (arith, has_row-add t t failed, same_tile_refl t),
      λ r h. ground (arith, has_row-add r t failed),
      refl,
      refl,
      refl,
      refl,
    )

-- `_handle_completion` up to the watermark: the tile is kept, what was kept stays, the cursor and the
-- watermark are as they were.
pub count_outcome-keeps :
    (p : String) (outcome : TileOutcome) (t : Tile) (w : Sweep)
    → (outcome ≡ ok → has_row (tile_key p t) w.scraper.bucket ≡ true)
    → outcome ≢ storage_skipped
    → (let w' = count_outcome p outcome t w in
        (is_kept p t w'.scraper ≡ true)
        × ((r : FailedTile)
            → has_row r w.scraper.store.failed ≡ true
            → has_row r w'.scraper.store.failed ≡ true)
        × (w'.scraper.bucket ≡ w.scraper.bucket)
        × (w'.scraper.store.cursor ≡ w.scraper.store.cursor)
        × (w'.progress.watermark ≡ w.progress.watermark)
        × (w'.progress.done_above ≡ w.progress.done_above))
unfolding count_outcome
count_outcome-keeps p ok (z, x, y) w sure tried = (rw (sure refl), λ r h. h, refl, refl, refl, refl)
count_outcome-keeps p storage_skipped (z, x, y) w sure tried = absurd (tried refl)
count_outcome-keeps p missing (z, x, y) w sure tried = added p z x y w
count_outcome-keeps p unavailable (z, x, y) w sure tried = added p z x y w
count_outcome-keeps p storage_error (z, x, y) w sure tried = added p z x y w

-- `_advance_watermark`: the bucket and the queue stay, the watermark moves past the finished tile, and
-- the cursor of the provider stays or is set to the watermark.
pub advance_watermark-moves :
    (cfg : ScraperConfig) (p : String) (zoom idx now : ℕ) (w : Sweep)
    → (let w' = advance_watermark cfg p zoom idx now w in
        let (mark, above) = complete idx w.progress.watermark w.progress.done_above in
        (w'.scraper.bucket ≡ w.scraper.bucket)
        × (w'.scraper.store.failed ≡ w.scraper.store.failed)
        × (w'.progress.watermark ≡ mark)
        × (w'.progress.done_above ≡ above)
        × ((get_cursor p w'.scraper.store ≡ get_cursor p w.scraper.store)
            ⊎ (get_cursor p w'.scraper.store ≡ some (record { zoom = zoom; tile_index = mark }))))
unfolding advance_watermark set_cursor get_cursor
advance_watermark-moves cfg p zoom idx now w =
    let mark = (complete idx w.progress.watermark w.progress.done_above).0 in
    let flush =
      should_flush cfg (mark - w.progress.last_flushed) (now - w.progress.last_flush_time) in
    elim (Bool-cases flush) [
      | inl due ↦ rw due (refl, refl, refl, refl, inr (rw (eq_refl p)))
      | inr early ↦ rw early (refl, refl, refl, refl, inl refl)
    ]
