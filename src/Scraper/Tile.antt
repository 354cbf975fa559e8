-- ===== src/Scraper/Tile.antt =====
-- `_download_and_store` of src/services/basemap_scraper_service.py and the two writes that it makes.
use data_service.Common.{ℕ, String, Bool, true, false, not, ◌||◌, [], ◌∷◌, ◌++◌, if◌then◌else◌}
use data_service.StorageCircuit.{allows_write, record_success, record_failure}
use data_service.Scraper.{
  TileOutcome, ok, missing, unavailable, storage_error, storage_skipped, Tile, ScraperConfig,
  Scraper, tile_key,
}

-- `download_tile`: it raised `ProviderUnavailableError`, it gave no bytes, or it gave some. Any other
-- exception would leave the sweep; there is no case for one.
pub data Fetched : Type 0 where
  down empty bytes : Fetched

-- What the world answers to one tile, and when: the provider, the S3 write and the Redis writes
-- (`false` is one of the exceptions that the code catches).
pub record TileIo : Type 0 where
  pub asked_at : ℕ
  pub fetched : Fetched
  pub s3_written : Bool
  pub s3_at : ℕ
  pub redis_asked_at : ℕ
  pub redis_written : Bool
  pub redis_at : ℕ

-- `_persist_to_s3`
unfoldable pub persist_to_s3 : String → Tile → TileIo → Scraper → Scraper × Bool
persist_to_s3 p t io s =
    if io.s3_written
    then (
      record s {
        s3_circuit = (record_success s.s3_circuit io.s3_at).0;
        bucket = s.bucket ++ tile_key p t ∷ [];
      },
      true,
    )
    else (record s { s3_circuit = (record_failure s.s3_circuit io.s3_at).0 }, false)

-- `_write_through_redis`
unfoldable pub write_through_redis : ScraperConfig → TileIo → Scraper → Scraper
write_through_redis cfg io s =
    if not cfg.redis_writes_enabled || not (allows_write s.redis_circuit io.redis_asked_at)
    then s
    else if io.redis_written
    then record s { redis_circuit = (record_success s.redis_circuit io.redis_at).0 }
    else record s { redis_circuit = (record_failure s.redis_circuit io.redis_at).0 }

-- the end of `_download_and_store`, after the S3 write
abbrev pub stored : ScraperConfig → TileIo → Scraper × Bool → Scraper × TileOutcome
stored cfg io (s, true) = (write_through_redis cfg io s, ok)
stored cfg io (s, false) = (s, storage_error)

-- what follows the download, by what the provider gave
unfoldable pub store_fetched :
    ScraperConfig → String → Tile → TileIo → Fetched → Scraper → Scraper × TileOutcome
store_fetched cfg p t io down s = (s, unavailable)
store_fetched cfg p t io empty s = (s, missing)
store_fetched cfg p t io bytes s = stored cfg io (persist_to_s3 p t io s)

-- `_download_and_store` in two halves, since other tiles may report between them: the gate
unfoldable pub admits : Scraper → ℕ → Bool
admits s now = allows_write s.s3_circuit now

-- and what follows it
unfoldable pub finish_tile :
    ScraperConfig → Bool → String → Tile → TileIo → Scraper → Scraper × TileOutcome
finish_tile cfg admitted p t io s =
    if admitted then store_fetched cfg p t io io.fetched s else (s, storage_skipped)

unfoldable pub download_and_store :
    ScraperConfig → String → Tile → TileIo → Scraper → Scraper × TileOutcome
download_and_store cfg p t io s = finish_tile cfg (admits s io.asked_at) p t io s
