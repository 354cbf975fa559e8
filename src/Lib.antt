-- ===== src/Lib.antt =====
-- The data service: the scraper and the reader of its basemap backup, its weather stations, the
-- life of its sync services, and the parts these stand on.
--
-- The service keeps copies of map tiles: a scraper walks the tiles of a bounding box for each
-- provider, zoom by zoom, downloads each tile and writes it to S3 and to Redis. Two circuits
-- guard the two backends, a breaker guards each provider, and a SQLite store remembers where a
-- sweep stands and which tiles failed, so that a restart resumes there. A reader answers
-- requests for tiles from the provider, from Redis or from S3. A second scraper stores a
-- snapshot of all weather stations in each cycle and tends the registry of stations; its reader
-- answers for an hour's snapshot and for the history of a station, to holders of a key that the
-- keystore has made. Each product has a sync service, of which one worker process runs the loop.
--
--   * StorageCircuit models src/services/storage_circuit.py: `StorageCircuit` with
--     `record_success`, `record_failure` and its gates. Valid, Reports, Backoff and Outage hold
--     its proofs.
--   * LogThrottle models src/log_throttle.py.
--   * StateStore models src/clients/basemap_state_store.py: five tables as functions of their
--     key, and the failed tiles as a list of rows.
--   * BasemapConfig models the tile arithmetic of src/services/basemap_config.py.
--   * Scraper models src/services/basemap_scraper_service.py: the data and `_update_sweep_state`
--     in Scraper itself, `_advance_watermark` in Scraper.Watermark and Scraper.Chunk,
--     `_download_and_store` in Scraper.Tile, `_sweep_chunk` and `_handle_completion` in
--     Scraper.Chunk, `_run_indexed_sweep`, `_retry_failed_tiles` and `_scrape_zoom` in
--     Scraper.Sweep, `_scrape_provider` in Scraper.Provider, `_run_sync` and
--     `_compute_next_sleep` in Scraper.Cycle. Scraper.Health holds the proofs on the provider's
--     breaker, Scraper.Provider.Visits those on a whole visit.
--   * TileClient models `download_tile` of src/clients/http_tile_client.py for a retrying loop
--     that is an argument; its proofs take what the library documents of the loop as the record
--     `Retrying`.
--   * TileReader models the chain of src/services/basemap_tile_reader.py that answers a request
--     for a tile: the provider behind its relay circuit, then Redis, then S3.
--   * Keystore models src/clients/weather_stations_keystore.py over a bucket that is an
--     argument: Records reads a record back; Minting, Revocation and Undone say what the
--     operations do to the secrets.
--   * Stations.Calendar holds the dates of Python's `datetime` that the stations use.
--     Stations.Keys models the names of snapshots and their parser, Stations.Buckets the hour
--     buckets, Stations.Series the two pivots of src/services/weather_stations_cache.py;
--     Stations.Buckets and Stations.Reader model `_resolve_bucket_snapshot_key` and
--     `_station_series_points` of src/services/weather_stations_service.py, Stations.Registry
--     the registry of src/services/weather_stations_scraper_service.py, and Stations.Warm the
--     caches that it warms.
--   * Sync models src/services/base_sync_service.py and src/services/domain_sync_service.py:
--     Counters follows a domain through its runs, Workers several processes that share a lock.
--   * Mirror models what the satellite and the radar sync share of src/clients/s3_client.py and
--     src/clients/redis_client.py, Satellite src/services/satellite_sync_service.py and Radar
--     src/services/radar_sync_service.py with the radar index. Mirror.Backed and
--     Satellite.Listed look at the tiles behind an index, Radar.Navigation at the way to them.
--   * Gfs models the catalogue of src/services/gfs_config.py and the names of
--     src/clients/s3_client.py, Gfs.Sync src/services/gfs_sync_service.py; Gfs.Names reads the
--     names back, Gfs.Sync.Cycles follows the index of cycles through a pass. Gfs.Reads models
--     the overlays and the layers of src/services/gfs_sync_strategy.py, Gfs.Reads.Coherent and
--     Gfs.Reads.Layers prove its reads.
--   * Wrf models the overlays of a step in src/services/wrf_sync_service.py.
--   * Common holds the shared names and lemmas, Tests the runs at concrete inputs.
--
-- The world is an argument. A time is a number of ticks, and a synchronous stretch of code reads
-- the clock once. What a provider or a backend answers is a `TileIo`, a chunk's interleaving of
-- tasks is its list of events with the answers to the tasks left, which all end, and a visit or
-- a sweep is given such answers for all that it does. The tasks of a chunk pass the storage gate
-- together, when they are dispatched. Thresholds are ratios of two numbers, and the float
-- arithmetic of coordinates is exact division cut towards zero. Parameters are `mercator`, the
-- projection of the mathematics library, `host_of`, the host part of a URL, and `render`, which
-- puts the reason of a trip into words; for the stations, the hash of a secret and of a text,
-- `str` and `int` of a JSON value, `datetime.fromisoformat`, the dew point, and the parser of
-- the registry's text. A JSON document is a value or, where it does not parse, nothing.
--
-- Two loops run on fuel. The wait for the storage is given one round more than the ticks left to
-- wait, the loop over the chunks one round for each tile that is left, since each chunk takes at
-- least one; all others are structural.
--
-- Not modelled: the client's semaphores and pacing, log lines and their pacing, the SQLite
-- connection, `updated_at` columns, the cancellation of a task in the middle of its writes, an
-- exception of a tile's download other than `ProviderUnavailableError`, which would leave the
-- sweep or the request, and the interleaving of provider groups in the modes "per_origin" and
-- "full", where groups share the circuits; the single flight and the deadline of a request to the reader; of the weather
-- stations the snapshot of a cycle. The routes, the tiles of the WRF and the ECMWF products, the
-- reading of products and the requests of the clients are not modelled either.
pub mod Common
pub mod StorageCircuit
pub mod LogThrottle
pub mod StateStore
pub mod BasemapConfig
pub mod Scraper
pub mod TileClient
pub mod TileReader
pub mod Gfs
pub mod Keystore
pub mod Mirror
pub mod Radar
pub mod Satellite
pub mod Stations
pub mod Sync
pub mod Wrf
pub mod Tests
