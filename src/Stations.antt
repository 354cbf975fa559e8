-- ===== src/Stations.antt =====
-- src/services/weather_stations_cache.py and its neighbours: what the scraper of the weather stations
-- writes and what the readers find.
pub mod Calendar
pub mod Series
pub mod Keys
pub mod Buckets
pub mod Reader
pub mod Warm
pub mod Registry
