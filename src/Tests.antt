-- ===== src/Tests.antt =====
-- The components on concrete inputs, and each theorem at an input where its hypotheses hold.
pub mod Circuit
pub mod Throttle
pub mod Client
pub mod Tiles
pub mod Store
pub mod Scraping
pub mod Zoom
pub mod Provider
pub mod Cycle
pub mod Reader
pub mod Memory
pub mod Warming
pub mod Overlays
pub mod Forecasts
pub mod Radars
pub mod Mirrors
pub mod Keys
pub mod History
pub mod Domains
pub mod Hours
pub mod Registries
