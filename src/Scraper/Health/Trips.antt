-- ===== src/Scraper/Health/Trips.antt =====
-- When the provider's breaker trips, and for how long.
use data_service.Common.{
  ◌≡◌, Bool, true, false, ◌&&◌, ◌||◌, List, [], ◌∷◌, ◌++◌, leb, length, count_true, last_n,
}
use data_service.StorageCircuit.{exceeds}
use data_service.Scraper.{ScraperConfig, ProviderSweepState}
use data_service.Scraper.Health.{Seen, fetches}

-- too many failures among recent fetches
abbrev pub over : ScraperConfig → List Bool → Bool
over cfg recent =
    leb cfg.error_rate_min_samples (length recent)
    && exceeds cfg.error_rate_threshold (count_true recent) (length recent)

-- after some outcome of `more`, following `before`, the last `error_rate_window` fetches held too
-- many failures
abbrev pub ever_over : ScraperConfig → List Seen → List Seen → Bool
ever_over cfg before [] = false
ever_over cfg before (s ∷ more) =
    let now = before ++ s ∷ [] in
    over cfg (last_n cfg.error_rate_window (fetches now)) || ever_over cfg now more

-- A sweep's flag after an outcome: up if it was up, or if the fetches seen by then are over.
abbrev pub Follows : ScraperConfig → List Seen → ProviderSweepState → Bool → Type 0
Follows cfg seen w up =
    (w.tripped ≡ up) × (over cfg (last_n cfg.error_rate_window (fetches seen)) ≡ true → up ≡ true)
