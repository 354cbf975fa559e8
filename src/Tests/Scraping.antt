-- ===== src/Tests/Scraping.antt =====
-- A small scraper for the tests, and what its parts do with a few outcomes.
use data_service.Common.{
  ℕ, ◌≡◌, ◌≤◌, ◌<◌, refl, true, false, String, Option, none, some, List, [], ◌∷◌, arith, contains,
}
use data_service.StorageCircuit.{CircuitConfig, new_circuit}
use data_service.StateStore.{empty_store}
use data_service.Scraper.{
  TileOutcome, ok, missing, unavailable, FailureReason, ScraperConfig, new_sweep_state, Scraper,
  update_sweep_state, note_fetch, judge,
}
use data_service.Scraper.Health.{Seen, run}

abbrev pub render : Option FailureReason → String
render none = ""
render (some reason) = "too many failures"

-- two of three recent fetches trip a provider
abbrev pub scraping : ScraperConfig
scraping = record {
  sync_interval = 1000;
  cache_max_zoom = 3;
  checkpoint_every = 2;
  checkpoint_seconds = 60;
  fanout_window = 2;
  error_rate_threshold = record { num = 1; den = 2 };
  error_rate_min_samples = 3;
  error_rate_window = 3;
  cooldown_schedule = 100 ∷ 400 ∷ [];
  redis_writes_enabled = true;
  render = render;
}

abbrev pub storage : CircuitConfig
storage = record {
  name = "S3";
  window = 4;
  min_samples = 3;
  threshold = record { num = 1; den = 2 };
  base_cooldown = 30;
  max_cooldown = 100;
  max_consecutive_trips = 4;
}

abbrev pub idle_scraper : Scraper
idle_scraper = record {
  store = empty_store;
  s3_circuit = new_circuit storage;
  redis_circuit = new_circuit storage;
  bucket = [];
  lifecycle_applied = false;
  storage_retry_due = false;
  storage_down_this_cycle = false;
}

abbrev seen : TileOutcome → Seen
seen o = record { exhausted = false; outcome = o; tile = (3, 2, 4) }

-- two refusals and a success, with a missing tile between
abbrev bad_luck : List Seen
bad_luck = seen unavailable ∷ seen missing ∷ seen ok ∷ seen unavailable ∷ []

bad_luck-trips : (run scraping bad_luck new_sweep_state).tripped ≡ true
unfolding run update_sweep_state note_fetch judge
bad_luck-trips = refl

abbrev shuffled : List ℕ
shuffled = 6 ∷ 5 ∷ 8 ∷ 7 ∷ []

all_finished : (i : ℕ) → 5 ≤ i → i < 9 → contains i shuffled ≡ true
all_finished i a b = ground arith
