-- ===== src/Tests/Zoom.antt =====
-- A zoom of five tiles, swept in chunks of two.
use data_service.Common.{
  refl, false, ℕ, suc, ◌+◌, ◌*◌, ◌≡◌, ◌≤◌, ◌<◌, Bool, true, some, List, [], ◌∷◌,
}
use data_service.StorageCircuit.{StorageCircuit, new_circuit, allows_write, cooldown_remaining}
use data_service.StateStore.{get_cursor}
use data_service.Scraper.{Tile, storage_skipped, new_sweep_state}
use data_service.Scraper.Tile.{Fetched, TileIo}
use data_service.Scraper.Chunk.{Sweep, ended, taken, handle_completion}
use data_service.Scraper.Chunk.Outcomes.{is_kept}
use data_service.Scraper.Chunk.Progress.{handle_completion-skipped}
use data_service.Scraper.Sweep.{
  ChunkRun, ZoomRun, await_storage_cooldown, sweep_chunks, new_progress, run_indexed_sweep,
}
use data_service.Scraper.Sweep.Safe.{Resumable, run_indexed_sweep-Resumable}
use data_service.Scraper.Sweep.Loops.{await_storage_cooldown-admits}
use data_service.Scraper.{stops, update_sweep_state, note_fetch, judge}
use data_service.Scraper.Watermark.{complete, absorb}
use data_service.Scraper.Tile.{
  persist_to_s3, write_through_redis, store_fetched, finish_tile, admits,
}
use data_service.StorageCircuit.{is_open, in_probe_window, exhausted, record_success, observe}
use data_service.StateStore.{set_cursor, add_failed}
use data_service.Scraper.Chunk.{
  count_outcome, advance_watermark, end_task, take_first, chunk_step, run_chunk, sweep_chunk,
}
use data_service.Tests.Scraping.{scraping, storage, idle_scraper}

abbrev pub five : List Tile
five = (3, 2, 2) ∷ (3, 2, 3) ∷ (3, 2, 4) ∷ (3, 2, 5) ∷ (3, 2, 6) ∷ []

-- what the world answers to a tile at a time
abbrev pub answer : Fetched → Bool → ℕ → TileIo
answer fetched written now = record {
  asked_at = now;
  fetched = fetched;
  s3_written = written;
  s3_at = now;
  redis_asked_at = now;
  redis_written = true;
  redis_at = now;
}

-- the chunk of the tiles `i` and `i + 1`; the later one ends first
abbrev pub chunk : Fetched → Bool → ℕ → ChunkRun
chunk fetched written k = record {
  arrived_at = 10 * k;
  early = λ now. 0;
  tasks = record {
    events =
        ended (2 * k + 1) (answer fetched written (10 * k + 1))
        ∷ taken (10 * k + 1)
        ∷ ended (2 * k) (answer fetched written (10 * k + 2))
        ∷ taken (10 * k + 2)
        ∷ [];
    rest = λ i. answer fetched written (10 * k + 3);
    ends_at = 10 * k + 4;
  };
}

abbrev pub zoom_run : Fetched → Bool → ZoomRun
zoom_run fetched written = record {
  retries = λ k. answer fetched written 0;
  started_at = 0;
  chunks = chunk fetched written;
}

no_cursor :
    (i : ℕ)
    → get_cursor "osm" idle_scraper.store ≡ some (record { zoom = 3; tile_index = i })
    → i ≤ 0
unfolding get_cursor
no_cursor i h = cc

run_indexed_sweep-Resumable_example :
    Resumable "osm" 3 0 5 five
      (run_indexed_sweep scraping "osm" 3 five
        (zoom_run Fetched.bytes true)
        0
        idle_scraper
        new_sweep_state).scraper
run_indexed_sweep-Resumable_example =
    run_indexed_sweep-Resumable scraping "osm" 3 five (zoom_run Fetched.bytes true) 0 idle_scraper
      new_sweep_state no_cursor

abbrev waiting : StorageCircuit
waiting = record (new_circuit storage) { open_until = 37; opened_at = 7 }

await_storage_cooldown-admits_example :
    allows_write waiting
      (await_storage_cooldown (λ now. 3) (suc (cooldown_remaining waiting 10)) waiting 10)
    ≡ true
await_storage_cooldown-admits_example = await_storage_cooldown-admits (λ now. 3) waiting 10

abbrev begun : Sweep
begun = record { scraper = idle_scraper; sweep = new_sweep_state; progress = new_progress 5 0 0 }

handle_completion-skipped_example :
    let w' = handle_completion scraping "osm" 3 0 (3, 2, 2) storage_skipped 5 begun in
    (0 < w'.progress.watermark)
    × (is_kept "osm" (3, 2, 2) w'.scraper ≡ is_kept "osm" (3, 2, 2) idle_scraper)
handle_completion-skipped_example = handle_completion-skipped scraping "osm" 3 5 (3, 2, 2) begun

stored-runs :
    stops
      (run_indexed_sweep scraping "osm" 3 five
        (zoom_run Fetched.bytes true)
        0
        idle_scraper
        new_sweep_state).sweep
    ≡ false
unfolding run_indexed_sweep set_cursor add_failed sweep_chunks sweep_chunk run_chunk chunk_step
    end_task take_first handle_completion count_outcome advance_watermark complete absorb
    finish_tile store_fetched persist_to_s3 write_through_redis record_success observe admits
    allows_write is_open in_probe_window await_storage_cooldown cooldown_remaining
    update_sweep_state note_fetch judge exhausted
stored-runs = refl
