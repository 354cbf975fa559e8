-- ===== src/Scraper/Chunk.antt =====
-- `_handle_completion`, `_advance_watermark` and `_sweep_chunk` of
-- src/services/basemap_scraper_service.py. The tasks of a chunk run at once: all pass their gate when
-- they are dispatched, and from then on the event loop interleaves the ends of the tasks and the
-- consumer's turns in any order, given as a list of events.
pub mod Progress
pub mod Outcomes
pub mod Tracks
pub mod Drained
pub mod Kept
pub mod Lossless
use data_service.Common.{
  ℕ, zero, suc, ◌+◌, ◌-◌, String, Bool, true, false, ◌&&◌, ◌||◌, Option, none, some, List, [], ◌∷◌,
  ◌++◌, ltb, leb, if◌then◌else◌, contains, discard, get_elem?,
}
use data_service.StorageCircuit.{exhausted}
use data_service.StateStore.{add_failed, set_cursor}
use data_service.BasemapConfig.{range}
use data_service.Scraper.{
  TileOutcome, ok, missing, unavailable, storage_error, storage_skipped, Tile, ScraperConfig,
  ProviderSweepState, Scraper, stops, update_sweep_state,
}
use data_service.Scraper.Tile.{TileIo, admits, finish_tile}
use data_service.Scraper.Watermark.{complete}

-- `_SweepProgress`, without what only paces the log lines
pub record SweepProgress : Type 0 where
  pub total : ℕ
  pub resume_index : ℕ
  pub watermark : ℕ
  pub last_flushed : ℕ
  pub last_flush_time : ℕ
  pub ok_count : ℕ
  pub failed_count : ℕ
  pub processed : ℕ
  pub done_above : List ℕ

-- the mutable state that the calls of one sweep share
pub record Sweep : Type 0 where
  pub scraper : Scraper
  pub sweep : ProviderSweepState
  pub progress : SweepProgress

-- `should_flush` of `_advance_watermark`
abbrev pub should_flush : ScraperConfig → ℕ → ℕ → Bool
should_flush cfg advanced elapsed =
    (leb cfg.checkpoint_every advanced || leb cfg.checkpoint_seconds elapsed) && ltb 0 advanced

-- `_advance_watermark`, and what `_handle_completion` does with its result
unfoldable pub advance_watermark : ScraperConfig → String → ℕ → ℕ → ℕ → Sweep → Sweep
advance_watermark cfg p zoom idx now w =
    let (mark, above) = complete idx w.progress.watermark w.progress.done_above in
    let moved = record w.progress { watermark = mark; done_above = above } in
    if should_flush cfg (mark - w.progress.last_flushed) (now - w.progress.last_flush_time)
    then record w {
      scraper = record w.scraper { store = set_cursor p zoom mark w.scraper.store };
      progress = record moved { last_flushed = mark; last_flush_time = now };
    }
    else record w { progress = moved }

-- the counts of `_handle_completion`, and the queue of failed tiles
unfoldable pub count_outcome : String → TileOutcome → Tile → Sweep → Sweep
count_outcome p ok (z, x, y) w = record w {
  progress = record w.progress {
    ok_count = w.progress.ok_count + 1;
    processed = w.progress.processed + 1;
  };
}
count_outcome p storage_skipped (z, x, y) w = record w {
  progress = record w.progress {
    failed_count = w.progress.failed_count + 1;
    processed = w.progress.processed + 1;
  };
}
count_outcome p other (z, x, y) w = record w {
  scraper = record w.scraper { store = add_failed p z x y w.scraper.store };
  progress = record w.progress {
    failed_count = w.progress.failed_count + 1;
    processed = w.progress.processed + 1;
  };
}

unfoldable pub handle_completion :
    ScraperConfig → String → ℕ → ℕ → Tile → TileOutcome → ℕ → Sweep → Sweep
handle_completion cfg p zoom idx t outcome now w =
    let judged = record w {
      sweep = update_sweep_state cfg (exhausted w.scraper.s3_circuit) outcome t w.sweep;
    } in
    advance_watermark cfg p zoom idx now (count_outcome p outcome t judged)

-- What the event loop does next: a task ends with what the world answered it, or the consumer takes
-- the task that has ended first, at a time.
pub data ChunkEvent : Type 0 where
  ended : ℕ → TileIo → ChunkEvent
  taken : ℕ → ChunkEvent

-- the tasks in flight, and those that have ended and wait for the consumer, in order
pub record Chunk : Type 0 where
  pub state : Sweep
  pub in_flight : List ℕ
  pub waiting : List (ℕ × TileOutcome)

-- `coords[idx]`; the indices of a chunk are in range
abbrev pub coord_at : List Tile → ℕ → Tile
coord_at coords idx = elim (get_elem? coords idx) [ some t ↦ t | none ↦ (0, 0, 0) ]

module _ (cfg : ScraperConfig) (p : String) (zoom : ℕ) (coords : List Tile) (admitted : Bool) where
  -- a task ends: the circuits hear of it at once, the consumer later
  unfoldable pub end_task : ℕ → TileIo → Chunk → Chunk
  end_task idx io c =
      let (after, outcome) = finish_tile cfg admitted p (coord_at coords idx) io c.state.scraper in
      if contains idx c.in_flight
      then record {
        state = record c.state { scraper = after };
        in_flight = discard idx c.in_flight;
        waiting = c.waiting ++ (idx, outcome) ∷ [];
      }
      else c

  -- the consumer's turn, on the tasks that wait
  unfoldable pub take_first : ℕ → List (ℕ × TileOutcome) → Chunk → Chunk
  take_first now [] c = c
  take_first now ((idx, outcome) ∷ rest) c = record c {
    state = handle_completion cfg p zoom idx (coord_at coords idx) outcome now c.state;
    waiting = rest;
  }

  unfoldable pub chunk_step : ChunkEvent → Chunk → Chunk
  chunk_step (ended idx io) c = end_task idx io c
  chunk_step (taken now) c = take_first now c.waiting c

  -- the loop stops once the sweep is to stop; the tasks still in flight are cancelled then
  unfoldable pub run_chunk : List ChunkEvent → Chunk → Chunk
  run_chunk [] c = c
  run_chunk (e ∷ es) c =
      let next = chunk_step e c in
      let rest = run_chunk es next in if stops c.state.sweep then c else rest

-- How the tasks of one chunk go: the events up to some time, the answers to the tasks that are in
-- flight then, which all end, and when the consumer takes what waits after that.
pub record Interleaving : Type 0 where
  pub events : List ChunkEvent
  pub rest : ℕ → TileIo
  pub ends_at : ℕ

abbrev pub endings : (ℕ → TileIo) → List ℕ → List ChunkEvent
endings rest [] = []
endings rest (i ∷ is) = ended i (rest i) ∷ endings rest is

abbrev pub takings : ℕ → List ℕ → List ChunkEvent
takings now [] = []
takings now (i ∷ is) = taken now ∷ takings now is

abbrev pub all_events : Interleaving → List ℕ → List ChunkEvent
all_events t is = t.events ++ (endings t.rest is ++ takings t.ends_at is)

-- the tasks of a chunk when they are dispatched
abbrev pub dispatched : List ℕ → Sweep → Chunk
dispatched is w = record { state = w; in_flight = is; waiting = [] }

-- `_sweep_chunk`
unfoldable pub sweep_chunk :
    ScraperConfig → String → ℕ → List Tile → ℕ → ℕ → ℕ → Interleaving → Sweep → Sweep
sweep_chunk cfg p zoom coords chunk_start chunk_end dispatched_at tasks w =
    let is = range chunk_start chunk_end in
    (run_chunk cfg p zoom coords (admits w.scraper dispatched_at) (all_events tasks is)
      (dispatched is w)).state
