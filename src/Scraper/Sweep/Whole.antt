-- ===== src/Scraper/Sweep/Whole.antt =====
-- The loop over the chunks: it keeps track of the tiles, and handles all of them unless it stops.
use data_service.BasemapConfig.{count_up, range}
use data_service.Common.{
  false, if_split, contains, ltb, ◌==◌, ℕ, zero, suc, ◌+◌, ◌-◌, ◌≤◌, ◌<◌, ◌≡◌, min, String, true,
  List, leb, length, arith, Bool-cases, inl, inr,
}
use data_service.Scraper.{Tile, ScraperConfig, Scraper, stops}
use data_service.Scraper.Tile.{admits}
use data_service.Scraper.Chunk.{Sweep, sweep_chunk}
use data_service.Scraper.Chunk.Kept.{TracksSweep, sweep_chunk-Tracks}
use data_service.Scraper.Sweep.{ChunkRun, sweep_chunks, dispatched_at}
use data_service.Scraper.Sweep.Loops.{await_storage_cooldown-admits}

dispatched_at-admits :
    (run : ChunkRun) (s : Scraper) → admits s (dispatched_at run s.s3_circuit) ≡ true
unfolding admits
dispatched_at-admits run s = await_storage_cooldown-admits run.early s.s3_circuit run.arrived_at

contains-count_up :
    (i start n : ℕ) → start ≤ i → i < start + n → contains i (count_up start n) ≡ true
contains-count_up i start zero a b = absurd (omega arith)
contains-count_up i start (suc n) a b = elim (Bool-cases (i == start)) [
  | inl here ↦ ground arith
  | inr later ↦ ground (arith, contains-count_up i (start + 1) n)
]

-- each index from `first` on, below `start` and of the zoom, was handled
abbrev pub AllTo : ℕ → ℕ → List ℕ → Type 0
AllTo first end handled = (i : ℕ) → first ≤ i → i < end → contains i handled ≡ true

AllTo-chunk :
    (first start window total : ℕ) (handled later : List ℕ)
    → AllTo first (min start total) handled
    → ((i : ℕ) → contains i handled ≡ true → contains i later ≡ true)
    → ((i : ℕ)
        → contains i (range start (min (start + window) total)) ≡ true
        → contains i later ≡ true)
    → AllTo first (min (start + window) total) later
AllTo-chunk first start window total handled later sofar keeps whole i a b =
    elim (Bool-cases (ltb i (min start total))) [
      | inl old ↦ keeps i (sofar i a (ground arith))
      | inr new ↦
          let end = min (start + window) total in
          whole i (contains-count_up i start (end - start) (ground arith) (ground arith))
    ]

-- what a loop over chunks from `start` gives: more handled tiles, and all of the zoom's unless it stops
abbrev pub Chunked : ScraperConfig → String → ℕ → List Tile → ℕ → ℕ → ℕ → List ℕ → Sweep → Type 0
Chunked cfg p zoom coords first fuel start handled v =
    (later : List ℕ) × TracksSweep p zoom coords first later v
    × (0 < cfg.fanout_window
        → length coords - start ≤ fuel
        → AllTo first (min start (length coords)) handled
        → stops v.sweep ≡ false
        → AllTo first (length coords) later)

pub sweep_chunks-Tracks :
    (cfg : ScraperConfig) (p : String) (zoom : ℕ) (coords : List Tile) (chunks : ℕ → ChunkRun)
    (first fuel k start : ℕ) (handled : List ℕ) (w : Sweep)
    → TracksSweep p zoom coords first handled w
    → Chunked cfg p zoom coords first fuel start handled
        (sweep_chunks cfg p zoom coords chunks fuel k start w)
unfolding sweep_chunks
sweep_chunks-Tracks cfg p zoom coords chunks first zero k start handled w t =
    (handled, t, λ h enough sofar on i a b. sofar i a (omega arith))
sweep_chunks-Tracks cfg p zoom coords chunks first (suc fuel) k start handled w t =
    let total = length coords in
    let at = dispatched_at (chunks k) w.scraper.s3_circuit in
    let end = min (start + cfg.fanout_window) total in
    let next = sweep_chunk cfg p zoom coords start end at (chunks k).tasks w in
    let (later, t', keeps, whole) =
      sweep_chunk-Tracks cfg p zoom coords first start end at (chunks k).tasks handled w
        (dispatched_at-admits (chunks k) w.scraper) t in
    let (last, t'', all) =
      sweep_chunks-Tracks cfg p zoom coords chunks first fuel (k + 1) (start + cfg.fanout_window)
        later next t' in
    let chunked = Chunked cfg p zoom coords first (suc fuel) start handled in
    let rest =
      sweep_chunks cfg p zoom coords chunks fuel (k + 1) (start + cfg.fanout_window) next in
    if_split chunked (leb total start) w _
      (λ over. (handled, t, λ h enough sofar on i a b. sofar i a (ground arith)))
      (λ room.
        if_split chunked w.sweep.storage_abandoned w _
          (λ abandoned. (handled, t, λ h enough sofar on i a b. absurd (ground arith)))
          (λ up.
            if_split chunked (stops next.sweep) next rest
              (λ stop. (later, t', λ h enough sofar on i a b. absurd (cc)))
              (λ going. (
                last,
                t'',
                λ h enough sofar on.
                    all h (ground arith)
                      (AllTo-chunk first start cfg.fanout_window total handled later sofar keeps
                        (whole going))
                      on,
              ))))
