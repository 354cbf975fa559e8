-- ===== src/Scraper/Chunk/Kept.antt =====
-- No tile is lost: what lies below the watermark is in the bucket or in the queue of failed tiles.
use data_service.Common.{
  All, ℕ, ◌≤◌, ◌<◌, ◌≡◌, String, true, false, some, List, [], ◌∷◌, contains, arith, Bool-cases,
  ◌==◌, ==_iff, inl, inr,
}
use data_service.StateStore.{get_cursor}
use mathlib.Core.Path.{subst, sym, ap}
use data_service.Scraper.{Tile, ScraperConfig, Scraper, stops}
use data_service.BasemapConfig.{range}
use data_service.Scraper.Tile.{admits}
use data_service.Scraper.Chunk.{
  dispatched, Interleaving, all_events, Sweep, coord_at, run_chunk, sweep_chunk,
}
use data_service.Scraper.Chunk.Outcomes.{is_kept}
use data_service.Scraper.Chunk.Tracks.{Tracks, waits, run_chunk-Grows}
use data_service.Scraper.Chunk.Drained.{all_events-drain}

-- Everything from `first` up to the watermark is kept, and the stored cursor of the provider, which a
-- restart resumes from, is not past the watermark.
pub record IsSafe (p : String) (zoom : ℕ) (coords : List Tile) (first : ℕ) (w : Sweep)
    : Type 0 where
  pub kept :
      (i : ℕ)
      → first ≤ i
      → i < w.progress.watermark
      → is_kept p (coord_at coords i) w.scraper ≡ true
  pub behind :
      (i : ℕ)
      → get_cursor p w.scraper.store ≡ some (record { zoom = zoom; tile_index = i })
      → i ≤ w.progress.watermark

kept_of_contains :
    (p : String) (coords : List Tile) (s : Scraper) (i : ℕ) (handled : List ℕ)
    → All (λ j. is_kept p (coord_at coords j) s ≡ true) handled
    → contains i handled ≡ true
    → is_kept p (coord_at coords i) s ≡ true
kept_of_contains p coords s i [] h e = cc
kept_of_contains p coords s i (j ∷ handled) h e = elim (Bool-cases (i == j)) [
  | inl same ↦ rw ((==_iff i j).0 same) h.0
  | inr other ↦ kept_of_contains p coords s i handled h.1 (ground arith)
]

-- `Tracks` between two chunks
abbrev pub TracksSweep : String → ℕ → List Tile → ℕ → List ℕ → Sweep → Type 0
TracksSweep p zoom coords first handled w = Tracks p zoom coords first [] handled (dispatched [] w)

pub TracksSweep-IsSafe :
    (p : String) (zoom : ℕ) (coords : List Tile) (first : ℕ) (handled : List ℕ) (w : Sweep)
    → TracksSweep p zoom coords first handled w
    → IsSafe p zoom coords first w
TracksSweep-IsSafe p zoom coords first handled w k = record {
  kept = λ i a b. kept_of_contains p coords w.scraper i handled k.kept (k.marks.finished i a b);
  behind = k.behind;
}

-- A chunk adds to the handled tiles; unless the sweep is to stop, it adds all of its own.
pub sweep_chunk-Tracks :
    (cfg : ScraperConfig) (p : String) (zoom : ℕ) (coords : List Tile) (first : ℕ)
    (chunk_start chunk_end dispatched_at : ℕ) (tasks : Interleaving) (handled : List ℕ) (w : Sweep)
    → admits w.scraper dispatched_at ≡ true
    → TracksSweep p zoom coords first handled w
    → (let w' = sweep_chunk cfg p zoom coords chunk_start chunk_end dispatched_at tasks w in
        (later : List ℕ) × TracksSweep p zoom coords first later w'
        × ((i : ℕ) → contains i handled ≡ true → contains i later ≡ true)
        × (stops w'.sweep ≡ false
            → (i : ℕ) → contains i (range chunk_start chunk_end) ≡ true
            → contains i later ≡ true))
unfolding sweep_chunk
sweep_chunk-Tracks cfg p zoom coords first chunk_start chunk_end dispatched_at tasks handled w
      passed k =
    let is = range chunk_start chunk_end in
    let es = all_events tasks is in
    let begun = dispatched is w in
    let start : Tracks p zoom coords first is handled begun = record {
      marks = k.marks;
      kept = k.kept;
      truthful = tt;
      behind = k.behind;
      accounted = λ i m. ground arith;
    } in
    let (later, end, grown) = run_chunk-Grows cfg p zoom coords first is es handled begun start in
    let c = run_chunk cfg p zoom coords true es begun in
    let passed_on : Sweep → Type 0 = λ w'.
      TracksSweep p zoom coords first later w'
      × ((i : ℕ) → contains i handled ≡ true → contains i later ≡ true)
      × (stops w'.sweep ≡ false → (i : ℕ) → contains i is ≡ true → contains i later ≡ true) in
    let between : TracksSweep p zoom coords first later c.state = record {
      marks = end.marks;
      kept = end.kept;
      truthful = tt;
      behind = end.behind;
      accounted = λ i m. absurd (ground arith);
    } in
    let (tracks, keeps, whole) =
      subst (λ b. passed_on (run_chunk cfg p zoom coords b es begun).state) (sym passed)
        (
          between,
          grown,
          λ on i m.
              let (landed, empty) = all_events-drain cfg p zoom coords true tasks is w on i in
              ground (arith, end.accounted i m, landed, ap (waits i) empty),
        ) in
    (later, tracks, keeps, whole)
