-- ===== src/Scraper/Sweep/Safe.antt =====
-- What a zoom's sweep leaves in the store: the cursor, and what lies below it.
use data_service.Common.{
  le→leb, false, contains, ltb, ℕ, ◌+◌, ◌-◌, ◌≤◌, ◌<◌, ◌≡◌, String, true, some, List, [], leb,
  if◌then◌else◌, length, arith, Bool-cases, inl, inr, ◌∙◌,
}
use data_service.StateStore.{get_cursor, set_cursor}
use data_service.Scraper.{Tile, ScraperConfig, ProviderSweepState, Scraper, stops}
use data_service.Scraper.Chunk.{Sweep, coord_at}
use data_service.Scraper.Chunk.Outcomes.{is_kept}
use data_service.Scraper.Chunk.Kept.{TracksSweep, TracksSweep-IsSafe}
use data_service.Scraper.Watermark.{start-IsWatermark}
use data_service.Scraper.Sweep.{ZoomRun, run_indexed_sweep, swept, new_progress, final_cursor}
use data_service.Scraper.Sweep.Whole.{AllTo, sweep_chunks-Tracks}
use text.Mathlib.TextPositions.{eq_refl}

-- The watermark that a sweep of a zoom has reached, and what the store says of it: everything from
-- the resume index up to it is kept, and the cursor is the next zoom's start if the whole zoom is
-- done, the watermark if not.
pub record Resumable (p : String) (zoom first total : ℕ) (coords : List Tile) (s : Scraper)
    : Type 0 where
  pub reached : ℕ
  pub from_first : first ≤ reached
  pub kept : (i : ℕ) → first ≤ i → i < reached → is_kept p (coord_at coords i) s ≡ true
  pub cursor :
      get_cursor p s.store
      ≡ some (
          if leb total reached
          then record { zoom = zoom + 1; tile_index = 0 }
          else record { zoom = zoom; tile_index = reached })

cursor_set :
    (p : String) (z i : ℕ) (s : Scraper)
    → get_cursor p (set_cursor p z i s.store) ≡ some (record { zoom = z; tile_index = i })
unfolding get_cursor set_cursor
cursor_set p z i s = rw (eq_refl p)

final_cursor_set :
    (p : String) (zoom total : ℕ) (w : Sweep)
    → get_cursor p (final_cursor p zoom total w).store
      ≡ some (
          if leb total w.progress.watermark
          then record { zoom = zoom + 1; tile_index = 0 }
          else record { zoom = zoom; tile_index = w.progress.watermark })
final_cursor_set p zoom total w = elim (Bool-cases (leb total w.progress.watermark)) [
  | inl done ↦ rw done (cursor_set p (zoom + 1) 0 w.scraper)
  | inr part ↦ rw part (cursor_set p zoom w.progress.watermark w.scraper)
]

pub final_cursor_keeps :
    (p q : String) (zoom total : ℕ) (t : Tile) (w : Sweep)
    → is_kept q t (final_cursor p zoom total w) ≡ is_kept q t w.scraper
unfolding set_cursor
final_cursor_keeps p q zoom total (z, x, y) w = elim (Bool-cases (leb total w.progress.watermark)) [
  | inl done ↦ rw done
  | inr part ↦ rw part
]

begun : ℕ → ℕ → ℕ → Scraper → ProviderSweepState → Sweep
begun total resume_index start s w = record {
  scraper = s;
  sweep = w;
  progress = new_progress total resume_index start;
}

swept_tracks :
    (cfg : ScraperConfig) (p : String) (zoom : ℕ) (coords : List Tile) (run : ZoomRun)
    (resume_index : ℕ) (s : Scraper) (w : ProviderSweepState)
    → ((i : ℕ)
        → get_cursor p s.store ≡ some (record { zoom = zoom; tile_index = i })
        → i ≤ resume_index)
    → (let done = swept cfg p zoom coords run resume_index s w in
        (handled : List ℕ) × TracksSweep p zoom coords resume_index handled done
        × (0 < cfg.fanout_window
            → stops done.sweep ≡ false
            → AllTo resume_index (length coords) handled))
unfolding begun
swept_tracks cfg p zoom coords run resume_index s w behind =
    let fuel = length coords - resume_index in
    let start = begun (length coords) resume_index run.started_at s w in
    let tracks : TracksSweep p zoom coords resume_index [] start = record {
      marks = start-IsWatermark resume_index;
      kept = tt;
      truthful = tt;
      behind = behind;
      accounted = λ i m. absurd (ground arith);
    } in
    let (handled, end, all) =
      sweep_chunks-Tracks cfg p zoom coords run.chunks resume_index fuel 0 resume_index [] start
        tracks in
    (handled, end, λ h on. all h (omega arith) (λ i a b. absurd (omega arith)) on)

-- an index that is the first one not handled lies past a range that was handled
past_all :
    (first total mark : ℕ) (handled : List ℕ)
    → first ≤ mark
    → contains mark handled ≡ false
    → AllTo first total handled
    → total ≤ mark
past_all first total mark handled a next all = elim (Bool-cases (ltb mark total)) [
  | inl short ↦ absurd (ground (arith, all mark a))
  | inr past ↦ ground arith
]

resumes :
    (cfg : ScraperConfig) (p : String) (zoom : ℕ) (coords : List Tile) (run : ZoomRun)
    (resume_index : ℕ) (s : Scraper) (w : ProviderSweepState)
    → ((i : ℕ)
        → get_cursor p s.store ≡ some (record { zoom = zoom; tile_index = i })
        → i ≤ resume_index)
    → (let done = run_indexed_sweep cfg p zoom coords run resume_index s w in
        (r : Resumable p zoom resume_index (length coords) coords done.scraper) × (0
            < cfg.fanout_window
          → stops done.sweep ≡ false
          → length coords ≤ r.reached))
unfolding run_indexed_sweep
resumes cfg p zoom coords run resume_index s w behind =
    let (handled, end, all) = swept_tracks cfg p zoom coords run resume_index s w behind in
    let done = swept cfg p zoom coords run resume_index s w in
    let safe = TracksSweep-IsSafe p zoom coords resume_index handled done end in
    elim (Bool-cases (leb (length coords) resume_index)) [
      | inl passed ↦ rw passed (
          (
            record {
              reached = resume_index;
              from_first = omega arith;
              kept = λ i a b. absurd (omega arith);
              cursor = rw passed (cursor_set p (zoom + 1) 0 s);
            },
            λ h on. ground arith,
          ))
      | inr room ↦ rw room (
          (
            record {
              reached = done.progress.watermark;
              from_first = end.marks.from_first;
              kept = λ i a b.
                  final_cursor_keeps p p zoom (length coords) (coord_at coords i) done
                  ∙ safe.kept i a b;
              cursor = final_cursor_set p zoom (length coords) done;
            },
            λ h on.
                past_all resume_index (length coords) done.progress.watermark handled
                  end.marks.from_first end.marks.next (all h on),
          ))
    ]

-- However a zoom's sweep goes, whatever the provider and the backends answer, in whatever order its
-- tiles end, and wherever it is cut short, its cursor skips nothing: each tile from the index it
-- resumed at up to the stored cursor is in the bucket or in the queue of failed tiles; and where the
-- cursor is the next zoom's start, each tile of this zoom from the resume index on is.
pub run_indexed_sweep-Resumable :
    (cfg : ScraperConfig) (p : String) (zoom : ℕ) (coords : List Tile) (run : ZoomRun)
    (resume_index : ℕ) (s : Scraper) (w : ProviderSweepState)
    → ((i : ℕ)
        → get_cursor p s.store ≡ some (record { zoom = zoom; tile_index = i })
        → i ≤ resume_index)
    → Resumable p zoom resume_index
        (length coords)
        coords
        (run_indexed_sweep cfg p zoom coords run resume_index s w).scraper
run_indexed_sweep-Resumable cfg p zoom coords run resume_index s w behind =
    (resumes cfg p zoom coords run resume_index s w behind).0

-- Unless the sweep of a zoom is to stop, it handles the whole zoom: each tile from the index that it
-- resumed at is in the bucket or in the queue of failed tiles, and the cursor is the next zoom's start.
pub run_indexed_sweep-whole :
    (cfg : ScraperConfig) (p : String) (zoom : ℕ) (coords : List Tile) (run : ZoomRun)
    (resume_index : ℕ) (s : Scraper) (w : ProviderSweepState)
    → 0 < cfg.fanout_window
    → ((i : ℕ)
        → get_cursor p s.store ≡ some (record { zoom = zoom; tile_index = i })
        → i ≤ resume_index)
    → stops (run_indexed_sweep cfg p zoom coords run resume_index s w).sweep ≡ false
    → (let s' = (run_indexed_sweep cfg p zoom coords run resume_index s w).scraper in
        (get_cursor p s'.store ≡ some (record { zoom = zoom + 1; tile_index = 0 }))
        × ((i : ℕ)
            → resume_index ≤ i
            → i < length coords
            → is_kept p (coord_at coords i) s' ≡ true))
run_indexed_sweep-whole cfg p zoom coords run resume_index s w h behind on =
    let (r, enough) = resumes cfg p zoom coords run resume_index s w behind in
    let all = enough h on in
    (r.cursor ∙ rw (le→leb (length coords) r.reached all), λ i a b. r.kept i a (omega (arith, all)))
