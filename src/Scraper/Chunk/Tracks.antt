-- ===== src/Scraper/Chunk/Tracks.antt =====
-- What holds of a chunk at every moment, and that each event keeps it.
use data_service.Common.{
  All, All-append, Bool, false, ◌||◌, ◌==◌, ◌++◌, contains-discard, All-mono, ℕ, ◌≤◌, ◌≡◌, ◌≢◌,
  String, true, Option, some, List, [], ◌∷◌, contains, arith, Bool-cases, ◌⊎◌, inl, inr,
}
use data_service.StateStore.{Cursor, FailedTile, has_row, get_cursor}
use data_service.StorageCircuit.{exhausted}
use mathlib.Core.Path.{subst₂, sym, ap, ap₂, ◌∙◌}
use data_service.Scraper.{
  TileOutcome, ok, storage_skipped, Tile, ScraperConfig, Scraper, stops, tile_key,
  update_sweep_state,
}
use data_service.Scraper.Tile.{TileIo, finish_tile}
use data_service.Scraper.Watermark.{complete, IsWatermark, complete-IsWatermark, le-complete}
use data_service.Scraper.Chunk.{
  Chunk, ChunkEvent, ended, taken, coord_at, end_task, take_first, chunk_step, run_chunk,
  count_outcome, advance_watermark, handle_completion,
}
use data_service.Scraper.Chunk.Outcomes.{
  is_kept, kept_mono, finish_tile-Finishes, count_outcome-keeps, advance_watermark-moves,
}

-- the outcomes that wait for the consumer say the truth of the bucket, and none is a skip
abbrev pub IsTruthful : String → List Tile → Scraper → (ℕ × TileOutcome) → Type 0
IsTruthful p coords s (i, outcome) =
    (outcome ≡ ok → has_row (tile_key p (coord_at coords i)) s.bucket ≡ true)
    × (outcome ≢ storage_skipped)

abbrev pub waits : ℕ → List (ℕ × TileOutcome) → Bool
waits i [] = false
waits i ((j, outcome) ∷ waiting) = i == j || waits i waiting

-- What holds of a chunk at every moment: the watermark and the set above it mean the indices that
-- were handled, each of these tiles is kept, and the stored cursor lies no further than the watermark.
-- Each index of `all` is in flight, waits or was handled.
pub record Tracks (p : String) (zoom : ℕ) (coords : List Tile) (first : ℕ) (all handled : List ℕ)
    (c : Chunk) : Type 0 where
  pub marks : IsWatermark first handled c.state.progress.watermark c.state.progress.done_above
  pub kept : All (λ i. is_kept p (coord_at coords i) c.state.scraper ≡ true) handled
  pub truthful : All (IsTruthful p coords c.state.scraper) c.waiting
  pub behind :
      (i : ℕ)
      → get_cursor p c.state.scraper.store ≡ some (record { zoom = zoom; tile_index = i })
      → i ≤ c.state.progress.watermark
  pub accounted :
      (i : ℕ)
      → contains i all ≡ true
      → (contains i c.in_flight || waits i c.waiting || contains i handled) ≡ true

waits-append :
    (i j : ℕ) (o : TileOutcome) (ws : List (ℕ × TileOutcome))
    → waits i (ws ++ (j, o) ∷ []) ≡ (waits i ws || i == j)
waits-append i j o [] = ground arith
waits-append i j o ((k, o') ∷ ws) = ground (arith, waits-append i j o ws)

retarget :
    {g g0 g1 : Option Cursor} {z m m' : ℕ}
    → (g ≡ g0) ⊎ (g ≡ some (record { zoom = z; tile_index = m }))
    → g0 ≡ g1
    → m ≡ m'
    → (g ≡ g1) ⊎ (g ≡ some (record { zoom = z; tile_index = m' }))
retarget {z} (inl same) a b = inl (same ∙ a)
retarget {z} (inr set) a b = inr (set ∙ ap (λ i. some (record { zoom = z; tile_index = i })) b)

cursor_bound :
    (g g0 : Option Cursor) (z m w i : ℕ)
    → (g ≡ g0) ⊎ (g ≡ some (record { zoom = z; tile_index = m }))
    → ((j : ℕ) → g0 ≡ some (record { zoom = z; tile_index = j }) → j ≤ w)
    → w ≤ m
    → g ≡ some (record { zoom = z; tile_index = i })
    → i ≤ m
cursor_bound g g0 z m w i (inl same) before up h = ground (arith, before i)
cursor_bound g g0 z m w i (inr set) before up h = ground arith

module _ (cfg : ScraperConfig) (p : String) (zoom : ℕ) (coords : List Tile) (first : ℕ)
    (all : List ℕ) where
  IsTruthful-mono :
      (s s' : Scraper)
      → ((r : FailedTile) → has_row r s.bucket ≡ true → has_row r s'.bucket ≡ true)
      → (w : ℕ × TileOutcome) → IsTruthful p coords s w
      → IsTruthful p coords s' w
  IsTruthful-mono s s' f (i, outcome) h = (λ e. f (tile_key p (coord_at coords i)) (h.0 e), h.1)

  end_task-Tracks :
      (idx : ℕ) (io : TileIo) (handled : List ℕ) (c : Chunk)
      → Tracks p zoom coords first all handled c
      → Tracks p zoom coords first all handled (end_task cfg p zoom coords true idx io c)
  unfolding end_task
  end_task-Tracks idx io handled c k = elim (Bool-cases (contains idx c.in_flight)) [
    | inr stray ↦ rw stray k
    | inl flying ↦
        let s = c.state.scraper in
        let t = coord_at coords idx in
        let s' = (finish_tile cfg true p t io s).0 in
        let (same, more, stored_ok, tried) = finish_tile-Finishes cfg p t io s in
        rw flying (record {
          marks = k.marks;
          kept =
              All-mono (λ i. is_kept p (coord_at coords i) s ≡ true)
                (λ i. is_kept p (coord_at coords i) s' ≡ true) handled
                (λ i h.
                  kept_mono p (coord_at coords i) s s' (more (tile_key p (coord_at coords i)))
                    (λ q. rw same q) h)
                k.kept;
          truthful =
              All-append (IsTruthful p coords s') c.waiting _
                (All-mono (IsTruthful p coords s) (IsTruthful p coords s') c.waiting
                  (IsTruthful-mono s s' more) k.truthful)
                ((stored_ok, tried), tt);
          behind = λ i h. k.behind i (rw same at h);
          accounted = λ i m. ground (
            arith,
            k.accounted i m,
            contains-discard i idx c.in_flight,
            waits-append i idx (finish_tile cfg true p t io s).1 c.waiting,
          );
        })
  ]

  handle_completion-Tracks :
      (idx now : ℕ) (outcome : TileOutcome) (rest : List (ℕ × TileOutcome)) (handled : List ℕ)
      (c : Chunk)
      → Tracks p zoom coords first all handled c
      → IsTruthful p coords c.state.scraper (idx, outcome)
      → All (IsTruthful p coords c.state.scraper) rest
      → ((i : ℕ)
          → contains i all ≡ true
          → (contains i c.in_flight || waits i ((idx, outcome) ∷ rest) || contains i handled)
            ≡ true)
      → Tracks p zoom coords first all (idx ∷ handled) (record c {
        state = handle_completion cfg p zoom idx (coord_at coords idx) outcome now c.state;
        waiting = rest;
      })
  unfolding handle_completion
  handle_completion-Tracks idx now outcome rest handled c k true_now true_later known =
      let t = coord_at coords idx in
      let s = c.state.scraper in
      let judged = record c.state {
        sweep = update_sweep_state cfg (exhausted s.s3_circuit) outcome t c.state.sweep;
      } in
      let counted = count_outcome p outcome t judged in
      let s' = (advance_watermark cfg p zoom idx now counted).scraper in
      let (here, queue, bucket, cursor, mark, above) =
        count_outcome-keeps p outcome t judged true_now.0 true_now.1 in
      let (bucket', queue', mark', above', cursor') =
        advance_watermark-moves cfg p zoom idx now counted in
      let moved = ap₂ (λ m a. complete idx m a) mark above in
      let unmoved : get_cursor p counted.scraper.store ≡ get_cursor p s.store =
        unfold get_cursor in ap (λ f. f p) cursor in
      let reached : (get_cursor p s'.store ≡ get_cursor p s.store)
          ⊎ (get_cursor p s'.store
              ≡ some (record {
                zoom = zoom;
                tile_index =
                    (complete idx c.state.progress.watermark c.state.progress.done_above).0;
              })) =
        retarget cursor' unmoved (ap (λ q. q.0) moved) in
      let in_bucket : (r : FailedTile) → has_row r s.bucket ≡ true → has_row r s'.bucket ≡ true =
        λ r h. rw (bucket', bucket) h in
      record {
        marks =
            subst₂ (IsWatermark first (idx ∷ handled)) (sym (mark' ∙ ap (λ q. q.0) moved))
              (sym (above' ∙ ap (λ q. q.1) moved))
              (complete-IsWatermark first idx c.state.progress.watermark handled
                c.state.progress.done_above k.marks);
        kept = (
          kept_mono p t counted.scraper s' (λ h. rw bucket' h) (λ h. rw queue' h) here,
          All-mono (λ i. is_kept p (coord_at coords i) s ≡ true)
              (λ i. is_kept p (coord_at coords i) s' ≡ true) handled
              (λ i h.
                kept_mono p (coord_at coords i) s s' (in_bucket (tile_key p (coord_at coords i)))
                  (λ q. rw queue' (queue (tile_key p (coord_at coords i)) q)) h)
              k.kept,
        );
        truthful =
            All-mono (IsTruthful p coords s) (IsTruthful p coords s') rest
              (IsTruthful-mono s s' in_bucket) true_later;
        behind = λ i h. rw (mark' ∙ ap (λ q. q.0) moved) (
            cursor_bound (get_cursor p s'.store) (get_cursor p s.store) zoom
              (complete idx c.state.progress.watermark c.state.progress.done_above).0
              c.state.progress.watermark i reached k.behind
              (le-complete idx c.state.progress.watermark c.state.progress.done_above) h);
        accounted = λ i m. ground (arith, known i m);
      }

  -- further tiles were handled, and none fewer
  abbrev pub Grows : List ℕ → Chunk → Type 0
  Grows handled c =
      (later : List ℕ) × Tracks p zoom coords first all later c
      × ((i : ℕ) → contains i handled ≡ true → contains i later ≡ true)

  take_first-Grows :
      (now : ℕ) (waiting : List (ℕ × TileOutcome)) (handled : List ℕ) (c : Chunk)
      → All (IsTruthful p coords c.state.scraper) waiting
      → ((i : ℕ)
          → contains i all ≡ true
          → (contains i c.in_flight || waits i waiting || contains i handled) ≡ true)
      → Tracks p zoom coords first all handled c
      → Grows handled (take_first cfg p zoom coords true now waiting c)
  unfolding take_first
  take_first-Grows now [] handled c t known k = (handled, k, λ i h. h)
  take_first-Grows now ((idx, outcome) ∷ rest) handled c t known k = (
    idx ∷ handled,
    handle_completion-Tracks idx now outcome rest handled c k t.0 t.1 known,
    λ i h. ground arith,
  )

  chunk_step-Grows :
      (e : ChunkEvent) (handled : List ℕ) (c : Chunk)
      → Tracks p zoom coords first all handled c
      → Grows handled (chunk_step cfg p zoom coords true e c)
  unfolding chunk_step
  chunk_step-Grows (ended idx io) handled c k =
      (handled, end_task-Tracks idx io handled c k, λ i h. h)
  chunk_step-Grows (taken now) handled c k =
      take_first-Grows now c.waiting handled c k.truthful k.accounted k

  pub run_chunk-Grows :
      (es : List ChunkEvent) (handled : List ℕ) (c : Chunk)
      → Tracks p zoom coords first all handled c
      → Grows handled (run_chunk cfg p zoom coords true es c)
  unfolding run_chunk
  run_chunk-Grows [] handled c k = (handled, k, λ i h. h)
  run_chunk-Grows (e ∷ es) handled c k = elim (Bool-cases (stops c.state.sweep)) [
    | inl stop ↦ rw stop (handled, k, λ i h. h)
    | inr on ↦
        let next = chunk_step cfg p zoom coords true e c in
        let (more, k', grown) = chunk_step-Grows e handled c k in
        let (later, k'', grown') = run_chunk-Grows es more next k' in
        rw on (later, k'', λ i h. grown' i (grown i h))
  ]
