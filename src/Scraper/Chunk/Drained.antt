-- ===== src/Scraper/Chunk/Drained.antt =====
-- A chunk drains: unless the sweep is to stop, no task is left when `_sweep_chunk` returns.
use data_service.Common.{
  ℕ, ◌+◌, ◌-◌, ◌≤◌, ◌≡◌, refl, ◌∙◌, ap, sym, String, Bool, true, false, List, [], ◌∷◌, ◌++◌, length,
  length-append, contains, contains-discard, length-discard-lt, arith, Bool-cases, inl, inr,
}
use data_service.Scraper.{TileOutcome, Tile, ScraperConfig, stops}
use data_service.Scraper.Tile.{TileIo}
use data_service.Scraper.Chunk.{
  Sweep, Chunk, ChunkEvent, ended, taken, end_task, take_first, chunk_step, run_chunk, Interleaving,
  endings, takings, all_events, dispatched,
}

-- only indices of `is` are in flight, and there is room for all tasks that wait
record Fits (is : List ℕ) (c : Chunk) : Type 0 where
  aboard : (i : ℕ) → contains i c.in_flight ≡ true → contains i is ≡ true
  room : length c.in_flight + length c.waiting ≤ length is

length-zero : {A : Type 0} (xs : List A) → length xs ≤ 0 → xs ≡ []
length-zero [] h = refl
length-zero (x ∷ xs) h = absurd (omega arith)

module _ (cfg : ScraperConfig) (p : String) (zoom : ℕ) (coords : List Tile) (admitted : Bool) where
  abbrev step : ChunkEvent → Chunk → Chunk
  step = chunk_step cfg p zoom coords admitted

  abbrev run : List ChunkEvent → Chunk → Chunk
  run = run_chunk cfg p zoom coords admitted

  stopped_stays : (es : List ChunkEvent) (c : Chunk) → stops c.state.sweep ≡ true → run es c ≡ c
  unfolding run_chunk
  stopped_stays [] c h = refl
  stopped_stays (e ∷ es) c h = rw h refl

  run-append : (es es' : List ChunkEvent) (c : Chunk) → run (es ++ es') c ≡ run es' (run es c)
  unfolding run_chunk
  run-append [] es' c = refl
  run-append (e ∷ es) es' c = elim (Bool-cases (stops c.state.sweep)) [
    | inl stop ↦ rw stop (sym (stopped_stays es' c stop))
    | inr on ↦ rw on (run-append es es' (step e c))
  ]

  not_stopped :
      (es : List ChunkEvent) (c : Chunk)
      → stops (run es c).state.sweep ≡ false
      → stops c.state.sweep ≡ false
  not_stopped es c h = elim (Bool-cases (stops c.state.sweep)) [
    | inl stop ↦ sym (ap (λ d. stops d.state.sweep) (stopped_stays es c stop)) ∙ h
    | inr on ↦ on
  ]

  end_task-Fits :
      (is : List ℕ) (idx : ℕ) (io : TileIo) (c : Chunk)
      → Fits is c
      → Fits is (end_task cfg p zoom coords admitted idx io c)
  unfolding end_task
  end_task-Fits is idx io c f = elim (Bool-cases (contains idx c.in_flight)) [
    | inl flying ↦ rw flying (record {
      aboard = λ i h. ground (arith, f.aboard i, contains-discard i idx c.in_flight);
      room =
          omega
            (arith, f.room, length-discard-lt idx c.in_flight flying, length-append c.waiting _);
    })
    | inr stray ↦ rw stray f
  ]

  take_first-shrinks :
      (now : ℕ) (ws : List (ℕ × TileOutcome)) (c : Chunk)
      → c.waiting ≡ ws
      → (length (take_first cfg p zoom coords admitted now ws c).waiting ≤ length c.waiting - 1)
        × ((take_first cfg p zoom coords admitted now ws c).in_flight ≡ c.in_flight)
  unfolding take_first
  take_first-shrinks now [] c e = (rw e (omega arith), refl)
  take_first-shrinks now ((idx, outcome) ∷ rest) c e = (rw e (omega arith), refl)

  step-Fits : (is : List ℕ) (e : ChunkEvent) (c : Chunk) → Fits is c → Fits is (step e c)
  unfolding chunk_step
  step-Fits is (ended idx io) c f = end_task-Fits is idx io c f
  step-Fits is (taken now) c f =
      let (fewer, same) = take_first-shrinks now c.waiting c refl in
      record {
        aboard = λ i h. f.aboard i (rw same at h);
        room = omega (arith, fewer, ap length same, f.room);
      }

  run-Fits : (es : List ChunkEvent) (is : List ℕ) (c : Chunk) → Fits is c → Fits is (run es c)
  unfolding run_chunk
  run-Fits [] is c f = f
  run-Fits (e ∷ es) is c f = elim (Bool-cases (stops c.state.sweep)) [
    | inl stop ↦ rw stop f
    | inr on ↦ rw on (run-Fits es is (step e c) (step-Fits is e c f))
  ]

  end_task-lands :
      (idx : ℕ) (io : TileIo) (is : List ℕ) (c : Chunk)
      → ((i : ℕ) → contains i c.in_flight ≡ true → contains i (idx ∷ is) ≡ true)
      → (i : ℕ) → contains i (end_task cfg p zoom coords admitted idx io c).in_flight ≡ true
      → contains i is ≡ true
  unfolding end_task
  end_task-lands idx io is c f i h = elim (Bool-cases (contains idx c.in_flight)) [
    | inl flying ↦ ground (arith, f i, contains-discard i idx c.in_flight)
    | inr stray ↦ ground (arith, f i)
  ]

  run_on :
      (e : ChunkEvent) (es : List ChunkEvent) (c : Chunk)
      → stops (run (e ∷ es) c).state.sweep ≡ false
      → run (e ∷ es) c ≡ run es (step e c)
  unfolding run_chunk
  run_on e es c on = rw (not_stopped (e ∷ es) c on) refl

  -- once each task of the chunk has had its end, none is in flight
  endings_land :
      (rest : ℕ → TileIo) (is : List ℕ) (c : Chunk)
      → ((i : ℕ) → contains i c.in_flight ≡ true → contains i is ≡ true)
      → stops (run (endings rest is) c).state.sweep ≡ false
      → (i : ℕ) → contains i (run (endings rest is) c).in_flight ≡ false
  unfolding chunk_step run_chunk
  endings_land rest [] c f on i = ground (arith, f i)
  endings_land rest (j ∷ is) c f on i =
      let going = run_on (ended j (rest j)) (endings rest is) c on in
      let next = end_task cfg p zoom coords admitted j (rest j) c in
      ap (λ d. contains i d.in_flight) going
      ∙ endings_land rest is next (end_task-lands j (rest j) is c f)
          (sym (ap (λ d. stops d.state.sweep) going) ∙ on) i

  -- once the consumer has had as many turns as tasks wait, none waits
  takings_drain :
      (now : ℕ) (is : List ℕ) (c : Chunk)
      → length c.waiting ≤ length is
      → stops (run (takings now is) c).state.sweep ≡ false
      → ((run (takings now is) c).waiting ≡ []) × ((run (takings now is) c).in_flight ≡ c.in_flight)
  unfolding chunk_step run_chunk
  takings_drain now [] c h on = (length-zero c.waiting h, refl)
  takings_drain now (j ∷ is) c h on =
      let going = run_on (taken now) (takings now is) c on in
      let (fewer, same) = take_first-shrinks now c.waiting c refl in
      let (empty, kept) =
        takings_drain now is (take_first cfg p zoom coords admitted now c.waiting c)
          (omega (arith, fewer)) (sym (ap (λ d. stops d.state.sweep) going) ∙ on) in
      (ap (λ d. d.waiting) going ∙ empty, ap (λ d. d.in_flight) going ∙ kept ∙ same)

  -- After all events of a chunk nothing is in flight and nothing waits, unless the sweep is to stop.
  pub all_events-drain :
      (tasks : Interleaving) (is : List ℕ) (w : Sweep)
      → stops (run (all_events tasks is) (dispatched is w)).state.sweep ≡ false
      → (i : ℕ)
      → (contains i (run (all_events tasks is) (dispatched is w)).in_flight ≡ false)
        × ((run (all_events tasks is) (dispatched is w)).waiting ≡ [])
  all_events-drain tasks is w on i =
      let c1 = run tasks.events (dispatched is w) in
      let c2 = run (endings tasks.rest is) c1 in
      let c3 = run (takings tasks.ends_at is) c2 in
      let whole : run (all_events tasks is) (dispatched is w) ≡ c3 =
        run-append tasks.events (endings tasks.rest is ++ takings tasks.ends_at is)
          (dispatched is w)
        ∙ run-append (endings tasks.rest is) (takings tasks.ends_at is) c1 in
      let on3 = sym (ap (λ d. stops d.state.sweep) whole) ∙ on in
      let on2 = not_stopped (takings tasks.ends_at is) c2 on3 in
      let begun : Fits is (dispatched is w) = record { aboard = λ i h. h; room = omega arith } in
      let f1 = run-Fits tasks.events is (dispatched is w) begun in
      let f2 = run-Fits (endings tasks.rest is) is c1 f1 in
      let (empty, same) = takings_drain tasks.ends_at is c2 (omega (arith, f2.room)) on3 in
      (
        ap (λ d. contains i d.in_flight) whole
            ∙ ap (contains i) same
            ∙ endings_land tasks.rest is c1 f1.aboard on2 i,
        ap (λ d. d.waiting) whole ∙ empty,
      )
