-- ===== src/Scraper/Sweep/Loops.antt =====
-- The two loops of a sweep end by their own tests.
use data_service.Common.{
  ℕ, zero, suc, ◌+◌, ◌-◌, ◌≤◌, ◌<◌, ◌≡◌, refl, min, max, String, true, List, leb, ◌==◌, length,
  arith, Bool-cases, inl, inr, le→leb,
}
use native.Mathlib.Nat.{suc-add}
use data_service.StorageCircuit.{StorageCircuit, cooldown_remaining, allows_write}
use data_service.StorageCircuit.Backoff.{allows_write-cooldown_remaining}
use data_service.Scraper.{Tile, ScraperConfig}
use data_service.Scraper.Chunk.{Sweep, sweep_chunk}
use data_service.Scraper.Sweep.{ChunkRun, await_storage_cooldown, sweep_chunks, dispatched_at}

later_remaining :
    (c : StorageCircuit) (now d : ℕ) → cooldown_remaining c (now + d) ≡ cooldown_remaining c now - d
unfolding cooldown_remaining
later_remaining c now d = ground arith

await_ends :
    (early : ℕ → ℕ) (fuel : ℕ) (c : StorageCircuit) (now : ℕ)
    → cooldown_remaining c now < fuel
    → cooldown_remaining c (await_storage_cooldown early fuel c now) ≡ 0
unfolding await_storage_cooldown
await_ends early zero c now h = absurd (omega arith)
await_ends early (suc fuel) c now h = elim (Bool-cases (cooldown_remaining c now == 0)) [
  | inl over ↦ rw over (ground arith)
  | inr on ↦
      let d = max 1 (cooldown_remaining c now - early now) in
      let less : cooldown_remaining c (now + d) < fuel = ground (arith, later_remaining c now d) in
      rw on (await_ends early fuel c (now + d) less)
]

-- The wait for the storage ends, however early the timers of its sleeps fire, as long as each sleep
-- takes a tick: after no more rounds than there were ticks to wait the circuit admits a write.
pub await_storage_cooldown-admits :
    (early : ℕ → ℕ) (c : StorageCircuit) (now : ℕ)
    → allows_write c (await_storage_cooldown early (suc (cooldown_remaining c now)) c now) ≡ true
await_storage_cooldown-admits early c now =
    let end = await_storage_cooldown early (suc (cooldown_remaining c now)) c now in
    (allows_write-cooldown_remaining c end).1
      (await_ends early (suc (cooldown_remaining c now)) c now (omega arith))

none_left :
    (cfg : ScraperConfig) (p : String) (zoom : ℕ) (coords : List Tile) (chunks : ℕ → ChunkRun)
    (fuel k start : ℕ) (w : Sweep)
    → length coords ≤ start
    → sweep_chunks cfg p zoom coords chunks fuel k start w ≡ w
unfolding sweep_chunks
none_left cfg p zoom coords chunks zero k start w h = refl
none_left cfg p zoom coords chunks (suc fuel) k start w h = rw (le→leb (length coords) start h)

-- The loop over the chunks never stops for want of fuel: with a window of at least one tile, any fuel
-- from the number of remaining tiles on gives the same sweep.
pub sweep_chunks-fuel :
    (cfg : ScraperConfig) (p : String) (zoom : ℕ) (coords : List Tile) (chunks : ℕ → ChunkRun)
    (fuel more k start : ℕ) (w : Sweep)
    → 0 < cfg.fanout_window
    → length coords - start ≤ fuel
    → sweep_chunks cfg p zoom coords chunks (fuel + more) k start w
      ≡ sweep_chunks cfg p zoom coords chunks fuel k start w
unfolding sweep_chunks
sweep_chunks-fuel cfg p zoom coords chunks zero more k start w h enough =
    none_left cfg p zoom coords chunks (0 + more) k start w (omega arith)
sweep_chunks-fuel cfg p zoom coords chunks (suc fuel) more k start w h enough =
    elim (Bool-cases (leb (length coords) start)) [
      | inl done ↦ rw (suc-add, done)
      | inr on ↦
          let next =
            sweep_chunk cfg p zoom coords start (min (start + cfg.fanout_window) (length coords))
              (dispatched_at (chunks k) w.scraper.s3_circuit) (chunks k).tasks w in
          let fewer : length coords - (start + cfg.fanout_window) ≤ fuel = omega arith in
          rw (
            suc-add,
            sweep_chunks-fuel cfg p zoom coords chunks fuel more (k + 1) (start + cfg.fanout_window)
                next h fewer,
          )
    ]
