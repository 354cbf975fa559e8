-- ===== src/Scraper/Health.antt =====
-- The provider's breaker within a sweep: `_update_sweep_state` over a list of outcomes against plain
-- counts.
pub mod Trips
use data_service.Common.{
  All, ℕ, zero, suc, ◌+◌, ◌-◌, ◌*◌, ◌≤◌, ◌<◌, ◌≡◌, refl, min, Bool, true, false, not, ◌&&◌, ◌||◌,
  Option, none, some, List, [], ◌∷◌, ◌++◌, ltb, leb, if◌then◌else◌, length, get_elem?, count_true,
  last_n, last_n-append_one, arith, Bool-cases, inl, inr, ap, sym, ◌∙◌, if_both, drop,
  length-append, count_true-append,
}
use mathlib.Core.Path.{subst}
use mathlib.Core.List.{append_assoc, append-nil}
use data_service.StorageCircuit.{exceeds}
use data_service.Scraper.{
  TileOutcome, ok, missing, unavailable, storage_error, storage_skipped, Tile, ScraperConfig,
  ProviderSweepState, new_sweep_state, update_sweep_state, note_storage, note_fetch, judge,
  push_window, compute_cooldown,
}

-- one outcome, with what the S3 circuit says when it is handled
pub record Seen : Type 0 where
  pub exhausted : Bool
  pub outcome : TileOutcome
  pub tile : Tile

unfoldable pub run : ScraperConfig → List Seen → ProviderSweepState → ProviderSweepState
run cfg [] w = w
run cfg (s ∷ seen) w = run cfg seen (update_sweep_state cfg s.exhausted s.outcome s.tile w)

-- the outcomes that are definitive fetches: `true` is a failure
abbrev pub fetch : TileOutcome → List Bool
fetch ok = false ∷ []
fetch unavailable = true ∷ []
fetch missing = []
fetch storage_error = []
fetch storage_skipped = []

abbrev pub fetches : List Seen → List Bool
fetches [] = []
fetches (s ∷ seen) = fetch s.outcome ++ fetches seen

abbrev pub is_storage : TileOutcome → Bool
is_storage ok = false
is_storage unavailable = false
is_storage missing = false
is_storage storage_error = true
is_storage storage_skipped = true

abbrev pub storage_count : List Seen → ℕ
storage_count [] = 0
storage_count (s ∷ seen) = (if is_storage s.outcome then 1 else 0) + storage_count seen

-- what the trip test never changes
abbrev pub SameCounts : ProviderSweepState → ProviderSweepState → Type 0
SameCounts w w' =
    (w'.attempted ≡ w.attempted)
    × (w'.failed ≡ w.failed)
    × (w'.storage_errors ≡ w.storage_errors)
    × (w'.recent ≡ w.recent)

pub judge_keeps : (cfg : ScraperConfig) (w : ProviderSweepState) → SameCounts w (judge cfg w)
unfolding judge
judge_keeps cfg w =
    if_both (SameCounts w)
      (not w.tripped
        && leb cfg.error_rate_min_samples (length w.recent)
        && exceeds cfg.error_rate_threshold (count_true w.recent) (length w.recent))
      _ w (refl, refl, refl, refl) (refl, refl, refl, refl)

-- the counts of a sweep are those of what it has seen
pub record Tells (cfg : ScraperConfig) (seen : List Seen) (w : ProviderSweepState) : Type 0 where
  pub attempted : w.attempted ≡ length (fetches seen)
  pub failed : w.failed ≡ count_true (fetches seen)
  pub storage_errors : w.storage_errors ≡ storage_count seen
  pub recent : w.recent ≡ last_n cfg.error_rate_window (fetches seen)

pub fetches-append : (xs ys : List Seen) → fetches (xs ++ ys) ≡ fetches xs ++ fetches ys
fetches-append [] ys = refl
fetches-append (x ∷ xs) ys = rw (fetches-append xs ys, append_assoc)

storage_count-append :
    (xs ys : List Seen) → storage_count (xs ++ ys) ≡ storage_count xs + storage_count ys
storage_count-append [] ys = omega arith
storage_count-append (x ∷ xs) ys = omega (arith, storage_count-append xs ys)

-- one more definitive fetch, before the trip test
abbrev pub fetched : ScraperConfig → Bool → Seen → ProviderSweepState → ProviderSweepState
fetched cfg b s w = record w {
  attempted = w.attempted + 1;
  failed = if b then w.failed + 1 else w.failed;
  failure_samples =
      if b && ltb (length w.failure_samples) 3
      then w.failure_samples ++ s.tile ∷ []
      else w.failure_samples;
  recent = push_window cfg.error_rate_window b w.recent;
}

count_true-one : (b : Bool) (n : ℕ) → (if b then n + 1 else n) ≡ n + count_true (b ∷ [])
count_true-one b n = ground arith

Tells-fetch :
    (cfg : ScraperConfig) (b : Bool) (s : Seen) (seen : List Seen) (w : ProviderSweepState)
    → fetch s.outcome ≡ b ∷ []
    → is_storage s.outcome ≡ false
    → Tells cfg seen w
    → Tells cfg (seen ++ s ∷ []) (note_fetch cfg b s.tile w)
unfolding note_fetch
Tells-fetch cfg b s seen w e h t =
    let fs : fetches (seen ++ s ∷ []) ≡ fetches seen ++ b ∷ [] =
      fetches-append seen (s ∷ []) ∙ ap (λ l. fetches seen ++ (l ++ [])) e in
    let ss : storage_count (seen ++ s ∷ []) ≡ storage_count seen =
      ground (arith, storage_count-append seen (s ∷ [])) in
    let (k1, k2, k3, k4) = judge_keeps cfg (fetched cfg b s w) in
    record {
      attempted = k1 ∙ rw (fs, length-append (fetches seen) (b ∷ []), t.attempted) (omega arith);
      failed =
          k2
          ∙ rw (fs, count_true-append (fetches seen) (b ∷ []), t.failed)
              (count_true-one b (count_true (fetches seen)));
      storage_errors = k3 ∙ rw ss t.storage_errors;
      recent =
          k4
          ∙ ap (push_window cfg.error_rate_window b) t.recent
          ∙ last_n-append_one cfg.error_rate_window (fetches seen) b
          ∙ ap (last_n cfg.error_rate_window) (sym fs);
    }

Tells-other :
    (cfg : ScraperConfig) (s : Seen) (seen : List Seen) (w w' : ProviderSweepState)
    → fetch s.outcome ≡ []
    → w'.attempted ≡ w.attempted
    → w'.failed ≡ w.failed
    → w'.recent ≡ w.recent
    → w'.storage_errors ≡ w.storage_errors + (if is_storage s.outcome then 1 else 0)
    → Tells cfg seen w
    → Tells cfg (seen ++ s ∷ []) w'
Tells-other cfg s seen w w' e a f r g t =
    let fs : fetches (seen ++ s ∷ []) ≡ fetches seen =
      fetches-append seen (s ∷ [])
      ∙ ap (λ l. fetches seen ++ (l ++ [])) e
      ∙ append-nil (fetches seen) in
    record {
      attempted = a ∙ t.attempted ∙ ap length (sym fs);
      failed = f ∙ t.failed ∙ ap count_true (sym fs);
      recent = r ∙ t.recent ∙ ap (last_n cfg.error_rate_window) (sym fs);
      storage_errors = g ∙ omega (arith, t.storage_errors, storage_count-append seen (s ∷ []));
    }

pub Tells-update :
    (cfg : ScraperConfig) (x : Bool) (o : TileOutcome) (tile : Tile) (seen : List Seen)
    (w : ProviderSweepState)
    → Tells cfg seen w
    → Tells cfg
        (seen ++ record { exhausted = x; outcome = o; tile = tile } ∷ [])
        (update_sweep_state cfg x o tile w)
unfolding update_sweep_state note_storage
Tells-update cfg x ok tile seen w t =
    Tells-fetch cfg false (record { exhausted = x; outcome = ok; tile = tile }) seen w refl refl t
Tells-update cfg x unavailable tile seen w t =
    Tells-fetch cfg true (record { exhausted = x; outcome = unavailable; tile = tile }) seen w refl
      refl t
Tells-update cfg x missing tile seen w t =
    Tells-other cfg (record { exhausted = x; outcome = missing; tile = tile }) seen w w refl refl
      refl refl (omega arith) t
Tells-update cfg x storage_error tile seen w t =
    Tells-other cfg (record { exhausted = x; outcome = storage_error; tile = tile }) seen w _ refl
      refl refl refl refl t
Tells-update cfg x storage_skipped tile seen w t =
    Tells-other cfg (record { exhausted = x; outcome = storage_skipped; tile = tile }) seen w _ refl
      refl refl refl refl t

run_from :
    (cfg : ScraperConfig) (more seen : List Seen) (w : ProviderSweepState)
    → Tells cfg seen w
    → Tells cfg (seen ++ more) (run cfg more w)
unfolding run
run_from cfg [] seen w t = rw (append-nil) t
run_from cfg (s ∷ more) seen w t =
    let next = update_sweep_state cfg s.exhausted s.outcome s.tile w in
    subst (λ l. Tells cfg l (run cfg more next)) (append_assoc seen (s ∷ []) more)
      (run_from cfg more (seen ++ s ∷ []) next
        (Tells-update cfg s.exhausted s.outcome s.tile seen w t))

pub drop-nil {ℓ} : {A : Type ℓ} (n : ℕ) → drop {A = A} n [] ≡ []
drop-nil zero = refl
drop-nil (suc n) = refl

-- Whatever outcomes a sweep sees, in whatever order, its counts are those of the outcomes: `attempted`
-- the definitive fetches (a tile, or the provider's refusal), `failed` the refusals, `storage_errors`
-- the tiles that the storage failed or had skipped, and the deque the last `error_rate_window` of the
-- definitive fetches. A missing tile counts in none of them.
pub run-Tells :
    (cfg : ScraperConfig) (seen : List Seen) → Tells cfg seen (run cfg seen new_sweep_state)
run-Tells cfg seen = run_from cfg seen [] new_sweep_state (record {
  attempted = refl;
  failed = refl;
  storage_errors = refl;
  recent = sym (drop-nil (0 - cfg.error_rate_window));
})
