-- ===== src/Radar/Navigation.antt =====
-- The radar index as its readers walk it: from the radars over the variables and the elevations to the
-- tilesets, while keys expire.
use data_service.Common.{
  ℕ, ◌+◌, ◌≤◌, ◌<◌, ◌≡◌, refl, true, false, List, [], ◌∷◌, leb, arith, Bool-cases, inl, inr,
}
use mathlib.Core.Path.{subst}
use data_service.Common.Text.{Text, eq_text_iff, has_text}
use data_service.Mirror.{Index, read_index, ids, trim_index, add_tileset}
use data_service.Mirror.{read_set}
use data_service.Radar.{RadarRedis, add_radar_index, trim_radar_index}
use data_service.Radar.Tables.{
  add_to_set-new, add_to_set-old, variables-old, elevations-old, at_text-both, tilesets-cases,
  from_score-has,
}

-- the index calls of the sync
pub data IndexCall : Type 0 where
  adding : Text → Text → Text → Text → ℕ → ℕ → IndexCall
  trimming : Text → Text → Text → ℕ → IndexCall

abbrev pub run_call : ℕ → IndexCall → RadarRedis → RadarRedis
run_call ttl (adding r v e id score at) redis = add_radar_index ttl r v e id score at redis
run_call ttl (trimming r v e min_score) redis = trim_radar_index r v e min_score redis

abbrev pub run_calls : ℕ → List IndexCall → RadarRedis → RadarRedis
run_calls ttl [] redis = redis
run_calls ttl (c ∷ cs) redis = run_calls ttl cs (run_call ttl c redis)

-- the time after the calls, from the time before them
abbrev pub end_time : ℕ → List IndexCall → ℕ
end_time now [] = now
end_time now (adding r v e id score at ∷ cs) = end_time at cs
end_time now (trimming r v e min_score ∷ cs) = end_time now cs

-- no call is earlier than the one before it
abbrev pub IsTimed : ℕ → List IndexCall → Type 0
IsTimed now [] = Unit
IsTimed now (adding r v e id score at ∷ cs) = (now ≤ at) × IsTimed at cs
IsTimed now (trimming r v e min_score ∷ cs) = IsTimed now cs

-- some tileset is listed at a time
abbrev pub Lists : ℕ → Index → Type 0
Lists t idx = (id : Text) × (has_text id (ids (read_index t idx)) ≡ true)

abbrev pub Shows : ℕ → RadarRedis → Text → Text → Text → Type 0
Shows t redis r v e =
    (has_text r (read_set t redis.radars) ≡ true)
    × (has_text v (read_set t (redis.variables r)) ≡ true)
    × (has_text e (read_set t (redis.elevations r v)) ≡ true)

-- From `now` on, whoever may read a tileset's index is shown the way to it.
abbrev pub IsNavigable : ℕ → ℕ → RadarRedis → Type 0
IsNavigable ttl now redis =
    ((t : ℕ) (r v e : Text) → now ≤ t → Lists t (redis.tilesets r v e) → Shows t redis r v e)
    × (redis.radars.expires ≤ now + ttl)
    × ((r : Text) → (redis.variables r).expires ≤ now + ttl)
    × ((r v : Text) → (redis.elevations r v).expires ≤ now + ttl)

Lists-live : (t : ℕ) (idx : Index) → Lists t idx → t < idx.expires
Lists-live t idx (id, listed) = elim (Bool-cases (leb idx.expires t)) [
  | inl gone ↦ let bad : false ≡ true = (rw gone at listed) in absurd cc
  | inr live ↦ ground arith
]

module _ (ttl : ℕ) (r v e id : Text) (score at : ℕ) (redis : RadarRedis) where
  abbrev added : RadarRedis
  added = add_radar_index ttl r v e id score at redis

  added-here : (added.tilesets r v e) ≡ add_tileset ttl id score at (redis.tilesets r v e)
  unfolding add_radar_index
  added-here =
      rw ((eq_text_iff r r).1 refl, (eq_text_iff v v).1 refl, (eq_text_iff e e).1 refl) refl

  added-Shows : (t : ℕ) → t < at + ttl → Shows t added r v e
  unfolding add_radar_index
  added-Shows t live =
      let rr = (eq_text_iff r r).1 refl in
      let vv = (eq_text_iff v v).1 refl in
      (
        add_to_set-new ttl t at r redis.radars live,
        rw rr (add_to_set-new ttl t at v (redis.variables r) live),
        rw (rr, vv) (add_to_set-new ttl t at e (redis.elevations r v) live),
      )

  added-IsNavigable : (now : ℕ) → now ≤ at → IsNavigable ttl now redis → IsNavigable ttl at added
  unfolding add_radar_index
  added-IsNavigable now later (shows, radars, variables, elevations) =
      let variables' : (k : Text) → (redis.variables k).expires ≤ at + ttl =
        λ k. omega (arith, variables k, later) in
      let elevations' : (k l : Text) → (redis.elevations k l).expires ≤ at + ttl =
        λ k l. omega (arith, elevations k l, later) in
      (
        λ t r' v' e' late listed.
            elim (tilesets-cases r v e r' v' e' (add_tileset ttl id score at (redis.tilesets r v e))
              redis.tilesets) [
                | inl kept ↦
                    let (in_r, in_v, in_e) =
                      shows t r' v' e' (omega (arith, later, late)) (subst (Lists t) kept listed) in
                    (
                      add_to_set-old ttl t at r' r redis.radars late (omega (arith, radars, later))
                          in_r,
                      variables-old ttl t at r r' v' v redis.variables late variables' in_v,
                      elevations-old ttl t at r r' v v' e' e redis.elevations late elevations' in_e,
                    )
                | inr (er, ev, ee) ↦
                    let here : Lists t (added.tilesets r v e) = (rw (← er, ← ev, ← ee) at listed) in
                    let live : t < at + ttl = Lists-live t _ (subst (Lists t) added-here here) in
                    rw (← er, ← ev, ← ee) (added-Shows t live)
              ],
        omega arith,
        λ k.
            at_text-both (λ s. s.expires ≤ at + ttl) r k _ redis.variables (omega arith)
              (variables' k),
        λ k l.
            at_text-both (λ f. (f l).expires ≤ at + ttl) r k _ redis.elevations
              (at_text-both (λ s. s.expires ≤ at + ttl) v l _ (redis.elevations r) (omega arith)
                (elevations' r l))
              (elevations' k l),
      )

Lists-trim : (t min_score : ℕ) (idx : Index) → Lists t (trim_index min_score idx) → Lists t idx
Lists-trim t min_score idx (id, listed) = elim (Bool-cases (leb idx.expires t)) [
  | inl gone ↦ let bad : false ≡ true = (rw gone at listed) in absurd cc
  | inr live ↦ (id, rw live (from_score-has min_score id idx.members (rw live at listed)))
]

trimmed-IsNavigable :
    (ttl now min_score : ℕ) (r v e : Text) (redis : RadarRedis)
    → IsNavigable ttl now redis
    → IsNavigable ttl now (trim_radar_index r v e min_score redis)
unfolding trim_radar_index
trimmed-IsNavigable ttl now min_score r v e redis (shows, b1, b2, b3) = (
  λ t r' v' e' late listed.
      shows t r' v' e' late
        (elim (tilesets-cases r v e r' v' e' (trim_index min_score (redis.tilesets r v e))
          redis.tilesets) [
            | inl kept ↦ subst (Lists t) kept listed
            | inr (er, ev, ee) ↦
                let here : Lists t ((trim_radar_index r v e min_score redis).tilesets r v e) =
                  (rw (← er, ← ev, ← ee) at listed) in
                rw (← er, ← ev, ← ee)
                  (Lists-trim t min_score (redis.tilesets r v e) (
                    rw
                      ((eq_text_iff r r).1 refl, (eq_text_iff v v).1 refl, (eq_text_iff e e).1 refl)
                      at here))
          ]),
  b1,
  b2,
  b3,
)

-- Whatever tilesets are added and trimmed, at times that do not go back, and whatever keys expire
-- meanwhile: from then on, wherever a tileset is listed, its radar, its variable and its elevation are.
pub run_calls-IsNavigable :
    (ttl now : ℕ) (calls : List IndexCall) (redis : RadarRedis)
    → IsTimed now calls
    → IsNavigable ttl now redis
    → IsNavigable ttl (end_time now calls) (run_calls ttl calls redis)
run_calls-IsNavigable ttl now [] redis timed ok = ok
run_calls-IsNavigable ttl now (adding r v e id score at ∷ calls) redis timed ok =
    run_calls-IsNavigable ttl at calls _ timed.1
      (added-IsNavigable ttl r v e id score at redis now timed.0 ok)
run_calls-IsNavigable ttl now (trimming r v e min_score ∷ calls) redis timed ok =
    run_calls-IsNavigable ttl now calls _ timed
      (trimmed-IsNavigable ttl now min_score r v e redis ok)
