-- ===== src/Wrf/Overlays.antt =====
-- What becomes of an overlay whose copy fails.
use data_service.Common.{
  ℕ, ◌+◌, ◌≤◌, ◌<◌, ◌≡◌, refl, sym, ap, ◌∙◌, true, false, Option, none, some, List, [], ◌∷◌,
  not-lt→ltb, arith, All, Bool-cases, inl, inr,
}
use data_service.Common.Text.{Text, eq_text, eq_text_iff, has_text}
use data_service.Mirror.{KeySet, Stored, read_set, add_to_set}
use data_service.Radar.Tables.{add_to_set-new, add_to_set-old}
use data_service.Wrf.{
  WrfStep, LayerIo, OverlaysIo, is_wrf_overlays_complete, add_layers, store_layer, copy_layers,
  missing_layers, mirror_missing, mirror_listed, sync_wrf_overlays,
}

add_layers-keeps :
    (ttl t at : ℕ) (m : Text) (ls : List Text) (s : KeySet)
    → at ≤ t
    → s.expires ≤ at + ttl
    → has_text m (read_set t s) ≡ true
    → has_text m (read_set t (add_layers ttl ls at s)) ≡ true
add_layers-keeps ttl t at m [] s late bound there = there
add_layers-keeps ttl t at m (l ∷ ls) s late bound there =
    add_layers-keeps ttl t at m ls (add_to_set ttl l at s) late (omega arith)
      (add_to_set-old ttl t at m l s late bound there)

-- all that was added is there
add_layers-all :
    (ttl t at : ℕ) (ls : List Text) (s : KeySet)
    → at ≤ t
    → t < at + ttl
    → s.expires ≤ at + ttl
    → All (λ l. has_text l (read_set t (add_layers ttl ls at s)) ≡ true) ls
add_layers-all ttl t at [] s late live bound = tt
add_layers-all ttl t at (l ∷ ls) s late live bound =
    let one = add_to_set ttl l at s in
    (
      add_layers-keeps ttl t at l ls one late (omega arith) (add_to_set-new ttl t at l s live),
      add_layers-all ttl t at ls one late live (omega arith),
    )

none_missing :
    (have ls : List Text) → All (λ l. has_text l have ≡ true) ls → missing_layers have ls ≡ []
none_missing have [] all = refl
none_missing have (l ∷ ls) all = rw all.0 (none_missing have ls all.1)

store_layer-other :
    (ttl : ℕ) (l : Text) (io : LayerIo) (c : Option Text) (o : Text → Option Stored) (k : Text)
    → eq_text l k ≡ false
    → store_layer ttl l io c o k ≡ o k
store_layer-other ttl l io none o k other = refl
store_layer-other ttl l io (some c) o k other = elim (Bool-cases io.redis_ok) [
  | inl ok ↦ rw (ok, other) refl
  | inr raised ↦ rw raised refl
]

copy_layers-failed :
    (ttl : ℕ) (io : Text → LayerIo) (ls : List Text) (o : Text → Option Stored) (k : Text)
    → (io k).content ≡ none
    → copy_layers ttl io ls o k ≡ o k
unfolding copy_layers
copy_layers-failed ttl io [] o k failed = refl
copy_layers-failed ttl io (l ∷ ls) o k failed =
    copy_layers-failed ttl io ls (store_layer ttl l (io l) (io l).content o) k failed
    ∙ elim (Bool-cases (eq_text l k)) [
      | inl same ↦
          let e : (io l).content ≡ none =
            ap (λ x. (io x).content) ((eq_text_iff l k).0 same) ∙ failed in
          ap (λ c. store_layer ttl l (io l) c o k) e
      | inr other ↦ store_layer-other ttl l (io l) (io l).content o k other
    ]

All-has :
    (k : Text) (have ls : List Text)
    → All (λ l. has_text l have ≡ true) ls
    → has_text k ls ≡ true
    → has_text k have ≡ true
All-has k have [] all there = absurd cc
All-has k have (l ∷ ls) all there = elim (Bool-cases (eq_text l k)) [
  | inl same ↦ ap (λ x. has_text x have) (sym ((eq_text_iff l k).0 same)) ∙ all.0
  | inr other ↦ All-has k have ls all.1 (rw other at there)
]

module _ (geojson_ttl recheck_ttl : ℕ) (s : WrfStep) (l : Text) (ls : List Text) where
  -- the step after a cycle that found some layer missing
  abbrev after_copies : OverlaysIo → Text → List Text → WrfStep
  after_copies io m ms = record s {
    layers = add_layers geojson_ttl (l ∷ ls) io.added_at s.layers;
    overlays = copy_layers geojson_ttl io.layer (m ∷ ms) s.overlays;
  }

  sync-copies :
      (io : OverlaysIo) (m : Text) (ms : List Text)
      → is_wrf_overlays_complete io.checked_at s ≡ false
      → io.s3_layers ≡ some (l ∷ ls)
      → missing_layers (read_set io.read_at s.layers) (l ∷ ls) ≡ m ∷ ms
      → sync_wrf_overlays geojson_ttl recheck_ttl io s ≡ after_copies io m ms
  unfolding sync_wrf_overlays
  sync-copies io m ms open_ listing missing =
      let step : mirror_listed geojson_ttl recheck_ttl io io.s3_layers s ≡ after_copies io m ms =
        ap (λ x. mirror_listed geojson_ttl recheck_ttl io x s) listing
        ∙ ap (λ x. mirror_missing geojson_ttl io (l ∷ ls) x s) missing in
      rw open_ step

sync-marks :
    (geojson_ttl recheck_ttl : ℕ) (s : WrfStep) (l : Text) (ls : List Text) (io : OverlaysIo)
    → is_wrf_overlays_complete io.checked_at s ≡ false
    → io.s3_layers ≡ some (l ∷ ls)
    → missing_layers (read_set io.read_at s.layers) (l ∷ ls) ≡ []
    → sync_wrf_overlays geojson_ttl recheck_ttl io s
      ≡ (record s { done_until = io.marked_at + geojson_ttl })
unfolding sync_wrf_overlays
sync-marks geojson_ttl recheck_ttl s l ls io open_ listing missing =
    let step : mirror_listed geojson_ttl recheck_ttl io io.s3_layers s
        ≡ (record s { done_until = io.marked_at + geojson_ttl }) =
      ap (λ x. mirror_listed geojson_ttl recheck_ttl io x s) listing
      ∙ ap (λ x. mirror_missing geojson_ttl io (l ∷ ls) x s) missing in
    rw open_ step

-- A cycle that finds some layer missing registers all layers that S3 lists, also one whose copy fails; if
-- the next cycle comes within a lifetime and S3 lists the same, it copies nothing and marks the step as
-- complete for a lifetime: the index lists the layer, and its overlay is what it was.
pub overlay_lost :
    (geojson_ttl recheck_ttl : ℕ) (s : WrfStep) (l m k : Text) (ls ms : List Text)
    (io io' : OverlaysIo)
    → s.done_until ≤ io.checked_at
    → s.done_until ≤ io'.checked_at
    → io.s3_layers ≡ some (l ∷ ls)
    → io'.s3_layers ≡ some (l ∷ ls)
    → missing_layers (read_set io.read_at s.layers) (l ∷ ls) ≡ m ∷ ms
    → has_text k (l ∷ ls) ≡ true
    → (io.layer k).content ≡ none
    → s.layers.expires ≤ io.added_at + geojson_ttl
    → io.added_at ≤ io'.read_at
    → io'.read_at < io.added_at + geojson_ttl
    → ((sync_wrf_overlays geojson_ttl recheck_ttl io'
            (sync_wrf_overlays geojson_ttl recheck_ttl io s)).overlays
          k
        ≡ s.overlays k)
      × ((sync_wrf_overlays geojson_ttl recheck_ttl io'
            (sync_wrf_overlays geojson_ttl recheck_ttl io s)).done_until
          ≡ io'.marked_at + geojson_ttl)
      × (has_text k (
            read_set io'.read_at
              (sync_wrf_overlays geojson_ttl recheck_ttl io'
                (sync_wrf_overlays geojson_ttl recheck_ttl io s)).layers)
          ≡ true)
overlay_lost geojson_ttl recheck_ttl s l m k ls ms io io' open1 open2 listing listing' missing there
      failed bound late live =
    let s1 = after_copies geojson_ttl recheck_ttl s l ls io m ms in
    let s2 : WrfStep = record s1 { done_until = io'.marked_at + geojson_ttl } in
    let all =
      add_layers-all geojson_ttl io'.read_at io.added_at (l ∷ ls) s.layers late live bound in
    let e1 : sync_wrf_overlays geojson_ttl recheck_ttl io s ≡ s1 =
      sync-copies geojson_ttl recheck_ttl s l ls io m ms
        (not-lt→ltb io.checked_at s.done_until open1) listing missing in
    let e2 : sync_wrf_overlays geojson_ttl recheck_ttl io' s1 ≡ s2 =
      sync-marks geojson_ttl recheck_ttl s1 l ls io' (not-lt→ltb io'.checked_at s.done_until open2)
        listing' (none_missing (read_set io'.read_at s1.layers) (l ∷ ls) all) in
    let e = ap (λ x. sync_wrf_overlays geojson_ttl recheck_ttl io' x) e1 ∙ e2 in
    (
      ap (λ (x : WrfStep). x.overlays k) e
          ∙ copy_layers-failed geojson_ttl io.layer (m ∷ ms) s.overlays k failed,
      ap (λ (x : WrfStep). x.done_until) e,
      ap (λ (x : WrfStep). has_text k (read_set io'.read_at x.layers)) e
          ∙ All-has k (read_set io'.read_at s1.layers) (l ∷ ls) all there,
    )
