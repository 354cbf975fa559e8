-- ===== src/Gfs/Sync.antt =====
-- src/services/gfs_sync_service.py, with the index and the overlays of src/clients/redis_client.py. The
-- key of a product's index, its steps and its overlays are taken to be different.

pub mod Cycles
pub mod Listing
use data_service.Common.{
  ℕ, zero, suc, ◌+◌, ◌-◌, ◌*◌, Bool, true, false, not, ◌&&◌, ◌==◌, Option, none, some, List, [],
  ◌∷◌, ◌++◌, length, take, drop, ltb, leb, if◌then◌else◌,
}
use data_service.Common.Sort.{sort}
use data_service.Common.Text.{Text, codes, eq_text, is_before, has_text, leaf_segment}
use data_service.Mirror.{Index, KeySet, Stored, read_index, add_tileset, add_to_set, at_text}
use data_service.Gfs.{
  GfsProduct, gfs_cog_cycle_prefix, build_gfs_geojson_key, step_from_basename, basenames,
}

-- the part of Redis that a product has
pub record GfsRedis : Type 0 where
  pub cycles : Index
  pub steps : Text → Index
  pub layers : Text → Text → KeySet
  pub overlays : Text → Text → Text → Option Stored

abbrev pub is_digit : ℕ → Bool
is_digit c = leb 48 c && ltb c 58

abbrev pub number_from : ℕ → Text → ℕ
number_from n [] = n
number_from n (c ∷ cs) = number_from (if is_digit c then n * 10 + (c - 48) else n) cs

-- `_cycle_score`
abbrev pub cycle_score : Text → ℕ
cycle_score cycle = number_from 0 cycle

abbrev pub all_digits : Text → Bool
all_digits [] = true
all_digits (c ∷ cs) = is_digit c && all_digits cs

abbrev pub drop_f : Text → Text
drop_f [] = []
drop_f (c ∷ cs) = if c == b'f' then cs else c ∷ cs

-- `_step_score`
abbrev pub step_score : Text → ℕ
step_score fxxx = if all_digits (drop_f fxxx) then number_from 0 (drop_f fxxx) else 0

-- `add_gfs_index`, at a time
unfoldable pub add_gfs_index : ℕ → Text → Text → ℕ → GfsRedis → GfsRedis
add_gfs_index ttl cycle fxxx at r = record r {
  cycles = add_tileset ttl cycle (cycle_score cycle) at r.cycles;
  steps = at_text cycle (add_tileset ttl fxxx (step_score fxxx) at (r.steps cycle)) r.steps;
}

-- `get_gfs_geojson`, at a time
abbrev pub get_gfs_geojson : ℕ → Option Stored → Option Text
get_gfs_geojson at none = none
get_gfs_geojson at (some s) = if ltb at s.expires then some s.content else none

-- bytes that are true in a test
abbrev pub is_full : Option Text → Bool
is_full (some (c ∷ cs)) = true
is_full _ = false

abbrev pub add_all : ℕ → List Text → ℕ → KeySet → KeySet
add_all ttl [] at s = s
add_all ttl (layer ∷ layers) at s = add_all ttl layers at (add_to_set ttl layer at s)

-- `add_gfs_layers`
unfoldable pub add_gfs_layers : ℕ → Text → Text → List Text → ℕ → GfsRedis → GfsRedis
add_gfs_layers ttl cycle fxxx present at r = record r {
  layers =
      at_text cycle (at_text fxxx (add_all ttl present at (r.layers cycle fxxx)) (r.layers cycle))
        r.layers;
}

-- the members that `prune_gfs_cycles` leaves
abbrev pub kept : List Text → List (Text × ℕ) → List (Text × ℕ)
kept keep [] = []
kept keep ((id, score) ∷ ms) =
    let rest = kept keep ms in if has_text id keep then (id, score) ∷ rest else rest

abbrev pub prune_gfs_cycles : List Text → GfsRedis → GfsRedis
prune_gfs_cycles keep r = record r {
  cycles = record r.cycles { members = kept keep r.cycles.members };
}

-- what a step meets: the times at which Redis takes its calls, none for a call that raises
pub record StepIo : Type 0 where
  pub index_at : Option ℕ
  pub layer_at : Text → Option ℕ
  pub layers_at : Option ℕ

-- the listings of a product's cycles and of a cycle's objects, the overlays of S3, and the prune
pub record GfsIo : Type 0 where
  pub cycle_prefixes : Option (List Text)
  pub cog_keys : Text → Option (List Text)
  pub download_tile : Text → Option Text
  pub step : Text → Text → StepIo
  pub prune_ok : Bool

-- the overlays of a step, the layers that can be fetched, the layers copied, and whether nothing raised
pub record OverlayRun : Type 0 where
  pub overlays : Text → Option Stored
  pub present : List Text
  pub copied : ℕ
  pub ok : Bool

pub record GfsRun : Type 0 where
  pub redis : GfsRedis
  pub copied : ℕ
  pub ok : Bool

abbrev pub full_names : List Text → List Text
full_names [] = []
full_names (p ∷ ps) =
    let rest = full_names ps in elim (leaf_segment p) [ [] ↦ rest | ◌∷◌ c cs ↦ (c ∷ cs) ∷ rest ]

-- `_active_cycles`, of a listing
unfoldable pub active_cycles : ℕ → List Text → List Text
active_cycles cycles_to_keep prefixes =
    take cycles_to_keep (sort (λ a b. is_before b a) (full_names prefixes))

abbrev pub steps_of : Text → List Text → List Text
steps_of cycle [] = []
steps_of cycle (name ∷ names) =
    let rest = steps_of cycle names in
    elim (step_from_basename name cycle) [ none ↦ rest | some step ↦ step ∷ rest ]

module _ (ttl cycles_to_keep : ℕ) (product : GfsProduct) (io : GfsIo) where
  -- `_list_steps`
  unfoldable pub list_steps : Text → Option (List Text)
  list_steps cycle =
      let prefix = gfs_cog_cycle_prefix product.s3_segment ++ (cycle ++ b'/' ∷ []) in
      elim (io.cog_keys cycle) [
        | none ↦ none
        | some keys ↦ some (sort is_before (steps_of cycle (basenames prefix (codes ".tif") keys)))
      ]

  -- what is done for a layer: nothing where Redis has it, or a copy of what S3 has
  abbrev pub mirror_layer :
      Text → Text → Text → ℕ → (Text → Option Stored) → (Text → Option Stored) × (Bool × ℕ)
  mirror_layer cycle fxxx layer at overlays =
      let fetched = io.download_tile (build_gfs_geojson_key product.s3_segment cycle fxxx layer) in
      if is_full (get_gfs_geojson at (overlays layer))
      then (overlays, (true, 0))
      else elim fetched [
        | none ↦ (overlays, (false, 0))
        | some content ↦
            if is_full (some content)
            then (
              at_text layer (some (record { content = content; expires = at + ttl })) overlays,
              (true, 1),
            )
            else (overlays, (false, 0))
      ]

  abbrev pub with_layer : Text → Bool × ℕ → OverlayRun → OverlayRun
  with_layer layer (found, n) rest = record rest {
    present = if found then layer ∷ rest.present else rest.present;
    copied = n + rest.copied;
  }

  -- `_mirror_overlays`
  unfoldable pub mirror_overlays : Text → Text → List Text → (Text → Option Stored) → OverlayRun
  mirror_overlays cycle fxxx [] overlays = record {
    overlays = overlays;
    present = [];
    copied = 0;
    ok = true;
  }
  mirror_overlays cycle fxxx (layer ∷ layers) overlays =
      elim ((io.step cycle fxxx).layer_at layer) [
        | none ↦ record { overlays = overlays; present = []; copied = 0; ok = false }
        | some at ↦
            let (overlays', found) = mirror_layer cycle fxxx layer at overlays in
            with_layer layer found (mirror_overlays cycle fxxx layers overlays')
      ]

  abbrev pub put_overlays : Text → Text → (Text → Option Stored) → GfsRedis → GfsRedis
  put_overlays cycle fxxx o r = record r {
    overlays = at_text cycle (at_text fxxx o (r.overlays cycle)) r.overlays;
  }

  abbrev pub register_present : Text → Text → List Text → ℕ → GfsRedis → GfsRedis
  register_present cycle fxxx [] at r = r
  register_present cycle fxxx (layer ∷ layers) at r =
      add_gfs_layers ttl cycle fxxx (layer ∷ layers) at r

  -- the layers of the overlays that can be fetched are registered, unless there are none
  abbrev pub register_layers : Text → Text → Option ℕ → OverlayRun → GfsRedis → GfsRun
  register_layers cycle fxxx none run r = record { redis = r; copied = 0; ok = false }
  register_layers cycle fxxx (some at) run r = record {
    redis = register_present cycle fxxx run.present at r;
    copied = run.copied;
    ok = true;
  }

  abbrev pub after_mirror : Text → Text → OverlayRun → GfsRedis → GfsRun
  after_mirror cycle fxxx run r =
      let mirrored = put_overlays cycle fxxx run.overlays r in
      if run.ok
      then register_layers cycle fxxx (io.step cycle fxxx).layers_at run mirrored
      else record { redis = mirrored; copied = 0; ok = false }

  abbrev pub after_index : Text → Text → Option ℕ → GfsRedis → GfsRun
  after_index cycle fxxx none r = record { redis = r; copied = 0; ok = false }
  after_index cycle fxxx (some at) r =
      after_mirror cycle fxxx (mirror_overlays cycle fxxx product.layers (r.overlays cycle fxxx))
        (add_gfs_index ttl cycle fxxx at r)

  -- `_sync_step`
  unfoldable pub sync_step : Text → Text → GfsRedis → GfsRun
  sync_step cycle fxxx r = after_index cycle fxxx (io.step cycle fxxx).index_at r

  abbrev pub then_run : GfsRun → (GfsRedis → GfsRun) → GfsRun
  then_run one next =
      let rest = next one.redis in
      if one.ok then record rest { copied = one.copied + rest.copied } else one

  -- the loop over the steps of a cycle
  unfoldable pub sync_steps : Text → List Text → GfsRedis → GfsRun
  sync_steps cycle [] r = record { redis = r; copied = 0; ok = true }
  sync_steps cycle (fxxx ∷ steps) r = then_run (sync_step cycle fxxx r) (sync_steps cycle steps)

  abbrev pub sync_listed_steps : Text → Option (List Text) → GfsRedis → GfsRun
  sync_listed_steps cycle none r = record { redis = r; copied = 0; ok = false }
  sync_listed_steps cycle (some steps) r = sync_steps cycle steps r

  -- the loop over the cycles
  unfoldable pub sync_cycles : List Text → GfsRedis → GfsRun
  sync_cycles [] r = record { redis = r; copied = 0; ok = true }
  sync_cycles (cycle ∷ cycles) r =
      then_run (sync_listed_steps cycle (list_steps cycle) r) (sync_cycles cycles)

  -- the prune, which an exception before it leaves out
  abbrev pub pruned : Bool → List Text → GfsRun → GfsRun
  pruned true cycles run =
      if run.ok
      then record run { redis = prune_gfs_cycles cycles run.redis }
      else record run { copied = 0 }
  pruned false cycles run = record run { copied = 0; ok = false }

  abbrev pub sync_active : List Text → GfsRedis → GfsRun
  sync_active [] r = record { redis = r; copied = 0; ok = true }
  sync_active (cycle ∷ cycles) r =
      pruned io.prune_ok (cycle ∷ cycles) (sync_cycles (cycle ∷ cycles) r)

  abbrev pub sync_cycle_prefixes : Option (List Text) → GfsRedis → GfsRun
  sync_cycle_prefixes none r = record { redis = r; copied = 0; ok = false }
  sync_cycle_prefixes (some prefixes) r = sync_active (active_cycles cycles_to_keep prefixes) r

  -- `_sync_product`
  unfoldable pub sync_product : GfsRedis → GfsRun
  sync_product r = sync_cycle_prefixes io.cycle_prefixes r

-- `_sync_gfs`: the products, the overlays copied and the errors
unfoldable pub sync_gfs :
    ℕ → ℕ → (Text → GfsIo) → List GfsProduct → (Text → GfsRedis) → (Text → GfsRedis) × (ℕ × ℕ)
sync_gfs ttl cycles_to_keep world [] redis = (redis, (0, 0))
sync_gfs ttl cycles_to_keep world (p ∷ ps) redis =
    let run = sync_product ttl cycles_to_keep p (world p.product_id) (redis p.product_id) in
    let (redis', (copied, errors)) =
      sync_gfs ttl cycles_to_keep world ps (at_text p.product_id run.redis redis) in
    (redis', (run.copied + copied, (if run.ok then 0 else 1) + errors))
