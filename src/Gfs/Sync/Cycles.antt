-- ===== src/Gfs/Sync/Cycles.antt =====
-- The cycles that a product's index lists after a pass.
use mathlib.Core.Path.{subst}
use data_service.Common.{
  ℕ, ◌+◌, ◌≤◌, ◌<◌, ◌≡◌, ◌≢◌, refl, sym, ap, ◌∙◌, Bool, true, false, Option, none, some, List, [],
  ◌∷◌, Bool-cases, inl, inr,
}
use data_service.Common.Text.{Text, eq_text, eq_text_iff, has_text}
use data_service.Mirror.{ids, add_tileset}
use data_service.Gfs.{GfsProduct}
use data_service.Gfs.Sync.{
  GfsRedis, GfsIo, GfsRun, OverlayRun, cycle_score, add_gfs_index, add_gfs_layers, kept,
  active_cycles, list_steps, mirror_overlays, register_present, register_layers, after_mirror,
  after_index, sync_step, sync_steps, sync_listed_steps, then_run, sync_cycles, pruned, sync_active,
  sync_cycle_prefixes, sync_product, put_overlays,
}
use data_service.Gfs.Sync.Listing.{
  IsWithin, Holds, kept-has, kept-only, add_tileset-new, add_tileset-Holds,
}

module _ (ttl now cycles_to_keep : ℕ) (product : GfsProduct) (io : GfsIo)
    (within : IsWithin ttl now io) where
  register_present-cycles :
      (cycle fxxx : Text) (present : List Text) (at : ℕ) (r : GfsRedis)
      → (register_present ttl cycles_to_keep product io cycle fxxx present at r).cycles ≡ r.cycles
  unfolding add_gfs_layers
  register_present-cycles cycle fxxx [] at r = refl
  register_present-cycles cycle fxxx (l ∷ ls) at r = refl

  register_layers-cycles :
      (cycle fxxx : Text) (at : Option ℕ) (run : OverlayRun) (r : GfsRedis)
      → (register_layers ttl cycles_to_keep product io cycle fxxx at run r).redis.cycles ≡ r.cycles
  register_layers-cycles cycle fxxx none run r = refl
  register_layers-cycles cycle fxxx (some at) run r =
      register_present-cycles cycle fxxx run.present at r

  after_mirror-cycles :
      (cycle fxxx : Text) (run : OverlayRun) (r : GfsRedis)
      → (after_mirror ttl cycles_to_keep product io cycle fxxx run r).redis.cycles ≡ r.cycles
  after_mirror-cycles cycle fxxx run r = elim (Bool-cases run.ok) [
    | inl ok ↦ rw ok (
        register_layers-cycles cycle fxxx (io.step cycle fxxx).layers_at (record run { ok = true })
          (put_overlays ttl cycles_to_keep product io cycle fxxx run.overlays r))
    | inr raised ↦ rw raised refl
  ]

  after_index-cycles :
      (cycle fxxx : Text) (at : ℕ) (r : GfsRedis)
      → (after_index ttl cycles_to_keep product io cycle fxxx (some at) r).redis.cycles
        ≡ add_tileset ttl cycle (cycle_score cycle) at r.cycles
  unfolding add_gfs_index
  after_index-cycles cycle fxxx at r =
      after_mirror-cycles cycle fxxx
        (mirror_overlays ttl cycles_to_keep product io cycle fxxx product.layers
          (r.overlays cycle fxxx))
        (add_gfs_index ttl cycle fxxx at r)

  sync_step-Holds :
      (cycle fxxx : Text) (r : GfsRedis)
      → ((c : Text)
          → Holds ttl now c r.cycles
          → Holds ttl now c (sync_step ttl cycles_to_keep product io cycle fxxx r).redis.cycles)
        × ((sync_step ttl cycles_to_keep product io cycle fxxx r).ok ≡ true
            → Holds ttl now cycle
                (sync_step ttl cycles_to_keep product io cycle fxxx r).redis.cycles)
  unfolding sync_step
  sync_step-Holds cycle fxxx r = at_index (io.step cycle fxxx).index_at (within cycle fxxx)
    where
      at_index :
          (at : Option ℕ)
          → ((t : ℕ) → at ≡ some t → (now ≤ t) × (t < now + ttl))
          → ((c : Text)
              → Holds ttl now c r.cycles
              → Holds ttl now c
                  (after_index ttl cycles_to_keep product io cycle fxxx at r).redis.cycles)
            × ((after_index ttl cycles_to_keep product io cycle fxxx at r).ok ≡ true
                → Holds ttl now cycle
                    (after_index ttl cycles_to_keep product io cycle fxxx at r).redis.cycles)
      at_index none soon = (λ c h. h, λ h. absurd cc)
      at_index (some t) soon =
          let e = after_index-cycles cycle fxxx t r in
          (
            λ c h.
                subst (Holds ttl now c) (sym e) (
                  add_tileset-Holds ttl now c cycle (cycle_score cycle) t r.cycles (soon t refl) h),
            λ ok.
                subst (Holds ttl now cycle) (sym e)
                  (add_tileset-new ttl now cycle (cycle_score cycle) t r.cycles (soon t refl).0),
          )

  then_run-Holds :
      (c : Text) (one : GfsRun) (next : GfsRedis → GfsRun)
      → Holds ttl now c one.redis.cycles
      → ((r : GfsRedis) → Holds ttl now c r.cycles → Holds ttl now c (next r).redis.cycles)
      → Holds ttl now c (then_run ttl cycles_to_keep product io one next).redis.cycles
  then_run-Holds c one next before keeps = elim (Bool-cases one.ok) [
    | inl ok ↦ rw ok (keeps one.redis before)
    | inr raised ↦ rw raised before
  ]

  then_run-ok :
      (one : GfsRun) (next : GfsRedis → GfsRun)
      → (then_run ttl cycles_to_keep product io one next).ok ≡ true
      → (one.ok ≡ true) × ((next one.redis).ok ≡ true)
  then_run-ok one next ok = elim (Bool-cases one.ok) [
    | inl fine ↦ (fine, rw fine at ok)
    | inr raised ↦ let bad : false ≡ true = (rw raised at ok) in absurd cc
  ]

  then_run-redis :
      (one : GfsRun) (next : GfsRedis → GfsRun)
      → one.ok ≡ true
      → (then_run ttl cycles_to_keep product io one next).redis ≡ (next one.redis).redis
  then_run-redis one next ok = rw ok refl

  sync_steps-Holds :
      (c cycle : Text) (steps : List Text) (r : GfsRedis)
      → Holds ttl now c r.cycles
      → Holds ttl now c (sync_steps ttl cycles_to_keep product io cycle steps r).redis.cycles
  unfolding sync_steps
  sync_steps-Holds c cycle [] r before = before
  sync_steps-Holds c cycle (fxxx ∷ steps) r before =
      then_run-Holds c (sync_step ttl cycles_to_keep product io cycle fxxx r)
        (sync_steps ttl cycles_to_keep product io cycle steps)
        ((sync_step-Holds cycle fxxx r).0 c before) (λ r' h. sync_steps-Holds c cycle steps r' h)

  sync_steps-adds :
      (cycle fxxx : Text) (steps : List Text) (r : GfsRedis)
      → (sync_steps ttl cycles_to_keep product io cycle (fxxx ∷ steps) r).ok ≡ true
      → Holds ttl now cycle
          (sync_steps ttl cycles_to_keep product io cycle (fxxx ∷ steps) r).redis.cycles
  unfolding sync_steps
  sync_steps-adds cycle fxxx steps r ok =
      let one = sync_step ttl cycles_to_keep product io cycle fxxx r in
      then_run-Holds cycle one (sync_steps ttl cycles_to_keep product io cycle steps)
        ((sync_step-Holds cycle fxxx r).1
          (then_run-ok one (sync_steps ttl cycles_to_keep product io cycle steps) ok).0)
        (λ r' h. sync_steps-Holds cycle cycle steps r' h)

  sync_listed_steps-Holds :
      (c cycle : Text) (listing : Option (List Text)) (r : GfsRedis)
      → Holds ttl now c r.cycles
      → Holds ttl now c
          (sync_listed_steps ttl cycles_to_keep product io cycle listing r).redis.cycles
  sync_listed_steps-Holds c cycle none r before = before
  sync_listed_steps-Holds c cycle (some steps) r before = sync_steps-Holds c cycle steps r before

  sync_cycles-Holds :
      (c : Text) (cycles : List Text) (r : GfsRedis)
      → Holds ttl now c r.cycles
      → Holds ttl now c (sync_cycles ttl cycles_to_keep product io cycles r).redis.cycles
  unfolding sync_cycles
  sync_cycles-Holds c [] r before = before
  sync_cycles-Holds c (cycle ∷ cycles) r before =
      then_run-Holds c
        (sync_listed_steps ttl cycles_to_keep product io cycle
          (list_steps ttl cycles_to_keep product io cycle) r)
        (sync_cycles ttl cycles_to_keep product io cycles)
        (sync_listed_steps-Holds c cycle (list_steps ttl cycles_to_keep product io cycle) r before)
        (λ r' h. sync_cycles-Holds c cycles r' h)

  -- a cycle of the loop with a step is indexed once the loop has ended well
  sync_cycles-adds :
      (c fxxx : Text) (steps : List Text) (cycles : List Text) (r : GfsRedis)
      → (sync_cycles ttl cycles_to_keep product io cycles r).ok ≡ true
      → has_text c cycles ≡ true
      → list_steps ttl cycles_to_keep product io c ≡ some (fxxx ∷ steps)
      → Holds ttl now c (sync_cycles ttl cycles_to_keep product io cycles r).redis.cycles
  unfolding sync_cycles
  sync_cycles-adds c fxxx steps [] r ok active listed = absurd cc
  sync_cycles-adds c fxxx steps (cycle ∷ cycles) r ok active listed =
      let one =
        sync_listed_steps ttl cycles_to_keep product io cycle
          (list_steps ttl cycles_to_keep product io cycle) r in
      let (one_ok, rest_ok) =
        then_run-ok one (sync_cycles ttl cycles_to_keep product io cycles) ok in
      elim (Bool-cases (eq_text cycle c)) [
        | inl same ↦
            let e = (eq_text_iff cycle c).0 same in
            let steps_e : list_steps ttl cycles_to_keep product io cycle ≡ some (fxxx ∷ steps) =
              ap (λ x. list_steps ttl cycles_to_keep product io x) e ∙ listed in
            let ok' : (sync_steps ttl cycles_to_keep product io cycle (fxxx ∷ steps) r).ok ≡ true =
              (rw steps_e at one_ok) in
            let first : Holds ttl now cycle one.redis.cycles =
              rw steps_e (sync_steps-adds cycle fxxx steps r ok') in
            then_run-Holds c one (sync_cycles ttl cycles_to_keep product io cycles)
              (subst (λ x. Holds ttl now x one.redis.cycles) e first)
              (λ r' h. sync_cycles-Holds c cycles r' h)
        | inr other ↦
            subst (λ x. Holds ttl now c x.cycles)
              (sym (then_run-redis one (sync_cycles ttl cycles_to_keep product io cycles) one_ok))
              (sync_cycles-adds c fxxx steps cycles one.redis rest_ok (rw other at active) listed)
      ]

  -- the index lists a cycle that has a step exactly if it is active
  abbrev Follows : List Text → Text → GfsRun → Type 0
  Follows active c run = has_text c (ids run.redis.cycles.members) ≡ has_text c active

  pruned-Follows :
      (prune_ok : Bool) (active : List Text) (r : GfsRedis) (c fxxx : Text) (steps : List Text)
      → list_steps ttl cycles_to_keep product io c ≡ some (fxxx ∷ steps)
      → (pruned ttl cycles_to_keep product io prune_ok active
          (sync_cycles ttl cycles_to_keep product io active r)).ok
        ≡ true
      → Follows active c (
          pruned ttl cycles_to_keep product io prune_ok active
            (sync_cycles ttl cycles_to_keep product io active r))
  pruned-Follows false active r c fxxx steps listed ok = absurd cc
  pruned-Follows true active r c fxxx steps listed ok =
      let run = sync_cycles ttl cycles_to_keep product io active r in
      elim (Bool-cases run.ok) [
        | inr raised ↦ let bad : false ≡ true = (rw raised at ok) in absurd cc
        | inl fine ↦ rw fine (elim (Bool-cases (has_text c active)) [
          | inl is_active ↦
              kept-has active c run.redis.cycles.members is_active
                (sync_cycles-adds c fxxx steps active r fine is_active listed).0
              ∙ sym is_active
          | inr retired ↦
              elim (Bool-cases (has_text c (ids (kept active run.redis.cycles.members)))) [
                | inl there ↦ there ∙ sym (kept-only active c run.redis.cycles.members there)
                | inr gone ↦ gone ∙ sym retired
              ]
        ])
      ]

  sync_active-Follows :
      (active : List Text) (r : GfsRedis) (c fxxx : Text) (steps : List Text)
      → active ≢ []
      → list_steps ttl cycles_to_keep product io c ≡ some (fxxx ∷ steps)
      → (sync_active ttl cycles_to_keep product io active r).ok ≡ true
      → Follows active c (sync_active ttl cycles_to_keep product io active r)
  sync_active-Follows [] r c fxxx steps some_cycle listed ok = absurd (some_cycle refl)
  sync_active-Follows (cycle ∷ cycles) r c fxxx steps some_cycle listed ok =
      pruned-Follows io.prune_ok (cycle ∷ cycles) r c fxxx steps listed ok

  -- After a pass without an exception over at least one active cycle, whose calls on the index fall within
  -- a lifetime: of the cycles in which S3 lists a step, the index holds exactly the active ones.
  pub sync_product-cycles :
      (prefixes : List Text) (r : GfsRedis) (c fxxx : Text) (steps : List Text)
      → io.cycle_prefixes ≡ some prefixes
      → active_cycles cycles_to_keep prefixes ≢ []
      → list_steps ttl cycles_to_keep product io c ≡ some (fxxx ∷ steps)
      → (sync_product ttl cycles_to_keep product io r).ok ≡ true
      → has_text c (ids (sync_product ttl cycles_to_keep product io r).redis.cycles.members)
        ≡ has_text c (active_cycles cycles_to_keep prefixes)
  unfolding sync_product
  sync_product-cycles prefixes r c fxxx steps listing some_cycle listed ok =
      subst
        (λ l.
          (sync_cycle_prefixes ttl cycles_to_keep product io l r).ok ≡ true
          → Follows (active_cycles cycles_to_keep prefixes) c
              (sync_cycle_prefixes ttl cycles_to_keep product io l r))
        (sym listing)
        (sync_active-Follows (active_cycles cycles_to_keep prefixes) r c fxxx steps some_cycle
          listed)
        ok
