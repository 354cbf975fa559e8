-- ===== src/Gfs/Reads/Layers.antt =====
-- The reads of overlays against S3, and the layers of many steps against those of one.
use data_service.Common.{
  ℕ, ◌≡◌, refl, sym, ap, ◌∙◌, Bool, true, false, ◌&&◌, Option, some, List, [], ◌∷◌, ◌++◌,
  if◌then◌else◌, Bool-cases, inl, inr,
}
use data_service.Common.Text.{Text, eq_text, eq_text_iff, has_text}
use data_service.Gfs.Sync.{GfsRedis}
use data_service.Gfs.Reads.{
  LayerMap, get_layers, layers_or_none, for_each, layers_on_demand, get_gfs_layers, or_else,
  list_layers, is_empty, missing_from, list_layers_bulk,
}

get_layers-for_each :
    (f : Text → List Text) (k : Text) (ss : List Text)
    → has_text k ss ≡ true
    → get_layers k (for_each f ss) ≡ some (f k)
get_layers-for_each f k [] there = absurd cc
get_layers-for_each f k (s ∷ ss) there = elim (Bool-cases (eq_text s k)) [
  | inl same ↦ rw same (ap (λ x. some (f x)) ((eq_text_iff s k).0 same))
  | inr other ↦ rw other (get_layers-for_each f k ss (rw other at there))
]

-- entries before others
get_layers-append :
    (f : Text → List Text) (k : Text) (ss : List Text) (d : LayerMap)
    → get_layers k (for_each f ss ++ d) ≡ (if has_text k ss then some (f k) else get_layers k d)
get_layers-append f k [] d = refl
get_layers-append f k (s ∷ ss) d = elim (Bool-cases (eq_text s k)) [
  | inl same ↦ rw same (ap (λ x. some (f x)) ((eq_text_iff s k).0 same))
  | inr other ↦ rw other (get_layers-append f k ss d)
]

and_false : (b : Bool) → (b && false) ≡ false
and_false true = refl
and_false false = refl

has_text-missing :
    (d : LayerMap) (k : Text) (ss : List Text)
    → has_text k (missing_from d ss) ≡ (has_text k ss && is_empty (layers_or_none (get_layers k d)))
has_text-missing d k [] = refl
has_text-missing d k (s ∷ ss) =
    let rest = has_text-missing d k ss in
    elim (Bool-cases (eq_text s k)) [
      | inl same ↦
          let e : is_empty (layers_or_none (get_layers s d))
              ≡ is_empty (layers_or_none (get_layers k d)) =
            ap (λ x. is_empty (layers_or_none (get_layers x d))) ((eq_text_iff s k).0 same) in
          elim (Bool-cases (is_empty (layers_or_none (get_layers k d)))) [
            | inl empty ↦ rw (e, empty, same) refl
            | inr full ↦ rw (e, full, same) ((rw full at rest) ∙ and_false (has_text k ss))
          ]
      | inr other ↦ elim (Bool-cases (is_empty (layers_or_none (get_layers s d)))) [
        | inl empty ↦ rw (empty, other) rest
        | inr full ↦ rw (full, other) rest
      ]
    ]

or_else-choice :
    (a b : List Text)
    → Path (Option (List Text)) (if is_empty a then some b else some a) (some (or_else a b))
or_else-choice [] b = refl
or_else-choice (x ∷ a) b = refl

or_else-full : (a b : List Text) → is_empty a ≡ false → a ≡ or_else a b
or_else-full [] b full = absurd cc
or_else-full (x ∷ a) b full = refl

has_text-empty : (k : Text) (ss : List Text) → is_empty ss ≡ true → has_text k ss ≡ false
has_text-empty k [] empty = refl
has_text-empty k (s ∷ ss) empty = absurd cc

-- For each of the steps asked for, the bulk listing gives the layers that the listing of the one step gives.
pub list_layers_bulk-list_layers :
    (at : ℕ) (r : GfsRedis) (by_step : LayerMap) (cycle : Text) (steps : List Text) (k : Text)
    → has_text k steps ≡ true
    → get_layers k (list_layers_bulk at r by_step cycle steps)
      ≡ some (list_layers at r by_step cycle k)
unfolding list_layers list_layers_bulk
list_layers_bulk-list_layers at r by_step cycle steps k asked =
    let f = get_gfs_layers at r cycle in
    let indexed = for_each f steps in
    let found = get_layers-for_each f k steps asked in
    let has_k : has_text k (missing_from indexed steps) ≡ is_empty (f k) =
      has_text-missing indexed k steps ∙ rw (asked, found) refl in
    elim (Bool-cases (is_empty (missing_from indexed steps))) [
      | inl none_missing ↦ rw none_missing (
          found
          ∙ ap (λ x. some x)
              (or_else-full (f k) (layers_on_demand by_step k)
                (sym has_k ∙ has_text-empty k (missing_from indexed steps) none_missing)))
      | inr some_missing ↦
          rw
            (
              some_missing,
              get_layers-append (layers_on_demand by_step) k (missing_from indexed steps) indexed,
              has_k,
              found,
            )
            (or_else-choice (f k) (layers_on_demand by_step k))
    ]
