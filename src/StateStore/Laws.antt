-- ===== src/StateStore/Laws.antt =====
-- What the failed-tile queue and the tables promise the scraper.
use data_service.Common.{
  ℕ, ◌≡◌, refl, String, Bool, true, false, ◌&&◌, List, [], ◌∷◌, ◌++◌, ◌==◌, if◌then◌else◌, str_eq,
  eq_iff, arith, Bool-cases, inl, inr, ap,
}
use text.Mathlib.TextPositions.{eq_refl}
use data_service.StateStore.{
  FailedTile, BasemapStateStore, same_tile, has_row, delete_rows, in_zoom, select_tiles, add_failed,
  remove_failed, list_failed, clear_failed, clear_failed_for_provider,
}

-- The queue holds a tile of a provider.
abbrev pub is_queued : String → ℕ → ℕ → ℕ → BasemapStateStore → Bool
is_queued p z x y s = has_row (record { provider_id = p; zoom = z; x = x; y = y }) s.failed

pub same_tile_refl : (t : FailedTile) → same_tile t t ≡ true
same_tile_refl t = ground (arith, eq_refl t.provider_id)

pub same_tile_eq : (a b : FailedTile) → same_tile a b ≡ true → a ≡ b
same_tile_eq a b h = ground (arith, eq_iff a.provider_id b.provider_id)

pub has_row-append :
    (r t : FailedTile) (ts : List FailedTile)
    → has_row r (ts ++ t ∷ []) ≡ (if same_tile t r then true else has_row r ts)
has_row-append r t [] = refl
has_row-append r t (u ∷ ts) = ground (arith, has_row-append r t ts)

has_row-delete :
    (r : FailedTile) (d : FailedTile → Bool) (ts : List FailedTile)
    → has_row r (delete_rows d ts) ≡ (if d r then false else has_row r ts)
has_row-delete r d [] = ground arith
has_row-delete r d (t ∷ ts) = elim (Bool-cases (same_tile t r)) [
  | inl same ↦ ground (arith, has_row-delete r d ts, ap d (same_tile_eq t r same))
  | inr other ↦ ground (arith, has_row-delete r d ts)
]

pub has_row_self : (r : FailedTile) (ts : List FailedTile) → has_row r (ts ++ r ∷ []) ≡ true
has_row_self r ts = ground (arith, has_row-append r r ts, same_tile_refl r)

pub has_row-add :
    (t row : FailedTile) (ts : List FailedTile)
    → has_row t (if has_row row ts then ts else ts ++ row ∷ [])
      ≡ (if same_tile row t then true else has_row t ts)
has_row-add t row ts = elim (Bool-cases (same_tile row t)) [
  | inl same ↦
      ground (arith, has_row-append t row ts, ap (λ u. has_row u ts) (same_tile_eq row t same))
  | inr other ↦ ground (arith, has_row-append t row ts)
]

-- The queue is a set of tiles: each operation does to the membership of any tile `t` what its name
-- says, and nothing else. Adding a tile makes it a member, removing a tile or clearing a zoom or a
-- provider makes those tiles no members, and every other tile keeps its membership.
pub queue_is_set :
    (p : String) (z x y : ℕ) (t : FailedTile) (s : BasemapStateStore)
    → (let row : FailedTile = record { provider_id = p; zoom = z; x = x; y = y } in
        let before = has_row t s.failed in
        (has_row t (add_failed p z x y s).failed ≡ (if same_tile row t then true else before))
        × (has_row t (remove_failed p z x y s).failed ≡ (if same_tile t row then false else before))
        × (has_row t (clear_failed p z s).failed ≡ (if in_zoom p z t then false else before))
        × (has_row t (clear_failed_for_provider p s).failed
            ≡ (if str_eq t.provider_id p then false else before)))
unfolding add_failed remove_failed clear_failed clear_failed_for_provider
queue_is_set p z x y t s =
    let row : FailedTile = record { provider_id = p; zoom = z; x = x; y = y } in
    (
      has_row-add t row s.failed,
      has_row-delete t (λ u. same_tile u row) s.failed,
      has_row-delete t (in_zoom p z) s.failed,
      has_row-delete t (λ u. str_eq u.provider_id p) s.failed,
    )

abbrev pub lists : ℕ → ℕ → List (ℕ × ℕ) → Bool
lists x y [] = false
lists x y ((a, b) ∷ ts) = if a == x && b == y then true else lists x y ts

lists-select :
    (p : String) (z x y : ℕ) (ts : List FailedTile)
    → lists x y (select_tiles p z ts)
      ≡ has_row (record { provider_id = p; zoom = z; x = x; y = y }) ts
lists-select p z x y [] = refl
lists-select p z x y (t ∷ ts) = ground (arith, lists-select p z x y ts)

-- `list_failed` gives exactly the tiles of the provider and zoom that are queued.
pub list_failed-queued :
    (p : String) (z x y : ℕ) (s : BasemapStateStore)
    → lists x y (list_failed p z s) ≡ is_queued p z x y s
unfolding list_failed
list_failed-queued p z x y s = lists-select p z x y s.failed
