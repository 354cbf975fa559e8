-- ===== src/StateStore.antt =====
-- src/clients/basemap_state_store.py: the SQLite tables of the scraper's progress. A table with
-- `provider_id` as its primary key is a function of the key; the failed tiles are a list of rows, in
-- the order of insertion. The `updated_at` columns, which nothing reads, are left out, and
-- `int(time.time())` is an argument. Opening and closing the connection is not modelled.
pub mod Laws
use data_service.Common.{
  ℕ, String, Bool, true, false, not, ◌&&◌, Option, none, some, List, [], ◌∷◌, ◌++◌, ◌==◌,
  if◌then◌else◌, str_eq,
}

pub record Cursor : Type 0 where
  pub zoom : ℕ
  pub tile_index : ℕ

pub record ProviderHealth : Type 0 where
  pub consecutive_trips : ℕ
  pub cooldown_until : ℕ
  pub last_tripped_at : ℕ
  pub last_reason : String

pub record ScrapeStats : Type 0 where
  pub attempted : ℕ
  pub ok : ℕ
  pub failed : ℕ
  pub completed : Bool
  pub swept_at : ℕ

-- a row of `basemap_scrape_failed`
pub record FailedTile : Type 0 where
  pub provider_id : String
  pub zoom : ℕ
  pub x : ℕ
  pub y : ℕ

abbrev pub Table : Type 0 → Type 0
Table R = String → Option R

pub record BasemapStateStore : Type 0 where
  pub cursor : Table Cursor
  pub failed : List FailedTile
  pub last_completed : Table ℕ
  pub health : Table ProviderHealth
  pub stats : Table ScrapeStats

abbrev pub empty_store : BasemapStateStore
empty_store = record {
  cursor = λ p. none;
  failed = [];
  last_completed = λ p. none;
  health = λ p. none;
  stats = λ p. none;
}

-- `INSERT … ON CONFLICT(provider_id) DO UPDATE`
abbrev pub upsert : {R : Type 0} → String → R → Table R → Table R
upsert p r table = λ q. if str_eq q p then some r else table q

-- `DELETE … WHERE provider_id = ?`
abbrev pub delete : {R : Type 0} → String → Table R → Table R
delete p table = λ q. if str_eq q p then none else table q

unfoldable pub get_cursor : String → BasemapStateStore → Option Cursor
get_cursor p s = s.cursor p

unfoldable pub set_cursor : String → ℕ → ℕ → BasemapStateStore → BasemapStateStore
set_cursor p z i s = record s { cursor = upsert p (record { zoom = z; tile_index = i }) s.cursor }

unfoldable pub clear_cursor : String → BasemapStateStore → BasemapStateStore
clear_cursor p s = record s { cursor = delete p s.cursor }

abbrev pub same_tile : FailedTile → FailedTile → Bool
same_tile a b = str_eq a.provider_id b.provider_id && a.zoom == b.zoom && a.x == b.x && a.y == b.y

abbrev pub has_row : FailedTile → List FailedTile → Bool
has_row r [] = false
has_row r (t ∷ ts) = if same_tile t r then true else has_row r ts

-- `DELETE … WHERE`: the rows for which the test fails
abbrev pub delete_rows : (FailedTile → Bool) → List FailedTile → List FailedTile
delete_rows where_ [] = []
delete_rows where_ (t ∷ ts) =
    let rest = delete_rows where_ ts in if where_ t then rest else t ∷ rest

abbrev pub in_zoom : String → ℕ → FailedTile → Bool
in_zoom p z t = str_eq t.provider_id p && t.zoom == z

-- `INSERT OR IGNORE`
unfoldable pub add_failed : String → ℕ → ℕ → ℕ → BasemapStateStore → BasemapStateStore
add_failed p z x y s =
    let row : FailedTile = record { provider_id = p; zoom = z; x = x; y = y } in
    record s { failed = if has_row row s.failed then s.failed else s.failed ++ row ∷ [] }

unfoldable pub remove_failed : String → ℕ → ℕ → ℕ → BasemapStateStore → BasemapStateStore
remove_failed p z x y s =
    let row : FailedTile = record { provider_id = p; zoom = z; x = x; y = y } in
    record s { failed = delete_rows (λ t. same_tile t row) s.failed }

abbrev pub select_tiles : String → ℕ → List FailedTile → List (ℕ × ℕ)
select_tiles p z [] = []
select_tiles p z (t ∷ ts) =
    let rest = select_tiles p z ts in if in_zoom p z t then (t.x, t.y) ∷ rest else rest

unfoldable pub list_failed : String → ℕ → BasemapStateStore → List (ℕ × ℕ)
list_failed p z s = select_tiles p z s.failed

unfoldable pub clear_failed : String → ℕ → BasemapStateStore → BasemapStateStore
clear_failed p z s = record s { failed = delete_rows (in_zoom p z) s.failed }

unfoldable pub clear_failed_for_provider : String → BasemapStateStore → BasemapStateStore
clear_failed_for_provider p s = record s {
  failed = delete_rows (λ t. str_eq t.provider_id p) s.failed;
}

unfoldable pub get_last_completed : String → BasemapStateStore → Option ℕ
get_last_completed p s = s.last_completed p

unfoldable pub set_last_completed : String → ℕ → BasemapStateStore → BasemapStateStore
set_last_completed p at s = record s { last_completed = upsert p at s.last_completed }

unfoldable pub get_health : String → BasemapStateStore → Option ProviderHealth
get_health p s = s.health p

unfoldable pub open_circuit : String → ℕ → ℕ → String → ℕ → BasemapStateStore → BasemapStateStore
open_circuit p trips until reason now s = record s {
  health =
      upsert p
        (record {
          consecutive_trips = trips;
          cooldown_until = until;
          last_tripped_at = now;
          last_reason = reason;
        })
        s.health;
}

unfoldable pub close_circuit : String → BasemapStateStore → BasemapStateStore
close_circuit p s = record s { health = delete p s.health }

unfoldable pub set_scrape_stats :
    String → ℕ → ℕ → ℕ → Bool → ℕ → BasemapStateStore → BasemapStateStore
set_scrape_stats p attempted ok failed completed now s = record s {
  stats =
      upsert p
        (record {
          attempted = attempted;
          ok = ok;
          failed = failed;
          completed = completed;
          swept_at = now;
        })
        s.stats;
}

unfoldable pub get_scrape_stats : String → BasemapStateStore → Option ScrapeStats
get_scrape_stats p s = s.stats p
