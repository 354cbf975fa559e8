-- ===== src/Stations/Buckets.antt =====
-- The snapshots by the hour: `_latest_snapshot_per_bucket`, `compute_tilesets_entries` and
-- `recent_snapshot_keys` of src/services/weather_stations_cache.py, and the reader's
-- `_resolve_bucket_snapshot_key` of src/services/weather_stations_service.py. The keys are those that a
-- listing gave.
pub mod Latest
use data_service.Common.{
  ℕ, ◌+◌, ◌-◌, String, Bool, true, false, ◌&&◌, ◌||◌, Option, none, some, List, [], ◌∷◌, ◌++◌,
  length, take, drop, ltb, leb, ◌==◌, if◌then◌else◌,
}
use data_service.Common.Json.{Json, Document, int, as_dict, as_int, get_or_null}
use data_service.Common.Int.{ℤ, pos}
use data_service.Common.Sort.{sort}
use data_service.Stations.Calendar.{DateTime, instant}
use data_service.Stations.Keys.{
  Text, codes, eq_text, four_digits, two_digits, parse_snapshot_key, tileset_id_for, is_meta,
}

-- the representative of a bucket
abbrev pub Snapshot : Type 0
Snapshot = DateTime × Text

abbrev pub PerBucket : Type 0
PerBucket = List (Text × Snapshot)

abbrev pub later_than : DateTime → DateTime → Bool
later_than t u = ltb (instant u) (instant t)

-- `per_bucket[bucket] = (ts, key)` where there is none yet, or an older one
abbrev pub keep_latest : Text → DateTime → Text → List (Text × Snapshot) → List (Text × Snapshot)
keep_latest bucket ts key [] = (bucket, (ts, key)) ∷ []
keep_latest bucket ts key ((b, (u, k)) ∷ per) =
    if eq_text b bucket
    then (if later_than ts u then (b, (ts, key)) else (b, (u, k))) ∷ per
    else (b, (u, k)) ∷ keep_latest bucket ts key per

abbrev pub keep_parsed : Option DateTime → Text → PerBucket → PerBucket
keep_parsed none key per = per
keep_parsed (some ts) key per = keep_latest (tileset_id_for ts) ts key per

-- the time of a key that the loops do not skip
abbrev pub time_of : Text → Option DateTime
time_of key = if is_meta key then none else parse_snapshot_key key

abbrev pub latest_from : PerBucket → List Text → PerBucket
latest_from per [] = per
latest_from per (key ∷ keys) = latest_from (keep_parsed (time_of key) key per) keys

-- `_latest_snapshot_per_bucket`
unfoldable pub latest_snapshot_per_bucket : List Text → PerBucket
latest_snapshot_per_bucket keys = latest_from [] keys

abbrev pub is_earlier : Text × Snapshot → Text × Snapshot → Bool
is_earlier a b = ltb (instant a.1.0) (instant b.1.0)

-- `_read_station_count`: of the sibling object, 0 where it is missing or holds no count
abbrev pub count_in : Option Json → ℤ
count_in none = pos 0
count_in (some meta) = elim (as_dict meta) [
  | none ↦ pos 0
  | some fs ↦ elim (as_int (get_or_null "station_count" fs)) [ none ↦ pos 0 | some n ↦ n ]
]

abbrev pub meta_key : Text → Text
meta_key key = take (length key - 5) key ++ codes ".meta.json"

pub record TilesetEntry : Type 0 where
  pub tileset_id : Text
  pub scraped_at : DateTime
  pub station_count : ℤ

abbrev pub entries_of : (Text → Document) → PerBucket → List TilesetEntry
entries_of body [] = []
entries_of body ((bucket, (ts, key)) ∷ per) =
    record { tileset_id = bucket; scraped_at = ts; station_count = count_in (body (meta_key key)) }
    ∷ entries_of body per

-- `compute_tilesets_entries`
unfoldable pub compute_tilesets_entries : (Text → Document) → List Text → List TilesetEntry
compute_tilesets_entries body keys =
    entries_of body (sort is_earlier (latest_snapshot_per_bucket keys))

abbrev pub snapshots : PerBucket → List Snapshot
snapshots [] = []
snapshots ((b, (u, k)) ∷ per) = (u, k) ∷ snapshots per

abbrev pub is_newer : Snapshot → Snapshot → Bool
is_newer a b = ltb (instant b.0) (instant a.0)

abbrev pub keys_of : List Snapshot → List Text
keys_of [] = []
keys_of ((u, k) ∷ ss) = k ∷ keys_of ss

-- `recent_snapshot_keys`
unfoldable pub recent_snapshot_keys : ℕ → List Text → List Text
recent_snapshot_keys window keys =
    keys_of (take window (sort is_newer (snapshots (latest_snapshot_per_bucket keys))))

-- `startswith`
abbrev pub starts_text : Text → Text → Bool
starts_text k [] = true
starts_text [] (p ∷ ps) = false
starts_text (c ∷ cs) (p ∷ ps) = c == p && starts_text cs ps

-- the one prefix of `day_prefixes_covering(target, target)`
unfoldable pub day_prefix : DateTime → Text
day_prefix t =
    codes "weather-stations/snapshots/"
    ++ (four_digits t.year ++ (b'/' ∷ two_digits t.month ++ (b'/' ∷ two_digits t.day ++ b'/' ∷ [])))

-- `_list_snapshot_keys_for_window(target, target)`, of a store that holds the keys
abbrev pub keys_under : Text → List Text → List Text
keys_under prefix [] = []
keys_under prefix (key ∷ keys) =
    let rest = keys_under prefix keys in if starts_text key prefix then key ∷ rest else rest

-- not `ts < target or ts >= bucket_end`
abbrev pub is_within : DateTime → DateTime → Bool
is_within target ts = leb (instant target) (instant ts) && ltb (instant ts) (instant target + 3600)

abbrev pub newest : Option Snapshot → DateTime → Text → Option Snapshot
newest none ts key = some (ts, key)
newest (some (u, k)) ts key = if later_than ts u then some (ts, key) else some (u, k)

abbrev pub consider : DateTime → Option DateTime → Text → Option Snapshot → Option Snapshot
consider target none key best = best
consider target (some ts) key best = if is_within target ts then newest best ts key else best

abbrev pub best_from : DateTime → Option Snapshot → List Text → Option Snapshot
best_from target best [] = best
best_from target best (key ∷ keys) = best_from target (consider target (time_of key) key best) keys

abbrev pub key_of : Option Snapshot → Option Text
key_of none = none
key_of (some (u, k)) = some k

-- `_resolve_bucket_snapshot_key`
unfoldable pub resolve_bucket_snapshot_key : DateTime → List Text → Option Text
resolve_bucket_snapshot_key target keys =
    key_of (best_from target none (keys_under (day_prefix target) keys))
