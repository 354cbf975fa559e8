-- ===== src/Stations/Buckets/Latest.antt =====
-- The listing and the reader name the same snapshot for an hour.
use data_service.Common.{
  ◌≡◌, refl, sym, ap, ◌∙◌, Bool, true, false, Option, none, some, List, [], ◌∷◌, ◌++◌,
  if◌then◌else◌, arith, Bool-cases, Option-cases, inl, inr, All, if_both, ◌≤◌,
}
use data_service.Common.Text.{eq_text_iff}
use data_service.Stations.Calendar.{DateTime, is_valid, instant}
use data_service.Stations.Calendar.Order.{
  is_valid-IsTime, same_hour, same_hour-eq, instant-same_hour,
}
use data_service.Stations.Keys.{
  Text, codes, eq_text, two_digits, stamp, parse_tileset_id, tileset_id_for, snapshot_key, is_meta,
}
use data_service.Stations.Keys.RoundTrip.{parse-tileset_id_for, parse_snapshot_key-is_valid}
use data_service.Stations.Buckets.{
  Snapshot, PerBucket, keep_latest, keep_parsed, time_of, latest_from, latest_snapshot_per_bucket,
  later_than, starts_text, day_prefix, keys_under, is_within, newest, consider, best_from, key_of,
  resolve_bucket_snapshot_key,
}

-- `per_bucket.get(bucket)`
abbrev pub find : Text → PerBucket → Option Snapshot
find bucket [] = none
find bucket ((b, s) ∷ per) = if eq_text b bucket then some s else find bucket per

find-keep_latest :
    (bucket b : Text) (ts : DateTime) (key : Text) (per : PerBucket)
    → find bucket (keep_latest b ts key per)
      ≡ (if eq_text b bucket then newest (find bucket per) ts key else find bucket per)
find-keep_latest bucket b ts key [] = refl
find-keep_latest bucket b ts key ((c, (u, k)) ∷ per) = ground (
  arith,
  find-keep_latest bucket b ts key per,
  eq_text_iff c b,
  eq_text_iff b bucket,
  eq_text_iff c bucket,
)

same_hour-id : (t u : DateTime) → same_hour t u ≡ true → tileset_id_for t ≡ tileset_id_for u
unfolding tileset_id_for
same_hour-id t u same = let (y, m, d, h) = same_hour-eq t u same in cc (y, m, d, h)

hour_of_eq :
    (t u : DateTime)
    → Path
        (Option DateTime)
        (some (record t { minute = 0; second = 0 }))
        (some (record u { minute = 0; second = 0 }))
    → same_hour t u ≡ true
hour_of_eq t u e = ground arith

-- Two times have one id exactly where they share their hour.
eq_text-tileset_id_for :
    (t u : DateTime)
    → is_valid t ≡ true
    → is_valid u ≡ true
    → eq_text (tileset_id_for t) (tileset_id_for u) ≡ same_hour t u
eq_text-tileset_id_for t u vt vu = elim (Bool-cases (same_hour t u)) [
  | inl same ↦
      (eq_text_iff (tileset_id_for t) (tileset_id_for u)).1 (same_hour-id t u same) ∙ sym same
  | inr other ↦ elim (Bool-cases (eq_text (tileset_id_for t) (tileset_id_for u))) [
    | inr differ ↦ differ ∙ sym other
    | inl equal ↦
        let e = (eq_text_iff (tileset_id_for t) (tileset_id_for u)).0 equal in
        cc (
          hour_of_eq t u
            (sym (parse-tileset_id_for t vt) ∙ ap parse_tileset_id e ∙ parse-tileset_id_for u vu))
  ]
]

starts_text-append : (p q : Text) → starts_text (p ++ q) p ≡ true
starts_text-append [] q = refl
starts_text-append (a ∷ p) q = ground (arith, starts_text-append p q)

snapshot_key_in_day : (t : DateTime) → starts_text (snapshot_key t) (day_prefix t) ≡ true
unfolding snapshot_key day_prefix
snapshot_key_in_day t =
    starts_text-append (day_prefix t) (two_digits t.hour ++ (b'/' ∷ stamp t ++ codes ".json"))

-- a snapshot of the target's day has the day's prefix
in_day :
    (t u : DateTime) → same_hour t u ≡ true → starts_text (snapshot_key t) (day_prefix u) ≡ true
unfolding day_prefix
in_day t u same =
    let (y, m, d, h) = same_hour-eq t u same in
    let e : day_prefix t ≡ day_prefix u = cc (y, m, d) in
    ap (starts_text (snapshot_key t)) (sym e) ∙ snapshot_key_in_day t

-- a key with a snapshot's time is the one that the scraper gives
abbrev pub is_own_at : Option DateTime → Text → Bool
is_own_at none key = true
is_own_at (some ts) key = eq_text key (snapshot_key ts)

abbrev pub is_own : Text → Bool
is_own key = is_own_at (time_of key) key

time_of-is_valid : (key : Text) (ts : DateTime) → time_of key ≡ some ts → is_valid ts ≡ true
time_of-is_valid key ts e = elim (Bool-cases (is_meta key)) [
  | inl meta ↦ absurd (ground (arith, meta))
  | inr snapshot ↦ parse_snapshot_key-is_valid key ts (rw snapshot at e)
]

module _ (target : DateTime) (valid : is_valid target ≡ true) (full_minute : target.minute ≡ 0)
    (full_second : target.second ≡ 0) where
  within-same_hour :
      (ts : DateTime) → is_valid ts ≡ true → is_within target ts ≡ same_hour ts target
  within-same_hour ts v =
      instant-same_hour ts target (is_valid-IsTime ts v) (is_valid-IsTime target valid) full_minute
        full_second

  find-keep_parsed :
      (key : Text) (per : PerBucket)
      → find (tileset_id_for target) (keep_parsed (time_of key) key per)
        ≡ consider target (time_of key) key (find (tileset_id_for target) per)
  find-keep_parsed key per = elim (Option-cases (time_of key)) [
    | inl skipped ↦ rw skipped refl
    | inr (ts, e) ↦
        let v = time_of-is_valid key ts e in
        let test : eq_text (tileset_id_for ts) (tileset_id_for target) ≡ is_within target ts =
          eq_text-tileset_id_for ts target v valid ∙ sym (within-same_hour ts v) in
        rw e (
          find-keep_latest (tileset_id_for target) (tileset_id_for ts) ts key per
          ∙ ap
              (λ b.
                if b
                then newest (find (tileset_id_for target) per) ts key
                else find (tileset_id_for target) per)
              test)
  ]

  find-latest_from :
      (keys : List Text) (per : PerBucket)
      → find (tileset_id_for target) (latest_from per keys)
        ≡ best_from target (find (tileset_id_for target) per) keys
  find-latest_from [] per = refl
  find-latest_from (key ∷ keys) per =
      find-latest_from keys (keep_parsed (time_of key) key per)
      ∙ ap (λ b. best_from target b keys) (find-keep_parsed key per)

  -- what the day's listing leaves out would not be considered
  consider_other_day :
      (key : Text) (best : Option Snapshot)
      → is_own key ≡ true
      → starts_text key (day_prefix target) ≡ false
      → consider target (time_of key) key best ≡ best
  consider_other_day key best own out = elim (Option-cases (time_of key)) [
    | inl skipped ↦ rw skipped refl
    | inr (ts, e) ↦
        let v = time_of-is_valid key ts e in
        let named = (eq_text_iff key (snapshot_key ts)).0 (rw e at own) in
        elim (Bool-cases (same_hour ts target)) [
          | inl same ↦ cc (
              sym (in_day ts target same)
              ∙ ap (λ k. starts_text k (day_prefix target)) (sym named)
              ∙ out)
          | inr other ↦ rw (e, within-same_hour ts v ∙ other) refl
        ]
  ]

  best_from-keys_under :
      (keys : List Text) (best : Option Snapshot)
      → All (λ key. is_own key ≡ true) keys
      → best_from target best (keys_under (day_prefix target) keys) ≡ best_from target best keys
  best_from-keys_under [] best own = refl
  best_from-keys_under (key ∷ keys) best own =
      elim (Bool-cases (starts_text key (day_prefix target))) [
        | inl inside ↦
            rw inside (best_from-keys_under keys (consider target (time_of key) key best) own.1)
        | inr outside ↦ rw outside (
            best_from-keys_under keys best own.1
            ∙ ap (λ b. best_from target b keys) (sym (consider_other_day key best own.0 outside)))
      ]

  -- The reader resolves the id of a full hour to the key that the listing of the tilesets keeps for the
  -- hour, if the keys with a snapshot's time are named as the scraper names them.
  pub resolve-latest_snapshot_per_bucket :
      (keys : List Text)
      → All (λ key. is_own key ≡ true) keys
      → resolve_bucket_snapshot_key target keys
        ≡ key_of (find (tileset_id_for target) (latest_snapshot_per_bucket keys))
  unfolding resolve_bucket_snapshot_key latest_snapshot_per_bucket
  resolve-latest_snapshot_per_bucket keys own =
      ap key_of (best_from-keys_under keys none own ∙ sym (find-latest_from keys []))

-- the snapshot is there, and no older than the time
abbrev pub IsCoveredBy : DateTime → Option Snapshot → Type 0
IsCoveredBy ts none = ⊥
IsCoveredBy ts (some (u, k)) = instant ts ≤ instant u

abbrev pub Covers : PerBucket → Option DateTime → Type 0
Covers per none = Unit
Covers per (some ts) = IsCoveredBy ts (find (tileset_id_for ts) per)

newest-IsCoveredBy :
    (best : Option Snapshot) (ts : DateTime) (key : Text) → IsCoveredBy ts (newest best ts key)
newest-IsCoveredBy none ts key = omega arith
newest-IsCoveredBy (some (u, k)) ts key = elim (Bool-cases (later_than ts u)) [
  | inl later ↦ rw later (omega arith)
  | inr older ↦ rw older (ground (arith, older))
]

newest-keeps :
    (best : Option Snapshot) (t ts : DateTime) (key : Text)
    → IsCoveredBy t best
    → IsCoveredBy t (newest best ts key)
newest-keeps none t ts key h = absurd h
newest-keeps (some (u, k)) t ts key h = elim (Bool-cases (later_than ts u)) [
  | inl later ↦ rw later (ground (arith, later))
  | inr older ↦ rw older h
]

keep_parsed-keeps :
    (o : Option DateTime) (key : Text) (per : PerBucket) (t : DateTime)
    → IsCoveredBy t (find (tileset_id_for t) per)
    → IsCoveredBy t (find (tileset_id_for t) (keep_parsed o key per))
keep_parsed-keeps none key per t h = h
keep_parsed-keeps (some ts) key per t h =
    rw (find-keep_latest (tileset_id_for t) (tileset_id_for ts) ts key per)
      (if_both (IsCoveredBy t) _ _ _ (newest-keeps (find (tileset_id_for t) per) t ts key h) h)

latest_from-keeps :
    (keys : List Text) (per : PerBucket) (t : DateTime)
    → IsCoveredBy t (find (tileset_id_for t) per)
    → IsCoveredBy t (find (tileset_id_for t) (latest_from per keys))
latest_from-keeps [] per t h = h
latest_from-keeps (key ∷ keys) per t h =
    latest_from-keeps keys (keep_parsed (time_of key) key per) t
      (keep_parsed-keeps (time_of key) key per t h)

keep_parsed-Covers :
    (o : Option DateTime) (key : Text) (per : PerBucket) (keys : List Text)
    → Covers (latest_from (keep_parsed o key per) keys) o
keep_parsed-Covers none key per keys = tt
keep_parsed-Covers (some ts) key per keys =
    let b = tileset_id_for ts in
    latest_from-keeps keys (keep_latest b ts key per) ts (
      rw (find-keep_latest b b ts key per, (eq_text_iff b b).1 refl)
        (newest-IsCoveredBy (find b per) ts key))

latest_from-Covers :
    (keys : List Text) (per : PerBucket)
    → All (λ key. Covers (latest_from per keys) (time_of key)) keys
latest_from-Covers [] per = tt
latest_from-Covers (key ∷ keys) per = (
  keep_parsed-Covers (time_of key) key per keys,
  latest_from-Covers keys (keep_parsed (time_of key) key per),
)

-- Each snapshot of the listing has a representative of its hour, which is no older.
pub latest_snapshot_per_bucket-Covers :
    (keys : List Text) → All (λ key. Covers (latest_snapshot_per_bucket keys) (time_of key)) keys
unfolding latest_snapshot_per_bucket
latest_snapshot_per_bucket-Covers keys = latest_from-Covers keys []
