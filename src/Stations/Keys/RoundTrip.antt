-- ===== src/Stations/Keys/RoundTrip.antt =====
-- The names of snapshots and of their hours are read back as the times that they were made of.
use data_service.Common.{
  ℕ, ◌+◌, ◌-◌, ◌*◌, ◌/◌, ◌%◌, ◌<◌, ◌≡◌, refl, sym, Bool-cases, inl, inr, if◌then◌else◌, length,
  take, drop, Bool, true, false, Option, none, some, ◌∷◌, ◌==◌, arith,
}
use mathlib.Core.Path.{subst}
use data_service.Stations.Calendar.{DateTime, is_valid}
use data_service.Stations.Keys.{
  Text, snapshot_key, tileset_id_for, digit, two, four, date_time, chomp, has_newline, parse_name,
  parse_snapshot_key, parse_tileset_id, ◌>>=◌,
}

digit-add : (n : ℕ) → n < 10 → digit (48 + n) ≡ some n
digit-add n h = ground arith

not_newline : (n : ℕ) → (48 + n == 10) ≡ false
not_newline n = ground arith

two-digits : (n : ℕ) → n < 100 → two (48 + n / 10) (48 + n % 10) ≡ some n
two-digits n h =
    let e : n / 10 * 10 + n % 10 ≡ n = omega arith in
    rw (digit-add (n / 10) (omega arith), digit-add (n % 10) (omega arith), e) refl

four-digits :
    (n : ℕ)
    → n < 10000
    → four (48 + n / 1000) (48 + n / 100 % 10) (48 + n / 10 % 10) (48 + n % 10) ≡ some n
four-digits n h =
    let e : (n / 1000 * 10 + n / 100 % 10) * 100 + (n / 10 % 10 * 10 + n % 10) ≡ n = omega arith in
    rw
      (
        digit-add (n / 1000) (omega arith),
        digit-add (n / 100 % 10) (omega arith),
        digit-add (n / 10 % 10) (omega arith),
        digit-add (n % 10) (omega arith),
        e,
      )
      refl

record Fits (t : DateTime) : Type 0 where
  year : t.year < 10000
  month : t.month < 100
  day : t.day < 100
  hour : t.hour < 100
  minute : t.minute < 100
  second : t.second < 100

is_valid-Fits : (t : DateTime) → is_valid t ≡ true → Fits t
is_valid-Fits t h = record {
  year = ground arith;
  month = ground arith;
  day = ground arith;
  hour = ground arith;
  minute = ground arith;
  second = ground arith;
}

full_hour-is_valid :
    (t : DateTime) → is_valid t ≡ true → is_valid (record t { minute = 0; second = 0 }) ≡ true
full_hour-is_valid t h = ground arith

module _ (t : DateTime) (valid : is_valid t ≡ true) where
  -- The key of a snapshot is read back as its time.
  pub parse-snapshot_key : parse_snapshot_key (snapshot_key t) ≡ some t
  unfolding parse_snapshot_key snapshot_key
  parse-snapshot_key =
      let f = is_valid-Fits t valid in
      simp
        (
          not_newline,
          four-digits t.year f.year,
          two-digits t.month f.month,
          two-digits t.day f.day,
          two-digits t.hour f.hour,
          two-digits t.minute f.minute,
          two-digits t.second f.second,
          valid,
        )
        refl

  pub parse-tileset_id_for :
      parse_tileset_id (tileset_id_for t) ≡ some (record t { minute = 0; second = 0 })
  unfolding parse_tileset_id tileset_id_for
  parse-tileset_id_for =
      let f = is_valid-Fits t valid in
      simp
        (
          four-digits t.year f.year,
          two-digits t.month f.month,
          two-digits t.day f.day,
          two-digits t.hour f.hour,
          full_hour-is_valid t valid,
        )
        refl

-- a result, if there is one, is a time that exists
abbrev Sure : Option DateTime → Type 0
Sure none = Unit
Sure (some t) = is_valid t ≡ true

Sure-bind {ℓ} :
    {A : Type ℓ} (m : Option A) (f : A → Option DateTime) → ((a : A) → Sure (f a)) → Sure (m >>= f)
Sure-bind none f h = tt
Sure-bind (some a) f h = h a

Sure-if : (b : Bool) (o : Option DateTime) → Sure o → Sure (if b then o else none)
Sure-if true o h = h
Sure-if false o h = tt

Sure-date_time : (y mo d h mi s : ℕ) → Sure (date_time y mo d h mi s)
Sure-date_time y mo d h mi s =
    let t : DateTime = record {
      year = y;
      month = mo;
      day = d;
      hour = h;
      minute = mi;
      second = s;
    } in
    elim (Bool-cases (is_valid t)) [
      | inl valid ↦ subst (λ b. Sure (if b then some t else none)) (sym valid) valid
      | inr invalid ↦ subst (λ b. Sure (if b then some t else none)) (sym invalid) tt
    ]

Sure-parse_name : (k : Text) → Sure (parse_name k)
Sure-parse_name
      (slash ∷ y1 ∷ y2 ∷ y3 ∷ y4 ∷ m1 ∷ m2 ∷ d1 ∷ d2 ∷ t ∷ h1 ∷ h2 ∷ n1 ∷ n2 ∷ s1 ∷ s2 ∷ z
        ∷ suffix) =
    Sure-if _ _ (
      Sure-bind (four y1 y2 y3 y4) _ λ y. Sure-bind (two m1 m2) _ λ mo. Sure-bind (two d1 d2) _ λ d.
        Sure-bind (two h1 h2) _ λ h.
          Sure-bind (two n1 n2) _ λ mi. Sure-bind (two s1 s2) _ λ s. Sure-date_time y mo d h mi s)
Sure-parse_name _ = tt

Sure-snapshot_key : (k : Text) → Sure (parse_snapshot_key k)
unfolding parse_snapshot_key
Sure-snapshot_key k = elim (Bool-cases (has_newline (take (length (chomp k) - 22) (chomp k)))) [
  | inl broken ↦ rw broken tt
  | inr whole ↦ rw whole (Sure-parse_name (drop (length (chomp k) - 22) (chomp k)))
]

pub parse_snapshot_key-is_valid :
    (k : Text) (t : DateTime) → parse_snapshot_key k ≡ some t → is_valid t ≡ true
parse_snapshot_key-is_valid k t e = subst Sure e (Sure-snapshot_key k)
