-- ===== src/Stations/Calendar/Order.antt =====
-- The days of the calendar are numbered one by one, and the hours of a day fill it.
use data_service.Common.{
  ℕ, zero, suc, ◌+◌, ◌≤◌, ◌<◌, ◌≡◌, ◌⊎◌, refl, sym, ap, ◌∙◌, Bool, true, ◌&&◌, ltb, leb, ◌==◌,
  if◌then◌else◌, arith, Bool-cases, inl, inr, leb→le, ltb→lt,
}
use mathlib.Core.Path.{subst}
use data_service.Stations.Calendar.{
  DateTime, is_leap, days_in_month, days_before_year, days_before_month, to_ordinal, is_valid,
  instant, same_day,
}

order : (a b : ℕ) → ((a < b) ⊎ (b < a)) ⊎ (a ≡ b)
order a b = elim (Bool-cases (ltb a b)) [
  | inl lt ↦ inl (inl (ltb→lt a b lt))
  | inr ge ↦ elim (Bool-cases (ltb b a)) [
    | inl gt ↦ inl (inr (ltb→lt b a gt))
    | inr le ↦ inr (ground (arith, ge, le))
  ]
]

days_before_month_mono : (y a b : ℕ) → a ≤ b → days_before_month y a ≤ days_before_month y b
days_before_month_mono y a zero h = let e : a ≡ 0 = omega arith in rw e (omega arith)
days_before_month_mono y a (suc b) h = elim (Bool-cases (leb a b)) [
  | inl le ↦ omega (arith, days_before_month_mono y a b (leb→le a b le))
  | inr gt ↦ let e : a ≡ suc b = ground (arith, gt) in rw e (omega arith)
]

days_before_year_mono : (a b : ℕ) → a ≤ b → days_before_year a ≤ days_before_year b
days_before_year_mono a zero h = let e : a ≡ 0 = omega arith in rw e (omega arith)
days_before_year_mono a (suc b) h = elim (Bool-cases (leb a b)) [
  | inl le ↦ omega (arith, days_before_year_mono a b (leb→le a b le))
  | inr gt ↦ let e : a ≡ suc b = ground (arith, gt) in rw e (omega arith)
]

-- the months of a year fill it, after the 31 days of a month 0
year_length : (y : ℕ) → days_before_month y 13 ≡ 31 + (if is_leap y then 366 else 365)
year_length y = elim (Bool-cases (is_leap y)) [
  | inl leap ↦ rw leap refl
  | inr common ↦ rw common refl
]

pub record IsDay (y m d : ℕ) : Type 0 where
  pub first_month : 1 ≤ m
  pub last_month : m ≤ 12
  pub first_day : 1 ≤ d
  pub last_day : d ≤ days_in_month y m

within_year :
    (y m d : ℕ)
    → IsDay y m d
    → (31 < days_before_month y m + d) × (days_before_month y m + d ≤ days_before_month y 13)
within_year y m d v = (
  omega (arith, days_before_month_mono y 1 m v.first_month, v.first_day),
  omega (arith, days_before_month_mono y (suc m) 13 (omega (arith, v.last_month)), v.last_day),
)

-- a day of an earlier year comes earlier
year-lt :
    (y m d y' m' d' : ℕ)
    → IsDay y m d
    → IsDay y' m' d'
    → y < y'
    → to_ordinal y m d < to_ordinal y' m' d'
unfolding to_ordinal
year-lt y m d y' m' d' v v' h =
    let up = days_before_year_mono (suc y) y' h in
    let (_, end_of) = within_year y m d v in
    let (begin_of, _) = within_year y' m' d' v' in
    let len = year_length y in omega (arith, up, end_of, begin_of, len)

month-lt :
    (y m d m' d' : ℕ) → IsDay y m d → IsDay y m' d' → m < m' → to_ordinal y m d < to_ordinal y m' d'
unfolding to_ordinal
month-lt y m d m' d' v v' h =
    omega (arith, days_before_month_mono y (suc m) m' h, v.last_day, v'.first_day)

-- Different days have different numbers.
pub to_ordinal-injective :
    (y m d y' m' d' : ℕ)
    → IsDay y m d
    → IsDay y' m' d'
    → to_ordinal y m d ≡ to_ordinal y' m' d'
    → (y ≡ y') × (m ≡ m') × (d ≡ d')
unfolding to_ordinal
to_ordinal-injective y m d y' m' d' v v' e = elim (order y y') [
  | inl (inl before) ↦ absurd (omega (arith, year-lt y m d y' m' d' v v' before))
  | inl (inr after) ↦ absurd (omega (arith, year-lt y' m' d' y m d v' v after))
  | inr same ↦
      let v'' : IsDay y m' d' = subst (λ z. IsDay z m' d') (sym same) v' in
      let e' : to_ordinal y m d ≡ to_ordinal y m' d' =
        e ∙ ap (λ z. to_ordinal z m' d') (sym same) in
      elim (order m m') [
        | inl (inl before) ↦ absurd (omega (arith, month-lt y m d m' d' v v'' before))
        | inl (inr after) ↦ absurd (omega (arith, month-lt y m' d' m d v'' v after))
        | inr equal ↦
            let e'' : to_ordinal y m d ≡ to_ordinal y m d' =
              e' ∙ ap (λ z. to_ordinal y z d') (sym equal) in
            (same, equal, omega arith)
      ]
]

-- the parts of a valid time
pub record IsTime (t : DateTime) : Type 0 where
  pub on_day : IsDay t.year t.month t.day
  pub year_four_digits : t.year ≤ 9999
  pub hours : t.hour < 24
  pub minutes : t.minute < 60
  pub seconds : t.second < 60

pub is_valid-IsTime : (t : DateTime) → is_valid t ≡ true → IsTime t
is_valid-IsTime t h = record {
  on_day = record {
    first_month = ground arith;
    last_month = ground arith;
    first_day = ground arith;
    last_day = leb→le t.day (days_in_month t.year t.month) (ground arith);
  };
  year_four_digits = ground arith;
  hours = ground arith;
  minutes = ground arith;
  seconds = ground arith;
}

-- the same hour of the same day
abbrev pub same_hour : DateTime → DateTime → Bool
same_hour t u = same_day t u && t.hour == u.hour

pub same_hour-eq :
    (t u : DateTime)
    → same_hour t u ≡ true
    → (t.year ≡ u.year) × (t.month ≡ u.month) × (t.day ≡ u.day) × (t.hour ≡ u.hour)
same_hour-eq t u h = (ground arith, ground arith, ground arith, ground arith)

pub eq-same_hour :
    (t u : DateTime)
    → t.year ≡ u.year
    → t.month ≡ u.month
    → t.day ≡ u.day
    → t.hour ≡ u.hour
    → same_hour t u ≡ true
eq-same_hour t u y m d h = ground arith

same_hour-bounds :
    (t u : DateTime)
    → IsTime t
    → u.minute ≡ 0
    → u.second ≡ 0
    → same_hour t u ≡ true
    → (instant u ≤ instant t) × (instant t < instant u + 3600)
unfolding instant
same_hour-bounds t u vt m s h =
    let (y, mo, d, ho) = same_hour-eq t u h in
    let e : to_ordinal t.year t.month t.day ≡ to_ordinal u.year u.month u.day = cc (y, mo, d) in
    (omega (arith, e, ho), omega (arith, e, ho, vt.minutes, vt.seconds))

bounds-same_hour :
    (t u : DateTime)
    → IsTime t
    → IsTime u
    → u.minute ≡ 0
    → u.second ≡ 0
    → instant u ≤ instant t
    → instant t < instant u + 3600
    → same_hour t u ≡ true
unfolding instant
bounds-same_hour t u vt vu m s le lt =
    let e : to_ordinal t.year t.month t.day ≡ to_ordinal u.year u.month u.day =
      omega (arith, vt.hours, vt.minutes, vt.seconds, vu.hours) in
    let (y, mo, d) =
      to_ordinal-injective t.year t.month t.day u.year u.month u.day vt.on_day vu.on_day e in
    eq-same_hour t u y mo d (omega (arith, e, vt.hours, vt.minutes, vt.seconds, vu.hours))

-- Between a full hour and the next lie the times of that hour of that day.
pub instant-same_hour :
    (t u : DateTime)
    → IsTime t
    → IsTime u
    → u.minute ≡ 0
    → u.second ≡ 0
    → (leb (instant u) (instant t) && ltb (instant t) (instant u + 3600)) ≡ same_hour t u
instant-same_hour t u vt vu m s = elim (Bool-cases (same_hour t u)) [
  | inl same ↦ let (le, lt) = same_hour-bounds t u vt m s same in ground (arith, same)
  | inr other ↦
      elim (Bool-cases (leb (instant u) (instant t) && ltb (instant t) (instant u + 3600))) [
        | inr out ↦ out ∙ sym other
        | inl within ↦
            let le : instant u ≤ instant t = ground arith in
            let lt : instant t < instant u + 3600 = ground arith in
            cc (bounds-same_hour t u vt vu m s le lt)
      ]
]
