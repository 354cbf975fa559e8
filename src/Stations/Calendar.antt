-- ===== src/Stations/Calendar.antt =====
-- The part of Python's `datetime` that the stations use: the time of day in UTC, its validity, and its
-- place on the line of seconds (`toordinal`).
pub mod Order
use data_service.Common.{
  ℕ, zero, suc, ◌+◌, ◌-◌, ◌*◌, ◌/◌, ◌%◌, ◌≤◌, ◌<◌, ◌≡◌, refl, Bool, true, false, not, ◌&&◌, ◌||◌,
  ltb, leb, ◌==◌, if◌then◌else◌, arith, Bool-cases, inl, inr,
}

pub record DateTime : Type 0 where
  pub year : ℕ
  pub month : ℕ
  pub day : ℕ
  pub hour : ℕ
  pub minute : ℕ
  pub second : ℕ

abbrev pub is_leap : ℕ → Bool
is_leap y = (y % 4 == 0) && (not (y % 100 == 0) || y % 400 == 0)

abbrev pub days_in_month : ℕ → ℕ → ℕ
days_in_month y m =
    if m == 2
    then (if is_leap y then 29 else 28)
    else (if m == 4 || m == 6 || m == 9 || m == 11 then 30 else 31)

abbrev pub days_before_year : ℕ → ℕ
days_before_year zero = 0
days_before_year (suc y) = days_before_year y + (if is_leap y then 366 else 365)

abbrev pub days_before_month : ℕ → ℕ → ℕ
days_before_month y zero = 0
days_before_month y (suc m) = days_before_month y m + days_in_month y m

-- a count of days
unfoldable pub to_ordinal : ℕ → ℕ → ℕ → ℕ
to_ordinal y m d = days_before_year y + days_before_month y m + d

-- the constructor of `datetime` raises `ValueError` otherwise
abbrev pub is_valid : DateTime → Bool
is_valid t =
    leb 1 t.year
    && leb t.year 9999
    && leb 1 t.month
    && leb t.month 12
    && leb 1 t.day
    && leb t.day (days_in_month t.year t.month)
    && ltb t.hour 24
    && ltb t.minute 60
    && ltb t.second 60

-- `a < b` compares these
unfoldable pub instant : DateTime → ℕ
instant t = to_ordinal t.year t.month t.day * 86400 + t.hour * 3600 + t.minute * 60 + t.second

abbrev pub same_day : DateTime → DateTime → Bool
same_day a b = (a.year == b.year) && (a.month == b.month) && (a.day == b.day)
