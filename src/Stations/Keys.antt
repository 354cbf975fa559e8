-- ===== src/Stations/Keys.antt =====
-- The names of the snapshots: `_snapshot_key` of src/services/weather_stations_scraper_service.py, and
-- the parsers and `tileset_id_for` of src/services/weather_stations_cache.py. A text is the list of its
-- code points, and `\d` is an ASCII digit.
pub mod RoundTrip
use data_service.Common.{
  ℕ, zero, suc, ◌+◌, ◌-◌, ◌*◌, ◌/◌, ◌%◌, String, Bool, true, false, not, ◌&&◌, ◌||◌, Option, none,
  some, List, [], ◌∷◌, ◌++◌, length, take, drop, ltb, leb, ◌==◌, if◌then◌else◌,
}
pub use data_service.Common.Text.{Text, codes, eq_text}
use data_service.Stations.Calendar.{DateTime, is_valid}

infixl 5 ◌>>=◌
abbrev pub ◌>>=◌ {ℓ κ} : {A : Type ℓ} {B : Type κ} → Option A → (A → Option B) → Option B
none >>= f = none
some a >>= f = f a

-- `%m` and the like, and `%Y` of a year with four digits
abbrev pub two_digits : ℕ → Text
two_digits n = (48 + n / 10) ∷ (48 + n % 10) ∷ []

abbrev pub four_digits : ℕ → Text
four_digits n = (48 + n / 1000) ∷ (48 + n / 100 % 10) ∷ (48 + n / 10 % 10) ∷ (48 + n % 10) ∷ []

-- `%Y%m%d`
abbrev pub date_digits : DateTime → Text
date_digits t = four_digits t.year ++ (two_digits t.month ++ two_digits t.day)

-- `%Y/%m/%d/%H`
abbrev pub date_path : DateTime → Text
date_path t =
    four_digits t.year
    ++ (b'/' ∷ two_digits t.month ++ (b'/' ∷ two_digits t.day ++ (b'/' ∷ two_digits t.hour)))

-- `%Y%m%dT%H%M%SZ`
abbrev pub stamp : DateTime → Text
stamp t =
    date_digits t
    ++ (b'T' ∷ two_digits t.hour ++ (two_digits t.minute ++ (two_digits t.second ++ b'Z' ∷ [])))

-- `_snapshot_key`
unfoldable pub snapshot_key : DateTime → Text
snapshot_key t =
    codes "weather-stations/snapshots/" ++ (date_path t ++ (b'/' ∷ stamp t ++ codes ".json"))

-- `tileset_id_for`
unfoldable pub tileset_id_for : DateTime → Text
tileset_id_for t = date_digits t ++ (b'T' ∷ two_digits t.hour ++ codes "00Z")

abbrev pub digit : ℕ → Option ℕ
digit c = if leb 48 c && leb c 57 then some (c - 48) else none

abbrev pub two : ℕ → ℕ → Option ℕ
two a b = do x ← digit a; y ← digit b; some (x * 10 + y)

abbrev pub four : ℕ → ℕ → ℕ → ℕ → Option ℕ
four a b c d = do x ← two a b; y ← two c d; some (x * 100 + y)

-- the constructor of `datetime`, which may refuse
abbrev pub date_time : ℕ → ℕ → ℕ → ℕ → ℕ → ℕ → Option DateTime
date_time y mo d h mi s =
    let t : DateTime = record {
      year = y;
      month = mo;
      day = d;
      hour = h;
      minute = mi;
      second = s;
    } in
    if is_valid t then some t else none

-- what `$` lets stand at the end
abbrev pub chomp : Text → Text
chomp [] = []
chomp (c ∷ []) = if c == 10 then [] else c ∷ []
chomp (c ∷ d ∷ ds) = c ∷ chomp (d ∷ ds)

-- `.*` stops at a line break
abbrev pub has_newline : Text → Bool
has_newline [] = false
has_newline (c ∷ cs) = c == 10 || has_newline cs

-- the end of a snapshot's name, from the last `/` on
abbrev pub parse_name : Text → Option DateTime
parse_name
      (slash ∷ y1 ∷ y2 ∷ y3 ∷ y4 ∷ m1 ∷ m2 ∷ d1 ∷ d2 ∷ t ∷ h1 ∷ h2 ∷ n1 ∷ n2 ∷ s1 ∷ s2 ∷ z
        ∷ suffix) =
    if slash == b'/' && t == b'T' && z == b'Z' && eq_text suffix (codes ".json")
    then (do
      y ← four y1 y2 y3 y4
      mo ← two m1 m2
      d ← two d1 d2
      h ← two h1 h2
      mi ← two n1 n2
      s ← two s1 s2
      date_time y mo d h mi s)
    else none
parse_name _ = none

-- `parse_snapshot_key`: the last 22 characters are the name and its `/`
unfoldable pub parse_snapshot_key : Text → Option DateTime
parse_snapshot_key k =
    let whole = chomp k in
    let dirs = length whole - 22 in
    if has_newline (take dirs whole) then none else parse_name (drop dirs whole)

abbrev pub parse_id : Text → Option DateTime
parse_id (y1 ∷ y2 ∷ y3 ∷ y4 ∷ m1 ∷ m2 ∷ d1 ∷ d2 ∷ t ∷ h1 ∷ h2 ∷ n1 ∷ n2 ∷ z ∷ []) =
    if t == b'T' && z == b'Z'
    then (do
      y ← four y1 y2 y3 y4
      mo ← two m1 m2
      d ← two d1 d2
      h ← two h1 h2
      mi ← two n1 n2
      date_time y mo d h mi 0)
    else none
parse_id _ = none

-- `parse_tileset_id`; `none` is `TilesetIdFormatError`
unfoldable pub parse_tileset_id : Text → Option DateTime
parse_tileset_id tileset_id = parse_id (chomp tileset_id)

-- `key.endswith(".meta.json")`
abbrev pub is_meta : Text → Bool
is_meta k = leb 10 (length k) && eq_text (drop (length k - 10) k) (codes ".meta.json")
