-- ===== src/BasemapConfig/Tiles.antt =====
-- The tiles that `iter_tiles` yields, counted and located.
use data_service.Common.{
  All, All-append, All-mono, ℕ, zero, suc, ◌+◌, ◌-◌, ◌*◌, ◌^◌, ◌≤◌, ◌<◌, ◌≡◌, refl, ◌∙◌, true, some,
  List, [], ◌∷◌, arith, length, length-append, ap, get_elem?, get_elem?-append_left,
  get_elem?-append_right, Bool-cases, inl, inr,
}
use mathlib.Core.Path.{ap₂}
use native.Mathlib.Nat.{pow-suc}
use data_service.Common.Int.{ℤ, pos, negsuc, stop, min_ℤ}
use data_service.BasemapConfig.{
  lon_to_tile_x, lat_to_tile_y, BoundingBox, tile_range, iter_tiles, count_tiles, columns, column,
  count_up, range, below, tms_y_flip,
}

length-count_up : (start n : ℕ) → length (count_up start n) ≡ n
length-count_up start zero = refl
length-count_up start (suc n) = ap suc (length-count_up (start + 1) n)

length-column : (z x : ℕ) (ys : List ℕ) → length (column z x ys) ≡ length ys
length-column z x [] = refl
length-column z x (y ∷ ys) = ap suc (length-column z x ys)

length-columns : (z : ℕ) (xs ys : List ℕ) → length (columns z xs ys) ≡ length xs * length ys
length-columns z [] ys = omega arith
length-columns z (x ∷ xs) ys = omega (
  arith,
  length-append (column z x ys) (columns z xs ys),
  length-column z x ys,
  length-columns z xs ys,
)

span-zero : (a : ℤ) (n : ℕ) → below a n ≡ true → stop a - n ≡ 0
span-zero (pos a) n h = ground arith
span-zero (negsuc a) n h = omega arith

-- `count_tiles` is the number of tiles that `iter_tiles` yields, for every zoom and box.
pub count_tiles-length :
    (mercator : ℤ → ℤ) (zoom : ℕ) (bbox : BoundingBox)
    → count_tiles mercator zoom bbox ≡ length (iter_tiles mercator zoom bbox)
unfolding count_tiles iter_tiles
count_tiles-length mercator zoom bbox =
    let r = tile_range mercator zoom bbox in
    let w = stop r.x_max - r.x_min in
    let h = stop r.y_max - r.y_min in
    let total : length (columns zoom (count_up r.x_min w) (count_up r.y_min h)) ≡ w * h =
      length-columns zoom (count_up r.x_min w) (count_up r.y_min h)
      ∙ ap₂ (λ a b. a * b) (length-count_up r.x_min w) (length-count_up r.y_min h) in
    elim (Bool-cases (below r.x_max r.x_min)) [
      | inl empty ↦
          let none_wide = span-zero r.x_max r.x_min empty in
          rw (empty, total, none_wide) (omega arith)
      | inr wide ↦ elim (Bool-cases (below r.y_max r.y_min)) [
        | inl empty ↦
            let none_high = span-zero r.y_max r.y_min empty in
            rw (wide, empty, total, none_high) (omega arith)
        | inr high ↦ rw (wide, high, total)
      ]
    ]

next_column : (x h y : ℕ) → suc x * h + y - h ≡ x * h + y
next_column x h y = let e : suc x * h ≡ x * h + h = omega arith in omega arith

get_elem?-column :
    (z x start n i : ℕ)
    → i < n
    → get_elem? (column z x (count_up start n)) i ≡ some (z, x, start + i)
get_elem?-column z x start zero i h = absurd (omega arith)
get_elem?-column z x start (suc n) zero h = let e : start + 0 ≡ start = omega arith in rw e
get_elem?-column z x start (suc n) (suc i) h =
    let e : start + 1 + i ≡ start + suc i = omega arith in
    rw (← e) (get_elem?-column z x (start + 1) n i (omega arith))

-- the tiles of `w` columns of height `h` are numbered column by column
get_elem?-columns :
    (z w x0 y0 h x y : ℕ)
    → x < w
    → y < h
    → get_elem? (columns z (count_up x0 w) (count_up y0 h)) (x * h + y) ≡ some (z, x0 + x, y0 + y)
get_elem?-columns z zero x0 y0 h x y p q = absurd (omega arith)
get_elem?-columns z (suc w) x0 y0 h zero y p q =
    let ys = count_up y0 h in
    let high : length (column z x0 ys) ≡ h = length-column z x0 ys ∙ length-count_up y0 h in
    let e : 0 * h + y ≡ y = omega arith in
    let e' : x0 + 0 ≡ x0 = omega arith in
    rw (e, e')
      (get_elem?-append_left (column z x0 ys) (columns z (count_up (x0 + 1) w) ys) y
          (omega (arith, high))
        ∙ get_elem?-column z x0 y0 h y q)
get_elem?-columns z (suc w) x0 y0 h (suc x) y p q =
    let ys = count_up y0 h in
    let high : length (column z x0 ys) ≡ h = length-column z x0 ys ∙ length-count_up y0 h in
    let i = suc x * h + y in
    let over : h ≤ suc x * h + y = grind arith in
    let e : suc x * h + y - length (column z x0 ys) ≡ x * h + y = rw high (next_column x h y) in
    let e' : x0 + 1 + x ≡ x0 + suc x = omega arith in
    get_elem?-append_right (column z x0 ys) (columns z (count_up (x0 + 1) w) ys) (suc x * h + y)
      (rw high over)
    ∙ rw (e, ← e') (get_elem?-columns z w (x0 + 1) y0 h x y (omega arith) q)

-- Every tile of the box's range is yielded, at the index of its place counted column by column: the
-- index alone names the tile, from one run to the next.
pub iter_tiles-at :
    (mercator : ℤ → ℤ) (zoom : ℕ) (bbox : BoundingBox) (x y : ℕ)
    → (tile_range mercator zoom bbox).x_min ≤ x
    → x < stop (tile_range mercator zoom bbox).x_max
    → (tile_range mercator zoom bbox).y_min ≤ y
    → y < stop (tile_range mercator zoom bbox).y_max
    → (let r = tile_range mercator zoom bbox in
        get_elem?
          (iter_tiles mercator zoom bbox)
          ((x - r.x_min) * (stop r.y_max - r.y_min) + (y - r.y_min))
        ≡ some (zoom, x, y))
unfolding iter_tiles
iter_tiles-at mercator zoom bbox x y xl xh yl yh =
    let r = tile_range mercator zoom bbox in
    let w = stop r.x_max - r.x_min in
    let h = stop r.y_max - r.y_min in
    let ex : r.x_min + (x - r.x_min) ≡ x = omega arith in
    let ey : r.y_min + (y - r.y_min) ≡ y = omega arith in
    get_elem?-columns zoom w r.x_min r.y_min h (x - r.x_min) (y - r.y_min) (omega arith)
      (omega arith)
    ∙ rw (ex, ey)

-- A tile of the zoom that lies in the range given by the two pairs of bounds.
abbrev pub InRange : ℕ → ℕ → ℕ → ℕ → ℕ → (ℕ × ℕ × ℕ) → Type 0
InRange zoom x0 x1 y0 y1 (z, x, y) = (z ≡ zoom) × (x0 ≤ x) × (x < x1) × (y0 ≤ y) × (y < y1)

column-InRange :
    (z x0 x1 y0 y1 x start n : ℕ)
    → x0 ≤ x
    → x < x1
    → y0 ≤ start
    → (0 < n → start + n ≤ y1)
    → All (InRange z x0 x1 y0 y1) (column z x (count_up start n))
column-InRange z x0 x1 y0 y1 x start zero p q a b = tt
column-InRange z x0 x1 y0 y1 x start (suc n) p q a b = (
  (refl, p, q, a, omega arith),
  column-InRange z x0 x1 y0 y1 x (start + 1) n p q (omega arith) (λ h. omega arith),
)

columns-InRange :
    (z x0 x1 y0 y1 start n : ℕ) (m : ℕ)
    → x0 ≤ start
    → (0 < n → start + n ≤ x1)
    → (0 < m → y0 + m ≤ y1)
    → All (InRange z x0 x1 y0 y1) (columns z (count_up start n) (count_up y0 m))
columns-InRange z x0 x1 y0 y1 start zero m p q b = tt
columns-InRange z x0 x1 y0 y1 start (suc n) m p q b =
    All-append (InRange z x0 x1 y0 y1) (column z start (count_up y0 m))
      (columns z (count_up (start + 1) n) (count_up y0 m))
      (column-InRange z x0 x1 y0 y1 start y0 m p (omega arith) (omega arith) b)
      (columns-InRange z x0 x1 y0 y1 (start + 1) n m (omega arith) (λ h. omega arith) b)

stop-min : (n : ℕ) (a : ℤ) → stop (min_ℤ n a) ≤ n + 1
stop-min n (pos a) = omega arith
stop-min n (negsuc a) = omega arith

pow_pos : (n : ℕ) → 0 < 2 ^ n
pow_pos zero = omega arith
pow_pos (suc n) = simp pow-suc (omega (arith, pow_pos n))

in_world :
    (z x0 x1 y0 y1 : ℕ)
    → x1 ≤ 2 ^ z
    → y1 ≤ 2 ^ z
    → (t : ℕ × ℕ × ℕ) → InRange z x0 x1 y0 y1 t
    → InRange z x0 x1 y0 y1 t × InRange z 0 (2 ^ z) 0 (2 ^ z) t
in_world z x0 x1 y0 y1 p q (a, x, y) h =
    (h, (h.0, omega arith, omega arith, omega arith, omega arith))

region :
    (z x0 x1 y0 y1 : ℕ)
    → x1 ≤ 2 ^ z
    → y1 ≤ 2 ^ z
    → All
        (λ t. InRange z x0 x1 y0 y1 t × InRange z 0 (2 ^ z) 0 (2 ^ z) t)
        (columns z (range x0 x1) (range y0 y1))
region z x0 x1 y0 y1 p q =
    All-mono (InRange z x0 x1 y0 y1)
      (λ t. InRange z x0 x1 y0 y1 t × InRange z 0 (2 ^ z) 0 (2 ^ z) t)
      (columns z (range x0 x1) (range y0 y1)) (in_world z x0 x1 y0 y1 p q)
      (columns-InRange z x0 x1 y0 y1 x0 (x1 - x0) (y1 - y0) (omega arith) (λ h. omega arith)
        (λ h. omega arith))

-- `iter_tiles` yields no tile outside the box's range, nor one that does not exist at the zoom.
pub iter_tiles-InRange :
    (mercator : ℤ → ℤ) (zoom : ℕ) (bbox : BoundingBox)
    → (let r = tile_range mercator zoom bbox in
        All
          (λ t.
            InRange zoom r.x_min (stop r.x_max) r.y_min (stop r.y_max) t
            × InRange zoom 0 (2 ^ zoom) 0 (2 ^ zoom) t)
          (iter_tiles mercator zoom bbox))
unfolding iter_tiles tile_range
iter_tiles-InRange mercator zoom bbox =
    let r = tile_range mercator zoom bbox in
    region zoom r.x_min (stop r.x_max) r.y_min (stop r.y_max)
      (omega (arith, stop-min (2 ^ zoom - 1) (lon_to_tile_x bbox.lon_max zoom), pow_pos zoom))
      (omega
        (arith, stop-min (2 ^ zoom - 1) (lat_to_tile_y mercator bbox.lat_min zoom), pow_pos zoom))

-- The TMS row of a tile is a row of the same zoom, and flipping it again gives the tile's row back.
pub tms_y_flip-involutive :
    (y zoom : ℕ)
    → y < 2 ^ zoom
    → (tms_y_flip y zoom < 2 ^ zoom) × (tms_y_flip (tms_y_flip y zoom) zoom ≡ y)
unfolding tms_y_flip
tms_y_flip-involutive y zoom h = omega arith
