-- ===== src/Common/Lists.antt =====
-- Lists measured by native numbers, with membership by a Boolean test.
use Prim.Native.Nat.{ℕ, zero, suc, ◌+◌, ◌-◌, ◌≤◌, ◌<◌}
use mathlib.Core.Path.{◌≡◌, refl}
use mathlib.Core.Bool.{Bool, true, false, ◌||◌}
use mathlib.Core.List.{List, [], ◌∷◌, ◌++◌}
use mathlib.Core.Option.{Option, none, some}
use native.Mathlib.Omega.{arith}
use mathlib.Core.Logic.{inl, inr}
use data_service.Common.Tests.{ltb, ◌==◌, if◌then◌else◌, ltb→lt, Bool-cases}

module _ {ℓ} {A : Type ℓ} where
  abbrev pub length : List A → ℕ
  length [] = 0
  length (x ∷ xs) = suc (length xs)

  abbrev pub drop : ℕ → List A → List A
  drop zero xs = xs
  drop (suc n) [] = []
  drop (suc n) (x ∷ xs) = drop n xs

  abbrev pub take : ℕ → List A → List A
  take zero xs = []
  take (suc n) [] = []
  take (suc n) (x ∷ xs) = x ∷ take n xs

  pub length-append : (xs ys : List A) → length (xs ++ ys) ≡ length xs + length ys
  length-append [] ys = omega arith
  length-append (x ∷ xs) ys = omega (arith, length-append xs ys)

  pub length-drop : (n : ℕ) (xs : List A) → length (drop n xs) ≡ length xs - n
  length-drop zero xs = omega arith
  length-drop (suc n) [] = omega arith
  length-drop (suc n) (x ∷ xs) = omega (arith, length-drop n xs)

-- The last `n` elements.
abbrev pub last_n {ℓ} : {A : Type ℓ} → ℕ → List A → List A
last_n n xs = drop (length xs - n) xs

-- The number of `true`s: Python's `sum` of a sequence of Booleans.
abbrev pub count_true : List Bool → ℕ
count_true [] = 0
count_true (true ∷ bs) = suc (count_true bs)
count_true (false ∷ bs) = count_true bs

pub count_true-append : (xs ys : List Bool) → count_true (xs ++ ys) ≡ count_true xs + count_true ys
count_true-append [] ys = omega arith
count_true-append (true ∷ xs) ys = omega (arith, count_true-append xs ys)
count_true-append (false ∷ xs) ys = omega (arith, count_true-append xs ys)

pub count_true-le : (xs : List Bool) → count_true xs ≤ length xs
count_true-le [] = omega arith
count_true-le (true ∷ xs) = omega (arith, count_true-le xs)
count_true-le (false ∷ xs) = omega (arith, count_true-le xs)

-- `x in xs`
abbrev pub contains : ℕ → List ℕ → Bool
contains a [] = false
contains a (x ∷ xs) = a == x || contains a xs

module _ {ℓ} {A : Type ℓ} where
  pub drop-append : (n : ℕ) (xs ys : List A) → n ≤ length xs → drop n (xs ++ ys) ≡ drop n xs ++ ys
  drop-append zero xs ys h = refl
  drop-append (suc n) [] ys h = elim h [ ]
  drop-append (suc n) (x ∷ xs) ys h = drop-append n xs ys (omega arith)

  pub drop-suc : (n : ℕ) (xs : List A) → drop 1 (drop n xs) ≡ drop (suc n) xs
  drop-suc zero xs = refl
  drop-suc (suc n) [] = refl
  drop-suc (suc n) (x ∷ xs) = drop-suc n xs

  -- Appending to a window of `n` and dropping the oldest where it overflows keeps the last `n`.
  pub last_n-append_one :
      (n : ℕ) (xs : List A) (x : A)
      → (let appended = last_n n xs ++ x ∷ [] in
          if ltb n (length appended) then drop 1 appended else appended)
        ≡ last_n n (xs ++ x ∷ [])
  last_n-append_one n xs x = elim (Bool-cases (ltb n (length (last_n n xs ++ x ∷ [])))) [
    | inl over ↦ rw over (window_full (sizes over))
    | inr fits ↦ rw fits (window_fits (small fits))
  ]
    where
      total : length (last_n n xs ++ x ∷ []) ≡ length xs - (length xs - n) + 1
      total = omega (arith, length-append (last_n n xs) (x ∷ []), length-drop (length xs - n) xs)

      sizes : ltb n (length (last_n n xs ++ x ∷ [])) ≡ true → n ≤ length xs
      sizes h = omega (arith, ltb→lt _ _ h, total)

      small : ltb n (length (last_n n xs ++ x ∷ [])) ≡ false → length xs < n
      small h = ground (arith, total)

      window_full : n ≤ length xs → drop 1 (last_n n xs ++ x ∷ []) ≡ last_n n (xs ++ x ∷ [])
      window_full h =
          let e : length (xs ++ x ∷ []) - n ≡ suc (length xs - n) =
            omega (arith, length-append xs (x ∷ [])) in
          rw (e, ← drop-append (length xs - n) xs (x ∷ []) (omega arith))
            (drop-suc (length xs - n) (xs ++ x ∷ []))

      window_fits : length xs < n → last_n n xs ++ x ∷ [] ≡ last_n n (xs ++ x ∷ [])
      window_fits h =
          let e : length (xs ++ x ∷ []) - n ≡ 0 = omega (arith, length-append xs (x ∷ [])) in
          let e' : length xs - n ≡ 0 = omega arith in rw (e, e')

-- A predicate on every element.
abbrev pub All {ℓ κ} : {A : Type ℓ} → (A → Type κ) → List A → Type κ
All P [] = Unit
All P (x ∷ xs) = P x × All P xs

pub drop-append_over {ℓ} :
    {A : Type ℓ} (n : ℕ) (xs ys : List A)
    → length xs ≤ n
    → drop n (xs ++ ys) ≡ drop (n - length xs) ys
drop-append_over n [] ys h = let e : n - 0 ≡ n = omega arith in rw e
drop-append_over zero (x ∷ xs) ys h = absurd (omega arith)
drop-append_over (suc n) (x ∷ xs) ys h =
    let e : suc n - suc (length xs) ≡ n - length xs = omega arith in
    rw e (drop-append_over n xs ys (omega arith))

-- Where all elements are `true`, dropping some keeps it so.
pub count_true-drop :
    (n : ℕ) (bs : List Bool)
    → count_true bs ≡ length bs
    → count_true (drop n bs) ≡ length (drop n bs)
count_true-drop zero bs h = h
count_true-drop (suc n) [] h = refl
count_true-drop (suc n) (true ∷ bs) h = count_true-drop n bs (omega arith)
count_true-drop (suc n) (false ∷ bs) h = absurd (omega (arith, count_true-le bs))

pub All-mono {ℓ κ κ'} :
    {A : Type ℓ} (P : A → Type κ) (Q : A → Type κ') (xs : List A)
    → ((x : A) → P x → Q x)
    → All P xs
    → All Q xs
All-mono P Q [] f h = tt
All-mono P Q (x ∷ xs) f h = (f x h.0, All-mono P Q xs f h.1)

module _ {ℓ} {A : Type ℓ} where
  abbrev pub get_elem? : List A → ℕ → Option A
  get_elem? [] i = none
  get_elem? (x ∷ xs) zero = some x
  get_elem? (x ∷ xs) (suc i) = get_elem? xs i

  pub get_elem?-append_left :
      (xs ys : List A) (i : ℕ) → i < length xs → get_elem? (xs ++ ys) i ≡ get_elem? xs i
  get_elem?-append_left [] ys i h = absurd (omega arith)
  get_elem?-append_left (x ∷ xs) ys zero h = refl
  get_elem?-append_left (x ∷ xs) ys (suc i) h = get_elem?-append_left xs ys i (omega arith)

  pub get_elem?-append_right :
      (xs ys : List A) (i : ℕ)
      → length xs ≤ i
      → get_elem? (xs ++ ys) i ≡ get_elem? ys (i - length xs)
  get_elem?-append_right [] ys i h = let e : i - 0 ≡ i = omega arith in rw e
  get_elem?-append_right (x ∷ xs) ys zero h = absurd (omega arith)
  get_elem?-append_right (x ∷ xs) ys (suc i) h =
      let e : suc i - suc (length xs) ≡ i - length xs = omega arith in
      rw e (get_elem?-append_right xs ys i (omega arith))

pub All-append {ℓ κ} :
    {A : Type ℓ} (P : A → Type κ) (xs ys : List A) → All P xs → All P ys → All P (xs ++ ys)
All-append P [] ys h k = k
All-append P (x ∷ xs) ys h k = (h.0, All-append P xs ys h.1 k)

-- `xs.remove(a)` of a set
abbrev pub discard : ℕ → List ℕ → List ℕ
discard a [] = []
discard a (x ∷ xs) = let rest = discard a xs in if a == x then rest else x ∷ rest

-- `xs.add(a)` of a set
abbrev pub add : ℕ → List ℕ → List ℕ
add a xs = if contains a xs then xs else a ∷ xs

pub contains-discard :
    (i a : ℕ) (xs : List ℕ) → contains i (discard a xs) ≡ (if i == a then false else contains i xs)
contains-discard i a [] = ground arith
contains-discard i a (x ∷ xs) = ground (arith, contains-discard i a xs)

pub contains-add : (i a : ℕ) (xs : List ℕ) → contains i (add a xs) ≡ (i == a || contains i xs)
contains-add i a xs = elim (Bool-cases (contains a xs)) [
  | inl old ↦ elim (Bool-cases (i == a)) [
    | inl same ↦ let e : i ≡ a = ground arith in rw (old, e) (ground (arith, old))
    | inr other ↦ rw (old, other)
  ]
  | inr new ↦ rw new
]

pub length-discard-le : (a : ℕ) (xs : List ℕ) → length (discard a xs) ≤ length xs
length-discard-le a [] = omega arith
length-discard-le a (x ∷ xs) = ground (arith, length-discard-le a xs)

pub length-discard-lt :
    (a : ℕ) (xs : List ℕ) → contains a xs ≡ true → length (discard a xs) < length xs
length-discard-lt a [] h = cc
length-discard-lt a (x ∷ xs) h = ground (arith, length-discard-le a xs, length-discard-lt a xs)

pub contains-append :
    (i : ℕ) (xs ys : List ℕ) → contains i (xs ++ ys) ≡ (contains i xs || contains i ys)
contains-append i [] ys = refl
contains-append i (x ∷ xs) ys = ground (arith, contains-append i xs ys)
