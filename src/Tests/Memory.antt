-- ===== src/Tests/Memory.antt =====
-- An object store in memory, as a list of objects: it keeps what the interface promises.
use Prim.Native.String.{String}
use text.Mathlib.Text.{starts_with}
use text.Mathlib.TextPositions.{eq_refl}
use data_service.Common.{
  ◌≡◌, ◌≢◌, ◌↔◌, refl, true, ◌&&◌, is_some, Option, none, some, List, [], ◌∷◌, str_eq, eq_iff,
  arith, Bool-cases, inl, inr, if◌then◌else◌,
}
use data_service.Common.Bucket.{Bucket, IsLawful, has}

module _ {V : Type 0} where
  abbrev lookup : List (String × V) → String → Option V
  lookup [] k = none
  lookup ((j, v) ∷ s) k = if str_eq j k then some v else lookup s k

  abbrev remove : List (String × V) → String → List (String × V)
  remove [] k = []
  remove ((j, v) ∷ s) k = let rest = remove s k in if str_eq j k then rest else (j, v) ∷ rest

  abbrev names : List (String × V) → String → List String
  names [] prefix = []
  names ((j, v) ∷ s) prefix =
      let rest = names s prefix in if starts_with j prefix then j ∷ rest else rest

  lookup-remove :
      (s : List (String × V)) (k j : String)
      → lookup (remove s k) j ≡ (if str_eq k j then none else lookup s j)
  lookup-remove [] k j = ground arith
  lookup-remove ((i, v) ∷ s) k j =
      ground (arith, lookup-remove s k j, eq_iff i k, eq_iff i j, eq_iff k j)

  has-names :
      (s : List (String × V)) (prefix k : String)
      → has k (names s prefix) ≡ (starts_with k prefix && is_some (lookup s k))
  has-names [] prefix k = ground arith
  has-names ((i, v) ∷ s) prefix k = elim (Bool-cases (str_eq i k)) [
    | inl same ↦
        let e = (eq_iff i k).0 same in rw e (ground (arith, has-names s prefix k, eq_refl k))
    | inr other ↦ ground (arith, has-names s prefix k, other)
  ]

  is_some_iff : (o : Option V) → (is_some o ≡ true) ↔ (o ≢ none)
  is_some_iff none = (λ h. cc, λ h. absurd (h refl))
  is_some_iff (some v) = (λ h e. cc, λ h. refl)

abbrev pub memory : (V : Type 0) → Bucket V
memory V = record {
  State = List (String × V);
  get = lookup;
  put = λ s k v. (k, v) ∷ s;
  delete = remove;
  keys = names;
}

pub memory-IsLawful : (V : Type 0) → IsLawful (memory V)
memory-IsLawful V = record {
  get-put = λ s k j v. refl;
  get-delete = lookup-remove;
  has-keys = λ s prefix k. rw (has-names s prefix k) (ground (arith, is_some_iff (lookup s k)));
}
