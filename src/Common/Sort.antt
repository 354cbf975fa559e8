-- ===== src/Common/Sort.antt =====
-- Python's stable sort, as insertion, for a strict order that compares by some key.
use mathlib.Core.Path.{◌≡◌}
use mathlib.Core.Logic.{inl, inr}
use mathlib.Core.Bool.{Bool, true, false}
use mathlib.Core.List.{List, [], ◌∷◌, ◌++◌, Perm, append-nil, perm_middle}
use mathlib.Core.List.Perm
use data_service.Common.Tests.{if◌then◌else◌, Bool-cases}
use data_service.Common.Lists.{All, All-mono}

module _ {ℓ} {A : Type ℓ} (lt : A → A → Bool) where
  -- before the first element that is larger, so after those that are equal
  abbrev pub insert_sorted : A → List A → List A
  insert_sorted a [] = a ∷ []
  insert_sorted a (x ∷ xs) = if lt a x then a ∷ x ∷ xs else x ∷ insert_sorted a xs

  abbrev pub sort_onto : List A → List A → List A
  sort_onto done [] = done
  sort_onto done (x ∷ xs) = sort_onto (insert_sorted x done) xs

  -- `sorted`
  unfoldable pub sort : List A → List A
  sort xs = sort_onto [] xs

  -- no element is smaller than an earlier one
  abbrev pub IsSorted : List A → Type 0
  IsSorted [] = Unit
  IsSorted (x ∷ xs) = All (λ y. lt y x ≡ false) xs × IsSorted xs

  pub record IsStrict : Type ℓ where
    pub asymmetric : (a b : A) → lt a b ≡ true → lt b a ≡ false
    pub below : (a b c : A) → lt a b ≡ true → lt c b ≡ false → lt c a ≡ false

  module _ (strict : IsStrict) where
    All-insert_sorted :
        (P : A → Type 0) (a : A) (xs : List A) → P a → All P xs → All P (insert_sorted a xs)
    All-insert_sorted P a [] p h = (p, tt)
    All-insert_sorted P a (x ∷ xs) p h = elim (Bool-cases (lt a x)) [
      | inl less ↦ rw less (p, h)
      | inr more ↦ rw more (h.0, All-insert_sorted P a xs p h.1)
    ]

    insert_sorted-IsSorted : (a : A) (xs : List A) → IsSorted xs → IsSorted (insert_sorted a xs)
    insert_sorted-IsSorted a [] h = (tt, tt)
    insert_sorted-IsSorted a (x ∷ xs) h = elim (Bool-cases (lt a x)) [
      | inl less ↦ rw less (
        (strict.asymmetric a x less, All-mono _ _ xs (λ y le. strict.below a x y less le) h.0),
        h,
      )
      | inr more ↦
          rw more
            (All-insert_sorted (λ y. lt y x ≡ false) a xs more h.0, insert_sorted-IsSorted a xs h.1)
    ]

    sort_onto-IsSorted : (done xs : List A) → IsSorted done → IsSorted (sort_onto done xs)
    sort_onto-IsSorted done [] h = h
    sort_onto-IsSorted done (x ∷ xs) h =
        sort_onto-IsSorted (insert_sorted x done) xs (insert_sorted-IsSorted x done h)

    pub sort-IsSorted : (xs : List A) → IsSorted (sort xs)
    unfolding sort
    sort-IsSorted xs = sort_onto-IsSorted [] xs tt

  insert_sorted-perm : (a : A) (xs : List A) → Perm (insert_sorted a xs) (a ∷ xs)
  insert_sorted-perm a [] = Perm.refl _
  insert_sorted-perm a (x ∷ xs) = elim (Bool-cases (lt a x)) [
    | inl less ↦ rw less (Perm.refl _)
    | inr more ↦ rw more (Perm.trans (Perm.cons x (insert_sorted-perm a xs)) (Perm.swap a x xs))
  ]

  sort_onto-perm : (done xs : List A) → Perm (sort_onto done xs) (done ++ xs)
  sort_onto-perm done [] = rw append-nil (Perm.refl done)
  sort_onto-perm done (x ∷ xs) = Perm.trans (sort_onto-perm (insert_sorted x done) xs) (
      Perm.trans (Perm.append_right xs (insert_sorted-perm x done))
        (Perm.symm (perm_middle done xs)))

  pub sort-perm : (xs : List A) → Perm (sort xs) xs
  unfolding sort
  sort-perm xs = sort_onto-perm [] xs
