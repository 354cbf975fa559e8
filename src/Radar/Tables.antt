-- ===== src/Radar/Tables.antt =====
-- Sets and tables of the radar index after one change.
use data_service.Common.{
  ℕ, ◌+◌, ◌≤◌, ◌<◌, ◌≡◌, refl, sym, ap, ◌∙◌, ◌⊎◌, true, false, List, [], ◌∷◌, ltb, leb, arith,
  Bool-cases, inl, inr, not-le→leb,
}
use mathlib.Core.Path.{subst}
use data_service.Common.Text.{Text, eq_text, eq_text_iff, has_text}
use data_service.Mirror.{Index, ids, from_score}
use data_service.Mirror.{KeySet, read_set, add_to_set, at_text}

pub add_to_set-new :
    (ttl t at : ℕ) (m : Text) (s : KeySet)
    → t < at + ttl
    → has_text m (read_set t (add_to_set ttl m at s)) ≡ true
add_to_set-new ttl t at m s live = elim (Bool-cases (has_text m (read_set at s))) [
  | inl old ↦ rw (not-le→leb (at + ttl) t live, old) old
  | inr new ↦ rw (not-le→leb (at + ttl) t live, new, (eq_text_iff m m).1 refl) refl
]

has_text-cons : (m m' : Text) (ms : List Text) → has_text m ms ≡ true → has_text m (m' ∷ ms) ≡ true
has_text-cons m m' ms old = elim (Bool-cases (eq_text m' m)) [
  | inl same ↦ rw same refl
  | inr other ↦ rw other old
]

pub add_to_set-old :
    (ttl t at : ℕ) (m m' : Text) (s : KeySet)
    → at ≤ t
    → s.expires ≤ at + ttl
    → has_text m (read_set t s) ≡ true
    → has_text m (read_set t (add_to_set ttl m' at s)) ≡ true
add_to_set-old ttl t at m m' s late bound listed = elim (Bool-cases (leb s.expires t)) [
  | inl gone ↦ let bad : false ≡ true = (rw gone at listed) in absurd cc
  | inr live ↦
      let live_now : leb s.expires at ≡ false = ground arith in
      let live_then : leb (at + ttl) t ≡ false = ground arith in
      let old : has_text m s.members ≡ true = (rw live at listed) in
      elim (Bool-cases (has_text m' s.members)) [
        | inl known ↦ rw (live_now, live_then, known) old
        | inr fresh ↦ rw (live_now, live_then, fresh) (has_text-cons m m' s.members old)
      ]
]

-- a table of sets after an entry was added at one key
pub variables-old :
    (ttl t at : ℕ) (k k' m m' : Text) (f : Text → KeySet)
    → at ≤ t
    → ((j : Text) → (f j).expires ≤ at + ttl)
    → has_text m (read_set t (f k')) ≡ true
    → has_text m (read_set t (at_text k (add_to_set ttl m' at (f k)) f k')) ≡ true
variables-old ttl t at k k' m m' f late bound listed = elim (Bool-cases (eq_text k k')) [
  | inl same ↦
      let e = (eq_text_iff k k').0 same in
      rw same (
        add_to_set-old ttl t at m m' (f k) late (bound k)
          (subst (λ j. has_text m (read_set t (f j)) ≡ true) (sym e) listed))
  | inr other ↦ rw other listed
]

pub elevations-old :
    (ttl t at : ℕ) (k k' l l' m m' : Text) (f : Text → Text → KeySet)
    → at ≤ t
    → ((j i : Text) → (f j i).expires ≤ at + ttl)
    → has_text m (read_set t (f k' l')) ≡ true
    → has_text m (read_set t (at_text k (at_text l (add_to_set ttl m' at (f k l)) (f k)) f k' l'))
      ≡ true
elevations-old ttl t at k k' l l' m m' f late bound listed = elim (Bool-cases (eq_text k k')) [
  | inl same ↦
      let e = (eq_text_iff k k').0 same in
      rw same (
        variables-old ttl t at l l' m m' (f k) late (bound k)
          (subst (λ j. has_text m (read_set t (f j l')) ≡ true) (sym e) listed))
  | inr other ↦ rw other listed
]

pub at_text-both {ℓ} :
    {A : Type ℓ} (P : A → Type 0) (k k' : Text) (a : A) (f : Text → A)
    → P a
    → P (f k')
    → P (at_text k a f k')
at_text-both P k k' a f new old = elim (Bool-cases (eq_text k k')) [
  | inl same ↦ rw same new
  | inr other ↦ rw other old
]

-- Either the tilesets of an elevation are as before, or it is the elevation that was changed.
pub tilesets-cases :
    (r v e r' v' e' : Text) (idx : Index) (f : Text → Text → Text → Index)
    → (Path Index (at_text r (at_text v (at_text e idx (f r v)) (f r)) f r' v' e') (f r' v' e'))
      ⊎ ((r ≡ r') × (v ≡ v') × (e ≡ e'))
tilesets-cases r v e r' v' e' idx f = elim (Bool-cases (eq_text r r')) [
  | inr other ↦ inl (rw other refl)
  | inl same_r ↦
      let er = (eq_text_iff r r').0 same_r in
      elim (Bool-cases (eq_text v v')) [
        | inr other ↦ inl (rw (same_r, other) (ap (λ x. f x v' e') er))
        | inl same_v ↦
            let ev = (eq_text_iff v v').0 same_v in
            elim (Bool-cases (eq_text e e')) [
              | inr other ↦
                  inl (rw (same_r, same_v, other) (ap (λ x. f x v e') er ∙ ap (λ x. f r' x e') ev))
              | inl same_e ↦ inr (er, ev, (eq_text_iff e e').0 same_e)
            ]
      ]
]

pub from_score-has :
    (min_score : ℕ) (id : Text) (ms : List (Text × ℕ))
    → has_text id (ids (from_score min_score ms)) ≡ true
    → has_text id (ids ms) ≡ true
from_score-has min_score id [] listed = listed
from_score-has min_score id ((id', score) ∷ ms) listed = elim (Bool-cases (eq_text id' id)) [
  | inl same ↦ rw same refl
  | inr other ↦ rw other (elim (Bool-cases (ltb score min_score)) [
    | inl low ↦ from_score-has min_score id ms (rw low at listed)
    | inr high ↦ from_score-has min_score id ms (rw (high, other) at listed)
  ])
]
