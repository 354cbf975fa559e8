-- ===== src/Gfs/Names.antt =====
-- The names that the processor gives to the objects of a step are read back.
use data_service.Common.{
  ℕ, ◌≡◌, ◌≢◌, refl, ap, ◌∙◌, true, false, ◌==◌, some, [], ◌∷◌, ◌++◌, length, take, drop,
  Bool-cases, inl, inr,
}
use data_service.Common.Text.{Text, eq_text_iff}
use data_service.Gfs.{
  gfs_step_id, step_from_basename, split_once, split_tail, both_full, has_code,
  step_and_layer_from_basename,
}

take-append_len : (as' bs : Text) → take (length as') (as' ++ bs) ≡ as'
take-append_len [] bs = refl
take-append_len (a ∷ as') bs = ap (λ x. a ∷ x) (take-append_len as' bs)

drop-append_len : (as' bs : Text) → drop (length as') (as' ++ bs) ≡ bs
drop-append_len [] bs = refl
drop-append_len (a ∷ as') bs = drop-append_len as' bs

append_mark : (as' bs : Text) (m : ℕ) → as' ++ (m ∷ bs) ≡ (as' ++ m ∷ []) ++ bs
append_mark [] bs m = refl
append_mark (a ∷ as') bs m = ap (λ x. a ∷ x) (append_mark as' bs m)

-- A step is read back from the name of its object, for any step tag that is not empty.
step_from-gfs_step_id :
    (cycle : Text) (c : ℕ) (cs : Text)
    → step_from_basename (gfs_step_id cycle (c ∷ cs)) cycle ≡ some (c ∷ cs)
unfolding step_from_basename
step_from-gfs_step_id cycle c cs =
    let marker = cycle ++ b'_' ∷ [] in
    rw
      (
        append_mark cycle (c ∷ cs) b'_',
        take-append_len marker (c ∷ cs),
        (eq_text_iff marker marker).1 refl,
        drop-append_len marker (c ∷ cs),
      )
      refl

split_once-joined :
    (a b : Text) → has_code b'_' a ≡ false → split_once (a ++ (b'_' ∷ b)) ≡ some (a, b)
split_once-joined [] b free = refl
split_once-joined (c ∷ cs) b free = elim (Bool-cases (c == b'_')) [
  | inl mark ↦ let bad : true ≡ false = (rw mark at free) in absurd cc
  | inr other ↦ rw (other, split_once-joined cs b (rw other at free)) refl
]

append_assoc : (as' bs cs : Text) → (as' ++ bs) ++ cs ≡ as' ++ (bs ++ cs)
append_assoc [] bs cs = refl
append_assoc (a ∷ as') bs cs = ap (λ x. a ∷ x) (append_assoc as' bs cs)

-- The step and the layer are read back from the name of an overlay, for a step tag without underscores
-- and a layer that are not empty; the cycle and the layer may hold underscores.
pub step_and_layer-gfs_step_id :
    (cycle fxxx layer : Text)
    → fxxx ≢ []
    → layer ≢ []
    → has_code b'_' fxxx ≡ false
    → step_and_layer_from_basename (gfs_step_id cycle fxxx ++ (b'_' ∷ layer)) cycle
      ≡ some (fxxx, layer)
unfolding step_and_layer_from_basename
step_and_layer-gfs_step_id cycle [] layer step named free = absurd (step refl)
step_and_layer-gfs_step_id cycle (c ∷ cs) [] step named free = absurd (named refl)
step_and_layer-gfs_step_id cycle (c ∷ cs) (l ∷ ls) step named free =
    ap (λ x. split_tail (step_from_basename x cycle))
      (append_assoc cycle (b'_' ∷ c ∷ cs) (b'_' ∷ l ∷ ls))
    ∙ ap split_tail (step_from-gfs_step_id cycle c (cs ++ (b'_' ∷ l ∷ ls)))
    ∙ ap both_full (split_once-joined (c ∷ cs) (l ∷ ls) free)
