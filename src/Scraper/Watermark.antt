-- ===== src/Scraper/Watermark.antt =====
-- `_advance_watermark` of src/services/basemap_scraper_service.py without its flush: tiles finish in
-- any order, and the watermark moves past the longest run of finished indices.
use data_service.Common.{
  ℕ, zero, suc, ◌+◌, ◌≤◌, ◌<◌, ◌≡◌, refl, true, false, ◌&&◌, ◌||◌, List, [], ◌∷◌, arith, ltb, leb,
  ◌==◌, if◌then◌else◌, length, contains, discard, add, contains-discard, contains-add,
  length-discard-lt, Bool-cases, inl, inr, All,
}

-- `while watermark in done_above: done_above.remove(watermark); watermark += 1`
unfoldable pub absorb : ℕ → ℕ → List ℕ → ℕ × List ℕ
absorb zero w above = (w, above)
absorb (suc fuel) w above =
    let rest = absorb fuel (w + 1) (discard w above) in
    if contains w above then rest else (w, above)

-- the new watermark and set; each round of the loop takes an element away
unfoldable pub complete : ℕ → ℕ → List ℕ → ℕ × List ℕ
complete idx w above =
    if idx == w
    then absorb (length above) (w + 1) above
    else if ltb w idx
    then (w, add idx above)
    else (w, above)

-- What the watermark means, when the indices of `handled` have finished since the sweep began at
-- `first`: all before it have finished, it has not, and the set holds those that finished above it.
pub record IsWatermark (first : ℕ) (handled : List ℕ) (w : ℕ) (above : List ℕ) : Type 0 where
  pub from_first : first ≤ w
  pub finished : (i : ℕ) → first ≤ i → i < w → contains i handled ≡ true
  pub next : contains w handled ≡ false
  pub set : (i : ℕ) → contains i above ≡ (ltb w i && contains i handled)

absorb-IsWatermark :
    (fuel first w : ℕ) (handled above : List ℕ)
    → length above ≤ fuel
    → first ≤ w
    → ((i : ℕ) → first ≤ i → i < w → contains i handled ≡ true)
    → ((i : ℕ) → contains i above ≡ (leb w i && contains i handled))
    → (let (w', above') = absorb fuel w above in IsWatermark first handled w' above')
unfolding absorb
absorb-IsWatermark zero first w handled [] enough ff fin set = record {
  from_first = ff;
  finished = fin;
  next = ground (arith, set w);
  set = λ i. ground (arith, set i);
}
absorb-IsWatermark zero first w handled (x ∷ above) enough ff fin set = absurd (omega arith)
absorb-IsWatermark (suc fuel) first w handled above enough ff fin set =
    elim (Bool-cases (contains w above)) [
      | inl more ↦ rw more (
          absorb-IsWatermark fuel first (w + 1) handled (discard w above)
            (omega (arith, length-discard-lt w above more)) (omega arith)
            (λ i p q. ground (arith, fin i p, set w))
            (λ i. ground (arith, set i, contains-discard i w above)))
      | inr last ↦ rw last (record {
        from_first = ff;
        finished = fin;
        next = ground (arith, set w);
        set = λ i. ground (arith, set i, set w);
      })
    ]

-- The order in which tiles finish does not matter: whichever finishes next, in whatever order, the
-- watermark keeps its meaning.
pub complete-IsWatermark :
    (first idx w : ℕ) (handled above : List ℕ)
    → IsWatermark first handled w above
    → (let (w', above') = complete idx w above in IsWatermark first (idx ∷ handled) w' above')
unfolding complete
complete-IsWatermark first idx w handled above inv = elim (Bool-cases (idx == w)) [
  | inl here ↦ rw here (
      absorb-IsWatermark (length above) first (w + 1) (idx ∷ handled) above (omega arith)
        (omega (arith, inv.from_first)) (λ i p q. ground (arith, inv.finished i p))
        (λ i. ground (arith, inv.set i)))
  | inr other ↦ elim (Bool-cases (ltb w idx)) [
    | inl later ↦
        rw (other, later)
          (record {
            from_first = inv.from_first;
            finished = λ i p q. ground (arith, inv.finished i p q);
            next = ground (arith, inv.next);
            set = λ i. ground (arith, inv.set i, contains-add i idx above);
          })
    | inr earlier ↦
        rw (other, earlier)
          (record {
            from_first = inv.from_first;
            finished = λ i p q. ground (arith, inv.finished i p q);
            next = ground (arith, inv.next);
            set = λ i. ground (arith, inv.set i);
          })
  ]
]

-- the indices of `order` finish one after another
unfoldable pub complete_all : List ℕ → ℕ → List ℕ → ℕ × List ℕ
complete_all [] w above = (w, above)
complete_all (idx ∷ order) w above =
    let (w', above') = complete idx w above in complete_all order w' above'

-- the indices finished at the end, latest first
abbrev pub finished_after : List ℕ → List ℕ → List ℕ
finished_after handled [] = handled
finished_after handled (idx ∷ order) = finished_after (idx ∷ handled) order

complete_all-IsWatermark :
    (order : List ℕ) (first w : ℕ) (handled above : List ℕ)
    → IsWatermark first handled w above
    → (let (w', above') = complete_all order w above in
        IsWatermark first (finished_after handled order) w' above')
unfolding complete_all
complete_all-IsWatermark [] first w handled above inv = inv
complete_all-IsWatermark (idx ∷ order) first w handled above inv =
    let (w', above') = complete idx w above in
    complete_all-IsWatermark order first w' (idx ∷ handled) above'
      (complete-IsWatermark first idx w handled above inv)

pub start-IsWatermark : (first : ℕ) → IsWatermark first [] first []
start-IsWatermark first = record {
  from_first = omega arith;
  finished = λ i p q. absurd (omega arith);
  next = refl;
  set = λ i. ground arith;
}

contains-finished_after :
    (i : ℕ) (order handled : List ℕ)
    → contains i (finished_after handled order) ≡ (contains i handled || contains i order)
contains-finished_after i [] handled = ground arith
contains-finished_after i (idx ∷ order) handled =
    ground (arith, contains-finished_after i order (idx ∷ handled))

not-contains : (end i : ℕ) (xs : List ℕ) → All (λ x. x < end) xs → end ≤ i → contains i xs ≡ false
not-contains end i [] h p = refl
not-contains end i (x ∷ xs) h p = ground (arith, not-contains end i xs h.1 p)

-- When a sweep from `first` to `end` has seen every index finish, in any order, even with repeats,
-- its watermark is `end`.
pub complete_all-end :
    (order : List ℕ) (first end : ℕ)
    → first ≤ end
    → All (λ i. i < end) order
    → ((i : ℕ) → first ≤ i → i < end → contains i order ≡ true)
    → (complete_all order first []).0 ≡ end
complete_all-end order first end h small all =
    let (w, above) = complete_all order first [] in
    let inv = complete_all-IsWatermark order first first [] [] (start-IsWatermark first) in
    elim (Bool-cases (ltb w end)) [
      | inl short ↦
          absurd
            (ground (arith, all w inv.from_first, inv.next, contains-finished_after w order []))
      | inr reached ↦ elim (Bool-cases (ltb end w)) [
        | inl past ↦ absurd (
            ground (
              arith,
              inv.finished end h,
              contains-finished_after end order [],
              not-contains end end order small,
            ))
        | inr met ↦ ground arith
      ]
    ]

absorb-le : (fuel w : ℕ) (above : List ℕ) → w ≤ (absorb fuel w above).0
unfolding absorb
absorb-le zero w above = omega arith
absorb-le (suc fuel) w above = ground (arith, absorb-le fuel (w + 1) (discard w above))

-- The watermark never moves back.
pub le-complete : (idx w : ℕ) (above : List ℕ) → w ≤ (complete idx w above).0
unfolding complete
le-complete idx w above = ground (arith, absorb-le (length above) (w + 1) above)

-- It moves beyond the index that it waits for.
pub lt-complete : (w : ℕ) (above : List ℕ) → w < (complete w w above).0
unfolding complete
lt-complete w above = ground (arith, absorb-le (length above) (w + 1) above)
