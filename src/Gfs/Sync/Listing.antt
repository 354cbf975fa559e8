-- ===== src/Gfs/Sync/Listing.antt =====
-- The members of an index while some are added and some pruned.
use data_service.Common.{
  ℕ, ◌+◌, ◌≤◌, ◌<◌, ◌≡◌, refl, sym, ap, ◌∙◌, true, false, some, List, [], ◌∷◌, leb, arith,
  Bool-cases, inl, inr,
}
use data_service.Common.Text.{Text, eq_text, eq_text_iff, has_text}
use data_service.Mirror.{Index, ids, drop_member, add_tileset}
use data_service.Gfs.Sync.{GfsIo, kept}

drop_member-has :
    (c id : Text) (ms : List (Text × ℕ))
    → eq_text id c ≡ false
    → has_text c (ids ms) ≡ true
    → has_text c (ids (drop_member id ms)) ≡ true
drop_member-has c id [] apart listed = listed
drop_member-has c id ((id', score) ∷ ms) apart listed = elim (Bool-cases (eq_text id' id)) [
  | inl same ↦
      let e = (eq_text_iff id' id).0 same in
      let apart' : eq_text id' c ≡ false = ap (λ x. eq_text x c) e ∙ apart in
      rw same (drop_member-has c id ms apart (rw apart' at listed))
  | inr other ↦ rw other (elim (Bool-cases (eq_text id' c)) [
    | inl here ↦ rw here refl
    | inr later ↦ rw later (drop_member-has c id ms apart (rw later at listed))
  ])
]

pub kept-has :
    (keep : List Text) (c : Text) (ms : List (Text × ℕ))
    → has_text c keep ≡ true
    → has_text c (ids ms) ≡ true
    → has_text c (ids (kept keep ms)) ≡ true
kept-has keep c [] active listed = listed
kept-has keep c ((id, score) ∷ ms) active listed = elim (Bool-cases (eq_text id c)) [
  | inl same ↦
      let in_keep : has_text id keep ≡ true =
        ap (λ x. has_text x keep) ((eq_text_iff id c).0 same) ∙ active in
      rw (in_keep, same) refl
  | inr other ↦
      let rest = kept-has keep c ms active (rw other at listed) in
      elim (Bool-cases (has_text id keep)) [
        | inl stays ↦ rw (stays, other) rest
        | inr goes ↦ rw goes rest
      ]
]

pub kept-only :
    (keep : List Text) (c : Text) (ms : List (Text × ℕ))
    → has_text c (ids (kept keep ms)) ≡ true
    → has_text c keep ≡ true
kept-only keep c [] listed = absurd cc
kept-only keep c ((id, score) ∷ ms) listed = elim (Bool-cases (has_text id keep)) [
  | inl stays ↦ elim (Bool-cases (eq_text id c)) [
    | inl same ↦ ap (λ x. has_text x keep) (sym ((eq_text_iff id c).0 same)) ∙ stays
    | inr other ↦ kept-only keep c ms (rw (stays, other) at listed)
  ]
  | inr goes ↦ kept-only keep c ms (rw goes at listed)
]

-- Redis takes the calls on the index within a lifetime from the start of the pass
abbrev pub IsWithin : ℕ → ℕ → GfsIo → Type 0
IsWithin ttl now io =
    (c f : Text) (t : ℕ) → (io.step c f).index_at ≡ some t → (now ≤ t) × (t < now + ttl)

abbrev pub Holds : ℕ → ℕ → Text → Index → Type 0
Holds ttl now c idx = (has_text c (ids idx.members) ≡ true) × (now + ttl ≤ idx.expires)

pub add_tileset-new :
    (ttl now : ℕ) (c : Text) (score t : ℕ) (idx : Index)
    → now ≤ t
    → Holds ttl now c (add_tileset ttl c score t idx)
add_tileset-new ttl now c score t idx later =
    (rw ((eq_text_iff c c).1 refl) refl, omega (arith, later))

pub add_tileset-Holds :
    (ttl now : ℕ) (c id : Text) (score t : ℕ) (idx : Index)
    → (now ≤ t) × (t < now + ttl)
    → Holds ttl now c idx
    → Holds ttl now c (add_tileset ttl id score t idx)
add_tileset-Holds ttl now c id score t idx (later, soon) (listed, lasts) =
    let live : leb idx.expires t ≡ false = ground arith in
    (
      elim (Bool-cases (eq_text id c)) [
        | inl same ↦ rw same refl
        | inr other ↦ rw (other, live) (drop_member-has c id idx.members other listed)
      ],
      omega (arith, later),
    )
