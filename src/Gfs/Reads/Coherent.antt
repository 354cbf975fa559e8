-- ===== src/Gfs/Reads/Coherent.antt =====
-- The reads of overlays against what S3 holds.
use data_service.Common.{
  ℕ, ◌+◌, ◌≡◌, refl, sym, ap, ◌∙◌, true, false, Option, none, some, ltb, Bool-cases, inl, inr,
}
use data_service.Common.Text.{Text, eq_text, eq_text_iff}
use data_service.Mirror.{Stored}
use data_service.Gfs.{build_gfs_geojson_key}
use data_service.Gfs.Sync.{GfsRedis, get_gfs_geojson, is_full}
use data_service.Gfs.Reads.{segment_of, download, store_overlay, geojson_from_s3, get_geojson}

-- every overlay in Redis is the one that S3 holds
abbrev pub IsCoherent : (Text → Option Text) → Text → GfsRedis → Type 0
IsCoherent objects segment r =
    (cycle fxxx layer : Text) (s : Stored)
    → r.overlays cycle fxxx layer ≡ some s
    → objects (build_gfs_geojson_key segment cycle fxxx layer) ≡ some s.content

abbrev content_of : Option Stored → Option Text
content_of none = none
content_of (some s) = some s.content

module _ (objects : Text → Option Text) (segment : Text) where
  cached-S3 :
      (cycle fxxx layer : Text) (at : ℕ) (o : Option Stored)
      → ((s : Stored)
          → o ≡ some s
          → objects (build_gfs_geojson_key segment cycle fxxx layer) ≡ some s.content)
      → is_full (get_gfs_geojson at o) ≡ true
      → get_gfs_geojson at o ≡ objects (build_gfs_geojson_key segment cycle fxxx layer)
  cached-S3 cycle fxxx layer at none same full = absurd cc
  cached-S3 cycle fxxx layer at (some s) same full = elim (Bool-cases (ltb at s.expires)) [
    | inl live ↦ rw live (sym (same s refl))
    | inr gone ↦ let bad : false ≡ true = (rw gone at full) in absurd cc
  ]

  store_overlay-IsCoherent :
      (ttl : ℕ) (cycle fxxx layer : Text) (at : ℕ) (fetched : Option Text) (r : GfsRedis)
      → objects (build_gfs_geojson_key segment cycle fxxx layer) ≡ fetched
      → IsCoherent objects segment r
      → IsCoherent objects segment (store_overlay ttl cycle fxxx layer at fetched r)
  store_overlay-IsCoherent ttl cycle fxxx layer at none r same ok = ok
  store_overlay-IsCoherent ttl cycle fxxx layer at (some content) r same ok =
      elim (Bool-cases (is_full (some content))) [
        | inr empty ↦ rw empty ok
        | inl full ↦ rw full (λ c f l s found. elim (Bool-cases (eq_text cycle c)) [
          | inr other ↦ ok c f l s (rw other at found)
          | inl same_c ↦ elim (Bool-cases (eq_text fxxx f)) [
            | inr other ↦
                let e = (eq_text_iff cycle c).0 same_c in
                ok c f l s (ap (λ x. r.overlays x f l) (sym e) ∙ (rw (same_c, other) at found))
            | inl same_f ↦ elim (Bool-cases (eq_text layer l)) [
              | inr other ↦
                  let e = (eq_text_iff cycle c).0 same_c in
                  let e' = (eq_text_iff fxxx f).0 same_f in
                  ok c f l s (
                    ap (λ x. r.overlays x f l) (sym e)
                    ∙ ap (λ x. r.overlays cycle x l) (sym e')
                    ∙ (rw (same_c, same_f, other) at found))
              | inl same_l ↦
                  let stored : Path (Option Stored)
                      (some (record { content = content; expires = at + ttl })) (some s) =
                    (rw (same_c, same_f, same_l) at found) in
                  let key : Text → Text → Text → Option Text =
                    λ c' f' l'. objects (build_gfs_geojson_key segment c' f' l') in
                  ap (λ x. key x f l) (sym ((eq_text_iff cycle c).0 same_c))
                  ∙ ap (λ x. key cycle x l) (sym ((eq_text_iff fxxx f).0 same_f))
                  ∙ ap (λ x. key cycle fxxx x) (sym ((eq_text_iff layer l).0 same_l))
                  ∙ same
                  ∙ ap content_of stored
            ]
          ]
        ])
      ]

  -- A read of an overlay gives what S3 holds for it, whatever Redis holds and at any time, as long as
  -- Redis holds what S3 does; and Redis does so afterwards.
  pub get_geojson-S3 :
      (ttl : ℕ) (product_id cycle fxxx layer : Text) (at : ℕ) (r : GfsRedis)
      → segment_of product_id ≡ some segment
      → IsCoherent objects segment r
      → ((get_geojson ttl (some objects) product_id cycle fxxx layer at r).0
          ≡ objects (build_gfs_geojson_key segment cycle fxxx layer))
        × IsCoherent objects segment
            (get_geojson ttl (some objects) product_id cycle fxxx layer at r).1
  unfolding get_geojson geojson_from_s3
  get_geojson-S3 ttl product_id cycle fxxx layer at r known ok =
      let o = r.overlays cycle fxxx layer in
      elim (Bool-cases (is_full (get_gfs_geojson at o))) [
        | inl hit ↦ rw hit (cached-S3 cycle fxxx layer at o (ok cycle fxxx layer) hit, ok)
        | inr miss ↦
            let e : download (some objects) (segment_of product_id) cycle fxxx layer
                ≡ objects (build_gfs_geojson_key segment cycle fxxx layer) =
              ap (λ x. download (some objects) x cycle fxxx layer) known in
            rw miss (e, store_overlay-IsCoherent ttl cycle fxxx layer at _ r (sym e) ok)
      ]
