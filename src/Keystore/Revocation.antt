-- ===== src/Keystore/Revocation.antt =====
-- What a revocation does to the secret whose key it names.
use mathlib.Core.Logic.{◌≢◌}
use text.Mathlib.TextPositions.{eq_refl, starts_with-append}
use Prim.Native.String.{◌++◌ as ◌<>◌}
use data_service.Common.{
  ◌≡◌, refl, sym, ap, ◌∙◌, String, Bool, true, false, Option, none, some, List, [], ◌∷◌, arith,
  Bool-cases, inl, inr, str_eq, eq_iff,
}
use data_service.Common.Int.{ℤ}
use data_service.Common.Json.{Json, Document}
use data_service.Common.Bucket.{Bucket, IsLawful, has}
use data_service.Keystore.{
  ApiKeyRecord, RevokeIo, ValidateIo, WeatherStationsKeystore, object_key, decode_record, load,
  is_key, find_key, drop_key, revoke, ◌>>=◌, is_valid, unexpired,
}
use data_service.Keystore.Records.{extract-object_key}

-- a listing that comes, of objects that can all be read
abbrev pub answered : Bool → RevokeIo
answered deleted = record { listed = true; readable = λ object. true; deleted = deleted }

module _ (B : Bucket Document) (sha256 : String → String) (text_of : Json → String)
    (int_of : Json → Option ℤ) where
  -- the record of a secret, where its object is there and can be decoded
  abbrev pub record_of : String → B.State → Option ApiKeyRecord
  record_of secret s = load B sha256 text_of int_of true (object_key (sha256 secret)) s

  -- every object whose record has the id is the secret's own
  abbrev pub IsOnlyKey : String → String → B.State → Type 0
  IsOnlyKey key_id secret s =
      (object : String)
      → is_key key_id (load B sha256 text_of int_of true object s) ≡ true
      → object ≡ object_key (sha256 secret)

module _ (B : Bucket Document) (sha256 : String → String) (text_of : Json → String)
    (int_of : Json → Option ℤ) (lawful : IsLawful B) where
  find_key-only :
      (key_id secret : String) (s : B.State) (objects : List String)
      → IsOnlyKey B sha256 text_of int_of key_id secret s
      → has (object_key (sha256 secret)) objects ≡ true
      → is_key key_id (record_of B sha256 text_of int_of secret s) ≡ true
      → find_key B sha256 text_of int_of (λ object. true) key_id s objects
        ≡ some (object_key (sha256 secret))
  find_key-only key_id secret s [] only listed named = cc
  find_key-only key_id secret s (object ∷ objects) only listed named =
      elim (Bool-cases (is_key key_id (load B sha256 text_of int_of true object s))) [
        | inl hit ↦ rw hit (ap some (only object hit))
        | inr miss ↦ elim (Bool-cases (str_eq object (object_key (sha256 secret)))) [
          | inl same ↦
              let e = (eq_iff object (object_key (sha256 secret))).0 same in
              cc (
                sym (ap (λ k. is_key key_id (load B sha256 text_of int_of true k s)) e) ∙ miss,
                named,
              )
          | inr other ↦
              rw miss (find_key-only key_id secret s objects only (rw other at listed) named)
        ]
      ]

  stored_key :
      (secret : String) (s : B.State) (r : ApiKeyRecord)
      → record_of B sha256 text_of int_of secret s ≡ some r
      → B.get s (object_key (sha256 secret)) ≢ none
  stored_key secret s r stored gone =
      let e = ap (λ b. (do body ← b; decode_record text_of int_of body)) gone in cc (sym e ∙ stored)

  is_listed :
      (secret : String) (s : B.State) (r : ApiKeyRecord)
      → record_of B sha256 text_of int_of secret s ≡ some r
      → has (object_key (sha256 secret)) (B.keys s "keys/") ≡ true
  unfolding object_key
  is_listed secret s r stored =
      (lawful.has-keys s "keys/" (object_key (sha256 secret))).1
        (starts_with-append "keys/" (sha256 secret <> ".json"), stored_key secret s r stored)

  pub revoke-drop :
      (secret key_id : String) (r : ApiKeyRecord) (deleted : Bool)
      (k : WeatherStationsKeystore B sha256 text_of int_of)
      → record_of B sha256 text_of int_of secret k.s3 ≡ some r
      → r.key_id ≡ key_id
      → IsOnlyKey B sha256 text_of int_of key_id secret k.s3
      → revoke B sha256 text_of int_of key_id (answered deleted) k
        ≡ (drop_key B sha256 text_of int_of deleted (object_key (sha256 secret)) k, true)
  unfolding revoke
  revoke-drop secret key_id r deleted k stored named only =
      let hit : is_key key_id (record_of B sha256 text_of int_of secret k.s3) ≡ true =
        rw stored ((eq_iff r.key_id key_id).1 named) in
      let found =
        find_key-only key_id secret k.s3 (B.keys k.s3 "keys/") only (is_listed secret k.s3 r stored)
          hit in
      ap
        (λ (o : Option String).
          elim o as (λ _. WeatherStationsKeystore B sha256 text_of int_of × Bool) [
            | none ↦ (k, false)
            | some object ↦ (drop_key B sha256 text_of int_of deleted object k, true)
          ])
        found

  -- a secret whose object is gone and whose validation is not remembered is refused
  refused :
      (secret : String) (io : ValidateIo) (k : WeatherStationsKeystore B sha256 text_of int_of)
      → k.validation_cache (sha256 secret) ≡ none
      → B.get k.s3 (object_key (sha256 secret)) ≡ none
      → (is_valid B sha256 text_of int_of secret io k).1 ≡ false
  unfolding is_valid
  refused secret io k forgotten gone =
      let absent : load B sha256 text_of int_of io.readable (object_key (sha256 secret)) k.s3
          ≡ none =
        unread io.readable in
      elim (Bool-cases (str_eq secret "")) [
        | inl e ↦ rw e refl
        | inr e ↦ rw (e, forgotten, absent) refl
      ]
    where
      unread :
          (readable : Bool)
          → load B sha256 text_of int_of readable (object_key (sha256 secret)) k.s3 ≡ none
      unread true = rw gone refl
      unread false = refl

  dropped_cache :
      (secret : String) (deleted : Bool) (k : WeatherStationsKeystore B sha256 text_of int_of)
      → sha256 secret ≢ ""
      → (drop_key B sha256 text_of int_of deleted (object_key (sha256 secret)) k).validation_cache
          (sha256 secret)
        ≡ none
  dropped_cache secret deleted k hashed =
      rw (extract-object_key (sha256 secret) hashed, eq_refl (sha256 secret)) refl

  -- A revocation of a stored key whose listing and DELETE request go through reports success, and the
  -- secret of the key is refused from then on, if no other object has the key's id.
  pub revoke-is_valid :
      (secret key_id : String) (r : ApiKeyRecord) (io : ValidateIo)
      (k : WeatherStationsKeystore B sha256 text_of int_of)
      → sha256 secret ≢ ""
      → record_of B sha256 text_of int_of secret k.s3 ≡ some r
      → r.key_id ≡ key_id
      → IsOnlyKey B sha256 text_of int_of key_id secret k.s3
      → ((revoke B sha256 text_of int_of key_id (answered true) k).1 ≡ true)
        × ((is_valid B sha256 text_of int_of secret io
              (revoke B sha256 text_of int_of key_id (answered true) k).0).1
            ≡ false)
  revoke-is_valid secret key_id r io k hashed stored named only =
      let e = revoke-drop secret key_id r true k stored named only in
      let gone : B.get (B.delete k.s3 (object_key (sha256 secret))) (object_key (sha256 secret))
          ≡ none =
        rw
          (
            lawful.get-delete k.s3 (object_key (sha256 secret)) (object_key (sha256 secret)),
            eq_refl (object_key (sha256 secret)),
          )
          refl in
      rw e (
        refl,
        refused secret io (drop_key B sha256 text_of int_of true (object_key (sha256 secret)) k)
            (dropped_cache secret true k hashed) gone,
      )

  -- a secret whose record can be read is accepted
  pub accepted :
      (secret : String) (r : ApiKeyRecord) (io : ValidateIo)
      (k : WeatherStationsKeystore B sha256 text_of int_of)
      → secret ≢ ""
      → io.readable ≡ true
      → record_of B sha256 text_of int_of secret k.s3 ≡ some r
      → (is_valid B sha256 text_of int_of secret io k).1 ≡ true
  unfolding is_valid
  accepted secret r io k nonempty readable stored =
      let named : str_eq secret "" ≡ false = ground (arith, eq_iff secret "") in
      elim (Bool-cases (unexpired (k.validation_cache (sha256 secret)) io.now)) [
        | inl fresh ↦ rw (named, fresh) refl
        | inr stale ↦ rw (named, stale, readable, stored) refl
      ]
