-- ===== src/Keystore/Undone.antt =====
-- Revocations that leave the secret accepted.
use mathlib.Core.Logic.{◌≢◌}
use text.Mathlib.TextPositions.{eq_refl}
use data_service.Common.{◌≡◌, refl, ap, String, Bool, true, false, Option, some}
use data_service.Common.Int.{ℤ, pos}
use data_service.Common.Json.{Json, Document}
use data_service.Common.Bucket.{Bucket, IsLawful}
use data_service.Keystore.{
  ApiKeyRecord, ValidateIo, WeatherStationsKeystore, object_key, encode_record, drop_key, revoke,
  is_valid, finish_validation,
}
use data_service.Keystore.Records.{ReadsBack, decode_record-encode_record}
use data_service.Keystore.Revocation.{revoke-drop, accepted, answered, record_of, IsOnlyKey}

module _ (B : Bucket Document) (sha256 : String → String) (text_of : Json → String)
    (int_of : Json → Option ℤ) (lawful : IsLawful B) where
  -- Where the DELETE request fails, the revocation reports success all the same, and the secret is
  -- still accepted B sha256 text_of int_of lawful.
  pub revoke_not_deleted :
      (secret key_id : String) (r : ApiKeyRecord) (io : ValidateIo)
      (k : WeatherStationsKeystore B sha256 text_of int_of)
      → secret ≢ ""
      → io.readable ≡ true
      → record_of B sha256 text_of int_of secret k.s3 ≡ some r
      → r.key_id ≡ key_id
      → IsOnlyKey B sha256 text_of int_of key_id secret k.s3
      → ((revoke B sha256 text_of int_of key_id (answered false) k).1 ≡ true)
        × ((is_valid B sha256 text_of int_of secret io
              (revoke B sha256 text_of int_of key_id (answered false) k).0).1
            ≡ true)
  revoke_not_deleted secret key_id r io k nonempty readable stored named only =
      let e =
        revoke-drop B sha256 text_of int_of lawful secret key_id r false k stored named only in
      rw e (
        refl,
        accepted B sha256 text_of int_of lawful secret r io
            (drop_key B sha256 text_of int_of false (object_key (sha256 secret)) k) nonempty
            readable stored,
      )

  touched_record :
      ReadsBack text_of int_of
      → (secret : String) (r : ApiKeyRecord) (io : ValidateIo)
        (k : WeatherStationsKeystore B sha256 text_of int_of)
      → io.touched ≡ true
      → record_of B sha256 text_of int_of secret
          (finish_validation B sha256 text_of int_of (sha256 secret) r io k).s3
        ≡ some (record r { last_used_at = some (pos io.now) })
  unfolding finish_validation
  touched_record back secret r io k touched =
      rw
        (
          touched,
          lawful.get-put k.s3 (object_key (sha256 secret)) (object_key (sha256 secret))
              (encode_record (record r { last_used_at = some (pos io.now) })),
          eq_refl (object_key (sha256 secret)),
        )
        (decode_record-encode_record text_of int_of back
          (record r { last_used_at = some (pos io.now) }))

  -- A validation that read the record before the revocation and touches the object after it puts the
  -- object back: the secret is accepted B sha256 text_of int_of lawful again, at every later time.
  pub revoke_undone :
      ReadsBack text_of int_of
      → (secret key_id : String) (r : ApiKeyRecord) (io later : ValidateIo)
        (k : WeatherStationsKeystore B sha256 text_of int_of)
      → secret ≢ ""
      → later.readable ≡ true
      → record_of B sha256 text_of int_of secret k.s3 ≡ some r
      → r.key_id ≡ key_id
      → IsOnlyKey B sha256 text_of int_of key_id secret k.s3
      → io.touched ≡ true
      → ((revoke B sha256 text_of int_of key_id (answered true) k).1 ≡ true)
        × ((is_valid B sha256 text_of int_of secret later (
              finish_validation B sha256 text_of int_of
                (sha256 secret)
                r
                io
                (revoke B sha256 text_of int_of key_id (answered true) k).0)).1
            ≡ true)
  revoke_undone back secret key_id r io later k nonempty readable stored named only touched =
      let revoked = (revoke B sha256 text_of int_of key_id (answered true) k).0 in
      (
        ap (λ (v : WeatherStationsKeystore B sha256 text_of int_of × Bool). v.1)
            (revoke-drop B sha256 text_of int_of lawful secret key_id r true k stored named only),
        accepted B sha256 text_of int_of lawful secret
            (record r { last_used_at = some (pos io.now) }) later
            (finish_validation B sha256 text_of int_of (sha256 secret) r io revoked) nonempty
            readable (touched_record back secret r io revoked touched),
      )
