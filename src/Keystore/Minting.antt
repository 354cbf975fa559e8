-- ===== src/Keystore/Minting.antt =====
-- What a new key is worth.
use mathlib.Core.Logic.{◌≢◌}
use text.Mathlib.TextPositions.{eq_refl}
use data_service.Common.{◌≡◌, String, Bool, true, false, ◌&&◌, is_some, Option, none, some, arith}
use data_service.Common.Int.{ℤ, pos}
use data_service.Common.Json.{Json, Document}
use data_service.Common.Bucket.{Bucket, IsLawful}
use data_service.Keystore.{
  ApiKeyRecord, CreatedApiKey, created, MintIo, store_new_secret, ValidateIo,
  WeatherStationsKeystore, object_key, encode_record, is_valid,
}
use data_service.Keystore.Records.{ReadsBack, decode_record-encode_record}
use data_service.Keystore.Revocation.{accepted, record_of}

module _ (B : Bucket Document) (sha256 : String → String) (text_of : Json → String)
    (int_of : Json → Option ℤ) (lawful : IsLawful B) where
  -- what a successful call did
  abbrev stored_as :
      String
      → String
      → Bool
      → MintIo
      → WeatherStationsKeystore B sha256 text_of int_of
      → WeatherStationsKeystore B sha256 text_of int_of
  stored_as label secret allow_new_only mint k = record k {
    s3 = B.put k.s3 (object_key (sha256 secret)) (
        encode_record (record {
          key_id = mint.key_id;
          label = label;
          created_at = pos mint.now;
          last_used_at = none;
        }));
  }

  store_new_secret-done :
      (label secret : String) (allow_new_only : Bool) (mint : MintIo) (made : CreatedApiKey)
      (k : WeatherStationsKeystore B sha256 text_of int_of)
      → (store_new_secret B sha256 text_of int_of label secret allow_new_only mint k).1
        ≡ created made
      → ((store_new_secret B sha256 text_of int_of label secret allow_new_only mint k).0
          ≡ stored_as label secret allow_new_only mint k)
        × (made.secret ≡ secret)
        × ((allow_new_only && is_some (B.get k.s3 (object_key (sha256 secret)))) ≡ false)
  unfolding store_new_secret
  store_new_secret-done label secret allow_new_only mint made k done = ground arith

  -- A key that `create` or `add_custom` reports as made carries the secret that was asked for, which is
  -- accepted B sha256 text_of int_of lawful from then on; and `add_custom` makes none whose hash is already stored.
  pub store_new_secret-is_valid :
      ReadsBack text_of int_of
      → (label secret : String) (allow_new_only : Bool) (mint : MintIo) (io : ValidateIo)
        (made : CreatedApiKey) (k : WeatherStationsKeystore B sha256 text_of int_of)
      → secret ≢ ""
      → io.readable ≡ true
      → (store_new_secret B sha256 text_of int_of label secret allow_new_only mint k).1
        ≡ created made
      → ((is_valid B sha256 text_of int_of secret io
            (store_new_secret B sha256 text_of int_of label secret allow_new_only mint k).0).1
          ≡ true)
        × (made.secret ≡ secret)
        × ((allow_new_only && is_some (B.get k.s3 (object_key (sha256 secret)))) ≡ false)
  store_new_secret-is_valid back label secret allow_new_only mint io made k nonempty readable done =
      let (stored, same, new) =
        store_new_secret-done label secret allow_new_only mint made k done in
      let fresh : ApiKeyRecord = record {
        key_id = mint.key_id;
        label = label;
        created_at = pos mint.now;
        last_used_at = none;
      } in
      let read : record_of B sha256 text_of int_of secret
            (stored_as label secret allow_new_only mint k).s3
          ≡ some fresh =
        rw
          (
            lawful.get-put k.s3 (object_key (sha256 secret)) (object_key (sha256 secret))
                (encode_record fresh),
            eq_refl (object_key (sha256 secret)),
          )
          (decode_record-encode_record text_of int_of back fresh) in
      (
        rw stored (
            accepted B sha256 text_of int_of lawful secret fresh io
              (stored_as label secret allow_new_only mint k) nonempty readable read),
        same,
        new,
      )
