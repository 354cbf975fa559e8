-- ===== src/Tests/Keys.antt =====
-- API keys on concrete buckets.
use text.Mathlib.TextPositions.{eq_refl}
use data_service.Common.{
  ℕ, ◌≡◌, ◌≢◌, refl, sym, String, true, false, ◌&&◌, is_some, Option, none, some, [], ◌∷◌, str_eq,
  eq_iff, arith, if◌then◌else◌, Bool-cases, inl, inr,
}
use data_service.Common.Int.{ℤ, pos}
use data_service.Common.Json.{Json, Document, int, str}
use data_service.Keystore.{
  ApiKeyRecord, CreatedApiKey, created, MintIo, ValidateIo, WeatherStationsKeystore, object_key,
  encode_record, load, revoke, is_valid, finish_validation, store_new_secret,
}
use data_service.Keystore.Records.{ReadsBack, decode_record-encode_record}
use data_service.Keystore.Revocation.{IsOnlyKey, answered, revoke-is_valid}
use data_service.Keystore.Undone.{revoke_not_deleted, revoke_undone}
use data_service.Keystore.Minting.{store_new_secret-is_valid}
use data_service.Tests.Memory.{memory, memory-IsLawful}

abbrev text_of : Json → String
text_of (str s) = s
text_of _ = ""

abbrev int_of : Json → Option ℤ
int_of (int n) = some n
int_of _ = none

texts-ReadsBack : ReadsBack text_of int_of
texts-ReadsBack = record { text_of_str = λ s. refl; int_of_int = λ n. refl }

-- a hash that only marks the text
abbrev hash : String → String
hash s = s

abbrev Keys : Type 0
Keys = WeatherStationsKeystore (memory Document) hash text_of int_of

abbrev alice : ApiKeyRecord
alice = record { key_id = "a1"; label = "alice"; created_at = pos 100; last_used_at = none }

-- alice's key alone, validated until 160 on this worker
abbrev one_key : Keys
one_key = record {
  s3 = (object_key "secret", encode_record alice) ∷ [];
  validation_cache = λ h. if str_eq h "secret" then some 160 else none;
}

alice_stored :
    (load (memory Document) hash text_of int_of true (object_key "secret") one_key.s3) ≡ some alice
alice_stored =
    rw (eq_refl (object_key "secret"))
      (decode_record-encode_record text_of int_of texts-ReadsBack alice)

alice_only : IsOnlyKey (memory Document) hash text_of int_of "a1" "secret" one_key.s3
alice_only object h = elim (Bool-cases (str_eq (object_key "secret") object)) [
  | inl same ↦ sym ((eq_iff (object_key "secret") object).0 same)
  | inr other ↦ cc (sym h, other)
]

nonempty : ◌≢◌ {A = String} "secret" ""
nonempty = ground (arith, eq_iff "secret" "")

abbrev at : ℕ → ValidateIo
at t = record { now = t; readable = true; touched = true }

revoke-is_valid_example :
    ((revoke (memory Document) hash text_of int_of "a1" (answered true) one_key).1 ≡ true)
    × ((is_valid
          (memory Document)
          hash
          text_of
          int_of
          "secret"
          (at 120)
          (revoke (memory Document) hash text_of int_of "a1" (answered true) one_key).0).1
        ≡ false)
revoke-is_valid_example =
    revoke-is_valid (memory Document) hash text_of int_of (memory-IsLawful Document) "secret" "a1"
      alice (at 120) one_key nonempty alice_stored refl alice_only

revoke_not_deleted_example :
    ((revoke (memory Document) hash text_of int_of "a1" (answered false) one_key).1 ≡ true)
    × ((is_valid
          (memory Document)
          hash
          text_of
          int_of
          "secret"
          (at 120)
          (revoke (memory Document) hash text_of int_of "a1" (answered false) one_key).0).1
        ≡ true)
revoke_not_deleted_example =
    revoke_not_deleted (memory Document) hash text_of int_of (memory-IsLawful Document) "secret"
      "a1" alice (at 120) one_key nonempty refl alice_stored refl alice_only

revoke_undone_example :
    ((revoke (memory Document) hash text_of int_of "a1" (answered true) one_key).1 ≡ true)
    × ((is_valid (memory Document) hash text_of int_of "secret" (at 900) (
          finish_validation
            (memory Document)
            hash
            text_of
            int_of
            "secret"
            alice
            (at 120)
            (revoke (memory Document) hash text_of int_of "a1" (answered true) one_key).0)).1
        ≡ true)
revoke_undone_example =
    revoke_undone (memory Document) hash text_of int_of (memory-IsLawful Document) texts-ReadsBack
      "secret" "a1" alice (at 120) (at 900) one_key nonempty refl alice_stored refl alice_only refl

abbrev minting : MintIo
minting = record { exists_answered = true; key_id = "b2"; now = 130; put_done = true }

abbrev made : CreatedApiKey
made = record { key_id = "b2"; label = "bob"; secret = "other"; created_at = pos 130 }

other_is_new :
    (store_new_secret
      (memory Document)
      hash
      text_of
      int_of
      "bob"
      "other"
      true
      minting
      (record one_key { s3 = [] })).1
    ≡ created made
unfolding store_new_secret
other_is_new = refl

store_new_secret-is_valid_example :
    ((is_valid
        (memory Document)
        hash
        text_of
        int_of
        "other"
        (at 140)
        (store_new_secret
          (memory Document)
          hash
          text_of
          int_of
          "bob"
          "other"
          true
          minting
          (record one_key { s3 = [] })).0).1
      ≡ true)
    × (made.secret ≡ "other")
    × ((true && is_some ((memory Document).get [] (object_key "other"))) ≡ false)
store_new_secret-is_valid_example =
    store_new_secret-is_valid (memory Document) hash text_of int_of (memory-IsLawful Document)
      texts-ReadsBack "bob" "other" true minting (at 140) made (record one_key { s3 = [] })
      (ground (arith, eq_iff "other" "")) refl other_is_new
