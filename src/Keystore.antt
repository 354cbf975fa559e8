-- ===== src/Keystore.antt =====
-- src/clients/weather_stations_keystore.py: API keys, each stored as one object that is named by the
-- hash of its secret. The bucket is an argument, and so are the hash and Python's `str()` and `int()`
-- of a JSON value. A time is in whole seconds. Log lines are left out.
pub mod Records
pub mod Revocation
pub mod Undone
pub mod Minting
use Prim.Native.String.{◌++◌ as ◌<>◌, len, slice}
use text.Mathlib.Text.{starts_with}
use data_service.Common.{
  ℕ, ◌+◌, ◌-◌, String, Bool, true, false, not, ◌&&◌, Option, none, some, List, [], ◌∷◌, ltb, str_eq,
  is_some, if◌then◌else◌,
}
use data_service.Common.Int.{ℤ, pos, lt_ℤ}
use data_service.Common.Json.{
  Json, Document, Fields, null, int, str, obj, end, field, get, get_or_null, as_dict,
}
use data_service.Common.Bucket.{Bucket}
use data_service.Common.Sort.{sort}

pub record ApiKeyRecord : Type 0 where
  pub key_id : String
  pub label : String
  pub created_at : ℤ
  pub last_used_at : Option ℤ

pub record CreatedApiKey : Type 0 where
  pub key_id : String
  pub label : String
  pub secret : String
  pub created_at : ℤ

-- `_object_key`
unfoldable pub object_key : String → String
object_key key_hash = "keys/" <> (key_hash <> ".json")

-- `endswith`
abbrev pub ends_with : String → String → Bool
ends_with s t = not (ltb (len s) (len t)) && str_eq (slice s (len s - len t) (len s)) t

-- `_extract_hash_from_object_key`
unfoldable pub extract_hash_from_object_key : String → Option String
extract_hash_from_object_key k =
    let key_hash = slice k (len "keys/") (len k - len ".json") in
    if not (starts_with k "keys/")
    then none
    else (if not (ends_with k ".json")
        then none
        else (if str_eq key_hash "" then none else some key_hash))

abbrev pub optional_int : Option ℤ → Json
optional_int none = null
optional_int (some n) = int n

-- `_encode_record`
unfoldable pub encode_record : ApiKeyRecord → Document
encode_record r = some (
    obj (
      field "key_id" (str r.key_id) (
        field "label" (str r.label) (
          field "created_at" (int r.created_at)
            (field "last_used_at" (optional_int r.last_used_at) end)))))

infixl 5 ◌>>=◌
abbrev pub ◌>>=◌ {ℓ κ} : {A : Type ℓ} {B : Type κ} → Option A → (A → Option B) → Option B
none >>= f = none
some a >>= f = f a

module _ (text_of : Json → String) (int_of : Json → Option ℤ) where
  -- `last_used_at`: absent and `null` are `None`, and what is no number is an error
  abbrev pub last_used : Json → Option (Option ℤ)
  last_used null = some none
  last_used j = do n ← int_of j; some (some n)

  abbrev pub decode_fields : Fields → Option ApiKeyRecord
  decode_fields fs = do
    key_id ← get "key_id" fs
    label ← get "label" fs
    created ← get "created_at" fs
    created_at ← int_of created
    last_used_at ← last_used (get_or_null "last_used_at" fs)
    some (record {
      key_id = text_of key_id;
      label = text_of label;
      created_at = created_at;
      last_used_at = last_used_at;
    })

  -- `_decode_record`
  unfoldable pub decode_record : Document → Option ApiKeyRecord
  decode_record body = do j ← body; fs ← as_dict j; decode_fields fs

-- Newest first: `sort(key=…, reverse=True)` keeps the order of equal ones too.
abbrev pub newer : ApiKeyRecord → ApiKeyRecord → Bool
newer a b = lt_ℤ b.created_at a.created_at

-- what the world answers to a new key: the HEAD request and the PUT request may fail
pub record MintIo : Type 0 where
  pub exists_answered : Bool
  pub key_id : String
  pub now : ℕ
  pub put_done : Bool

pub data Minted : Type 0 where
  created : CreatedApiKey → Minted
  secret_already_in_use s3_error : Minted

-- The answers to a revocation: whether the listing came, which objects could be read, and whether the
-- DELETE request went through.
pub record RevokeIo : Type 0 where
  pub listed : Bool
  pub readable : String → Bool
  pub deleted : Bool

-- the answers to a validation: the time, whether the object could be read, and whether the PUT
-- request of the touch went through
pub record ValidateIo : Type 0 where
  pub now : ℕ
  pub readable : Bool
  pub touched : Bool

abbrev pub validation_cache_ttl_seconds : ℕ
validation_cache_ttl_seconds = 60

abbrev pub forget : Option String → (String → Option ℕ) → (String → Option ℕ)
forget none cache = cache
forget (some key_hash) cache = λ h. if str_eq h key_hash then none else cache h

abbrev pub is_key : String → Option ApiKeyRecord → Bool
is_key key_id none = false
is_key key_id (some r) = str_eq r.key_id key_id

abbrev pub unexpired : Option ℕ → ℕ → Bool
unexpired none now = false
unexpired (some expiry) now = ltb now expiry

module _ (B : Bucket Document) (sha256 : String → String) (text_of : Json → String)
    (int_of : Json → Option ℤ) where
  -- the bucket, and the positive validations with their expiry
  pub record WeatherStationsKeystore : Type 0 where
    pub s3 : B.State
    pub validation_cache : String → Option ℕ

  -- `download_tile` gives `None` for what it cannot read, and the record is then skipped
  abbrev pub load : Bool → String → B.State → Option ApiKeyRecord
  load readable k s =
      if readable then (do body ← B.get s k; decode_record text_of int_of body) else none

  abbrev pub put_record : String → ApiKeyRecord → B.State → B.State
  put_record key_hash r s = B.put s (object_key key_hash) (encode_record r)

  -- `_store_new_secret`
  unfoldable pub store_new_secret :
      String → String → Bool → MintIo → WeatherStationsKeystore → WeatherStationsKeystore × Minted
  store_new_secret label secret allow_new_only io k =
      let key_hash = sha256 secret in
      let now = pos io.now in
      let fresh : ApiKeyRecord = record {
        key_id = io.key_id;
        label = label;
        created_at = now;
        last_used_at = none;
      } in
      let made =
        created (record { key_id = io.key_id; label = label; secret = secret; created_at = now }) in
      if allow_new_only && not io.exists_answered
      then (k, s3_error)
      else (if allow_new_only && is_some (B.get k.s3 (object_key key_hash))
          then (k, secret_already_in_use)
          else (if io.put_done
              then (record k { s3 = put_record key_hash fresh k.s3 }, made)
              else (k, s3_error)))

  -- `create`, for the secret that was drawn
  abbrev pub create :
      String → String → MintIo → WeatherStationsKeystore → WeatherStationsKeystore × Minted
  create label drawn io k = store_new_secret label drawn false io k

  abbrev pub add_custom :
      String → String → MintIo → WeatherStationsKeystore → WeatherStationsKeystore × Minted
  add_custom label secret io k = store_new_secret label secret true io k

  -- the readable records under the keys, in their order
  abbrev pub records_at : (String → Bool) → List String → B.State → List ApiKeyRecord
  records_at readable [] s = []
  records_at readable (k ∷ ks) s =
      let rest = records_at readable ks s in
      elim (load (readable k) k s) [ none ↦ rest | some r ↦ r ∷ rest ]

  abbrev pub listed_keys : Bool → B.State → List String
  listed_keys answered s = if answered then B.keys s "keys/" else []

  -- `list_all`
  unfoldable pub list_all : Bool → (String → Bool) → WeatherStationsKeystore → List ApiKeyRecord
  list_all answered readable k = sort newer (records_at readable (listed_keys answered k.s3) k.s3)

  -- what `revoke` does at the object whose record has the id
  abbrev pub drop_key : Bool → String → WeatherStationsKeystore → WeatherStationsKeystore
  drop_key deleted object k = record {
    s3 = if deleted then B.delete k.s3 object else k.s3;
    validation_cache = forget (extract_hash_from_object_key object) k.validation_cache;
  }

  -- the first of the objects whose record has the id
  abbrev pub find_key : (String → Bool) → String → B.State → List String → Option String
  find_key readable key_id s [] = none
  find_key readable key_id s (object ∷ objects) =
      if is_key key_id (load (readable object) object s)
      then some object
      else find_key readable key_id s objects

  -- `revoke`
  unfoldable pub revoke :
      String → RevokeIo → WeatherStationsKeystore → WeatherStationsKeystore × Bool
  revoke key_id io k = elim (find_key io.readable key_id k.s3 (listed_keys io.listed k.s3)) [
    | none ↦ (k, false)
    | some object ↦ (drop_key io.deleted object k, true)
  ]

  -- `_best_effort_touch`
  abbrev pub best_effort_touch :
      String → ApiKeyRecord → ℕ → Bool → WeatherStationsKeystore → WeatherStationsKeystore
  best_effort_touch key_hash r now done k =
      if done
      then record k { s3 = put_record key_hash (record r { last_used_at = some (pos now) }) k.s3 }
      else k

  -- what `is_valid` does once the record is read: it remembers the hash and touches the object
  unfoldable pub finish_validation :
      String → ApiKeyRecord → ValidateIo → WeatherStationsKeystore → WeatherStationsKeystore
  finish_validation key_hash r io k = best_effort_touch key_hash r io.now io.touched (record k {
    validation_cache = λ h.
        if str_eq h key_hash
        then some (io.now + validation_cache_ttl_seconds)
        else k.validation_cache h;
  })

  -- `is_valid`
  unfoldable pub is_valid :
      String → ValidateIo → WeatherStationsKeystore → WeatherStationsKeystore × Bool
  is_valid presented io k =
      let key_hash = sha256 presented in
      if str_eq presented ""
      then (k, false)
      else (if unexpired (k.validation_cache key_hash) io.now
          then (k, true)
          else elim (load io.readable (object_key key_hash) k.s3) [
            | none ↦ (k, false)
            | some r ↦ (finish_validation key_hash r io k, true)
          ])
