-- ===== src/Keystore/Records.antt =====
-- The stored form of an API key, read back: its record and the hash in its object's name.
use Prim.Native.String.{◌++◌ as ◌<>◌, len, slice}
use text.Mathlib.Text.{starts_with}
use text.Mathlib.TextPositions.{
  len-append, slice-append_middle, slice-append_right, starts_with-append, eq_refl,
}
use text.Mathlib.TextLemmas.{append_assoc, append_cancel_left, append_cancel_right}
use data_service.Common.{
  ◌+◌, ◌-◌, ◌≡◌, ◌≢◌, refl, String, true, false, Option, none, some, arith, not-lt→ltb, str_eq,
  eq_iff,
}
use mathlib.Core.Path.{subst}
use data_service.Common.Int.{ℤ}
use data_service.Common.Json.{Json, int, str}
use data_service.Keystore.{
  ApiKeyRecord, object_key, ends_with, extract_hash_from_object_key, encode_record, decode_record,
  last_used, optional_int,
}

-- `str()` of a text is the text, and `int()` of a number the number.
pub record ReadsBack (text_of : Json → String) (int_of : Json → Option ℤ) : Type 0 where
  pub text_of_str : (s : String) → text_of (str s) ≡ s
  pub int_of_int : (n : ℤ) → int_of (int n) ≡ some n

last_used-optional :
    (text_of : Json → String) (int_of : Json → Option ℤ)
    → ReadsBack text_of int_of
    → (n : Option ℤ) → last_used text_of int_of (optional_int n) ≡ some n
last_used-optional text_of int_of back none = refl
last_used-optional text_of int_of back (some n) = rw (back.int_of_int n)

-- A record that was stored is read back as it was.
pub decode_record-encode_record :
    (text_of : Json → String) (int_of : Json → Option ℤ)
    → ReadsBack text_of int_of
    → (r : ApiKeyRecord) → decode_record text_of int_of (encode_record r) ≡ some r
unfolding decode_record encode_record
decode_record-encode_record text_of int_of back r =
    simp (back.int_of_int, back.text_of_str, last_used-optional text_of int_of back)

-- Different hashes name different objects.
pub object_key-injective : (h j : String) → object_key h ≡ object_key j → h ≡ j
unfolding object_key
object_key-injective h j e = append_cancel_right h j ".json" (append_cancel_left "keys/" _ _ e)

begins_key : (h : String) → starts_with (object_key h) "keys/" ≡ true
unfolding object_key
begins_key h = starts_with-append "keys/" (h <> ".json")

ends_with-append : (s t : String) → ends_with (s <> t) t ≡ true
ends_with-append s t =
    let total = len-append s t in
    let from : len (s <> t) - len t ≡ len s = omega (arith, total) in
    rw
      (
        not-lt→ltb (len (s <> t)) (len t) (omega (arith, total)),
        from,
        total,
        slice-append_right s t,
      )
      (eq_refl t)

-- the middle of an object's name
hash_slice : (h : String) → slice (object_key h) 5 (len (object_key h) - 5) ≡ h
unfolding object_key
hash_slice h =
    let up_to : len (object_key h) - 5 ≡ 5 + len h =
      omega (arith, len-append "keys/" (h <> ".json"), len-append h ".json") in
    rw up_to (slice-append_middle "keys/" h ".json")

ends_with-object_key : (h : String) → ends_with (object_key h) ".json" ≡ true
unfolding object_key
ends_with-object_key h =
    subst (λ k. ends_with k ".json" ≡ true) (append_assoc "keys/" h ".json")
      (ends_with-append ("keys/" <> h) ".json")

-- The hash is read back from its object's name, unless it is empty.
pub extract-object_key :
    (h : String) → h ≢ "" → extract_hash_from_object_key (object_key h) ≡ some h
unfolding extract_hash_from_object_key
extract-object_key h nonempty =
    let begins : starts_with (object_key h) "keys/" ≡ true = begins_key h in
    let named : str_eq h "" ≡ false = ground (arith, eq_iff h "") in
    rw (begins, ends_with-object_key h, hash_slice h, named) refl
