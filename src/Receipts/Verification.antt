-- ===== src/Receipts/Verification.antt =====
-- packages/openterms-py/openterms/receipts/verification.py.
pub mod Authentic
use openterms.Prelude.{
  String, Bool, true, false, Option, none, some, ℕ, List, [], ◌∷◌, ◌++◌, length, eqb, not, ◌&&◌,
  ◌==◌, if◌then◌else◌,
}
use openterms.Python.{
  Value, null, str, list, dict, Values, nil, cons, Fields, end, Builtins, value_error, type_error,
  key_error, index_error, attribute_error, canonicalization_error, policy_timeout, Error, Result,
  ok, fail, ◌>>=◌, ◌>>◌, ensure, get, get_or, has, is_text, join_text,
}
use openterms.Receipts.Canonical.{Bytes, domain_separator, canonicalize, build_payload}
use openterms.Receipts.Crypto.{Crypto, hex}
use openterms.Receipts.Base64.{b64url_decode}

pub record VerifyResult : Type 0 where
  pub valid : Bool
  pub error : Option String
  pub key_id : Value
  pub canonical_hash : String

-- `_fail`
unfoldable pub fail_with : String → Value → String → VerifyResult
fail_with error key_id computed_hash = record {
  valid = false;
  error = some error;
  key_id = key_id;
  canonical_hash = computed_hash;
}

-- if k not in receipt: raise ValueError(...); otherwise receipt[k]
unfoldable pub metadata_field : String → Fields → Result Value
unfolding get join_text
metadata_field k receipt = elim (get receipt k) [
  | none ↦ fail (value_error (join_text ("Missing required signature metadata field: " ∷ k ∷ [])))
  | some v ↦ ok v
]

-- k.get("kid"), None for a missing key
abbrev kid_of : Fields → Value
unfolding get_or
kid_of k = get_or k "kid" null

-- The loop over the keys: the first whose "kid" equals the receipt's.
unfoldable pub find_key : Builtins → Value → Values → Result (Option Fields)
unfolding get_or
find_key py key_id nil = ok none
find_key py key_id (cons (dict k) ks) = elim (py.equals (kid_of k) key_id) [
  | true ↦ ok (some k)
  | false ↦ find_key py key_id ks
]
find_key py key_id (cons _ ks) = fail attribute_error

-- What the loop does with the value of "keys". The elements of a dictionary or of a text are no
-- dictionaries, unless there are none.
unfoldable pub find_in : Builtins → Value → Value → Result (Option Fields)
unfolding find_key
find_in py key_id (list ks) = find_key py key_id ks
find_in py key_id (dict end) = ok none
find_in py key_id (dict _) = fail attribute_error
find_in py key_id (str s) = if s == "" then ok none else fail attribute_error
find_in py key_id _ = fail type_error

-- b64url_decode(v): a value without a length, or of another type, is a TypeError
unfoldable pub decode_value : Value → Result Bytes
unfolding b64url_decode
decode_value (str s) = b64url_decode s
decode_value _ = fail type_error

-- Where the code catches ValueError (and KeyError), which CanonicalizationError is one of.
unfoldable pub is_value_or_key_error : Error → Bool
is_value_or_key_error (value_error _) = true
is_value_or_key_error (canonicalization_error _) = true
is_value_or_key_error (key_error _) = true
is_value_or_key_error _ = false

-- try: bytes = decoded; except ValueError: return failure; if len(bytes) != n: return failure
unfoldable pub sized_or : {A : Type 0} → ℕ → Result Bytes → A → (Bytes → Result A) → Result A
unfolding is_value_or_key_error
sized_or n (fail e) failure rest = if is_value_or_key_error e then ok failure else fail e
sized_or n (ok bytes) failure rest = elim (eqb (length bytes) n) [
  | true ↦ rest bytes
  | false ↦ ok failure
]

-- b64url_decode(jwk["x"])
unfoldable pub key_bytes : Fields → Result Bytes
unfolding get decode_value
key_bytes jwk = elim (get jwk "x") [ none ↦ fail (key_error "x") | some x ↦ decode_value x ]

-- From the key's type on.
unfoldable pub verify_with : Crypto → Value → Value → Bytes → String → Fields → Result VerifyResult
unfolding fail_with is_text get_or key_bytes decode_value sized_or
verify_with crypto key_id signature hash_bytes hash_hex jwk =
    if is_text (get_or jwk "kty" null) "OKP" && is_text (get_or jwk "crv" null) "Ed25519"
    then sized_or 32 (key_bytes jwk) (fail_with "INVALID_KEY_LENGTH" key_id hash_hex) (λ pub_bytes.
      sized_or 64 (decode_value signature) (fail_with "INVALID_SIGNATURE_LENGTH" key_id hash_hex)
        (λ sig_bytes.
          if crypto.verify pub_bytes sig_bytes (domain_separator ++ hash_bytes)
          then ok
              (record { valid = true; error = none; key_id = key_id; canonical_hash = hash_hex })
          else ok (fail_with "INVALID_SIGNATURE" key_id hash_hex)))
    else ok (fail_with "UNSUPPORTED_KEY_TYPE" key_id hash_hex)

-- What is done with the key that was found.
unfoldable pub verify_found :
    Crypto → Value → Value → Bytes → String → Option Fields → Result VerifyResult
unfolding verify_with fail_with
verify_found crypto key_id signature hash_bytes hash_hex none =
    ok (fail_with "KEY_NOT_FOUND" key_id hash_hex)
verify_found crypto key_id signature hash_bytes hash_hex (some jwk) =
    verify_with crypto key_id signature hash_bytes hash_hex jwk

-- From the comparison of the hashes on.
unfoldable pub verify_hashed :
    Builtins → Crypto → Value → Value → Value → Bytes → Fields → Result VerifyResult
unfolding fail_with is_text get_or find_in verify_found hex
verify_hashed py crypto claimed signature key_id hash_bytes jwks =
    let hash_hex = hex hash_bytes in
    if is_text claimed hash_hex
    then (do
      jwk ← find_in py key_id (get_or jwks "keys" (list nil))
      verify_found crypto key_id signature hash_bytes hash_hex jwk)
    else ok (fail_with "HASH_MISMATCH" key_id hash_hex)

unfoldable pub verify_receipt : Builtins → Crypto → Fields → Fields → Result VerifyResult
unfolding metadata_field build_payload canonicalize verify_hashed
verify_receipt py crypto receipt jwks = do
  claimed ← metadata_field "canonical_hash" receipt
  signature ← metadata_field "signature" receipt
  key_id ← metadata_field "key_id" receipt
  payload ← build_payload receipt
  canonical_bytes ← canonicalize py payload
  verify_hashed py crypto claimed signature key_id (crypto.sha256 canonical_bytes) jwks
