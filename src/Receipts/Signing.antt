-- ===== src/Receipts/Signing.antt =====
-- packages/openterms-py/openterms/receipts/signing.py, with `canonical_hash` and `signing_input` of
-- receipts/canonical.py.
pub mod Signed
pub mod Accepted
pub mod Payloads
use openterms.Prelude.{String, List, [], ◌∷◌, ◌++◌, length, eqb, not, ◌==◌, if◌then◌else◌}
use openterms.Prelude.Int.{pos}
use openterms.Python.{
  int, Value, str, list, dict, Values, nil, cons, Fields, end, field, other, Builtins, value_error,
  type_error, Result, ok, fail, ◌>>=◌, ◌>>◌, ensure, put, has, text_mem, texts, join_text,
}
use openterms.Receipts.Canonical.{
  Bytes, domain_separator, canonicalize, payload_keys_required, payload_keys_signed_envelope,
  payload_keys_optional,
}
use openterms.Receipts.Crypto.{Crypto, hex}
use openterms.Receipts.Base64.{b64url_encode}

unfoldable pub canonical_hash : Builtins → Crypto → Fields → Result String
unfolding canonicalize hex
canonical_hash py crypto payload = do
  canonical_bytes ← canonicalize py payload
  ok (hex (crypto.sha256 canonical_bytes))

unfoldable pub signing_input : Builtins → Crypto → Fields → Result Bytes
unfolding canonicalize
signing_input py crypto payload = do
  canonical_bytes ← canonicalize py payload
  ok (domain_separator ++ crypto.sha256 canonical_bytes)

-- `_SIGNED_KEYS`
abbrev pub signed_keys : List String
signed_keys = payload_keys_required ++ (payload_keys_signed_envelope ++ payload_keys_optional)

-- `_METADATA_KEYS`, in the order that `sorted` gives them
abbrev pub metadata_keys : List String
metadata_keys = "canonical_hash" ∷ "key_id" ∷ "signature" ∷ []

-- the argument `private_key`: an Ed25519PrivateKey, a bytes or bytearray object, or anything else
pub data PrivateKeyInput : Type 0 where
  key_object : Bytes → PrivateKeyInput
  seed_bytes : Bytes → PrivateKeyInput
  not_a_key : PrivateKeyInput

-- `_coerce_private_key`: the seed of the key that it returns
unfoldable pub coerce_private_key : Builtins → PrivateKeyInput → Result Bytes
unfolding join_text
coerce_private_key py (key_object seed) = ok seed
coerce_private_key py (seed_bytes bytes) =
    ensure (eqb (length bytes) 32) (
      value_error (
        join_text (
          "Ed25519 private key seed must be 32 bytes, got "
          ∷ py.str_of (int (pos (length bytes)))
          ∷ [])))
    >> ok bytes
coerce_private_key py not_a_key = fail type_error

-- sorted(_METADATA_KEYS & payload.keys())
unfoldable pub leaked_keys : List String → Fields → List String
unfolding has
leaked_keys [] payload = []
leaked_keys (k ∷ ks) payload =
    let rest = leaked_keys ks payload in if has payload k then k ∷ rest else rest

-- payload.keys() - _SIGNED_KEYS
unfoldable pub unknown_keys : Fields → Values
unfolding text_mem
unknown_keys end = nil
unknown_keys (field k v d) =
    let rest = unknown_keys d in if text_mem k signed_keys then rest else cons (str k) rest
unknown_keys (other k v d) = cons k (unknown_keys d)

-- not isinstance(key_id, str) or not key_id
unfoldable pub key_id_text : Value → Result String
key_id_text (str s) =
    ensure (not (s == "")) (value_error "key_id must be a non-empty string") >> ok s
key_id_text _ = fail (value_error "key_id must be a non-empty string")

unfoldable pub refuse_leaked : Builtins → List String → Result (Unit {0})
unfolding join_text texts
refuse_leaked py [] = ok tt
refuse_leaked py (k ∷ ks) = fail (
    value_error (
      join_text (
        "payload must not contain signature metadata keys: "
        ∷ py.str_of (list (texts (k ∷ ks)))
        ∷ [])))

unfoldable pub refuse_unknown : Builtins → Values → Result (Unit {0})
unfolding join_text
refuse_unknown py nil = ok tt
refuse_unknown py (cons k ks) = do
  in_order ← py.sorted_of (cons k ks)
  fail
      (value_error (join_text ("payload contains unknown keys: " ∷ py.str_of (list in_order) ∷ [])))

-- what `sign_receipt` returns once its arguments are checked
unfoldable pub sign_fields : Builtins → Crypto → Fields → Bytes → String → Result Fields
unfolding signing_input canonical_hash put b64url_encode
sign_fields py crypto payload seed key_id = do
  message ← signing_input py crypto payload
  let signature = crypto.sign seed message
  hash ← canonical_hash py crypto payload
  ok (
      put "key_id" (str key_id)
        (put "signature" (str (b64url_encode signature)) (put "canonical_hash" (str hash) payload)))

unfoldable pub sign_receipt : Builtins → Crypto → Value → PrivateKeyInput → Value → Result Fields
unfolding key_id_text refuse_leaked leaked_keys refuse_unknown unknown_keys coerce_private_key
    sign_fields
sign_receipt py crypto (dict payload) private_key key_id = do
  key_id ← key_id_text key_id
  refuse_leaked py (leaked_keys metadata_keys payload)
  refuse_unknown py (unknown_keys payload)
  seed ← coerce_private_key py private_key
  sign_fields py crypto payload seed key_id
sign_receipt py crypto _ private_key key_id = fail type_error

-- `generate_keypair`, from the seed that Ed25519PrivateKey.generate() draws: the keys as they stand here
unfoldable pub generate_keypair : Crypto → Bytes → Bytes × Bytes
generate_keypair crypto drawn = (drawn, crypto.public_key drawn)

unfoldable pub public_key_to_jwk : Bytes → String → Fields
unfolding b64url_encode
public_key_to_jwk raw kid = field "kty" (str "OKP") (
    field "crv" (str "Ed25519")
      (field "x" (str (b64url_encode raw)) (field "kid" (str kid) (field "use" (str "sig") end))))

unfoldable pub jwk_list : List (Bytes × String) → Values
unfolding public_key_to_jwk
jwk_list [] = nil
jwk_list ((raw, kid) ∷ keys) = cons (dict (public_key_to_jwk raw kid)) (jwk_list keys)

unfoldable pub build_jwks : List (Bytes × String) → Fields
unfolding jwk_list
build_jwks keys = field "keys" (list (jwk_list keys)) end
