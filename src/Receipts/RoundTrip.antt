-- ===== src/Receipts/RoundTrip.antt =====
-- From receipts/signing.py to receipts/verification.py: what is signed verifies.
use mathlib.Core.Option.{some-injective}
use openterms.Prelude.{
  some-none, ◌≡◌, refl, sym, ap, ◌∙◌, String, true, false, some, ◌++◌, eq_iff, ◌==◌, Bool-cases,
  inl, inr,
}
use openterms.Python.{
  Value, null, str, list, dict, Values, nil, cons, Fields, end, field, other, Builtins, ok, get,
  get_or, is_text, ok-injective, fail_ok,
}
use openterms.Receipts.Canonical.{Bytes, domain_separator, build_payload}
use openterms.Receipts.Crypto.{Crypto, CryptoLaws, hex}
use openterms.Receipts.Base64.{b64url_encode}
use openterms.Receipts.Base64.RoundTrip.{b64url_decode-encode}
use openterms.Receipts.Signing.{
  PrivateKeyInput, coerce_private_key, key_id_text, sign_receipt, public_key_to_jwk,
}
use openterms.Receipts.Signing.Signed.{sign_receipt-Signed}
use openterms.Receipts.Signing.Payloads.{build_payload-sign_receipt}
use openterms.Receipts.Verification.{
  VerifyResult, metadata_field, find_key, find_in, key_bytes, decode_value, verify_receipt,
}
use openterms.Receipts.Verification.Authentic.{SignedBy, verify_receipt_iff}

-- What the code relies on in `==` between texts.
pub record TextsEqual (py : Builtins) : Type 0 where
  pub same : (s : String) → py.equals (str s) (str s) ≡ true

-- The first key of a list whose "kid" equals the key id; what stands behind it is of any kind.
pub data FirstKey (py : Builtins) (kid : String) (jwk : Fields) : Values → Type 0 where
  here :
      {keys : Values}
      → py.equals (get_or jwk "kid" null) (str kid) ≡ true
      → FirstKey py kid jwk (cons (dict jwk) keys)
  behind :
      {k : Fields} {keys : Values}
      → py.equals (get_or k "kid" null) (str kid) ≡ false
      → FirstKey py kid jwk keys
      → FirstKey py kid jwk (cons (dict k) keys)

find_key-FirstKey :
    (py : Builtins) (kid : String) (jwk : Fields) {keys : Values}
    → FirstKey py kid jwk keys
    → find_key py (str kid) keys ≡ ok (some jwk)
unfolding find_key
find_key-FirstKey py kid jwk (FirstKey.here same) = rw (find_key, same) refl
find_key-FirstKey py kid jwk (FirstKey.behind apart first) =
    rw (find_key, apart) (find_key-FirstKey py kid jwk first)

-- The key that `public_key_to_jwk` gives has the key id.
pub public_key_to_jwk-first :
    (py : Builtins) (kid : String) (raw : Bytes) (keys : Values)
    → TextsEqual py
    → FirstKey py kid (public_key_to_jwk raw kid) (cons (dict (public_key_to_jwk raw kid)) keys)
unfolding public_key_to_jwk get_or
public_key_to_jwk-first py kid raw keys equal = FirstKey.here (equal.same kid)

get_or-there :
    (d : Fields) (k : String) (default : Value) {v : Value}
    → get d k ≡ some v
    → get_or d k default ≡ v
unfolding get_or get
get_or-there end k default there = absurd (some-none (sym there))
get_or-there (other j w d) k default there = get_or-there d k default there
get_or-there (field j w d) k default there = elim (Bool-cases (j == k)) [
  | inl same ↦ rw (get_or, same) (some-injective _ _ (rw (get, same) at there))
  | inr apart ↦ rw (get_or, apart) (get_or-there d k default (rw (get, apart) at there))
]

metadata-get :
    (k : String) (receipt : Fields) (v : Value)
    → get receipt k ≡ some v
    → metadata_field k receipt ≡ ok v
unfolding metadata_field
metadata-get k receipt v there = rw (metadata_field, there) refl

SignedBy-made :
    (crypto : Crypto) (seed hash_bytes : Bytes) (kid : String)
    → CryptoLaws crypto
    → SignedBy crypto
        (str (b64url_encode (crypto.sign seed (domain_separator ++ hash_bytes))))
        hash_bytes
        (public_key_to_jwk (crypto.public_key seed) kid)
unfolding public_key_to_jwk key_bytes decode_value get get_or is_text
SignedBy-made crypto seed hash_bytes kid laws = record {
  kind = refl;
  pub_bytes = crypto.public_key seed;
  key_decoded = b64url_decode-encode (crypto.public_key seed) (laws.public_key-AllBytes seed);
  key_size = rw (laws.length-public_key seed) refl;
  sig_bytes = crypto.sign seed (domain_separator ++ hash_bytes);
  signature_decoded =
      b64url_decode-encode _ (laws.sign-AllBytes seed (domain_separator ++ hash_bytes));
  signature_size = rw (laws.length-sign seed (domain_separator ++ hash_bytes)) refl;
  verified = laws.verify-sign seed (domain_separator ++ hash_bytes);
}

key_id_text-ok :
    (kid : String) {name : String}
    → key_id_text (str kid) ≡ ok name
    → key_id_text (str kid) ≡ ok kid
unfolding key_id_text
key_id_text-ok kid named = elim (Bool-cases (kid == "")) [
  | inl empty ↦ absurd (fail_ok (rw (key_id_text, empty) at named))
  | inr full ↦ rw (key_id_text, full) refl
]

-- Under the laws of Ed25519 and when equal texts compare equal, what sign_receipt returns for a
-- payload that build_payload made, verify_receipt finds valid under every JWKS whose "keys" are a
-- list in which the first key with the key id is what public_key_to_jwk gives for the key that
-- signed, whatever keys with other key ids stand before it and whatever stands behind it.
pub verify_receipt-sign_receipt :
    (py : Builtins) (crypto : Crypto) (receipt payload : Fields) (private_key : PrivateKeyInput)
    (seed : Bytes) (kid : String) (signed jwks : Fields) (keys : Values)
    → TextsEqual py
    → CryptoLaws crypto
    → build_payload receipt ≡ ok payload
    → sign_receipt py crypto (dict payload) private_key (str kid) ≡ ok signed
    → coerce_private_key py private_key ≡ ok seed
    → get jwks "keys" ≡ some (list keys)
    → FirstKey py kid (public_key_to_jwk (crypto.public_key seed) kid) keys
    → (r : VerifyResult) × (verify_receipt py crypto signed jwks ≡ ok r) × (r.valid ≡ true)
unfolding find_in get_or is_text
verify_receipt-sign_receipt py crypto receipt payload private_key seed kid signed jwks keys equal
      laws built returned coerced listed first =
    let (seed', name, coerced', named, made) =
      sign_receipt-Signed py crypto payload private_key (str kid) signed returned in
    let seed_same : seed' ≡ seed = ok-injective (sym coerced' ∙ coerced) in
    let name_same : name ≡ kid = ok-injective (sym named ∙ key_id_text-ok kid named) in
    let hash_bytes : Bytes = crypto.sha256 made.canonical_bytes in
    (verify_receipt_iff py crypto signed jwks).1 (record {
      claimed = str (hex hash_bytes);
      claims = metadata-get "canonical_hash" signed _ made.hash_entry;
      signature = str (b64url_encode (crypto.sign seed (domain_separator ++ hash_bytes)));
      signs = metadata-get "signature" signed _ (rw seed_same at made.signature_entry);
      key_id = str kid;
      names = metadata-get "key_id" signed _ (rw name_same at made.key_id_entry);
      payload = payload;
      built =
          build_payload-sign_receipt py crypto receipt payload private_key (str kid) signed built
            returned;
      canonical_bytes = made.canonical_bytes;
      canonical = made.canonical;
      hashed = (eq_iff (hex hash_bytes) (hex hash_bytes)).1 refl;
      jwk = public_key_to_jwk (crypto.public_key seed) kid;
      found =
          ap (λ v. find_in py (str kid) v) (get_or-there jwks "keys" (list nil) listed)
          ∙ find_key-FirstKey py kid _ first;
      signed = SignedBy-made crypto seed hash_bytes kid laws;
    })
