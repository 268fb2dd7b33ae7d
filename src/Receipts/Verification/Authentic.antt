-- ===== src/Receipts/Verification/Authentic.antt =====
-- When verify_receipt accepts a receipt.
use mathlib.Core.Bool.{false≢true}
use openterms.Prelude.{
  ℕ, ◌≡◌, ◌↔◌, ◌⊎◌, refl, ap, ◌∙◌, String, true, Option, none, some, ◌++◌, length, eqb, ◌&&◌,
  Bool-cases, inl, inr,
}
use openterms.Python.{
  fail_ok, Value, null, list, nil, Fields, Builtins, Result, ok, fail, get_or, is_text, bind-ok,
  ok-injective,
}
use openterms.Receipts.Canonical.{Bytes, domain_separator, canonicalize, build_payload}
use openterms.Receipts.Crypto.{Crypto, hex}
use openterms.Receipts.Verification.{
  VerifyResult, fail_with, metadata_field, find_in, decode_value, key_bytes, sized_or,
  is_value_or_key_error, verify_with, verify_found, verify_hashed, verify_receipt,
}

-- The key is an Ed25519 key of 32 bytes, under which the receipt's signature, of 64 bytes, verifies
-- for the domain separator and the hash.
pub record SignedBy (crypto : Crypto) (signature : Value) (hash_bytes : Bytes) (jwk : Fields)
    : Type 0 where
  pub kind :
      (is_text (get_or jwk "kty" null) "OKP" && is_text (get_or jwk "crv" null) "Ed25519") ≡ true
  pub pub_bytes : Bytes
  pub key_decoded : key_bytes jwk ≡ ok pub_bytes
  pub key_size : eqb (length pub_bytes) 32 ≡ true
  pub sig_bytes : Bytes
  pub signature_decoded : decode_value signature ≡ ok sig_bytes
  pub signature_size : eqb (length sig_bytes) 64 ≡ true
  pub verified : crypto.verify pub_bytes sig_bytes (domain_separator ++ hash_bytes) ≡ true

sized_or-ok :
    {A : Type 0} (n : ℕ) (decoded : Result Bytes) (failure : A) (rest : Bytes → Result A) {x : A}
    → sized_or n decoded failure rest ≡ ok x
    → (failure ≡ x)
      ⊎ ((bytes : Bytes) × (decoded ≡ ok bytes)
          × (eqb (length bytes) n ≡ true)
          × (rest bytes ≡ ok x))
unfolding sized_or
sized_or-ok n (fail e) failure rest returned = elim (Bool-cases (is_value_or_key_error e)) [
  | inl caught ↦ inl (ok-injective (rw (sized_or, caught) at returned))
  | inr raised ↦ absurd (fail_ok (rw (sized_or, raised) at returned))
]
sized_or-ok n (ok bytes) failure rest returned = elim (Bool-cases (eqb (length bytes) n)) [
  | inl sized ↦ inr (bytes, refl, sized, rw (sized_or, sized) at returned)
  | inr wrong ↦ inl (ok-injective (rw (sized_or, wrong) at returned))
]

-- a result of `_fail` is not valid
invalid :
    (error : String) (key_id : Value) (hash : String) {r : VerifyResult}
    → fail_with error key_id hash ≡ r
    → ¬ (r.valid ≡ true)
unfolding fail_with
invalid error key_id hash same valid = false≢true (ap (λ r. r.valid) same ∙ valid)

verify_with-valid :
    (crypto : Crypto) (key_id signature : Value) (hash_bytes : Bytes) (hash_hex : String)
    (jwk : Fields) (r : VerifyResult)
    → verify_with crypto key_id signature hash_bytes hash_hex jwk ≡ ok r
    → r.valid ≡ true
    → SignedBy crypto signature hash_bytes jwk
unfolding verify_with
verify_with-valid crypto key_id signature hash_bytes hash_hex jwk r returned valid =
    elim (Bool-cases
      (is_text (get_or jwk "kty" null) "OKP" && is_text (get_or jwk "crv" null) "Ed25519")) [
        | inr wrong ↦ absurd (
            invalid "UNSUPPORTED_KEY_TYPE" key_id hash_hex
              (ok-injective (rw (verify_with, wrong) at returned)) valid)
        | inl kind ↦
            (elim (sized_or-ok 32 (key_bytes jwk) _ _ (rw (verify_with, kind) at returned)) [
              | inl failed ↦ absurd (invalid "INVALID_KEY_LENGTH" key_id hash_hex failed valid)
              | inr (pub_bytes, key_decoded, key_size, decoded) ↦
                  (elim (sized_or-ok 64 (decode_value signature) _ _ decoded) [
                    | inl failed ↦
                        absurd (invalid "INVALID_SIGNATURE_LENGTH" key_id hash_hex failed valid)
                    | inr (sig_bytes, signature_decoded, signature_size, checked) ↦
                        (elim (Bool-cases
                          (crypto.verify pub_bytes sig_bytes (domain_separator ++ hash_bytes))) [
                            | inr refused ↦ absurd (
                                invalid "INVALID_SIGNATURE" key_id hash_hex
                                  (ok-injective (rw (fail_with, refused) at checked)) valid)
                            | inl verified ↦ record {
                              kind = kind;
                              pub_bytes = pub_bytes;
                              key_decoded = key_decoded;
                              key_size = key_size;
                              sig_bytes = sig_bytes;
                              signature_decoded = signature_decoded;
                              signature_size = signature_size;
                              verified = verified;
                            }
                          ])
                  ])
            ])
      ]

-- What a signed receipt gives for the result.
SignedBy-valid :
    (crypto : Crypto) (key_id signature : Value) (hash_bytes : Bytes) (hash_hex : String)
    (jwk : Fields)
    → SignedBy crypto signature hash_bytes jwk
    → verify_with crypto key_id signature hash_bytes hash_hex jwk
      ≡ ok (record { valid = true; error = none; key_id = key_id; canonical_hash = hash_hex })
unfolding verify_with sized_or
SignedBy-valid crypto key_id signature hash_bytes hash_hex jwk s =
    rw (s.kind, s.key_decoded)
      (rw (sized_or, s.key_size, s.signature_decoded)
        (rw (sized_or, s.signature_size, s.verified) refl))

-- What `verify_receipt` asks of a receipt: all its fields are there, the hash that it claims is the
-- hash of the canonical form of its payload, and the first key of the document with the receipt's key
-- id has signed that hash.
pub record Authentic (py : Builtins) (crypto : Crypto) (receipt jwks : Fields) : Type 0 where
  pub claimed : Value
  pub claims : metadata_field "canonical_hash" receipt ≡ ok claimed
  pub signature : Value
  pub signs : metadata_field "signature" receipt ≡ ok signature
  pub key_id : Value
  pub names : metadata_field "key_id" receipt ≡ ok key_id
  pub payload : Fields
  pub built : build_payload receipt ≡ ok payload
  pub canonical_bytes : Bytes
  pub canonical : canonicalize py payload ≡ ok canonical_bytes
  pub hashed : is_text claimed (hex (crypto.sha256 canonical_bytes)) ≡ true
  pub jwk : Fields
  pub found : find_in py key_id (get_or jwks "keys" (list nil)) ≡ ok (some jwk)
  pub signed : SignedBy crypto signature (crypto.sha256 canonical_bytes) jwk

verify_found-valid :
    (crypto : Crypto) (key_id signature : Value) (hash_bytes : Bytes) (hash_hex : String)
    (found : Option Fields) (r : VerifyResult)
    → verify_found crypto key_id signature hash_bytes hash_hex found ≡ ok r
    → r.valid ≡ true
    → (jwk : Fields) × (found ≡ some jwk) × SignedBy crypto signature hash_bytes jwk
unfolding verify_found
verify_found-valid crypto key_id signature hash_bytes hash_hex none r returned valid =
    absurd (invalid "KEY_NOT_FOUND" key_id hash_hex (ok-injective returned) valid)
verify_found-valid crypto key_id signature hash_bytes hash_hex (some jwk) r returned valid =
    (jwk, refl, verify_with-valid crypto key_id signature hash_bytes hash_hex jwk r returned valid)

verify_hashed-valid :
    (py : Builtins) (crypto : Crypto) (claimed signature key_id : Value) (hash_bytes : Bytes)
    (jwks : Fields) (r : VerifyResult)
    → verify_hashed py crypto claimed signature key_id hash_bytes jwks ≡ ok r
    → r.valid ≡ true
    → (is_text claimed (hex hash_bytes) ≡ true)
      × (jwk : Fields) × (find_in py key_id (get_or jwks "keys" (list nil)) ≡ ok (some jwk))
      × SignedBy crypto signature hash_bytes jwk
unfolding verify_hashed
verify_hashed-valid py crypto claimed signature key_id hash_bytes jwks r returned valid =
    elim (Bool-cases (is_text claimed (hex hash_bytes))) [
      | inr differ ↦ absurd (
          invalid "HASH_MISMATCH" key_id (hex hash_bytes)
            (ok-injective (rw (verify_hashed, differ) at returned)) valid)
      | inl hashed ↦
          (let (o, looked, rest) =
              bind-ok (find_in py key_id (get_or jwks "keys" (list nil))) _
                (rw (verify_hashed, hashed) at returned) in
            let (jwk, found, signed) =
              verify_found-valid crypto key_id signature hash_bytes (hex hash_bytes) o r rest
                valid in
            (hashed, jwk, looked ∙ ap ok found, signed))
    ]

verify_receipt-valid :
    (py : Builtins) (crypto : Crypto) (receipt jwks : Fields) (r : VerifyResult)
    → verify_receipt py crypto receipt jwks ≡ ok r
    → r.valid ≡ true
    → Authentic py crypto receipt jwks
unfolding verify_receipt
verify_receipt-valid py crypto receipt jwks r returned valid =
    let (claimed, claims, rest1) = bind-ok (metadata_field "canonical_hash" receipt) _ returned in
    let (signature, signs, rest2) = bind-ok (metadata_field "signature" receipt) _ rest1 in
    let (key_id, names, rest3) = bind-ok (metadata_field "key_id" receipt) _ rest2 in
    let (payload, built, rest4) = bind-ok (build_payload receipt) _ rest3 in
    let (canonical_bytes, canonical, rest5) = bind-ok (canonicalize py payload) _ rest4 in
    let (hashed, jwk, found, signed) =
      verify_hashed-valid py crypto claimed signature key_id (crypto.sha256 canonical_bytes) jwks r
        rest5 valid in
    record {
      claimed = claimed;
      claims = claims;
      signature = signature;
      signs = signs;
      key_id = key_id;
      names = names;
      payload = payload;
      built = built;
      canonical_bytes = canonical_bytes;
      canonical = canonical;
      hashed = hashed;
      jwk = jwk;
      found = found;
      signed = signed;
    }

Authentic-valid :
    (py : Builtins) (crypto : Crypto) (receipt jwks : Fields) (a : Authentic py crypto receipt jwks)
    → verify_receipt py crypto receipt jwks
      ≡ ok (record {
        valid = true;
        error = none;
        key_id = a.key_id;
        canonical_hash = hex (crypto.sha256 a.canonical_bytes);
      })
unfolding verify_receipt verify_hashed verify_found
Authentic-valid py crypto receipt jwks a =
    rw (a.claims, a.signs, a.names, a.built, a.canonical)
      (rw (verify_hashed, a.hashed, a.found)
        (SignedBy-valid crypto a.key_id a.signature (crypto.sha256 a.canonical_bytes)
          (hex (crypto.sha256 a.canonical_bytes)) a.jwk a.signed))

-- `verify_receipt` returns a valid result exactly when the receipt has all its required fields, the
-- hash that it claims is that of the canonical form of its payload, and the first key of the JWKS with
-- its key id is an Ed25519 key of 32 bytes under which its signature, of 64 bytes, verifies for the
-- domain separator and the hash.
pub verify_receipt_iff :
    (py : Builtins) (crypto : Crypto) (receipt jwks : Fields)
    → ((r : VerifyResult) × (verify_receipt py crypto receipt jwks ≡ ok r) × (r.valid ≡ true))
      ↔ Authentic py crypto receipt jwks
verify_receipt_iff py crypto receipt jwks = (
  λ given. verify_receipt-valid py crypto receipt jwks given.0 given.1 given.2,
  λ a. (_, Authentic-valid py crypto receipt jwks a, refl),
)
