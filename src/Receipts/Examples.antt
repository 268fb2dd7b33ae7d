-- ===== src/Receipts/Examples.antt =====
-- Runs of signing and verification, and their theorems at concrete inputs.
use openterms.Prelude.{String, ◌≡◌, ◌↔◌, refl, true, [], ◌∷◌}
use openterms.Prelude.Int.{pos}
use openterms.Python.{
  nil, get_or, get, bool, dict, put, null, int, str, Fields, end, field, ok, codes, is_text,
}
use openterms.Receipts.Canonical.{build_payload, Bytes, canonicalize, validate, strip_nulls}
use openterms.Receipts.Canonical.Json.{utf8, emit}
use openterms.Receipts.Base64.{b64url_encode, b64url_decode}
use openterms.Receipts.Crypto.{no_bytes, more_bytes}
use openterms.Receipts.Signing.{
  build_jwks, jwk_list, public_key_to_jwk, seed_bytes, sign_receipt, coerce_private_key,
  key_id_text,
}
use openterms.Receipts.Base64.RoundTrip.{b64url_decode-encode}
use openterms.Receipts.RoundTrip.{FirstKey, public_key_to_jwk-first, verify_receipt-sign_receipt}
use openterms.Samples.{key_one, copies, toy, plain, toy-CryptoLaws, plain-TextsEqual}
use openterms.Receipts.Verification.{VerifyResult, verify_receipt}
use openterms.Receipts.Signing.Payloads.{build_payload-sign_receipt}
use openterms.Receipts.Canonical.Reordered.{SameValue, SameFields, canonicalize-SameFields}
use openterms.Receipts.Signing.Accepted.{sign_receipt-returns}
use openterms.Receipts.Signing.Signed.{Signed, sign_receipt-Signed}
use openterms.Receipts.Verification.Authentic.{Authentic, verify_receipt_iff}

abbrev payload : Fields
payload = field "workspace_id" (str "w") (
    field "agent_id" (str "a") (
      field "action_type" (str "buy") (
        field "terms_url" (str "u") (
          field "terms_hash" (str "h") (
            field "timestamp" (str "t") (
              field "pricing_version" (str "v1") (
                field "receipt_id" (str "r")
                  (field "amount_charged" (int (pos 5)) (field "created_at" (str "t") end)))))))))

abbrev jwks : Fields
jwks = build_jwks ((copies 32 1, "k1") ∷ [])

abbrev received : Fields
received =
    field "canonical_hash" (str "b4")
      (field "signature" (str (b64url_encode (copies 64 9))) (field "key_id" (str "k1") payload))

b64url_test : b64url_decode (b64url_encode (0 ∷ 255 ∷ 62 ∷ 7 ∷ [])) ≡ ok (0 ∷ 255 ∷ 62 ∷ 7 ∷ [])
unfolding b64url_decode b64url_encode
b64url_test = refl

canonicalize_test :
    canonicalize plain (field "b" null (field "é" (int (pos 10)) (field "a" (str "x\ny") end)))
    ≡ ok (utf8 (codes "{\"a\":\"x\\ny\",\"é\":10}"))
unfolding canonicalize utf8 codes validate emit strip_nulls
canonicalize_test = refl

verify_receipt_iff_example :
    ((r : VerifyResult) × (verify_receipt plain toy received jwks ≡ ok r) × (r.valid ≡ true))
    ↔ Authentic plain toy received jwks
verify_receipt_iff_example = verify_receipt_iff plain toy received jwks

abbrev signed_payload : Fields
signed_payload =
    put "key_id" (str "k1") (
      put "signature" (str (b64url_encode (copies 64 9))) (put "canonical_hash" (str "b4") payload))

sign_receipt-Signed_example :
    (seed : Bytes) × (name : String) × (coerce_private_key plain (seed_bytes (copies 32 1))
      ≡ ok seed)
    × (key_id_text (str "k1") ≡ ok name)
    × Signed plain toy payload seed name signed_payload
unfolding sign_receipt validate utf8 emit strip_nulls
sign_receipt-Signed_example =
    sign_receipt-Signed plain toy payload (seed_bytes (copies 32 1)) (str "k1") signed_payload refl

-- the payload behind a field that is None
abbrev unordered : Fields
unordered = field "issuer" null payload

build_payload-sign_receipt_example : build_payload signed_payload ≡ ok payload
unfolding sign_receipt validate utf8 emit strip_nulls build_payload
build_payload-sign_receipt_example =
    build_payload-sign_receipt plain toy unordered payload (seed_bytes (copies 32 1)) (str "k1")
      signed_payload refl refl

b64url_decode-encode_example :
    b64url_decode (b64url_encode (255 ∷ 0 ∷ 7 ∷ 16 ∷ [])) ≡ ok (255 ∷ 0 ∷ 7 ∷ 16 ∷ [])
b64url_decode-encode_example =
    b64url_decode-encode (255 ∷ 0 ∷ 7 ∷ 16 ∷ [])
      (more_bytes refl (more_bytes refl (more_bytes refl (more_bytes refl no_bytes))))

verify_receipt-sign_receipt_example :
    (r : VerifyResult) × (verify_receipt plain toy signed_payload
        (build_jwks ((copies 32 1, "k0") ∷ (copies 32 7, "k1") ∷ []))
      ≡ ok r)
    × (r.valid ≡ true)
unfolding sign_receipt validate utf8 emit strip_nulls build_payload is_text build_jwks get_or
    public_key_to_jwk get
verify_receipt-sign_receipt_example =
    verify_receipt-sign_receipt plain toy unordered payload (seed_bytes (copies 32 1)) (copies 32 1)
      "k1" signed_payload (build_jwks ((copies 32 1, "k0") ∷ (copies 32 7, "k1") ∷ []))
      (jwk_list ((copies 32 1, "k0") ∷ (copies 32 7, "k1") ∷ [])) plain-TextsEqual toy-CryptoLaws
      refl refl refl refl
      (FirstKey.behind {k = public_key_to_jwk (copies 32 1) "k0"} refl
        (public_key_to_jwk-first plain "k1" (copies 32 7) nil plain-TextsEqual))

sign_receipt-returns_example :
    (signed : Fields) × (sign_receipt plain toy (dict payload) (seed_bytes (copies 32 1)) (str "k1")
      ≡ ok signed)
unfolding build_payload validate
sign_receipt-returns_example =
    sign_receipt-returns plain toy unordered (seed_bytes (copies 32 1)) "k1" refl key_one refl refl

abbrev b_first : Fields
b_first = field "b" (bool true) (field "a" (str "x") end)

abbrev a_first : Fields
a_first = field "a" (str "x") (field "c" null (field "b" (bool true) end))

b_first-a_first : SameFields b_first a_first
b_first-a_first =
    SameFields.through (SameFields.swapped refl)
      (SameFields.more_fields SameValue.unchanged (SameFields.turned SameFields.without_null))

abbrev both_bytes : Bytes
both_bytes = utf8 (codes "{\"a\":\"x\",\"b\":true}")

canonicalize-SameFields_example : both_bytes ≡ both_bytes
unfolding canonicalize validate utf8 emit strip_nulls codes
canonicalize-SameFields_example =
    canonicalize-SameFields plain b_first a_first b_first-a_first refl refl
