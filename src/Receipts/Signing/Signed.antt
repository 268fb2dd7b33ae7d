-- ===== src/Receipts/Signing/Signed.antt =====
-- What sign_receipt returns.
use openterms.Prelude.{or-false, ◌≡◌, refl, sym, inl, inr, ◌∙◌, String, false, some, ◌++◌, ◌==◌}
use openterms.Python.{
  fail_ok, Value, str, dict, Fields, Builtins, ok, get, put, text_mem, Result-cases, bind-ok,
  ok-injective, get-put_same, get-put_other, test_sym,
}
use openterms.Receipts.Canonical.{Bytes, domain_separator, canonicalize}
use openterms.Receipts.Crypto.{Crypto, hex}
use openterms.Receipts.Base64.{b64url_encode}
use openterms.Receipts.Signing.{
  PrivateKeyInput, coerce_private_key, key_id_text, leaked_keys, metadata_keys, refuse_leaked,
  refuse_unknown, unknown_keys, sign_fields, sign_receipt, signing_input, canonical_hash,
}

-- A receipt holds the canonical hash of the payload, the signature of the domain separator and this
-- hash, and the key id. Its other entries are those of the payload.
pub record Signed (py : Builtins) (crypto : Crypto) (payload : Fields) (seed : Bytes)
    (key_id : String) (receipt : Fields) : Type 0 where
  pub canonical_bytes : Bytes
  pub canonical : canonicalize py payload ≡ ok canonical_bytes
  pub hash_entry : get receipt "canonical_hash" ≡ some (str (hex (crypto.sha256 canonical_bytes)))
  pub signature_entry :
      get receipt "signature"
      ≡ some (
          str
            (b64url_encode (crypto.sign seed (domain_separator ++ crypto.sha256 canonical_bytes))))
  pub key_id_entry : get receipt "key_id" ≡ some (str key_id)
  pub others : (k : String) → text_mem k metadata_keys ≡ false → get receipt k ≡ get payload k

put_all : Value → Value → Value → Fields → Fields
put_all hash signature key_id payload =
    put "key_id" key_id (put "signature" signature (put "canonical_hash" hash payload))

-- the three assignments
module _ (hash signature key_id : Value) (payload : Fields) where
  get-hash : get (put_all hash signature key_id payload) "canonical_hash" ≡ some hash
  unfolding put_all
  get-hash =
      get-put_other "key_id" key_id _ "canonical_hash" refl
      ∙ (get-put_other "signature" signature _ "canonical_hash" refl
          ∙ get-put_same "canonical_hash" hash payload)

  get-signature : get (put_all hash signature key_id payload) "signature" ≡ some signature
  unfolding put_all
  get-signature =
      get-put_other "key_id" key_id _ "signature" refl ∙ get-put_same "signature" signature _

  get-key_id : get (put_all hash signature key_id payload) "key_id" ≡ some key_id
  unfolding put_all
  get-key_id = get-put_same "key_id" key_id _

  get-rest :
      (k : String)
      → text_mem k metadata_keys ≡ false
      → get (put_all hash signature key_id payload) k ≡ get payload k
  unfolding put_all text_mem
  get-rest k outside =
      let (not_hash, more) = or-false (k == "canonical_hash") _ outside in
      let (not_key_id, more') = or-false (k == "key_id") _ more in
      let (not_signature, _) = or-false (k == "signature") _ more' in
      get-put_other "key_id" key_id _ k (test_sym k "key_id" not_key_id)
      ∙ (get-put_other "signature" signature _ k (test_sym k "signature" not_signature)
          ∙ get-put_other "canonical_hash" hash payload k (test_sym k "canonical_hash" not_hash))

sign_fields-Signed :
    (py : Builtins) (crypto : Crypto) (payload : Fields) (seed : Bytes) (key_id : String)
    (receipt : Fields)
    → sign_fields py crypto payload seed key_id ≡ ok receipt
    → Signed py crypto payload seed key_id receipt
unfolding sign_fields signing_input canonical_hash put_all
sign_fields-Signed py crypto payload seed key_id receipt returned =
    elim (Result-cases (canonicalize py payload)) [
      | inr (e, refused) ↦ absurd (fail_ok (rw (sign_fields, signing_input, refused) at returned))
      | inl (c, canonical) ↦
          (let hash : Value = str (hex (crypto.sha256 c)) in
            let signature : Value =
              str (b64url_encode (crypto.sign seed (domain_separator ++ crypto.sha256 c))) in
            let made : receipt ≡ put_all hash signature (str key_id) payload = sym (
              ok-injective
                (rw (sign_fields, signing_input, canonical_hash, canonical) at returned)) in
            record {
              canonical_bytes = c;
              canonical = canonical;
              hash_entry = rw made (get-hash hash signature (str key_id) payload);
              signature_entry = rw made (get-signature hash signature (str key_id) payload);
              key_id_entry = rw made (get-key_id hash signature (str key_id) payload);
              others =
                  λ k outside. rw made (get-rest hash signature (str key_id) payload k outside);
            })
    ]

-- When `sign_receipt` returns for a dictionary, the key id was a text and the key gave a seed, and the
-- receipt holds the hash of the canonical form of the payload, the signature by that key of the domain
-- separator and this hash, the key id, and for every other key what the payload has for it.
pub sign_receipt-Signed :
    (py : Builtins) (crypto : Crypto) (payload : Fields) (private_key : PrivateKeyInput)
    (key_id : Value) (receipt : Fields)
    → sign_receipt py crypto (dict payload) private_key key_id ≡ ok receipt
    → (seed : Bytes) × (name : String) × (coerce_private_key py private_key ≡ ok seed)
      × (key_id_text key_id ≡ ok name)
      × Signed py crypto payload seed name receipt
unfolding sign_receipt
sign_receipt-Signed py crypto payload private_key key_id receipt returned =
    let (name, named, rest1) = bind-ok (key_id_text key_id) _ returned in
    let (_, no_leak, rest2) =
      bind-ok (refuse_leaked py (leaked_keys metadata_keys payload)) _ rest1 in
    let (_, known, rest3) = bind-ok (refuse_unknown py (unknown_keys payload)) _ rest2 in
    let (seed, coerced, rest4) = bind-ok (coerce_private_key py private_key) _ rest3 in
    (seed, name, coerced, named, sign_fields-Signed py crypto payload seed name receipt rest4)
