-- ===== src/Receipts/Signing/Accepted.antt =====
-- Which payloads sign_receipt accepts.
use openterms.Prelude.{
  and-true, ◌≡◌, refl, sym, ap, ◌∙◌, String, Bool, true, false, ◌&&◌, Option, none, some, List, [],
  ◌∷◌, ◌==◌, eq_iff, Bool-cases, inl, inr, if◌then◌else◌, ◌≢◌,
}
use openterms.Python.{
  Value, str, dict, Values, nil, cons, Fields, end, field, other, Builtins, Result, ok, fail, get,
  has, put, text_mem, bind-ok, Error, ok-injective, fail_ok, Result-cases, is_null,
}
use openterms.Receipts.Canonical.{
  Bytes, copy_required, copy_optional, build_payload, payload_keys_required,
  payload_keys_signed_envelope, payload_keys_optional, validate, canonicalize,
}
use openterms.Receipts.Crypto.{Crypto}
use openterms.Receipts.Signing.{
  PrivateKeyInput, coerce_private_key, key_id_text, leaked_keys, metadata_keys, signed_keys,
  refuse_leaked, refuse_unknown, unknown_keys, sign_fields, sign_receipt, signing_input,
  canonical_hash,
}

cons-nil : {v : Value} {vs : Values} → cons v vs ≢ nil
cons-nil same = cc

pub put-known :
    (k : String) (v : Value) (d : Fields)
    → text_mem k signed_keys ≡ true
    → unknown_keys d ≡ nil
    → unknown_keys (put k v d) ≡ nil
unfolding unknown_keys put
put-known k v end member known = rw member refl
put-known k v (other j w d) member known = cc
put-known k v (field j w d) member known = elim (Bool-cases (text_mem j signed_keys)) [
  | inr unknown ↦ absurd (cons-nil (rw (unknown_keys, unknown) at known))
  | inl first ↦ (elim (Bool-cases (j == k)) [
    | inl same ↦ rw (put, same, unknown_keys, first) (rw (unknown_keys, first) at known)
    | inr differ ↦
        rw (put, differ, unknown_keys, first)
          (put-known k v d member (rw (unknown_keys, first) at known))
  ])
]

abbrev all_known : List String → Bool
all_known [] = true
all_known (k ∷ ks) = text_mem k signed_keys && all_known ks

copy_required-known :
    (missing : String) (ks : List String) (r p : Fields) {q : Fields}
    → all_known ks ≡ true
    → copy_required missing ks r p ≡ ok q
    → unknown_keys p ≡ nil
    → unknown_keys q ≡ nil
unfolding copy_required
copy_required-known missing [] r p all returned known =
    ap unknown_keys (sym (ok-injective returned)) ∙ known
copy_required-known missing (k ∷ ks) r p all returned known =
    let (first, rest) = and-true (text_mem k signed_keys) (all_known ks) all in
    let (v, more) = there _ (get r k) _ returned in
    copy_required-known missing ks r (put k v p) rest more (put-known k v p first known)
  where
    there :
        (x : Error) (o : Option Value) (f : Value → Result Fields) {q : Fields}
        → elim o [ none ↦ fail x | some v ↦ f v ] ≡ ok q
        → (v : Value) × (f v ≡ ok q)
    there x none f returned = absurd (fail_ok returned)
    there x (some v) f returned = (v, returned)

copy_optional-known :
    (ks : List String) (r p : Fields)
    → all_known ks ≡ true
    → unknown_keys p ≡ nil
    → unknown_keys (copy_optional ks r p) ≡ nil
unfolding copy_optional
copy_optional-known [] r p all known = known
copy_optional-known (k ∷ ks) r p all known =
    let (first, rest) = and-true (text_mem k signed_keys) (all_known ks) all in
    either (get r k) _ _ (copy_optional-known ks r p rest known)
      (λ v. copy_optional-known ks r _ rest (chosen (is_null v) v first))
  where
    either :
        (o : Option Value) (d : Fields) (f : Value → Fields)
        → unknown_keys d ≡ nil
        → ((v : Value) → unknown_keys (f v) ≡ nil)
        → unknown_keys (elim o [ none ↦ d | some v ↦ f v ]) ≡ nil
    either none d f known all_so = known
    either (some v) d f known all_so = all_so v

    chosen :
        (b : Bool) (v : Value)
        → text_mem k signed_keys ≡ true
        → unknown_keys (if b then p else put k v p) ≡ nil
    chosen true v first = known
    chosen false v first = put-known k v p first known

build_payload-known : (r : Fields) {p : Fields} → build_payload r ≡ ok p → unknown_keys p ≡ nil
unfolding build_payload unknown_keys text_mem
build_payload-known r built =
    let (p, e, more) =
      bind-ok (copy_required "Missing required payload field: " payload_keys_required r end) _
        built in
    let (q, e', last) =
      bind-ok
        (copy_required "Missing required signed envelope field: " payload_keys_signed_envelope r p)
        _ more in
    ap unknown_keys (sym (ok-injective last))
    ∙ copy_optional-known payload_keys_optional r q refl (
        copy_required-known "Missing required signed envelope field: " payload_keys_signed_envelope
          r p refl e'
          (copy_required-known "Missing required payload field: " payload_keys_required r end refl e
            refl))

-- A payload without unknown keys has no key of the metadata.
has-known :
    (k : String) (d : Fields)
    → text_mem k signed_keys ≡ false
    → unknown_keys d ≡ nil
    → has d k ≡ false
unfolding unknown_keys has
has-known k end outside known = refl
has-known k (other j w d) outside known = cc
has-known k (field j w d) outside known = elim (Bool-cases (text_mem j signed_keys)) [
  | inr unknown ↦ absurd (cons-nil (rw (unknown_keys, unknown) at known))
  | inl member ↦ (elim (Bool-cases (j == k)) [
    | inl same ↦ let member' = rw ((eq_iff j k).0 same) at member in cc
    | inr differ ↦ rw differ (has-known k d outside (rw (unknown_keys, member) at known))
  ])
]

leaked_keys-known : (d : Fields) → unknown_keys d ≡ nil → leaked_keys metadata_keys d ≡ []
unfolding leaked_keys text_mem
leaked_keys-known d known =
    rw
      (
        has-known "canonical_hash" d refl known,
        has-known "key_id" d refl known,
        has-known "signature" d refl known,
      )
      refl

pub sign_receipt-known :
    (py : Builtins) (crypto : Crypto) (payload : Fields) (private_key : PrivateKeyInput)
    {seed : Bytes} (kid : String)
    → unknown_keys payload ≡ nil
    → coerce_private_key py private_key ≡ ok seed
    → (kid == "") ≡ false
    → validate py (dict payload) ≡ ok tt
    → (signed : Fields) × (sign_receipt py crypto (dict payload) private_key (str kid) ≡ ok signed)
unfolding sign_receipt key_id_text refuse_leaked refuse_unknown sign_fields signing_input
    canonical_hash canonicalize
sign_receipt-known py crypto payload private_key kid known coerced named valid =
    elim (Result-cases (sign_receipt py crypto (dict payload) private_key (str kid))) [
      | inl done ↦ done
      | inr (x, failed) ↦ absurd (
          fail_ok (
            sym (
              rw (sign_receipt, named, leaked_keys-known payload known, known, coerced, valid) at
                failed)))
    ]

-- sign_receipt returns a receipt for every payload that build_payload made and _validate accepts,
-- when the private key coerces and the key id is not empty.
pub sign_receipt-returns :
    (py : Builtins) (crypto : Crypto) (receipt : Fields) {payload : Fields}
    (private_key : PrivateKeyInput) {seed : Bytes} (kid : String)
    → build_payload receipt ≡ ok payload
    → coerce_private_key py private_key ≡ ok seed
    → (kid == "") ≡ false
    → validate py (dict payload) ≡ ok tt
    → (signed : Fields) × (sign_receipt py crypto (dict payload) private_key (str kid) ≡ ok signed)
sign_receipt-returns py crypto receipt {payload = payload} private_key kid built coerced named
      valid =
    sign_receipt-known py crypto payload private_key kid (build_payload-known receipt built) coerced
      named valid
