-- ===== src/Receipts/Signing/Payloads.antt =====
-- The payload of a receipt that sign_receipt made of a payload of build_payload.
use openterms.Prelude.{
  and-true, ◌≡◌, refl, sym, ap, ◌∙◌, arith, String, Bool, true, false, not, ◌&&◌, Option, none,
  some, List, [], ◌∷◌, ◌==◌, eq_iff, Bool-cases, inl, inr,
}
use openterms.Python.{
  Value, dict, Fields, end, Builtins, Result, ok, ◌>>=◌, get, text_mem, bind-ok, ok-injective,
}
use openterms.Receipts.Canonical.{
  copy_required, copy_optional, build_payload, payload_keys_required, payload_keys_signed_envelope,
  payload_keys_optional,
}
use openterms.Receipts.Canonical.Payload.{
  present, copy_required-outside, copy_required-inside, copy_optional-outside, copy_optional-inside,
  copy_required-same, copy_optional-same,
}
use openterms.Receipts.Crypto.{Crypto}
use openterms.Receipts.Signing.{PrivateKeyInput, metadata_keys, sign_receipt}
use openterms.Receipts.Signing.Signed.{sign_receipt-Signed}

abbrev all_apart : List String → List String → Bool
all_apart [] ls = true
all_apart (j ∷ ks) ls = not (text_mem j ls) && all_apart ks ls

not-true : (a : Bool) → not a ≡ true → a ≡ false
not-true true h = ground arith
not-true false h = refl

outside_of :
    (k : String) (ks ls : List String)
    → all_apart ks ls ≡ true
    → text_mem k ks ≡ true
    → text_mem k ls ≡ false
unfolding text_mem
outside_of k [] ls apart inside = ground arith
outside_of k (j ∷ ks) ls apart inside =
    let (first, rest) = and-true (not (text_mem j ls)) (all_apart ks ls) apart in
    elim (Bool-cases (k == j)) [
      | inl same ↦ rw ((eq_iff k j).0 same) (not-true (text_mem j ls) first)
      | inr differ ↦ outside_of k ks ls rest (rw (text_mem, differ) at inside)
    ]

present_twice : (o : Option Value) → present (present o) ≡ present o
unfolding present
present_twice none = refl
present_twice (some v) = ground arith

nothing : (k : String) → get end k ≡ none
unfolding get
nothing k = refl

-- the loops of `build_payload`, over any lists of keys
module _ (missing missing' : String) (ks ls os : List String) where
  loops : Fields → Result Fields
  loops r = do
    payload ← copy_required missing ks r end
    payload ← copy_required missing' ls r payload
    ok (copy_optional os r payload)

  -- They read nothing but the entries of their keys.
  loops-same :
      (r r' : Fields)
      → ((k : String) → text_mem k ks ≡ true → get r k ≡ get r' k)
      → ((k : String) → text_mem k ls ≡ true → get r k ≡ get r' k)
      → ((k : String) → text_mem k os ≡ true → present (get r k) ≡ present (get r' k))
      → {payload : Fields} → loops r' ≡ ok payload
      → loops r ≡ ok payload
  unfolding loops
  loops-same r r' on_ks on_ls on_os returned =
      let (p, e, rest) = bind-ok (copy_required missing ks r' end) _ returned in
      let (q, e', rest') = bind-ok (copy_required missing' ls r' p) _ rest in
      rw
        (
          copy_required-same missing ks r r' end on_ks,
          e,
          copy_required-same missing' ls r r' p on_ls,
          e',
        )
        (ap ok (copy_optional-same os r r' q on_os) ∙ rest')

  -- What they return answers as what they read.
  loops-ks :
      (r : Fields) {payload : Fields}
      → all_apart ks ls ≡ true
      → all_apart ks os ≡ true
      → loops r ≡ ok payload
      → (k : String) → text_mem k ks ≡ true
      → get payload k ≡ get r k
  unfolding loops
  loops-ks r apart apart' returned k inside =
      let (p, e, rest) = bind-ok (copy_required missing ks r end) _ returned in
      let (q, e', rest') = bind-ok (copy_required missing' ls r p) _ rest in
      ap (λ d. get d k) (sym (ok-injective rest'))
      ∙ (copy_optional-outside k os r q (outside_of k ks os apart' inside)
          ∙ (copy_required-outside missing' k ls r p e' (outside_of k ks ls apart inside)
              ∙ copy_required-inside missing k ks r end e inside))

  loops-ls :
      (r : Fields) {payload : Fields}
      → all_apart ls os ≡ true
      → loops r ≡ ok payload
      → (k : String) → text_mem k ls ≡ true
      → get payload k ≡ get r k
  unfolding loops
  loops-ls r apart returned k inside =
      let (p, e, rest) = bind-ok (copy_required missing ks r end) _ returned in
      let (q, e', rest') = bind-ok (copy_required missing' ls r p) _ rest in
      ap (λ d. get d k) (sym (ok-injective rest'))
      ∙ (copy_optional-outside k os r q (outside_of k ls os apart inside)
          ∙ copy_required-inside missing' k ls r p e' inside)

  loops-os :
      (r : Fields) {payload : Fields}
      → all_apart os ks ≡ true
      → all_apart os ls ≡ true
      → loops r ≡ ok payload
      → (k : String) → text_mem k os ≡ true
      → get payload k ≡ present (get r k)
  unfolding loops
  loops-os r apart apart' returned k inside =
      let (p, e, rest) = bind-ok (copy_required missing ks r end) _ returned in
      let (q, e', rest') = bind-ok (copy_required missing' ls r p) _ rest in
      ap (λ d. get d k) (sym (ok-injective rest'))
      ∙ copy_optional-inside k os r q inside (
          inl (
            copy_required-outside missing' k ls r p e' (outside_of k os ls apart' inside)
            ∙ (copy_required-outside missing k ks r end e (outside_of k os ks apart inside)
                ∙ nothing k)))

required_message : String
required_message = "Missing required payload field: "

envelope_message : String
envelope_message = "Missing required signed envelope field: "

payload_loops : Fields → Result Fields
payload_loops =
    loops required_message envelope_message payload_keys_required payload_keys_signed_envelope
      payload_keys_optional

build_payload-loops : (r : Fields) → build_payload r ≡ payload_loops r
unfolding build_payload payload_loops loops required_message envelope_message
build_payload-loops r = refl

-- A payload answers as the receipt for the required keys and for those of the signed envelope, and for
-- an optional key unless the receipt has None there.
pub build_payload-required :
    (receipt : Fields) {payload : Fields}
    → build_payload receipt ≡ ok payload
    → (k : String) → text_mem k payload_keys_required ≡ true
    → get payload k ≡ get receipt k
unfolding text_mem payload_loops
build_payload-required receipt built =
    loops-ks required_message envelope_message payload_keys_required payload_keys_signed_envelope
      payload_keys_optional receipt refl refl (sym (build_payload-loops receipt) ∙ built)

pub build_payload-envelope :
    (receipt : Fields) {payload : Fields}
    → build_payload receipt ≡ ok payload
    → (k : String) → text_mem k payload_keys_signed_envelope ≡ true
    → get payload k ≡ get receipt k
unfolding text_mem payload_loops
build_payload-envelope receipt built =
    loops-ls required_message envelope_message payload_keys_required payload_keys_signed_envelope
      payload_keys_optional receipt refl (sym (build_payload-loops receipt) ∙ built)

pub build_payload-optional :
    (receipt : Fields) {payload : Fields}
    → build_payload receipt ≡ ok payload
    → (k : String) → text_mem k payload_keys_optional ≡ true
    → get payload k ≡ present (get receipt k)
unfolding text_mem payload_loops
build_payload-optional receipt built =
    loops-os required_message envelope_message payload_keys_required payload_keys_signed_envelope
      payload_keys_optional receipt refl refl (sym (build_payload-loops receipt) ∙ built)

-- When `build_payload` made the payload that `sign_receipt` signed, `build_payload` gives this very
-- payload again for the signed receipt.
pub build_payload-sign_receipt :
    (py : Builtins) (crypto : Crypto) (receipt payload : Fields) (private_key : PrivateKeyInput)
    (key_id : Value) (signed : Fields)
    → build_payload receipt ≡ ok payload
    → sign_receipt py crypto (dict payload) private_key key_id ≡ ok signed
    → build_payload signed ≡ ok payload
unfolding payload_loops text_mem
build_payload-sign_receipt py crypto receipt payload private_key key_id signed built returned =
    let (seed, name, _, _, made) =
      sign_receipt-Signed py crypto payload private_key key_id signed returned in
    build_payload-loops signed
    ∙ loops-same required_message envelope_message payload_keys_required
        payload_keys_signed_envelope payload_keys_optional signed receipt
        (λ k inside.
          made.others k (outside_of k payload_keys_required metadata_keys refl inside)
          ∙ build_payload-required receipt built k inside)
        (λ k inside.
          made.others k (outside_of k payload_keys_signed_envelope metadata_keys refl inside)
          ∙ build_payload-envelope receipt built k inside)
        (λ k inside.
          ap present (
            made.others k (outside_of k payload_keys_optional metadata_keys refl inside)
            ∙ build_payload-optional receipt built k inside)
          ∙ present_twice (get receipt k))
        (sym (build_payload-loops receipt) ∙ built)
