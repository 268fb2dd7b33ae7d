-- ===== src/Ingest/Emit/Refused.antt =====
-- What IngestClient.emit_receipt does with a context that has no canonical form.
use mathlib.Core.Option.{some-injective}
use openterms.Prelude.{
  ◌≡◌, ◌≢◌, refl, sym, ap, ◌∙◌, String, none, some, [], ◌∷◌, ◌==◌, Bool-cases, inl, inr, some-none,
  not,
}
use openterms.Python.{
  Value, dict, Fields, end, field, other, Builtins, Error, ok, ensure, get, text_mem, bind-ok,
  ok-injective, fail_ok, get-put_same,
}
use openterms.Receipts.Canonical.{Bytes, validate, validate_fields, canonicalize, is_non_bmp}
use openterms.Receipts.Canonical.Payload.{present}
use openterms.Receipts.Crypto.{Crypto, CryptoLaws}
use openterms.Receipts.Signing.{coerce_private_key, build_jwks}
use openterms.Receipts.Signing.Payloads.{build_payload-optional}
use openterms.Receipts.RoundTrip.{TextsEqual}
use openterms.Receipts.Verification.Authentic.{Authentic, verify_receipt_iff}
use openterms.Ingest.Service.{Outside, IngestClient, World}
use openterms.Ingest.Outcome.{Outcome, raised}
use openterms.Ingest.Transport.{IngestResponse}
use openterms.Ingest.Emit.{
  Emission, merge_extra, put_context, base_receipt, full_receipt, emit_receipt,
}
use openterms.Ingest.Emit.Posted.{Emitted, emit_receipt-Emitted}

-- What `_validate` lets through, it lets through entry by entry.
pub validate_fields-get :
    (py : Builtins) (d : Fields) (k : String) (v : Value)
    → validate_fields py d ≡ ok tt
    → get d k ≡ some v
    → validate py v ≡ ok tt
unfolding validate_fields get
validate_fields-get py end k v passed found = absurd (some-none (sym found))
validate_fields-get py (other j w d) k v passed found = absurd (fail_ok passed)
validate_fields-get py (field j w d) k v passed found =
    let (_, _, rest) = bind-ok (ensure (not (is_non_bmp j)) _) _ passed in
    let (_, first, more) = bind-ok (validate py w) _ rest in
    elim (Bool-cases (j == k)) [
      | inl same ↦ rw (← some-injective w v (rw (get, same) at found)) first
      | inr differ ↦ validate_fields-get py d k v more (rw (get, differ) at found)
    ]

canonicalize-validate :
    (py : Builtins) (d : Fields) {bytes : Bytes}
    → canonicalize py d ≡ ok bytes
    → validate_fields py d ≡ ok tt
unfolding canonicalize validate
canonicalize-validate py d returned =
    let (_, passed, _) = bind-ok (validate_fields py d) _ returned in passed

full_receipt-context :
    (client : IngestClient) (e : Emission) (agent ts id : String) (context : Fields)
    → e.action_context ≡ some context
    → e.extra ≡ none
    → get (full_receipt client e agent ts id) "action_context" ≡ some (dict context)
unfolding full_receipt merge_extra put_context
full_receipt-context client e agent ts id context given plain =
    let base : Fields = base_receipt client e agent ts id in
    ap (λ o. get (merge_extra e.extra (put_context o base)) "action_context") given
    ∙ (ap (λ x. get (merge_extra x (put_context (some context) base)) "action_context") plain
        ∙ get-put_same "action_context" (dict context) base)

refused-Emitted :
    (outside : Outside) (py : Builtins) (crypto : Crypto) (client : IngestClient) (seed : Bytes)
    (e : Emission) (w : World) (context : Fields)
    → e.action_context ≡ some context
    → e.extra ≡ none
    → validate py (dict context) ≢ ok tt
    → {ended : Outcome IngestResponse × World} → Emitted outside py crypto client seed e w ended
    → (x : Error) × (w' : World) × (ended ≡ (raised x, w')) × (w'.sent ≡ w.sent)
unfolding validate text_mem present
refused-Emitted outside py crypto client seed e w context given plain bad
      (Emitted.refused x w' why kept) =
    (x, w', refl, kept)
refused-Emitted outside py crypto client seed e w context given plain bad
      (Emitted.posted agent ts id signed payload r w' _ _ _ _ built rebuilt verified valid) =
    let a : Authentic py crypto signed (build_jwks ((crypto.public_key seed, client.key_id) ∷ [])) =
      (verify_receipt_iff py crypto signed _).0 (r, verified, valid) in
    let same : a.payload ≡ payload = ok-injective (sym a.built ∙ rebuilt) in
    absurd (
      bad (
        validate_fields-get py payload "action_context" (dict context)
          (rw same at (canonicalize-validate py a.payload a.canonical))
          (build_payload-optional _ built "action_context" refl
            ∙ ap present (full_receipt-context client e agent ts id context given plain))))

-- Under the laws of Ed25519 and when equal texts compare equal, when the key coerces, the context
-- holds what _validate refuses and there are no extra fields, emit_receipt raises an exception
-- that is no IngestError and sends nothing.
pub emit_receipt-refused :
    (outside : Outside) (py : Builtins) (crypto : Crypto) (client : IngestClient) (seed : Bytes)
    (e : Emission) (w : World) (context : Fields)
    → TextsEqual py
    → CryptoLaws crypto
    → coerce_private_key py client.private_key ≡ ok seed
    → e.action_context ≡ some context
    → e.extra ≡ none
    → validate py (dict context) ≢ ok tt
    → (x : Error) × (w' : World) × (emit_receipt outside py crypto client e w ≡ (raised x, w'))
      × (w'.sent ≡ w.sent)
emit_receipt-refused outside py crypto client seed e w context equal laws coerced given plain bad =
    refused-Emitted outside py crypto client seed e w context given plain bad
      (emit_receipt-Emitted outside py crypto client seed e w equal laws coerced)
