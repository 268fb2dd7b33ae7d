-- ===== src/Ingest/Emit/PostAction.antt =====
-- What IngestClient.emit_post_action_receipt sends to the service.
use openterms.Prelude.{
  ℕ, ◌≡◌, ◌⊎◌, refl, ◌∙◌, String, Option, none, some, ◌∷◌, ◌==◌, Bool-cases, inl, inr,
}
use openterms.Python.{
  Error, Value, str, dict, Fields, end, field, other, Builtins, ok, get, put, text_mem,
  get-put_same,
}
use openterms.Receipts.Canonical.{Bytes, build_payload}
use openterms.Receipts.Canonical.Payload.{present}
use openterms.Receipts.Crypto.{Crypto, CryptoLaws}
use openterms.Receipts.Signing.{coerce_private_key}
use openterms.Receipts.Signing.Payloads.{build_payload-optional}
use openterms.Receipts.RoundTrip.{TextsEqual}
use openterms.Ingest.Service.{Outside, IngestClient, World}
use openterms.Ingest.Transport.{IngestResponse, post_request, read_reply}
use openterms.Ingest.Outcome.{Outcome, raised}
use openterms.Ingest.Emit.{
  Emission, merge, merge_extra, put_context, base_receipt, full_receipt, without_context,
  post_context, post_fields, split_context, post_emission, emit_post_action_receipt,
}
use openterms.Ingest.Emit.Payload.{get-merge}
use openterms.Ingest.Emit.Prepared.{Refusal}
use openterms.Ingest.Emit.Posted.{Emitted, emit_receipt-Emitted}

-- The extra fields have no context, or a dictionary for it.
pub data PlainContext : Option Fields → Type 0 where
  no_extra : PlainContext none
  no_context : {extra : Fields} → get extra "action_context" ≡ none → PlainContext (some extra)
  dict_context :
      {extra context : Fields}
      → get extra "action_context" ≡ some (dict context)
      → PlainContext (some extra)

get-without_context : (extra : Fields) → get (without_context extra) "action_context" ≡ none
unfolding without_context get
get-without_context end = refl
get-without_context (other j v extra) = get-without_context extra
get-without_context (field j v extra) = elim (Bool-cases (j == "action_context")) [
  | inl same ↦ rw (without_context, same) (get-without_context extra)
  | inr differ ↦ rw (without_context, differ) (rw (get, differ) (get-without_context extra))
]

-- The dictionary with the context holds the hash, and no extra field takes its place.
pub HasHash : String → Option Value → Type 0
HasHash post_state_hash v =
    (context : Fields) × (v ≡ some (dict context))
    × (get context "post_state_hash" ≡ some (str post_state_hash))

context-HasHash :
    (context extra receipt : Fields) (post_state_hash : String)
    → get extra "action_context" ≡ none
    → HasHash post_state_hash (
        get
          (merge extra (put_context (some (post_context context post_state_hash)) receipt))
          "action_context")
unfolding HasHash put_context post_context
context-HasHash context extra receipt post_state_hash absent = (
  put "post_state_hash" (str post_state_hash) context,
  get-merge "action_context" extra _ absent ∙ get-put_same "action_context" _ receipt,
  get-put_same "post_state_hash" (str post_state_hash) context,
)

full_receipt-HasHash :
    (client : IngestClient) (receipt_id post_state_hash : String) (e : Emission)
    (agent ts id : String)
    → PlainContext e.extra
    → HasHash post_state_hash (
        get
          (full_receipt client (post_emission receipt_id post_state_hash e) agent ts id)
          "action_context")
unfolding full_receipt post_emission post_fields split_context merge_extra merge
full_receipt-HasHash client receipt_id post_state_hash e agent ts id plain =
    go e.extra (base_receipt client e agent ts id) plain
  where
    go :
        (extra : Option Fields) (receipt : Fields)
        → PlainContext extra
        → HasHash post_state_hash (
            get
              (merge_extra
                (post_fields extra post_state_hash).1
                (put_context (some (post_fields extra post_state_hash).0) receipt))
              "action_context")
    go none receipt PlainContext.no_extra = context-HasHash end end receipt post_state_hash refl
    go (some extra) receipt (PlainContext.no_context absent) =
        rw (post_fields, absent) (context-HasHash end extra receipt post_state_hash absent)
    go (some extra) receipt (PlainContext.dict_context {context = context} there) =
        rw (post_fields, there)
          (context-HasHash context (without_context extra) receipt post_state_hash
            (get-without_context extra))

present-HasHash :
    (post_state_hash : String) (v : Option Value)
    → HasHash post_state_hash v
    → HasHash post_state_hash (present v)
unfolding HasHash present
present-HasHash post_state_hash v (context, same, held) = (context, rw same refl, held)

hash-Emitted :
    (outside : Outside) (py : Builtins) (crypto : Crypto) (client : IngestClient) (seed : Bytes)
    (receipt_id post_state_hash : String) (e : Emission) (w : World)
    → PlainContext e.extra
    → {ended : Outcome IngestResponse × World}
    → Emitted outside py crypto client seed (post_emission receipt_id post_state_hash e) w ended
    → ((x : Error) × (w' : World) × (ended ≡ (raised x, w'))
        × (w'.sent ≡ w.sent)
        × Refusal py client (post_emission receipt_id post_state_hash e))
      ⊎ ((signed : Fields) × (payload : Fields) × (moment : ℕ) × (ended.0
            ≡ read_reply outside
                (outside.urlopen moment (post_request outside client signed e.idempotency_key)))
          × (ended.1.sent ≡ post_request outside client signed e.idempotency_key ∷ w.sent)
          × (build_payload signed ≡ ok payload)
          × HasHash post_state_hash (get payload "action_context"))
unfolding post_emission text_mem
hash-Emitted outside py crypto client seed receipt_id post_state_hash e w plain
      (Emitted.refused x w' why kept) =
    inl (x, w', refl, kept, why)
hash-Emitted outside py crypto client seed receipt_id post_state_hash e w plain
      (Emitted.posted agent ts id signed payload r w' _ _ _ _ built rebuilt verified valid) =
    inr (
      signed,
      payload,
      w'.moment,
      refl,
      refl,
      rebuilt,
      rw (build_payload-optional _ built "action_context" refl) (
          present-HasHash post_state_hash _
            (full_receipt-HasHash client receipt_id post_state_hash e agent ts id plain)),
    )

-- Under the laws of Ed25519 and when equal texts compare equal, when the key coerces and the extra
-- fields are None, have no action_context or a dictionary there, emit_post_action_receipt either
-- raises an exception that is no IngestError before anything is sent, for one of the reasons of
-- emit_receipt, or sends one request with the JSON text of a receipt in whose payload the context
-- is a dictionary that has the hash as its post_state_hash, and ends as _post does on what the
-- network replies to this request.
pub emit_post_action_receipt-HasHash :
    (outside : Outside) (py : Builtins) (crypto : Crypto) (client : IngestClient) (seed : Bytes)
    (receipt_id post_state_hash : String) (e : Emission) (w : World)
    → TextsEqual py
    → CryptoLaws crypto
    → coerce_private_key py client.private_key ≡ ok seed
    → PlainContext e.extra
    → let ended : Outcome IngestResponse × World =
        emit_post_action_receipt outside py crypto client receipt_id post_state_hash e w in
      ((x : Error) × (w' : World) × (ended ≡ (raised x, w'))
        × (w'.sent ≡ w.sent)
        × Refusal py client (post_emission receipt_id post_state_hash e))
      ⊎ ((signed : Fields) × (payload : Fields) × (moment : ℕ) × (ended.0
            ≡ read_reply outside
                (outside.urlopen moment (post_request outside client signed e.idempotency_key)))
          × (ended.1.sent ≡ post_request outside client signed e.idempotency_key ∷ w.sent)
          × (build_payload signed ≡ ok payload)
          × HasHash post_state_hash (get payload "action_context"))
unfolding emit_post_action_receipt
emit_post_action_receipt-HasHash outside py crypto client seed receipt_id post_state_hash e w equal
      laws coerced plain =
    hash-Emitted outside py crypto client seed receipt_id post_state_hash e w plain (
      emit_receipt-Emitted outside py crypto client seed
        (post_emission receipt_id post_state_hash e) w equal laws coerced)
