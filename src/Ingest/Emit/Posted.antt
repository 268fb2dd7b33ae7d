-- ===== src/Ingest/Emit/Posted.antt =====
-- What IngestClient.emit_receipt sends to the service.
use mathlib.Core.Path.{subst}
use openterms.Prelude.{suc, ◌≡◌, ◌≢◌, refl, sym, String, true, [], ◌∷◌}
use openterms.Python.{nil, get, str, Fields, Builtins, Error, ok}
use openterms.Receipts.Canonical.{Bytes, build_payload}
use openterms.Receipts.Crypto.{Crypto, CryptoLaws}
use openterms.Receipts.Signing.{coerce_private_key, build_jwks}
use openterms.Receipts.Signing.Payloads.{build_payload-sign_receipt}
use openterms.Receipts.Verification.{VerifyResult, verify_receipt}
use openterms.Receipts.RoundTrip.{TextsEqual, public_key_to_jwk-first, verify_receipt-sign_receipt}
use openterms.Ingest.Emit.Arguments.{Chosen, AgentOf}
use openterms.Ingest.Emit.Payload.{FromArguments, full_receipt-FromArguments}
use openterms.Ingest.Service.{Request, Outside, IngestClient, World}
use openterms.Ingest.Outcome.{Outcome, raised, ◌>>=◌}
use openterms.Ingest.Transport.{IngestResponse, send, post_request, read_reply, post}
use openterms.Ingest.Emit.{Emission, full_receipt, emit_receipt}
use openterms.Ingest.Emit.Prepared.{Refusal, Drawn, Prepared, signed_receipt-Prepared}

-- How `emit_receipt` ends: it raised before anything was sent, for a reason, or it sent one request
-- with the JSON text of a receipt that is valid under the JWKS of the public key and has the payload
-- of the arguments, and ends with what `_post` makes of the reply to it.
pub data Emitted (outside : Outside) (py : Builtins) (crypto : Crypto) (client : IngestClient)
    (seed : Bytes) (e : Emission) (w : World) : Outcome IngestResponse × World → Type 0 where
  refused :
      (x : Error) (w' : World)
      → Refusal py client e
      → w'.sent ≡ w.sent
      → Emitted outside py crypto client seed e w (raised x, w')
  posted :
      (agent ts id : String) (signed payload : Fields) (r : VerifyResult) (w' : World)
      → AgentOf e.agent_id client.agent_id agent
      → agent ≢ ""
      → Drawn outside e w ts id w'
      → FromArguments client e agent ts id payload
      → build_payload (full_receipt client e agent ts id) ≡ ok payload
      → build_payload signed ≡ ok payload
      → verify_receipt py crypto signed (build_jwks ((crypto.public_key seed, client.key_id) ∷ []))
        ≡ ok r
      → r.valid ≡ true
      → Emitted outside py crypto client seed e w (
        read_reply outside
            (outside.urlopen w'.moment (post_request outside client signed e.idempotency_key)),
        record w {
          moment = suc w'.moment;
          sent = post_request outside client signed e.idempotency_key ∷ w.sent;
        },
      )

Drawn-jwks :
    {outside : Outside} {e : Emission} {w w' : World} {ts id : String}
    → Drawn outside e w ts id w'
    → w' ≡ record w { moment = w'.moment }
Drawn-jwks (Drawn.drawn (Chosen.given _ _) (Chosen.given _ _)) = refl
Drawn-jwks (Drawn.drawn (Chosen.given _ _) (Chosen.called _)) = refl
Drawn-jwks (Drawn.drawn (Chosen.called _) (Chosen.given _ _)) = refl
Drawn-jwks (Drawn.drawn (Chosen.called _) (Chosen.called _)) = refl

posting-Emitted :
    (outside : Outside) (py : Builtins) (crypto : Crypto) (client : IngestClient) (seed : Bytes)
    (e : Emission) (w : World)
    → TextsEqual py
    → CryptoLaws crypto
    → coerce_private_key py client.private_key ≡ ok seed
    → {prepared : Outcome Fields × World} → Prepared outside py crypto client e w prepared
    → Emitted outside py crypto client seed e w
        (((λ w'. prepared) >>= (λ signed. post outside client signed e.idempotency_key)) w)
unfolding post send build_jwks get
posting-Emitted outside py crypto client seed e w equal laws coerced
      (Prepared.refused x w' why kept) =
    Emitted.refused x w' why kept
posting-Emitted outside py crypto client seed e w equal laws coerced
      (Prepared.made agent ts id signed payload w' chosen named at kept built signed_so) =
    let receipt = full_receipt client e agent ts id in
    let request : Request = post_request outside client signed e.idempotency_key in
    let (r, verified, valid) =
      verify_receipt-sign_receipt py crypto receipt payload client.private_key seed client.key_id
        signed (build_jwks ((crypto.public_key seed, client.key_id) ∷ [])) _ equal laws built
        signed_so coerced refl
        (public_key_to_jwk-first py client.key_id (crypto.public_key seed) nil equal) in
    subst
      (λ v. Emitted outside py crypto client seed e w (
        read_reply outside (outside.urlopen w'.moment request),
        record v { moment = suc w'.moment; sent = request ∷ v.sent },
      ))
      (sym (Drawn-jwks at))
      (Emitted.posted agent ts id signed payload r w' chosen named at
        (full_receipt-FromArguments client e agent ts id built) built
        (build_payload-sign_receipt py crypto receipt payload client.private_key (str client.key_id)
          signed built signed_so)
        verified valid)

-- Under the laws of Ed25519 and when equal texts compare equal, when the key of the client
-- coerces, then whatever the network and the clock do, emit_receipt either raises before anything
-- is sent, because no agent is given, the key id is empty or _validate refuses the payload; or it
-- sends one request, whose body is the JSON text of a receipt that verify_receipt finds valid
-- under the JWKS of the public key and whose payload has the value of each argument that the extra
-- fields do not name, and ends as _post does on what the network replies to this request. The
-- agent is that of the call or else that of the client, the timestamp and the receipt id are those
-- of the call or else what the clock and uuid4 give, and created_at is that of the call or else
-- the timestamp.
pub emit_receipt-Emitted :
    (outside : Outside) (py : Builtins) (crypto : Crypto) (client : IngestClient) (seed : Bytes)
    (e : Emission) (w : World)
    → TextsEqual py
    → CryptoLaws crypto
    → coerce_private_key py client.private_key ≡ ok seed
    → Emitted outside py crypto client seed e w (emit_receipt outside py crypto client e w)
unfolding emit_receipt
emit_receipt-Emitted outside py crypto client seed e w equal laws coerced =
    posting-Emitted outside py crypto client seed e w equal laws coerced
      (signed_receipt-Prepared outside py crypto client seed e w coerced)
