-- ===== src/Ingest/Examples.antt =====
-- Runs of the ingest client, and its theorems at concrete inputs.
use openterms.Prelude.{ℕ, Option, none, String, ◌≡◌, ◌⊎◌, refl, some, [], ◌∷◌}
use openterms.Prelude.Int.{pos}
use openterms.Python.{str, null, dict, field, Fields, end, Error, ok, get}
use openterms.Receipts.Canonical.{build_payload}
use openterms.Samples.{
  copies, toy, plain, toy-CryptoLaws, plain-TextsEqual, key_one, reachable, acme, idle, half,
  half_refused,
}
use openterms.Ingest.Service.{or_option, World}
use openterms.Ingest.Outcome.{Outcome, returned, of_result, raised}
use openterms.Receipts.Verification.{verify_receipt}
use openterms.Ingest.Keys.{jwks_request, target_of, fetch_jwks, verify}
use openterms.Ingest.Keys.Kept.{fetch_jwks-kept, verify-fetch_jwks}
use openterms.Ingest.Transport.{IngestResponse, read_reply, post_request}
use openterms.Ingest.Emit.{Emission, post_emission, emit_receipt, emit_post_action_receipt}
use openterms.Ingest.Emit.Prepared.{Refusal}
use openterms.Ingest.Emit.Posted.{Emitted, emit_receipt-Emitted}
use openterms.Ingest.Emit.PostAction.{PlainContext, HasHash, emit_post_action_receipt-HasHash}
use openterms.Ingest.Emit.Refused.{emit_receipt-refused}

abbrev purchase : Fields → Emission
purchase context = record {
  action_type = "purchase";
  terms_url = "https://acme.com/terms";
  terms_hash = "h";
  action_context = some context;
  pricing_version = "v1";
  amount_charged = pos 5;
  agent_id = none;
  receipt_id = some "r1";
  timestamp = none;
  created_at = none;
  idempotency_key = none;
  extra = none;
}

emit_receipt-Emitted_example :
    Emitted reachable plain toy acme
      (copies 32 1)
      (purchase end)
      idle
      (emit_receipt reachable plain toy acme (purchase end) idle)
emit_receipt-Emitted_example =
    emit_receipt-Emitted reachable plain toy acme (copies 32 1) (purchase end) idle plain-TextsEqual
      toy-CryptoLaws key_one

emit_post_action_receipt-HasHash_example :
    let ended : Outcome IngestResponse × World =
      emit_post_action_receipt reachable plain toy acme "r1" "beef" (purchase end) idle in
    ((x : Error) × (w' : World) × (ended ≡ (raised x, w'))
      × (w'.sent ≡ [])
      × Refusal plain acme (post_emission "r1" "beef" (purchase end)))
    ⊎ ((signed : Fields) × (payload : Fields) × (moment : ℕ) × (ended.0
          ≡ read_reply reachable
              (reachable.urlopen moment (post_request reachable acme signed none)))
        × (ended.1.sent ≡ post_request reachable acme signed none ∷ [])
        × (build_payload signed ≡ ok payload)
        × HasHash "beef" (get payload "action_context"))
emit_post_action_receipt-HasHash_example =
    emit_post_action_receipt-HasHash reachable plain toy acme (copies 32 1) "r1" "beef"
      (purchase end) idle plain-TextsEqual toy-CryptoLaws key_one PlainContext.no_extra

emit_receipt-refused_example :
    (x : Error) × (w' : World) × (emit_receipt reachable plain toy acme (purchase half) idle
      ≡ (raised x, w'))
    × (w'.sent ≡ [])
emit_receipt-refused_example =
    emit_receipt-refused reachable plain toy acme (copies 32 1) (purchase half) idle half
      plain-TextsEqual toy-CryptoLaws key_one refl refl half_refused

abbrev keys_url : Option String
keys_url = some "https://acme.com/jwks.json"

abbrev served : Fields
served = field "hash" (str "h") (field "ingested_at" (str "now") end)

abbrev fetched : World
fetched = record {
  jwks = dict served;
  moment = 1;
  sent = jwks_request "https://acme.com/jwks.json" ∷ [];
}

fetched_so : fetch_jwks reachable acme keys_url idle ≡ (returned (dict served), fetched)
unfolding fetch_jwks
fetched_so = refl

fetch_jwks-kept_example :
    (target : String) × (target_of (or_option keys_url none) ≡ ok target)
    × (fetched.jwks ≡ dict served)
    × (fetched.sent ≡ jwks_request target ∷ [])
fetch_jwks-kept_example = fetch_jwks-kept reachable acme keys_url idle fetched fetched_so

verify-fetch_jwks_example :
    verify reachable plain toy acme end null fetched
    ≡ (of_result (verify_receipt plain toy end served), fetched)
verify-fetch_jwks_example =
    verify-fetch_jwks reachable plain toy acme keys_url end idle fetched fetched fetched_so refl
