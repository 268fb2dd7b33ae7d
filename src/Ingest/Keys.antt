-- ===== src/Ingest/Keys.antt =====
-- `fetch_jwks` and `verify` of packages/openterms-py/openterms/client.py.
pub mod Kept
use openterms.Prelude.{String, Option, none, some, [], ◌∷◌, ◌==◌, if◌then◌else◌}
use openterms.Python.{
  Value, null, list, dict, nil, cons, Fields, end, field, Builtins, value_error, Result, ok, fail,
  join_text,
}
use openterms.Receipts.Crypto.{Crypto}
use openterms.Receipts.Verification.{VerifyResult, verify_receipt}
use openterms.Ingest.Service.{
  Request, Reply, response, http_error, url_error, Outside, IngestClient, or_option,
}
use openterms.Ingest.Outcome.{
  IngestError, Outcome, returned, ingest_failed, Call, ◌>>=◌, lift, of_result,
}
use openterms.Ingest.Transport.{send, loads_body}

abbrev pub jwks_request : String → Request
jwks_request target = record {
  url = target;
  body = none;
  headers = ("Accept", "application/json") ∷ [];
}

unfoldable pub jwks_failure : String → String → IngestError
unfolding join_text
jwks_failure target text = record {
  message = join_text ("failed to fetch JWKS from " ∷ target ∷ ": " ∷ text ∷ []);
  status = none;
  body = none;
  code = null;
}

-- what `fetch_jwks` makes of the reply
unfoldable pub read_jwks : Outside → String → Reply → Outcome Value
unfolding loads_body jwks_failure
read_jwks outside target (response status body) = of_result (loads_body outside body)
read_jwks outside target (http_error code body) =
    ingest_failed (jwks_failure target (outside.http_error_text code))
read_jwks outside target (url_error text) = ingest_failed (jwks_failure target text)

-- self._jwks = jwks
unfoldable pub keep_jwks : Value → Call Value
keep_jwks jwks w = (returned jwks, record w { jwks = jwks })

unfoldable pub download_jwks : Outside → String → Call Value
unfolding send read_jwks
download_jwks outside target w =
    let (reply, w') = send outside (jwks_request target) w in (read_jwks outside target reply, w')

-- if not target: raise ValueError
unfoldable pub target_of : Option String → Result String
target_of none = fail (value_error "no jwks_url configured; pass url= or set jwks_url at init")
target_of (some target) =
    if target == ""
    then fail (value_error "no jwks_url configured; pass url= or set jwks_url at init")
    else ok target

-- `IngestClient.fetch_jwks`
unfoldable pub fetch_jwks : Outside → IngestClient → Option String → Call Value
unfolding target_of or_option download_jwks keep_jwks
fetch_jwks outside client url = do
  target ← lift (target_of (or_option url client.jwks_url))
  jwks ← download_jwks outside target
  keep_jwks jwks

-- verify_receipt(receipt, keys). Any object but a dictionary fails where its `get` is asked for, as a
-- key without `get` does.
unfoldable pub verify_receipt_with : Builtins → Crypto → Fields → Value → Result VerifyResult
unfolding verify_receipt
verify_receipt_with py crypto receipt (dict jwks) = verify_receipt py crypto receipt jwks
verify_receipt_with py crypto receipt _ =
    verify_receipt py crypto receipt (field "keys" (list (cons null nil)) end)

-- jwks if jwks is not None else self._jwks, and the download for None
unfoldable pub keys_for : Outside → IngestClient → Value → Value → Call Value
unfolding fetch_jwks or_option
keys_for outside client null null = elim (or_option client.jwks_url none) [
  | some _ ↦ fetch_jwks outside client none
  | none ↦
      lift (fail (value_error "no JWKS available; pass jwks= or configure jwks_url / jwks at init"))
]
keys_for outside client null jwks = lift (ok jwks)
keys_for outside client jwks _ = lift (ok jwks)

-- `IngestClient.verify`, with null for no `jwks` argument
unfoldable pub verify :
    Outside → Builtins → Crypto → IngestClient → Fields → Value → Call VerifyResult
unfolding keys_for verify_receipt_with
verify outside py crypto client receipt jwks w =
    (do
      keys ← keys_for outside client jwks w.jwks
      lift (verify_receipt_with py crypto receipt keys))
      w
