-- ===== src/Ingest/Transport.antt =====
-- `_post` and `fetch_jwks` of packages/openterms-py/openterms/client.py.
use openterms.Prelude.{
  ℕ, suc, String, Bool, true, false, Option, none, some, List, [], ◌∷◌, ◌++◌, ◌==◌, ◌||◌, eqb, not,
  if◌then◌else◌,
}
use openterms.Prelude.Int.{ℤ, pos, negsuc}
use openterms.Python.{
  Value, null, bool, int, float, str, list, dict, nil, Fields, end, value_error, attribute_error,
  Result, ok, fail, ◌>>=◌, get_or, subscript, join_text,
}
use openterms.Receipts.Canonical.{Bytes}
use openterms.Ingest.Service.{
  Request, Reply, response, http_error, url_error, Outside, IngestClient, World,
}
use openterms.Ingest.Outcome.{Outcome, ingest_failed, Call, of_result}

pub record IngestResponse : Type 0 where
  pub canonical_hash : Value
  pub ingested_at : Value
  pub duplicate : Bool
  pub receipt : Value
  pub decision : Value
  pub status : ℕ

is_zero : ℤ → Bool
is_zero (pos n) = eqb n 0
is_zero (negsuc n) = false

-- bool(v); a float is falsy when it is zero
unfoldable pub truthy : Value → Bool
unfolding is_zero
truthy null = false
truthy (bool b) = b
truthy (int n) = not (is_zero n)
truthy (float x) = not (x == "0.0" || x == "-0.0")
truthy (str s) = not (s == "")
truthy (list nil) = false
truthy (list _) = true
truthy (dict end) = false
truthy (dict _) = true

-- what urllib.request.urlopen does with a request
unfoldable pub send : Outside → Request → World → Reply × World
send outside request w =
    (outside.urlopen w.moment request, record w { moment = suc w.moment; sent = request ∷ w.sent })

-- a header that is sent for a text that is not empty
unfoldable pub optional_header : String → String → Option String → List (String × String)
unfolding join_text
optional_header name prefix none = []
optional_header name prefix (some s) =
    if s == "" then [] else (name, join_text (prefix ∷ s ∷ [])) ∷ []

unfoldable pub post_request : Outside → IngestClient → Fields → Option String → Request
unfolding join_text optional_header
post_request outside client signed idempotency_key = record {
  url = join_text (client.base_url ∷ "/v1/receipts/ingest" ∷ []);
  body = some (outside.dumps signed);
  headers =
      ("Content-Type", "application/json")
      ∷ ("Accept", "application/json")
      ∷ (optional_header "Authorization" "Bearer " client.api_key
          ++ optional_header "Idempotency-Key" "" idempotency_key);
}

-- json.loads(...) of a response's body
unfoldable pub loads_body : Outside → Bytes → Result Value
loads_body outside bytes = elim (outside.decode bytes) [
  | none ↦ fail (value_error "")
  | some text ↦ elim (outside.loads text) [ none ↦ fail (value_error "") | some v ↦ ok v ]
]

-- json.loads(err_body).get("code"), or None
unfoldable pub error_code : Option Value → Value
unfolding get_or
error_code (some (dict d)) = get_or d "code" null
error_code _ = null

-- v.get(k, default)
unfoldable pub get_attribute : Value → String → Value → Result Value
unfolding get_or
get_attribute (dict d) k default = ok (get_or d k default)
get_attribute _ k default = fail attribute_error

unfoldable pub ingest_response : ℕ → Value → Result IngestResponse
unfolding subscript get_attribute truthy
ingest_response status parsed = do
  canonical_hash ← subscript parsed "hash"
  ingested_at ← subscript parsed "ingested_at"
  duplicate ← get_attribute parsed "duplicate" (bool false)
  receipt ← get_attribute parsed "receipt" (dict end)
  decision ← get_attribute parsed "decision" null
  ok (record {
    canonical_hash = canonical_hash;
    ingested_at = ingested_at;
    duplicate = truthy duplicate;
    receipt = receipt;
    decision = decision;
    status = status;
  })

-- what `_post` makes of the reply
unfoldable pub read_reply : Outside → Reply → Outcome IngestResponse
unfolding loads_body error_code ingest_response join_text
read_reply outside (response status body) =
    of_result (do parsed ← loads_body outside body; ingest_response status parsed)
read_reply outside (http_error code body) = ingest_failed (record {
  message = join_text ("ingest failed with HTTP " ∷ outside.number_text code ∷ []);
  status = some code;
  body = some (outside.decode_replace body);
  code = error_code (outside.loads (outside.decode_replace body));
})
read_reply outside (url_error text) = ingest_failed (record {
  message = join_text ("ingest transport error: " ∷ text ∷ []);
  status = none;
  body = none;
  code = null;
})

-- `IngestClient._post`
unfoldable pub post : Outside → IngestClient → Fields → Option String → Call IngestResponse
unfolding send post_request read_reply
post outside client signed idempotency_key w =
    let (reply, w') = send outside (post_request outside client signed idempotency_key) w in
    (read_reply outside reply, w')
