-- ===== src/Ingest/Service.antt =====
-- What packages/openterms-py/openterms/client.py reaches: the network, the clock and random ids.
use openterms.Prelude.{ℕ, String, Option, none, some, List, ◌==◌, if◌then◌else◌}
use openterms.Python.{Value, Fields, value_error, Result, ok, fail, rstrip}
use openterms.Receipts.Canonical.{Bytes}
use openterms.Receipts.Signing.{PrivateKeyInput}

pub record Request : Type 0 where
  pub url : String
  -- none for a GET
  pub body : Option String
  pub headers : List (String × String)

-- what urllib.request.urlopen does: a response, an HTTPError with its code and body, or another URLError
pub data Reply : Type 0 where
  response : ℕ → Bytes → Reply
  http_error : ℕ → Bytes → Reply
  url_error : String → Reply

-- Calls of the standard library. The network, the clock and uuid4 are read at a moment, which passes
-- with each call. `loads` is json.loads, with `none` for a JSONDecodeError, `dumps` json.dumps,
-- `decode` and `decode_replace` bytes.decode, and `number_text` and `http_error_text` str of a
-- status and of an HTTPError.
pub record Outside : Type 0 where
  pub urlopen : ℕ → Request → Reply
  pub utcnow : ℕ → String
  pub uuid4 : ℕ → String
  pub loads : String → Option Value
  pub dumps : Fields → String
  pub decode : Bytes → Option String
  pub decode_replace : Bytes → String
  pub number_text : ℕ → String
  pub http_error_text : ℕ → String

-- The attributes of an IngestClient that stay as they are.
pub record IngestClient : Type 0 where
  pub base_url : String
  pub workspace_id : String
  pub key_id : String
  pub private_key : PrivateKeyInput
  pub agent_id : Option String
  pub api_key : Option String
  pub jwks_url : Option String

-- The attribute `_jwks`, null for None, the moment, and the requests that were sent, the last one
-- first.
pub record World : Type 0 where
  pub jwks : Value
  pub moment : ℕ
  pub sent : List Request

-- if not base_url: raise ValueError; base_url.rstrip("/")
unfoldable pub new_ingest_client : IngestClient → Result IngestClient
unfolding rstrip
new_ingest_client arguments =
    if arguments.base_url == ""
    then fail (value_error "base_url is required")
    else ok (record arguments { base_url = rstrip b'/' arguments.base_url })

-- a or b, for an optional text and a text
unfoldable pub or_else : Option String → String → String
or_else none default = default
or_else (some s) default = if s == "" then default else s

-- a or b, for two optional texts
unfoldable pub or_option : Option String → Option String → Option String
or_option none default = default
or_option (some s) default = if s == "" then default else some s
