-- ===== src/Permissions/Models.antt =====
-- packages/openterms-py/openterms/permissions/models.py. Times are in nanoseconds.
use openterms.Prelude.{
  ℕ, ◌+◌, ◌*◌, String, Bool, true, false, List, [], ◌∷◌, ◌==◌, eqb, ltb, if◌then◌else◌,
}
use openterms.Prelude.Int.{ℤ, pos, negsuc}
use openterms.Python.{
  Value, null, str, list, dict, Values, nil, cons, Fields, end, field, Result, ok, fail, ◌>>=◌,
  type_error, attribute_error, get_or, subscript,
}

abbrev pub nanoseconds : ℕ
nanoseconds = 1000000000

pub record CacheEntry : Type 0 where
  pub data_of : Fields
  pub fetched_at : ℕ
  pub ttl : ℤ
  pub content_hash : String

-- `CacheEntry.is_expired` at a reading of the clock
unfoldable pub is_expired : CacheEntry → ℕ → Bool
is_expired entry now = elim entry.ttl [
  | pos n ↦ (if eqb n 0 then false else ltb (entry.fetched_at + n * nanoseconds) now)
  | negsuc _ ↦ false
]

pub data PermissionDecision : Type 0 where
  allow : PermissionDecision
  deny : PermissionDecision
  not_specified : PermissionDecision

pub data Source : Type 0 where
  cache : Source
  network : Source

pub record CheckResult : Type 0 where
  pub domain : String
  pub action : String
  pub decision : PermissionDecision
  pub raw_value : Value
  pub source : Source

-- `CheckResult.__bool__`
unfoldable pub is_allowed : CheckResult → Bool
is_allowed result = elim result.decision [ allow ↦ true | deny ↦ false | not_specified ↦ false ]

pub record McpServer : Type 0 where
  pub url : Value
  pub transport : Value
  pub description : Value

pub record ApiSpec : Type 0 where
  pub url : Value
  pub kind : Value
  pub description : Value

pub record DiscoveryResult : Type 0 where
  pub mcp_servers : List McpServer
  pub api_specs : List ApiSpec

-- s.get(k)
abbrev pub description_of : Value → Result Value
unfolding get_or
description_of (dict d) = ok (get_or d "description" null)
description_of _ = fail attribute_error

unfoldable pub mcp_server_from : Value → Result McpServer
unfolding subscript
mcp_server_from s = do
  url ← subscript s "url"
  transport ← subscript s "transport"
  description ← description_of s
  ok (record { url = url; transport = transport; description = description })

unfoldable pub api_spec_from : Value → Result ApiSpec
unfolding subscript
api_spec_from s = do
  url ← subscript s "url"
  kind ← subscript s "type"
  description ← description_of s
  ok (record { url = url; kind = kind; description = description })

-- [read(s) for s in vs]
unfoldable pub read_items : {A : Type 0} → (Value → Result A) → Values → Result (List A)
read_items read nil = ok []
read_items read (cons v vs) = do x ← read v; xs ← read_items read vs; ok (x ∷ xs)

-- [read(s) for s in v]: what iterating over a dictionary or a text gives is a text, which has no
-- entry "url".
unfoldable pub read_each : {A : Type 0} → (Value → Result A) → Value → Result (List A)
unfolding read_items
read_each read (list vs) = read_items read vs
read_each read (dict end) = ok []
read_each read (str s) = if s == "" then ok [] else fail type_error
read_each read _ = fail type_error

-- `DiscoveryResult.from_dict`
unfoldable pub discovery_from_dict : Value → Result DiscoveryResult
unfolding read_each mcp_server_from api_spec_from get_or
discovery_from_dict (dict d) = do
  mcp_servers ← read_each mcp_server_from (get_or d "mcp_servers" (list nil))
  api_specs ← read_each api_spec_from (get_or d "api_specs" (list nil))
  ok (record { mcp_servers = mcp_servers; api_specs = api_specs })
discovery_from_dict _ = fail attribute_error

pub record PermissionReceipt : Type 0 where
  pub domain : String
  pub action : String
  pub decision : PermissionDecision
  pub timestamp : String
  pub openterms_hash : String

unfoldable pub decision_text : PermissionDecision → String
decision_text allow = "allow"
decision_text deny = "deny"
decision_text not_specified = "not_specified"

-- `PermissionReceipt.to_dict`
unfoldable pub receipt_to_dict : PermissionReceipt → Fields
unfolding decision_text
receipt_to_dict r = field "domain" (str r.domain) (
    field "action" (str r.action) (
      field "decision" (str (decision_text r.decision))
        (field "timestamp" (str r.timestamp) (field "openterms_hash" (str r.openterms_hash) end))))
