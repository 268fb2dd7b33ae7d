-- ===== src/Permissions/Network.antt =====
-- packages/openterms-py/openterms/permissions/client.py: what a client is, and `_fetch_raw`.
use openterms.Prelude.{
  ℕ, suc, String, true, false, Option, none, some, List, [], ◌∷◌, ◌==◌, eqb, if◌then◌else◌,
}
use openterms.Prelude.Int.{ℤ}
use openterms.Python.{Value, dict, Fields, has, join_text, rstrip}
use openterms.Permissions.Cache.{Store}
use openterms.Permissions.Headers.{TextMethods, parse_max_age}

pub record Response : Type 0 where
  pub status_code : ℕ
  pub text : String
  -- headers.get("Cache-Control", "")
  pub cache_control : String

-- What the client calls. The clock and the network are read at a moment, which passes with each call;
-- `http` is session.get with the client's time limit and User-Agent header, and `none` a
-- RequestException; `json` is json.loads, and `none` a JSONDecodeError; `digest` is `_sha256`.
pub record Outside : Type 0 where
  pub now : ℕ → ℕ
  pub timestamp : ℕ → String
  pub http : ℕ → String → Option Response
  pub json : String → Option Value
  pub digest : String → String
  pub text : TextMethods

-- The attributes that the client's methods read. Every client is taken to use the module's cache.
pub record Client : Type 0 where
  pub default_ttl : ℤ
  pub registry_url : Option String

-- The cache, the moment, and the addresses that were requested, the last one first.
pub record World : Type 0 where
  pub store : Store
  pub moment : ℕ
  pub requested : List String

-- `OpenTermsClient.__init__`
unfoldable pub new_client : ℤ → Option String → Client
unfolding rstrip
new_client default_ttl none = record { default_ttl = default_ttl; registry_url = none }
new_client default_ttl (some url) = record {
  default_ttl = default_ttl;
  registry_url = if url == "" then none else some (rstrip b'/' url);
}

-- A parsed document, its hash and its time to live; `_fetch_raw` returns (None, "", 0) for none.
pub record Fetched : Type 0 where
  pub document : Fields
  pub content_hash : String
  pub ttl : ℤ

-- if cc_header: parsed_ttl = _parse_max_age(cc_header), ...
unfoldable pub ttl_of : Client → String → ℤ
unfolding parse_max_age
ttl_of client cc_header = elim (parse_max_age cc_header) [
  | none ↦ client.default_ttl
  | some parsed_ttl ↦ (if cc_header == "" then client.default_ttl else parsed_ttl)
]

unfoldable pub fetched_of : Outside → Client → Response → Fields → Fetched
unfolding ttl_of
fetched_of outside client resp parsed = record {
  document = parsed;
  content_hash = outside.digest resp.text;
  ttl = ttl_of client resp.cache_control;
}

-- the parsed text, if it is a dictionary
unfoldable pub parsed_dict : Option Value → Option Fields
parsed_dict (some (dict d)) = some d
parsed_dict _ = none

-- a response of the domain itself
unfoldable pub accept : Outside → Client → Option Response → Option Fetched
unfolding parsed_dict fetched_of
accept outside client none = none
accept outside client (some resp) = elim (eqb resp.status_code 200) [
  | false ↦ none
  | true ↦ (elim (parsed_dict (outside.json resp.text)) [
    | none ↦ none
    | some parsed ↦ some (fetched_of outside client resp parsed)
  ])
]

refuse_error : Option Fetched → Option Fetched
unfolding has
refuse_error none = none
refuse_error (some fetched) = if has fetched.document "error" then none else some fetched

-- a response of the registry, whose document has no entry "error"
unfoldable pub accept_registry : Outside → Client → Option Response → Option Fetched
unfolding accept refuse_error
accept_registry outside client response = refuse_error (accept outside client response)

-- the world behind a request
unfoldable pub requesting : String → World → World
requesting url w = record { store = w.store; moment = suc w.moment; requested = url ∷ w.requested }

-- The loop over the addresses; `rest` is what follows it.
unfoldable pub fetch_urls :
    Outside
    → Client
    → List String
    → (World → Option Fetched × World)
    → World
    → Option Fetched × World
unfolding accept requesting
fetch_urls outside client [] rest w = rest w
fetch_urls outside client (url ∷ urls) rest w =
    elim (accept outside client (outside.http w.moment url)) [
      | some fetched ↦ (some fetched, requesting url w)
      | none ↦ fetch_urls outside client urls rest (requesting url w)
    ]

unfoldable pub fetch_registry : Outside → Client → String → World → Option Fetched × World
unfolding accept_registry requesting join_text
fetch_registry outside client domain w = elim client.registry_url [
  | none ↦ (none, w)
  | some base ↦
      (let url = join_text (base ∷ "/" ∷ domain ∷ []) in
        if base == ""
        then (none, w)
        else (accept_registry outside client (outside.http w.moment url), requesting url w))
]

-- the first address that a domain's document is looked for at
unfoldable pub well_known : String → String
unfolding join_text
well_known domain = join_text ("https://" ∷ domain ∷ "/.well-known/openterms.json" ∷ [])

unfoldable pub domain_urls : String → List String
unfolding join_text well_known
domain_urls domain =
    well_known domain ∷ join_text ("https://" ∷ domain ∷ "/openterms.json" ∷ []) ∷ []

-- `_fetch_raw`
unfoldable pub fetch_raw : Outside → Client → String → World → Option Fetched × World
unfolding fetch_urls fetch_registry domain_urls
fetch_raw outside client domain w =
    fetch_urls outside client (domain_urls domain) (fetch_registry outside client domain) w
