-- ===== src/Permissions/Client.antt =====
-- packages/openterms-py/openterms/permissions/client.py: the methods of OpenTermsClient.
pub mod Expiry
pub mod Decision
use openterms.Prelude.{suc, String, true, false, Option, none, some, ◌==◌}
use openterms.Python.{
  Value, null, bool, int, float, str, list, dict, Fields, end, field, other, Result, ok, fail,
  ◌>>=◌, attribute_error, get, get_or,
}
use openterms.Permissions.Models.{
  CacheEntry, PermissionDecision, allow, deny, not_specified, Source, cache, network, CheckResult,
  DiscoveryResult, discovery_from_dict, PermissionReceipt,
}
use openterms.Permissions.Cache.{get_live, set, delete, clear}
use openterms.Permissions.Headers.{TextMethods, normalise_domain}
use openterms.Permissions.Network.{Outside, Client, World, Fetched, fetch_raw}

-- self._cache.get(domain)
unfoldable pub cached : Outside → String → World → Option CacheEntry × World
unfolding get_live
cached outside domain w =
    let r = get_live (outside.now w.moment) domain w.store in
    (r.0, record { store = r.1; moment = suc w.moment; requested = w.requested })

-- step 3 of `fetch`
unfoldable pub store_fetched : Outside → String → Option Fetched × World → Option Fields × World
unfolding set
store_fetched outside domain (none, w) = (none, w)
store_fetched outside domain (some fetched, w) = (
  some fetched.document,
  record {
    store =
        set domain
          (record {
            data_of = fetched.document;
            fetched_at = outside.now w.moment;
            ttl = fetched.ttl;
            content_hash = fetched.content_hash;
          })
          w.store;
    moment = suc w.moment;
    requested = w.requested;
  },
)

-- steps 2 and 3 of `fetch`, for a missing entry
unfoldable pub or_fetch :
    Outside → Client → String → Option CacheEntry × World → Option Fields × World
unfolding fetch_raw store_fetched
or_fetch outside client domain (some entry, w) = (some entry.data_of, w)
or_fetch outside client domain (none, w) =
    store_fetched outside domain (fetch_raw outside client domain w)

-- `fetch`, for a normalised domain
unfoldable pub fetch_normalised : Outside → Client → String → World → Option Fields × World
unfolding cached or_fetch
fetch_normalised outside client domain w = or_fetch outside client domain (cached outside domain w)

-- `OpenTermsClient.fetch`
unfoldable pub fetch : Outside → Client → String → World → Option Fields × World
unfolding fetch_normalised normalise_domain
fetch outside client domain w =
    fetch_normalised outside client (normalise_domain outside.text domain) w

-- The loop over the items of the permissions: the value of the first key that is the action, up to
-- case, and None if there is none.
unfoldable pub find_permission : TextMethods → String → Fields → Result Value
find_permission text action_lower end = ok null
find_permission text action_lower (field key val permissions) =
    elim (text.lower key == action_lower) [
      | true ↦ ok val
      | false ↦ find_permission text action_lower permissions
    ]
find_permission text action_lower (other key val permissions) = fail attribute_error

-- permissions.items()
unfoldable pub raw_permission : TextMethods → String → Value → Result Value
unfolding find_permission
raw_permission text action_lower (dict permissions) = find_permission text action_lower permissions
raw_permission text action_lower _ = fail attribute_error

-- the decision for allowed is True, or allowed is False
unfoldable pub decision_of_allowed : Option Value → PermissionDecision
decision_of_allowed (some (bool true)) = allow
decision_of_allowed (some (bool false)) = deny
decision_of_allowed _ = not_specified

unfoldable pub decision_of_raw : Value → PermissionDecision
unfolding decision_of_allowed get
decision_of_raw (bool true) = allow
decision_of_raw (bool false) = deny
decision_of_raw (dict d) = decision_of_allowed (get d "allowed")
decision_of_raw _ = not_specified

-- `check` from `data` on
unfoldable pub check_data :
    TextMethods → String → String → Source → Option Fields → Result CheckResult
unfolding raw_permission decision_of_raw get_or
check_data text domain action source none = ok (record {
  domain = domain;
  action = action;
  decision = not_specified;
  raw_value = null;
  source = source;
})
check_data text domain action source (some document) = do
  raw_value ← raw_permission text (text.lower action) (get_or document "permissions" (dict end))
  ok (record {
    domain = domain;
    action = action;
    decision = decision_of_raw raw_value;
    raw_value = raw_value;
    source = source;
  })

unfoldable pub source_of : Option CacheEntry → Source
source_of none = network
source_of (some _) = cache

-- `OpenTermsClient.check`, which normalises the domain before `fetch` does so again
unfoldable pub check : Outside → Client → String → String → World → Result CheckResult × World
unfolding cached fetch check_data source_of normalise_domain
check outside client domain action w =
    let domain = normalise_domain outside.text domain in
    let before = cached outside domain w in
    let fetched = fetch outside client domain before.1 in
    (check_data outside.text domain action (source_of before.0) fetched.0, fetched.1)

unfoldable pub discovery_of : Option Fields → Result (Option DiscoveryResult)
unfolding discovery_from_dict get_or
discovery_of none = ok none
discovery_of (some document) = elim (get_or document "discovery" null) [
  | null ↦ ok none
  | bool b ↦ fail attribute_error
  | int n ↦ fail attribute_error
  | float x ↦ fail attribute_error
  | str s ↦ fail attribute_error
  | list vs ↦ fail attribute_error
  | dict d ↦ (do found ← discovery_from_dict (dict d); ok (some found))
]

-- `OpenTermsClient.discover`
unfoldable pub discover :
    Outside → Client → String → World → Result (Option DiscoveryResult) × World
unfolding fetch discovery_of normalise_domain
discover outside client domain w =
    let fetched = fetch outside client (normalise_domain outside.text domain) w in
    (discovery_of fetched.0, fetched.1)

unfoldable pub hash_of : Option CacheEntry → String
hash_of none = ""
hash_of (some entry) = entry.content_hash

-- `OpenTermsClient.permission_receipt`
unfoldable pub permission_receipt :
    Outside → String → String → PermissionDecision → World → PermissionReceipt × World
unfolding cached hash_of normalise_domain
permission_receipt outside domain action decision w =
    let domain = normalise_domain outside.text domain in
    let found = cached outside domain w in
    (
      record {
        domain = domain;
        action = action;
        decision = decision;
        timestamp = outside.timestamp found.1.moment;
        openterms_hash = hash_of found.0;
      },
      found.1,
    )

-- `OpenTermsClient.clear_cache`
unfoldable pub clear_cache : Outside → Option String → World → World
unfolding delete clear normalise_domain
clear_cache outside none w = record {
  store = clear w.store;
  moment = w.moment;
  requested = w.requested;
}
clear_cache outside (some domain) w = record {
  store = delete (normalise_domain outside.text domain) w.store;
  moment = w.moment;
  requested = w.requested;
}
