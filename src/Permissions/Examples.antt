-- ===== src/Permissions/Examples.antt =====
-- Runs of the permission client, and its theorems at concrete inputs.
use openterms.Prelude.{◌≡◌, ◌↔◌, refl, String, true, none, some, [], ◌∷◌}
use openterms.Prelude.Int.{pos}
use openterms.Python.{bool, dict, Fields, end, field}
use openterms.Permissions.Models.{CacheEntry, allow, network, CheckResult}
use openterms.Permissions.Cache.{find, set, delete, get_live}
use openterms.Permissions.Cache.Store.{update, unexpired, cache_is_map}
use openterms.Permissions.Headers.{normalise_domain, parse_max_age}
use openterms.Permissions.Network.{Outside, Client, World, Response}
use openterms.Permissions.Client.{fetch_normalised, fetch, check, cached}
use openterms.Permissions.Client.Expiry.{passed, fetch-no_store}
use openterms.Permissions.Client.Decision.{decision_for, Grants, check-Grants}

abbrev terms_document : Fields
terms_document =
    field "permissions"
      (dict (
        field "api_access" (bool true)
          (field "scrape_data" (dict (field "allowed" (bool true) end)) end)))
      end

abbrev ok_response : Response
ok_response = record { status_code = 200; text = "{…}"; cache_control = "private, No-Store" }

abbrev world_outside : Outside
world_outside = record {
  now = λ m. m;
  timestamp = λ m. "2026-01-01T00:00:00Z";
  http = λ m url. some ok_response;
  json = λ text. some (dict terms_document);
  digest = λ text. "00";
  text = record { lower = λ s. s; strip = λ s. s };
}

abbrev plain_client : Client
plain_client = record { default_ttl = pos 3600; registry_url = none }

abbrev fresh : World
fresh = record { store = []; moment = 0; requested = [] }

abbrev entry : CacheEntry
entry = record { data_of = end; fetched_at = 0; ttl = pos 1; content_hash = "" }

parse_max_age_test : parse_max_age "public, MAX-AGE=120" ≡ some (pos 120)
unfolding parse_max_age
parse_max_age_test = refl

normalise_domain_test : normalise_domain world_outside.text "https://acme.com/path" ≡ "acme.com"
unfolding normalise_domain
normalise_domain_test = refl

cache_is_map_example :
    ((d : String)
      → find (set "b" entry (("a", entry) ∷ [])) d
        ≡ update "b" (some entry) (find (("a", entry) ∷ [])) d)
    × ((d : String)
        → find (delete "b" (("a", entry) ∷ [])) d ≡ update "b" none (find (("a", entry) ∷ [])) d)
    × ((get_live 5 "b" (("a", entry) ∷ [])).0 ≡ unexpired 5 (find (("a", entry) ∷ []) "b"))
    × ((d : String)
        → find (get_live 5 "b" (("a", entry) ∷ [])).1 d
          ≡ update "b" (unexpired 5 (find (("a", entry) ∷ []) "b")) (find (("a", entry) ∷ [])) d)
cache_is_map_example = cache_is_map (("a", entry) ∷ []) "b" entry 5

fetch-no_store_example :
    ((fetch_normalised world_outside plain_client "acme.com" fresh).0 ≡ some terms_document)
    × ((v : World)
        → v.store ≡ (fetch_normalised world_outside plain_client "acme.com" fresh).1.store
        → fetch_normalised world_outside plain_client "acme.com" v
          ≡ (some terms_document, passed v))
unfolding find parse_max_age
fetch-no_store_example =
    fetch-no_store world_outside plain_client "acme.com" fresh ok_response terms_document refl refl
      refl refl refl

abbrev scrape_result : CheckResult
scrape_result = record {
  domain = "acme.com";
  action = "scrape_data";
  decision = allow;
  raw_value = dict (field "allowed" (bool true) end);
  source = network;
}

check-Grants_example :
    (scrape_result.decision ≡ decision_for true)
    ↔ Grants world_outside.text "scrape_data" true
        (fetch world_outside plain_client
          (normalise_domain world_outside.text "acme.com")
          (cached world_outside (normalise_domain world_outside.text "acme.com") fresh).1).0
unfolding check
check-Grants_example =
    check-Grants world_outside plain_client "acme.com" "scrape_data" fresh scrape_result refl true
