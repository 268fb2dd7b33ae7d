-- ===== src/Permissions/Client/Expiry.antt =====
-- How long OpenTermsClient.fetch answers from its cache.
use openterms.Prelude.{
  ℕ, suc, ◌≡◌, refl, sym, ◌∙◌, ap, arith, String, none, some, ◌∷◌, ◌==◌, eq_iff, Bool-cases, inl,
  inr,
}
use openterms.Prelude.Int.{ℤ, pos}
use openterms.Python.{Fields, dict, codes}
use openterms.Permissions.Models.{CacheEntry, is_expired}
use openterms.Permissions.Cache.{Store, find, set, live, get_live}
use openterms.Permissions.Cache.Store.{find-set, update}
use openterms.Permissions.Headers.{parse_max_age, search_max_age, search_no_store}
use openterms.Permissions.Network.{
  Outside, Client, World, Response, Fetched, parsed_dict, ttl_of, fetched_of, accept, fetch_urls,
  fetch_raw, domain_urls, requesting, well_known,
}
use openterms.Permissions.Client.{cached, store_fetched, or_fetch, fetch_normalised}

-- the world after a moment in which nothing was stored or requested
unfoldable pub passed : World → World
passed w = record { store = w.store; moment = suc w.moment; requested = w.requested }

live-immortal :
    (now : ℕ) (domain : String) (store : Store) (entry : CacheEntry)
    → entry.ttl ≡ pos 0
    → live now domain store (some entry) ≡ (some entry, store)
unfolding live is_expired
live-immortal now domain store entry ttl = rw ttl refl

-- An entry whose time to live is 0 answers at every moment, without a request.
pub fetch_normalised-immortal :
    (outside : Outside) (client : Client) (domain : String) (w : World) (entry : CacheEntry)
    → find w.store domain ≡ some entry
    → entry.ttl ≡ pos 0
    → fetch_normalised outside client domain w ≡ (some entry.data_of, passed w)
unfolding fetch_normalised cached or_fetch get_live passed
fetch_normalised-immortal outside client domain w entry stored ttl =
    rw (stored, live-immortal (outside.now w.moment) domain w.store entry ttl) refl

unfoldable pub entry_of : ℕ → Fetched → CacheEntry
entry_of now fetched = record {
  data_of = fetched.document;
  fetched_at = now;
  ttl = fetched.ttl;
  content_hash = fetched.content_hash;
}

accept_document :
    (outside : Outside) (client : Client) (resp : Response) (document : Fields)
    → resp.status_code ≡ 200
    → outside.json resp.text ≡ some (dict document)
    → accept outside client (some resp) ≡ some (fetched_of outside client resp document)
unfolding accept parsed_dict
accept_document outside client resp document status parsed =
    simp (accept, status) (rw (parsed_dict, parsed) refl)

parse_max_age_empty : parse_max_age "" ≡ none
unfolding parse_max_age search_max_age search_no_store codes
parse_max_age_empty = refl

none-some : {n : ℤ} → ¬ (none ≡ some n)
none-some same = ground arith

ttl_of-zero :
    (client : Client) (header : String)
    → parse_max_age header ≡ some (pos 0)
    → ttl_of client header ≡ pos 0
unfolding ttl_of
ttl_of-zero client header says = elim (Bool-cases (header == "")) [
  | inl same ↦ absurd (
      none-some
        (sym parse_max_age_empty ∙ (ap parse_max_age (sym ((eq_iff header "").0 same)) ∙ says)))
  | inr differ ↦ rw (ttl_of, says, differ) refl
]

-- What `fetch` does for a domain with no entry whose first address gives a document.
fetch_normalised-first :
    (outside : Outside) (client : Client) (domain : String) (w : World) (fetched : Fetched)
    → find w.store domain ≡ none
    → accept outside client (outside.http (suc w.moment) (well_known domain)) ≡ some fetched
    → (now : ℕ) × (fetch_normalised outside client domain w ≡ (
      some fetched.document,
      record {
        store = set domain (entry_of now fetched) w.store;
        moment = suc (suc (suc w.moment));
        requested = well_known domain ∷ w.requested;
      },
    ))
unfolding fetch_normalised cached or_fetch get_live live fetch_raw fetch_urls domain_urls
    store_fetched entry_of requesting
fetch_normalised-first outside client domain w fetched missing accepted = (
  outside.now (suc (suc w.moment)),
  rw (missing) (rw (or_fetch, live, fetch_raw, fetch_urls, accepted) refl),
)

find-set_same :
    (store : Store) (domain : String) (new : CacheEntry)
    → find (set domain new store) domain ≡ some new
unfolding update
find-set_same store domain new =
    find-set store domain new domain ∙ rw ((eq_iff domain domain).1 refl) refl

-- A response with a Cache-Control header that asks for no storing is cached for good: when `fetch`
-- took a document from the first address of a domain that had no entry, and `_parse_max_age` gives 0 for
-- the response's header, then as long as the cache stays as it is `fetch` answers with this document at
-- every later moment, and sends no request.
pub fetch-no_store :
    (outside : Outside) (client : Client) (domain : String) (w : World) (resp : Response)
    (document : Fields)
    → find w.store domain ≡ none
    → outside.http (suc w.moment) (well_known domain) ≡ some resp
    → resp.status_code ≡ 200
    → outside.json resp.text ≡ some (dict document)
    → parse_max_age resp.cache_control ≡ some (pos 0)
    → ((fetch_normalised outside client domain w).0 ≡ some document)
      × ((v : World)
          → v.store ≡ (fetch_normalised outside client domain w).1.store
          → fetch_normalised outside client domain v ≡ (some document, passed v))
unfolding entry_of fetched_of
fetch-no_store outside client domain w resp document missing got status parsed says =
    let fetched : Fetched = fetched_of outside client resp document in
    let (now, e) = fetch_normalised-first outside client domain w fetched missing (
      ap (accept outside client) got
      ∙ accept_document outside client resp document status parsed) in
    (
      ap (λ r. r.0) e,
      λ v stays.
          fetch_normalised-immortal outside client domain v (entry_of now fetched)
            (ap (λ store. find store domain) (stays ∙ ap (λ r. r.1.store) e)
              ∙ find-set_same w.store domain (entry_of now fetched))
            (ttl_of-zero client resp.cache_control says),
    )
