-- ===== src/Permissions/Cache/Store.antt =====
-- The cache of packages/openterms-py/openterms/permissions/cache.py as a partial map from domains to
-- entries, which forgets the order of the store.
use openterms.Prelude.{
  ℕ, ◌≡◌, refl, ◌∙◌, arith, String, true, false, Option, none, some, [], ◌∷◌, ◌==◌, eq_iff,
  if◌then◌else◌, Bool-cases, inl, inr,
}
use openterms.Permissions.Models.{CacheEntry, is_expired}
use openterms.Permissions.Cache.{Store, find, delete, set, live, get_live}

-- the map with one domain's entry replaced
unfoldable pub update :
    String → Option CacheEntry → (String → Option CacheEntry) → String → Option CacheEntry
update domain new map d = if domain == d then new else map d

-- an entry that has not expired at a reading of the clock
unfoldable pub unexpired : ℕ → Option CacheEntry → Option CacheEntry
unfolding is_expired
unexpired now none = none
unexpired now (some entry) = if is_expired entry now then none else some entry

eq_test : (k j : String) → (k == j) ≡ true → k ≡ j
eq_test k j = (eq_iff k j).0

test_refl : (k : String) → (k == k) ≡ true
test_refl k = (eq_iff k k).1 refl

test_sym : (k j : String) → (k == j) ≡ false → (j == k) ≡ false
test_sym k j differ = elim (Bool-cases (j == k)) [
  | inl same ↦ rw (eq_test j k same) (rw (eq_test j k same) at differ)
  | inr differ' ↦ differ'
]

pub find-set :
    (store : Store) (domain : String) (new : CacheEntry) (d : String)
    → find (set domain new store) d ≡ update domain (some new) (find store) d
unfolding find set update
find-set [] domain new d = refl
find-set ((key, entry) ∷ store) domain new d = elim (Bool-cases (key == domain)) [
  | inl same ↦ rw (← eq_test key domain same, test_refl key) (ground (arith))
  | inr differ ↦ (elim (Bool-cases (key == d)) [
    | inl here ↦ rw (differ, ← eq_test key d here, test_refl key, test_sym key domain differ) refl
    | inr elsewhere ↦ rw (differ, elsewhere) (find-set store domain new d)
  ])
]

-- a domain's first entry does not matter where the domain is removed
hidden :
    (d key domain : String) (entry : CacheEntry) (store : Store)
    → key ≡ domain
    → update domain none (find store) d ≡ update domain none (find ((key, entry) ∷ store)) d
unfolding find update
hidden d key domain entry store same = rw (← same) (ground arith)

pub find-delete :
    (store : Store) (domain : String) (d : String)
    → find (delete domain store) d ≡ update domain none (find store) d
unfolding find delete update
find-delete [] domain d = ground arith
find-delete ((key, entry) ∷ store) domain d = elim (Bool-cases (key == domain)) [
  | inl same ↦
      rw same
        (find-delete store domain d ∙ hidden d key domain entry store (eq_test key domain same))
  | inr differ ↦ (elim (Bool-cases (key == d)) [
    | inl here ↦ rw (differ, ← eq_test key d here, test_refl key, test_sym key domain differ) refl
    | inr elsewhere ↦ rw (differ, elsewhere) (find-delete store domain d)
  ])
]

update_same :
    (store : Store) (domain d : String)
    → find store d ≡ update domain (find store domain) (find store) d
unfolding update
update_same store domain d = elim (Bool-cases (domain == d)) [
  | inl here ↦ rw (here, eq_test domain d here) refl
  | inr elsewhere ↦ rw elsewhere refl
]

find-live :
    (now : ℕ) (domain : String) (store : Store) (d : String) (found : Option CacheEntry)
    → found ≡ find store domain
    → find (live now domain store found).1 d ≡ update domain (unexpired now found) (find store) d
unfolding live unexpired
find-live now domain store d none looked = rw looked (update_same store domain d)
find-live now domain store d (some entry) looked = elim (Bool-cases (is_expired entry now)) [
  | inl expired ↦ rw expired (find-delete store domain d)
  | inr fresh ↦ rw (fresh, looked) (update_same store domain d)
]

live-unexpired :
    (now : ℕ) (domain : String) (store : Store) (found : Option CacheEntry)
    → (live now domain store found).0 ≡ unexpired now found
unfolding live unexpired
live-unexpired now domain store none = refl
live-unexpired now domain store (some entry) = ground arith

-- The cache is a partial map from domains to entries. `set` replaces one domain's entry, `delete`
-- removes it, and `get` answers with the entry unless it has expired, and removes it if it has.
pub cache_is_map :
    (store : Store) (domain : String) (new : CacheEntry) (now : ℕ)
    → ((d : String) → find (set domain new store) d ≡ update domain (some new) (find store) d)
      × ((d : String) → find (delete domain store) d ≡ update domain none (find store) d)
      × ((get_live now domain store).0 ≡ unexpired now (find store domain))
      × ((d : String)
          → find (get_live now domain store).1 d
            ≡ update domain (unexpired now (find store domain)) (find store) d)
unfolding get_live
cache_is_map store domain new now = (
  find-set store domain new,
  find-delete store domain,
  live-unexpired now domain store (find store domain),
  λ d. find-live now domain store d (find store domain) refl,
)
