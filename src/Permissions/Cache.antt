-- ===== src/Permissions/Cache.antt =====
-- packages/openterms-py/openterms/permissions/cache.py. A method runs under the lock from its first
-- statement to its last, so it is one step on the store.
use openterms.Prelude.{
  ℕ, suc, zero, String, Bool, true, false, Option, none, some, List, [], ◌∷◌, ◌==◌, length,
  if◌then◌else◌,
}
pub mod Store
use openterms.Permissions.Models.{CacheEntry, is_expired}

-- `_store`, in insertion order
abbrev pub Store : Type 0
Store = List (String × CacheEntry)

-- self._store.get(domain)
unfoldable pub find : Store → String → Option CacheEntry
find [] domain = none
find ((d, entry) ∷ store) domain = if d == domain then some entry else find store domain

-- `TermsCache.delete`, and del self._store[domain]
unfoldable pub delete : String → Store → Store
delete domain [] = []
delete domain ((d, entry) ∷ store) =
    let rest = delete domain store in if d == domain then rest else (d, entry) ∷ rest

-- `TermsCache.set`: in place, or at the end for a new domain
unfoldable pub set : String → CacheEntry → Store → Store
set domain new [] = (domain, new) ∷ []
set domain new ((d, entry) ∷ store) =
    let rest = set domain new store in if d == domain then (d, new) ∷ store else (d, entry) ∷ rest

-- what `TermsCache.get` does with what the store has for the domain
unfoldable pub live : ℕ → String → Store → Option CacheEntry → Option CacheEntry × Store
unfolding is_expired delete
live now domain store none = (none, store)
live now domain store (some entry) =
    if is_expired entry now then (none, delete domain store) else (some entry, store)

-- `TermsCache.get`, at a reading of the clock
unfoldable pub get_live : ℕ → String → Store → Option CacheEntry × Store
unfolding find live
get_live now domain store = live now domain store (find store domain)

-- `TermsCache.clear`
unfoldable pub clear : Store → Store
clear store = []

-- `TermsCache.__len__`
unfoldable pub size : Store → ℕ
size store = length store
