-- ===== src/Corpus/Scenario.antt =====
-- The scenario of packages/openterms-py/scripts/generate_corpus.py, and its random generator.
use openterms.Prelude.{
  ℕ, suc, String, Bool, none, some, List, [], ◌∷◌, length, get_elem?, if◌then◌else◌,
}
use openterms.Prelude.Int.{ℤ, pos, negsuc, ltb_ℤ}
use openterms.Python.{value_error, index_error, Result, ok, fail}
use openterms.Receipts.Canonical.{Bytes}
use openterms.Receipts.Crypto.{hex}
use openterms.Policy.Clock.{Timed, ◌>>=◌, untimed}

-- the names of the buckets
pub data Bucket : Type 0 where
  model_training : Bucket
  max_amount : Bucket
  url_off_list : Bucket
  url_blocked : Bucket
  args_debug : Bucket
  daily_limit : Bucket
  escalation_only : Bucket
  tool_off_list : Bucket
  post_state_mismatch : Bucket
  stress : Bucket
  allow : Bucket

-- `BUCKET_ORDER`
abbrev pub bucket_order : List Bucket
bucket_order =
    model_training ∷ max_amount ∷ url_off_list ∷ url_blocked ∷ args_debug ∷ daily_limit
    ∷ escalation_only ∷ tool_off_list ∷ post_state_mismatch ∷ stress ∷ allow ∷ []

pub record Amounts : Type 0 where
  pub max_amount_min : ℤ
  pub max_amount_max : ℤ
  pub stress_min : ℤ
  pub stress_max : ℤ
  pub daily_limit_per_receipt : ℤ
  pub escalation_only_min : ℤ
  pub escalation_only_max : ℤ
  pub allow_max : ℤ

-- an entry of "keys"; the share is a float
pub record KeyEntry : Type 0 where
  pub kid : String
  pub share : String

-- tests/fixtures/corpus/scenario.json, with the entries that the generator reads, each of the type that
-- it has there
pub record Scenario : Type 0 where
  pub seed : ℕ
  pub workspace_id : String
  pub count : ℕ
  pub window_start : String
  pub window_end : String
  pub keys : List KeyEntry
  pub issuer : String
  pub agents : List String
  pub tools_allowed : List String
  pub tools_off_list : List String
  pub tool_debug : String
  pub terms_urls_allowed : List String
  pub terms_url_off_list : String
  pub terms_url_blocked : String
  pub buckets : Bucket → ℕ
  pub amounts : Amounts

-- A random.Random with its seed: what it gives at its n-th call. `randrange` is asked for a range that
-- is not empty, `random_below` whether random() is below a float.
pub record Random : Type 0 where
  pub randrange : ℕ → ℤ → ℤ → ℤ
  pub random_below : ℕ → String → Bool
  pub randbytes : ℕ → ℕ → Bytes
  pub choices : ℕ → List String → List String → String

-- an action that draws; it carries the number of calls made so far
abbrev pub Draw : Type 0 → Type 0
Draw = Timed

-- rng.randrange(start, stop)
unfoldable pub draw_range : Random → ℤ → ℤ → Draw ℤ
draw_range rng start stop n =
    if ltb_ℤ start stop
    then (ok (rng.randrange n start stop), suc n)
    else (fail (value_error "empty range for randrange()"), n)

-- rng.random() < bound
unfoldable pub draw_below : Random → String → Draw Bool
draw_below rng bound n = (ok (rng.random_below n bound), suc n)

unfoldable pub draw_bytes : Random → ℕ → Draw Bytes
draw_bytes rng size n = (ok (rng.randbytes n size), suc n)

-- values[i]; `randrange` from 0 gives no negative index
unfoldable pub elem_at : List String → ℤ → Result String
elem_at values (pos i) = elim (get_elem? values i) [ none ↦ fail index_error | some v ↦ ok v ]
elem_at values (negsuc _) = fail index_error

-- `pick`
unfoldable pub pick : Random → List String → Draw String
unfolding draw_range elem_at
pick rng values = do i ← draw_range rng (pos 0) (pos (length values)); untimed (elem_at values i)

-- `deterministic_hex`
unfoldable pub deterministic_hex : Random → ℕ → Draw String
unfolding draw_bytes hex
deterministic_hex rng n_bytes = do bytes ← draw_bytes rng n_bytes; untimed (ok (hex bytes))
