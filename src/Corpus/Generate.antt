-- ===== src/Corpus/Generate.antt =====
-- The receipts that `main` of packages/openterms-py/scripts/generate_corpus.py generates.
use openterms.Prelude.{ℕ, suc, String, none, some, List, [], ◌∷◌, map}
use openterms.Python.{str, dict, Fields, Builtins, Result, ok, fail, key_error, lookup}
use openterms.Policy.Clock.{◌>>=◌, untimed}
use openterms.Receipts.Canonical.{Bytes}
use openterms.Receipts.Crypto.{Crypto}
use openterms.Receipts.Signing.{key_object, sign_receipt, build_jwks}
use openterms.Corpus.Scenario.{Bucket, Scenario, Random, Draw}
use openterms.Corpus.Times.{Datetimes}
use openterms.Corpus.Keys.{SigningKey, make_keys}
use openterms.Corpus.Uuids.{deterministic_uuid_v4}
use openterms.Corpus.Payload.{ChainState, no_chain, build_receipt_payload}
use openterms.Corpus.Schedule.{build_bucket_assignments, assign_timestamps}

-- rng.choices(kid_choices, weights=weights, k=1)[0]
unfoldable pub choose_kid : Random → List (String × SigningKey) → Draw String
choose_kid rng keys n =
    (ok (rng.choices n (map (λ k. k.0) keys) (map (λ k. k.1.entry.share) keys)), suc n)

-- keys[kid][0]
unfoldable pub seed_of : List (String × SigningKey) → String → Result Bytes
unfolding lookup
seed_of keys kid = elim (lookup keys kid) [ none ↦ fail (key_error kid) | some key ↦ ok key.seed ]

-- what the generator reads besides the scenario
pub record Tools : Type 0 where
  pub py : Builtins
  pub crypto : Crypto
  pub rng : Random
  pub dates : Datetimes

-- one round of the loop over the pairs: the signed receipt, and the chain state behind it
unfoldable pub generate_one :
    Tools
    → Scenario
    → List (String × SigningKey)
    → ℕ × Bucket
    → ChainState
    → Draw (Fields × ChainState)
unfolding choose_kid deterministic_uuid_v4 build_receipt_payload seed_of
generate_one tools scenario keys (when, bucket) chain_state = do
  kid ← choose_kid tools.rng keys
  receipt_id ← deterministic_uuid_v4 tools.rng
  built ← build_receipt_payload tools.rng tools.dates scenario bucket when receipt_id chain_state
  seed ← untimed (seed_of keys kid)
  signed ← untimed (sign_receipt tools.py tools.crypto (dict built.0) (key_object seed) (str kid))
  untimed (ok (signed, built.1))

-- the loop
unfoldable pub generate_loop :
    Tools
    → Scenario
    → List (String × SigningKey)
    → List (ℕ × Bucket)
    → ChainState
    → Draw (List Fields)
unfolding generate_one
generate_loop tools scenario keys [] chain_state = untimed (ok [])
generate_loop tools scenario keys (pair ∷ pairs) chain_state = do
  made ← generate_one tools scenario keys pair chain_state
  receipts ← generate_loop tools scenario keys pairs made.1
  untimed (ok (made.0 ∷ receipts))

-- `main` up to the receipts: the JWKS and the receipts
unfoldable pub generate_receipts : Tools → Scenario → Draw (Fields × List Fields)
unfolding make_keys build_jwks build_bucket_assignments assign_timestamps generate_loop
generate_receipts tools scenario = do
  keys ← untimed (make_keys tools.crypto scenario.seed scenario.keys [])
  let jwks = build_jwks (map (λ k. (tools.crypto.public_key k.1.seed, k.0)) keys)
  buckets ← untimed (build_bucket_assignments tools.py scenario)
  pairs ← untimed (assign_timestamps tools.dates scenario buckets)
  receipts ← generate_loop tools scenario keys pairs no_chain
  untimed (ok (jwks, receipts))
